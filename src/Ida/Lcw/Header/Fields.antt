-- ===== src/Ida/Lcw/Header/Fields.antt =====
-- ida_decode.c, `format_lcw_header`: the fields and runs of digits as numbers.
use native.Mathlib.Nat.{
  pow-suc, one-le-pow, mod-lt, div-add-mod, add-mul-mod_self_left, mod-eq_of_lt, div-div-eq-div-mul,
}
use iridium_sniffer.Base.{
  ℕ, zero, suc, ◌+◌, ◌*◌, ◌/◌, ◌%◌, ◌^◌, ◌≤◌, ◌<◌, List, bit_or, drop, take, get_or, length, ◌≡◌,
  refl, sym, ap, ◌∙◌, arith,
}
use iridium_sniffer.Bch.Degree.{pow-add}
use iridium_sniffer.Bits.Or.{bit_or_double}
use iridium_sniffer.Ida.Decode.{shift_bits, field}
use iridium_sniffer.Ida.Lcw.Header.{lcw3_to_bits}

bit_and_low-lt : (b r m : ℕ) → b < 2 → r < m → b * m + r < 2 * m
bit_and_low-lt zero r m h l = omega arith
bit_and_low-lt (suc zero) r m h l = omega arith
bit_and_low-lt (suc (suc b)) r m h l = absurd (omega arith)

-- A number below `2 m` by its upper bit and the rest.
mod_double : (u m : ℕ) → 0 < m → (u / m % 2) * m + u % m ≡ u % (2 * m)
mod_double u m h =
    let q = u / m / 2 in
    let low = u / m % 2 * m + u % m in
    let whole : u ≡ low + 2 * m * q = split in
    let small : low < 2 * m = bit_and_low-lt (u / m % 2) (u % m) m (omega arith) (mod-lt u h) in
    sym (ap (λ x. x % (2 * m)) whole ∙ add-mul-mod_self_left low (2 * m) q ∙ mod-eq_of_lt small)
  where
    halves : u / m ≡ 2 * (u / m / 2) + u / m % 2
    halves = omega arith

    times : m * (u / m) ≡ m * (2 * (u / m / 2) + u / m % 2)
    times = ap (λ x. m * x) halves

    split : u ≡ u / m % 2 * m + u % m + 2 * m * (u / m / 2)
    split = grind (arith, times, div-add-mod u m)

less_room : (acc b m N : ℕ) → b < 2 → acc * (2 * m) + 2 * m ≤ N → (2 * acc + b) * m + m ≤ N
less_room acc zero m N h l = grind arith
less_room acc (suc zero) m N h l = grind arith
less_room acc (suc (suc b)) m N h l = absurd (omega arith)

below_room : (x m N : ℕ) → 0 < m → x * m + m ≤ N → x < N
below_room x zero N h l = absurd (omega arith)
below_room x (suc m) N h l = grind arith

-- The bits `n + k - 1` down to `k` of `v` behind what has been read already.
shift_bits-lcw3 :
    (n k v acc : ℕ)
    → acc * 2 ^ n + 2 ^ n ≤ 2 ^ 32
    → shift_bits 32 n (lcw3_to_bits v (n + k)) acc ≡ acc * 2 ^ n + v / 2 ^ k % 2 ^ n
unfolding shift_bits lcw3_to_bits
shift_bits-lcw3 zero k v acc room = omega arith
shift_bits-lcw3 (suc n) k v acc room =
    rw (more, word) (shift_bits-lcw3 n k v (2 * acc + b) left ∙ joined)
  where
    b : ℕ
    b = v / 2 ^ (n + k) % 2

    more : suc n + k ≡ suc (n + k)
    more = omega arith

    doubled : 2 ^ suc n ≡ 2 * 2 ^ n
    doubled = omega (arith, pow-suc 2 n)

    left : (2 * acc + b) * 2 ^ n + 2 ^ n ≤ 2 ^ 32
    left = less_room acc b (2 ^ n) (2 ^ 32) (omega arith) (rw (doubled) at room)

    below : 2 * acc + b < 2 ^ 32
    below = below_room (2 * acc + b) (2 ^ n) (2 ^ 32) (one-le-pow n 2 (omega arith)) left

    word : bit_or (acc * 2) (v / 2 ^ (n + k) % 2) % 2 ^ 32 ≡ 2 * acc + b
    word = rw (bit_or_double acc b (omega arith)) (mod-eq_of_lt below)

    swap : n + k ≡ k + n
    swap = omega arith

    upper : v / 2 ^ (n + k) ≡ v / 2 ^ k / 2 ^ n
    upper = rw (swap, pow-add k n) (sym (div-div-eq-div-mul v (2 ^ k) (2 ^ n)))

    top : b * 2 ^ n + v / 2 ^ k % 2 ^ n ≡ v / 2 ^ k % 2 ^ suc n
    top = rw (upper, doubled) (mod_double (v / 2 ^ k) (2 ^ n) (one-le-pow n 2 (omega arith)))

    joined : (2 * acc + b) * 2 ^ n + v / 2 ^ k % 2 ^ n ≡ acc * 2 ^ suc n + v / 2 ^ k % 2 ^ suc n
    joined = grind (arith, top, doubled)

drop-lcw3 : (i n v : ℕ) → drop i (lcw3_to_bits v (i + n)) ≡ lcw3_to_bits v n
unfolding lcw3_to_bits
drop-lcw3 zero n v = ap (lcw3_to_bits v) (omega arith)
drop-lcw3 (suc i) n v = rw (more) (drop-lcw3 i n v)
  where
    more : suc i + n ≡ suc (i + n)
    more = omega arith

-- The field of `n` bits from bit `i` on, with `k` bits behind it.
pub field-lcw3 :
    (i n k v : ℕ) → 2 ^ n ≤ 2 ^ 32 → field (lcw3_to_bits v (i + (n + k))) i n ≡ v / 2 ^ k % 2 ^ n
field-lcw3 i n k v h =
    ap (λ xs. shift_bits 32 n xs 0) (drop-lcw3 i (n + k) v)
    ∙ shift_bits-lcw3 n k v 0 (omega arith)
    ∙ omega arith

-- A run of digits, read as a number.
abbrev pub run_value : List ℕ → ℕ
run_value xs = shift_bits 32 (length xs) xs 0

pub digit-lcw3 : (i k v : ℕ) → get_or (lcw3_to_bits v (i + (1 + k))) i 0 ≡ v / 2 ^ k % 2
unfolding lcw3_to_bits
digit-lcw3 zero k v = rw (one_more) refl
  where
    one_more : 0 + (1 + k) ≡ suc k
    one_more = omega arith
digit-lcw3 (suc i) k v = rw (more) (digit-lcw3 i k v)
  where
    more : suc i + (1 + k) ≡ suc (i + (1 + k))
    more = omega arith

run_lem :
    (n : ℕ) (v k acc : ℕ)
    → (length (take n (lcw3_to_bits v (n + k))) ≡ n)
      × (shift_bits 32 n (take n (lcw3_to_bits v (n + k))) acc
          ≡ shift_bits 32 n (lcw3_to_bits v (n + k)) acc)
unfolding lcw3_to_bits shift_bits
run_lem zero v k acc = (refl, refl)
run_lem (suc n) v k acc = rw (more) (let r = run_lem n v k _ in (ap suc r.0, r.1))
  where
    more : suc n + k ≡ suc (n + k)
    more = omega arith

-- The value of a run of `n` digits from bit `i` on, with `k` bits behind it.
pub run-lcw3 :
    (i n k v : ℕ)
    → 2 ^ n ≤ 2 ^ 32
    → run_value (take n (drop i (lcw3_to_bits v (i + (n + k))))) ≡ v / 2 ^ k % 2 ^ n
run-lcw3 i n k v h =
    let r = run_lem n v k 0 in
    rw (drop-lcw3 i (n + k) v, r.0) (r.1 ∙ shift_bits-lcw3 n k v 0 (omega arith) ∙ omega arith)
