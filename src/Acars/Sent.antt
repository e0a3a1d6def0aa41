-- ===== src/Acars/Sent.antt =====
-- sbd_acars.c: a message as an aircraft sends it, through the checks of `acars_parse_fallback`.
use native.Mathlib.Nat.{pow-suc}
use iridium_sniffer.Base.{
  ℕ, zero, suc, ◌+◌, ◌-◌, ◌/◌, ◌%◌, ◌^◌, ◌≤◌, ◌<◌, List, [], ◌∷◌, ◌++◌, map, some, Bool, true,
  false, not, ◌&&◌, length, length-append, length-map, take, drop, take-front, drop-front, get_or,
  ltb, leb, ◌==◌, if◌then◌else◌, Bool-cases, ◌⊎◌, inl, inr, ◌≡◌, refl, ap, ap₂, ◌∙◌, arith,
}
use iridium_sniffer.Sbd.{sbd_max_data}
use iridium_sniffer.Sbd.Crc.{crc16_init, crc16_kermit}
use iridium_sniffer.Sbd.Crc.Table.{AreBytes}
use iridium_sniffer.Sbd.Crc.Residue.{crc16_kermit-residue}
use iridium_sniffer.Acars.{ones, parity_ok, take_crc, crc_errors, check_message}

-- A character of seven bits with its odd parity in the eighth.
abbrev pub with_parity : ℕ → ℕ
with_parity c = if ones 7 c % 2 == 1 then c else c + 2 ^ 7

abbrev pub AreCodes : List ℕ → Type 0
AreCodes [] = Unit
AreCodes (c ∷ text) = (c < 2 ^ 7) × AreCodes text

-- The mark, the header, the characters, their CRC with the low byte first, and the end mark.
abbrev pub frame : List ℕ → List ℕ → List ℕ
frame hdr text =
    let payload = map with_parity text in
    let crc = crc16_kermit crc16_init payload in
    1 ∷ ((hdr ++ payload) ++ (crc % 2 ^ 8 ∷ (crc / 2 ^ 8 ∷ (0x7f ∷ []))))

-- There is no header, or one of eight bytes.
abbrev pub IsHeader : List ℕ → Type 0
IsHeader hdr = (hdr ≡ []) ⊎ ((h : List ℕ) × (hdr ≡ 3 ∷ h) × (length h ≡ 7))

ones-low : (n b : ℕ) → b < 2 ^ n → ones (suc n) b ≡ ones n b
unfolding ones
ones-low zero b h = let z : b ≡ 0 = omega arith in rw (z) (omega arith)
ones-low (suc n) b h = omega (arith, pow-suc 2 n, ones-low n (b / 2) (omega (arith, pow-suc 2 n)))

ones-high : (n b : ℕ) → b < 2 ^ n → ones (suc n) (b + 2 ^ n) ≡ ones n b + 1
unfolding ones
ones-high zero b h = let z : b ≡ 0 = omega arith in rw (z) (omega arith)
ones-high (suc n) b h =
    let half : (b + 2 ^ suc n) / 2 ≡ b / 2 + 2 ^ n = omega (arith, pow-suc 2 n) in
    let low : (b + 2 ^ suc n) % 2 ≡ b % 2 = omega (arith, pow-suc 2 n) in
    rw (half, low) (omega (arith, ones-high n (b / 2) (omega (arith, pow-suc 2 n))))

record IsOdd (c : ℕ) : Type 0 where
  byte : with_parity c < 2 ^ 8
  stripped : with_parity c % 2 ^ 7 ≡ c
  odd : not (ones 8 (with_parity c) % 2 == 0) ≡ true
  no_mark : (with_parity c == 3) ≡ false

ones_of_three : ones 7 3 ≡ 2
unfolding ones
ones_of_three = refl

with_parity-IsOdd : (c : ℕ) → c < 2 ^ 7 → IsOdd c
with_parity-IsOdd c h = elim (Bool-cases (ones 7 c % 2 == 1)) [
  | inl e ↦ record {
    byte = rw (e) (omega arith);
    stripped = rw (e) (omega arith);
    odd = rw (e, ones-low 7 c h) (ground arith);
    no_mark = rw (e) (not_three e);
  }
  | inr e ↦ record {
    byte = rw (e) (omega arith);
    stripped = rw (e) (omega arith);
    odd = rw (e, ones-high 7 c h) (ground arith);
    no_mark = rw (e) (ground arith);
  }
]
  where
    not_three : (ones 7 c % 2 == 1) ≡ true → (c == 3) ≡ false
    not_three e = elim (Bool-cases (c == 3)) [
      | inl t ↦
          let is : c ≡ 3 = ground arith in
          let two : ones 7 c ≡ 2 = ap (ones 7) is ∙ ones_of_three in absurd (ground arith)
      | inr t ↦ t
    ]

sent_bytes : (text : List ℕ) → AreCodes text → AreBytes (map with_parity text)
sent_bytes [] a = tt
sent_bytes (c ∷ text) (h, a) = ((with_parity-IsOdd c h).byte, sent_bytes text a)

sent_stripped : (text : List ℕ) → AreCodes text → map (λ c. c % 2 ^ 7) (map with_parity text) ≡ text
sent_stripped [] a = refl
sent_stripped (c ∷ text) (h, a) =
    ap₂ (λ x xs. x ∷ xs) (with_parity-IsOdd c h).stripped (sent_stripped text a)

sent_parity : (text : List ℕ) → AreCodes text → parity_ok (map with_parity text) ≡ true
unfolding parity_ok
sent_parity [] a = refl
sent_parity (c ∷ text) (h, a) = rw ((with_parity-IsOdd c h).odd) (sent_parity text a)

take_crc-sent :
    (body : List ℕ) (a b : ℕ)
    → take_crc (body ++ (a ∷ (b ∷ (0x7f ∷ [])))) ≡ (body, some (a ∷ (b ∷ [])))
unfolding take_crc
take_crc-sent body a b =
    let tail = a ∷ (b ∷ (0x7f ∷ [])) in
    let len : length (body ++ tail) ≡ length body + 3 = length-append body tail in
    let enough : leb 3 (length (body ++ tail)) ≡ true = ground (arith, len) in
    let last : length (body ++ tail) - 1 ≡ length body + 2 = omega (arith, len) in
    let front : length (body ++ tail) - 3 ≡ length body = omega (arith, len) in
    rw
      (
        take_crc,
        enough,
        last,
        front,
        get_or-past body tail 2,
        take-front body tail (length body) refl,
        drop-front body tail (length body) refl,
      )
      refl
  where
    get_or-past : (xs ys : List ℕ) (k : ℕ) → get_or (xs ++ ys) (length xs + k) 0 ≡ get_or ys k 0
    get_or-past [] ys k = ap (λ i. get_or ys i 0) (omega arith)
    get_or-past (x ∷ xs) ys k =
        ap (λ i. get_or (x ∷ (xs ++ ys)) i 0) {y = suc (length xs + k)} (omega arith)
        ∙ get_or-past xs ys k

crc_errors-sent :
    (text : List ℕ)
    → AreCodes text
    → let payload = map with_parity text in
      let crc = crc16_kermit crc16_init payload in
      crc_errors payload (some (crc % 2 ^ 8 ∷ (crc / 2 ^ 8 ∷ []))) ≡ 0
unfolding crc_errors
crc_errors-sent text a =
    let zero_crc = crc16_kermit-residue (map with_parity text) (sent_bytes text a) in
    elim (Bool-cases (leb (length (map with_parity text) + 2) sbd_max_data)) [
      | inl e ↦ rw (crc_errors, e, zero_crc) refl
      | inr e ↦ rw (crc_errors, e) refl
    ]

and_false : (a b c : Bool) → b ≡ false → (a && b && c) ≡ false
and_false true b c h = rw (h) refl
and_false false b c h = refl

abbrev sent_payload : List ℕ → List ℕ
sent_payload text = map with_parity text

abbrev csum : List ℕ → List ℕ
csum text =
    let crc = crc16_kermit crc16_init (sent_payload text) in crc % 2 ^ 8 ∷ (crc / 2 ^ 8 ∷ [])

module _ (text : List ℕ) (a : AreCodes text) (l : 13 ≤ length text) where
  enough : ltb (length (sent_payload text)) 13 ≡ false
  enough = ground (arith, length-map text with_parity)

  no_mark_first :
      (t : List ℕ) → AreCodes t → 13 ≤ length t → (get_or (map with_parity t) 0 0 == 3) ≡ false
  no_mark_first [] b m = absurd (omega arith)
  no_mark_first (c ∷ t) (h, b) m = (with_parity-IsOdd c h).no_mark

  long : (body : List ℕ) → 1 < length body → leb (length (body ++ (0 ∷ []))) 1 ≡ false
  long body h = ground (arith, length-append body (0 ∷ []))

  -- Behind the CRC, with or without a header in front of the payload.
  checked :
      (bytes body hdr : List ℕ)
      → take_crc bytes ≡ (body, some (csum text))
      → leb (length bytes) 1 ≡ false
      → ((ltb 0 (length body) && (get_or body 0 0 == 3) && leb 8 (length body)) ≡ false)
          × (body ≡ sent_payload text)
          × (hdr ≡ [])
        ⊎ ((ltb 0 (length body) && (get_or body 0 0 == 3) && leb 8 (length body)) ≡ true)
          × (drop 8 body ≡ sent_payload text)
          × (take 8 body ≡ hdr)
      → check_message (1 ∷ bytes) ≡ some (record { hdr = hdr; stripped = text; errors = 0 })
  unfolding check_message
  checked bytes body hdr split more (inl (no_hdr, e, n)) =
      rw
        (
          check_message,
          split,
          more,
          no_hdr,
          e,
          n,
          enough,
          crc_errors-sent text a,
          sent_parity text a,
          sent_stripped text a,
        )
        refl
  checked bytes body hdr split more (inr (has_hdr, e, n)) =
      rw
        (
          check_message,
          split,
          more,
          has_hdr,
          e,
          n,
          enough,
          crc_errors-sent text a,
          sent_parity text a,
          sent_stripped text a,
        )
        refl

-- Thirteen or more characters of seven bits, sent with odd parity and the CRC of what is sent, with a
-- header in front or without, are checked without an error, and come out with the header.
pub check_message-sent :
    (hdr text : List ℕ)
    → IsHeader hdr
    → AreCodes text
    → 13 ≤ length text
    → check_message (frame hdr text) ≡ some (record { hdr = hdr; stripped = text; errors = 0 })
check_message-sent hdr text h a l =
    let body = hdr ++ sent_payload text in
    let end = csum text ++ (0x7f ∷ []) in
    let more : leb (length (body ++ end)) 1 ≡ false = ground (arith, length-append body end) in
    checked text a l (body ++ end) body hdr (take_crc-sent body _ _) more (elim h [
      | inl e ↦ inl (
        and_false _ _ _ (ap (λ b. get_or b 0 0 == 3) (no_hdr e) ∙ no_mark_first text a l text a l),
        no_hdr e,
        e,
      )
      | inr (t, e, seven) ↦ inr (
        has_mark t e seven,
        drop-front hdr _ 8 (eight t e seven),
        take-front hdr _ 8 (eight t e seven),
      )
    ])
  where
    no_hdr : hdr ≡ [] → hdr ++ sent_payload text ≡ sent_payload text
    no_hdr e = ap (λ x. x ++ sent_payload text) e

    eight : (t : List ℕ) → hdr ≡ 3 ∷ t → length t ≡ 7 → length hdr ≡ 8
    eight t e seven = ap length e ∙ omega (arith, seven)

    has_mark :
        (t : List ℕ)
        → hdr ≡ 3 ∷ t
        → length t ≡ 7
        → let body = hdr ++ sent_payload text in
          (ltb 0 (length body) && (get_or body 0 0 == 3) && leb 8 (length body)) ≡ true
    has_mark t e seven =
        let more : leb 8 (length ((3 ∷ t) ++ sent_payload text)) ≡ true =
          ground (arith, length-append t (sent_payload text), seven) in
        let some_left : ltb 0 (length ((3 ∷ t) ++ sent_payload text)) ≡ true = ground arith in
        rw (e, some_left, more) refl
