-- ===== src/Bch/Sound.antt =====
-- frame_decode.c, `build_syndrome_table`: the entries of a table and the errors they stand for.
use iridium_sniffer.Base.{
  ℕ, zero, suc, ◌+◌, ◌≤◌, ◌<◌, ◌≡◌, ◌⊎◌, inl, inr, refl, true, false, arith, replicate, [], ◌∷◌,
  set, bit_or, shl32, ltb, leb, ◌&&◌, Bool-cases,
}
use iridium_sniffer.Base.Int.{pos, ltb_ℤ}
use iridium_sniffer.Bch.{
  Table, Entry, uncorrectable, is_known, entry_at, gf2_remainder, add_single, add_double,
  add_singles, add_pairs, add_doubles, build_syndrome_table, build_syn,
}

-- An error of `k` bits, at most two, in a word of `n` bits.
pub data IsError (n : ℕ) : ℕ → ℕ → Type 0 where
  no_error : IsError n 0 0
  single : (b : ℕ) → b < n → IsError n 1 (shl32 1 b)
  double : (b c : ℕ) → b < c → c < n → IsError n 2 (bit_or (shl32 1 b) (shl32 1 c))

pub record IsTrue (poly n r : ℕ) (e : Entry) : Type 0 where
  pub bits : ℕ
  pub counted : e.errs ≡ pos bits
  pub located : IsError n bits e.locator
  pub syndrome : gf2_remainder poly e.locator ≡ r

abbrev pub IsSound : ℕ → ℕ → Table → Type 0
IsSound poly n syn = (r : ℕ) → is_known (entry_at syn r) ≡ true → IsTrue poly n r (entry_at syn r)

-- A write shows at its place only.
entry_at-set :
    (syn : Table) (r j : ℕ) (e : Entry)
    → ((r ≡ j) × (entry_at (set syn r e) j ≡ e)) ⊎ (entry_at (set syn r e) j ≡ entry_at syn j)
entry_at-set [] r j e = inr refl
entry_at-set (x ∷ syn) zero zero e = inl (refl, refl)
entry_at-set (x ∷ syn) zero (suc j) e = inr refl
entry_at-set (x ∷ syn) (suc r) zero e = inr refl
entry_at-set (x ∷ syn) (suc r) (suc j) e = elim (entry_at-set syn r j e) [
  | inl p ↦ inl (omega (arith, p.0), p.1)
  | inr p ↦ inr p
]

module _ (poly n : ℕ) where
  set-IsSound :
      (syn : Table) (r : ℕ) (e : Entry)
      → IsSound poly n syn
      → IsTrue poly n r e
      → IsSound poly n (set syn r e)
  set-IsSound syn r e sound ok j known = elim (entry_at-set syn r j e) [
    | inl p ↦ rw p.1 (rw p.0 at ok)
    | inr p ↦ rw p (sound j (rw p at known))
  ]

  blank : (k r : ℕ) → entry_at (replicate k uncorrectable) r ≡ uncorrectable
  blank zero r = refl
  blank (suc k) zero = refl
  blank (suc k) (suc r) = blank k r

  replicate-IsSound : (k : ℕ) → IsSound poly n (replicate k uncorrectable)
  replicate-IsSound k r known = let q : false ≡ true = rw (blank k r) at known in cc

  module _ (size : ℕ) where
    add_single-IsSound :
        (b : ℕ) (syn : Table)
        → b < n
        → IsSound poly n syn
        → IsSound poly n (add_single poly size b syn)
    unfolding add_single
    add_single-IsSound b syn h sound =
        elim (Bool-cases (ltb (gf2_remainder poly (shl32 1 b)) size)) [
          | inl e ↦ rw e (
              set-IsSound syn _ _ sound
                (record { bits = 1; counted = refl; located = single b h; syndrome = refl }))
          | inr e ↦ rw e sound
        ]

    add_double-IsSound :
        (b c : ℕ) (syn : Table)
        → b < c
        → c < n
        → IsSound poly n syn
        → IsSound poly n (add_double poly size b c syn)
    unfolding add_double
    add_double-IsSound b c syn h k sound =
        let r = gf2_remainder poly (bit_or (shl32 1 b) (shl32 1 c)) in
        elim (Bool-cases (ltb r size && ltb_ℤ (entry_at syn r).errs (pos 0))) [
          | inl e ↦ rw e (
              set-IsSound syn _ _ sound
                (record { bits = 2; counted = refl; located = double b c h k; syndrome = refl }))
          | inr e ↦ rw e sound
        ]

    add_singles-IsSound :
        (left b : ℕ) (syn : Table)
        → left + b ≤ n
        → IsSound poly n syn
        → IsSound poly n (add_singles poly size left b syn)
    unfolding add_singles
    add_singles-IsSound zero b syn h sound = sound
    add_singles-IsSound (suc left) b syn h sound =
        add_singles-IsSound left (b + 1) (add_single poly size b syn) (omega arith)
          (add_single-IsSound b syn (omega arith) sound)

    add_pairs-IsSound :
        (left b c : ℕ) (syn : Table)
        → b < c
        → left + c ≤ n
        → IsSound poly n syn
        → IsSound poly n (add_pairs poly size left b c syn)
    unfolding add_pairs
    add_pairs-IsSound zero b c syn h k sound = sound
    add_pairs-IsSound (suc left) b c syn h k sound =
        add_pairs-IsSound left b (c + 1) (add_double poly size b c syn) (omega arith) (omega arith)
          (add_double-IsSound b c syn h (omega arith) sound)

    add_doubles-IsSound :
        (left b : ℕ) (syn : Table)
        → left + b ≤ n
        → IsSound poly n syn
        → IsSound poly n (add_doubles poly size left b syn)
    unfolding add_doubles
    add_doubles-IsSound zero b syn h sound = sound
    add_doubles-IsSound (suc left) b syn h sound =
        add_doubles-IsSound left (b + 1) (add_pairs poly size left b (b + 1) syn) (omega arith)
          (add_pairs-IsSound left b (b + 1) syn (omega arith) (omega arith) sound)

-- Every table that `build_syndrome_table` makes is sound, for every polynomial and size.
pub build_syndrome_table-IsSound :
    (poly n max_errors size : ℕ) → IsSound poly n (build_syndrome_table poly n max_errors size)
unfolding build_syndrome_table
build_syndrome_table-IsSound poly n max_errors size = elim (Bool-cases (leb 2 max_errors)) [
  | inl e ↦ rw e (add_doubles-IsSound poly n size n 0 _ (omega arith) singles)
  | inr e ↦ rw e singles
]
  where
    singles : IsSound poly n (add_singles poly size n 0 (replicate size uncorrectable))
    singles = add_singles-IsSound poly n size n 0 _ (omega arith) (replicate-IsSound poly n size)

-- So is every table that `build_syn` makes.
pub build_syn-IsSound :
    (poly n max_errors size : ℕ) → IsSound poly n (build_syn poly n max_errors size)
unfolding build_syn build_syndrome_table
build_syn-IsSound poly n max_errors size = build_syndrome_table-IsSound poly n max_errors size
