-- ===== src/AircraftDb/Loaded.antt =====
-- aircraft_db.c: what is loaded is found.
use iridium_sniffer.Base.{
  ◌<◌, ltb, ◌||◌, ◌&&◌, ◌==◌, List, [], ◌∷◌, Option, some, some_eq, Bool, not, true, false, length,
  Bool-cases, Option-cases, ◌⊎◌, inl, inr, ◌≡◌, refl, ap, sym, ◌∙◌, arith,
}
use iridium_sniffer.Base.Text.{Chars, before, behind}
use iridium_sniffer.AircraftDb.{
  DbEntry, all_hex, normalize_reg, normalize_from, read_line, read_lines, aircraft_db_load,
  aircraft_db_lookup,
}

abbrev pub IsIn : {A : Type 0} → A → List A → Type 0
IsIn a [] = ⊥
IsIn a (x ∷ xs) = (a ≡ x) ⊎ IsIn a xs

-- strcmp gives 0 or less.
abbrev pub is_up_to : Chars → Chars → Bool
is_up_to [] t = true
is_up_to (a ∷ s) [] = false
is_up_to (a ∷ s) (b ∷ t) = ltb a b || ((a == b) && is_up_to s t)

-- No entry has a registration behind that of the next one.
abbrev pub IsUpTo : DbEntry → List DbEntry → Type 0
IsUpTo e [] = Unit
IsUpTo e (f ∷ es) = is_up_to e.reg f.reg ≡ true

abbrev pub IsSorted : List DbEntry → Type 0
IsSorted [] = Unit
IsSorted (e ∷ es) = IsUpTo e es × IsSorted es

-- What C says of `qsort`: the same entries, in order.
pub record IsQsort (qsort : List DbEntry → List DbEntry) : Type 0 where
  pub keeps : (es : List DbEntry) (e : DbEntry) → IsIn e es → IsIn e (qsort es)
  pub adds_none : (es : List DbEntry) (e : DbEntry) → IsIn e (qsort es) → IsIn e es
  pub sorts : (es : List DbEntry) → IsSorted (qsort es)

-- What C says of `bsearch`: in a sorted array it finds an entry that is equal to the key, if there is
-- one, and no other.
pub record IsBsearch (bsearch : Chars → List DbEntry → Option DbEntry) : Type 0 where
  pub finds :
      (db : List DbEntry) (e : DbEntry)
      → IsSorted db
      → IsIn e db
      → (f : DbEntry) × (bsearch e.reg db ≡ some f)
  pub equal :
      (key : Chars) (db : List DbEntry) (f : DbEntry)
      → IsSorted db
      → bsearch key db ≡ some f
      → IsIn f db × (f.reg ≡ key)

read_lines-IsIn :
    (lines : List Chars) (line : Chars) (e : DbEntry)
    → IsIn line lines
    → read_line line ≡ some e
    → IsIn e (read_lines lines)
unfolding read_lines
read_lines-IsIn [] line e h r = absurd h
read_lines-IsIn (l ∷ lines) line e (inl h) r =
    let here : read_line l ≡ some e = ap read_line (sym h) ∙ r in rw (read_lines, here) (inl refl)
read_lines-IsIn (l ∷ lines) line e (inr h) r = elim (Option-cases (read_line l)) [
  | inl n ↦ rw (read_lines, n) (read_lines-IsIn lines line e h r)
  | inr (f, n) ↦ rw (read_lines, n) (inr (read_lines-IsIn lines line e h r))
]

-- The line of an entry.
read_lines-line :
    (lines : List Chars) (e : DbEntry)
    → IsIn e (read_lines lines)
    → (line : Chars) × IsIn line lines × (read_line line ≡ some e)
unfolding read_lines
read_lines-line [] e h = absurd h
read_lines-line (l ∷ lines) e h = elim (Option-cases (read_line l)) [
  | inl n ↦ let (line, i, r) = read_lines-line lines e (rw (read_lines, n) at h) in (line, inr i, r)
  | inr (f, n) ↦ elim (rw (read_lines, n) at h) [
    | inl s ↦ (l, inl refl, n ∙ ap some (sym s))
    | inr k ↦ let (line, i, r) = read_lines-line lines e k in (line, inr i, r)
  ]
]

some_entry : (db : List DbEntry) (e : DbEntry) → IsIn e db → (length db == 0) ≡ false
some_entry [] e h = absurd h
some_entry (x ∷ db) e h = ground arith

some_reg : (s : Chars) → 0 < length (normalize_reg s 12) → (length s == 0) ≡ false
unfolding normalize_reg normalize_from
some_reg [] h = absurd (omega (arith, h))
some_reg (c ∷ s) h = ground arith

last_of_four : (a b c d : Bool) → (a || b || c || d) ≡ false → d ≡ false
last_of_four true b c d h = absurd (cc h)
last_of_four false true c d h = absurd (cc h)
last_of_four false false true d h = absurd (cc h)
last_of_four false false false d h = h

read_line-some : (line : Chars) (e : DbEntry) → read_line line ≡ some e → 0 < length e.reg
unfolding read_line
read_line-some line e h = elim (Option-cases (behind b';' line)) [
  | inl n ↦ absurd (cc (rw (read_line, n) at h))
  | inr (rest, n) ↦
      let hex_field = before b';' line in
      let reg_field = before b';' rest in
      let reg = normalize_reg reg_field 12 in
      elim (Bool-cases (
        not (length hex_field == 6)
        || not (all_hex hex_field)
        || (length reg_field == 0)
        || (length reg == 0))) [
          | inl s ↦ absurd (cc (rw (read_line, n, s) at h))
          | inr s ↦
              let given : (length reg == 0) ≡ false =
                last_of_four (not (length hex_field == 6)) (not (all_hex hex_field))
                  (length reg_field == 0) _ s in
              let is : e.reg ≡ reg =
                ap (λ (x : DbEntry). x.reg) (sym (some_eq (rw (read_line, n, s) at h))) in
              ground (arith, ap length is, given)
        ]
]

module _ (qsort : List DbEntry → List DbEntry) (bsearch : Chars → List DbEntry → Option DbEntry)
    (sorted : IsQsort qsort) (searched : IsBsearch bsearch) where
  -- A registration that a line of the file gives is found, in any spelling with the same normal form,
  -- with an address that a line gives for it, if `qsort` and `bsearch` do what C says of them.
  pub aircraft_db_lookup-loaded :
      (lines : List Chars) (line registration : Chars) (e : DbEntry)
      → IsIn line lines
      → read_line line ≡ some e
      → e.reg ≡ normalize_reg registration 12
      → (f : DbEntry) × (aircraft_db_lookup bsearch (aircraft_db_load qsort lines) registration
          ≡ some f.hex)
        × (f.reg ≡ e.reg)
        × ((l : Chars) × IsIn l lines × (read_line l ≡ some f))
  unfolding aircraft_db_lookup aircraft_db_load
  aircraft_db_lookup-loaded lines line registration e i r n =
      let more = read_line-some line e r in
      let db = qsort (read_lines lines) in
      let there : IsIn e db =
        sorted.keeps (read_lines lines) e (read_lines-IsIn lines line e i r) in
      let (f, is) = searched.finds db e (sorted.sorts (read_lines lines)) there in
      let (f_there, same) = searched.equal e.reg db f (sorted.sorts (read_lines lines)) is in
      (
        f,
        looked_up db f (some_entry db e there)
            (some_reg registration (ground (arith, ap length n, more))) more is,
        same,
        read_lines-line lines f (sorted.adds_none (read_lines lines) f f_there),
      )
    where
      looked_up :
          (db : List DbEntry) (f : DbEntry)
          → (length db == 0) ≡ false
          → (length registration == 0) ≡ false
          → 0 < length e.reg
          → bsearch e.reg db ≡ some f
          → aircraft_db_lookup bsearch db registration ≡ some f.hex
      looked_up db f d g more is =
          let norm : (length (normalize_reg registration 12) == 0) ≡ false =
            ground (arith, ap length n, more) in
          let key : bsearch (normalize_reg registration 12) db ≡ some f =
            ap (λ k. bsearch k db) (sym n) ∙ is in
          rw (aircraft_db_lookup, d, g, norm, key) refl
