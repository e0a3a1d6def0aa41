-- ===== src/Tests/Databases.antt =====
-- Insertion for `qsort`, a search from the front for `bsearch`, and a file of two lines.
use iridium_sniffer.Base.{
  ◌==◌, ltb, List, [], ◌∷◌, Option, none, some, some_eq, true, false, if◌then◌else◌, Bool-cases,
  inl, inr, ◌≡◌, refl, ap, sym, ◌∙◌, arith,
}
use iridium_sniffer.Base.Text.{Chars, codes, same_chars}
use iridium_sniffer.BaseStation.Tracks.{same_chars-eq, same_chars_self}
use iridium_sniffer.AircraftDb.{
  DbEntry, normalize_reg, normalize_from, read_line, aircraft_db_load, aircraft_db_lookup,
}
use iridium_sniffer.AircraftDb.Loaded.{
  IsIn, IsUpTo, IsSorted, is_up_to, IsQsort, IsBsearch, aircraft_db_lookup-loaded,
}

abbrev insert : DbEntry → List DbEntry → List DbEntry
insert e [] = e ∷ []
insert e (f ∷ es) =
    let rest = insert e es in if is_up_to e.reg f.reg then e ∷ (f ∷ es) else f ∷ rest

abbrev sort : List DbEntry → List DbEntry
sort [] = []
sort (e ∷ es) = insert e (sort es)

total : (s t : Chars) → is_up_to s t ≡ false → is_up_to t s ≡ true
total [] t h = absurd (cc h)
total (a ∷ s) [] h = refl
total (a ∷ s) (b ∷ t) h = elim (Bool-cases (a == b)) [
  | inl e ↦
      let same : ltb a b ≡ false = ground arith in
      let same' : ltb b a ≡ false = ground arith in
      let eq : (b == a) ≡ true = ground arith in rw (same', eq) (total s t (rw (same, e) at h))
  | inr e ↦ elim (Bool-cases (ltb a b)) [
    | inl l ↦ absurd (cc (rw (l) at h))
    | inr l ↦ let m : ltb b a ≡ true = ground arith in rw (m) refl
  ]
]

insert-IsUpTo :
    (e f : DbEntry) (es : List DbEntry)
    → is_up_to f.reg e.reg ≡ true
    → IsUpTo f es
    → IsUpTo f (insert e es)
insert-IsUpTo e f [] h u = h
insert-IsUpTo e f (g ∷ es) h u = elim (Bool-cases (is_up_to e.reg g.reg)) [
  | inl k ↦ rw (k) h
  | inr k ↦ rw (k) u
]

insert-IsSorted : (e : DbEntry) (es : List DbEntry) → IsSorted es → IsSorted (insert e es)
insert-IsSorted e [] s = (tt, tt)
insert-IsSorted e (f ∷ es) (u, s) = elim (Bool-cases (is_up_to e.reg f.reg)) [
  | inl k ↦ rw (k) (k, (u, s))
  | inr k ↦ rw (k) (insert-IsUpTo e f es (total e.reg f.reg k) u, insert-IsSorted e es s)
]

sort-IsSorted : (es : List DbEntry) → IsSorted (sort es)
sort-IsSorted [] = tt
sort-IsSorted (e ∷ es) = insert-IsSorted e (sort es) (sort-IsSorted es)

insert-IsIn : (x e : DbEntry) (es : List DbEntry) → IsIn x (e ∷ es) → IsIn x (insert e es)
insert-IsIn x e [] h = h
insert-IsIn x e (f ∷ es) h = elim (Bool-cases (is_up_to e.reg f.reg)) [
  | inl k ↦ rw (k) h
  | inr k ↦ elim h [
    | inl s ↦ rw (k) (inr (insert-IsIn x e es (inl s)))
    | inr (inl s) ↦ rw (k) (inl s)
    | inr (inr s) ↦ rw (k) (inr (insert-IsIn x e es (inr s)))
  ]
]

IsIn-insert : (x e : DbEntry) (es : List DbEntry) → IsIn x (insert e es) → IsIn x (e ∷ es)
IsIn-insert x e [] h = h
IsIn-insert x e (f ∷ es) h = elim (Bool-cases (is_up_to e.reg f.reg)) [
  | inl k ↦ rw (k) at h
  | inr k ↦ elim (rw (k) at h) [
    | inl s ↦ inr (inl s)
    | inr s ↦ elim (IsIn-insert x e es s) [ inl t ↦ inl t | inr t ↦ inr (inr t) ]
  ]
]

sort-IsIn : (es : List DbEntry) (x : DbEntry) → IsIn x es → IsIn x (sort es)
sort-IsIn [] x h = h
sort-IsIn (e ∷ es) x (inl s) = insert-IsIn x e (sort es) (inl s)
sort-IsIn (e ∷ es) x (inr s) = insert-IsIn x e (sort es) (inr (sort-IsIn es x s))

IsIn-sort : (es : List DbEntry) (x : DbEntry) → IsIn x (sort es) → IsIn x es
IsIn-sort [] x h = h
IsIn-sort (e ∷ es) x h = elim (IsIn-insert x e (sort es) h) [
  | inl s ↦ inl s
  | inr s ↦ inr (IsIn-sort es x s)
]

sort-IsQsort : IsQsort sort
sort-IsQsort = record { keeps = sort-IsIn; adds_none = IsIn-sort; sorts = sort-IsSorted }

abbrev search_for : Chars → List DbEntry → Option DbEntry
search_for key [] = none
search_for key (e ∷ es) =
    let rest = search_for key es in if same_chars e.reg key then some e else rest

search_for-finds :
    (db : List DbEntry) (e : DbEntry)
    → IsSorted db
    → IsIn e db
    → (f : DbEntry) × (search_for e.reg db ≡ some f)
search_for-finds [] e s h = absurd h
search_for-finds (x ∷ db) e (u, s) h = elim (Bool-cases (same_chars x.reg e.reg)) [
  | inl k ↦ (x, rw (k) refl)
  | inr k ↦ elim h [
    | inl t ↦
        let same : same_chars x.reg e.reg ≡ true =
          ap (λ (y : DbEntry). same_chars y.reg e.reg) (sym t) ∙ same_chars_self e.reg in
        absurd (cc (sym same ∙ k))
    | inr t ↦ let (f, is) = search_for-finds db e s t in (f, rw (k) is)
  ]
]

search_for-equal :
    (key : Chars) (db : List DbEntry) (f : DbEntry)
    → IsSorted db
    → search_for key db ≡ some f
    → IsIn f db × (f.reg ≡ key)
search_for-equal key [] f s h = absurd (cc h)
search_for-equal key (x ∷ db) f (u, s) h = elim (Bool-cases (same_chars x.reg key)) [
  | inl k ↦
      let is : x ≡ f = some_eq (rw (k) at h) in
      (inl (sym is), ap (λ (y : DbEntry). y.reg) (sym is) ∙ same_chars-eq x.reg key k)
  | inr k ↦ let (i, r) = search_for-equal key db f s (rw (k) at h) in (inr i, r)
]

search_for-IsBsearch : IsBsearch search_for
search_for-IsBsearch = record { finds = search_for-finds; equal = search_for-equal }

abbrev file : List Chars
file = codes "a98539;N712-TW;B763;" ∷ (codes "3c6444;D-AIBD;A319;" ∷ [])

abbrev entry : DbEntry
entry = record { reg = codes "DAIBD"; hex = codes "3C6444" }

is_read : read_line (codes "3c6444;D-AIBD;A319;") ≡ some entry
unfolding read_line normalize_reg normalize_from
is_read = refl

is_written : entry.reg ≡ normalize_reg (codes ".d-aibd") 12
unfolding normalize_reg normalize_from
is_written = refl

aircraft_db_lookup-loaded_example :
    (f : DbEntry) × (aircraft_db_lookup search_for (aircraft_db_load sort file) (codes ".d-aibd")
      ≡ some f.hex)
    × (f.reg ≡ codes "DAIBD")
    × ((l : Chars) × IsIn l file × (read_line l ≡ some f))
aircraft_db_lookup-loaded_example =
    aircraft_db_lookup-loaded sort search_for sort-IsQsort search_for-IsBsearch file
      (codes "3c6444;D-AIBD;A319;") (codes ".d-aibd") entry (inr (inl refl)) is_read is_written
