-- ===== src/BeamCache/Newest.antt =====
-- main.c, `beam_cache_lookup`: the beam that is found.
use iridium_sniffer.Base.{
  ℕ, zero, suc, ◌+◌, ◌-◌, ◌%◌, ◌^◌, ◌≤◌, ◌<◌, Option, none, some, Bool, true, false, length, set,
  get_elem?-set_self, ltb, not_below, ◌==◌, if◌then◌else◌, Bool-cases, inl, inr, ◌≡◌, refl, ap, ◌∙◌,
  arith, inc32,
}
use native.Mathlib.Nat.{add-mod_right, mod-lt}
use iridium_sniffer.Base.Doubles.{Doubles}
use iridium_sniffer.Frame.{Ira}
use iridium_sniffer.BeamCache.{
  cell_index, cell_back, Beam, BeamCache, beam_of, beam_cache_add, lookup_from, beam_cache_lookup,
}

module _ (F : Doubles) where
  -- A beam not later than `ts_ns` and at most ten seconds before it.
  abbrev pub IsRecent : ℕ → Option (Beam F) → Type 0
  IsRecent ts_ns none = Unit {0}
  IsRecent ts_ns (some e) = (e.timestamp_ns ≤ ts_ns) × (ts_ns ≤ e.timestamp_ns + 10_000_000_000)

  lookup_from-IsRecent :
      (c : BeamCache F) (ts_ns n i : ℕ) → IsRecent ts_ns (lookup_from F c ts_ns n i)
  unfolding lookup_from
  lookup_from-IsRecent c ts_ns zero i = tt
  lookup_from-IsRecent c ts_ns (suc n) i =
      by_cell (cell_back F c i) (lookup_from F c ts_ns n (i + 1))
        (lookup_from-IsRecent c ts_ns n (i + 1))
    where
      by_tests :
          (e : Beam F) (rest : Option (Beam F)) (a b : Bool)
          → IsRecent ts_ns rest
          → (late : ltb ts_ns e.timestamp_ns ≡ b)
          → IsRecent ts_ns (
              if a
              then none
              else if b
              then rest
              else if ltb 10_000_000_000 (ts_ns - e.timestamp_ns)
              then none
              else some e)
      by_tests e rest true b r late = tt
      by_tests e rest false true r late = r
      by_tests e rest false false r late =
          elim (Bool-cases (ltb 10_000_000_000 (ts_ns - e.timestamp_ns))) [
            | inl old ↦ rw (old) tt
            | inr new ↦
                rw (new) (not_below _ _ late, omega (arith, not_below _ _ new, not_below _ _ late))
          ]

      by_cell :
          (o rest : Option (Beam F))
          → IsRecent ts_ns rest
          → IsRecent ts_ns (elim o [
            | none ↦ none
            | some e ↦
                if e.timestamp_ns == 0
                then none
                else if ltb ts_ns e.timestamp_ns
                then rest
                else if ltb 10_000_000_000 (ts_ns - e.timestamp_ns)
                then none
                else some e
          ])
      by_cell none rest r = tt
      by_cell (some e) rest r =
          by_tests e rest (e.timestamp_ns == 0) (ltb ts_ns e.timestamp_ns) r refl

  -- What the cache finds is never in the future of the message nor more than ten seconds older.
  beam_cache_lookup-IsRecent :
      (c : BeamCache F) (ts_ns : ℕ) → IsRecent ts_ns (beam_cache_lookup F c ts_ns)
  unfolding beam_cache_lookup
  beam_cache_lookup-IsRecent c ts_ns = lookup_from-IsRecent c ts_ns 64 0

  pub cell_index-small : (x : ℕ) → x < 2 ^ 31 → cell_index x ≡ some (x % 64)
  unfolding cell_index
  cell_index-small x h = let s : ltb x (2 ^ 31) ≡ true = ground arith in rw (s) refl

  -- A beam is stored inside the array while the count has not overflowed.
  pub beam_cache_add-small :
      (c : BeamCache F) (ira : Ira F) (timestamp : ℕ)
      → c.head < 2 ^ 31
      → beam_cache_add F c ira timestamp ≡ record c {
        cells = set c.cells (c.head % 64) (beam_of F ira timestamp);
        head = inc32 c.head;
      }
  unfolding beam_cache_add
  beam_cache_add-small c ira timestamp h = rw (beam_cache_add, cell_index-small c.head h) refl

  -- The cell that was just written is the one that the search starts with.
  cell_back-add :
      (c : BeamCache F) (ira : Ira F) (timestamp : ℕ)
      → c.head + 64 < 2 ^ 31
      → length c.cells ≡ 64
      → cell_back F (beam_cache_add F c ira timestamp) 0 ≡ some (beam_of F ira timestamp)
  unfolding cell_back
  cell_back-add c ira timestamp h l =
      let write = beam_cache_add-small c ira timestamp (omega (arith, h)) in
      let bits : (inc32 c.head + 2 ^ 32 - 1 - 0 + 64) % 2 ^ 32 ≡ c.head + 64 = omega (arith, h) in
      let read = cell_index-small (c.head + 64) h in
      let at = add-mod_right c.head 64 in
      let found =
        get_elem?-set_self c.cells (c.head % 64) (beam_of F ira timestamp)
          (omega (arith, l, mod-lt c.head {m = 64} (omega arith))) in
      ap (λ b. cell_back F b 0) write ∙ rw (cell_back, bits, read, at) found

  -- While fewer than 2 ^ 31 - 64 beams have been stored, a beam that was just stored is the one found for
  -- any message in the ten seconds from its time on, if that time is not 0, which marks an empty slot.
  pub beam_cache_add-lookup :
      (c : BeamCache F) (ira : Ira F) (timestamp ts_ns : ℕ)
      → length c.cells ≡ 64
      → c.head + 64 < 2 ^ 31
      → 0 < timestamp
      → timestamp ≤ ts_ns
      → ts_ns ≤ timestamp + 10_000_000_000
      → beam_cache_lookup F (beam_cache_add F c ira timestamp) ts_ns
        ≡ some (beam_of F ira timestamp)
  unfolding beam_cache_lookup lookup_from
  beam_cache_add-lookup c ira timestamp ts_ns l small p h k =
      let found = cell_back-add c ira timestamp small l in
      let used : (timestamp == 0) ≡ false = ground arith in
      let past : ltb ts_ns timestamp ≡ false = ground arith in
      let soon : ltb 10_000_000_000 (ts_ns - timestamp) ≡ false = ground arith in
      rw (lookup_from, found, used, past, soon) refl
