-- ===== src/BeamCache.antt =====
-- main.c: the cache of recent ground beams, which tells the beam that a message came through.
pub mod Newest
use iridium_sniffer.Base.{
  ℕ, zero, suc, ◌+◌, ◌-◌, ◌%◌, ◌^◌, List, Option, none, some, Bool, false, get_elem?, set, ltb,
  ◌==◌, if◌then◌else◌, inc32,
}
use iridium_sniffer.Base.Doubles.{Doubles}
use iridium_sniffer.Frame.{Ira}

abbrev pub beam_cache_size : ℕ
beam_cache_size = 64

-- `x % BEAM_CACHE_SIZE` for the `int` with the bits `x`, as an index: none where the remainder of a
-- negative number is negative, which is an index in front of the array.
unfoldable pub cell_index : ℕ → Option ℕ
cell_index x =
    if ltb x (2 ^ 31)
    then some (x % beam_cache_size)
    else if (2 ^ 32 - x) % beam_cache_size == 0
    then some 0
    else none

module _ (F : Doubles) where
  open F use {Double}

  -- `beam_cache_t`; time 0 is an empty slot.
  pub record Beam : Type 0 where
    pub lat : Double
    pub lon : Double
    pub sat_id : ℕ
    pub beam_id : ℕ
    pub timestamp_ns : ℕ

  -- `head` counts all beams that were stored in an `int`, of which these are the 32 bits; `intact` is
  -- false once a beam was written in front of the array.
  pub record BeamCache : Type 0 where
    pub cells : List Beam
    pub head : ℕ
    pub intact : Bool

  abbrev pub beam_of : Ira F → ℕ → Beam
  beam_of ira timestamp = record {
    lat = ira.lat;
    lon = ira.lon;
    sat_id = ira.sat_id;
    beam_id = ira.beam_id;
    timestamp_ns = timestamp;
  }

  unfoldable pub beam_cache_add : BeamCache → Ira F → ℕ → BeamCache
  beam_cache_add c ira timestamp = elim (cell_index c.head) [
    | none ↦ record c { head = inc32 c.head; intact = false }
    | some k ↦ record c { cells = set c.cells k (beam_of ira timestamp); head = inc32 c.head }
  ]

  -- `&beam_cache[idx]` for the round `i`, with `beam_cache_head - 1 - i + BEAM_CACHE_SIZE` as the bits of
  -- an `int`; none for a cell that is not in the array.
  unfoldable pub cell_back : BeamCache → ℕ → Option Beam
  cell_back c i = elim (cell_index ((c.head + 2 ^ 32 - 1 - i + beam_cache_size) % 2 ^ 32)) [
    | none ↦ none
    | some k ↦ get_elem? c.cells k
  ]

  -- The loop from `i` on, in `n` rounds; none where it reads outside of the array.
  unfoldable pub lookup_from : BeamCache → ℕ → ℕ → ℕ → Option Beam
  lookup_from c ts_ns zero i = none
  lookup_from c ts_ns (suc n) i =
      let rest = lookup_from c ts_ns n (i + 1) in
      elim (cell_back c i) [
        | none ↦ none
        | some e ↦
            if e.timestamp_ns == 0
            then none
            else if ltb ts_ns e.timestamp_ns
            then rest
            else if ltb 10_000_000_000 (ts_ns - e.timestamp_ns)
            then none
            else some e
      ]

  unfoldable pub beam_cache_lookup : BeamCache → ℕ → Option Beam
  beam_cache_lookup c ts_ns = lookup_from c ts_ns beam_cache_size 0
