-- ===== src/Ida/Reassembly/Flush.antt =====
-- ida_decode.c, `ida_reassemble_flush`: the slots before and after.
use iridium_sniffer.Base.{ℕ, ◌+◌, ◌^◌, ◌≤◌, ◌<◌, List, [], ◌∷◌, true, ◌↔◌, ◌≡◌, arith}
use iridium_sniffer.Base.Doubles.{Doubles}
use iridium_sniffer.Ida.Reassembly.{Slot, ida_reassemble_flush, expire}

module _ (F : Doubles) where
  -- A slot after a flush at `now`: in use exactly if it was and 280 ms have not passed, and
  -- otherwise as it was.
  pub record IsFlushed (now : ℕ) (s s' : Slot F) : Type 0 where
    pub kept : (s'.active ≡ true) ↔ ((s.active ≡ true) × (now ≤ s.last_timestamp + 280_000_000))
    pub same_bytes : s'.bytes ≡ s.bytes
    pub same_frequency : s'.frequency ≡ s.frequency
    pub same_direction : s'.direction ≡ s.direction
    pub same_timestamp : s'.last_timestamp ≡ s.last_timestamp
    pub same_ctr : s'.last_ctr ≡ s.last_ctr

  expire-IsFlushed :
      (now : ℕ) (s : Slot F)
      → s.last_timestamp + 280_000_000 < 2 ^ 64
      → IsFlushed now s (expire F now s)
  expire-IsFlushed now s h = record {
    kept = unfold expire in ground arith;
    same_bytes = unfold expire in ground arith;
    same_frequency = unfold expire in ground arith;
    same_direction = unfold expire in ground arith;
    same_timestamp = unfold expire in ground arith;
    same_ctr = unfold expire in ground arith;
  }

  abbrev pub AllFlushed : ℕ → List (Slot F) → List (Slot F) → Type 0
  AllFlushed now [] [] = Unit {0}
  AllFlushed now [] (s ∷ r) = ⊥
  AllFlushed now (s ∷ r) [] = ⊥
  AllFlushed now (s ∷ r) (s' ∷ r') = IsFlushed now s s' × AllFlushed now r r'

  abbrev pub NoWrap : List (Slot F) → Type 0
  NoWrap [] = Unit {0}
  NoWrap (s ∷ r) = (s.last_timestamp + 280_000_000 < 2 ^ 64) × NoWrap r

  -- Where no deadline wraps round `uint64_t`, `ida_reassemble_flush` frees exactly the slots in use
  -- whose last burst is more than 280 ms old, and changes nothing else.
  pub ida_reassemble_flush_lem :
      (slots : List (Slot F)) (now : ℕ)
      → NoWrap slots
      → AllFlushed now slots (ida_reassemble_flush F slots now)
  unfolding ida_reassemble_flush
  ida_reassemble_flush_lem [] now h = tt
  ida_reassemble_flush_lem (s ∷ slots) now h =
      (expire-IsFlushed now s h.0, ida_reassemble_flush_lem slots now h.1)
