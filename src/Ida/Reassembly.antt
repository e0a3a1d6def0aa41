-- ===== src/Ida/Reassembly.antt =====
-- ida_decode.c: `ida_reassemble` and `ida_reassemble_flush`: messages out of bursts, in 16 slots.
pub mod Invariant
pub mod Steps
pub mod Delivery
pub mod Flush
use iridium_sniffer.Base.{
  ℕ, zero, suc, ◌+◌, ◌-◌, ◌*◌, ◌%◌, ◌^◌, ◌≤◌, List, [], ◌∷◌, ◌++◌, Option, none, some, Bool, true,
  false, ◌&&◌, ◌||◌, not, length, take, replicate, set, ltb, leb, ◌==◌, if◌then◌else◌,
}
use mathlib.Core.Option
use iridium_sniffer.Base.Int.{pos}
use iridium_sniffer.Base.Doubles.{Doubles}
use iridium_sniffer.Demod.{Direction}
use iridium_sniffer.Ida.Decode.{Burst}

abbrev pub ida_max_reassembly : ℕ
ida_max_reassembly = 16

-- `sizeof(s->data)`, and the 280 ms after which a message is given up.
abbrev pub slot_size : ℕ
slot_size = 256

abbrev pub timeout_ns : ℕ
timeout_ns = 280_000_000

abbrev pub same_direction : Direction → Direction → Bool
same_direction Direction.undef Direction.undef = true
same_direction Direction.downlink Direction.downlink = true
same_direction Direction.uplink Direction.uplink = true
same_direction _ _ = false

module _ (F : Doubles) where
  open F use {Double, of_int, sub, fabs, lt}

  -- `ida_reassembly_t`; `data` is its first `data_len` bytes.
  pub record Slot : Type 0 where
    pub active : Bool
    pub direction : Direction
    pub frequency : Double
    pub last_timestamp : ℕ
    pub last_ctr : ℕ
    pub bytes : List ℕ

  -- The call of the callback.
  pub record Message : Type 0 where
    pub bytes : List ℕ
    pub timestamp : ℕ
    pub frequency : Double
    pub direction : Direction
    pub magnitude : Double

  -- `fabs(s->frequency - burst->frequency) > 260.0`
  abbrev pub far : Double → Double → Bool
  far a b = lt (of_int (pos 260)) (fabs (sub a b))

  -- `memcpy(..., burst->payload, burst->da_len)`
  abbrev pub fragment : Burst F → List ℕ
  fragment b = take b.da_len b.payload

  -- None of the six tests of the loop makes it `continue`.
  unfoldable pub matches : Slot → Burst F → Bool
  matches s b =
      s.active
      && same_direction s.direction b.direction
      && not (far s.frequency b.frequency)
      && not (ltb b.timestamp s.last_timestamp)
      && not (ltb timeout_ns (b.timestamp - s.last_timestamp))
      && ((s.last_ctr + 1) % 8 == b.da_ctr)

  -- The matching slot with the payload appended, if it fits.
  unfoldable pub extend : Slot → Burst F → Slot
  extend s b = record s {
    bytes = if leb (length s.bytes + b.da_len) slot_size then s.bytes ++ fragment b else s.bytes;
    last_timestamp = b.timestamp;
    last_ctr = b.da_ctr;
  }

  abbrev pub message_of : Slot → Burst F → Message
  message_of s b = record {
    bytes = s.bytes;
    timestamp = b.timestamp;
    frequency = s.frequency;
    direction = s.direction;
    magnitude = b.magnitude;
  }

  -- What becomes of the matching slot: the message if it is complete, and the slot.
  unfoldable pub accept : Slot → Burst F → Option Message × Slot
  accept s b =
      let s' = extend s b in
      if b.cont == 0 then (some (message_of s' b), record s' { active = false }) else (none, s')

  -- The loop over the slots; none if no slot matches.
  unfoldable pub try_slots : Burst F → List Slot → Option (Option Message × List Slot)
  try_slots b [] = none
  try_slots b (s ∷ slots) = elim (matches s b) [
    | true ↦ let (m, s') = accept s b in some (m, s' ∷ slots)
    | false ↦ Option.map (λ r. (r.0, s ∷ r.1)) (try_slots b slots)
  ]

  -- The first free slot, or else the one that was used longest ago, from index `i` on.
  unfoldable pub choose : List Slot → ℕ → Option ℕ → ℕ → Option ℕ
  choose [] i idx oldest = idx
  choose (s ∷ slots) i idx oldest = elim s.active [
    | false ↦ some i
    | true ↦
        choose slots (i + 1) (if ltb s.last_timestamp oldest then some i else idx)
          (if ltb s.last_timestamp oldest then s.last_timestamp else oldest)
  ]

  abbrev pub start : Burst F → Slot
  start b = record {
    active = true;
    direction = b.direction;
    frequency = b.frequency;
    last_timestamp = b.timestamp;
    last_ctr = b.da_ctr;
    bytes = fragment b;
  }

  abbrev pub single_message : Burst F → Message
  single_message b = record {
    bytes = fragment b;
    timestamp = b.timestamp;
    frequency = b.frequency;
    direction = b.direction;
    magnitude = b.magnitude;
  }

  -- Where no slot matches: a message of one burst, the start of a longer one, or an orphan.
  unfoldable pub unmatched : List Slot → Burst F → Option Message × List Slot
  unmatched slots b =
      if (b.da_ctr == 0) && (b.cont == 0)
      then (some (single_message b), slots)
      else if b.da_ctr == 0
      then (none, set slots (Option.get_or (choose slots 0 none (2 ^ 64 - 1)) 0) (start b))
      else (none, slots)

  -- The message that the callback gets, none if 0 is returned, and the new context.
  unfoldable pub ida_reassemble : List Slot → Burst F → Option Message × List Slot
  ida_reassemble slots b =
      if not b.crc.crc_ok || (b.da_len == 0)
      then (none, slots)
      else elim (try_slots b slots) [ some r ↦ r | none ↦ unmatched slots b ]

  -- `now_ns > s->last_timestamp + 280000000ULL`, on `uint64_t`.
  unfoldable pub expire : ℕ → Slot → Slot
  expire now_ns s =
      if s.active && ltb ((s.last_timestamp + timeout_ns) % 2 ^ 64) now_ns
      then record s { active = false }
      else s

  unfoldable pub ida_reassemble_flush : List Slot → ℕ → List Slot
  ida_reassemble_flush [] now_ns = []
  ida_reassemble_flush (s ∷ slots) now_ns = expire now_ns s ∷ ida_reassemble_flush slots now_ns
