-- ===== src/Ida/Reassembly/Invariant.antt =====
-- ida_decode.c, `ida_reassemble`: the sizes of the context and of the messages.
use iridium_sniffer.Base.{
  ℕ, zero, suc, ◌≤◌, List, [], ◌∷◌, Option, none, some, Bool, true, false, ◌&&◌, ◌||◌, not, length,
  length-append, length-take, set, length-set, ◌==◌, if◌then◌else◌, Bool-cases, inl, inr, ◌≡◌, refl,
  ◌∙◌, ap, arith, ◌-◌, ◌^◌,
}
use mathlib.Core.Option
use iridium_sniffer.Base.Doubles.{Doubles}
use iridium_sniffer.Ida.Decode.{Burst}
use iridium_sniffer.Ida.Reassembly.{
  Slot, Message, ida_reassemble, extend, accept, try_slots, unmatched, matches, choose, start,
  fragment, single_message,
}

module _ (F : Doubles) where
  abbrev pub AllFit : List (Slot F) → Type 0
  AllFit [] = Unit {0}
  AllFit (s ∷ slots) = (length s.bytes ≤ 256) × AllFit slots

  pub record IsContext (slots : List (Slot F)) : Type 0 where
    pub count : length slots ≡ 16
    pub fits : AllFit slots

  -- What the callback may be given: at most 256 bytes.
  abbrev pub MessageFits : Option (Message F) → Type 0
  MessageFits none = Unit {0}
  MessageFits (some m) = length m.bytes ≤ 256

  fragment-le : (b : Burst F) → length (fragment F b) ≤ b.da_len
  fragment-le b = omega (arith, length-take b.da_len b.payload)

  extend-fits :
      (s : Slot F) (b : Burst F) → length s.bytes ≤ 256 → length (extend F s b).bytes ≤ 256
  unfolding extend
  extend-fits s b h = ground (arith, length-append s.bytes (fragment F b), fragment-le b)

  accept-fits :
      (s : Slot F) (b : Burst F)
      → length s.bytes ≤ 256
      → MessageFits (accept F s b).0 × (length (accept F s b).1.bytes ≤ 256)
  unfolding accept
  accept-fits s b h = elim (Bool-cases (b.cont == 0)) [
    | inl e ↦ rw e (extend-fits s b h, extend-fits s b h)
    | inr e ↦ rw e (tt, extend-fits s b h)
  ]

  -- A result of the loop over the slots, if there is one.
  abbrev Kept : ℕ → Option (Option (Message F) × List (Slot F)) → Type 0
  Kept n none = Unit {0}
  Kept n (some r) = MessageFits r.0 × (length r.1 ≡ n) × AllFit r.1

  try_slots-fits :
      (b : Burst F) (slots : List (Slot F))
      → AllFit slots
      → Kept (length slots) (try_slots F b slots)
  unfolding try_slots
  try_slots-fits b [] h = tt
  try_slots-fits b (s ∷ slots) h =
      by_match (matches F s b) (try_slots F b slots) (try_slots-fits b slots h.1)
    where
      by_match :
          (here : Bool) (rest : Option (Option (Message F) × List (Slot F)))
          → Kept (length slots) rest
          → Kept (suc (length slots)) (elim here [
            | true ↦ some ((accept F s b).0, (accept F s b).1 ∷ slots)
            | false ↦ Option.map (λ r. (r.0, s ∷ r.1)) rest
          ])
      by_match true rest k = ((accept-fits s b h.0).0, refl, ((accept-fits s b h.0).1, h.1))
      by_match false none k = tt
      by_match false (some r) k = (k.0, ap suc k.1, (h.0, k.2))

  set-fits :
      (slots : List (Slot F)) (i : ℕ) (s : Slot F)
      → AllFit slots
      → length s.bytes ≤ 256
      → AllFit (set slots i s)
  set-fits [] i s h k = tt
  set-fits (x ∷ slots) zero s h k = (k, h.1)
  set-fits (x ∷ slots) (suc i) s h k = (h.0, set-fits slots i s h.1 k)

  unmatched-fits :
      (slots : List (Slot F)) (b : Burst F)
      → AllFit slots
      → b.da_len ≤ 256
      → MessageFits (unmatched F slots b).0
        × (length (unmatched F slots b).1 ≡ length slots)
        × AllFit (unmatched F slots b).1
  unfolding unmatched
  unmatched-fits slots b h k = by_tests (b.da_ctr == 0) (b.cont == 0)
    where
      small : length (fragment F b) ≤ 256
      small = omega (arith, fragment-le b)

      place : ℕ
      place = Option.get_or (choose F slots 0 none (2 ^ 64 - 1)) 0

      by_tests :
          (first last : Bool)
          → let r : Option (Message F) × List (Slot F) =
              if first && last
              then (some (single_message F b), slots)
              else if first
              then (none, set slots place (start F b))
              else (none, slots) in
            MessageFits r.0 × (length r.1 ≡ length slots) × AllFit r.1
      by_tests true true = (small, refl, h)
      by_tests true false =
          (tt, length-set slots place (start F b), set-fits slots place (start F b) h small)
      by_tests false last = (tt, refl, h)

  -- `ida_reassemble` keeps the context 16 slots of at most 256 bytes each, and hands the callback
  -- at most 256 bytes, for every burst of at most 256 bytes.
  pub ida_reassemble-IsContext :
      (slots : List (Slot F)) (b : Burst F)
      → IsContext slots
      → b.da_len ≤ 256
      → IsContext (ida_reassemble F slots b).1 × MessageFits (ida_reassemble F slots b).0
  unfolding ida_reassemble
  ida_reassemble-IsContext slots b c small =
      by_tests (not b.crc.crc_ok || (b.da_len == 0)) (try_slots F b slots)
        (try_slots-fits b slots c.fits)
    where
      by_tests :
          (skip : Bool) (o : Option (Option (Message F) × List (Slot F)))
          → Kept (length slots) o
          → let r : Option (Message F) × List (Slot F) =
              if skip then (none, slots) else elim o [ some r ↦ r | none ↦ unmatched F slots b ] in
            IsContext r.1 × MessageFits r.0
      by_tests true o k = (c, tt)
      by_tests false none k =
          let u = unmatched-fits slots b c.fits small in
          (record { count = u.1 ∙ c.count; fits = u.2 }, u.0)
      by_tests false (some r) k = (record { count = k.1 ∙ c.count; fits = k.2 }, k.0)
