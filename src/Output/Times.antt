-- ===== src/Output/Times.antt =====
-- ida_decode.c and sbd_acars.c: the time of a message that is handed on is that of the burst that
-- completes it.
use iridium_sniffer.Base.{
  ℕ, List, [], ◌∷◌, Option, none, some, Bool, true, false, ◌&&◌, ◌||◌, not, length, get_or, ltb,
  ◌==◌, if◌then◌else◌, drop, Bool-cases, Option-cases, inl, inr, some_eq, ◌≡◌, refl, sym, inc32,
}
use iridium_sniffer.Base.Doubles.{Doubles}
use iridium_sniffer.Ida.Decode.{Burst}
use iridium_sniffer.Ida.Reassembly
use iridium_sniffer.Sbd

module _ (Double : Type 0) where
  -- The message has this time, if there is one.
  abbrev pub HasTime : ℕ → Option (Sbd.Message Double) → Type 0
  HasTime t none = Unit {0}
  HasTime t (some m) = m.timestamp ≡ t

  continue_slot-HasTime :
      (s : Sbd.Slot Double) (p : Sbd.Packet) (m : Sbd.Message Double)
      → HasTime m.timestamp (Sbd.continue_slot Double s p m).0
  unfolding Sbd.continue_slot
  continue_slot-HasTime s p m =
      elim (Bool-cases (p.msgno == (Sbd.append_packet Double s p m).msgcnt)) [
        | inl e ↦ rw (e, Sbd.continue_slot) refl
        | inr e ↦ rw (e, Sbd.continue_slot) tt
      ]

  try_slots-HasTime :
      (slots : List (Sbd.Slot Double)) (p : Sbd.Packet) (m : Sbd.Message Double)
      (r : Option (Sbd.Message Double) × List (Sbd.Slot Double))
      → Sbd.try_slots Double slots p m ≡ some r
      → HasTime m.timestamp r.0
  unfolding Sbd.try_slots
  try_slots-HasTime [] p m r e = absurd (cc e)
  try_slots-HasTime (s ∷ slots) p m r e = elim (Option-cases (Sbd.try_slots Double slots p m)) [
    | inr (r', found) ↦
        (let q = rw (found) at e in rw (sym (some_eq q)) (try_slots-HasTime slots p m r' found))
    | inl missed ↦ elim (Bool-cases (Sbd.expects Double s p m)) [
      | inl x ↦ (let q = rw (missed, x) at e in rw (sym (some_eq q)) (continue_slot-HasTime s p m))
      | inr x ↦ (let q = rw (missed, x) at e in absurd (cc q))
    ]
  ]

  follow-HasTime :
      (st : Sbd.State Double) (p : Sbd.Packet) (m : Sbd.Message Double)
      → HasTime m.timestamp (Sbd.follow Double st p m).0
  unfolding Sbd.follow
  follow-HasTime st p m = elim (Bool-cases (ltb 1 p.msgno)) [
    | inr e ↦ rw (e, Sbd.follow) tt
    | inl e ↦ elim (Option-cases (Sbd.try_slots Double st.sbd_multi p m)) [
      | inl n ↦ rw (e, n, Sbd.follow) tt
      | inr (r, n) ↦ rw (e, n, Sbd.follow) (try_slots-HasTime st.sbd_multi p m r n)
    ]
  ]

  one_of :
      (t : ℕ) (b : Bool) (x y : Option (Sbd.Message Double) × Sbd.State Double)
      → HasTime t x.0
      → HasTime t y.0
      → HasTime t (if b then x else y).0
  one_of t true x y p q = p
  one_of t false x y p q = q

  only_if : (b : Bool) (m : Sbd.Message Double) → HasTime m.timestamp (if b then some m else none)
  only_if true m = refl
  only_if false m = tt

  dispatch-HasTime :
      (st : Sbd.State Double) (p : Sbd.Packet) (m : Sbd.Message Double)
      → HasTime m.timestamp (Sbd.dispatch Double st p m).0
  unfolding Sbd.dispatch
  dispatch-HasTime st p m =
      one_of m.timestamp (p.msgno == 0) _ _ (only_if (ltb 0 (length m.bytes)) m) (
        one_of m.timestamp (Sbd.is_count p.msgcnt 1 && (p.msgno == 1)) _ _ refl
          (one_of m.timestamp (ltb 1 (Sbd.count_of p.msgcnt)) _ _ tt (follow-HasTime _ p m)))

  pub sbd_extract-HasTime :
      (st : Sbd.State Double) (packet : List ℕ) (ul : Bool) (timestamp : ℕ)
      (frequency magnitude : Double)
      → HasTime timestamp (Sbd.sbd_extract Double st packet ul timestamp frequency magnitude).0
  unfolding Sbd.sbd_extract
  sbd_extract-HasTime st packet ul timestamp frequency magnitude =
      one_of timestamp (ltb (length packet) 5 || not (Sbd.is_sbd ul packet)) _ _ tt (
        by_packet (
          if (get_or packet 0 0 == 6) && (get_or packet 1 0 == 0)
          then Sbd.read_first (drop 2 packet)
          else Sbd.read_marked ul (get_or packet 1 0) (drop 2 packet)))
    where
      counted : Sbd.State Double
      counted = record st { stats = record st.stats { total = inc32 st.stats.total } }

      by_packet :
          (o : Option Sbd.Packet)
          → HasTime timestamp
              (elim o as (λ _. Option (Sbd.Message Double) × Sbd.State Double) [
                | none ↦ (none, counted)
                | some p ↦ Sbd.dispatch Double counted p (record {
                  bytes = p.sbd_data;
                  ul = ul;
                  timestamp = timestamp;
                  frequency = frequency;
                  magnitude = magnitude;
                })
              ]).0
      by_packet none = tt
      by_packet (some p) = dispatch-HasTime counted p _

module _ (F : Doubles) where
  -- The reassembled message has the time of the burst, if there is one.
  abbrev pub IsOfBurst : Burst F → Option (Reassembly.Message F) → Type 0
  IsOfBurst b none = Unit {0}
  IsOfBurst b (some m) = m.timestamp ≡ b.timestamp

  accept-IsOfBurst : (s : Reassembly.Slot F) (b : Burst F) → IsOfBurst b (Reassembly.accept F s b).0
  unfolding Reassembly.accept
  accept-IsOfBurst s b = elim (Bool-cases (b.cont == 0)) [
    | inl e ↦ rw (e, Reassembly.accept) refl
    | inr e ↦ rw (e, Reassembly.accept) tt
  ]

  slots-IsOfBurst :
      (b : Burst F) (slots : List (Reassembly.Slot F))
      (r : Option (Reassembly.Message F) × List (Reassembly.Slot F))
      → Reassembly.try_slots F b slots ≡ some r
      → IsOfBurst b r.0
  unfolding Reassembly.try_slots
  slots-IsOfBurst b [] r e = absurd (cc e)
  slots-IsOfBurst b (s ∷ slots) r e = elim (Bool-cases (Reassembly.matches F s b)) [
    | inl x ↦
        (let q = rw (x, Reassembly.try_slots) at e in rw (sym (some_eq q)) (accept-IsOfBurst s b))
    | inr x ↦ elim (Option-cases (Reassembly.try_slots F b slots)) [
      | inl n ↦ (let q = rw (x, n, Reassembly.try_slots) at e in absurd (cc q))
      | inr (r', n) ↦
          (let q = rw (x, n, Reassembly.try_slots) at e in
            rw (sym (some_eq q)) (slots-IsOfBurst b slots r' n))
    ]
  ]

  unmatched-IsOfBurst :
      (slots : List (Reassembly.Slot F)) (b : Burst F)
      → IsOfBurst b (Reassembly.unmatched F slots b).0
  unfolding Reassembly.unmatched
  unmatched-IsOfBurst slots b = elim (Bool-cases (b.da_ctr == 0)) [
    | inr e ↦ rw (e, Reassembly.unmatched) tt
    | inl e ↦ elim (Bool-cases (b.cont == 0)) [
      | inl c ↦ rw (e, c, Reassembly.unmatched) refl
      | inr c ↦ rw (e, c, Reassembly.unmatched) tt
    ]
  ]

  pub ida_reassemble-IsOfBurst :
      (slots : List (Reassembly.Slot F)) (b : Burst F)
      → IsOfBurst b (Reassembly.ida_reassemble F slots b).0
  unfolding Reassembly.ida_reassemble
  ida_reassemble-IsOfBurst slots b = elim (Bool-cases (not b.crc.crc_ok || (b.da_len == 0))) [
    | inl e ↦ rw (e, Reassembly.ida_reassemble) tt
    | inr e ↦ elim (Option-cases (Reassembly.try_slots F b slots)) [
      | inl n ↦ rw (e, n, Reassembly.ida_reassemble) (unmatched-IsOfBurst slots b)
      | inr (r, n) ↦ rw (e, n, Reassembly.ida_reassemble) (slots-IsOfBurst b slots r n)
    ]
  ]
