-- ===== src/Sbd/Bounded.antt =====
-- sbd_acars.c, `sbd_extract`: the sizes of the reassembly slots.
use iridium_sniffer.Base.{
  ℕ, zero, suc, ◌+◌, ◌-◌, ◌%◌, ◌^◌, ◌≤◌, List, [], ◌∷◌, Option, some, Bool, ◌&&◌, ◌||◌, not, length,
  length-append, length-take, length-set, ap, some_eq, ◌∙◌, get_or, take, drop, set, ltb, ◌==◌,
  if◌then◌else◌, ◌≡◌, refl, sym, arith, Bool-cases, Option-cases, inl, inr,
}
use iridium_sniffer.Sbd.{
  Packet, Slot, Message, State, expire, sbd_expire, append_packet, continue_slot, try_slots,
  open_slot, expects, follow, dispatch, sbd_extract, is_sbd, read_first, read_marked, is_count,
  count_of,
}

module _ (Double : Type 0) where
  -- `data_len` is at most `sizeof(data)` in every slot.
  abbrev pub AreBounded : List (Slot Double) → Type 0
  AreBounded [] = Unit {0}
  AreBounded (s ∷ slots) = (length s.bytes ≤ 1024) × AreBounded slots

  -- There are eight slots, none with more bytes than its buffer has.
  pub record IsContext (slots : List (Slot Double)) : Type 0 where
    pub eight : length slots ≡ 8
    pub bounded : AreBounded slots

  expire-bytes : (now_ns : ℕ) (s : Slot Double) → (expire Double now_ns s).bytes ≡ s.bytes
  unfolding expire
  expire-bytes now_ns s =
      elim (Bool-cases (s.active && ltb ((s.timestamp + 5_000_000_000) % 2 ^ 64) now_ns)) [
        | inl e ↦ rw (e, expire)
        | inr e ↦ rw (e, expire)
      ]

  sbd_expire-AreBounded :
      (now_ns : ℕ) (slots : List (Slot Double))
      → AreBounded slots
      → AreBounded (sbd_expire Double now_ns slots)
  unfolding sbd_expire
  sbd_expire-AreBounded now_ns [] h = h
  sbd_expire-AreBounded now_ns (s ∷ slots) h =
      (rw (expire-bytes now_ns s) h.0, sbd_expire-AreBounded now_ns slots h.1)

  length-sbd_expire :
      (now_ns : ℕ) (slots : List (Slot Double))
      → length (sbd_expire Double now_ns slots) ≡ length slots
  unfolding sbd_expire
  length-sbd_expire now_ns [] = refl
  length-sbd_expire now_ns (s ∷ slots) = rw (length-sbd_expire now_ns slots)

  append_packet-bounded :
      (s : Slot Double) (p : Packet) (m : Message Double)
      → length s.bytes ≤ 1024
      → length (append_packet Double s p m).bytes ≤ 1024
  unfolding append_packet
  append_packet-bounded s p m h = omega (
    arith,
    length-append s.bytes (take (1024 - length s.bytes) m.bytes),
    length-take (1024 - length s.bytes) m.bytes,
  )

  continue_slot-bounded :
      (s : Slot Double) (p : Packet) (m : Message Double)
      → length s.bytes ≤ 1024
      → length ((continue_slot Double s p m).1).bytes ≤ 1024
  unfolding continue_slot
  continue_slot-bounded s p m h =
      elim (Bool-cases (p.msgno == (append_packet Double s p m).msgcnt)) [
        | inl e ↦ rw (e, continue_slot) (append_packet-bounded s p m h)
        | inr e ↦ rw (e, continue_slot) (append_packet-bounded s p m h)
      ]

  set-AreBounded :
      (slots : List (Slot Double)) (i : ℕ) (s : Slot Double)
      → AreBounded slots
      → length s.bytes ≤ 1024
      → AreBounded (set slots i s)
  set-AreBounded [] i s a h = a
  set-AreBounded (x ∷ slots) zero s a h = (h, a.1)
  set-AreBounded (x ∷ slots) (suc i) s a h = (a.0, set-AreBounded slots i s a.1 h)

  opened-bounded :
      (p : Packet) (n : ℕ) (m : Message Double) → length (open_slot Double p n m).bytes ≤ 1024
  opened-bounded p n m = omega (arith, length-take 1024 m.bytes)

  -- The slots have become others within the bounds.
  pub record IsStep (slots slots' : List (Slot Double)) : Type 0 where
    pub size : length slots' ≡ length slots
    pub bounded : AreBounded slots'

  try_slots-IsStep :
      (slots : List (Slot Double)) (p : Packet) (m : Message Double)
      (r : Option (Message Double) × List (Slot Double))
      → AreBounded slots
      → try_slots Double slots p m ≡ some r
      → IsStep slots r.1
  unfolding try_slots
  try_slots-IsStep [] p m r a e = absurd (cc e)
  try_slots-IsStep (s ∷ slots) p m r a e = elim (Option-cases (try_slots Double slots p m)) [
    | inr (r', found) ↦
        (let q = rw (found) at e in
          let rest = try_slots-IsStep slots p m r' a.1 found in
          rw (sym (some_eq q)) (record { size = ap suc rest.size; bounded = (a.0, rest.bounded) }))
    | inl missed ↦ elim (Bool-cases (expects Double s p m)) [
      | inl here ↦
          (let q = rw (missed, here) at e in
            rw (sym (some_eq q))
              (record { size = refl; bounded = (continue_slot-bounded s p m a.0, a.1) }))
      | inr other ↦ (let q = rw (missed, other) at e in absurd (cc q))
    ]
  ]

  step-IsContext :
      (slots slots' : List (Slot Double)) → IsContext slots → IsStep slots slots' → IsContext slots'
  step-IsContext slots slots' c s = record { eight = s.size ∙ c.eight; bounded = s.bounded }

  expire-IsContext :
      (now_ns : ℕ) (slots : List (Slot Double))
      → IsContext slots
      → IsContext (sbd_expire Double now_ns slots)
  expire-IsContext now_ns slots c = record {
    eight = length-sbd_expire now_ns slots ∙ c.eight;
    bounded = sbd_expire-AreBounded now_ns slots c.bounded;
  }

  follow-IsContext :
      (st : State Double) (p : Packet) (m : Message Double)
      → IsContext st.sbd_multi
      → IsContext (follow Double st p m).1.sbd_multi
  unfolding follow
  follow-IsContext st p m c = elim (Bool-cases (ltb 1 p.msgno)) [
    | inr first ↦ rw (first, follow) c
    | inl more ↦ elim (Option-cases (try_slots Double st.sbd_multi p m)) [
      | inl broken ↦ rw (more, broken, follow) c
      | inr (r, found) ↦
          rw (more, found, follow)
            (step-IsContext st.sbd_multi r.1 c
              (try_slots-IsStep st.sbd_multi p m r c.bounded found))
    ]
  ]

  opened-IsContext :
      (slots : List (Slot Double)) (i : ℕ) (p : Packet) (n : ℕ) (m : Message Double)
      → IsContext slots
      → IsContext (set slots i (open_slot Double p n m))
  opened-IsContext slots i p n m c = record {
    eight = length-set slots i (open_slot Double p n m) ∙ c.eight;
    bounded = set-AreBounded slots i (open_slot Double p n m) c.bounded (opened-bounded p n m);
  }

  dispatch-IsContext :
      (st : State Double) (p : Packet) (m : Message Double)
      → IsContext st.sbd_multi
      → IsContext (dispatch Double st p m).1.sbd_multi
  unfolding dispatch
  dispatch-IsContext st p m c =
      let e = expire-IsContext m.timestamp st.sbd_multi c in
      elim (Bool-cases (p.msgno == 0)) [
        | inl short ↦ rw (short, dispatch) e
        | inr numbered ↦ elim (Bool-cases (is_count p.msgcnt 1 && (p.msgno == 1))) [
          | inl single ↦ rw (numbered, single, dispatch) e
          | inr several ↦ elim (Bool-cases (ltb 1 (count_of p.msgcnt))) [
            | inl starts ↦
                rw (numbered, several, starts, dispatch)
                  (opened-IsContext _ _ p (count_of p.msgcnt) m e)
            | inr more ↦ rw (numbered, several, more, dispatch) (follow-IsContext _ p m e)
          ]
        ]
      ]

  -- If there are eight slots, none with more than 1024 bytes, this is so after `sbd_extract` too,
  -- whatever message arrives.
  pub sbd_extract-IsContext :
      (st : State Double) (packet : List ℕ) (ul : Bool) (timestamp : ℕ)
      (frequency magnitude : Double)
      → IsContext st.sbd_multi
      → IsContext (sbd_extract Double st packet ul timestamp frequency magnitude).1.sbd_multi
  unfolding sbd_extract
  sbd_extract-IsContext st packet ul timestamp frequency magnitude c =
      elim (Bool-cases (ltb (length packet) 5 || not (is_sbd ul packet))) [
        | inl other ↦ rw (other, sbd_extract) c
        | inr sbd ↦
            elim (Option-cases (
              if (get_or packet 0 0 == 6) && (get_or packet 1 0 == 0)
              then read_first (drop 2 packet)
              else read_marked ul (get_or packet 1 0) (drop 2 packet))) [
                | inl bad ↦ rw (sbd, bad, sbd_extract) c
                | inr (p, good) ↦ rw (sbd, good, sbd_extract) (dispatch-IsContext _ p _ c)
              ]
      ]
