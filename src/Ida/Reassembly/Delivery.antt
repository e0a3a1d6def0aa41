-- ===== src/Ida/Reassembly/Delivery.antt =====
-- ida_decode.c, `ida_reassemble`: the bursts of one message in a row.
use iridium_sniffer.Base.{
  ℕ, ◌+◌, ◌-◌, ◌^◌, List, [], ◌∷◌, ◌++◌, Option, none, some, true, false, ◌||◌, not, length, set,
  ◌==◌, Bool-cases, inl, inr, ◌≢◌, ◌≡◌, sym, refl, ◌∙◌, ap, arith,
}
use mathlib.Core.List.{append_assoc, append-nil}
use mathlib.Core.Option
use iridium_sniffer.Base.Doubles.{Doubles}
use iridium_sniffer.Ida.Decode.{Burst}
use iridium_sniffer.Ida.Reassembly.{
  Slot, Message, ida_reassemble, accept, try_slots, unmatched, choose, start, fragment, message_of,
}
use iridium_sniffer.Ida.Reassembly.Steps.{
  reassemble-some, accept-middle, matches-next, extend-next, accept-last, TakesNone, run_step,
  bytes_of, IsUsable, last_of, IsRest, IsNext, skip, grow, run,
}

module _ (F : Doubles) where
  module _ (pre post : List (Slot F)) where
    next_step :
        (s : Slot F) (b : Burst F)
        → s.active ≡ true
        → IsNext F s b
        → try_slots F b pre ≡ none
        → ida_reassemble F (pre ++ (s ∷ post)) b
          ≡ ((accept F s b).0, pre ++ ((accept F s b).1 ∷ post))
    next_step s b a n t =
        reassemble-some F (pre ++ (s ∷ post)) b _ n.usable
          (skip F b pre s post t (matches-next F s b a n))

    -- The message that the bursts `b ∷ r` complete in slot `s`.
    abbrev pub whole_message : Slot F → Burst F → List (Burst F) → Message F
    whole_message s b r = record {
      bytes = s.bytes ++ bytes_of F (b ∷ r);
      timestamp = (last_of F b r).timestamp;
      frequency = s.frequency;
      direction = s.direction;
      magnitude = (last_of F b r).magnitude;
    }

    -- The bursts deliver one message, the whole one, and the slot is free afterwards.
    Completes : Slot F → Burst F → List (Burst F) → Type 0
    Completes s b r =
        (s' : Slot F) × (s'.active ≡ false)
        × (run F (pre ++ (s ∷ post)) (b ∷ r) ≡ (whole_message s b r ∷ [], pre ++ (s' ∷ post)))

    last_step :
        (s : Slot F) (b : Burst F)
        → s.active ≡ true
        → IsNext F s b
        → b.cont ≡ 0
        → try_slots F b pre ≡ none
        → ida_reassemble F (pre ++ (s ∷ post)) b ≡ (
          some (message_of F (grow F s b) b),
          pre ++ (record (grow F s b) { active = false } ∷ post),
        )
    last_step s b a n c t =
        next_step s b a n t
        ∙ ap (λ r. (r.0, pre ++ (r.1 ∷ post)))
            (accept-last F s b c
              ∙ ap (λ g. (some (message_of F g b), record g { active = false }))
                  (extend-next F s b n))

    middle_step :
        (s : Slot F) (b : Burst F)
        → s.active ≡ true
        → IsNext F s b
        → b.cont ≢ 0
        → try_slots F b pre ≡ none
        → ida_reassemble F (pre ++ (s ∷ post)) b ≡ (none, pre ++ (grow F s b ∷ post))
    middle_step s b a n c t =
        next_step s b a n t
        ∙ ap (λ r. (r.0, pre ++ (r.1 ∷ post)))
            (accept-middle F s b c ∙ ap (λ g. (none, g)) (extend-next F s b n))

    completes :
        (s : Slot F) (b : Burst F) (r : List (Burst F))
        → s.active ≡ true
        → IsRest F s (b ∷ r)
        → TakesNone F pre (b ∷ r)
        → Completes s b r
    unfolding Completes run
    completes s b [] a n t =
        let (next, c) = n in
        let s' = record (grow F s b) { active = false } in
        (
          s',
          refl,
          run_step F (pre ++ (s ∷ post)) (pre ++ (s' ∷ post)) (some (message_of F (grow F s b) b)) b
                [] (last_step s b a next c t.0)
              ∙ ap
                  (λ xs. (
                    record (whole_message s b []) { bytes = s.bytes ++ xs } ∷ [],
                    pre ++ (s' ∷ post),
                  ))
                  (sym (append-nil (fragment F b))),
        )
    completes s b (b' ∷ r) a n t =
        let (next, c, more) = n in
        let (s', free, rest) = completes (grow F s b) b' r a more t.1 in
        (
          s',
          free,
          run_step F (pre ++ (s ∷ post)) (pre ++ (grow F s b ∷ post)) none b (b' ∷ r)
                (middle_step s b a next c t.0)
              ∙ rest
              ∙ ap
                  (λ xs.
                    (record (whole_message s b (b' ∷ r)) { bytes = xs } ∷ [], pre ++ (s' ∷ post)))
                  (append_assoc s.bytes (fragment F b) (bytes_of F (b' ∷ r))),
        )

  -- The first burst of a message of several takes the first free slot.
  abbrev pub AreActive : List (Slot F) → Type 0
  AreActive [] = Unit {0}
  AreActive (s ∷ slots) = (s.active ≡ true) × AreActive slots

  choose-free :
      (pre : List (Slot F)) (s : Slot F) (post : List (Slot F)) (i : ℕ) (idx : Option ℕ)
      (oldest : ℕ)
      → AreActive pre
      → s.active ≡ false
      → choose F (pre ++ (s ∷ post)) i idx oldest ≡ some (i + length pre)
  unfolding choose
  choose-free [] s post i idx oldest a free = rw (free) (ap some (omega arith))
  choose-free (p ∷ pre) s post i idx oldest a free =
      rw (a.0) (choose-free pre s post (i + 1) _ _ a.1 free ∙ ap some (omega arith))

  set-middle :
      (pre : List (Slot F)) (s s' : Slot F) (post : List (Slot F))
      → set (pre ++ (s ∷ post)) (length pre) s' ≡ pre ++ (s' ∷ post)
  set-middle [] s s' post = refl
  set-middle (p ∷ pre) s s' post = ap (λ r. p ∷ r) (set-middle pre s s' post)

  -- The first burst of a message of several: counter 0, more to come, and no slot expects it.
  pub record IsFirst (slots : List (Slot F)) (b : Burst F) : Type 0 where
    pub usable : IsUsable F b
    pub counter : b.da_ctr ≡ 0
    pub more : b.cont ≢ 0
    pub unexpected : try_slots F b slots ≡ none

  reassemble-none :
      (slots : List (Slot F)) (b : Burst F)
      → IsUsable F b
      → try_slots F b slots ≡ none
      → ida_reassemble F slots b ≡ unmatched F slots b
  unfolding ida_reassemble
  reassemble-none slots b u h = elim (Bool-cases (not b.crc.crc_ok || (b.da_len == 0))) [
    | inl skipped ↦ absurd (ground (arith, u.checked, u.some_data))
    | inr used ↦ rw (used, h, ida_reassemble)
  ]

  unmatched-first :
      (slots : List (Slot F)) (b : Burst F)
      → b.da_ctr ≡ 0
      → b.cont ≢ 0
      → unmatched F slots b
        ≡ (none, set slots (Option.get_or (choose F slots 0 none (2 ^ 64 - 1)) 0) (start F b))
  unfolding unmatched
  unmatched-first slots b c m = elim (Bool-cases (b.cont == 0)) [
    | inl single ↦ absurd (ground arith)
    | inr more ↦ rw (c, more, unmatched)
  ]

  -- A message of two or more bursts is delivered once, whole, by its last burst, and its slot is free
  -- again, if no slot expects the first burst, each other burst is the next of the message and fits,
  -- and the slots before the first free one are in use and take none of those bursts.
  pub delivered :
      (pre : List (Slot F)) (s : Slot F) (post : List (Slot F)) (first b : Burst F)
      (r : List (Burst F))
      → AreActive pre
      → s.active ≡ false
      → IsFirst (pre ++ (s ∷ post)) first
      → IsRest F (start F first) (b ∷ r)
      → TakesNone F pre (b ∷ r)
      → (s' : Slot F) × (s'.active ≡ false)
        × (run F (pre ++ (s ∷ post)) (first ∷ (b ∷ r))
            ≡ (whole_message pre post (start F first) b r ∷ [], pre ++ (s' ∷ post)))
  unfolding Completes
  delivered pre s post first b r a free f n t =
      let (s', free', rest) = completes pre post (start F first) b r refl n t in
      let index : choose F (pre ++ (s ∷ post)) 0 none (2 ^ 64 - 1) ≡ some (length pre) =
        choose-free pre s post 0 none (2 ^ 64 - 1) a free ∙ ap some (omega arith) in
      let opened : ida_reassemble F (pre ++ (s ∷ post)) first
          ≡ (none, pre ++ (start F first ∷ post)) =
        reassemble-none (pre ++ (s ∷ post)) first f.usable f.unexpected
        ∙ unmatched-first (pre ++ (s ∷ post)) first f.counter f.more
        ∙ rw (index) (ap (λ l. (none, l)) (set-middle pre s (start F first) post)) in
      (
        s',
        free',
        run_step F (pre ++ (s ∷ post)) (pre ++ (start F first ∷ post)) none first (b ∷ r) opened
            ∙ rest,
      )
