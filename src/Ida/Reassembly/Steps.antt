-- ===== src/Ida/Reassembly/Steps.antt =====
-- ida_decode.c, `ida_reassemble`: one burst of a message at a time.
use iridium_sniffer.Base.{
  ℕ, ◌+◌, ◌%◌, ◌≤◌, ◌<◌, List, [], ◌∷◌, ◌++◌, Option, none, some, true, false, ◌||◌, not, length,
  ◌==◌, Bool-cases, inl, inr, ◌≢◌, ◌≡◌, sym, refl, ◌∙◌, ap, arith,
}
use mathlib.Core.Option
use iridium_sniffer.Base.Doubles.{Doubles}
use iridium_sniffer.Demod.{Direction}
use iridium_sniffer.Ida.Decode.{Burst}
use iridium_sniffer.Ida.Reassembly.{
  Slot, Message, ida_reassemble, extend, accept, try_slots, matches, fragment, message_of, far,
  same_direction,
}

same_direction_self : (d : Direction) → same_direction d d ≡ true
same_direction_self Direction.undef = refl
same_direction_self Direction.downlink = refl
same_direction_self Direction.uplink = refl

module _ (F : Doubles) where
  -- The bursts in the order in which they arrive: the messages delivered, and the context.
  unfoldable pub run : List (Slot F) → List (Burst F) → List (Message F) × List (Slot F)
  run slots [] = ([], slots)
  run slots (b ∷ bursts) =
      let (m, slots') = ida_reassemble F slots b in
      let (ms, last) = run slots' bursts in (elim m [ none ↦ ms | some x ↦ x ∷ ms ], last)

  -- A burst that the CRC has passed and that carries data.
  pub record IsUsable (b : Burst F) : Type 0 where
    pub checked : b.crc.crc_ok ≡ true
    pub some_data : 0 < b.da_len

  -- The next burst of the message in slot `s`: the same direction, a frequency nearby, at most 280
  -- ms later, the next counter, and room for its bytes.
  pub record IsNext (s : Slot F) (b : Burst F) : Type 0 where
    pub usable : IsUsable b
    pub direction : b.direction ≡ s.direction
    pub near : far F s.frequency b.frequency ≡ false
    pub later : s.last_timestamp ≤ b.timestamp
    pub soon : b.timestamp ≤ s.last_timestamp + 280_000_000
    pub counter : b.da_ctr ≡ (s.last_ctr + 1) % 8
    pub fits : length s.bytes + b.da_len ≤ 256

  abbrev pub grow : Slot F → Burst F → Slot F
  grow s b = record s {
    bytes = s.bytes ++ fragment F b;
    last_timestamp = b.timestamp;
    last_ctr = b.da_ctr;
  }

  -- The rest of a message: only its last burst says that nothing follows.
  abbrev pub IsRest : Slot F → List (Burst F) → Type 0
  IsRest s [] = ⊥
  IsRest s (b ∷ []) = IsNext s b × (b.cont ≡ 0)
  IsRest s (b ∷ (b' ∷ r)) = IsNext s b × (b.cont ≢ 0) × IsRest (grow s b) (b' ∷ r)

  abbrev pub bytes_of : List (Burst F) → List ℕ
  bytes_of [] = []
  bytes_of (b ∷ r) = fragment F b ++ bytes_of r

  abbrev pub last_of : Burst F → List (Burst F) → Burst F
  last_of b [] = b
  last_of b (b' ∷ r) = last_of b' r

  -- None of the slots takes one of the bursts.
  abbrev pub TakesNone : List (Slot F) → List (Burst F) → Type 0
  TakesNone slots [] = Unit {0}
  TakesNone slots (b ∷ r) = (try_slots F b slots ≡ none) × TakesNone slots r

  pub matches-next :
      (s : Slot F) (b : Burst F) → s.active ≡ true → IsNext s b → matches F s b ≡ true
  unfolding matches
  matches-next s b a n = rw (a, n.direction, same_direction_self s.direction, n.near) (ground arith)

  pub extend-next : (s : Slot F) (b : Burst F) → IsNext s b → extend F s b ≡ grow s b
  unfolding extend
  extend-next s b n = ground (arith, n.fits)

  -- What the loop makes of a slot that does not match.
  abbrev pub behind :
      Slot F
      → Option (Option (Message F) × List (Slot F))
      → Option (Option (Message F) × List (Slot F))
  behind s o = Option.map (λ r. (r.0, s ∷ r.1)) o

  -- One slot of the loop, by whether it matches.
  try_here :
      (b : Burst F) (s : Slot F) (slots : List (Slot F))
      → matches F s b ≡ true
      → try_slots F b (s ∷ slots) ≡ some ((accept F s b).0, (accept F s b).1 ∷ slots)
  unfolding try_slots
  try_here b s slots m = rw (m, try_slots)

  try_next :
      (b : Burst F) (s : Slot F) (slots : List (Slot F))
      → matches F s b ≡ false
      → try_slots F b (s ∷ slots) ≡ behind s (try_slots F b slots)
  unfolding try_slots
  try_next b s slots m = rw (m, try_slots)

  map-none :
      (s : Slot F) (o : Option (Option (Message F) × List (Slot F))) → behind s o ≡ none → o ≡ none
  map-none s none h = refl
  map-none s (some r) h = cc

  not_here :
      (b : Burst F) (s : Slot F) (slots : List (Slot F))
      → try_slots F b (s ∷ slots) ≡ none
      → (matches F s b ≡ false) × (try_slots F b slots ≡ none)
  not_here b s slots h = elim (Bool-cases (matches F s b)) [
    | inl m ↦ absurd (cc (try_here b s slots m))
    | inr m ↦ (m, map-none s (try_slots F b slots) (sym (try_next b s slots m) ∙ h))
  ]

  pub skip :
      (b : Burst F) (pre : List (Slot F)) (s : Slot F) (post : List (Slot F))
      → try_slots F b pre ≡ none
      → matches F s b ≡ true
      → try_slots F b (pre ++ (s ∷ post))
        ≡ some ((accept F s b).0, pre ++ ((accept F s b).1 ∷ post))
  skip b [] s post h m = try_here b s post m
  skip b (p ∷ pre) s post h m =
      let n = not_here b p pre h in
      try_next b p (pre ++ (s ∷ post)) n.0 ∙ ap (behind p) (skip b pre s post n.1 m)

  -- A usable burst goes to the slots, and what the loop finds is the result.
  pub reassemble-some :
      (slots : List (Slot F)) (b : Burst F) (r : Option (Message F) × List (Slot F))
      → IsUsable b
      → try_slots F b slots ≡ some r
      → ida_reassemble F slots b ≡ r
  unfolding ida_reassemble
  reassemble-some slots b r u h = elim (Bool-cases (not b.crc.crc_ok || (b.da_len == 0))) [
    | inl skipped ↦ absurd (ground (arith, u.checked, u.some_data))
    | inr used ↦ rw (used, h, ida_reassemble)
  ]

  pub accept-middle : (s : Slot F) (b : Burst F) → b.cont ≢ 0 → accept F s b ≡ (none, extend F s b)
  unfolding accept
  accept-middle s b c = ground arith

  pub accept-last :
      (s : Slot F) (b : Burst F)
      → b.cont ≡ 0
      → accept F s b
        ≡ (some (message_of F (extend F s b) b), record (extend F s b) { active = false })
  unfolding accept
  accept-last s b c = ground arith

  pub run_step :
      (slots next : List (Slot F)) (m : Option (Message F)) (b : Burst F) (r : List (Burst F))
      → ida_reassemble F slots b ≡ (m, next)
      → run slots (b ∷ r)
        ≡ (elim m [ none ↦ (run next r).0 | some x ↦ x ∷ (run next r).0 ], (run next r).1)
  unfolding run
  run_step slots next m b r h =
      ap (λ q. (elim q.0 [ none ↦ (run q.1 r).0 | some x ↦ x ∷ (run q.1 r).0 ], (run q.1 r).1)) h
