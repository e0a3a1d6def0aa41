-- ===== src/Detector/Gone.antt =====
-- burst_detect.c, `delete_gone_bursts`: which bursts stay and which are handed on.
use iridium_sniffer.Base.{
  ◌++◌, ◌+◌, ◌%◌, ◌^◌, ℕ, List, [], ◌∷◌, leb, ltb, sub64, if◌then◌else◌, ◌&&◌, ap, ◌∙◌, Bool, true,
  ◌||◌, ◌==◌, length, Bool-cases, inl, inr, ◌≡◌, refl,
}
use iridium_sniffer.Base.Doubles.{Doubles}
use iridium_sniffer.Detector.{Settings, Detector, Active}
use iridium_sniffer.Detector.Sweep.{kept, left, flagged, sweep-once}
use iridium_sniffer.Detector.Noise.{update_filters_post}
use iridium_sniffer.Detector.Track.{delete_gone_bursts, gone_rule}

module _ (F : Doubles) (c : Settings F) where
  -- The noise floor leaves the bursts alone.
  pub update_filters_post-bursts :
      (d : Detector F) (force : Bool)
      → ((update_filters_post F c d force).bursts ≡ d.bursts)
        × ((update_filters_post F c d force).gone_bursts ≡ d.gone_bursts)
  unfolding update_filters_post
  update_filters_post-bursts d force = elim (Bool-cases ((length d.bursts == 0) || force)) [
    | inl e ↦ rw (e) (refl, refl)
    | inr e ↦ rw (e) (refl, refl)
  ]

  -- The burst has ended, or it is longer than allowed.
  abbrev pub is_over : ℕ → Active F → Bool
  is_over index b =
      leb ((b.last_active + c.burst_post_len) % 2 ^ 64) index
      || (ltb 0 c.max_burst_len && ltb c.max_burst_len (sub64 b.last_active b.start))

  abbrev pub still_active : ℕ → List (Active F) → List (Active F)
  still_active index [] = []
  still_active index (b ∷ bursts) =
      let rest = still_active index bursts in if is_over index b then rest else b ∷ rest

  -- The bursts that are over, each stopped at `index`.
  abbrev pub stopped : ℕ → List (Active F) → List (Active F)
  stopped index [] = []
  stopped index (b ∷ bursts) =
      let rest = stopped index bursts in
      if is_over index b then record b { stop = index } ∷ rest else rest

  kept-active :
      (index : ℕ) (bursts : List (Active F))
      → kept (gone_rule F c index) bursts ≡ still_active index bursts
  unfolding gone_rule
  kept-active index [] = refl
  kept-active index (b ∷ bursts) = elim (Bool-cases (is_over index b)) [
    | inl e ↦ rw (e, kept) (kept-active index bursts)
    | inr e ↦ rw (e, kept) (ap (λ bs. b ∷ bs) (kept-active index bursts))
  ]

  left-stopped :
      (index : ℕ) (bursts : List (Active F))
      → left (gone_rule F c index) bursts ≡ stopped index bursts
  unfolding gone_rule
  left-stopped index [] = refl
  left-stopped index (b ∷ bursts) = elim (Bool-cases (is_over index b)) [
    | inl e ↦ rw (e, left) (ap (λ bs. record b { stop = index } ∷ bs) (left-stopped index bursts))
    | inr e ↦ rw (e, left) (left-stopped index bursts)
  ]

  pub delete_gone_bursts-swept :
      (d : Detector F)
      → ((delete_gone_bursts F c d).bursts ≡ kept (gone_rule F c d.index) d.bursts)
        × ((delete_gone_bursts F c d).gone_bursts
            ≡ d.gone_bursts ++ left (gone_rule F c d.index) d.bursts)
  unfolding delete_gone_bursts
  delete_gone_bursts-swept d = elim (Bool-cases (flagged (gone_rule F c d.index) d.bursts)) [
    | inl e ↦
        rw (sweep-once (gone_rule F c d.index) d.bursts d.gone_bursts, e)
          (update_filters_post-bursts
            (record d {
              bursts = kept (gone_rule F c d.index) d.bursts;
              gone_bursts = d.gone_bursts ++ left (gone_rule F c d.index) d.bursts;
            })
            true)
    | inr e ↦ rw (sweep-once (gone_rule F c d.index) d.bursts d.gone_bursts, e) (refl, refl)
  ]

  -- `delete_gone_bursts` is one pass over the bursts. A burst that was last active `burst_post_len`
  -- samples ago or more, on `uint64_t`, or whose activity is longer than `max_burst_len`, if that is not
  -- 0, leaves the array and is appended to the gone ones, with the present index as its stop and nothing
  -- else changed; the other bursts stay as they are; both keep their order.
  pub delete_gone_bursts-once :
      (d : Detector F)
      → ((delete_gone_bursts F c d).bursts ≡ still_active d.index d.bursts)
        × ((delete_gone_bursts F c d).gone_bursts ≡ d.gone_bursts ++ stopped d.index d.bursts)
  delete_gone_bursts-once d =
      let (bursts, gone) = delete_gone_bursts-swept d in
      (
        bursts ∙ kept-active d.index d.bursts,
        gone ∙ ap (λ bs. d.gone_bursts ++ bs) (left-stopped d.index d.bursts),
      )
