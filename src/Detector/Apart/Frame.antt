-- ===== src/Detector/Apart/Frame.antt =====
-- burst_detect.c: the bursts before and after a whole frame.
use iridium_sniffer.Base.{
  ℕ, ◌≤◌, ◌<◌, List, [], true, false, Bool-cases, inl, inr, length, ltb, ◌&&◌, ◌≡◌, refl, ap, ◌∙◌,
  arith,
}
use iridium_sniffer.Base.Int.{pos}
use iridium_sniffer.Base.Doubles.{Doubles}
use iridium_sniffer.Detector.{Settings, Detector, Active, Peak}
use iridium_sniffer.Detector.Gone.{update_filters_post-bursts, delete_gone_bursts-swept}
use iridium_sniffer.Detector.Noise.{update_filters_pre}
use iridium_sniffer.Detector.Track.{
  update_bursts, remove_peaks_around_bursts, extract_peaks, delete_gone_bursts, update_burst_mask,
  gone_rule, create_new_bursts, create_from_peaks,
}
use iridium_sniffer.Detector.Feed.{detect, process_magnitude_frame}
use iridium_sniffer.Detector.Apart.{AreApart, centers}
use iridium_sniffer.Detector.Apart.Mask.{half, update_burst_mask-IsMask}
use iridium_sniffer.Detector.Apart.Create.{
  update_bursts-centers, kept-AreApart, create_new_bursts-AreApart, squelch-none,
}

module _ (F : Doubles) (c : Settings F) (qsort : List (Peak F) → List (Peak F)) where
  open F use {Double, of_int, eq}

  abbrev with_peaks : Detector F → Detector F
  with_peaks d = extract_peaks F qsort c (remove_peaks_around_bursts F (update_bursts F c d))

  with_peaks-bursts : (d : Detector F) → (with_peaks d).bursts ≡ (update_bursts F c d).bursts
  unfolding extract_peaks remove_peaks_around_bursts
  with_peaks-bursts d = refl

  update_burst_mask-bursts : (d : Detector F) → (update_burst_mask F c d).bursts ≡ d.bursts
  unfolding update_burst_mask
  update_burst_mask-bursts d = refl

  -- A frame is its detection, if the history is primed, and nothing else touches the bursts.
  frame-bursts :
      (P : List (Active F) → Type 0) (d : Detector F) (magnitude : List Double)
      → P d.bursts
      → ((d' : Detector F) → d'.bursts ≡ d.bursts → P (detect F qsort c d').bursts)
      → P (process_magnitude_frame F qsort c d magnitude).bursts
  unfolding process_magnitude_frame update_filters_pre
  frame-bursts P d magnitude h step = elim (Bool-cases d.history_primed) [
    | inl e ↦ rw (e, (update_filters_post-bursts F c _ false).0) (step _ refl)
    | inr e ↦ rw (e, (update_filters_post-bursts F c _ false).0) h
  ]

  module _ (zero_eq : eq (of_int (pos 0)) (of_int (pos 0)) ≡ true) where
    detect-AreApart :
        (d : Detector F)
        → AreApart (half F c) (centers F d.bursts)
        → AreApart (half F c) (centers F (detect F qsort c d).bursts)
    unfolding detect
    detect-AreApart d a =
        let gone = delete_gone_bursts F c (with_peaks d) in
        let same : centers F (with_peaks d).bursts ≡ centers F d.bursts =
          ap (centers F) (with_peaks-bursts d) ∙ update_bursts-centers F c d in
        let apart : AreApart (half F c) (centers F gone.bursts) =
          rw ((delete_gone_bursts-swept F c (with_peaks d)).0) (
            kept-AreApart F c (gone_rule F c (with_peaks d).index) (half F c) (with_peaks d).bursts
              (rw (same) a)) in
        create_new_bursts-AreApart F c zero_eq (update_burst_mask F c gone) (record {
          apart = rw (update_burst_mask-bursts gone) apart;
          mask = rw (update_burst_mask-bursts gone) (update_burst_mask-IsMask F c gone);
        })

    -- A frame keeps the center bins of the bursts on the air more than half a burst width apart, any
    -- two of them, however `qsort` orders the peaks, if 0 equals 0 in floating point.
    pub process_magnitude_frame-AreApart :
        (d : Detector F) (magnitude : List Double)
        → AreApart (half F c) (centers F d.bursts)
        → AreApart (half F c) (centers F (process_magnitude_frame F qsort c d magnitude).bursts)
    process_magnitude_frame-AreApart d magnitude a =
        frame-bursts (λ l. AreApart (half F c) (centers F l)) d magnitude a
          (λ d' e. detect-AreApart d' (rw (e) a))

  create_new_bursts-few :
      (d : Detector F) → 0 < c.max_bursts → length (create_new_bursts F c d).bursts ≤ c.max_bursts
  unfolding create_new_bursts
  create_new_bursts-few d h =
      let d' = create_from_peaks F c (record d { new_bursts = [] }) d.peaks in
      elim (Bool-cases (ltb 0 c.max_bursts && ltb c.max_bursts (length d'.bursts))) [
        | inl e ↦ rw (e, squelch-none F c d') (omega arith)
        | inr e ↦ rw (e) (few c.max_bursts (length d'.bursts) h e)
      ]
    where
      few : (max n : ℕ) → 0 < max → (ltb 0 max && ltb max n) ≡ false → n ≤ max
      few max n h e = ground arith

  -- After a frame there are at most `max_bursts` bursts on the air, if there were before and
  -- `max_bursts` is positive.
  process_magnitude_frame-max_bursts :
      (d : Detector F) (magnitude : List Double)
      → 0 < c.max_bursts
      → length d.bursts ≤ c.max_bursts
      → length (process_magnitude_frame F qsort c d magnitude).bursts ≤ c.max_bursts
  process_magnitude_frame-max_bursts d magnitude h l =
      frame-bursts (λ b. length b ≤ c.max_bursts) d magnitude l
        (λ d' e. unfold detect in create_new_bursts-few _ h)
