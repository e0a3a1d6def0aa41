-- ===== src/Detector/Apart/Create.antt =====
-- burst_detect.c: the center bins after the calls of a frame that move or make bursts.
use iridium_sniffer.Base.{
  ℕ, ◌+◌, ◌-◌, List, [], ◌∷◌, ◌++◌, true, false, if◌then◌else◌, Bool-cases, inl, inr, map, get_or,
  length, ltb, ltb→lt, not_below, leb, ◌&&◌, ◌≡◌, refl, ap, arith,
}
use iridium_sniffer.Base.Int.{pos}
use iridium_sniffer.Base.Doubles.{Doubles}
use iridium_sniffer.Detector.{Settings, Detector, Active, Peak}
use iridium_sniffer.Detector.Sweep.{Rule, kept}
use iridium_sniffer.Detector.Track.{
  is_active, update_bursts, update_burst_mask, create_new_bursts, create_from_peak,
  create_from_peaks, squelch, burst_of,
}
use iridium_sniffer.Detector.Apart.{AllFar, AreApart, AreApart-append, centers}
use iridium_sniffer.Detector.Apart.Mask.{half, IsZero, AreCovered, IsMask, mask_burst-IsMask}

module _ (F : Doubles) (c : Settings F) where
  open F use {Double, of_int, eq}

  centers-append :
      (bursts : List (Active F)) (b : Active F)
      → centers F (bursts ++ (b ∷ [])) ≡ centers F bursts ++ (b.center_bin ∷ [])
  centers-append [] b = refl
  centers-append (x ∷ bursts) b = ap (λ r. x.center_bin ∷ r) (centers-append bursts b)

  pub update_bursts-centers :
      (d : Detector F) → centers F (update_bursts F c d).bursts ≡ centers F d.bursts
  unfolding update_bursts
  update_bursts-centers d = each d.bursts
    where
      each :
          (bursts : List (Active F))
          → centers F (
              map
                (λ b.
                  if is_active F c d b.center_bin then record b { last_active = d.index } else b)
                bursts)
            ≡ centers F bursts
      each [] = refl
      each (b ∷ bursts) = elim (Bool-cases (is_active F c d b.center_bin)) [
        | inl e ↦ rw (e) (ap (λ r. b.center_bin ∷ r) (each bursts))
        | inr e ↦ rw (e) (ap (λ r. b.center_bin ∷ r) (each bursts))
      ]

  -- What stays keeps its distance.
  kept-AllFar :
      (r : Rule (Active F)) (h bin : ℕ) (bursts : List (Active F))
      → AllFar h bin (centers F bursts)
      → AllFar h bin (centers F (kept r bursts))
  kept-AllFar r h bin [] f = tt
  kept-AllFar r h bin (b ∷ bursts) f = elim (Bool-cases (r.leaves b)) [
    | inl e ↦ rw (kept, e) (kept-AllFar r h bin bursts f.1)
    | inr e ↦ rw (kept, e) (f.0, kept-AllFar r h bin bursts f.1)
  ]

  pub kept-AreApart :
      (r : Rule (Active F)) (h : ℕ) (bursts : List (Active F))
      → AreApart h (centers F bursts)
      → AreApart h (centers F (kept r bursts))
  kept-AreApart r h [] a = tt
  kept-AreApart r h (b ∷ bursts) a = elim (Bool-cases (r.leaves b)) [
    | inl e ↦ rw (kept, e) (kept-AreApart r h bursts a.1)
    | inr e ↦ rw (kept, e) (kept-AllFar r h b.center_bin bursts a.0, kept-AreApart r h bursts a.1)
  ]

  -- The state between the calls of a frame that create bursts.
  pub record IsSpaced (d : Detector F) : Type 0 where
    pub apart : AreApart (half F c) (centers F d.bursts)
    pub mask : IsMask F c d.burst_mask (centers F d.bursts)

  pub squelch-none : (d : Detector F) → (squelch F c d).bursts ≡ []
  unfolding squelch update_burst_mask
  squelch-none d = elim (Bool-cases (leb 10 (d.squelch_count + 3))) [
    | inl e ↦ rw (e) refl
    | inr e ↦ rw (e) refl
  ]

  module _ (zero_eq : eq (of_int (pos 0)) (of_int (pos 0)) ≡ true) where
    -- A bin that the mask leaves open is far from all bursts.
    open_bin :
        (mask : List Double) (bin : ℕ) (bins : List ℕ)
        → AreCovered F c mask bins
        → eq (get_or mask bin (of_int (pos 0))) (of_int (pos 0)) ≡ false
        → AllFar (half F c) bin bins
    open_bin mask bin [] a o = tt
    open_bin mask bin (b ∷ bins) a o = (
      elim (Bool-cases (ltb (half F c) ((bin - b) + (b - bin)))) [
        | inl e ↦ ltb→lt _ _ e
        | inr e ↦
            let n = not_below _ _ e in
            let z : IsZero F c mask bin = a.0 bin (omega arith) (omega arith) in
            absurd (cc (ap (λ x. eq x (of_int (pos 0))) z))
      ],
      open_bin mask bin bins a.1 o,
    )

    create_from_peak-IsSpaced :
        (d : Detector F) (p : Peak F) → IsSpaced d → IsSpaced (create_from_peak F c d p)
    unfolding create_from_peak
    create_from_peak-IsSpaced d p s =
        elim (Bool-cases (eq (get_or d.burst_mask p.bin (of_int (pos 0))) (of_int (pos 0)))) [
          | inl e ↦ rw (e) s
          | inr e ↦
              let b = burst_of F c d p in
              let center : b.center_bin ≡ p.bin = unfold burst_of in refl in
              let far = open_bin d.burst_mask p.bin (centers F d.bursts) s.mask.covered e in
              rw (e) (record {
                apart =
                    rw (centers-append d.bursts b, center)
                      (AreApart-append (half F c) p.bin (centers F d.bursts) s.apart far);
                mask =
                    rw (centers-append d.bursts b)
                      (mask_burst-IsMask F c d.burst_mask (centers F d.bursts) b.center_bin s.mask);
              })
        ]

    create_from_peaks-IsSpaced :
        (peaks : List (Peak F)) (d : Detector F)
        → IsSpaced d
        → IsSpaced (create_from_peaks F c d peaks)
    unfolding create_from_peaks
    create_from_peaks-IsSpaced [] d s = s
    create_from_peaks-IsSpaced (p ∷ peaks) d s =
        create_from_peaks-IsSpaced peaks (create_from_peak F c d p)
          (create_from_peak-IsSpaced d p s)

    pub create_new_bursts-AreApart :
        (d : Detector F)
        → IsSpaced d
        → AreApart (half F c) (centers F (create_new_bursts F c d).bursts)
    unfolding create_new_bursts
    create_new_bursts-AreApart d s =
        let d' = create_from_peaks F c (record d { new_bursts = [] }) d.peaks in
        let s' =
          create_from_peaks-IsSpaced d.peaks (record d { new_bursts = [] })
            (record { apart = s.apart; mask = s.mask }) in
        elim (Bool-cases (ltb 0 c.max_bursts && ltb c.max_bursts (length d'.bursts))) [
          | inl e ↦ rw (e, squelch-none d') tt
          | inr e ↦ rw (e) s'.apart
        ]
