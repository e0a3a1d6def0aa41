-- ===== src/Doppler/Vote.antt =====
-- doppler_pos.c, `estimate_channel_freq`: the votes of the channel that is chosen.
use iridium_sniffer.Base.{
  ℕ, ◌≤◌, List, [], ◌∷◌, ltb, if◌then◌else◌, Bool-cases, inl, inr, ◌⊎◌, ◌≡◌, refl, arith,
}
use iridium_sniffer.Base.Doubles.{Doubles}
use iridium_sniffer.Doppler.{SatBuffer, int}
use iridium_sniffer.Doppler.Estimate.{
  votes_for, elect, collect, measurements, estimate_channel_freq,
}

module _ (F : Doubles) where
  open F use {Double}

  -- No channel of the list has more votes.
  abbrev pub AreBeaten : List Double → ℕ → List Double → Type 0
  AreBeaten all most [] = Unit {0}
  AreBeaten all most (c ∷ cs) = (votes_for F c all ≤ most) × AreBeaten all most cs

  -- The count is that of the channel, or no channel got a vote.
  abbrev pub IsCount : List Double → Double → ℕ → Type 0
  IsCount all best count = (votes_for F best all ≡ count) ⊎ (count ≡ 0)

  elected :
      (all cs : List Double) (best : Double) (count : ℕ)
      → IsCount all best count
      → (count ≤ (elect F all cs best count).1)
        × AreBeaten all (elect F all cs best count).1 cs
        × IsCount all (elect F all cs best count).0 (elect F all cs best count).1
  unfolding elect
  elected all [] best count k = (omega arith, tt, k)
  elected all (c ∷ cs) best count k =
      let better = ltb count (votes_for F c all) in
      let next : IsCount all (if better then c else best)
          (if better then votes_for F c all else count) =
        elim (Bool-cases better) [ inl e ↦ rw (e) (inl refl) | inr e ↦ rw (e) k ] in
      let (more, beaten, is) = elected all cs _ _ next in
      let (a, b) = larger count (votes_for F c all) in
      (omega (arith, more, a), (omega (arith, more, b), beaten), is)
    where
      larger : (m n : ℕ) → (m ≤ (if ltb m n then n else m)) × (n ≤ (if ltb m n then n else m))
      larger m n = (ground arith, ground arith)

  abbrev pub channels_of : SatBuffer F → ℕ → List Double
  channels_of s now = collect F now (measurements F s s.meas.count 0)

  -- The channel estimated for a satellite has at least as many votes, among the measurements that are
  -- valid and recent enough, as the nearest channel of each of them, unless none has any vote.
  pub estimate_channel_freq-votes :
      (s : SatBuffer F) (now : ℕ)
      → AreBeaten
          (channels_of s now)
          (votes_for F (estimate_channel_freq F s now) (channels_of s now))
          (channels_of s now)
        ⊎ AreBeaten (channels_of s now) 0 (channels_of s now)
  unfolding estimate_channel_freq
  estimate_channel_freq-votes s now =
      let all = channels_of s now in
      let (more, beaten, is) = elected all all (int F 0) 0 (inr refl) in
      elim is [ inl e ↦ inl (rw (e) beaten) | inr e ↦ inr (rw (e) at beaten) ]
