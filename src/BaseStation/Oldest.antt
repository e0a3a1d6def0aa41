-- ===== src/BaseStation/Oldest.antt =====
-- basestation.c, `bs_derive_track`: the entry that goes when the table is full.
use iridium_sniffer.Base.{
  ℕ, suc, ◌+◌, ◌-◌, ◌^◌, ◌≤◌, ◌<◌, List, [], ◌∷◌, some, length, get_elem?, ltb, if◌then◌else◌,
  Bool-cases, inl, inr, ◌≡◌, refl, ap, ◌∙◌, arith,
}
use iridium_sniffer.Base.Doubles.{Doubles}
use iridium_sniffer.BaseStation.{Track, oldest_track}

module _ (F : Doubles) where
  -- No fix of the list was made before this time.
  abbrev pub AllSince : ℕ → List (Track F) → Type 0
  AllSince time [] = Unit {0}
  AllSince time (t ∷ tracks) = (time ≤ t.timestamp_ns) × AllSince time tracks

  -- The times are `uint64_t`.
  abbrev pub AreTimed : List (Track F) → Type 0
  AreTimed [] = Unit {0}
  AreTimed (t ∷ tracks) = (t.timestamp_ns < 2 ^ 64) × AreTimed tracks

  AllSince-earlier :
      (tracks : List (Track F)) (a b : ℕ) → a ≤ b → AllSince b tracks → AllSince a tracks
  AllSince-earlier [] a b h since = tt
  AllSince-earlier (t ∷ tracks) a b h since =
      (omega (arith, h, since.0), AllSince-earlier tracks a b h since.1)

  -- The entry of the whole list at this index was made at this time at the latest.
  abbrev IsAt : List (Track F) → ℕ → ℕ → Type 0
  IsAt all idx time = (t : Track F) × (get_elem? all idx ≡ some t) × (t.timestamp_ns ≤ time)

  oldest_track_lem :
      (all tracks : List (Track F)) (i idx oldest : ℕ)
      → ((k : ℕ) → get_elem? all (i + k) ≡ get_elem? tracks k)
      → IsAt all idx oldest
      → (time : ℕ) × IsAt all (oldest_track F tracks i idx oldest) time
        × (time ≤ oldest)
        × AllSince time tracks
  unfolding oldest_track
  oldest_track_lem all [] i idx oldest h at = (oldest, at, omega arith, tt)
  oldest_track_lem all (a ∷ tracks) i idx oldest h at =
      let older = ltb a.timestamp_ns oldest in
      let here : get_elem? all i ≡ some a =
        ap (get_elem? all) {x = i} {y = i + 0} (omega arith) ∙ h 0 in
      let at' : IsAt all (if older then i else idx) (if older then a.timestamp_ns else oldest) =
        elim (Bool-cases older) [ inl e ↦ rw (e) (a, here, omega arith) | inr e ↦ rw (e) at ] in
      let (time, found, early, rest) =
        oldest_track_lem all tracks (i + 1) _ _
          (λ k. ap (get_elem? all) {x = i + 1 + k} {y = i + suc k} (omega arith) ∙ h (suc k)) at' in
      let (m, n) = smaller a.timestamp_ns oldest in
      (time, found, omega (arith, early, n), (omega (arith, early, m), rest))
    where
      smaller : (a b : ℕ) → ((if ltb a b then a else b) ≤ a) × ((if ltb a b then a else b) ≤ b)
      smaller a b = (ground arith, ground arith)

  first :
      (tracks : List (Track F)) → 0 < length tracks → AreTimed tracks → IsAt tracks 0 (2 ^ 64 - 1)
  first [] l timed = absurd (omega arith)
  first (t ∷ tracks) l timed = (t, refl, omega (arith, timed.0))

  -- The entry that is chosen is one that no other is older than.
  pub oldest_track-AllSince :
      (tracks : List (Track F))
      → 0 < length tracks
      → AreTimed tracks
      → (t : Track F) × (get_elem? tracks (oldest_track F tracks 0 0 (2 ^ 64 - 1)) ≡ some t)
        × AllSince t.timestamp_ns tracks
  oldest_track-AllSince tracks l timed =
      let (time, (t, there, early), below, since) =
        oldest_track_lem tracks tracks 0 0 (2 ^ 64 - 1)
          (λ k. ap (get_elem? tracks) {x = 0 + k} {y = k} (omega arith)) (first tracks l timed) in
      (t, there, AllSince-earlier tracks t.timestamp_ns time early since)
