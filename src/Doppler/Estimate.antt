-- ===== src/Doppler/Estimate.antt =====
-- doppler_pos.c: what is estimated from the measurements of a satellite: `estimate_channel_freq` and
-- `estimate_velocity`.
use iridium_sniffer.Base.{
  ℕ, zero, suc, ◌+◌, List, [], ◌∷◌, Option, none, some, Bool, ◌&&◌, ◌||◌, not, ltb, ◌==◌,
  if◌then◌else◌, sub64,
}
use iridium_sniffer.Base.Int.{pos, negsuc}
use iridium_sniffer.Base.Doubles.{Doubles}
use iridium_sniffer.Circular.{get}
use iridium_sniffer.Doppler.{
  Vec, Meas, SatBuffer, int, vec3_dot, vec3_norm, vec3_sub, vec3_cross, assign_channel_freq,
  max_meas_age_ns, seconds,
}

module _ (F : Doubles) where
  open F use {Double, of_int, add, sub, mul, div, sqrt, fabs, lt, eq}

  -- The measurements from index `i` on, `n` of them.
  unfoldable pub measurements : SatBuffer F → ℕ → ℕ → List (ℕ × Meas F)
  measurements s zero i = []
  measurements s (suc n) i = elim (get s.meas i) [
    | none ↦ measurements s n (i + 1)
    | some m ↦ (i, m) ∷ measurements s n (i + 1)
  ]

  -- `now > 0 && now - m->timestamp > MAX_MEAS_AGE_NS`
  abbrev pub is_old : ℕ → Meas F → Bool
  is_old now m = ltb 0 now && ltb max_meas_age_ns (sub64 now m.timestamp)

  unfoldable pub collect : ℕ → List (ℕ × Meas F) → List Double
  collect now [] = []
  collect now (m ∷ ms) =
      let rest = collect now ms in
      if not (m.1).valid || is_old now m.1 then rest else assign_channel_freq F (m.1).freq ∷ rest

  unfoldable pub votes_for : Double → List Double → ℕ
  votes_for c [] = 0
  votes_for c (x ∷ xs) =
      let rest = votes_for c xs in if lt (fabs (sub x c)) (of_int (pos 1)) then rest + 1 else rest

  -- The best channel so far and its votes.
  unfoldable pub elect : List Double → List Double → Double → ℕ → Double × ℕ
  elect all [] best_freq best_count = (best_freq, best_count)
  elect all (c ∷ cs) best_freq best_count =
      let count = votes_for c all in
      let better = ltb best_count count in
      elect all cs (if better then c else best_freq) (if better then count else best_count)

  unfoldable pub estimate_channel_freq : SatBuffer F → ℕ → Double
  estimate_channel_freq s now =
      let channels = collect now (measurements s s.meas.count 0) in
      (elect channels channels (int F 0) 0).0

  -- `r < 7050e3 || r > 7250e3`
  abbrev pub off_orbit : Double → Bool
  off_orbit r = lt r (int F 7_050_000) || lt (int F 7_250_000) r

  -- The measurement farthest away in time, with the time, other than `idx`.
  unfoldable pub farthest :
      Meas F → ℕ → List (ℕ × Meas F) → Option (Meas F) → Double → Option (Meas F)
  farthest cur idx [] best best_dt = best
  farthest cur idx (m ∷ ms) best best_dt =
      let dt = fabs (seconds F (m.1).timestamp cur.timestamp) in
      let taken =
        not (m.0 == idx)
        && (m.1).valid
        && not (lt dt (int F 2))
        && lt dt (int F 600)
        && lt best_dt dt
        && not (off_orbit (vec3_norm F (m.1).sat_ecef)) in
      farthest cur idx ms (if taken then some m.1 else best) (if taken then dt else best_dt)

  -- Along the orbit through two positions, at the speed of a circular one; none for -1.
  unfoldable pub velocity_from : Meas F → Meas F → Option (Vec F)
  velocity_from cur other =
      let r_norm = vec3_norm F cur.sat_ecef in
      let h = vec3_cross F cur.sat_ecef other.sat_ecef in
      let v_dir = vec3_cross F h cur.sat_ecef in
      let v_norm = vec3_norm F v_dir in
      let forward =
        if ltb cur.timestamp other.timestamp
        then vec3_sub F other.sat_ecef cur.sat_ecef
        else vec3_sub F cur.sat_ecef other.sat_ecef in
      let dot = vec3_dot F v_dir forward in
      let sign = if lt (int F 0) dot || eq dot (int F 0) then int F 1 else of_int (negsuc 0) in
      let speed = sqrt (div (int F 398_600_441_800_000) r_norm) in
      let along : Double → Double = λ v. div (mul (mul sign speed) v) v_norm in
      if lt (vec3_norm F h) (int F 1_000_000) || lt v_norm (int F 1)
      then none
      else some (record { x = along v_dir.x; y = along v_dir.y; z = along v_dir.z })

  unfoldable pub estimate_velocity : SatBuffer F → ℕ → Option (Vec F)
  estimate_velocity s idx = elim (get s.meas idx) [
    | none ↦ none
    | some cur ↦
        if lt (vec3_norm F cur.sat_ecef) (int F 1_000_000)
        then none
        else elim (farthest cur idx (measurements s s.meas.count 0) none (int F 0)) [
          | none ↦ none
          | some other ↦ velocity_from cur other
        ]
  ]
