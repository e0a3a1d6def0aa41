-- ===== src/Doppler/Counters.antt =====
-- doppler_pos.c, `doppler_pos_add_measurement`: the counters and the measurements that are rejected.
use iridium_sniffer.Base.{
  ℕ, ◌+◌, ◌^◌, ◌<◌, List, [], ◌∷◌, ◌++◌, Option, none, some, length, get_or, set, leb, inc64,
  Bool-cases, Option-cases, inl, inr, ◌⊎◌, ◌≡◌, refl, ap, arith,
}
use iridium_sniffer.Base.Doubles.{Doubles}
use iridium_sniffer.Frame.{Ira}
use iridium_sniffer.Doppler.{
  State, SatBuffer, Vec, Verdict, empty_sat, find_sat, find_or_create_sat, take_measurement, locked,
  judge, tally, doppler_pos_add_measurement, ira_xyz_to_ecef,
}
use iridium_sniffer.Doppler.Table.{take-cases}
use iridium_sniffer.Doppler.Keeps.{judge-cases}

module _ (F : Doubles) where
  -- Every measurement is counted once.
  abbrev IsTallied : State F → Type 0
  IsTallied st =
      st.dbg_total ≡ st.dbg_ok + st.dbg_sat0 + st.dbg_coord + st.dbg_radius + st.dbg_vel_rej

  -- Each measurement counts in the total and in exactly one of the five other counters, as long as
  -- the total does not wrap around.
  doppler_pos_add_measurement-IsTallied :
      (st : State F) (ira : Ira F) (frequency : F.Double) (timestamp : ℕ)
      → IsTallied st
      → st.dbg_total + 1 < 2 ^ 64
      → IsTallied (doppler_pos_add_measurement F st ira frequency timestamp)
  unfolding doppler_pos_add_measurement tally
  doppler_pos_add_measurement-IsTallied st ira frequency timestamp t w =
      by_verdict (judge F st.satellites ira frequency timestamp)
    where
      by_verdict :
          (v : Verdict F) → IsTallied (tally F (record st { dbg_total = inc64 st.dbg_total }) v)
      by_verdict Verdict.sat0 = omega arith
      by_verdict Verdict.coord = omega arith
      by_verdict Verdict.radius = omega arith
      by_verdict (Verdict.vel_rej sats) = omega arith
      by_verdict (Verdict.ok sats) = omega arith

  -- A verdict that rejects leaves the table as it was.
  abbrev KeepsUnlessOk : List (SatBuffer F) → Verdict F → Type 0
  KeepsUnlessOk sats (Verdict.vel_rej sats') = sats' ≡ sats
  KeepsUnlessOk sats _ = Unit {0}

  abbrev IsTaken : Option (SatBuffer F) → Type 0
  IsTaken none = ⊥
  IsTaken (some s) = Unit {0}

  get_or-end :
      (sats : List (SatBuffer F)) (s d : SatBuffer F)
      → get_or (sats ++ (s ∷ [])) (length sats) d ≡ s
  get_or-end [] s d = refl
  get_or-end (x ∷ sats) s d = get_or-end sats s d

  fresh-IsTaken :
      (sat_id : ℕ) (ecef : Vec F) (frequency : F.Double) (timestamp : ℕ)
      → IsTaken (take_measurement F (empty_sat F sat_id) ecef frequency timestamp)
  fresh-IsTaken sat_id ecef frequency timestamp =
      take-cases F IsTaken (empty_sat F sat_id) ecef frequency timestamp (inr refl) tt tt

  abbrev verdict_at : List (SatBuffer F) → ℕ → Option (SatBuffer F) → Verdict F
  verdict_at sats i o = elim o [ none ↦ Verdict.vel_rej sats | some s ↦ Verdict.ok (set sats i s) ]

  taken-keeps :
      (sats sats' : List (SatBuffer F)) (i : ℕ) (o : Option (SatBuffer F))
      → IsTaken o
      → KeepsUnlessOk sats (verdict_at sats' i o)
  taken-keeps sats sats' i none t = absurd t
  taken-keeps sats sats' i (some s) t = tt

  found-keeps :
      (sats : List (SatBuffer F)) (i : ℕ) (o : Option (SatBuffer F))
      → KeepsUnlessOk sats (verdict_at sats i o)
  found-keeps sats i none = refl
  found-keeps sats i (some s) = tt

  abbrev decide : Vec F → F.Double → ℕ → List (SatBuffer F) × Option ℕ → Verdict F
  decide ecef frequency timestamp q = elim q.1 [
    | none ↦ Verdict.ok q.0
    | some i ↦
        verdict_at q.0 i
          (take_measurement F (get_or q.0 i (empty_sat F 0)) ecef frequency timestamp)
  ]

  decided :
      (sats : List (SatBuffer F)) (sat_id : ℕ) (ecef : Vec F) (frequency : F.Double) (timestamp : ℕ)
      (q : List (SatBuffer F) × Option ℕ)
      → find_or_create_sat F sats sat_id ≡ q
      → locked F sats sat_id ecef frequency timestamp ≡ decide ecef frequency timestamp q
  unfolding locked
  decided sats sat_id ecef frequency timestamp q e = ap (decide ecef frequency timestamp) e

  locked-keeps :
      (sats : List (SatBuffer F)) (sat_id : ℕ) (ecef : Vec F) (frequency : F.Double) (timestamp : ℕ)
      → KeepsUnlessOk sats (locked F sats sat_id ecef frequency timestamp)
  unfolding locked find_or_create_sat
  locked-keeps sats sat_id ecef frequency timestamp =
      elim (Option-cases (find_sat F sats sat_id 0)) [
        | inl e ↦ elim (Bool-cases (leb 128 (length sats))) [
          | inl full ↦ rw (locked, find_or_create_sat, e, full) tt
          | inr space ↦
              let made : find_or_create_sat F sats sat_id
                  ≡ (sats ++ (empty_sat F sat_id ∷ []), some (length sats)) =
                rw (find_or_create_sat, e, space) refl in
              let fresh : get_or (sats ++ (empty_sat F sat_id ∷ [])) (length sats) (empty_sat F 0)
                  ≡ empty_sat F sat_id =
                get_or-end sats (empty_sat F sat_id) (empty_sat F 0) in
              rw (decided sats sat_id ecef frequency timestamp _ made) (
                taken-keeps sats _ (length sats) _
                  (rw (fresh) (fresh-IsTaken sat_id ecef frequency timestamp)))
        ]
        | inr (i, e) ↦
            let same : find_or_create_sat F sats sat_id ≡ (sats, some i) =
              rw (find_or_create_sat, e) refl in
            rw (decided sats sat_id ecef frequency timestamp _ same) (found-keeps sats i _)
      ]

  -- A measurement is either counted as accepted, or the satellites are left exactly as they were and
  -- one of the four counters of rejections goes up.
  pub doppler_pos_add_measurement-rejected :
      (st : State F) (ira : Ira F) (frequency : F.Double) (timestamp : ℕ)
      → let st' = doppler_pos_add_measurement F st ira frequency timestamp in
        (st'.dbg_ok ≡ inc64 st.dbg_ok)
        ⊎ ((st'.satellites ≡ st.satellites)
            × (st'.dbg_ok ≡ st.dbg_ok)
            × ((st'.dbg_sat0 ≡ inc64 st.dbg_sat0)
                ⊎ ((st'.dbg_coord ≡ inc64 st.dbg_coord)
                    ⊎ ((st'.dbg_radius ≡ inc64 st.dbg_radius)
                        ⊎ (st'.dbg_vel_rej ≡ inc64 st.dbg_vel_rej)))))
  unfolding doppler_pos_add_measurement tally
  doppler_pos_add_measurement-rejected st ira frequency timestamp =
      by_verdict (judge F st.satellites ira frequency timestamp) (
        judge-cases F (KeepsUnlessOk st.satellites) st.satellites ira frequency timestamp tt tt tt
          (locked-keeps st.satellites ira.sat_id (ira_xyz_to_ecef F ira) frequency timestamp))
    where
      by_verdict :
          (v : Verdict F)
          → KeepsUnlessOk st.satellites v
          → let st' = tally F (record st { dbg_total = inc64 st.dbg_total }) v in
            (st'.dbg_ok ≡ inc64 st.dbg_ok)
            ⊎ ((st'.satellites ≡ st.satellites)
                × (st'.dbg_ok ≡ st.dbg_ok)
                × ((st'.dbg_sat0 ≡ inc64 st.dbg_sat0)
                    ⊎ ((st'.dbg_coord ≡ inc64 st.dbg_coord)
                        ⊎ ((st'.dbg_radius ≡ inc64 st.dbg_radius)
                            ⊎ (st'.dbg_vel_rej ≡ inc64 st.dbg_vel_rej)))))
      by_verdict Verdict.sat0 k = inr (refl, refl, inl refl)
      by_verdict Verdict.coord k = inr (refl, refl, inr (inl refl))
      by_verdict Verdict.radius k = inr (refl, refl, inr (inr (inl refl)))
      by_verdict (Verdict.vel_rej sats) k = inr (k, refl, inr (inr (inr refl)))
      by_verdict (Verdict.ok sats) k = inl refl
