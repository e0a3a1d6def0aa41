-- ===== src/Doppler/Keeps.antt =====
-- doppler_pos.c, `doppler_pos_add_measurement`: the table of satellites before and after.
use iridium_sniffer.Base.{
  ℕ, List, Option, none, some, Bool, true, false, length-set, get_or, set, ◌==◌, if◌then◌else◌,
}
use iridium_sniffer.Base.Doubles.{Doubles}
use iridium_sniffer.Frame.{Ira}
use iridium_sniffer.Doppler.{
  State, SatBuffer, Vec, Verdict, empty_sat, find_or_create_sat, take_measurement, locked, judge,
  tally, bad_lat, bad_lon, bad_radius, doppler_pos_add_measurement, ira_xyz_to_ecef,
}
use iridium_sniffer.Doppler.Table.{
  IsTable, empty_sat-IsBuffer, find_or_create_sat-IsTable, set-AreBuffers, get_or-IsBuffer, IsNext,
  take-IsNext,
}

module _ (F : Doubles) where
  -- What the verdict says about the table.
  abbrev pub IsJudged : Verdict F → Type 0
  IsJudged (Verdict.vel_rej sats) = IsTable F sats
  IsJudged (Verdict.ok sats) = IsTable F sats
  IsJudged _ = Unit {0}

  locked-IsJudged :
      (sats : List (SatBuffer F)) (sat_id : ℕ) (ecef : Vec F) (frequency : F.Double) (timestamp : ℕ)
      → IsTable F sats
      → IsJudged (locked F sats sat_id ecef frequency timestamp)
  unfolding locked
  locked-IsJudged sats sat_id ecef frequency timestamp t =
      by_index (find_or_create_sat F sats sat_id).1
    where
      sats' : List (SatBuffer F)
      sats' = (find_or_create_sat F sats sat_id).0

      made : IsTable F sats'
      made = find_or_create_sat-IsTable F sats sat_id t

      after :
          (i : ℕ) (o : Option (SatBuffer F))
          → IsNext F (get_or sats' i (empty_sat F 0)) o
          → IsJudged (elim o [ none ↦ Verdict.vel_rej sats' | some s ↦ Verdict.ok (set sats' i s) ])
      after i none n = made
      after i (some s) n = record {
        room = rw (length-set sats' i s) made.room;
        buffers = set-AreBuffers F sats' i s (empty_sat F 0) made.buffers n.0 n.1;
      }

      by_index :
          (found : Option ℕ)
          → IsJudged (elim found [
            | none ↦ Verdict.ok sats'
            | some i ↦
                elim (take_measurement F
                  (get_or sats' i (empty_sat F 0))
                  ecef
                  frequency
                  timestamp) [ none ↦ Verdict.vel_rej sats' | some s ↦ Verdict.ok (set sats' i s) ]
          ])
      by_index none = made
      by_index (some i) = after i _ (
          take-IsNext F _ ecef frequency timestamp
            (get_or-IsBuffer F sats' i (empty_sat F 0) made.buffers (empty_sat-IsBuffer F 0)))

  -- A verdict is one of four, or that of the part under the lock.
  pub judge-cases :
      (P : Verdict F → Type 0) (sats : List (SatBuffer F)) (ira : Ira F) (frequency : F.Double)
      (timestamp : ℕ)
      → P Verdict.sat0
      → P Verdict.coord
      → P Verdict.radius
      → P (locked F sats ira.sat_id (ira_xyz_to_ecef F ira) frequency timestamp)
      → P (judge F sats ira frequency timestamp)
  unfolding judge
  judge-cases P sats ira frequency timestamp p q r s =
      by_tests (ira.sat_id == 0) (bad_lat F ira) (bad_lon F ira)
        (bad_radius F (ira_xyz_to_ecef F ira))
    where
      by_tests :
          (a b c d : Bool)
          → P (
              if a
              then Verdict.sat0
              else if b
              then Verdict.coord
              else if c
              then Verdict.coord
              else if d
              then Verdict.radius
              else locked F sats ira.sat_id (ira_xyz_to_ecef F ira) frequency timestamp)
      by_tests true b c d = p
      by_tests false true c d = q
      by_tests false false true d = q
      by_tests false false false true = r
      by_tests false false false false = s

  -- A measurement keeps the table: at most 128 satellites, no two with the same id, each with a
  -- circular buffer of 200 measurements that is filled from its start.
  pub doppler_pos_add_measurement-IsTable :
      (st : State F) (ira : Ira F) (frequency : F.Double) (timestamp : ℕ)
      → IsTable F st.satellites
      → IsTable F (doppler_pos_add_measurement F st ira frequency timestamp).satellites
  unfolding doppler_pos_add_measurement tally
  doppler_pos_add_measurement-IsTable st ira frequency timestamp t =
      by_verdict _ t (judge F st.satellites ira frequency timestamp) (
        judge-cases IsJudged st.satellites ira frequency timestamp tt tt tt
          (locked-IsJudged st.satellites ira.sat_id (ira_xyz_to_ecef F ira) frequency timestamp t))
    where
      by_verdict :
          (st' : State F)
          → IsTable F st'.satellites
          → (v : Verdict F) → IsJudged v
          → IsTable F (tally F st' v).satellites
      by_verdict st' h Verdict.sat0 j = h
      by_verdict st' h Verdict.coord j = h
      by_verdict st' h Verdict.radius j = h
      by_verdict st' h (Verdict.vel_rej sats) j = j
      by_verdict st' h (Verdict.ok sats) j = j
