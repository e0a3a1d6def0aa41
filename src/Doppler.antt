-- ===== src/Doppler.antt =====
-- doppler_pos.c: the measurements of each satellite (`doppler_pos_add_measurement`), and what is
-- estimated from them: the channel and the velocity of a satellite.
pub mod Table
pub mod Keeps
pub mod Counters
pub mod Estimate
pub mod Vote
use iridium_sniffer.Base.{
  ℕ, zero, suc, ◌+◌, ◌-◌, ◌%◌, ◌^◌, List, [], ◌∷◌, ◌++◌, Option, none, some, Bool, true, false,
  ◌&&◌, ◌||◌, not, length, get_or, set, replicate, ltb, leb, ◌==◌, if◌then◌else◌, sub64, inc64,
}
use iridium_sniffer.Base.Int.{ℤ, pos, negsuc}
use iridium_sniffer.Base.Doubles.{Doubles}
use iridium_sniffer.Frame.{Ira}
use iridium_sniffer.Circular.{Circular, push, get, recent}

abbrev pub max_satellites : ℕ
max_satellites = 128

abbrev pub meas_per_sat : ℕ
meas_per_sat = 200

-- 30 minutes.
abbrev pub max_meas_age_ns : ℕ
max_meas_age_ns = 1_800_000_000_000

module _ (F : Doubles) where
  open F use {Double, of_int, add, sub, mul, div, sqrt, fabs, lt, round, decimal}

  pub record Vec : Type 0 where
    pub x : Double
    pub y : Double
    pub z : Double

  -- `sat_meas_t`
  pub record Meas : Type 0 where
    pub sat_ecef : Vec
    pub freq : Double
    pub timestamp : ℕ
    pub valid : Bool

  -- `sat_buffer_t`
  pub record SatBuffer : Type 0 where
    pub sat_id : ℕ
    pub meas : Circular Meas
    pub channel_freq : Double

  -- The counters are `unsigned long` of 64 bits.
  pub record State : Type 0 where
    pub satellites : List SatBuffer
    pub dbg_total : ℕ
    pub dbg_sat0 : ℕ
    pub dbg_coord : ℕ
    pub dbg_radius : ℕ
    pub dbg_ok : ℕ
    pub dbg_vel_rej : ℕ

  abbrev pub int : ℕ → Double
  int n = of_int (pos n)

  abbrev pub vec3_dot : Vec → Vec → Double
  vec3_dot a b = add (add (mul a.x b.x) (mul a.y b.y)) (mul a.z b.z)

  abbrev pub vec3_norm : Vec → Double
  vec3_norm v = sqrt (vec3_dot v v)

  abbrev pub vec3_sub : Vec → Vec → Vec
  vec3_sub a b = record { x = sub a.x b.x; y = sub a.y b.y; z = sub a.z b.z }

  abbrev pub vec3_cross : Vec → Vec → Vec
  vec3_cross a b = record {
    x = sub (mul a.y b.z) (mul a.z b.y);
    y = sub (mul a.z b.x) (mul a.x b.z);
    z = sub (mul a.x b.y) (mul a.y b.x);
  }

  -- The channel center nearest to a frequency.
  unfoldable pub assign_channel_freq : Double → Double
  assign_channel_freq freq =
      let base = int 1_616_000_000 in
      let width = decimal 41_666_667 3 in add base (mul (round (div (sub freq base) width)) width)

  unfoldable pub ira_xyz_to_ecef : Ira F → Vec
  ira_xyz_to_ecef ira = record {
    x = mul (of_int ira.pos_x) (int 4000);
    y = mul (of_int ira.pos_y) (int 4000);
    z = mul (of_int ira.pos_z) (int 4000);
  }

  abbrev pub no_meas : Meas
  no_meas = record {
    sat_ecef = record { x = int 0; y = int 0; z = int 0 };
    freq = int 0;
    timestamp = 0;
    valid = false;
  }

  abbrev pub empty_sat : ℕ → SatBuffer
  empty_sat sat_id = record {
    sat_id = sat_id;
    meas = record { cells = replicate meas_per_sat no_meas; head = 0; count = 0 };
    channel_freq = int 0;
  }

  -- The index of a satellite, from `i` on.
  unfoldable pub find_sat : List SatBuffer → ℕ → ℕ → Option ℕ
  find_sat [] sat_id i = none
  find_sat (s ∷ sats) sat_id i =
      let rest = find_sat sats sat_id (i + 1) in if s.sat_id == sat_id then some i else rest

  -- The table and the index in it, none if the table is full.
  unfoldable pub find_or_create_sat : List SatBuffer → ℕ → List SatBuffer × Option ℕ
  find_or_create_sat sats sat_id = elim (find_sat sats sat_id 0) [
    | some i ↦ (sats, some i)
    | none ↦
        if leb max_satellites (length sats)
        then (sats, none)
        else (sats ++ (empty_sat sat_id ∷ []), some (length sats))
  ]

  unfoldable pub sat_buf_add : SatBuffer → Vec → Double → ℕ → SatBuffer
  sat_buf_add s ecef freq ts = record s {
    meas = push s.meas (record { sat_ecef = ecef; freq = freq; timestamp = ts; valid = true });
  }

  -- The seconds from one time to another, on `uint64_t`.
  abbrev pub seconds : ℕ → ℕ → Double
  seconds ts earlier = div (int (sub64 ts earlier)) (int 1_000_000_000)

  -- The satellite after a measurement, none if the speed rules it out.
  unfoldable pub take_measurement : SatBuffer → Vec → Double → ℕ → Option SatBuffer
  take_measurement s ecef freq ts = elim (recent s.meas 0) [
    | none ↦ some (sat_buf_add s ecef freq ts)
    | some last ↦
        let dt = seconds ts last.timestamp in
        let dist = vec3_norm (vec3_sub ecef last.sat_ecef) in
        if ltb 0 s.meas.count
        then (if lt (int 600) dt
            then some (
                sat_buf_add
                  (record s {
                    meas = record { cells = s.meas.cells; head = 0; count = 0 };
                    channel_freq = int 0;
                  })
                  ecef freq ts)
            else if lt (int 0) dt && lt dt (int 120) && lt (int 10_000) (div dist dt)
            then none
            else some (sat_buf_add s ecef freq ts))
        else some (sat_buf_add s ecef freq ts)
  ]

  -- What becomes of a measurement, one for each counter.
  pub data Verdict : Type 0 where
    sat0 coord radius : Verdict
    vel_rej ok : List SatBuffer → Verdict

  abbrev pub bad_lat : Ira F → Bool
  bad_lat ira = lt ira.lat (of_int (negsuc 89)) || lt (int 90) ira.lat

  abbrev pub bad_lon : Ira F → Bool
  bad_lon ira = lt ira.lon (of_int (negsuc 179)) || lt (int 180) ira.lon

  abbrev pub bad_radius : Vec → Bool
  bad_radius ecef = lt (vec3_norm ecef) (int 7_050_000) || lt (int 7_250_000) (vec3_norm ecef)

  -- The part under the lock.
  unfoldable pub locked : List SatBuffer → ℕ → Vec → Double → ℕ → Verdict
  locked sats sat_id ecef frequency timestamp =
      let (sats', found) = find_or_create_sat sats sat_id in
      elim found [
        | none ↦ ok sats'
        | some i ↦ elim (take_measurement (get_or sats' i (empty_sat 0)) ecef frequency timestamp) [
          | none ↦ vel_rej sats'
          | some s ↦ ok (set sats' i s)
        ]
      ]

  unfoldable pub judge : List SatBuffer → Ira F → Double → ℕ → Verdict
  judge sats ira frequency timestamp =
      let ecef = ira_xyz_to_ecef ira in
      if ira.sat_id == 0
      then sat0
      else if bad_lat ira
      then coord
      else if bad_lon ira
      then coord
      else if bad_radius ecef
      then radius
      else locked sats ira.sat_id ecef frequency timestamp

  unfoldable pub tally : State → Verdict → State
  tally st sat0 = record st { dbg_sat0 = inc64 st.dbg_sat0 }
  tally st coord = record st { dbg_coord = inc64 st.dbg_coord }
  tally st radius = record st { dbg_radius = inc64 st.dbg_radius }
  tally st (vel_rej sats) = record st { satellites = sats; dbg_vel_rej = inc64 st.dbg_vel_rej }
  tally st (ok sats) = record st { satellites = sats; dbg_ok = inc64 st.dbg_ok }

  unfoldable pub doppler_pos_add_measurement : State → Ira F → Double → ℕ → State
  doppler_pos_add_measurement st ira frequency timestamp =
      tally (record st { dbg_total = inc64 st.dbg_total })
        (judge st.satellites ira frequency timestamp)
