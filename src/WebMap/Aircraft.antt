-- ===== src/WebMap/Aircraft.antt =====
-- web_map.c, `web_map_add_aircraft`: the aircraft and their last eight positions.
use iridium_sniffer.Base.{
  ℕ, ◌+◌, ◌-◌, ◌/◌, ◌^◌, List, [], ◌∷◌, ◌++◌, Option, none, some, Bool, false, ◌&&◌, not, length,
  get_elem?, get_or, set, take, drop, ltb, leb, ◌==◌, if◌then◌else◌, sub64, inc64,
}
use iridium_sniffer.Base.Int.{ℤ}
use iridium_sniffer.Base.Doubles.{Doubles}
use iridium_sniffer.WebMap.{Fix, AircraftEntry, State, int}
use iridium_sniffer.Base.Text.{Chars, same_chars}

module _ (F : Doubles) where
  open F use {Double, of_int, add, sub, mul, div, sqrt, atan2, sin, cos, lt, pi}

  unfoldable pub aircraft_dist_km : Double → Double → Double → Double → Double
  aircraft_dist_km lat1 lon1 lat2 lon2 =
      let half_dlat = div (div (mul (sub lat2 lat1) pi) (int F 180)) (int F 2) in
      let half_dlon = div (div (mul (sub lon2 lon1) pi) (int F 180)) (int F 2) in
      let sides =
        mul (mul (cos (div (mul lat1 pi) (int F 180))) (cos (div (mul lat2 pi) (int F 180))))
          (sin half_dlon) in
      let a = add (mul (sin half_dlat) (sin half_dlat)) (mul sides (sin half_dlon)) in
      mul (mul (int F 6371) (int F 2)) (atan2 (sqrt a) (sqrt (sub (int F 1) a)))

  -- The report that is added.
  pub record Report : Type 0 where
    pub reg : Chars
    pub flight : Chars
    pub lat : Double
    pub lon : Double
    pub sat_id : ℕ
    pub beam_id : ℕ
    pub timestamp_ns : ℕ
    pub frequency : Double
    pub alt_ft : ℤ
    pub adsc_pos : Bool
    pub oooi : Chars

  unfoldable pub find_aircraft : List (AircraftEntry F) → Chars → ℕ → Option ℕ
  find_aircraft [] reg i = none
  find_aircraft (a ∷ aircraft) reg i =
      let rest = find_aircraft aircraft reg (i + 1) in
      if same_chars (take 15 a.reg) (take 15 reg) then some i else rest

  -- The entry that was updated longest ago, from index `i` on.
  unfoldable pub find_oldest : List (AircraftEntry F) → ℕ → Option ℕ → ℕ → Option ℕ
  find_oldest [] i idx oldest = idx
  find_oldest (a ∷ aircraft) i idx oldest =
      let older = ltb a.last_seen oldest in
      find_oldest aircraft (i + 1) (if older then some i else idx)
        (if older then a.last_seen else oldest)

  abbrev pub blank_entry : Chars → AircraftEntry F
  blank_entry reg = record {
    reg = take 15 reg;
    flight = [];
    oooi = [];
    sat_id = 0;
    beam_id = 0;
    fixes = [];
    frequency = int F 0;
    last_seen = 0;
  }

  -- The entries and the index of the one for `reg`: found, new, or in place of the oldest; none
  -- where every time is at its maximum: the index stays -1, and the source writes to aircraft[-1].
  unfoldable pub place_aircraft : List (AircraftEntry F) → Chars → List (AircraftEntry F) × Option ℕ
  place_aircraft aircraft reg = elim (find_aircraft aircraft reg 0) [
    | some i ↦ (aircraft, some i)
    | none ↦
        if ltb (length aircraft) 32
        then (aircraft ++ (blank_entry reg ∷ []), some (length aircraft))
        else elim (find_oldest aircraft 0 none (2 ^ 64 - 1)) [
          | none ↦ (aircraft, none)
          | some i ↦ (set aircraft i (blank_entry reg), some i)
        ]
  ]

  -- The speed check: the last fix is too far away for the time since.
  unfoldable pub is_implausible : AircraftEntry F → Report → Bool
  is_implausible ac r = elim (get_elem? ac.fixes (length ac.fixes - 1)) [
    | none ↦ false
    | some last ↦
        let dt_s = div (int F (sub64 r.timestamp_ns ac.last_seen)) (int F 1_000_000_000) in
        let max_km = mul (div dt_s (int F 3600)) (int F 1200) in
        not r.adsc_pos
        && lt (int F 0) dt_s
        && lt dt_s (int F 7200)
        && lt max_km (aircraft_dist_km last.lat last.lon r.lat r.lon)
  ]

  unfoldable pub append_fix : List (Fix F) → Fix F → List (Fix F)
  append_fix fixes f = (if leb 8 (length fixes) then drop 1 fixes else fixes) ++ (f ∷ [])

  unfoldable pub named : AircraftEntry F → Report → AircraftEntry F
  named ac r = record ac {
    flight = if length r.flight == 0 then ac.flight else take 7 r.flight;
    oooi = if length r.oooi == 0 then ac.oooi else take 7 r.oooi;
  }

  unfoldable pub moved : AircraftEntry F → Report → AircraftEntry F
  moved ac r = record ac {
    fixes = append_fix ac.fixes (record {
      lat = r.lat;
      lon = r.lon;
      t = r.timestamp_ns / 1_000_000_000;
      alt = r.alt_ft;
      adsc = r.adsc_pos;
    });
    sat_id = r.sat_id;
    beam_id = r.beam_id;
    frequency = r.frequency;
    last_seen = r.timestamp_ns;
  }

  -- A string that is empty stands for NULL too.
  unfoldable pub web_map_add_aircraft : State F → Report → State F
  web_map_add_aircraft st r =
      let (aircraft, found) = place_aircraft st.aircraft r.reg in
      if length r.reg == 0 then st else elim found [
        | none ↦ record st { intact = false }
        | some i ↦
            let ac = named (get_or aircraft i (blank_entry r.reg)) r in
            if is_implausible ac r then record st { aircraft = set aircraft i ac } else record st {
              aircraft = set aircraft i (moved ac r);
              totals = record st.totals { aircraft = inc64 st.totals.aircraft };
            }
      ]
