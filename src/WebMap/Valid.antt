-- ===== src/WebMap/Valid.antt =====
-- web_map.c: the state of the map before and after each update.
use iridium_sniffer.Base.{
  ℕ, ◌+◌, ◌-◌, ◌^◌, ◌<◌, ◌≤◌, List, [], ◌∷◌, Option, none, some, Bool, true, false, length,
  length-set, set, ltb, inc64, ◌==◌, if◌then◌else◌, Bool-cases, inl, inr, ◌≡◌, ◌∙◌, arith,
}
use iridium_sniffer.Base.Int.{ℤ}
use iridium_sniffer.Base.Doubles.{Doubles}
use iridium_sniffer.Frame.{Ira, Ibc}
use iridium_sniffer.Circular.{Circular, push}
use iridium_sniffer.Circular.Contents.{IsCircular, push-IsCircular}
use iridium_sniffer.WebMap.{State, Point, SatEntry, AircraftEntry}
use iridium_sniffer.Base.Text.{Chars}
use iridium_sniffer.WebMap.Update.{
  add_beam_locked, record_beam, web_map_add_ra, update_sats, web_map_add_sat, web_map_add_mt,
  web_map_add_acars_message, web_map_set_position, off_map, is_blank, on_ground, out_of_orbit,
}

module _ {ℓ} {A : Type ℓ} where
  -- A circular buffer of `n` entries.
  pub record IsRing (n : ℕ) (c : Circular A) : Type ℓ where
    pub cells : length c.cells ≡ n
    pub filled : IsCircular c

  push-IsRing : (n : ℕ) (c : Circular A) (v : A) → IsRing n c → IsRing n (push c v)
  push-IsRing n c v r = record {
    cells = unfold push in (length-set c.cells c.head v ∙ r.cells);
    filled = push-IsCircular c v r.filled;
  }

  set-IsRing :
      (n : ℕ) (c : Circular A) (i : ℕ) (v : A)
      → IsRing n c
      → IsRing n (record c { cells = set c.cells i v })
  set-IsRing n c i v r = record {
    cells = length-set c.cells i v ∙ r.cells;
    filled = record {
      room = rw (length-set c.cells i v) r.filled.room;
      filling = rw (length-set c.cells i v) r.filled.filling;
    };
  }

module _ (F : Doubles) where
  open F use {Double, eq}

  abbrev pub FewFixes : List (AircraftEntry F) → Type 0
  FewFixes [] = Unit {0}
  FewFixes (a ∷ aircraft) = (length a.fixes ≤ 8) × FewFixes aircraft

  -- No time is the last one of `uint64_t`.
  abbrev pub AllSeen : List (AircraftEntry F) → Type 0
  AllSeen [] = Unit {0}
  AllSeen (a ∷ aircraft) = (a.last_seen < 2 ^ 64 - 1) × AllSeen aircraft

  -- The bounds of every array of the state, nothing was written outside of them, and there is an
  -- oldest aircraft.
  pub record IsMap (st : State F) : Type 0 where
    pub ra : IsRing 2000 st.ra
    pub beams : IsRing 2000 st.beams
    pub mt : IsRing 500 st.mt
    pub acars : IsRing 100 st.acars
    pub sats : length st.sats ≤ 100
    pub aircraft : length st.aircraft ≤ 32
    pub fixes : FewFixes st.aircraft
    pub intact : st.intact ≡ true
    pub seen : AllSeen st.aircraft

  record_beam-IsMap :
      (st : State F) (ra : Ira F) (timestamp : ℕ) (frequency : Double) (o : Option (ℕ × Point F))
      → IsMap st
      → IsMap (record_beam F st ra timestamp frequency o)
  unfolding record_beam
  record_beam-IsMap st ra timestamp frequency none m = record {
    ra = m.ra;
    beams = push-IsRing 2000 st.beams _ m.beams;
    mt = m.mt;
    acars = m.acars;
    sats = m.sats;
    aircraft = m.aircraft;
    fixes = m.fixes;
    intact = m.intact;
    seen = m.seen;
  }
  record_beam-IsMap st ra timestamp frequency (some (idx, b)) m = record {
    ra = m.ra;
    beams = set-IsRing 2000 st.beams idx _ m.beams;
    mt = m.mt;
    acars = m.acars;
    sats = m.sats;
    aircraft = m.aircraft;
    fixes = m.fixes;
    intact = m.intact;
    seen = m.seen;
  }

  -- One of two states, whatever the test.
  abbrev either :
      (P : State F → Type 0) (b : Bool) {s t : State F} → P s → P t → P (if b then s else t)
  either P true p q = p
  either P false p q = q

  pub web_map_add_ra-IsMap :
      (st : State F) (ra : Ira F) (timestamp : ℕ) (frequency : Double)
      → IsMap st
      → IsMap (web_map_add_ra F st ra timestamp frequency)
  unfolding web_map_add_ra add_beam_locked
  web_map_add_ra-IsMap st ra timestamp frequency m = either IsMap (off_map F ra.lat ra.lon) m (
      either IsMap (is_blank F ra) m (
        either IsMap (on_ground F ra)
          (record_beam-IsMap (record st { totals = record st.totals { ira = inc64 st.totals.ira } })
            ra timestamp frequency _
            (record {
              ra = m.ra;
              beams = m.beams;
              mt = m.mt;
              acars = m.acars;
              sats = m.sats;
              aircraft = m.aircraft;
              fixes = m.fixes;
              intact = m.intact;
              seen = m.seen;
            }))
          (either IsMap (out_of_orbit F ra) m (record {
            ra = push-IsRing 2000 st.ra _ m.ra;
            beams = m.beams;
            mt = m.mt;
            acars = m.acars;
            sats = m.sats;
            aircraft = m.aircraft;
            fixes = m.fixes;
            intact = m.intact;
            seen = m.seen;
          }))))

  update_sats-few :
      (sats : List (SatEntry F)) (ibc : Ibc) (timestamp n : ℕ)
      → length (update_sats F sats ibc timestamp n) ≤ length sats + (if ltb n 100 then 1 else 0)
  unfolding update_sats
  update_sats-few [] ibc timestamp n = elim (Bool-cases (ltb n 100)) [
    | inl e ↦ rw (update_sats, e) (omega arith)
    | inr e ↦ rw (update_sats, e) (omega arith)
  ]
  update_sats-few (s ∷ sats) ibc timestamp n = elim (Bool-cases (s.sat_id == ibc.sat_id)) [
    | inl e ↦ rw (update_sats, e) (omega arith)
    | inr e ↦ rw (update_sats, e) (omega (arith, update_sats-few sats ibc timestamp n))
  ]

  pub web_map_add_sat-IsMap :
      (st : State F) (ibc : Ibc) (timestamp : ℕ)
      → IsMap st
      → IsMap (web_map_add_sat F st ibc timestamp)
  unfolding web_map_add_sat
  web_map_add_sat-IsMap st ibc timestamp m = either IsMap (ibc.sat_id == 0) m (record {
    ra = m.ra;
    beams = m.beams;
    mt = m.mt;
    acars = m.acars;
    sats =
        room (length (update_sats F st.sats ibc timestamp (length st.sats))) (length st.sats)
          (update_sats-few st.sats ibc timestamp (length st.sats)) m.sats;
    aircraft = m.aircraft;
    fixes = m.fixes;
    intact = m.intact;
    seen = m.seen;
  })
    where
      room : (k n : ℕ) → k ≤ n + (if ltb n 100 then 1 else 0) → n ≤ 100 → k ≤ 100
      room k n h l = ground arith

  pub web_map_add_mt-IsMap :
      (st : State F) (lat lon : Double) (alt : ℤ) (msg_type timestamp : ℕ) (frequency : Double)
      → IsMap st
      → IsMap (web_map_add_mt F st lat lon alt msg_type timestamp frequency)
  unfolding web_map_add_mt
  web_map_add_mt-IsMap st lat lon alt msg_type timestamp frequency m =
      either IsMap (off_map F lat lon) m (record {
        ra = m.ra;
        beams = m.beams;
        mt = push-IsRing 500 st.mt _ m.mt;
        acars = m.acars;
        sats = m.sats;
        aircraft = m.aircraft;
        fixes = m.fixes;
        intact = m.intact;
        seen = m.seen;
      })

  pub web_map_add_acars_message-IsMap :
      (st : State F) (reg : Chars) (flight : Option Chars) (label text : Chars) (ul : Bool)
      (timestamp_ns : ℕ)
      → IsMap st
      → IsMap (web_map_add_acars_message F st reg flight label text ul timestamp_ns)
  unfolding web_map_add_acars_message
  web_map_add_acars_message-IsMap st reg flight label text ul timestamp_ns m =
      either IsMap (length text == 0) m (record {
        ra = m.ra;
        beams = m.beams;
        mt = m.mt;
        acars = push-IsRing 100 st.acars _ m.acars;
        sats = m.sats;
        aircraft = m.aircraft;
        fixes = m.fixes;
        intact = m.intact;
        seen = m.seen;
      })

  pub web_map_set_position-IsMap :
      (st : State F) (lat lon hdop : Double)
      → IsMap st
      → IsMap (web_map_set_position F st lat lon hdop)
  unfolding web_map_set_position
  web_map_set_position-IsMap st lat lon hdop m = record {
    ra = m.ra;
    beams = m.beams;
    mt = m.mt;
    acars = m.acars;
    sats = m.sats;
    aircraft = m.aircraft;
    fixes = m.fixes;
    intact = m.intact;
    seen = m.seen;
  }
