-- ===== src/WebMap/Update.antt =====
-- web_map.c: the functions that update the state of the map, but for the aircraft.
use iridium_sniffer.Base.{
  ℕ, zero, suc, ◌+◌, ◌-◌, ◌%◌, List, [], ◌∷◌, Option, none, some, Bool, ◌&&◌, ◌||◌, not, length,
  get_elem?, set, take, ltb, ◌==◌, if◌then◌else◌, inc64,
}
use iridium_sniffer.Base.Int.{ℤ, pos, negsuc, ltb_ℤ}
use iridium_sniffer.Base.Doubles.{Doubles}
use iridium_sniffer.Frame.{Page, Ira, Ibc}
use iridium_sniffer.Circular.{Circular, size, push}
use iridium_sniffer.WebMap.{Point, SatEntry, Totals, State, int}
use iridium_sniffer.Base.Text.{Chars}

module _ (F : Doubles) where
  open F use {Double, of_int, sub, fabs, lt, eq, decimal}

  abbrev pub first_tmsi : List Page → ℕ
  first_tmsi [] = 0
  first_tmsi (p ∷ pages) = p.tmsi

  abbrev pub point_of : Ira F → ℕ → Double → Point F
  point_of ra timestamp frequency = record {
    lat = ra.lat;
    lon = ra.lon;
    alt = ra.alt;
    sat_id = ra.sat_id;
    beam_id = ra.beam_id;
    n_pages = length ra.pages;
    tmsi = first_tmsi ra.pages;
    frequency = frequency;
    timestamp = timestamp;
  }

  -- `if (ra->n_pages > 0) total_pages++`
  abbrev pub count_pages : Ira F → Totals F → Totals F
  count_pages ra t = if ltb 0 (length ra.pages) then record t { pages = inc64 t.pages } else t

  unfoldable pub is_duplicate : Ira F → Point F → Bool
  is_duplicate ra b =
      (b.sat_id == ra.sat_id)
      && lt (fabs (sub b.lat ra.lat)) (decimal 1 3)
      && lt (fabs (sub b.lon ra.lon)) (decimal 1 3)

  -- The index of a duplicate and the entry there, from `i` back, in at most `n` steps.
  unfoldable pub find_duplicate : Ira F → Circular (Point F) → ℕ → ℕ → Option (ℕ × Point F)
  find_duplicate ra c zero i = none
  find_duplicate ra c (suc n) i =
      let idx = (c.head + size c - 1 - i) % size c in
      let rest = find_duplicate ra c n (i + 1) in
      elim (get_elem? c.cells idx) [
        | none ↦ rest
        | some b ↦ if is_duplicate ra b then some (idx, b) else rest
      ]

  -- A duplicate is refreshed, and otherwise the beam is added.
  unfoldable pub record_beam : State F → Ira F → ℕ → Double → Option (ℕ × Point F) → State F
  record_beam st ra timestamp frequency none = record st {
    beams = push st.beams (point_of ra timestamp frequency);
    totals = count_pages ra (record st.totals { beams = inc64 st.totals.beams });
  }
  record_beam st ra timestamp frequency (some (idx, b)) =
      let stamped = record b { timestamp = timestamp } in
      let updated =
        if ltb 0 (length ra.pages)
        then record stamped { n_pages = length ra.pages; tmsi = first_tmsi ra.pages }
        else stamped in
      record st {
        beams = record (st.beams) { cells = set st.beams.cells idx updated };
        totals = count_pages ra (record st.totals { beams = inc64 st.totals.beams });
      }

  unfoldable pub add_beam_locked : State F → Ira F → ℕ → Double → State F
  add_beam_locked st ra timestamp frequency =
      let search = if ltb st.beams.count 20 then st.beams.count else 20 in
      record_beam st ra timestamp frequency (find_duplicate ra st.beams search 0)

  abbrev pub off_map : Double → Double → Bool
  off_map lat lon =
      lt lat (of_int (negsuc 89))
      || lt (int F 90) lat
      || lt lon (of_int (negsuc 179))
      || lt (int F 180) lon

  abbrev pub is_blank : Ira F → Bool
  is_blank ra = (ra.sat_id == 0) && (ra.beam_id == 0) && eq ra.lat (int F 0) && eq ra.lon (int F 0)

  -- Below 100 km.
  abbrev pub on_ground : Ira F → Bool
  on_ground ra = not (ltb_ℤ ra.alt (pos 0)) && ltb_ℤ ra.alt (pos 100)

  abbrev pub out_of_orbit : Ira F → Bool
  out_of_orbit ra = ltb_ℤ ra.alt (pos 700) || ltb_ℤ (pos 900) ra.alt

  unfoldable pub web_map_add_ra : State F → Ira F → ℕ → Double → State F
  web_map_add_ra st ra timestamp frequency =
      let t = record st.totals { ira = inc64 st.totals.ira } in
      if off_map ra.lat ra.lon
      then st
      else if is_blank ra
      then st
      else if on_ground ra
      then add_beam_locked (record st { totals = t }) ra timestamp frequency
      else if out_of_orbit ra
      then st
      else record st {
        ra = push st.ra (point_of ra timestamp frequency);
        totals = count_pages ra t;
      }

  -- The entry of a satellite made or updated, none if the table is full.
  unfoldable pub update_sats : List (SatEntry F) → Ibc → ℕ → ℕ → List (SatEntry F)
  update_sats [] ibc timestamp n =
      if ltb n 100
      then record { sat_id = ibc.sat_id; beam_id = ibc.beam_id; last_seen = timestamp; count = 1 }
        ∷ []
      else []
  update_sats (s ∷ sats) ibc timestamp n =
      let rest = update_sats sats ibc timestamp n in
      if s.sat_id == ibc.sat_id
      then record s { beam_id = ibc.beam_id; last_seen = timestamp; count = s.count + 1 } ∷ sats
      else s ∷ rest

  unfoldable pub web_map_add_sat : State F → Ibc → ℕ → State F
  web_map_add_sat st ibc timestamp = if ibc.sat_id == 0 then st else record st {
    sats = update_sats st.sats ibc timestamp (length st.sats);
    totals = record st.totals { ibc = inc64 st.totals.ibc };
  }

  unfoldable pub web_map_set_position : State F → Double → Double → Double → State F
  web_map_set_position st lat lon hdop = record st {
    rx = some (record { lat = lat; lon = lon; hdop = hdop });
  }

  unfoldable pub web_map_add_mt : State F → Double → Double → ℤ → ℕ → ℕ → Double → State F
  web_map_add_mt st lat lon alt msg_type timestamp frequency =
      if off_map lat lon then st else record st {
        mt = push st.mt (record {
          lat = lat;
          lon = lon;
          alt = alt;
          msg_type = msg_type;
          timestamp = timestamp;
          frequency = frequency;
        });
        totals = record st.totals { mt = inc64 st.totals.mt };
      }

  abbrev pub strip_dots : Chars → Chars
  strip_dots [] = []
  strip_dots (c ∷ cs) = if c == 46 then strip_dots cs else c ∷ cs

  -- The three strings that may be NULL in the source are given here.
  unfoldable pub web_map_add_acars_message :
      State F → Chars → Option Chars → Chars → Chars → Bool → ℕ → State F
  web_map_add_acars_message st reg flight label text ul timestamp_ns =
      if length text == 0 then st else record st {
        acars = push st.acars (record {
          reg = take 15 (strip_dots reg);
          flight = elim flight [ none ↦ [] | some f ↦ take 7 f ];
          label = take 3 label;
          text = take 255 text;
          ul = ul;
          timestamp = timestamp_ns;
        });
        totals = record st.totals { acars_msgs = inc64 st.totals.acars_msgs };
      }
