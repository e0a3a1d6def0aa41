-- ===== src/Acars/Deliver.antt =====
-- sbd_acars.c, `acars_parse_fallback`: what is printed and fed of a message, and the position of its
-- aircraft, which goes to the map and to BaseStation.
use iridium_sniffer.Base.{
  ℕ, List, [], ◌∷◌, ◌++◌, Option, none, some, Bool, true, false, ◌&&◌, ◌||◌, not, length, get_or,
  take, ltb, ◌==◌, if◌then◌else◌, inc32,
}
use iridium_sniffer.Base.Int.{negsuc}
use iridium_sniffer.Base.Text.{Chars, c_string}
use iridium_sniffer.Base.Doubles.{Doubles}
use iridium_sniffer.Sbd.{Message}
use iridium_sniffer.BeamCache.{BeamCache, beam_cache_lookup}
use iridium_sniffer.WebMap
use iridium_sniffer.WebMap.Update.{web_map_add_acars_message}
use iridium_sniffer.WebMap.Aircraft.{Report, web_map_add_aircraft}
use iridium_sniffer.BaseStation
use iridium_sniffer.BaseStation.{Line, basestation_send_position}
use iridium_sniffer.Acars.{Checked, Fields, check_message, read_fields, shown_label, plain_reg}
use iridium_sniffer.Acars.Position.{acars_extract_text_position, acars_extract_waypoint_position}

-- The counters are `int`s, each kept as its 32 bits.
pub record Stats : Type 0 where
  pub acars_total : ℕ
  pub acars_errors : ℕ
  pub pos_text : ℕ
  pub pos_beam : ℕ
  pub bs_sent : ℕ

-- `stat_acars_total++` and `stat_acars_errors++`
unfoldable pub count_message : Stats → ℕ → Stats
count_message s errors = record s {
  acars_total = inc32 s.acars_total;
  acars_errors = if ltb 0 errors then inc32 s.acars_errors else s.acars_errors;
}

-- What is printed or sent on: `acars_output_json`, `acars_output_text` and `hub_emit_acars`, with the
-- header, the fields of the message, and its errors.
pub data Emitted : Type 0 where
  json : List ℕ → Fields → Emitted
  text : List ℕ → Fields → ℕ → Emitted
  hub : List ℕ → Fields → Emitted

module _ (F : Doubles) where
  open F use {Double, of_int}

  -- The command line, the databases, `strtod`, and the clients that are gone.
  pub record Env : Type 0 where
    pub web_enabled : Bool
    pub basestation_enabled : Bool
    pub basestation_beam : Bool
    pub feeds : Bool
    pub acars_json : Bool
    pub udp : Bool
    pub strtod : Chars → Option (Double × Chars)
    pub aircraft : Chars → Option Chars
    pub waypoint : Chars → Option (Double × Double)
    pub gone : ℕ → Bool

  -- What the module keeps, and the state of BaseStation.
  pub record State : Type 0 where
    pub stats : Stats
    pub station : BaseStation.State F

  abbrev pub has_text : Fields → Bool
  has_text f = elim f.text.txt [ none ↦ false | some txt ↦ ltb 0 (length txt) ]

  abbrev pub text_of : Fields → List ℕ
  text_of f = elim f.text.txt [ none ↦ [] | some txt ↦ txt ]

  abbrev pub is_heartbeat : Fields → Bool
  is_heartbeat f =
      let label = shown_label f.label in (get_or label 0 0 == b'_') && (get_or label 1 0 == b'd')

  -- The message goes to the list on the map, next to the feeds.
  unfoldable pub list_message : Env → WebMap.State F → Fields → Bool → ℕ → WebMap.State F
  list_message env web f ul timestamp =
      if env.feeds
        && env.web_enabled
        && ltb 0 (length (plain_reg f))
        && has_text f
        && not (is_heartbeat f)
      then web_map_add_acars_message F web (plain_reg f) (some (c_string f.text.flight))
          (c_string (shown_label f.label)) (c_string (take 255 (text_of f))) ul timestamp
      else web

  -- The position in the text: coordinates, or else a waypoint.
  unfoldable pub text_position : Env → Fields → Option (Double × Double)
  text_position env f =
      let txt = c_string (take 2047 (text_of f)) in
      if not (has_text f)
      then none
      else elim (acars_extract_text_position F env.strtod f.label txt) [
        | some p ↦ some p
        | none ↦ acars_extract_waypoint_position F env.waypoint f.label txt
      ]

  abbrev pub report : Fields → Message Double → Double × Double → ℕ → ℕ → Bool → Report F
  report f m p sat_id beam_id adsc = record {
    reg = plain_reg f;
    flight = [];
    lat = p.0;
    lon = p.1;
    sat_id = sat_id;
    beam_id = beam_id;
    timestamp_ns = m.timestamp;
    frequency = m.frequency;
    alt_ft = negsuc 99_998;
    adsc_pos = adsc;
    oooi = [];
  }

  -- `basestation_send_position`, if it is called.
  unfoldable pub send_position :
      Env → State → Bool → Fields → Double × Double → ℕ → Option (Line F × List ℕ) × State
  send_position env st called f p timestamp =
      let (line, station) =
        basestation_send_position F env.aircraft env.gone (st.station) (plain_reg f) [] p.0 p.1
          (negsuc 99_998) timestamp in
      if called then (line, record st { station = station }) else (none, st)

  -- The position of the aircraft: the map, the line of BaseStation, and the state.
  unfoldable pub locate :
      Env
      → WebMap.State F
      → BeamCache F
      → State
      → Fields
      → Message Double
      → WebMap.State F × Option (Line F × List ℕ) × State
  locate env web beams st f m =
      let beam = beam_cache_lookup F beams m.timestamp in
      elim (text_position env f) [
        | some p ↦
            let (sat_id, beam_id) : ℕ × ℕ = elim beam [
              | none ↦ (0, 0)
              | some b ↦ (b.sat_id, b.beam_id)
            ] in
            let bs_sent =
              if env.basestation_enabled then inc32 st.stats.bs_sent else st.stats.bs_sent in
            let stats = record st.stats { pos_text = inc32 st.stats.pos_text; bs_sent = bs_sent } in
            let (line, st') =
              send_position env (record st { stats = stats }) env.basestation_enabled f p
                m.timestamp in
            (web_map_add_aircraft F web (report f m p sat_id beam_id true), line, st')
        | none ↦ elim beam [
          | none ↦ (web, none, st)
          | some b ↦
              let (line, st') =
                send_position env
                  (record st { stats = record st.stats { pos_beam = inc32 st.stats.pos_beam } })
                  (env.basestation_enabled && env.basestation_beam) f (b.lat, b.lon) m.timestamp in
              (
                web_map_add_aircraft F web (report f m (b.lat, b.lon) b.sat_id b.beam_id false),
                line,
                st',
              )
        ]
      ]

  -- What leaves for one message: what is emitted, and a line of BaseStation with its receivers.
  pub record Delivered : Type 0 where
    pub emitted : List Emitted
    pub line : Option (Line F × List ℕ)

  -- The part behind the check and the count.
  unfoldable pub deliver :
      Env
      → WebMap.State F
      → BeamCache F
      → State
      → Message Double
      → Checked
      → Delivered × WebMap.State F × State
  deliver env web beams st m k =
      let f = read_fields m.ul k.stripped in
      let wants_json = env.acars_json || env.udp in
      let good = k.errors == 0 in
      let printed =
        (if wants_json then Emitted.json k.hdr f ∷ [] else [])
        ++ ((if env.acars_json then [] else Emitted.text k.hdr f k.errors ∷ [])
            ++ (if env.feeds && good then Emitted.hub k.hdr f ∷ [] else [])) in
      let listed = if good then list_message env web f m.ul m.timestamp else web in
      let (located, line, st') = locate env listed beams st f m in
      if wants_json && not good
      then (record { emitted = []; line = none }, web, st)
      else if env.web_enabled && good && ltb 0 (length (plain_reg f))
      then (record { emitted = printed; line = line }, located, st')
      else (record { emitted = printed; line = none }, listed, st)

  unfoldable pub acars_parse_fallback :
      Env
      → WebMap.State F
      → BeamCache F
      → State
      → Message Double
      → Delivered × WebMap.State F × State
  acars_parse_fallback env web beams st m = elim (check_message m.bytes) [
    | none ↦ (record { emitted = []; line = none }, web, st)
    | some k ↦ deliver env web beams (record st { stats = count_message st.stats k.errors }) m k
  ]
