-- ===== src/Acars/Safe.antt =====
-- sbd_acars.c, `acars_parse_fallback`: the map and the table of BaseStation stay within their arrays, and
-- a message with errors changes neither.
use iridium_sniffer.Base.{
  ℕ, suc, zero, ◌+◌, ◌-◌, ◌≤◌, ◌<◌, ◌^◌, List, [], Option, none, some, Bool, true, false, ◌&&◌,
  ◌||◌, not, length, get_elem?, length-set, length-append, length-take, take, set, ltb, ltb→lt,
  ◌==◌, if◌then◌else◌, Bool-cases, Option-cases, whichever, inl, inr, ◌≡◌, refl, arith, inc32,
}
use iridium_sniffer.Base.Int.{ℤ, negsuc}
use iridium_sniffer.Base.Text.{Chars}
use iridium_sniffer.Base.Doubles.{Doubles}
use iridium_sniffer.Sbd.{Message}
use iridium_sniffer.BeamCache.{BeamCache, beam_cache_lookup}
use iridium_sniffer.WebMap
use iridium_sniffer.WebMap.Valid.{IsMap, web_map_add_acars_message-IsMap}
use iridium_sniffer.WebMap.Fleet.{web_map_add_aircraft-IsMap}
use iridium_sniffer.BaseStation
use iridium_sniffer.BaseStation.{
  Line, Track, find_track, bs_derive_track, bs_track_max, write_from, write_all,
  basestation_send_position,
}
use iridium_sniffer.Acars.{Checked, Fields, check_message, read_fields, plain_reg}
use iridium_sniffer.Acars.Deliver.{
  Env, State, list_message, text_position, send_position, locate, deliver, acars_parse_fallback,
  count_message,
}

few_left :
    (clients : List ℕ) (i v : ℕ)
    → length (take (length clients - 1) (set clients i v)) ≤ length clients
few_left clients i v =
    omega (arith, length-take (length clients - 1) (set clients i v), length-set clients i v)

write_from-few :
    (gone : ℕ → Bool) (client_mode : Bool) (fuel i : ℕ) (clients : List ℕ)
    → length (write_from gone client_mode fuel i clients).0 ≤ length clients
unfolding write_from
write_from-few gone client_mode zero i clients = omega arith
write_from-few gone client_mode (suc fuel) i clients = elim (Option-cases (get_elem? clients i)) [
  | inl e ↦ rw (write_from, e) (omega arith)
  | inr (fd, e) ↦
      let next = write_from-few gone client_mode fuel (suc i) clients in
      elim (Bool-cases (gone fd)) [
        | inl g ↦
            rw (write_from, e, g)
              (whichever (λ l. length l ≤ length clients) client_mode {s = []} (omega arith)
                (few_left clients i _))
        | inr g ↦ rw (write_from, e, g) next
      ]
]

module _ (F : Doubles) where
  -- The table of fixes and the list of clients within their arrays.
  pub record IsStation (st : BaseStation.State F) : Type 0 where
    pub tracks : length st.tracks ≤ 64
    pub clients : length st.clients ≤ 16

  bs_derive_track-few :
      (tracks : List (Track F)) (hex : Chars) (lat lon : F.Double) (timestamp_ns : ℕ)
      → length tracks ≤ 64
      → length (bs_derive_track F tracks hex lat lon timestamp_ns).1 ≤ 64
  unfolding bs_derive_track
  bs_derive_track-few tracks hex lat lon timestamp_ns h =
      elim (Option-cases (find_track F tracks hex 0)) [
        | inr (k, f) ↦ rw (bs_derive_track, f) (omega (arith, length-set tracks k _))
        | inl f ↦ elim (Bool-cases (ltb (length tracks) bs_track_max)) [
          | inl r ↦ rw (bs_derive_track, f, r) (omega (arith, ltb→lt _ _ r, length-append tracks _))
          | inr r ↦ rw (bs_derive_track, f, r) (omega (arith, length-set tracks _ _))
        ]
      ]

  basestation_send_position-IsStation :
      (lookup : Chars → Option Chars) (gone : ℕ → Bool) (st : BaseStation.State F)
      (reg flight : Chars) (lat lon : F.Double) (alt_ft : ℤ) (t : ℕ)
      → IsStation st
      → IsStation (basestation_send_position F lookup gone st reg flight lat lon alt_ft t).1
  unfolding basestation_send_position
  basestation_send_position-IsStation lookup gone st reg flight lat lon alt_ft t s =
      whichever (λ (r : Option (Line F × List ℕ) × BaseStation.State F). IsStation r.1)
        (not st.active || (length reg == 0)) s
        (elim (Option-cases (lookup reg)) [
          | inl e ↦ rw (e) s
          | inr (hex, e) ↦ rw (e) (record {
            tracks = bs_derive_track-few st.tracks hex lat lon t s.tracks;
            clients =
                unfold write_all in
                omega (
                  arith,
                  s.clients,
                  write_from-few gone st.client_mode (length st.clients) 0 st.clients,
                );
          })
        ])

  list_message-IsMap :
      (env : Env F) (web : WebMap.State F) (f : Fields) (ul : Bool) (t : ℕ)
      → IsMap F web
      → IsMap F (list_message F env web f ul t)
  unfolding list_message
  list_message-IsMap env web f ul t m =
      whichever (IsMap F) _ (web_map_add_acars_message-IsMap F web _ _ _ _ ul t m) m

  send_position-IsStation :
      (env : Env F) (st : State F) (called : Bool) (f : Fields) (p : F.Double × F.Double) (t : ℕ)
      → IsStation (st.station)
      → IsStation (send_position F env st called f p t).1.station
  unfolding send_position
  send_position-IsStation env st called f p t s =
      whichever (λ (r : Option (Line F × List ℕ) × State F). IsStation ((r.1).station)) called
        (basestation_send_position-IsStation env.aircraft env.gone (st.station) (plain_reg f) [] p.0
          p.1 (negsuc 99_998) t s)
        s

  -- The map and the station after a step.
  abbrev IsSound : WebMap.State F → State F → Type 0
  IsSound web st = IsMap F web × IsStation (st.station)

  locate-IsSound :
      (env : Env F) (web : WebMap.State F) (beams : BeamCache F) (st : State F) (f : Fields)
      (m : Message F.Double)
      → m.timestamp < 2 ^ 64 - 1
      → IsSound web st
      → let r = locate F env web beams st f m in IsSound r.0 r.2
  unfolding locate
  locate-IsSound env web beams st f m h (v, s) = elim (Option-cases (text_position F env f)) [
    | inr (p, e) ↦
        rw (locate, e)
          (
            web_map_add_aircraft-IsMap F web _ h v,
            send_position-IsStation env _ _ f p m.timestamp s,
          )
    | inl e ↦ elim (Option-cases (beam_cache_lookup F beams m.timestamp)) [
      | inl n ↦ rw (locate, e, n) (v, s)
      | inr (b, n) ↦
          rw (locate, e, n)
            (
              web_map_add_aircraft-IsMap F web _ h v,
              send_position-IsStation env _ _ f (b.lat, b.lon) m.timestamp s,
            )
    ]
  ]

  deliver-IsSound :
      (env : Env F) (web : WebMap.State F) (beams : BeamCache F) (st : State F)
      (m : Message F.Double) (k : Checked)
      → m.timestamp < 2 ^ 64 - 1
      → IsSound web st
      → let r = deliver F env web beams st m k in IsSound r.1 r.2
  unfolding deliver
  deliver-IsSound env web beams st m k h s =
      let f = read_fields m.ul k.stripped in
      let listed : IsMap F
          (if k.errors == 0 then list_message F env web f m.ul m.timestamp else web) =
        whichever (IsMap F) (k.errors == 0) (list_message-IsMap env web f m.ul m.timestamp s.0)
          s.0 in
      elim (Bool-cases ((env.acars_json || env.udp) && not (k.errors == 0))) [
        | inl e ↦ rw (deliver, e) s
        | inr e ↦
            elim (Bool-cases (env.web_enabled && (k.errors == 0) && ltb 0 (length (plain_reg f)))) [
              | inl w ↦ rw (deliver, e, w) (locate-IsSound env _ beams st f m h (listed, s.1))
              | inr w ↦ rw (deliver, e, w) (listed, s.1)
            ]
      ]

  -- A message with a time below UINT64_MAX keeps the map and the station within their arrays.
  pub acars_parse_fallback-IsSound :
      (env : Env F) (web : WebMap.State F) (beams : BeamCache F) (st : State F)
      (m : Message F.Double)
      → m.timestamp < 2 ^ 64 - 1
      → IsMap F web × IsStation (st.station)
      → let r = acars_parse_fallback F env web beams st m in IsMap F r.1 × IsStation ((r.2).station)
  unfolding acars_parse_fallback
  acars_parse_fallback-IsSound env web beams st m h s =
      elim (Option-cases (check_message m.bytes)) [
        | inl e ↦ rw (acars_parse_fallback, e) s
        | inr (k, e) ↦ rw (acars_parse_fallback, e) (deliver-IsSound env web beams _ m k h s)
      ]

  -- A message in which an error was found changes neither the map nor the station, and no line of
  -- BaseStation leaves: it is counted once as a message and once as one with errors, and no other counter
  -- changes, while both counters are below the largest `int`.
  pub acars_parse_fallback-errors :
      (env : Env F) (web : WebMap.State F) (beams : BeamCache F) (st : State F)
      (m : Message F.Double) (k : Checked)
      → (st.stats).acars_total < 2 ^ 31 - 1
      → (st.stats).acars_errors < 2 ^ 31 - 1
      → check_message m.bytes ≡ some k
      → 0 < k.errors
      → let r = acars_parse_fallback F env web beams st m in
        (r.1 ≡ web)
        × ((r.2).station ≡ st.station)
        × ((r.2).stats ≡ record st.stats {
          acars_total = (st.stats).acars_total + 1;
          acars_errors = (st.stats).acars_errors + 1;
        })
        × ((r.0).line ≡ none)
  unfolding acars_parse_fallback deliver count_message
  acars_parse_fallback-errors env web beams st m k below few e h =
      let total : inc32 (st.stats).acars_total ≡ (st.stats).acars_total + 1 =
        omega (arith, below) in
      let errors : inc32 (st.stats).acars_errors ≡ (st.stats).acars_errors + 1 =
        omega (arith, few) in
      let bad : (k.errors == 0) ≡ false = ground arith in
      let counted : ltb 0 k.errors ≡ true = ground arith in
      elim (Bool-cases (env.acars_json || env.udp)) [
        | inl j ↦
            rw (acars_parse_fallback, e, deliver, bad, count_message, counted, total, errors, j)
              (refl, refl, refl, refl)
        | inr j ↦ elim (Bool-cases env.web_enabled) [
          | inl w ↦
              rw
                (acars_parse_fallback, e, deliver, bad, count_message, counted, total, errors, j, w)
                (refl, refl, refl, refl)
          | inr w ↦
              rw
                (acars_parse_fallback, e, deliver, bad, count_message, counted, total, errors, j, w)
                (refl, refl, refl, refl)
        ]
      ]
