-- ===== src/Output.antt =====
-- main.c, `output_thread_fn`: one demodulated frame through the decoders that are enabled, to the map,
-- the Doppler positioning, the beam cache and the three reassemblers.
pub mod Times
pub mod Parts
pub mod Whole
use iridium_sniffer.Base.{
  ℕ, ◌+◌, List, [], ◌∷◌, Option, none, some, Bool, true, false, ◌&&◌, ◌||◌, if◌then◌else◌, inc32,
}
use iridium_sniffer.Base.Doubles.{Doubles}
use iridium_sniffer.Demod.{Direction, DemodFrame}
use iridium_sniffer.Frame.Decode.{Payload, DecodedFrame, frame_decode}
use iridium_sniffer.Ida.Decode.{Burst}
use iridium_sniffer.Ida.Reassembly.{
  Slot, Message, ida_reassemble, ida_reassemble_flush, same_direction,
}
use iridium_sniffer.Sbd
use iridium_sniffer.Gsmtap.{gsmtap_ida_cb}
use iridium_sniffer.BeamCache.{BeamCache, beam_cache_add}
use iridium_sniffer.Doppler
use iridium_sniffer.WebMap
use iridium_sniffer.Acars.Deliver
use iridium_sniffer.Acars.Deliver.{Env, Delivered, acars_parse_fallback}
use iridium_sniffer.WebMap.Update.{web_map_add_ra, web_map_add_sat, on_ground}
use iridium_sniffer.WebMap.Position.{mtpos_ida_cb}

module _ (F : Doubles) where
  open F use {Double}

  -- The options; `env` holds those that the ACARS parser reads too.
  pub record Options : Type 0 where
    pub position_enabled : Bool
    pub gsmtap_enabled : Bool
    pub acars_enabled : Bool
    pub env : Env F

  -- `output_item_t`; the burst is none where `ida_ok` is 0.
  pub record Item : Type 0 where
    pub demod : DemodFrame F
    pub burst : Option (Burst F)

  -- The three contexts of reassembly, and the state of the modules behind.
  pub record World : Type 0 where
    pub web : WebMap.State F
    pub doppler : Doppler.State F
    pub beams : BeamCache F
    pub ida_ctx : List (Slot F)
    pub acars_ida_ctx : List (Slot F)
    pub mtpos_ida_ctx : List (Slot F)
    pub sbd : Sbd.State Double
    pub acars : Deliver.State F
    pub stat_ida_total : ℕ

  -- What leaves the thread for one message of SBD: through the ACARS parser, or as it is.
  pub data Passed : Type 0 where
    parsed : Delivered F → Passed
    raw : Sbd.Message Double → Passed
    nothing : Passed

  -- What leaves the thread for one item: a datagram, and what becomes of a message of SBD.
  pub record Sent : Type 0 where
    pub gsmtap : Option (List ℕ)
    pub sbd : Passed

  unfoldable pub show_frame : Options → World → DecodedFrame F → World
  show_frame o w d = elim d.payload [
    | Payload.ira ira ↦
        let w' =
          if (o.env).web_enabled
          then record w {
            web = web_map_add_ra F (w.web) ira d.timestamp d.frequency;
            beams = if on_ground F ira then beam_cache_add F (w.beams) ira d.timestamp else w.beams;
          }
          else w in
        if o.position_enabled
        then record w' {
          doppler = Doppler.doppler_pos_add_measurement F (w'.doppler) ira d.frequency d.timestamp;
        }
        else w'
    | Payload.ibc ibc ↦
        if (o.env).web_enabled
        then record w { web = web_map_add_sat F (w.web) ibc d.timestamp }
        else w
    | Payload.unknown ↦ w
  ]

  -- `if (item->ida_ok) ida_reassemble(...); ida_reassemble_flush(...);`
  unfoldable pub reassemble : List (Slot F) → Item → Option (Message F) × List (Slot F)
  reassemble ctx item = elim item.burst [
    | none ↦ (none, ida_reassemble_flush F ctx item.demod.timestamp)
    | some b ↦
        let (m, ctx') = ida_reassemble F ctx b in
        (m, ida_reassemble_flush F ctx' item.demod.timestamp)
  ]

  unfoldable pub to_gsmtap : Options → World → Item → Option (List ℕ) × World
  to_gsmtap o w item =
      let (m, ctx) = reassemble w.ida_ctx item in
      if o.gsmtap_enabled
      then (elim m [ none ↦ none | some x ↦ gsmtap_ida_cb F true x ], record w { ida_ctx = ctx })
      else (none, w)

  -- The call of `sbd_process` for a whole message. The raw output prints nothing where ACARS is on.
  unfoldable pub pass_on : Options → World → Sbd.Message Double → Sbd.Output Double → Passed × World
  pass_on o w m (Sbd.Output.acars x) =
      let (out, web, acars) = acars_parse_fallback F o.env (w.web) (w.beams) (w.acars) m in
      (parsed out, record w { web = web; acars = acars })
  pass_on o w m (Sbd.Output.raw x) = (if o.acars_enabled then nothing else raw m, w)
  pass_on o w m Sbd.Output.nothing = (nothing, w)

  unfoldable pub acars_ida_cb : Options → World → Message F → Passed × World
  acars_ida_cb o w m =
      let (out, sbd) =
        Sbd.sbd_extract Double (w.sbd) m.bytes (same_direction m.direction Direction.uplink)
          m.timestamp m.frequency m.magnitude in
      let w' = record w { sbd = sbd; stat_ida_total = inc32 w.stat_ida_total } in
      elim out [ none ↦ (nothing, w') | some x ↦ pass_on o w' x (Sbd.sbd_process Double x) ]

  unfoldable pub to_acars : Options → World → Item → Passed × World
  to_acars o w item =
      let (m, ctx) = reassemble w.acars_ida_ctx item in
      let w' = record w { acars_ida_ctx = ctx } in
      if o.acars_enabled
      then elim m [ none ↦ (nothing, w') | some x ↦ acars_ida_cb o w' x ]
      else (nothing, w)

  unfoldable pub to_mtpos : Options → World → Item → World
  to_mtpos o w item =
      let (m, ctx) = reassemble w.mtpos_ida_ctx item in
      let w' = record w { mtpos_ida_ctx = ctx } in
      if (o.env).web_enabled
      then elim m [ none ↦ w' | some x ↦ record w' { web = mtpos_ida_cb F (w'.web) x } ]
      else w

  -- One item.
  unfoldable pub output : Options → World → Item → Sent × World
  output o w item =
      let (found, decoded) = frame_decode F item.demod in
      let w1 =
        if ((o.env).web_enabled || o.position_enabled) && found
        then show_frame o w decoded
        else w in
      let (datagram, w2) = to_gsmtap o w1 item in
      let (message, w3) = to_acars o w2 item in
      (record { gsmtap = datagram; sbd = message }, to_mtpos o w3 item)
