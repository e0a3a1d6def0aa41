-- ===== src/Output/Whole.antt =====
-- main.c, `output_thread_fn`: all state behind the output thread, item after item.
use iridium_sniffer.Base.{
  ◌+◌, ◌-◌, ◌^◌, ◌<◌, ◌≡◌, arith, inc32, ◌&&◌, ◌||◌, Option, Bool-cases, Option-cases, inl, inr,
}
use iridium_sniffer.Base.Doubles.{Doubles}
use iridium_sniffer.Frame.Decode.{frame_decode}
use iridium_sniffer.Ida.Reassembly.{Message, same_direction}
use iridium_sniffer.Sbd
use iridium_sniffer.Demod.{Direction}
use iridium_sniffer.Acars.Safe.{acars_parse_fallback-IsSound}
use iridium_sniffer.WebMap.Reachable.{mtpos_ida_cb-IsMap}
use iridium_sniffer.Output.{
  Options, Item, World, reassemble, to_gsmtap, pass_on, acars_ida_cb, to_acars, to_mtpos, output,
}
use iridium_sniffer.Output.Times.{sbd_extract-HasTime}
use iridium_sniffer.Sbd.Bounded.{sbd_extract-IsContext}
use iridium_sniffer.Output.Parts.{
  IsShort, IsTimed, IsWorld, either, show_frame-IsWorld, reassemble-IsContext, reassemble-timed,
}

module _ (F : Doubles) where
  to_gsmtap-IsWorld :
      (o : Options F) (w : World F) (item : Item F)
      → IsShort F item.burst
      → IsWorld F w
      → IsWorld F (to_gsmtap F o w item).1
  unfolding to_gsmtap
  to_gsmtap-IsWorld o w item s v = elim (Bool-cases o.gsmtap_enabled) [
    | inl e ↦ rw (e) (record {
      web = v.web;
      doppler = v.doppler;
      beams = v.beams;
      ida_ctx = reassemble-IsContext F w.ida_ctx item s v.ida_ctx;
      acars_ida_ctx = v.acars_ida_ctx;
      mtpos_ida_ctx = v.mtpos_ida_ctx;
      sbd = v.sbd;
      acars = v.acars;
    })
    | inr e ↦ rw (e) v
  ]

  pass_on-IsWorld :
      (o : Options F) (w : World F) (m : Sbd.Message F.Double) (out : Sbd.Output F.Double)
      → m.timestamp < 2 ^ 64 - 1
      → IsWorld F w
      → IsWorld F (pass_on F o w m out).1
  unfolding pass_on
  pass_on-IsWorld o w m (Sbd.Output.acars x) h v =
      let (web, acars) =
        acars_parse_fallback-IsSound F o.env (w.web) (w.beams) (w.acars) m h (v.web, v.acars) in
      record {
        web = web;
        doppler = v.doppler;
        beams = v.beams;
        ida_ctx = v.ida_ctx;
        acars_ida_ctx = v.acars_ida_ctx;
        mtpos_ida_ctx = v.mtpos_ida_ctx;
        sbd = v.sbd;
        acars = acars;
      }
  pass_on-IsWorld o w m (Sbd.Output.raw x) h v = v
  pass_on-IsWorld o w m Sbd.Output.nothing h v = v

  acars_ida_cb-IsWorld :
      (o : Options F) (w : World F) (m : Message F)
      → m.timestamp < 2 ^ 64 - 1
      → IsWorld F w
      → IsWorld F (acars_ida_cb F o w m).1
  unfolding acars_ida_cb
  acars_ida_cb-IsWorld o w m h v = elim (Option-cases extracted.0) [
    | inl e ↦ rw (acars_ida_cb, e) counted
    | inr (x, e) ↦
        let same : x.timestamp ≡ m.timestamp = rw (e) at (
          sbd_extract-HasTime F.Double (w.sbd) m.bytes (same_direction m.direction Direction.uplink)
            m.timestamp m.frequency m.magnitude) in
        rw (acars_ida_cb, e)
          (pass_on-IsWorld o _ x (Sbd.sbd_process F.Double x) (rw (same) h) counted)
  ]
    where
      extracted : Option (Sbd.Message F.Double) × Sbd.State F.Double
      extracted =
          Sbd.sbd_extract F.Double (w.sbd) m.bytes (same_direction m.direction Direction.uplink)
            m.timestamp m.frequency m.magnitude

      counted : IsWorld F (record w { sbd = extracted.1; stat_ida_total = inc32 w.stat_ida_total })
      counted = record {
        web = v.web;
        doppler = v.doppler;
        beams = v.beams;
        ida_ctx = v.ida_ctx;
        acars_ida_ctx = v.acars_ida_ctx;
        mtpos_ida_ctx = v.mtpos_ida_ctx;
        sbd =
            sbd_extract-IsContext F.Double (w.sbd) m.bytes _ m.timestamp m.frequency m.magnitude
              v.sbd;
        acars = v.acars;
      }

  to_acars-IsWorld :
      (o : Options F) (w : World F) (item : Item F)
      → IsShort F item.burst
      → IsTimed F item.burst
      → IsWorld F w
      → IsWorld F (to_acars F o w item).1
  unfolding to_acars
  to_acars-IsWorld o w item s early v =
      let (m, ctx) = reassemble F w.acars_ida_ctx item in
      let next : IsWorld F (record w { acars_ida_ctx = ctx }) = record {
        web = v.web;
        doppler = v.doppler;
        beams = v.beams;
        ida_ctx = v.ida_ctx;
        acars_ida_ctx = reassemble-IsContext F w.acars_ida_ctx item s v.acars_ida_ctx;
        mtpos_ida_ctx = v.mtpos_ida_ctx;
        sbd = v.sbd;
        acars = v.acars;
      } in
      elim (Bool-cases o.acars_enabled) [
        | inl e ↦ elim (Option-cases m) [
          | inl n ↦ rw (e, n) next
          | inr (x, t) ↦
              rw (e, t)
                (acars_ida_cb-IsWorld o _ x (reassemble-timed F w.acars_ida_ctx item x early t)
                  next)
        ]
        | inr e ↦ rw (e) v
      ]

  to_mtpos-IsWorld :
      (o : Options F) (w : World F) (item : Item F)
      → IsShort F item.burst
      → IsWorld F w
      → IsWorld F (to_mtpos F o w item)
  unfolding to_mtpos
  to_mtpos-IsWorld o w item s v =
      let (m, ctx) = reassemble F w.mtpos_ida_ctx item in
      let next : IsWorld F (record w { mtpos_ida_ctx = ctx }) = record {
        web = v.web;
        doppler = v.doppler;
        beams = v.beams;
        ida_ctx = v.ida_ctx;
        acars_ida_ctx = v.acars_ida_ctx;
        mtpos_ida_ctx = reassemble-IsContext F w.mtpos_ida_ctx item s v.mtpos_ida_ctx;
        sbd = v.sbd;
        acars = v.acars;
      } in
      elim (Bool-cases (o.env).web_enabled) [
        | inl e ↦ elim (Option-cases m) [
          | inl n ↦ rw (e, n) next
          | inr (x, t) ↦
              rw (e, t)
                (record {
                  web = mtpos_ida_cb-IsMap F (w.web) x v.web;
                  doppler = next.doppler;
                  beams = next.beams;
                  ida_ctx = next.ida_ctx;
                  acars_ida_ctx = next.acars_ida_ctx;
                  mtpos_ida_ctx = next.mtpos_ida_ctx;
                  sbd = next.sbd;
                  acars = next.acars;
                })
        ]
        | inr e ↦ rw (e) v
      ]

  -- An item keeps all state behind the output thread within its bounds, whatever is enabled and
  -- whatever the frame holds: the map, the satellites of the Doppler positioning, the 64 cached beams,
  -- three contexts of 16 slots of at most 256 bytes, eight slots of SBD of at most 1024 bytes, and
  -- BaseStation with at most 64 fixes and 16 clients, and nothing is written outside of the arrays of the
  -- map and of the beam cache. The burst has at most 20 bytes and a time below 2 ^ 64 - 1, and fewer than
  -- 2 ^ 31 - 64 beams have been stored before, so that no index of the cache overflows its `int`.
  pub output-IsWorld :
      (o : Options F) (w : World F) (item : Item F)
      → IsShort F item.burst
      → IsTimed F item.burst
      → (w.beams).head + 64 < 2 ^ 31
      → IsWorld F w
      → IsWorld F (output F o w item).1
  unfolding output
  output-IsWorld o w item s early h v =
      let (found, decoded) = frame_decode F item.demod in
      let shown =
        either F (IsWorld F) (((o.env).web_enabled || o.position_enabled) && found)
          (show_frame-IsWorld F o w decoded (omega (arith, h)) v) v in
      to_mtpos-IsWorld o _ item s
        (to_acars-IsWorld o _ item s early (to_gsmtap-IsWorld o _ item s shown))
