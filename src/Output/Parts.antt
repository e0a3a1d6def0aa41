-- ===== src/Output/Parts.antt =====
-- main.c, `output_thread_fn`: the state behind the output thread, one call at a time.
use iridium_sniffer.Base.{
  ℕ, suc, ◌-◌, ◌^◌, ◌<◌, ◌≤◌, List, [], ◌∷◌, Option, none, some, Bool, true, false, length,
  length-set, if◌then◌else◌, Bool-cases, Option-cases, inl, inr, ◌≡◌, refl, ap, ◌∙◌, arith,
}
use iridium_sniffer.Base.Doubles.{Doubles}
use iridium_sniffer.Frame.{Ira}
use iridium_sniffer.Frame.Decode.{Payload, DecodedFrame}
use iridium_sniffer.Ida.Decode.{Burst}
use iridium_sniffer.Ida.Reassembly.{Slot, Message, ida_reassemble, ida_reassemble_flush, expire}
use iridium_sniffer.Ida.Reassembly.Invariant
use iridium_sniffer.Ida.Reassembly.Invariant.{AllFit, ida_reassemble-IsContext}
use iridium_sniffer.Sbd.Bounded
use iridium_sniffer.BeamCache.{BeamCache, beam_cache_add}
use iridium_sniffer.BeamCache.Newest.{beam_cache_add-small}
use iridium_sniffer.Output.Times.{ida_reassemble-IsOfBurst}
use iridium_sniffer.Doppler.Table.{IsTable}
use iridium_sniffer.Doppler.Keeps.{doppler_pos_add_measurement-IsTable}
use iridium_sniffer.Doppler
use iridium_sniffer.WebMap.Update.{on_ground, web_map_add_ra, web_map_add_sat}
use iridium_sniffer.WebMap.Valid.{IsMap, web_map_add_ra-IsMap, web_map_add_sat-IsMap}
use iridium_sniffer.Acars.Safe.{IsStation}
use iridium_sniffer.Output.{Options, Item, World, show_frame, reassemble}

module _ (F : Doubles) where
  expire-bytes : (now : ℕ) (s : Slot F) → (expire F now s).bytes ≡ s.bytes
  expire-bytes now s = unfold expire in ground arith

  flush-fits :
      (slots : List (Slot F)) (now : ℕ)
      → AllFit F slots
      → AllFit F (ida_reassemble_flush F slots now)
  unfolding ida_reassemble_flush
  flush-fits [] now f = tt
  flush-fits (s ∷ slots) now f = (rw (expire-bytes now s) f.0, flush-fits slots now f.1)

  flush-length :
      (slots : List (Slot F)) (now : ℕ) → length (ida_reassemble_flush F slots now) ≡ length slots
  unfolding ida_reassemble_flush
  flush-length [] now = refl
  flush-length (s ∷ slots) now = ap suc (flush-length slots now)

  flush-IsContext :
      (slots : List (Slot F)) (now : ℕ)
      → Invariant.IsContext F slots
      → Invariant.IsContext F (ida_reassemble_flush F slots now)
  flush-IsContext slots now c = record {
    count = flush-length slots now ∙ c.count;
    fits = flush-fits slots now c.fits;
  }

  -- The burst of an item has at most 20 bytes.
  abbrev pub IsShort : Option (Burst F) → Type 0
  IsShort none = Unit {0}
  IsShort (some b) = b.da_len ≤ 20

  pub reassemble-IsContext :
      (ctx : List (Slot F)) (item : Item F)
      → IsShort item.burst
      → Invariant.IsContext F ctx
      → Invariant.IsContext F (reassemble F ctx item).1
  unfolding reassemble
  reassemble-IsContext ctx item s c = elim (Option-cases item.burst) [
    | inl e ↦ rw (reassemble, e) (flush-IsContext ctx item.demod.timestamp c)
    | inr (b, e) ↦
        let short : b.da_len ≤ 20 = rw (e) at s in
        rw (reassemble, e)
          (flush-IsContext _ item.demod.timestamp
            (ida_reassemble-IsContext F ctx b c (omega arith)).0)
  ]

  -- The time of the burst of an item is below UINT64_MAX, which marks that no time was found yet.
  abbrev pub IsTimed : Option (Burst F) → Type 0
  IsTimed none = Unit {0}
  IsTimed (some b) = b.timestamp < 2 ^ 64 - 1

  pub reassemble-timed :
      (ctx : List (Slot F)) (item : Item F) (m : Message F)
      → IsTimed item.burst
      → (reassemble F ctx item).0 ≡ some m
      → m.timestamp < 2 ^ 64 - 1
  unfolding reassemble
  reassemble-timed ctx item m h e = elim (Option-cases item.burst) [
    | inl n ↦ (let q = rw (n, reassemble) at e in absurd (cc q))
    | inr (b, n) ↦
        let early : b.timestamp < 2 ^ 64 - 1 = rw (n) at h in
        let q : (ida_reassemble F ctx b).0 ≡ some m = rw (n, reassemble) at e in
        let same : m.timestamp ≡ b.timestamp = rw (q) at (ida_reassemble-IsOfBurst F ctx b) in
        rw (same) early
  ]

  -- The cache has its 64 beams, and none was written in front of them.
  pub record IsCache (c : BeamCache F) : Type 0 where
    pub count : length c.cells ≡ 64
    pub intact : c.intact ≡ true

  beam_cache_add-IsCache :
      (c : BeamCache F) (ira : Ira F) (timestamp : ℕ)
      → c.head < 2 ^ 31
      → IsCache c
      → IsCache (beam_cache_add F c ira timestamp)
  beam_cache_add-IsCache c ira timestamp h v =
      rw (beam_cache_add-small F c ira timestamp h)
        (record { count = length-set c.cells _ _ ∙ v.count; intact = v.intact })

  -- Every part of the state within its bounds.
  pub record IsWorld (w : World F) : Type 0 where
    pub web : IsMap F (w.web)
    pub doppler : IsTable F ((w.doppler).satellites)
    pub beams : IsCache (w.beams)
    pub ida_ctx : Invariant.IsContext F w.ida_ctx
    pub acars_ida_ctx : Invariant.IsContext F w.acars_ida_ctx
    pub mtpos_ida_ctx : Invariant.IsContext F w.mtpos_ida_ctx
    pub sbd : Bounded.IsContext F.Double ((w.sbd).sbd_multi)
    pub acars : IsStation F ((w.acars).station)

  -- One of two, whatever the test.
  abbrev pub either :
      (P : World F → Type 0) (b : Bool) {s t : World F} → P s → P t → P (if b then s else t)
  either P true p q = p
  either P false p q = q

  shown_ira-IsWorld :
      (o : Options F) (w : World F) (ira : Ira F) (timestamp : ℕ) (frequency : F.Double)
      → (w.beams).head < 2 ^ 31
      → IsWorld w
      → IsWorld (record w {
        web = web_map_add_ra F (w.web) ira timestamp frequency;
        beams = if on_ground F ira then beam_cache_add F (w.beams) ira timestamp else w.beams;
      })
  shown_ira-IsWorld o w ira timestamp frequency h v = record {
    web = web_map_add_ra-IsMap F (w.web) ira timestamp frequency v.web;
    doppler = v.doppler;
    beams = elim (Bool-cases (on_ground F ira)) [
      | inl e ↦ rw (e) (beam_cache_add-IsCache (w.beams) ira timestamp h v.beams)
      | inr e ↦ rw (e) v.beams
    ];
    ida_ctx = v.ida_ctx;
    acars_ida_ctx = v.acars_ida_ctx;
    mtpos_ida_ctx = v.mtpos_ida_ctx;
    sbd = v.sbd;
    acars = v.acars;
  }

  positioned-IsWorld :
      (w : World F) (ira : Ira F) (timestamp : ℕ) (frequency : F.Double)
      → IsWorld w
      → IsWorld (record w {
        doppler = Doppler.doppler_pos_add_measurement F (w.doppler) ira frequency timestamp;
      })
  positioned-IsWorld w ira timestamp frequency v = record {
    web = v.web;
    doppler = doppler_pos_add_measurement-IsTable F (w.doppler) ira frequency timestamp v.doppler;
    beams = v.beams;
    ida_ctx = v.ida_ctx;
    acars_ida_ctx = v.acars_ida_ctx;
    mtpos_ida_ctx = v.mtpos_ida_ctx;
    sbd = v.sbd;
    acars = v.acars;
  }

  pub show_frame-IsWorld :
      (o : Options F) (w : World F) (d : DecodedFrame F)
      → (w.beams).head < 2 ^ 31
      → IsWorld w
      → IsWorld (show_frame F o w d)
  unfolding show_frame
  show_frame-IsWorld o w d h v = by_payload d.payload
    where
      shown : Ira F → World F
      shown ira =
          if (o.env).web_enabled
          then record w {
            web = web_map_add_ra F (w.web) ira d.timestamp d.frequency;
            beams = if on_ground F ira then beam_cache_add F (w.beams) ira d.timestamp else w.beams;
          }
          else w

      by_payload :
          (p : Payload F)
          → IsWorld (elim p [
            | Payload.ira ira ↦
                let w' = shown ira in
                if o.position_enabled
                then record w' {
                  doppler =
                      Doppler.doppler_pos_add_measurement F
                        (w'.doppler)
                        ira
                        d.frequency
                        d.timestamp;
                }
                else w'
            | Payload.ibc ibc ↦
                if (o.env).web_enabled
                then record w { web = web_map_add_sat F (w.web) ibc d.timestamp }
                else w
            | Payload.unknown ↦ w
          ])
      by_payload (Payload.ira ira) =
          let s : IsWorld (shown ira) =
            either IsWorld (o.env).web_enabled
              (shown_ira-IsWorld o w ira d.timestamp d.frequency h v) v in
          either IsWorld o.position_enabled
            (positioned-IsWorld (shown ira) ira d.timestamp d.frequency s) s
      by_payload (Payload.ibc ibc) =
          either IsWorld (o.env).web_enabled
            (record {
              web = web_map_add_sat-IsMap F (w.web) ibc d.timestamp v.web;
              doppler = v.doppler;
              beams = v.beams;
              ida_ctx = v.ida_ctx;
              acars_ida_ctx = v.acars_ida_ctx;
              mtpos_ida_ctx = v.mtpos_ida_ctx;
              sbd = v.sbd;
              acars = v.acars;
            })
            v
      by_payload Payload.unknown = v
