-- ===== src/WebMap/Reachable.antt =====
-- web_map.c: any sequence of updates, in the order in which they get the lock.
use iridium_sniffer.Base.{
  ℕ, ◌-◌, ◌^◌, ◌<◌, [], Option, none, Bool, Bool-cases, Option-cases, inr, ltb, drop, length,
  length-replicate, replicate, inl, refl, arith,
}
use iridium_sniffer.Base.Int.{pos}
use iridium_sniffer.Base.Doubles.{Doubles}
use iridium_sniffer.Frame.{Ira, Ibc}
use iridium_sniffer.Ida.Reassembly.{Message}
use iridium_sniffer.Circular.{Circular}
use iridium_sniffer.WebMap.{State, Point, int}
use iridium_sniffer.Base.Text.{Chars}
use iridium_sniffer.WebMap.Update.{
  web_map_add_ra, web_map_add_sat, web_map_add_acars_message, web_map_set_position,
}
use iridium_sniffer.WebMap.Aircraft.{Report, web_map_add_aircraft}
use iridium_sniffer.WebMap.Position.{mtpos_ida_cb, place_in, mtpos_xyz}
use iridium_sniffer.WebMap.Valid.{
  IsMap, IsRing, web_map_add_ra-IsMap, web_map_add_sat-IsMap, web_map_add_mt-IsMap,
  web_map_add_acars_message-IsMap, web_map_set_position-IsMap,
}
use iridium_sniffer.WebMap.Fleet.{web_map_add_aircraft-IsMap}

module _ (F : Doubles) where
  open F use {Double}

  -- The state before the first update: the cells are not in use.
  abbrev pub empty_ring {ℓ} : {A : Type ℓ} → ℕ → A → Circular A
  empty_ring n a = record { cells = replicate n a; head = 0; count = 0 }

  abbrev pub no_point : Point F
  no_point = record {
    lat = int F 0;
    lon = int F 0;
    alt = pos 0;
    sat_id = 0;
    beam_id = 0;
    n_pages = 0;
    tmsi = 0;
    frequency = int F 0;
    timestamp = 0;
  }

  abbrev pub start : State F
  start = record {
    ra = empty_ring 2000 no_point;
    beams = empty_ring 2000 no_point;
    mt = empty_ring 500 (record {
      lat = int F 0;
      lon = int F 0;
      alt = pos 0;
      msg_type = 0;
      timestamp = 0;
      frequency = int F 0;
    });
    sats = [];
    aircraft = [];
    acars =
        empty_ring 100
          (record { reg = []; flight = []; label = []; text = []; ul = Bool.false; timestamp = 0 });
    totals = record {
      ira = 0;
      ibc = 0;
      pages = 0;
      beams = 0;
      mt = 0;
      aircraft = 0;
      acars_msgs = 0;
    };
    rx = none;
    intact = Bool.true;
  }

  -- One call of one of the functions; an aircraft is not reported at the last time of `uint64_t`.
  pub data IsUpdate : State F → State F → Type 0 where
    ra :
        (st : State F) (ira : Ira F) (t : ℕ) (f : Double)
        → IsUpdate st (web_map_add_ra F st ira t f)
    sat : (st : State F) (ibc : Ibc) (t : ℕ) → IsUpdate st (web_map_add_sat F st ibc t)
    mt : (st : State F) (m : Message F) → IsUpdate st (mtpos_ida_cb F st m)
    aircraft :
        (st : State F) (r : Report F)
        → r.timestamp_ns < 2 ^ 64 - 1
        → IsUpdate st (web_map_add_aircraft F st r)
    acars :
        (st : State F) (reg : Chars) (flight : Option Chars) (label text : Chars) (ul : Bool)
        (t : ℕ)
        → IsUpdate st (web_map_add_acars_message F st reg flight label text ul t)
    position :
        (st : State F) (lat lon hdop : Double)
        → IsUpdate st (web_map_set_position F st lat lon hdop)

  -- The states that updates lead to.
  pub data IsReachable : State F → Type 0 where
    begin : IsReachable start
    update : (st st' : State F) → IsReachable st → IsUpdate st st' → IsReachable st'

  pub mtpos_ida_cb-IsMap :
      (st : State F) (m : Message F) → IsMap F st → IsMap F (mtpos_ida_cb F st m)
  unfolding mtpos_ida_cb
  mtpos_ida_cb-IsMap st m v = elim (Bool-cases (ltb (length m.bytes) 5)) [
    | inl e ↦ rw (e) v
    | inr e ↦ rw (e) (elim (Option-cases (place_in F m.bytes m.direction)) [
      | inl n ↦ rw (n) v
      | inr (p, s) ↦ rw (s) (elim (Option-cases (mtpos_xyz F (drop p.0 m.bytes) p.1)) [
        | inl n ↦ rw (n) v
        | inr (place, t) ↦ rw (t) (web_map_add_mt-IsMap F st _ _ _ _ _ _ v)
      ])
    ])
  ]

  empty-IsRing {ℓ} : {A : Type ℓ} (n : ℕ) (a : A) → 0 < n → IsRing n (empty_ring n a)
  empty-IsRing n a h = record {
    cells = length-replicate n a;
    filled = record {
      room = omega (arith, length-replicate n a);
      filling = inl (refl, omega (arith, length-replicate n a));
    };
  }

  update-IsMap : (st st' : State F) → IsUpdate st st' → IsMap F st → IsMap F st'
  update-IsMap _ _ (ra st ira t f) m = web_map_add_ra-IsMap F st ira t f m
  update-IsMap _ _ (sat st ibc t) m = web_map_add_sat-IsMap F st ibc t m
  update-IsMap _ _ (mt st x) m = mtpos_ida_cb-IsMap st x m
  update-IsMap _ _ (aircraft st r h) m = web_map_add_aircraft-IsMap F st r h m
  update-IsMap _ _ (acars st reg flight label text ul t) m =
      web_map_add_acars_message-IsMap F st reg flight label text ul t m
  update-IsMap _ _ (position st lat lon hdop) m = web_map_set_position-IsMap F st lat lon hdop m

  -- Whatever updates come in whatever order, if no aircraft is reported at the time 2 ^ 64 - 1, nothing is
  -- written outside of an array, and the state stays within them: 2000 ring alerts, 2000 beams, 500
  -- terminals and 100 messages in circular buffers, at most 100 satellites and 32 aircraft, with at
  -- most 8 positions each.
  pub IsReachable-IsMap : (st : State F) → IsReachable st → IsMap F st
  IsReachable-IsMap _ begin = record {
    ra = empty-IsRing 2000 _ (omega arith);
    beams = empty-IsRing 2000 _ (omega arith);
    mt = empty-IsRing 500 _ (omega arith);
    acars = empty-IsRing 100 _ (omega arith);
    sats = omega arith;
    aircraft = omega arith;
    fixes = tt;
    intact = refl;
    seen = tt;
  }
  IsReachable-IsMap _ (update st st' r u) = update-IsMap st st' u (IsReachable-IsMap st r)
