-- ===== src/Tests/Maps.antt =====
-- A map with one update, 32 aircraft, a message in the air, and the output thread's state.
use iridium_sniffer.Base.{
  ℕ, ◌-◌, ◌^◌, ◌<◌, zero, suc, ◌∷◌, List, [], none, some, true, false, ◌==◌, set, get_elem?,
  replicate, ◌≡◌, refl, arith,
}
use iridium_sniffer.Base.Int.{pos, negsuc}
use iridium_sniffer.Ida.Reassembly.Invariant.{IsContext}
use iridium_sniffer.BeamCache.{BeamCache, beam_of, beam_cache_add, beam_cache_lookup}
use iridium_sniffer.BeamCache.Newest.{beam_cache_add-lookup}
use iridium_sniffer.WebMap.{AircraftEntry}
use iridium_sniffer.WebMap.Update.{web_map_add_sat}
use iridium_sniffer.WebMap.Aircraft.{find_aircraft, place_aircraft, blank_entry}
use iridium_sniffer.WebMap.Evict.{AllSince, place_aircraft-oldest}
use iridium_sniffer.WebMap.Valid.{IsMap, AllSeen}
use iridium_sniffer.WebMap.Reachable.{start, IsUpdate, IsReachable, IsReachable-IsMap}
use iridium_sniffer.WebMap.Position.{raw_xyz}
use iridium_sniffer.WebMap.Position.Fields.{
  bytes5, bits12, signed, spare_behind, spare_in_front, raw_xyz-signed,
}
use iridium_sniffer.Acars.Deliver
use iridium_sniffer.Acars.Deliver.{Env}
use iridium_sniffer.Output.{Options, Item, World, output}
use iridium_sniffer.Output.Parts.{IsWorld}
use iridium_sniffer.Output.Whole.{output-IsWorld}
use iridium_sniffer.Tests.{hertz}
use iridium_sniffer.Tests.Bursts.{burst, free, free-AllFit, ida_frame}
use iridium_sniffer.Tests.Packets.{idle, free-AreBounded}
use iridium_sniffer.Tests.Satellites.{overhead, state, state-IsTable}
use iridium_sniffer.Frame.{Ibc}

abbrev satellite : Ibc
satellite = record {
  sat_id = 9;
  beam_id = 3;
  timeslot = 0;
  sv_blocking = 0;
  bc_type = 0;
  iri_time = 0;
}

IsReachable-IsMap_example : IsMap hertz (web_map_add_sat hertz (start hertz) satellite 5)
IsReachable-IsMap_example =
    IsReachable-IsMap hertz (web_map_add_sat hertz (start hertz) satellite 5) (
      IsReachable.update (start hertz) _ IsReachable.begin (IsUpdate.sat (start hertz) satellite 5))

replicate-AllSeen :
    (n : ℕ) (a : AircraftEntry hertz) → a.last_seen < 2 ^ 64 - 1 → AllSeen hertz (replicate n a)
replicate-AllSeen zero a h = tt
replicate-AllSeen (suc n) a h = (h, replicate-AllSeen n a h)

abbrev fleet : List (AircraftEntry hertz)
fleet = replicate 32 (record (blank_entry hertz (78 ∷ [])) { last_seen = 5 })

not_there : find_aircraft hertz fleet (65 ∷ []) 0 ≡ none
unfolding find_aircraft
not_there = refl

-- None of them was seen at the greatest time.
fleet-AllSeen : AllSeen hertz fleet
fleet-AllSeen =
    replicate-AllSeen 32 (record (blank_entry hertz (78 ∷ [])) { last_seen = 5 }) (omega arith)

place_aircraft-oldest_example :
    (i : ℕ) × (a : AircraftEntry hertz) × (get_elem? fleet i ≡ some a)
    × AllSince hertz a.last_seen fleet
    × (place_aircraft hertz fleet (65 ∷ []) ≡ (set fleet i (blank_entry hertz (65 ∷ [])), some i))
place_aircraft-oldest_example =
    place_aircraft-oldest hertz fleet (65 ∷ []) not_there (omega arith) fleet-AllSeen

raw_xyz-signed_example :
    (signed (raw_xyz (bytes5 (spare_behind 1000 (bits12 (negsuc 9)) 5 3)) 0)
      ≡ (pos 1000, negsuc 9, pos 5))
    × (signed (raw_xyz (bytes5 (spare_in_front 1000 (bits12 (negsuc 9)) 5 3)) 4)
        ≡ (pos 1000, negsuc 9, pos 5))
raw_xyz-signed_example =
    raw_xyz-signed (pos 1000) (negsuc 9) (pos 5) 3 (omega arith, omega arith)
      (omega arith, omega arith) (omega arith, omega arith) (omega arith)

abbrev pub cache : BeamCache hertz
cache = record { cells = replicate 64 (beam_of hertz (overhead 0) 0); head = 3; intact = true }

beam_cache_add-lookup_example :
    beam_cache_lookup hertz (beam_cache_add hertz cache (overhead 10) 50) 70
    ≡ some (beam_of hertz (overhead 10) 50)
beam_cache_add-lookup_example =
    beam_cache_add-lookup hertz cache (overhead 10) 50 70 refl (omega arith) (omega arith)
      (omega arith) (omega arith)

abbrev pub env : Env hertz
env = record {
  web_enabled = true;
  basestation_enabled = true;
  basestation_beam = true;
  feeds = true;
  acars_json = false;
  udp = false;
  strtod = λ s. none;
  aircraft = λ reg. some (b'A' ∷ (b'1' ∷ []));
  waypoint = λ ident. none;
  gone = λ fd. fd == 4;
}

abbrev options : Options hertz
options = record { position_enabled = true; gsmtap_enabled = true; acars_enabled = true; env = env }

abbrev pub parser : Deliver.State hertz
parser = record {
  stats = record { acars_total = 0; acars_errors = 0; pos_text = 0; pos_beam = 0; bs_sent = 0 };
  station = record { active = true; client_mode = false; tracks = []; clients = 3 ∷ (4 ∷ []) };
}

abbrev world : World hertz
world = record {
  web = start hertz;
  doppler = state;
  beams = cache;
  ida_ctx = replicate 16 free;
  acars_ida_ctx = replicate 16 free;
  mtpos_ida_ctx = replicate 16 free;
  sbd = idle;
  acars = parser;
  stat_ida_total = 0;
}

slots-IsContext : IsContext hertz (replicate 16 free)
slots-IsContext = record { count = refl; fits = free-AllFit 16 }

abbrev item : Item hertz
item = record { demod = ida_frame; burst = some (burst 0 0) }

output-IsWorld_example : IsWorld hertz (output hertz options world item).1
output-IsWorld_example =
    output-IsWorld hertz options world item (omega arith) (omega arith) (omega arith) (record {
      web = IsReachable-IsMap hertz (start hertz) IsReachable.begin;
      doppler = state-IsTable;
      beams = record { count = refl; intact = refl };
      ida_ctx = slots-IsContext;
      acars_ida_ctx = slots-IsContext;
      mtpos_ida_ctx = slots-IsContext;
      sbd = record { eight = refl; bounded = free-AreBounded 8 };
      acars = record { tracks = omega arith; clients = omega arith };
    })
