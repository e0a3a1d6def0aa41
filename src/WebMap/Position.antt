-- ===== src/WebMap/Position.antt =====
-- web_map.c, `mtpos_xyz` and `mtpos_ida_cb`: the position in a reassembled message.
pub mod Fields
use iridium_sniffer.Base.{
  ℕ, ◌+◌, ◌-◌, ◌*◌, ◌/◌, ◌%◌, ◌^◌, List, [], ◌∷◌, Option, none, some, Bool, true, false, ◌&&◌, ◌||◌,
  not, length, get_or, drop, ltb, leb, ◌==◌, if◌then◌else◌,
}
use iridium_sniffer.Base.Int.{ℤ, pos, negsuc}
use iridium_sniffer.Base.Doubles.{Doubles}
use iridium_sniffer.Demod.{Direction}
use iridium_sniffer.Ida.Reassembly.{Message, same_direction}
use iridium_sniffer.WebMap.{State, int}
use iridium_sniffer.WebMap.Update.{web_map_add_mt}

-- `if (x > 0x7FF) x -= 0x1000;`
unfoldable pub sign12 : ℕ → ℤ
sign12 x = if ltb 0x7FF x then negsuc (0x1000 - x - 1) else pos x

-- Five bytes, the first one on top.
unfoldable pub join5 : List ℕ → ℕ
join5 bytes =
    get_or bytes 0 0 * 2 ^ 32
    + get_or bytes 1 0 * 2 ^ 24
    + get_or bytes 2 0 * 2 ^ 16
    + get_or bytes 3 0 * 2 ^ 8
    + get_or bytes 4 0

-- The three fields, before their signs; `skip` is 0 or 4.
unfoldable pub raw_xyz : List ℕ → ℕ → ℕ × ℕ × ℕ
raw_xyz bytes skip =
    let val = join5 bytes in
    let sb = 4 - skip in
    (val / 2 ^ (24 + sb) % 2 ^ 12, val / 2 ^ (12 + sb) % 2 ^ 12, val / 2 ^ sb % 2 ^ 12)

module _ (F : Doubles) where
  open F use {Double, of_int, to_int, add, sub, mul, div, sqrt, atan2, lt, pi}

  pub record Place : Type 0 where
    pub lat : Double
    pub lon : Double
    pub alt : ℤ

  -- None for the return of 0.
  unfoldable pub mtpos_xyz : List ℕ → ℕ → Option Place
  mtpos_xyz bytes skip =
      let (rx, ry, rz) = raw_xyz bytes skip in
      let x = of_int (sign12 rx) in
      let y = of_int (sign12 ry) in
      let z = of_int (sign12 rz) in
      let plane = add (mul x x) (mul y y) in
      let lat = div (mul (atan2 z (sqrt plane)) (int F 180)) pi in
      let radius_km = mul (sqrt (add plane (mul z z))) (int F 4) in
      if (rx == 0) && (ry == 0) && (rz == 0)
      then none
      else if lt lat (of_int (negsuc 89)) || lt (int F 90) lat
      then none
      else if lt radius_km (int F 5000) || lt (int F 7000) radius_km
      then none
      else some (record {
        lat = lat;
        lon = div (mul (atan2 y x) (int F 180)) pi;
        alt = to_int (sub radius_km (int F 6371));
      })

  -- The message type, and where in the message the five bytes start, by the type.
  unfoldable pub place_in : List ℕ → Direction → Option (ℕ × ℕ)
  place_in bytes direction =
      let at : ℕ → ℕ = λ i. get_or bytes i 0 in
      let msg_type = at 0 * 2 ^ 8 + at 1 in
      let len = length bytes in
      if msg_type == 0x0605
      then if leb 42 len && (at 36 == 0x1b) then some (37, 0) else none
      else if msg_type == 0x7605
      then if leb 8 len && (at 2 == 0) && (at 3 / 16 == 4) then some (3, 4) else none
      else if msg_type == 0x0600
      then if same_direction direction Direction.uplink
          && leb 24 len
          && ((at 2 == 0x10) || (at 2 == 0x40) || (at 2 == 0x70))
          && (at 18 == 1)
        then some (19, 0)
        else none
      else none

  unfoldable pub mtpos_ida_cb : State F → Message F → State F
  mtpos_ida_cb st m =
      let msg_type = get_or m.bytes 0 0 * 2 ^ 8 + get_or m.bytes 1 0 in
      if ltb (length m.bytes) 5 then st else elim (place_in m.bytes m.direction) [
        | none ↦ st
        | some (start, skip) ↦ elim (mtpos_xyz (drop start m.bytes) skip) [
          | none ↦ st
          | some p ↦ web_map_add_mt F st p.lat p.lon p.alt msg_type m.timestamp m.frequency
        ]
      ]
