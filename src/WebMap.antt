-- ===== src/WebMap.antt =====
-- web_map.c: the state that the map shows.
pub mod Update
pub mod Aircraft
pub mod Position
pub mod Valid
pub mod Reachable
pub mod Evict
pub mod Fleet
use iridium_sniffer.Base.{
  ℕ, zero, suc, ◌+◌, ◌-◌, ◌%◌, ◌/◌, ◌^◌, ◌*◌, List, [], ◌∷◌, ◌++◌, Option, none, some, Bool, true,
  false, ◌&&◌, ◌||◌, not, length, get_elem?, set, take, replicate, ltb, leb, ◌==◌, if◌then◌else◌,
  inc64,
}
use iridium_sniffer.Base.Int.{ℤ, pos, negsuc, ltb_ℤ}
use iridium_sniffer.Base.Text.{Chars}
use iridium_sniffer.Base.Doubles.{Doubles}
use iridium_sniffer.Frame.{Page, Ira, Ibc}
use iridium_sniffer.Circular.{Circular, size, push}

module _ (F : Doubles) where
  open F use {Double, of_int, sub, fabs, lt, eq, decimal}

  -- `ra_point_t` and `beam_point_t`, which have the same fields.
  pub record Point : Type 0 where
    pub lat : Double
    pub lon : Double
    pub alt : ℤ
    pub sat_id : ℕ
    pub beam_id : ℕ
    pub n_pages : ℕ
    pub tmsi : ℕ
    pub frequency : Double
    pub timestamp : ℕ

  pub record MtPoint : Type 0 where
    pub lat : Double
    pub lon : Double
    pub alt : ℤ
    pub msg_type : ℕ
    pub timestamp : ℕ
    pub frequency : Double

  pub record SatEntry : Type 0 where
    pub sat_id : ℕ
    pub beam_id : ℕ
    pub last_seen : ℕ
    pub count : ℕ

  pub record Fix : Type 0 where
    pub lat : Double
    pub lon : Double
    pub t : ℕ
    pub alt : ℤ
    pub adsc : Bool

  -- `aircraft_entry_t`; the five arrays of fixes are one list.
  pub record AircraftEntry : Type 0 where
    pub reg : Chars
    pub flight : Chars
    pub oooi : Chars
    pub sat_id : ℕ
    pub beam_id : ℕ
    pub fixes : List Fix
    pub frequency : Double
    pub last_seen : ℕ

  pub record AcarsMsg : Type 0 where
    pub reg : Chars
    pub flight : Chars
    pub label : Chars
    pub text : Chars
    pub ul : Bool
    pub timestamp : ℕ

  pub record Totals : Type 0 where
    pub ira : ℕ
    pub ibc : ℕ
    pub pages : ℕ
    pub beams : ℕ
    pub mt : ℕ
    pub aircraft : ℕ
    pub acars_msgs : ℕ

  pub record Receiver : Type 0 where
    pub lat : Double
    pub lon : Double
    pub hdop : Double

  -- `intact` is false once an update wrote outside of an array: nothing is said of the state from then.
  pub record State : Type 0 where
    pub ra : Circular Point
    pub beams : Circular Point
    pub mt : Circular MtPoint
    pub sats : List SatEntry
    pub aircraft : List AircraftEntry
    pub acars : Circular AcarsMsg
    pub totals : Totals
    pub rx : Option Receiver
    pub intact : Bool

  abbrev pub int : ℕ → Double
  int n = of_int (pos n)
