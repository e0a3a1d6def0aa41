-- ===== src/BaseStation.antt =====
-- basestation.c: the positions that are sent to tracking tools. The line of text is kept as its
-- fields; sockets are file descriptors, and which of them `write` fails on is an argument.
pub mod Oldest
pub mod Tracks
pub mod Clients
use iridium_sniffer.Base.{
  ℕ, zero, suc, ◌+◌, ◌-◌, ◌^◌, List, [], ◌∷◌, ◌++◌, Option, none, some, Bool, true, false, ◌&&◌,
  ◌||◌, not, length, get_elem?, get_or, set, take, ltb, ◌==◌, if◌then◌else◌, sub64,
}
use iridium_sniffer.Base.Int.{ℤ, pos, negsuc, ltb_ℤ}
use iridium_sniffer.Base.Text.{Chars, same_chars}
use iridium_sniffer.Base.Doubles.{Doubles}

abbrev pub bs_track_max : ℕ
bs_track_max = 64

-- The clients after a line, and those that it was written to: the loop from `i` on, in `fuel` rounds,
-- up to the first client that is gone. The last one takes its place; a remote host is dropped.
unfoldable pub write_from : (ℕ → Bool) → Bool → ℕ → ℕ → List ℕ → List ℕ × List ℕ
write_from gone client_mode zero i clients = (clients, [])
write_from gone client_mode (suc fuel) i clients = elim (get_elem? clients i) [
  | none ↦ (clients, [])
  | some fd ↦
      let (after, reached) = write_from gone client_mode fuel (suc i) clients in
      let last = length clients - 1 in
      if gone fd
      then (if client_mode then [] else take last (set clients i (get_or clients last 0)), [])
      else (after, fd ∷ reached)
]

unfoldable pub write_all : (ℕ → Bool) → Bool → List ℕ → List ℕ × List ℕ
write_all gone client_mode clients = write_from gone client_mode (length clients) 0 clients

-- A new connection; none for one that is closed at once.
unfoldable pub accept_client : List ℕ → ℕ → Option (List ℕ)
accept_client clients fd = if ltb (length clients) 16 then some (clients ++ (fd ∷ [])) else none

module _ (F : Doubles) where
  open F use {Double, of_int, add, sub, mul, div, sqrt, atan2, sin, cos, fmod, lt, pi, decimal}

  abbrev int : ℕ → Double
  int n = of_int (pos n)

  -- `bs_track_t`
  pub record Track : Type 0 where
    pub hex : Chars
    pub lat : Double
    pub lon : Double
    pub timestamp_ns : ℕ

  unfoldable pub bs_distance_nm : Double → Double → Double → Double → Double
  bs_distance_nm lat1 lon1 lat2 lon2 =
      let d2r = div pi (int 180) in
      let half_dlat = div (mul (sub lat2 lat1) d2r) (int 2) in
      let half_dlon = div (mul (sub lon2 lon1) d2r) (int 2) in
      let cosines = mul (cos (mul lat1 d2r)) (cos (mul lat2 d2r)) in
      let a =
        add (mul (sin half_dlat) (sin half_dlat))
          (mul (mul cosines (sin half_dlon)) (sin half_dlon)) in
      mul (mul (int 2) (atan2 (sqrt a) (sqrt (sub (int 1) a)))) (decimal 3_440_065 3)

  unfoldable pub bs_bearing : Double → Double → Double → Double → Double
  bs_bearing lat1 lon1 lat2 lon2 =
      let d2r = div pi (int 180) in
      let dlon = mul (sub lon2 lon1) d2r in
      let y = mul (sin dlon) (cos (mul lat2 d2r)) in
      let x =
        sub (mul (cos (mul lat1 d2r)) (sin (mul lat2 d2r)))
          (mul (mul (sin (mul lat1 d2r)) (cos (mul lat2 d2r))) (cos dlon)) in
      fmod (add (div (mul (atan2 y x) (int 180)) pi) (int 360)) (int 360)

  unfoldable pub find_track : List Track → Chars → ℕ → Option ℕ
  find_track [] hex i = none
  find_track (t ∷ tracks) hex i =
      let rest = find_track tracks hex (i + 1) in if same_chars t.hex hex then some i else rest

  -- The index of the oldest entry, from `i` on.
  unfoldable pub oldest_track : List Track → ℕ → ℕ → ℕ → ℕ
  oldest_track [] i idx oldest = idx
  oldest_track (t ∷ tracks) i idx oldest =
      let older = ltb t.timestamp_ns oldest in
      oldest_track tracks (i + 1) (if older then i else idx)
        (if older then t.timestamp_ns else oldest)

  -- Speed and heading from the fix before, none where the return is 0.
  unfoldable pub derive : Track → Double → Double → ℕ → Option (Double × Double)
  derive t lat lon timestamp_ns =
      let dt_sec = div (int (sub64 timestamp_ns t.timestamp_ns)) (int 1_000_000_000) in
      let dist = bs_distance_nm t.lat t.lon lat lon in
      let speed = div dist (div dt_sec (int 3600)) in
      if lt (int 10) dt_sec && lt dt_sec (int 7200) && lt (decimal 5 1) speed && lt speed (int 700)
      then some (speed, bs_bearing t.lat t.lon lat lon)
      else none

  unfoldable pub bs_derive_track :
      List Track → Chars → Double → Double → ℕ → Option (Double × Double) × List Track
  bs_derive_track tracks hex lat lon timestamp_ns =
      let entry : Chars → Track =
        λ h. record { hex = h; lat = lat; lon = lon; timestamp_ns = timestamp_ns } in
      elim (find_track tracks hex 0) [
        | some idx ↦
            let t = get_or tracks idx (entry hex) in
            (derive t lat lon timestamp_ns, set tracks idx (entry t.hex))
        | none ↦ (
          none,
          if ltb (length tracks) bs_track_max
              then tracks ++ (entry (take 6 hex) ∷ [])
              else set tracks (oldest_track tracks 0 0 (2 ^ 64 - 1)) (entry (take 6 hex)),
        )
      ]

  -- The fields of a line; an altitude and a track that are none are left empty.
  pub record Line : Type 0 where
    pub hex : Chars
    pub flight : Chars
    pub alt_ft : Option ℤ
    pub track : Option (Double × Double)
    pub lat : Double
    pub lon : Double

  -- What the module keeps.
  pub record State : Type 0 where
    pub active : Bool
    pub client_mode : Bool
    pub tracks : List Track
    pub clients : List ℕ

  -- A position: the line with the clients that get it, none where nothing is sent. `lookup` is
  -- `aircraft_db_lookup`.
  unfoldable pub basestation_send_position :
      (Chars → Option Chars)
      → (ℕ → Bool)
      → State
      → Chars
      → Chars
      → Double
      → Double
      → ℤ
      → ℕ
      → Option (Line × List ℕ) × State
  basestation_send_position lookup gone st reg flight lat lon alt_ft timestamp_ns =
      if not st.active || (length reg == 0) then (none, st) else elim (lookup reg) [
        | none ↦ (none, st)
        | some hex ↦
            let (track, tracks) = bs_derive_track st.tracks hex lat lon timestamp_ns in
            let (clients, reached) = write_all gone st.client_mode st.clients in
            let line : Line = record {
              hex = hex;
              flight = flight;
              alt_ft = if ltb_ℤ (negsuc 99_998) alt_ft then some alt_ft else none;
              track = track;
              lat = lat;
              lon = lon;
            } in
            (some (line, reached), record st { tracks = tracks; clients = clients })
      ]
