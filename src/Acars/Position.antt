-- ===== src/Acars/Position.antt =====
-- sbd_acars.c: `acars_extract_text_position` and `acars_extract_waypoint_position`.
use iridium_sniffer.Base.{
  ℕ, zero, suc, ◌+◌, ◌-◌, ◌*◌, [], ◌∷◌, Option, none, some, Bool, true, ◌&&◌, ◌||◌, not, length,
  get_or, take, drop, ltb, leb, ◌==◌, if◌then◌else◌,
}
use iridium_sniffer.Base.Int.{pos, negsuc}
use iridium_sniffer.Base.Text.{
  Chars, codes, is_digit, is_upper, starts_with, strstr, skip, digits, after_digits,
}
use iridium_sniffer.Base.Doubles.{Doubles}

-- The labels whose text holds a position, but for flight plans.
abbrev pub same_label : Chars → ℕ → ℕ → Bool
same_label label a b = (get_or label 0 0 == a) && (get_or label 1 0 == b)

unfoldable pub label_ok : Chars → Chars → Bool
label_ok label text =
    (same_label label b'H' b'1'
      || same_label label b'2' b'0'
      || same_label label b'4' b'4'
      || same_label label b'4' b'J'
      || same_label label b'1' b'5'
      || same_label label b'S' b'A')
    && not (same_label label b'H' b'1' && starts_with (codes "FPN") text)

-- The number that digits spell behind `n`.
abbrev pub value_from : ℕ → Chars → ℕ
value_from n [] = n
value_from n (c ∷ s) = value_from (n * 10 + (c - b'0')) s

abbrev pub value : Chars → ℕ
value s = value_from 0 s

-- At most `n` digits, and what follows them.
unfoldable pub span : ℕ → Chars → Chars × Chars
span zero s = ([], s)
span (suc n) [] = ([], [])
span (suc n) (c ∷ s) =
    let (ds, rest) = span n s in if is_digit c then (c ∷ ds, rest) else ([], c ∷ s)

abbrev pub is_lat_dir : ℕ → Bool
is_lat_dir c = (c == b'N') || (c == b'S')

abbrev pub is_lon_dir : ℕ → Bool
is_lon_dir c = (c == b'E') || (c == b'W')

abbrev pub is_sep : ℕ → Bool
is_sep c = (c == b',') || (c == b' ') || (c == b'/')

-- `while (*scan && *scan != ',' ...) scan++;` and its opposite.
unfoldable pub to_sep : Chars → Chars
to_sep [] = []
to_sep (c ∷ s) = if is_sep c then c ∷ s else to_sep s

unfoldable pub past_seps : Chars → Chars
past_seps [] = []
past_seps (c ∷ s) = if is_sep c then past_seps s else c ∷ s

abbrev pub all_upper : Chars → Bool
all_upper [] = true
all_upper (c ∷ s) = is_upper c && all_upper s

-- Five capitals, and then the end of a token or of the text.
unfoldable pub is_token : Chars → Bool
is_token scan =
    let next = get_or scan 5 0 in
    leb 5 (length scan)
    && all_upper (take 5 scan)
    && (is_sep next || (next == 0) || (next == b'\r') || (next == b'\n'))

module _ (F : Doubles) where
  open F use {Double, of_int, add, mul, div, lt, eq}

  abbrev int : ℕ → Double
  int n = of_int (pos n)

  -- `x >= 0 && x <= top`
  abbrev pub in_range : Double → ℕ → Bool
  in_range x top = (lt (int 0) x || eq x (int 0)) && (lt x (int top) || eq x (int top))

  -- `(dir == minus) ? -x : x`
  abbrev pub signed : ℕ → ℕ → Double → Double
  signed dir minus x = if dir == minus then mul x (of_int (negsuc 0)) else x

  abbrev pub position : ℕ → Double → ℕ → Double → Double × Double
  position lat_dir la lon_dir lo = (signed lat_dir b'S' la, signed lon_dir b'W' lo)

  -- Format 1, behind "POS": [NS]ddddd[EW]dddddd in thousandths of a degree.
  unfoldable pub read_thousandths : Chars → Option (Double × Double)
  read_thousandths [] = none
  read_thousandths (lat_dir ∷ p) =
      let (lat_digits, p') = span 5 p in
      let (lon_digits, p'') = span 6 (drop 1 p') in
      let lon_dir = get_or p' 0 0 in
      let la = div (int (value lat_digits)) (int 1000) in
      let lo = div (int (value lon_digits)) (int 1000) in
      if is_lat_dir lat_dir
        && (length lat_digits == 5)
        && is_lon_dir lon_dir
        && (length lon_digits == 6)
        && in_range la 90
        && in_range lo 180
      then some (position lat_dir la lon_dir lo)
      else none

  unfoldable pub format1 : Chars → Option (Double × Double)
  format1 text = elim (strstr (codes "POS") text) [
    | none ↦ none
    | some p ↦ read_thousandths (drop 3 p)
  ]

  -- Format 2 at one place: [NS]ddmmm[EW]dddmmm with tenths of minutes.
  unfoldable pub read_minutes : ℕ → Chars → Option (Double × Double)
  read_minutes lat_dir s =
      let lat = digits s in
      let rest = after_digits s in
      let lon_dir = get_or rest 0 0 in
      let lon = digits (drop 1 rest) in
      let lat_deg = value (take 2 lat) in
      let lat_min10 = value (drop 2 lat) in
      let lon_deg = value (take 3 lon) in
      let lon_min10 = value (drop 3 lon) in
      if is_lat_dir lat_dir
        && (length lat == 5)
        && is_lon_dir lon_dir
        && (length lon == 6)
        && leb lat_deg 90
        && ltb lat_min10 600
        && leb lon_deg 180
        && ltb lon_min10 600
      then some (
          position lat_dir (add (int lat_deg) (div (int lat_min10) (int 600))) lon_dir
            (add (int lon_deg) (div (int lon_min10) (int 600))))
      else none

  -- The first place in the text where it is found.
  unfoldable pub format2 : Chars → Option (Double × Double)
  format2 [] = none
  format2 (c ∷ s) =
      let later = format2 s in elim (read_minutes c s) [ none ↦ later | some p ↦ some p ]

  -- `strtod`: the number and what follows it, none where there is none.
  module _ (strtod : Chars → Option (Double × Chars)) where
    -- A direction, a number up to `top`, and the text behind; spaces may stand around the direction.
    unfoldable pub read_degrees : (ℕ → Bool) → ℕ → Chars → Option (ℕ × Double × Chars)
    read_degrees is_dir top p = elim (skip b' ' p) [
      | [] ↦ none
      | dir ∷ rest ↦ elim (strtod (skip b' ' rest)) [
        | none ↦ none
        | some (x, end) ↦ if is_dir dir && in_range x top then some (dir, x, end) else none
      ]
    ]

    -- Format 3: LAT [NS] dd.ddd, and later LON [EW] ddd.ddd.
    unfoldable pub format3 : Chars → Option (Double × Double)
    format3 text = elim (strstr (codes "LAT") text) [
      | none ↦ none
      | some p ↦ elim (read_degrees is_lat_dir 90 (drop 3 p)) [
        | none ↦ none
        | some (lat_dir, la, end) ↦ elim (strstr (codes "LON") end) [
          | none ↦ none
          | some lp ↦ elim (read_degrees is_lon_dir 180 (drop 3 lp)) [
            | none ↦ none
            | some (lon_dir, lo, end') ↦ some (position lat_dir la lon_dir lo)
          ]
        ]
      ]
    ]

    -- None for the return of 0.
    unfoldable pub acars_extract_text_position : Chars → Chars → Option (Double × Double)
    acars_extract_text_position label text =
        if (length text == 0) || not (label_ok label text) then none else elim (format1 text) [
          | some p ↦ some p
          | none ↦ elim (format2 text) [ some p ↦ some p | none ↦ format3 text ]
        ]

  -- `waypoint_db_lookup`
  module _ (lookup : Chars → Option (Double × Double)) where
    -- The loop over the tokens, in at most `fuel` rounds.
    unfoldable pub scan_tokens : ℕ → Chars → Option (Double × Double)
    scan_tokens zero scan = none
    scan_tokens (suc fuel) [] = none
    scan_tokens (suc fuel) (c ∷ s) =
        let scan = past_seps (to_sep (c ∷ s)) in
        let later = scan_tokens fuel (to_sep scan) in
        elim (if is_token scan then lookup (take 5 scan) else none) [
          | some p ↦ some p
          | none ↦ later
        ]

    unfoldable pub acars_extract_waypoint_position : Chars → Chars → Option (Double × Double)
    acars_extract_waypoint_position label text =
        if (length text == 0) || not (label_ok label text)
        then none
        else scan_tokens (length text)
            (if starts_with (codes "POS") text then drop 3 text else text)
