-- ===== src/WaypointDb.antt =====
-- waypoint_db.c: the database of waypoints, from identifiers to positions. A line is what `fgets`
-- gives; `atof`, `qsort` and `bsearch` are parameters.
use iridium_sniffer.Base.{
  List, [], ◌∷◌, Option, none, some, ◌||◌, length, take, ltb, ◌==◌, if◌then◌else◌, ◌&&◌,
}
use iridium_sniffer.Base.Text.{Chars, before, behind}
use iridium_sniffer.Base.Doubles.{Doubles}

-- `while (llen > 0 && (lon_s[llen-1] == '\n' || ...)) lon_s[--llen] = '\0';`
unfoldable pub strip_newlines : Chars → Chars
strip_newlines [] = []
strip_newlines (c ∷ s) =
    let rest = strip_newlines s in
    if (length rest == 0) && ((c == b'\n') || (c == b'\r')) then [] else c ∷ rest

module _ (F : Doubles) where
  open F use {Double}

  -- `wp_entry_t`
  pub record WpEntry : Type 0 where
    pub ident : Chars
    pub lat : Double
    pub lon : Double

  module _ (atof : Chars → Double) where
    -- A line "IDENT,LAT,LON", none where it is skipped.
    unfoldable pub read_line : Chars → Option WpEntry
    read_line line = elim (behind b',' line) [
      | none ↦ none
      | some rest ↦ elim (behind b',' rest) [
        | none ↦ none
        | some lon_s ↦
            let id = before b',' line in
            if ltb (length id) 2 || ltb 5 (length id)
            then none
            else some (record {
              ident = id;
              lat = atof (before b',' rest);
              lon = atof (strip_newlines lon_s);
            })
      ]
    ]

    unfoldable pub read_lines : List Chars → List WpEntry
    read_lines [] = []
    read_lines (line ∷ lines) = elim (read_line line) [
      | none ↦ read_lines lines
      | some e ↦ e ∷ read_lines lines
    ]

    unfoldable pub waypoint_db_load : (List WpEntry → List WpEntry) → List Chars → List WpEntry
    waypoint_db_load qsort lines = qsort (read_lines lines)

  -- The position of a waypoint; none for the return of 0.
  unfoldable pub waypoint_db_lookup :
      (Chars → List WpEntry → Option WpEntry) → List WpEntry → Chars → Option (Double × Double)
  waypoint_db_lookup bsearch wpdb ident =
      if (length wpdb == 0) || (length ident == 0)
      then none
      else elim (bsearch (take 5 ident) wpdb) [
        | none ↦ none
        | some found ↦ some (found.lat, found.lon)
      ]
