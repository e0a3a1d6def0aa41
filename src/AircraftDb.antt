-- ===== src/AircraftDb.antt =====
-- aircraft_db.c: the database of aircraft, from registrations to addresses. A line is what `fgets`
-- gives, with its newline. `malloc` does not fail; `qsort` and `bsearch` are parameters.

pub mod Loaded
use iridium_sniffer.Base.{
  ℕ, zero, suc, ◌-◌, List, [], ◌∷◌, Option, none, some, Bool, true, ◌&&◌, ◌||◌, not, length, map,
  leb, ◌==◌, if◌then◌else◌,
}
use iridium_sniffer.Base.Text.{Chars, is_digit, toupper, skip, before, behind}

-- `db_entry_t`
pub record DbEntry : Type 0 where
  pub reg : Chars
  pub hex : Chars

-- The loop of `normalize_reg`, with room for `n` more characters.
unfoldable pub normalize_from : Chars → ℕ → Chars
normalize_from [] n = []
normalize_from (c ∷ src) zero = []
normalize_from (c ∷ src) (suc n) =
    let skipped = normalize_from src (suc n) in
    let kept = toupper c ∷ normalize_from src n in
    if (c == b'-') || (c == b' ') then skipped else kept

unfoldable pub normalize_reg : Chars → ℕ → Chars
normalize_reg src dstlen = normalize_from (skip b'.' src) (dstlen - 1)

abbrev pub is_hex : ℕ → Bool
is_hex c = is_digit c || (leb b'A' c && leb c b'F') || (leb b'a' c && leb c b'f')

abbrev pub all_hex : Chars → Bool
all_hex [] = true
all_hex (c ∷ s) = is_hex c && all_hex s

-- A line "icao_hex;registration;...": its entry, none where it is skipped.
unfoldable pub read_line : Chars → Option DbEntry
read_line line = elim (behind b';' line) [
  | none ↦ none
  | some rest ↦
      let hex_field = before b';' line in
      let reg_field = before b';' rest in
      let reg = normalize_reg reg_field 12 in
      if not (length hex_field == 6)
        || not (all_hex hex_field)
        || (length reg_field == 0)
        || (length reg == 0)
      then none
      else some (record { reg = reg; hex = map toupper hex_field })
]

unfoldable pub read_lines : List Chars → List DbEntry
read_lines [] = []
read_lines (line ∷ lines) = elim (read_line line) [
  | none ↦ read_lines lines
  | some e ↦ e ∷ read_lines lines
]

-- The database that is loaded; its length is returned.
unfoldable pub aircraft_db_load : (List DbEntry → List DbEntry) → List Chars → List DbEntry
aircraft_db_load qsort lines = qsort (read_lines lines)

-- The address of a registration; none for NULL. `bsearch` gets the key.
unfoldable pub aircraft_db_lookup :
    (Chars → List DbEntry → Option DbEntry) → List DbEntry → Chars → Option Chars
aircraft_db_lookup bsearch db registration =
    let norm = normalize_reg registration 12 in
    if (length db == 0) || (length registration == 0) || (length norm == 0)
    then none
    else elim (bsearch norm db) [ none ↦ none | some found ↦ some found.hex ]
