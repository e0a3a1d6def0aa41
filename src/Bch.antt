-- ===== src/Bch.antt =====
-- The BCH utilities of frame_decode.c and the syndrome tables of frame_decode.c and ida_decode.c.
-- A C array of bits is a list; a pointer into one is a list that starts there.
pub mod Words
pub mod Linear
pub mod Degree
pub mod Sound
pub mod Tables
pub mod Correct
pub mod Encode
use iridium_sniffer.Base.{
  ℕ, zero, suc, ◌+◌, ◌-◌, ◌*◌, ◌/◌, ◌%◌, bit_or, bit_xor, Bool, List, [], ◌∷◌, Option, none, some,
  get_elem?, set, replicate, ltb, leb, ◌==◌, if◌then◌else◌, shl32, bit_at, u32, ◌&&◌,
}
use iridium_sniffer.Base.Int.{ℤ, pos, negsuc, ltb_ℤ}

-- `for (i = 0; i < n; i++) val = (val << 1) | (bits[i] & 1)`, from a given `val`.
-- The callers pass at least `n` bits; a bit past the end would read as 0.
unfoldable pub shift_in : ℕ → List ℕ → ℕ → ℕ
shift_in zero bits val = val
shift_in (suc n) [] val = shift_in n [] (shl32 val 1)
shift_in (suc n) (b ∷ bits) val = shift_in n bits (bit_or (shl32 val 1) (b % 2))

unfoldable pub bits_to_uint : List ℕ → ℕ → ℕ
unfolding shift_in
bits_to_uint bits n = shift_in n bits 0

-- `for (i = n - 1; i >= 0; i--)`: the bits behind `bits[i]` are those written already.
unfoldable pub write_bits : ℕ → ℕ → List ℕ → List ℕ
write_bits zero val written = written
write_bits (suc n) val written = write_bits n (val / 2) (val % 2 ∷ written)

unfoldable pub uint_to_bits : ℕ → ℕ → List ℕ
unfolding write_bits
uint_to_bits val n = write_bits n val []

-- `32 - __builtin_clz(x)`, in at most `w` halvings.
unfoldable pub bit_length : ℕ → ℕ → ℕ
bit_length zero x = 0
bit_length (suc w) x = if x == 0 then 0 else suc (bit_length w (x / 2))

-- The round of `gf2_remainder` at bit `i`.
unfoldable pub reduce_at : ℕ → ℕ → ℕ → ℕ → ℕ
reduce_at poly poly_bits i val =
    if bit_at val i == 1 then bit_xor val (shl32 poly (i + 1 - poly_bits)) else val

-- The rounds `i = poly_bits - 1 + (n - 1)` down to `i = poly_bits - 1`.
unfoldable pub reduce : ℕ → ℕ → ℕ → ℕ → ℕ
unfolding reduce_at
reduce poly poly_bits zero val = val
reduce poly poly_bits (suc n) val =
    reduce poly poly_bits n (reduce_at poly poly_bits (poly_bits - 1 + n) val)

-- `i` starts at 31, hence `33 - poly_bits` rounds.
unfoldable pub gf2_remainder : ℕ → ℕ → ℕ
unfolding reduce bit_length
gf2_remainder poly val =
    let poly_bits = bit_length 32 poly in
    if val == 0 then 0 else reduce poly poly_bits (33 - poly_bits) val

-- `struct { int errs; uint32_t locator; }`
pub record Entry : Type 0 where
  pub errs : ℤ
  pub locator : ℕ

abbrev pub Table : Type 0
Table = List Entry

-- Initialised as uncorrectable.
abbrev pub uncorrectable : Entry
uncorrectable = record { errs = negsuc 0; locator = 0 }

-- `errs >= 0`
abbrev pub is_known : Entry → Bool
is_known e = if ltb_ℤ e.errs (pos 0) then Bool.false else Bool.true

-- `syn[r]`; the code tests `r < table_size` first.
abbrev pub entry_at : Table → ℕ → Entry
entry_at [] r = uncorrectable
entry_at (e ∷ t) zero = e
entry_at (e ∷ t) (suc r) = entry_at t r

module _ (poly table_size : ℕ) where
  -- A single-bit error at `b` overwrites what is there.
  unfoldable pub add_single : ℕ → Table → Table
  add_single b syn =
      let val = shl32 1 b in
      let r = gf2_remainder poly val in
      if ltb r table_size then set syn r (record { errs = pos 1; locator = val }) else syn

  -- A two-bit error is entered only where nothing is known yet.
  unfoldable pub add_double : ℕ → ℕ → Table → Table
  add_double b1 b2 syn =
      let val = bit_or (shl32 1 b1) (shl32 1 b2) in
      let r = gf2_remainder poly val in
      if ltb r table_size && ltb_ℤ (entry_at syn r).errs (pos 0)
      then set syn r (record { errs = pos 2; locator = val })
      else syn

  -- `for (b1 ...)`, with the rounds left.
  unfoldable pub add_singles : ℕ → ℕ → Table → Table
  unfolding add_single
  add_singles zero b syn = syn
  add_singles (suc left) b syn = add_singles left (b + 1) (add_single b syn)

  -- `for (b2 = b1 + 1 ...)`
  unfoldable pub add_pairs : ℕ → ℕ → ℕ → Table → Table
  unfolding add_double
  add_pairs zero b1 b2 syn = syn
  add_pairs (suc left) b1 b2 syn = add_pairs left b1 (b2 + 1) (add_double b1 b2 syn)

  -- `for (b1 ...) for (b2 ...)`: with `left` values of `b1` left, `b2` takes `left - 1` values.
  unfoldable pub add_doubles : ℕ → ℕ → Table → Table
  unfolding add_pairs
  add_doubles zero b1 syn = syn
  add_doubles (suc left) b1 syn = add_doubles left (b1 + 1) (add_pairs left b1 (b1 + 1) syn)

-- `build_syndrome_table` (its `synbits` is not used).
unfoldable pub build_syndrome_table : ℕ → ℕ → ℕ → ℕ → Table
unfolding gf2_remainder add_singles add_doubles
build_syndrome_table poly nbits max_errors table_size =
    let singles = add_singles poly table_size nbits 0 (replicate table_size uncorrectable) in
    if leb 2 max_errors then add_doubles poly table_size nbits 0 singles else singles

-- The tables that `frame_decode_init` builds.
abbrev pub poly_ra : ℕ
poly_ra = 1207

abbrev pub poly_hdr : ℕ
poly_hdr = 29

unfoldable pub syn_ra : Table
unfolding build_syndrome_table
syn_ra = build_syndrome_table poly_ra 31 2 1024

unfoldable pub syn_hdr : Table
unfolding build_syndrome_table
syn_hdr = build_syndrome_table poly_hdr 7 1 16

-- `build_syn` of ida_decode.c, the same loops again.
unfoldable pub build_syn : ℕ → ℕ → ℕ → ℕ → Table
unfolding gf2_remainder add_singles add_doubles
build_syn poly nbits max_errors table_size =
    let singles = add_singles poly table_size nbits 0 (replicate table_size uncorrectable) in
    if leb 2 max_errors then add_doubles poly table_size nbits 0 singles else singles

-- The tables that `ida_decode_init` builds.
abbrev pub poly_da : ℕ
poly_da = 3545

abbrev pub poly_lcw1 : ℕ
poly_lcw1 = 29

abbrev pub poly_lcw2 : ℕ
poly_lcw2 = 465

abbrev pub poly_lcw3 : ℕ
poly_lcw3 = 41

unfoldable pub syn_da : Table
unfolding build_syn
syn_da = build_syn poly_da 31 2 2048

unfoldable pub syn_lcw1 : Table
unfolding build_syn
syn_lcw1 = build_syn poly_lcw1 7 1 16

unfoldable pub syn_lcw2 : Table
unfolding build_syn
syn_lcw2 = build_syn poly_lcw2 14 1 256

unfoldable pub syn_lcw3 : Table
unfolding build_syn
syn_lcw3 = build_syn poly_lcw3 26 2 32

-- What each decoder does with a word: `errs` bits have been flipped to get `word`.
pub record Corrected : Type 0 where
  pub errs : ℤ
  pub word : ℕ

-- The syndrome is looked up and the error located by the table is flipped; `none` is the return of
-- a negative number. The decoders have this code inline, each with its polynomial and table.
unfoldable pub correct_word : ℕ → Table → ℕ → ℕ → Option Corrected
correct_word poly syn table_size val =
    let syndrome = gf2_remainder poly val in
    let entry = entry_at syn syndrome in
    if syndrome == 0
    then some (record { errs = pos 0; word = val })
    else if ltb syndrome table_size && is_known entry
    then some (record { errs = entry.errs; word = bit_xor val entry.locator })
    else none

-- `bch_31_21_correct`: the number of errors and the mask.
unfoldable pub bch_31_21_correct : ℕ → Option Entry
unfolding syn_ra
bch_31_21_correct syndrome =
    if syndrome == 0
    then some (record { errs = pos 0; locator = 0 })
    else if ltb syndrome 1024 && is_known (entry_at syn_ra syndrome)
    then some (entry_at syn_ra syndrome)
    else none
