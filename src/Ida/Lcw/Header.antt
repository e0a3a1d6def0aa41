-- ===== src/Ida/Lcw/Header.antt =====
-- ida_decode.c, `format_lcw_header`: what the link control word says, as the parts that are
-- printed. The text that `snprintf` makes of the parts is not modelled.
pub mod Fields
pub mod Lossless
use iridium_sniffer.Base.{
  ℕ, zero, suc, ◌+◌, ◌*◌, List, [], ◌∷◌, ◌++◌, bit_at, get_or, take, drop, ◌==◌, if◌then◌else◌,
}
use iridium_sniffer.Ida.Lcw.{LcwWord}
use iridium_sniffer.Ida.Decode.{shift_bits, field}

-- `out[i] = '0' + ((val >> (nbits - 1 - i)) & 1)`, as numbers instead of digits.
unfoldable pub lcw3_to_bits : ℕ → ℕ → List ℕ
lcw3_to_bits val zero = []
lcw3_to_bits val (suc nbits) = bit_at val nbits ∷ lcw3_to_bits val nbits

-- `T:`
pub data LcwType : Type 0 where
  maint acchl hndof rsrvd : LcwType

-- `C:`, by the name that is printed.
pub data LcwCode : Type 0 where
  sync : (status dtoa dfoa : ℕ) → LcwCode
  switch : (dtoa dfoa : ℕ) → LcwCode
  maint_2 : (lqi power f_dtoa f_dfoa : ℕ) → LcwCode
  geoloc : LcwCode
  maint_1 : (lqi power : ℕ) → LcwCode
  silent : LcwCode
  reserved : ℕ → LcwCode
  access_channel : (msg_type bloc_num sapi_code : ℕ) (segm_list : List ℕ) → LcwCode
  -- `cand` is the bit that is printed as P or S.
  handoff_resp : (cand denied ref slot sband_up sband_dn access : ℕ) → LcwCode
  handoff_cand : LcwCode
  number : ℕ → LcwCode

-- The last part: runs of digits, and for the access channel a number in hexadecimal.
pub data Remain : Type 0 where
  digits : List (List ℕ) → Remain
  digits_hex : List ℕ → ℕ → Remain

pub record LcwHeader : Type 0 where
  pub ft : ℕ
  pub ty : LcwType
  pub code : LcwCode
  pub remain : Remain

abbrev pub digits_at : List ℕ → ℕ → ℕ → List ℕ
digits_at bits i n = take n (drop i bits)

abbrev pub digit : List ℕ → ℕ → ℕ
digit bits i = get_or bits i 0

abbrev pub one_run : List ℕ → Remain
one_run bits = Remain.digits (bits ∷ [])

-- `%c|%c` and the like: two runs of digits.
abbrev pub two_runs : List ℕ → List ℕ → Remain
two_runs a b = Remain.digits (a ∷ (b ∷ []))

-- `case 0`: maintenance.
unfoldable pub format_maint : ℕ → List ℕ → LcwCode × Remain
format_maint code b =
    if code == 0
    then (
      LcwCode.sync (digit b 1) (field b 3 10) (field b 13 8),
      two_runs (digits_at b 0 1) (digits_at b 2 1),
    )
    else if code == 1
    then (LcwCode.switch (field b 3 10) (field b 13 8), one_run (digits_at b 0 3))
    else if code == 3
    then (
      LcwCode.maint_2 (digit b 1 * 2 + digit b 2) (field b 3 3) (field b 6 7) (field b 13 7),
      two_runs (digits_at b 0 1) (digits_at b 20 1),
    )
    else if code == 6
    then (LcwCode.geoloc, one_run b)
    else if code == 12
    then (LcwCode.maint_1 (digit b 19 * 2 + digit b 20) (field b 16 3), one_run (take 16 b))
    else if code == 15
    then (LcwCode.silent, one_run b)
    else (LcwCode.reserved code, one_run b)

-- `case 1`: the access channel.
unfoldable pub format_acchl : ℕ → List ℕ → LcwCode × Remain
format_acchl code b =
    if code == 1
    then (
      LcwCode.access_channel (field b 1 3) (digit b 4) (field b 5 3) (digits_at b 8 8),
      Remain.digits_hex (digits_at b 0 1) (field b 16 5),
    )
    else (LcwCode.reserved code, one_run b)

-- `case 2`: handoff.
unfoldable pub format_hndof : ℕ → List ℕ → LcwCode × Remain
format_hndof code b =
    if code == 3
    then (
      LcwCode.handoff_resp (digit b 2) (digit b 3) (digit b 4) (1 + digit b 6 * 2 + digit b 7)
          (field b 8 5) (field b 13 5) (field b 18 3 + 1),
      two_runs (digits_at b 0 2) (digits_at b 5 1),
    )
    else if code == 12
    then (LcwCode.handoff_cand, two_runs (digits_at b 0 11) (digits_at b 11 10))
    else if code == 15
    then (LcwCode.silent, one_run b)
    else (LcwCode.reserved code, one_run b)

abbrev pub format_parts : LcwType → ℕ → List ℕ → LcwCode × Remain
format_parts LcwType.maint code b = format_maint code b
format_parts LcwType.acchl code b = format_acchl code b
format_parts LcwType.hndof code b = format_hndof code b
format_parts LcwType.rsrvd code b = (LcwCode.number code, one_run b)

abbrev pub type_of : ℕ → LcwType
type_of lcw_ft =
    if lcw_ft == 0
    then LcwType.maint
    else if lcw_ft == 1
    then LcwType.acchl
    else if lcw_ft == 2
    then LcwType.hndof
    else LcwType.rsrvd

unfoldable pub format_lcw_header : ℕ → LcwWord → LcwHeader
format_lcw_header ft lcw =
    let parts = format_parts (type_of lcw.lcw_ft) lcw.lcw_code (lcw3_to_bits lcw.lcw3_val 21) in
    record { ft = ft; ty = type_of lcw.lcw_ft; code = parts.0; remain = parts.1 }
