-- ===== src/Acars.antt =====
-- sbd_acars.c, the path without libacars: the frame of an ACARS message, its fields, and the positions
-- in its text (Position); what becomes of them is in Deliver.
pub mod Position
pub mod Deliver
pub mod Safe
pub mod Sent
pub mod Layout
pub mod Tokens
use iridium_sniffer.Base.{
  ℕ, zero, suc, ◌+◌, ◌-◌, ◌/◌, ◌%◌, ◌^◌, List, [], ◌∷◌, ◌++◌, Option, none, some, Bool, true, false,
  ◌&&◌, ◌||◌, not, length, get_or, take, drop, map, ltb, leb, ◌==◌, if◌then◌else◌,
}
use iridium_sniffer.Base.Text.{Chars, c_string, skip}
use iridium_sniffer.Sbd.{sbd_max_data}
use iridium_sniffer.Sbd.Crc.{crc16_init, crc16_kermit}

-- The number of ones in the lowest `n` bits.
unfoldable pub ones : ℕ → ℕ → ℕ
ones zero b = 0
ones (suc n) b = b % 2 + ones n (b / 2)

-- `parity_ok`: each byte has an odd number of ones.
unfoldable pub parity_ok : List ℕ → Bool
parity_ok [] = true
parity_ok (c ∷ bytes) = not (ones 8 c % 2 == 0) && parity_ok bytes

-- What is checked and stripped of a message: the header of the downlink or nothing, the characters,
-- and the number of errors.
pub record Checked : Type 0 where
  pub hdr : List ℕ
  pub stripped : List ℕ
  pub errors : ℕ

-- The data with its CRC and the end mark taken off, if it has them.
unfoldable pub take_crc : List ℕ → List ℕ × Option (List ℕ)
take_crc bytes =
    let len = length bytes in
    if leb 3 len && (get_or bytes (len - 1) 0 == 0x7f)
    then (take (len - 3) bytes, some (take 2 (drop (len - 3) bytes)))
    else (bytes, none)

-- `crc_errors`; a message too long for the buffer is not checked.
unfoldable pub crc_errors : List ℕ → Option (List ℕ) → ℕ
crc_errors bytes none = 1
crc_errors bytes (some csum) =
    if leb (length bytes + 2) sbd_max_data && not (crc16_kermit crc16_init (bytes ++ csum) == 0)
    then 1
    else 0

-- The first part of `acars_parse_fallback`; none where it returns before it counts the message.
unfoldable pub check_message : List ℕ → Option Checked
check_message [] = none
check_message (mark ∷ bytes) =
    let (body, csum) = take_crc bytes in
    let has_hdr = ltb 0 (length body) && (get_or body 0 0 == 3) && leb 8 (length body) in
    let payload = if has_hdr then drop 8 body else body in
    if not (mark == 1) || leb (length bytes) 1 || ltb (length payload) 13
    then none
    else some (record {
      hdr = if has_hdr then take 8 body else [];
      stripped = map (λ c. c % 2 ^ 7) payload;
      errors = crc_errors payload csum + (if parity_ok payload then 0 else 1);
    })

-- `rest` without its end mark, and `cont`.
unfoldable pub take_end : List ℕ → List ℕ × Bool
take_end rest =
    let last = get_or rest (length rest - 1) 0 in
    if ltb 0 (length rest) && (last == 3)
    then (take (length rest - 1) rest, false)
    else if ltb 0 (length rest) && (last == 0x17)
    then (take (length rest - 1) rest, true)
    else (rest, false)

-- What stands behind the start of text.
pub record Text : Type 0 where
  pub msg_num : List ℕ
  pub msg_num_seq : ℕ
  pub flight : List ℕ
  pub txt : Option (List ℕ)

unfoldable pub read_text : Bool → List ℕ → Text
read_text ul rest =
    if ltb 0 (length rest) && (get_or rest 0 0 == 2)
    then (if ul && leb 11 (length rest)
        then record {
          msg_num = take 3 (drop 1 rest);
          msg_num_seq = get_or rest 4 0;
          flight = take 6 (drop 5 rest);
          txt = some (drop 11 rest);
        }
        else record { msg_num = []; msg_num_seq = 0; flight = []; txt = some (drop 1 rest) })
    else record { msg_num = []; msg_num_seq = 0; flight = []; txt = none }

-- The fields of a message, `reg` with its leading dots.
pub record Fields : Type 0 where
  pub mode : ℕ
  pub reg : List ℕ
  pub ack : ℕ
  pub label : List ℕ
  pub blk_id : ℕ
  pub cont : Bool
  pub text : Text

unfoldable pub read_fields : Bool → List ℕ → Fields
read_fields ul stripped =
    let (rest, cont) = take_end (drop 12 stripped) in
    record {
      mode = get_or stripped 0 0;
      reg = take 7 (drop 1 stripped);
      ack = get_or stripped 8 0;
      label = take 2 (drop 9 stripped);
      blk_id = get_or stripped 11 0;
      cont = cont;
      text = read_text ul rest;
    }

-- The label where `_` and DEL stand for `_d`.
unfoldable pub shown_label : List ℕ → List ℕ
shown_label label =
    if (get_or label 0 0 == b'_') && (get_or label 1 0 == 0x7f) then b'_' ∷ (b'd' ∷ []) else label

-- The registration without its leading dots, as a string.
unfoldable pub plain_reg : Fields → Chars
plain_reg f = c_string (skip b'.' f.reg)
