-- ===== src/Sbd.antt =====
-- The SBD part of sbd_acars.c: which IDA messages are SBD packets, and the messages of several
-- packets, put together in eight slots. What becomes of a whole message is an output.
pub mod Bounded
pub mod Crc
use iridium_sniffer.Base.{
  ℕ, zero, suc, ◌+◌, ◌-◌, ◌*◌, ◌%◌, ◌^◌, List, [], ◌∷◌, ◌++◌, Option, none, some, Bool, true, false,
  ◌&&◌, ◌||◌, not, length, get_or, take, drop, set, leb, ltb, ◌==◌, if◌then◌else◌, inc32,
}
use mathlib.Core.Option

abbrev pub sbd_max_data : ℕ
sbd_max_data = 1024

abbrev pub sbd_timeout_ns : ℕ
sbd_timeout_ns = 5_000_000_000

-- The test for SBD markers; `ul` is the direction.
unfoldable pub is_sbd : Bool → List ℕ → Bool
is_sbd ul packet =
    let d0 = get_or packet 0 0 in
    let d1 = get_or packet 1 0 in
    let d2 = get_or packet 2 0 in
    if (d0 == 0x76) && not (d1 == 5)
    then (if ul then leb 0x0C d1 && leb d1 0x0E else leb 8 d1 && leb d1 0x0B)
    else (d0 == 6)
      && (d1 == 0)
      && ((d2 == 0) || (d2 == 0x10) || (d2 == 0x20) || (d2 == 0x40) || (d2 == 0x50) || (d2 == 0x70))

-- What the headers say of a packet; `msgcnt` is none where the code has -1.
pub record Packet : Type 0 where
  pub msgno : ℕ
  pub msgcnt : Option ℕ
  pub sbd_data : List ℕ

-- After `data += 2`: a packet that starts a message, marked 06 00.
unfoldable pub read_first : List ℕ → Option Packet
read_first packet =
    if ltb (length packet) 30 || not (get_or packet 0 0 == 0x20)
    then none
    else some (record {
      msgno = if get_or packet 15 0 == 0 then 0 else 1;
      msgcnt = some (get_or packet 15 0);
      sbd_data = drop 29 packet;
    })

-- The header of one packet, after the header of the message.
unfoldable pub read_numbered : Option ℕ → List ℕ → Option Packet
read_numbered msgcnt packet =
    if ltb 3 (length packet) && (get_or packet 0 0 == 0x10)
    then (if ltb (length packet - 3) (get_or packet 1 0)
        then none
        else some (record {
          msgno = get_or packet 2 0;
          msgcnt = msgcnt;
          sbd_data = take (get_or packet 1 0) (drop 3 packet);
        }))
    else some (record { msgno = 0; msgcnt = msgcnt; sbd_data = packet })

-- The three bytes that an uplink packet may start with.
abbrev pub skip_uplink : Bool → List ℕ → List ℕ
skip_uplink ul packet =
    if ul && leb 3 (length packet) && ((get_or packet 0 0 == 0x50) || (get_or packet 0 0 == 0x51))
    then drop 3 packet
    else packet

abbrev pub prehdr_len : List ℕ → ℕ
prehdr_len packet = if get_or packet 0 0 == 0x20 then 5 else 7

-- After `data += 2`, for the marker 76 and `typ1`.
unfoldable pub read_marked : Bool → ℕ → List ℕ → Option Packet
read_marked ul typ1 packet =
    if typ1 == 8
    then (if ltb (length packet) 5 || ltb (length packet) (prehdr_len packet)
        then none
        else read_numbered (some (get_or packet 3 0))
            (skip_uplink ul (drop (prehdr_len packet) packet)))
    else read_numbered none (skip_uplink ul packet)

-- The counters of the statistics.
pub record Stats : Type 0 where
  pub total : ℕ
  pub short : ℕ
  pub single : ℕ
  pub multi_ok : ℕ
  pub multi_frag : ℕ
  pub broken : ℕ

abbrev pub same_ul : Bool → Bool → Bool
same_ul true true = true
same_ul false false = true
same_ul true false = false
same_ul false true = false

abbrev pub is_count : Option ℕ → ℕ → Bool
is_count none n = false
is_count (some c) n = c == n

abbrev pub count_of : Option ℕ → ℕ
count_of none = 0
count_of (some c) = c

module _ (Double : Type 0) where
  -- `sbd_multi_t`; `bytes` is the first `data_len` bytes of `data`.
  pub record Slot : Type 0 where
    pub active : Bool
    pub msgno : ℕ
    pub msgcnt : ℕ
    pub ul : Bool
    pub timestamp : ℕ
    pub frequency : Double
    pub magnitude : Double
    pub bytes : List ℕ

  -- The arguments of the call of `sbd_process`.
  pub record Message : Type 0 where
    pub bytes : List ℕ
    pub ul : Bool
    pub timestamp : ℕ
    pub frequency : Double
    pub magnitude : Double

  -- `sbd_process`: to the ACARS parser, to the raw output, or nowhere.
  pub data Output : Type 0 where
    acars : Message → Output
    raw : Message → Output
    nothing : Output

  unfoldable pub sbd_process : Message → Output
  sbd_process m =
      if ltb 2 (length m.bytes) && (get_or m.bytes 0 0 == 1)
      then Output.acars m
      else if ltb 0 (length m.bytes)
      then Output.raw m
      else Output.nothing

  pub record State : Type 0 where
    pub sbd_multi : List Slot
    pub stats : Stats

  unfoldable pub expire : ℕ → Slot → Slot
  expire now_ns s =
      if s.active && ltb ((s.timestamp + sbd_timeout_ns) % 2 ^ 64) now_ns
      then record s { active = false }
      else s

  unfoldable pub sbd_expire : ℕ → List Slot → List Slot
  sbd_expire now_ns [] = []
  sbd_expire now_ns (s ∷ slots) = expire now_ns s ∷ sbd_expire now_ns slots

  -- The first free slot from index `i` on.
  unfoldable pub free_slot : List Slot → ℕ → Option ℕ
  free_slot [] i = none
  free_slot (s ∷ slots) i = let rest = free_slot slots (i + 1) in if s.active then rest else some i

  -- The slot with the least timestamp from index `i` on.
  unfoldable pub oldest_slot : List Slot → ℕ → Option ℕ → ℕ → Option ℕ
  oldest_slot [] i idx oldest = idx
  oldest_slot (s ∷ slots) i idx oldest = elim (ltb s.timestamp oldest) [
    | true ↦ oldest_slot slots (i + 1) (some i) s.timestamp
    | false ↦ oldest_slot slots (i + 1) idx oldest
  ]

  abbrev pub choose_slot : List Slot → ℕ
  choose_slot slots = elim (free_slot slots 0) [
    | some i ↦ i
    | none ↦ Option.get_or (oldest_slot slots 0 none (2 ^ 64 - 1)) 0
  ]

  -- A slot with the first packet; what does not fit into `data` is cut off.
  abbrev pub open_slot : Packet → ℕ → Message → Slot
  open_slot p msgcnt m = record {
    active = true;
    msgno = p.msgno;
    msgcnt = msgcnt;
    ul = m.ul;
    timestamp = m.timestamp;
    frequency = m.frequency;
    magnitude = m.magnitude;
    bytes = take sbd_max_data m.bytes;
  }

  unfoldable pub expects : Slot → Packet → Message → Bool
  expects s p m = s.active && same_ul s.ul m.ul && (p.msgno == s.msgno + 1)

  -- As much of the packet as there is space for.
  unfoldable pub append_packet : Slot → Packet → Message → Slot
  append_packet s p m = record s {
    bytes = s.bytes ++ take (sbd_max_data - length s.bytes) m.bytes;
    msgno = p.msgno;
    timestamp = m.timestamp;
  }

  -- The slot after the packet, and the message if it was the last.
  unfoldable pub continue_slot : Slot → Packet → Message → Option Message × Slot
  continue_slot s p m =
      let s' = append_packet s p m in
      if p.msgno == s'.msgcnt
      then (
        some (record {
          bytes = s'.bytes;
          ul = m.ul;
          timestamp = m.timestamp;
          frequency = s'.frequency;
          magnitude = s'.magnitude;
        }),
        record s' { active = false },
      )
      else (none, s')

  -- The loop from the last slot down: the slots behind come first.
  unfoldable pub try_slots : List Slot → Packet → Message → Option (Option Message × List Slot)
  try_slots [] p m = none
  try_slots (s ∷ slots) p m = elim (try_slots slots p m) [
    | some r ↦ some (r.0, s ∷ r.1)
    | none ↦
        if expects s p m
        then (let (out, s') = continue_slot s p m in some (out, s' ∷ slots))
        else none
  ]

  -- A packet that neither is a whole message nor starts one.
  unfoldable pub follow : State → Packet → Message → Option Message × State
  follow st p m =
      if ltb 1 p.msgno
      then elim (try_slots st.sbd_multi p m) [
        | none ↦ (none, record st { stats = record st.stats { broken = inc32 st.stats.broken } })
        | some r ↦ (
          r.0,
          record {
            sbd_multi = r.1;
            stats = record st.stats {
              multi_frag = inc32 st.stats.multi_frag;
              multi_ok = elim r.0 [ none ↦ st.stats.multi_ok | some x ↦ inc32 st.stats.multi_ok ];
            };
          },
        )
      ]
      else (none, st)

  -- From `sbd_expire(timestamp)` on: the message that goes to `sbd_process`, if one does.
  unfoldable pub dispatch : State → Packet → Message → Option Message × State
  dispatch st p m =
      let st' = record st { sbd_multi = sbd_expire m.timestamp st.sbd_multi } in
      if p.msgno == 0
      then (
        if ltb 0 (length m.bytes) then some m else none,
        record st' { stats = record st.stats { short = inc32 st.stats.short } },
      )
      else if is_count p.msgcnt 1 && (p.msgno == 1)
      then (some m, record st' { stats = record st.stats { single = inc32 st.stats.single } })
      else if ltb 1 (count_of p.msgcnt)
      then (
        none,
        record st' {
          sbd_multi =
              set st'.sbd_multi (choose_slot st'.sbd_multi) (open_slot p (count_of p.msgcnt) m);
        },
      )
      else follow st' p m

  -- `sbd_extract`: the message that goes to `sbd_process`, none where it is not called.
  unfoldable pub sbd_extract : State → List ℕ → Bool → ℕ → Double → Double → Option Message × State
  sbd_extract st packet ul timestamp frequency magnitude =
      let counted = record st { stats = record st.stats { total = inc32 st.stats.total } } in
      let rest = drop 2 packet in
      if ltb (length packet) 5 || not (is_sbd ul packet)
      then (none, st)
      else elim (if (get_or packet 0 0 == 6) && (get_or packet 1 0 == 0)
          then read_first rest
          else read_marked ul (get_or packet 1 0) rest) [
            | none ↦ (none, counted)
            | some p ↦ dispatch counted p (record {
              bytes = p.sbd_data;
              ul = ul;
              timestamp = timestamp;
              frequency = frequency;
              magnitude = magnitude;
            })
          ]
