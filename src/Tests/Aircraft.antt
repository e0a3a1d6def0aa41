-- ===== src/Tests/Aircraft.antt =====
-- An ACARS message as it is sent and with an error, its text, a table of fixes, and two clients.
use iridium_sniffer.Base.{
  ℕ, List, [], ◌∷◌, Option, none, some, true, false, length, if◌then◌else◌, ◌==◌, inl, inr, ◌≡◌,
  refl, arith,
}
use iridium_sniffer.Base.Text.{Chars, codes}
use iridium_sniffer.Sbd.{Message}
use iridium_sniffer.BaseStation.{Track, bs_derive_track}
use iridium_sniffer.BaseStation.Tracks.{IsRecorded, IsUpdated, entry, bs_derive_track-IsRecorded}
use iridium_sniffer.Acars.{
  Checked, check_message, take_crc, crc_errors, parity_ok, ones, read_fields,
}
use iridium_sniffer.Acars.Position.{scan_tokens}
use iridium_sniffer.Acars.Tokens.{first_known, later_tokens, scan_tokens-later_tokens}
use iridium_sniffer.Acars.Sent.{frame, check_message-sent}
use iridium_sniffer.Acars.Layout.{message, downlink, read_fields-message}
use iridium_sniffer.Acars.Deliver.{acars_parse_fallback}
use iridium_sniffer.Acars.Safe.{acars_parse_fallback-errors}
use iridium_sniffer.WebMap.Reachable.{start}
use iridium_sniffer.Tests.{hertz}
use iridium_sniffer.Tests.Maps.{env, cache, parser}

abbrev known : List (Track hertz)
known = entry hertz (b'A' ∷ []) 1 2 3 ∷ (entry hertz (b'B' ∷ []) 4 5 6 ∷ [])

bs_derive_track-IsRecorded_example :
    IsRecorded hertz
      (bs_derive_track hertz known (b'B' ∷ []) 7 8 9).1
      (b'B' ∷ [])
      (entry hertz (b'B' ∷ []) 7 8 9)
    × IsUpdated hertz known
        (bs_derive_track hertz known (b'B' ∷ []) 7 8 9).1
        (b'B' ∷ [])
        (entry hertz (b'B' ∷ []) 7 8 9)
bs_derive_track-IsRecorded_example =
    bs_derive_track-IsRecorded hertz known (b'B' ∷ []) 7 8 9 (omega arith)
      (omega arith, (omega arith, tt)) (omega arith)

-- Seven dots for the registration, a label, and an end mark.
abbrev line : List ℕ
line = 50 ∷ (46 ∷ (46 ∷ (46 ∷ (46 ∷ (46 ∷ (46 ∷ (46 ∷ (21 ∷ (72 ∷ (49 ∷ (50 ∷ (3 ∷ []))))))))))))

abbrev mark : List ℕ
mark = 3 ∷ (0 ∷ (0 ∷ (0 ∷ (0 ∷ (0 ∷ (0 ∷ (0 ∷ [])))))))

check_message-sent_example :
    check_message (frame mark line) ≡ some (record { hdr = mark; stripped = line; errors = 0 })
check_message-sent_example =
    check_message-sent mark line (inr (0 ∷ (0 ∷ (0 ∷ (0 ∷ (0 ∷ (0 ∷ (0 ∷ [])))))), refl, refl))
      (
        omega arith,
        (
          omega arith,
          (
            omega arith,
            (
              omega arith,
              (
                omega arith,
                (
                  omega arith,
                  (
                    omega arith,
                    (
                      omega arith,
                      (omega arith, (omega arith, (omega arith, (omega arith, (omega arith, tt))))),
                    ),
                  ),
                ),
              ),
            ),
          ),
        ),
      )
      (omega arith)

-- No CRC, and bytes of even parity.
abbrev broken : Message ℕ
broken = record { bytes = 1 ∷ line; ul = true; timestamp = 70; frequency = 9; magnitude = 1 }

abbrev broken_check : Checked
broken_check = record { hdr = []; stripped = line; errors = 2 }

broken_check_lem : check_message (1 ∷ line) ≡ some broken_check
unfolding check_message take_crc crc_errors parity_ok ones
broken_check_lem = refl

acars_parse_fallback-errors_example :
    let r = acars_parse_fallback hertz env (start hertz) cache parser broken in
    (r.1 ≡ start hertz)
    × ((r.2).station ≡ parser.station)
    × ((r.2).stats ≡ record parser.stats { acars_total = 1; acars_errors = 1 })
    × ((r.0).line ≡ none)
acars_parse_fallback-errors_example =
    acars_parse_fallback-errors hertz env (start hertz) cache parser broken broken_check
      (omega arith) (omega arith) broken_check_lem (omega arith)

abbrev reg : List ℕ
reg = codes ".N123AB"

read_fields-message_example :
    (read_fields true (
        message 50 reg 21
          (codes "H1")
          50
          (downlink (codes "M01") 65 (codes "UA0001") (codes "POS"))
          3)
      ≡ record {
        mode = 50;
        reg = reg;
        ack = 21;
        label = codes "H1";
        blk_id = 50;
        cont = false;
        text = record {
          msg_num = codes "M01";
          msg_num_seq = 65;
          flight = codes "UA0001";
          txt = some (codes "POS");
        };
      })
    × (read_fields false (message 50 reg 21 (codes "H1") 50 (2 ∷ codes "POS") 3) ≡ record {
      mode = 50;
      reg = reg;
      ack = 21;
      label = codes "H1";
      blk_id = 50;
      cont = false;
      text = record { msg_num = []; msg_num_seq = 0; flight = []; txt = some (codes "POS") };
    })
read_fields-message_example =
    read_fields-message 50 21 50 3 reg (codes "H1") false refl refl (inl (refl, refl)) (codes "M01")
      (codes "UA0001") (codes "POS") 65 refl refl

abbrev waypoint : Chars → Option (ℕ × ℕ)
waypoint ident = if length ident == 5 then some (40, 70) else none

scan_tokens-later_tokens_example :
    scan_tokens hertz waypoint 20 (codes "POS,ABCD,MERIT,1200")
    ≡ first_known waypoint (later_tokens (codes "POS,ABCD,MERIT,1200"))
scan_tokens-later_tokens_example =
    scan_tokens-later_tokens hertz waypoint 20 (codes "POS,ABCD,MERIT,1200") (omega arith)
