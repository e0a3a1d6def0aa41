-- ===== src/Frame/Header.antt =====
-- frame_decode.c: the header of a ring alert frame from the sender through the interleaver.
use iridium_sniffer.Base.{ℕ, ◌^◌, ◌<◌, ◌≤◌, List, ◌++◌, length, some, ◌≡◌}
use iridium_sniffer.Bch.{uint_to_bits}
use iridium_sniffer.Bch.Sound.{IsError}
use iridium_sniffer.Deinterleave.Streams.{
  interleave, AreGroups, stream, de_interleave3-interleave, de_interleave-interleave,
}
use iridium_sniffer.Block.{accept_block, accept_pair}
use iridium_sniffer.Block.RoundTrip.{received, accept_block-received}
use iridium_sniffer.Frame.Decode.{accept_header}

-- Data, and the errors that it met: `k` wrong bits, those of `e`.
pub record Sent : Type 0 where
  pub word : ℕ
  pub fits : word < 2 ^ 21
  pub bits : ℕ
  pub errors : ℕ
  pub pattern : IsError 31 bits errors
  pub few : bits ≤ 2

abbrev pub on_air : Sent → List ℕ
on_air s = received s.word s.errors

accepts_sent : (s : Sent) → accept_block (on_air s) ≡ some (uint_to_bits s.word 21)
accepts_sent s = accept_block-received s.word s.fits s.bits s.errors s.pattern s.few

-- A pair of blocks, whatever follows it, is accepted with the data that was sent.
accept_pair-sent :
    (a b : Sent) (gs : List (List ℕ)) (tail : List ℕ)
    → AreGroups 2 gs
    → length gs ≡ 16
    → stream 0 1 gs ≡ on_air a
    → stream 0 0 gs ≡ on_air b
    → accept_pair (interleave gs ++ tail) ≡ some (uint_to_bits a.word 21 ++ uint_to_bits b.word 21)
unfolding accept_pair
accept_pair-sent a b gs tail h n ea eb =
    rw (de_interleave-interleave 0 gs tail h n, ea, eb, accepts_sent a, accepts_sent b)

-- The 96 bits of a ring alert header, interleaved from three blocks with at most two wrong code bits
-- in each, are accepted with the data that was sent, whatever follows them.
pub accept_header-sent :
    (a b c : Sent) (gs : List (List ℕ)) (tail : List ℕ)
    → AreGroups 3 gs
    → length gs ≡ 16
    → stream 0 2 gs ≡ on_air a
    → stream 0 1 gs ≡ on_air b
    → stream 0 0 gs ≡ on_air c
    → accept_header (interleave gs ++ tail)
      ≡ some (uint_to_bits a.word 21 ++ (uint_to_bits b.word 21 ++ uint_to_bits c.word 21))
unfolding accept_header
accept_header-sent a b c gs tail h n ea eb ec = rw (
  de_interleave3-interleave 0 gs tail h n,
  ea,
  eb,
  ec,
  accepts_sent a,
  accepts_sent b,
  accepts_sent c,
)
