-- ===== src/Bch/Correct.antt =====
-- frame_decode.c and ida_decode.c: the correction of a word by a syndrome table.
use iridium_sniffer.Base.{
  ℕ, ◌≤◌, ◌<◌, ◌≡◌, refl, arith, ◌&&◌, ◌==◌, bit_xor, bit_or, shl32, ltb, Bool-cases, inl, inr,
  some, none, Option, some_eq, if◌then◌else◌, ==_iff, ◌∙◌,
}
use mathlib.Core.Path.{subst}
use iridium_sniffer.Base.Int.{pos}
use iridium_sniffer.Bits.Xor.{bit_xor_self, bit_xor-zero, bit_xor_assoc, bit_xor_cancel}
use iridium_sniffer.Bits.Step.{zero-bit_xor}
use iridium_sniffer.Bch.{Table, Entry, Corrected, is_known, entry_at, gf2_remainder, correct_word}
use iridium_sniffer.Bch.Linear.{gf2_remainder-bit_xor}
use iridium_sniffer.Bch.Sound.{IsError, no_error, single, double, IsSound, IsTrue}
use iridium_sniffer.Bch.Tables.{IsComplete}

-- A codeword, and how far it is from what was received.
pub record IsNear (poly n val : ℕ) (c : Corrected) : Type 0 where
  pub bits : ℕ
  pub counted : c.errs ≡ pos bits
  pub distance : IsError n bits (bit_xor val c.word)
  pub codeword : gf2_remainder poly c.word ≡ 0

module _ (poly size n : ℕ) (syn : Table) where
  IsNear-none :
      (val : ℕ)
      → gf2_remainder poly val ≡ 0
      → IsNear poly n val (record { errs = pos 0; word = val })
  IsNear-none val code = record {
    bits = 0;
    counted = refl;
    distance = rw (bit_xor_self val) no_error;
    codeword = code;
  }

  IsNear-flipped :
      (val : ℕ) (e : Entry)
      → IsTrue poly n (gf2_remainder poly val) e
      → IsNear poly n val (record { errs = e.errs; word = bit_xor val e.locator })
  IsNear-flipped val e ok = record {
    bits = ok.bits;
    counted = ok.counted;
    distance = rw back ok.located;
    codeword =
        gf2_remainder-bit_xor poly val e.locator
        ∙ rw ok.syndrome (bit_xor_self (gf2_remainder poly val));
  }
    where
      back : bit_xor val (bit_xor val e.locator) ≡ e.locator
      back = rw (← bit_xor_assoc val val e.locator, bit_xor_self val) (zero-bit_xor e.locator)

  -- With a sound table, a word that is returned is a codeword, and differs from the one received
  -- in just as many bits, at most two, as is returned beside it.
  pub correct_word-IsNear :
      IsSound poly n syn
      → (val : ℕ) (c : Corrected) → correct_word poly syn size val ≡ some c
      → IsNear poly n val c
  unfolding correct_word
  correct_word-IsNear sound val c h = elim (Bool-cases (gf2_remainder poly val == 0)) [
    | inl z ↦ subst (IsNear poly n val) (some_eq (rw z at h)) (IsNear-none val ((==_iff _ 0).0 z))
    | inr nz ↦ flipped (rw nz at h)
  ]
    where
      entry : Entry
      entry = entry_at syn (gf2_remainder poly val)

      found : Option Corrected
      found = some (record { errs = entry.errs; word = bit_xor val entry.locator })

      flipped :
          (if ltb (gf2_remainder poly val) size && is_known entry then found else none) ≡ some c
          → IsNear poly n val c
      flipped = elim (Bool-cases (ltb (gf2_remainder poly val) size && is_known entry)) [
        | inl y ↦ λ q.
            subst (IsNear poly n val) (some_eq (rw y at q))
              (IsNear-flipped val entry (sound (gf2_remainder poly val) (ground arith)))
        | inr w ↦ λ q. absurd (cc (rw w at q))
      ]

  module _ (most : ℕ) (complete : IsComplete poly size syn n most) where
    syndrome-bit_xor :
        (sent e : ℕ)
        → gf2_remainder poly sent ≡ 0
        → gf2_remainder poly (bit_xor sent e) ≡ gf2_remainder poly e
    syndrome-bit_xor sent e code =
        gf2_remainder-bit_xor poly sent e ∙ rw code (zero-bit_xor (gf2_remainder poly e))

    recovers_wrong :
        (sent k e : ℕ)
        → gf2_remainder poly sent ≡ 0
        → IsError n k e
        → 0 < k
        → k ≤ most
        → correct_word poly syn size (bit_xor sent e) ≡ some (record { errs = pos k; word = sent })
    unfolding correct_word
    recovers_wrong sent k e code err wrong h = rw (syndrome-bit_xor sent e code) (
        ground (
          arith,
          complete.found k e err wrong h,
          complete.in_range k e err wrong h,
          bit_xor_cancel sent e,
        ))

    recovers_right :
        (sent : ℕ)
        → gf2_remainder poly sent ≡ 0
        → correct_word poly syn size (bit_xor sent 0) ≡ some (record { errs = pos 0; word = sent })
    unfolding correct_word
    recovers_right sent code = rw (bit_xor-zero sent, code)

    -- With a complete table, a codeword that arrives with at most `most` bits wrong is returned as
    -- it was sent, with the number of those bits.
    pub correct_word_recovers :
        (sent k e : ℕ)
        → gf2_remainder poly sent ≡ 0
        → IsError n k e
        → k ≤ most
        → correct_word poly syn size (bit_xor sent e) ≡ some (record { errs = pos k; word = sent })
    correct_word_recovers sent k e code no_error h = recovers_right sent code
    correct_word_recovers sent k e code (single b hb) h =
        recovers_wrong sent 1 (shl32 1 b) code (single b hb) (omega arith) h
    correct_word_recovers sent k e code (double b c hb hc) h =
        recovers_wrong sent 2 (bit_or (shl32 1 b) (shl32 1 c)) code (double b c hb hc) (omega arith)
          h
