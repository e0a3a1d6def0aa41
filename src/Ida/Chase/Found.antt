-- ===== src/Ida/Chase/Found.antt =====
-- ida_decode.c, `chase_bch_da`: the correction of a word and the search over flipped bits.
use iridium_sniffer.Base.{
  ℕ, zero, suc, ◌+◌, ◌<◌, ◌≤◌, List, Option, none, some, Option-cases, inl, inr, bit_xor, ◌≡◌, ◌≢◌,
  refl, ◌∙◌, arith,
}
use iridium_sniffer.Bch.{Corrected, syn_da, poly_da, gf2_remainder}
use iridium_sniffer.Bch.Sound.{IsError, IsSound, build_syn-IsSound}
use iridium_sniffer.Bch.Correct.{IsNear, correct_word-IsNear, correct_word_recovers}
use iridium_sniffer.Bch.Tables.{syn_da-IsComplete}
use iridium_sniffer.Base.Int.{pos}
use iridium_sniffer.Ida.Chase.{correct_da, flip, try_masks}

-- The first mask that can be corrected is taken: the earlier ones cannot be.
pub try_masks-first :
    (masks : List ℕ) (base_val left mask : ℕ) (c : Corrected)
    → try_masks masks base_val left mask ≡ some c
    → (d : ℕ) × (d < left)
      × (correct_da (flip masks (mask + d) 0 base_val) ≡ some c)
      × ((j : ℕ) → j < d → correct_da (flip masks (mask + j) 0 base_val) ≡ none)
unfolding try_masks
try_masks-first masks base_val zero mask c e = absurd (cc e)
try_masks-first masks base_val (suc left) mask c e =
    elim (Option-cases (correct_da (flip masks mask 0 base_val))) [
      | inr (c', now) ↦
          (let q = rw (now, try_masks) at e in
            (0, omega arith, rw (here) (now ∙ q), λ j below. absurd (omega (arith, below))))
      | inl later ↦
          (let q = rw (later, try_masks) at e in
            let (d, below, found, none_before) =
              try_masks-first masks base_val left (mask + 1) c q in
            (suc d, omega arith, rw (next d) found, earlier d later none_before))
    ]
  where
    here : mask + 0 ≡ mask
    here = omega arith

    next : (d : ℕ) → mask + suc d ≡ mask + 1 + d
    next d = omega arith

    earlier :
        (d : ℕ)
        → correct_da (flip masks mask 0 base_val) ≡ none
        → ((j : ℕ) → j < d → correct_da (flip masks (mask + 1 + j) 0 base_val) ≡ none)
        → (j : ℕ) → j < suc d
        → correct_da (flip masks (mask + j) 0 base_val) ≡ none
    earlier d later before zero h = rw (here) later
    earlier d later before (suc j) h = rw (next j) (before j (omega (arith, h)))

-- If one of the masks tried gives a word that can be corrected, the search returns a word.
pub try_masks-found :
    (masks : List ℕ) (base_val left mask d : ℕ)
    → d < left
    → correct_da (flip masks (mask + d) 0 base_val) ≢ none
    → try_masks masks base_val left mask ≢ none
unfolding try_masks
try_masks-found masks base_val zero mask d h f e = absurd (omega arith)
try_masks-found masks base_val (suc left) mask zero h f e =
    f (rw (here) (first (correct_da (flip masks mask 0 base_val)) e))
  where
    here : mask + 0 ≡ mask
    here = omega arith

    first :
        (o : Option Corrected)
        → (elim o as (λ _. Option Corrected) [
          | some c ↦ some c
          | none ↦ try_masks masks base_val left (mask + 1)
        ])
          ≡ none
        → o ≡ none
    first none q = refl
    first (some c) q = absurd (cc q)
try_masks-found masks base_val (suc left) mask (suc d) h f e =
    try_masks-found masks base_val left (mask + 1) d (omega arith) (rw (next) at f)
      (rest (correct_da (flip masks mask 0 base_val)) e)
  where
    next : mask + suc d ≡ mask + 1 + d
    next = omega arith

    rest :
        (o : Option Corrected)
        → (elim o as (λ _. Option Corrected) [
          | some c ↦ some c
          | none ↦ try_masks masks base_val left (mask + 1)
        ])
          ≡ none
        → try_masks masks base_val left (mask + 1) ≡ none
    rest none q = q
    rest (some c) q = absurd (cc q)

syn_da-IsSound : IsSound poly_da 31 syn_da
unfolding syn_da
syn_da-IsSound = build_syn-IsSound poly_da 31 2 2048

-- A payload block that arrives with at most two of its 31 bits wrong is corrected to what was sent,
-- with the number of those bits.
pub correct_da_recovers :
    (sent k e : ℕ)
    → gf2_remainder poly_da sent ≡ 0
    → IsError 31 k e
    → k ≤ 2
    → correct_da (bit_xor sent e) ≡ some (record { errs = pos k; word = sent })
unfolding correct_da
correct_da_recovers sent k e code err few =
    correct_word_recovers poly_da 2048 31 syn_da 2 syn_da-IsComplete sent k e code err few

-- A word that `correct_da` returns is a codeword, and differs from the word received in as many of
-- its 31 bits, at most two, as it says.
pub correct_da-IsNear :
    (val : ℕ) (c : Corrected) → correct_da val ≡ some c → IsNear poly_da 31 val c
unfolding correct_da
correct_da-IsNear val c h = correct_word-IsNear poly_da 2048 31 syn_da syn_da-IsSound val c h
