-- ===== src/Ida/Chase/Search.antt =====
-- ida_decode.c, `chase_bch_da`: what the search over flipped bits ends with.
use iridium_sniffer.Base.{
  ℕ, zero, suc, ◌+◌, ◌-◌, ◌/◌, ◌^◌, ◌<◌, ◌≤◌, List, Option, none, some, Option-cases, inl, inr,
  Bool, bit_xor, ◌≡◌, false, [], ◌==◌, ==_iff, if◌then◌else◌, Bool-cases, take, ap, refl, sym, ◌∙◌,
  arith,
}
use mathlib.Core.Path.{subst}
use iridium_sniffer.Bits.Xor.{bit_xor-zero}
use iridium_sniffer.Bch.{Corrected, poly_da, gf2_remainder, bits_to_uint, uint_to_bits}
use iridium_sniffer.Bch.Sound.{IsError, no_error}
use iridium_sniffer.Bch.Correct.{IsNear}
use iridium_sniffer.Ida.Chase.{
  DaBlock, da_block, correct_da, flip, try_masks, flip_masks, select, positions, chase_bch_da,
}
use iridium_sniffer.Ida.Chase.Found.{
  try_masks-first, try_masks-found, correct_da_recovers, correct_da-IsNear,
}
use iridium_sniffer.Ida.Chase.Flips.{flip-zero, toggled, flip-toggled}

-- No codeword is within two errors, in the 31 bits, of this word.
abbrev pub IsFar : ℕ → Type 0
IsFar val =
    (sent k e : ℕ)
    → gf2_remainder poly_da sent ≡ 0
    → IsError 31 k e
    → k ≤ 2
    → val ≡ bit_xor sent e
    → ⊥

IsFar-none : (val : ℕ) → correct_da val ≡ none → IsFar val
IsFar-none val h sent k e code err few at =
    let q = rw (at) at h in absurd (cc (sym q ∙ correct_da_recovers sent k e code err few))

-- `word m` is the word received, `val`, with the bits of the mask `m` flipped. The block is of a codeword
-- near it for `mask`; no codeword is near for a smaller mask; and `fixed` is 0 only if `val` is a codeword.
pub record IsFirst (word : ℕ → ℕ) (val last : ℕ) (r : DaBlock) : Type 0 where
  pub mask : ℕ
  pub below : mask ≤ last
  pub corrected : Corrected
  pub near : IsNear poly_da 31 (word mask) corrected
  pub errs : r.errs ≡ corrected.errs
  pub data_bits : r.data_bits ≡ uint_to_bits (corrected.word / 2 ^ 11) 20
  pub fixed : r.fixed ≡ (if gf2_remainder poly_da val == 0 then 0 else 1)
  pub earlier : (m : ℕ) → m < mask → IsFar (word m)

-- What the search over the masks 0 to `last` ends with.
abbrev pub IsSearch : (ℕ → ℕ) → ℕ → ℕ → Option DaBlock → Type 0
IsSearch word val last none = (m : ℕ) → m ≤ last → IsFar (word m)
IsSearch word val last (some r) = IsFirst word val last r

abbrev flipped_word : List ℕ → ℕ → ℕ → ℕ
flipped_word masks val m = flip masks m 0 val

-- A word that cannot be corrected is no codeword.
far_remainder : (val : ℕ) → correct_da val ≡ none → (gf2_remainder poly_da val == 0) ≡ false
far_remainder val h = elim (Bool-cases (gf2_remainder poly_da val == 0)) [
  | inl e ↦
      absurd (
        IsFar-none val h val 0 0 ((==_iff _ _).0 e) no_error (omega arith) (sym (bit_xor-zero val)))
  | inr e ↦ e
]

at_once :
    (masks : List ℕ) (val last : ℕ) (c : Corrected)
    → correct_da val ≡ some c
    → IsFirst
        (flipped_word masks val)
        val
        last
        (da_block (if gf2_remainder poly_da val == 0 then 0 else 1) c)
at_once masks val last c now = record {
  mask = 0;
  below = omega arith;
  corrected = c;
  near = rw (flip-zero masks 0 val) (correct_da-IsNear val c now);
  errs = refl;
  data_bits = refl;
  fixed = refl;
  earlier = λ m h. absurd (omega (arith, h));
}

-- Mask 0 and the masks from 1 on.
all-IsFar :
    (masks : List ℕ) (val n : ℕ)
    → correct_da val ≡ none
    → ((d : ℕ) → d < n → correct_da (flip masks (1 + d) 0 val) ≡ none)
    → (m : ℕ) → m < suc n
    → IsFar (flip masks m 0 val)
all-IsFar masks val n now rest zero h = rw (flip-zero masks 0 val) (IsFar-none val now)
all-IsFar masks val n now rest (suc d) h =
    let at : suc d ≡ 1 + d = omega arith in rw (at) (IsFar-none _ (rest d (omega (arith, h))))

after_masks :
    (masks : List ℕ) (val left : ℕ)
    → correct_da val ≡ none
    → IsSearch
        (flipped_word masks val)
        val
        left
        (elim (try_masks masks val left 1) as (λ _. Option DaBlock) [
          | some c ↦ some (da_block 1 c)
          | none ↦ none
        ])
after_masks masks val left now = elim (Option-cases (try_masks masks val left 1)) [
  | inl failed ↦
      let rest : (d : ℕ) → d < left → correct_da (flip masks (1 + d) 0 val) ≡ none = λ d h.
        elim (Option-cases (correct_da (flip masks (1 + d) 0 val))) [
          | inl e ↦ e
          | inr (c, e) ↦ absurd (try_masks-found masks val left 1 d h (λ n. cc (sym e ∙ n)) failed)
        ] in
      rw (failed) (λ m h. all-IsFar masks val left now rest m (omega (arith, h)))
  | inr (c, found) ↦
      let (d, below, at_mask, before) = try_masks-first masks val left 1 c found in
      rw (found) (record {
        mask = 1 + d;
        below = omega (arith, below);
        corrected = c;
        near = correct_da-IsNear _ c at_mask;
        errs = refl;
        data_bits = refl;
        fixed = rw (far_remainder val now) refl;
        earlier = λ m h. all-IsFar masks val d now before m (omega (arith, h));
      })
]

module _ {R : Type 0} (less : R → R → Bool) (zero_value : R) (use_chase : ℕ) where
  abbrev flipped : Option (List R) → List ℕ
  flipped none = []
  flipped (some llr) =
      flip_masks use_chase (select less zero_value llr use_chase 0 (positions 31 0))

  -- The positions that the selection puts in front; none without reliabilities.
  abbrev pub selected : Option (List R) → List ℕ
  selected none = []
  selected (some llr) = take use_chase (select less zero_value llr use_chase 0 (positions 31 0))

  flipped-selected :
      (llr : Option (List R)) (val m : ℕ)
      → flipped_word (flipped llr) val m ≡ toggled (selected llr) m val
  unfolding flip
  flipped-selected none val m = refl
  flipped-selected (some llr) val m =
      flip-toggled use_chase (select less zero_value llr use_chase 0 (positions 31 0)) m 0 val
      ∙ ap (λ n. toggled (selected (some llr)) n val) {x = m / 2 ^ 0} {y = m} (omega arith)

  abbrev pub last_mask : Option (List R) → ℕ
  last_mask none = 0
  last_mask (some llr) = 2 ^ use_chase - 1

  chase_bch_da-masks :
      (block31 : List ℕ) (llr31 : Option (List R))
      → let val = bits_to_uint block31 31 in
        IsSearch
          (flipped_word (flipped llr31) val)
          val
          (last_mask llr31)
          (chase_bch_da less zero_value use_chase block31 llr31)
  unfolding chase_bch_da
  chase_bch_da-masks block31 llr31 =
      let val = bits_to_uint block31 31 in
      elim (Option-cases (correct_da val)) [
        | inr (c, now) ↦
            rw (chase_bch_da, now) (at_once (flipped llr31) val (last_mask llr31) c now)
        | inl later ↦ by_llr val llr31 later
      ]
    where
      by_llr :
          (val : ℕ) (llr : Option (List R))
          → correct_da val ≡ none
          → IsSearch (flipped_word (flipped llr) val) val (last_mask llr) (elim (correct_da val) [
            | some c ↦ some (da_block (if gf2_remainder poly_da val == 0 then 0 else 1) c)
            | none ↦ elim llr [
              | none ↦ none
              | some l ↦
                  elim (try_masks (flipped (some l)) val (2 ^ use_chase - 1) 1)
                    as (λ _. Option DaBlock) [ some c ↦ some (da_block 1 c) | none ↦ none ]
            ]
          ])
      by_llr val none later =
          rw (later) (λ m h.
            all-IsFar [] val 0 later (λ d b. absurd (omega (arith, b))) m (omega (arith, h)))
      by_llr val (some l) later =
          rw (later) (after_masks (flipped (some l)) val (2 ^ use_chase - 1) later)

  -- Chase decoding with at most 7 positions, those that `select` puts in front, or none without
  -- reliabilities. A block is returned if a codeword of the BCH(31,20) code is within two errors of the
  -- word received, or of that word with some of the bits at these positions flipped, and otherwise none
  -- is. The combinations are tried in the order of their masks, 0, the word as received, first: the data
  -- bits are those of the codeword near the first that has one, the errors the number of bits in which the
  -- codeword differs from the flipped word; `fixed` is 0 exactly if the word received is a codeword.
  pub chase_bch_da-IsSearch :
      (block31 : List ℕ) (llr31 : Option (List R))
      → use_chase ≤ 7
      → let val = bits_to_uint block31 31 in
        IsSearch
          (λ m. toggled (selected llr31) m val)
          val
          (last_mask llr31)
          (chase_bch_da less zero_value use_chase block31 llr31)
  chase_bch_da-IsSearch block31 llr31 few =
      let val = bits_to_uint block31 31 in
      subst
        (λ (word : ℕ → ℕ).
          IsSearch word val (last_mask llr31)
            (chase_bch_da less zero_value use_chase block31 llr31))
        (λ i m. flipped-selected llr31 val m i) (chase_bch_da-masks block31 llr31)
