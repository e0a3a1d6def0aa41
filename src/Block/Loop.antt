-- ===== src/Block/Loop.antt =====
-- frame_decode.c: the loop over the remaining pairs of blocks, its buffer and its fuel.
use iridium_sniffer.Base.{
  ℕ, zero, suc, ◌+◌, ◌/◌, ◌%◌, ◌^◌, ◌≤◌, List, [], ◌∷◌, ◌++◌, Option, none, some, Bool, true, false,
  ◌&&◌, length, length-append, drop, leb, leb→le, if◌then◌else◌, Bool-cases, some_eq, sym,
  Option-cases, inl, inr, ◌≡◌, refl, ap, ◌∙◌, arith,
}
use iridium_sniffer.Bch.{
  bits_to_uint, uint_to_bits, write_bits, correct_word, poly_ra, syn_ra, Corrected,
}
use iridium_sniffer.Block.{
  Decoded, split_word, chase_bch_decode_p, check_parity32, accept_block, accept_pair, both,
  more_blocks, bch_ra_data,
}
use iridium_sniffer.Deinterleave.{de_interleave}

length-write_bits : (n val : ℕ) (r : List ℕ) → length (write_bits n val r) ≡ n + length r
unfolding write_bits
length-write_bits zero val r = omega arith
length-write_bits (suc n) val r = omega (arith, length-write_bits n (val / 2) (val % 2 ∷ r))

length-uint_to_bits : (n val : ℕ) → length (uint_to_bits val n) ≡ n
unfolding uint_to_bits
length-uint_to_bits n val = omega (arith, length-write_bits n val [])

-- A block that is accepted gives 21 bits.
length-accept_block : (block xs : List ℕ) → accept_block block ≡ some xs → length xs ≡ 21
length-accept_block block xs h =
    of_word (correct_word poly_ra syn_ra 1024 (bits_to_uint block 31))
      (unfold accept_block chase_bch_decode_p in h)
  where
    of_word :
        (w : Option Corrected)
        → (elim (elim w as (λ _. Option Decoded) [ none ↦ none | some c ↦ some (split_word c) ])
            as (λ _. Option (List ℕ)) [
              | none ↦ none
              | some d ↦
                  if check_parity32 block d.data_bits d.check_bits then some d.data_bits else none
            ])
          ≡ some xs
        → length xs ≡ 21
    of_word none q = absurd (cc q)
    of_word (some c) q =
        elim (Bool-cases (
          check_parity32 block (uint_to_bits (c.word / 2 ^ 10) bch_ra_data)
            (uint_to_bits (c.word % 2 ^ 10) 10))) [
              | inl passed ↦
                  (let e = rw (passed) at q in
                    sym (ap length (some_eq e)) ∙ length-uint_to_bits bch_ra_data (c.word / 2 ^ 10))
              | inr failed ↦ (let e = rw (failed) at q in absurd (cc e))
            ]

length-accept_pair : (input xs : List ℕ) → accept_pair input ≡ some xs → length xs ≡ 42
unfolding accept_pair
length-accept_pair input xs h =
    of_blocks (accept_block (de_interleave 0 input).0) (accept_block (de_interleave 0 input).1)
      (length-accept_block (de_interleave 0 input).0)
      (length-accept_block (de_interleave 0 input).1) h
  where
    of_blocks :
        (a b : Option (List ℕ))
        → ((ys : List ℕ) → a ≡ some ys → length ys ≡ 21)
        → ((ys : List ℕ) → b ≡ some ys → length ys ≡ 21)
        → both a b ≡ some xs
        → length xs ≡ 42
    of_blocks none b la lb q = absurd (cc q)
    of_blocks (some x) none la lb q = absurd (cc q)
    of_blocks (some x) (some y) la lb q =
        rw (sym (some_eq q)) (omega (arith, length-append x y, la x refl, lb y refl))

pair_room :
    (a : Bool) (size : ℕ) (s pair : List ℕ)
    → length pair ≡ 42
    → (a && leb (length s + 42) size) ≡ true
    → length (s ++ pair) ≤ size
pair_room false size s pair l h = absurd (cc h)
pair_room true size s pair l h = fit (length s) (length-append s pair) h
  where
    fit : (n : ℕ) {m : ℕ} → m ≡ n + length pair → leb (n + 42) size ≡ true → m ≤ size
    fit n e le = omega (arith, leb→le (n + 42) size le)

-- If the stream fits into the buffer of `size` bits before the loop over the remaining blocks, it
-- does so after it.
more_blocks-fits :
    (fuel : ℕ) (input : List ℕ) (limit size offset : ℕ) (bch_stream : List ℕ)
    → length bch_stream ≤ size
    → length (more_blocks fuel input limit size offset bch_stream) ≤ size
unfolding more_blocks
more_blocks-fits zero input limit size offset s h = h
more_blocks-fits (suc fuel) input limit size offset s h =
    elim (Bool-cases (leb (offset + 64) limit && leb (length s + 42) size)) [
      | inr stop ↦ rw (stop, more_blocks) h
      | inl more ↦ elim (Option-cases (accept_pair (drop offset input))) [
        | inl bad ↦ rw (more, bad, more_blocks) h
        | inr (pair, good) ↦
            rw (more, good, more_blocks)
              (more_blocks-fits fuel input limit size (offset + 64) (s ++ pair) (
                pair_room (leb (offset + 64) limit) size s pair (length-accept_pair _ pair good)
                  more))
      ]
    ]

full :
    (fuel : ℕ) (input : List ℕ) (limit size offset : ℕ) (s : List ℕ)
    → (leb (offset + 64) limit && leb (length s + 42) size) ≡ false
    → more_blocks fuel input limit size offset s ≡ s
unfolding more_blocks
full zero input limit size offset s h = refl
full (suc fuel) input limit size offset s h = rw (h, more_blocks) refl

no_room : (a : Bool) (n size : ℕ) → size ≤ n → (a && leb (n + 42) size) ≡ false
no_room false n size h = refl
no_room true n size h = ground arith

-- Fuel for as many rounds as there are bits left in the buffer is enough for the loop over the
-- remaining blocks: more fuel does not change its result.
more_blocks-enough :
    (fuel extra : ℕ) (input : List ℕ) (limit size offset : ℕ) (bch_stream : List ℕ)
    → size ≤ length bch_stream + fuel
    → more_blocks (fuel + extra) input limit size offset bch_stream
      ≡ more_blocks fuel input limit size offset bch_stream
unfolding more_blocks
more_blocks-enough zero extra input limit size offset s h =
    full (0 + extra) input limit size offset s
      (no_room (leb (offset + 64) limit) (length s) size (omega arith))
more_blocks-enough (suc fuel) extra input limit size offset s h = rw (succ) (
    by_tests (leb (offset + 64) limit && leb (length s + 42) size) (λ pair good.
      more_blocks-enough fuel extra input limit size (offset + 64) (s ++ pair)
        (omega (arith, length-append s pair, length-accept_pair (drop offset input) pair good))))
  where
    succ : suc fuel + extra ≡ suc (fuel + extra)
    succ = omega arith

    by_tests :
        (more : Bool)
        → ((pair : List ℕ)
            → accept_pair (drop offset input) ≡ some pair
            → more_blocks (fuel + extra) input limit size (offset + 64) (s ++ pair)
              ≡ more_blocks fuel input limit size (offset + 64) (s ++ pair))
        → (elim more as (λ _. List ℕ) [
          | false ↦ s
          | true ↦ elim (accept_pair (drop offset input)) [
            | none ↦ s
            | some pair ↦ more_blocks (fuel + extra) input limit size (offset + 64) (s ++ pair)
          ]
        ])
          ≡ (elim more as (λ _. List ℕ) [
            | false ↦ s
            | true ↦ elim (accept_pair (drop offset input)) [
              | none ↦ s
              | some pair ↦ more_blocks fuel input limit size (offset + 64) (s ++ pair)
            ]
          ])
    by_tests false same = refl
    by_tests true same = elim (Option-cases (accept_pair (drop offset input))) [
      | inl bad ↦ rw (bad) refl
      | inr (pair, good) ↦ rw (good) (same pair good)
    ]
