-- ===== src/Bch/Tables.antt =====
-- frame_decode.c and ida_decode.c: the six syndrome tables and the errors they list.
use iridium_sniffer.Base.{
  ℕ, zero, suc, ◌≤◌, ◌<◌, ◌≡◌, refl, Bool, true, false, arith, ◌&&◌, ◌==◌, shl32, bit_or, ltb,
}
use iridium_sniffer.Base.Int.{ℤ, pos, negsuc}
use iridium_sniffer.Bch.{
  Table, entry_at, gf2_remainder, syn_ra, syn_hdr, syn_da, syn_lcw1, syn_lcw2, syn_lcw3, poly_ra,
  poly_hdr, poly_da, poly_lcw1, poly_lcw2, poly_lcw3,
}
use iridium_sniffer.Bch.Sound.{
  IsError, no_error, single, double, IsSound, build_syndrome_table-IsSound,
}

all_below : ℕ → (ℕ → Bool) → Bool
all_below zero p = true
all_below (suc n) p = p n && all_below n p

all_below-elim : (n : ℕ) (p : ℕ → Bool) (x : ℕ) → all_below n p ≡ true → x < n → p x ≡ true
unfolding all_below
all_below-elim zero p x h lt = absurd (omega arith)
all_below-elim (suc n) p x h lt = ground (arith, all_below-elim n p x)

abbrev is_pos : ℤ → ℕ → Bool
is_pos (pos n) k = n == k
is_pos (negsuc n) k = false

-- The table finds the error `e` of `k` bits, by a syndrome that is in range and not 0.
abbrev finds : ℕ → ℕ → Table → ℕ → ℕ → Bool
finds poly size syn k e =
    let r = gf2_remainder poly e in
    let entry = entry_at syn r in
    is_pos entry.errs k && (entry.locator == e) && ltb r size && ltb 0 r

abbrev finds_singles : ℕ → ℕ → Table → ℕ → Bool
finds_singles poly size syn n = all_below n (λ b. finds poly size syn 1 (shl32 1 b))

abbrev finds_doubles : ℕ → ℕ → Table → ℕ → Bool
finds_doubles poly size syn n =
    all_below n (λ c. all_below c (λ b. finds poly size syn 2 (bit_or (shl32 1 b) (shl32 1 c))))

-- Every error of 1 to `most` bits in a word of `n` bits is found.
pub record IsComplete (poly size : ℕ) (syn : Table) (n most : ℕ) : Type 0 where
  pub found :
      (k e : ℕ)
      → IsError n k e
      → 0 < k
      → k ≤ most
      → entry_at syn (gf2_remainder poly e) ≡ record { errs = pos k; locator = e }
  pub in_range :
      (k e : ℕ)
      → IsError n k e
      → 0 < k
      → k ≤ most
      → (gf2_remainder poly e < size) × (0 < gf2_remainder poly e)

module _ (poly size : ℕ) (syn : Table) where
  finds-elim :
      (k e : ℕ)
      → finds poly size syn k e ≡ true
      → (entry_at syn (gf2_remainder poly e) ≡ record { errs = pos k; locator = e })
        × (gf2_remainder poly e < size)
        × (0 < gf2_remainder poly e)
  finds-elim k e h = ground arith

  finds_error :
      (n k e : ℕ)
      → finds_singles poly size syn n ≡ true
      → (1 < k → finds_doubles poly size syn n ≡ true)
      → IsError n k e
      → 0 < k
      → finds poly size syn k e ≡ true
  finds_error n k e ones twos (no_error) h = absurd (omega arith)
  finds_error n k e ones twos (single b hb) h =
      all_below-elim n (λ j. finds poly size syn 1 (shl32 1 j)) b ones hb
  finds_error n k e ones twos (double b c hb hc) h =
      all_below-elim c (λ j. finds poly size syn 2 (bit_or (shl32 1 j) (shl32 1 c))) b
        (all_below-elim n
          (λ i. all_below i (λ j. finds poly size syn 2 (bit_or (shl32 1 j) (shl32 1 i)))) c
          (twos (omega arith)) hc)
        hb

  IsComplete-single : (n : ℕ) → finds_singles poly size syn n ≡ true → IsComplete poly size syn n 1
  IsComplete-single n ones = record {
    found = λ k e err h most. (finds-elim k e (at k e err h most)).0;
    in_range = λ k e err h most. let f = finds-elim k e (at k e err h most) in (f.1, f.2);
  }
    where
      at : (k e : ℕ) → IsError n k e → 0 < k → k ≤ 1 → finds poly size syn k e ≡ true
      at k e err h most = finds_error n k e ones (λ two. absurd (omega arith)) err h

  IsComplete-double :
      (n : ℕ)
      → finds_singles poly size syn n ≡ true
      → finds_doubles poly size syn n ≡ true
      → IsComplete poly size syn n 2
  IsComplete-double n ones twos = record {
    found = λ k e err h most. (finds-elim k e (at k e err h)).0;
    in_range = λ k e err h most. let f = finds-elim k e (at k e err h) in (f.1, f.2);
  }
    where
      at : (k e : ℕ) → IsError n k e → 0 < k → finds poly size syn k e ≡ true
      at k e err h = finds_error n k e ones (λ two. twos) err h

pub syn_ra-IsComplete : IsComplete poly_ra 1024 syn_ra 31 2
syn_ra-IsComplete = IsComplete-double poly_ra 1024 syn_ra 31 ones twos
  where
    ones : finds_singles poly_ra 1024 syn_ra 31 ≡ true
    ones = unfold all_below syn_ra in refl

    twos : finds_doubles poly_ra 1024 syn_ra 31 ≡ true
    twos = unfold all_below syn_ra in refl

syn_hdr-IsComplete : IsComplete poly_hdr 16 syn_hdr 7 1
unfolding all_below syn_hdr
syn_hdr-IsComplete = IsComplete-single poly_hdr 16 syn_hdr 7 refl

pub syn_da-IsComplete : IsComplete poly_da 2048 syn_da 31 2
unfolding all_below syn_da
syn_da-IsComplete = IsComplete-double poly_da 2048 syn_da 31 refl refl

syn_lcw1-IsComplete : IsComplete poly_lcw1 16 syn_lcw1 7 1
unfolding all_below syn_lcw1
syn_lcw1-IsComplete = IsComplete-single poly_lcw1 16 syn_lcw1 7 refl

syn_lcw2-IsComplete : IsComplete poly_lcw2 256 syn_lcw2 14 1
unfolding all_below syn_lcw2
syn_lcw2-IsComplete = IsComplete-single poly_lcw2 256 syn_lcw2 14 refl

syn_lcw3-IsComplete : IsComplete poly_lcw3 32 syn_lcw3 26 1
unfolding all_below syn_lcw3
syn_lcw3-IsComplete = IsComplete-single poly_lcw3 32 syn_lcw3 26 refl

syn_ra-IsSound : IsSound poly_ra 31 syn_ra
unfolding syn_ra
syn_ra-IsSound = build_syndrome_table-IsSound poly_ra 31 2 1024
