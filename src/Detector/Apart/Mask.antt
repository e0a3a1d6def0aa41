-- ===== src/Detector/Apart/Mask.antt =====
-- burst_detect.c, `mask_burst` and `update_burst_mask`: the bins of the mask that are 0.
use iridium_sniffer.Base.{
  ℕ, zero, suc, ◌+◌, ◌/◌, ◌≤◌, ◌<◌, List, [], ◌∷◌, ◌++◌, Bool-cases, inl, inr, length,
  length-replicate, get_or, replicate, leb, ◌≡◌, refl, sym, ap, ◌∙◌, arith,
}
use iridium_sniffer.Base.Int.{pos}
use iridium_sniffer.Base.Doubles.{Doubles}
use iridium_sniffer.Detector.{Settings, Detector, Active}
use mathlib.Core.List.{append_assoc, append-nil}
use iridium_sniffer.Detector.Apart.{centers}
use iridium_sniffer.Detector.Track.{fill, mask_burst, mask_all, update_burst_mask}

module _ {ℓ} {A : Type ℓ} where
  length-fill : (xs : List A) (a n : ℕ) (v : A) → length (fill xs a n v) ≡ length xs
  length-fill [] a n v = refl
  length-fill (x ∷ xs) zero zero v = refl
  length-fill (x ∷ xs) zero (suc n) v = ap suc (length-fill xs zero n v)
  length-fill (x ∷ xs) (suc a) n v = ap suc (length-fill xs a n v)

  fill-inside :
      (xs : List A) (a n k : ℕ) (v : A) → a ≤ k → k < a + n → get_or (fill xs a n v) k v ≡ v
  fill-inside [] a n k v h l = refl
  fill-inside (x ∷ xs) zero zero k v h l = absurd (omega arith)
  fill-inside (x ∷ xs) zero (suc n) zero v h l = refl
  fill-inside (x ∷ xs) zero (suc n) (suc k) v h l =
      fill-inside xs zero n k v (omega arith) (omega arith)
  fill-inside (x ∷ xs) (suc a) n zero v h l = absurd (omega arith)
  fill-inside (x ∷ xs) (suc a) n (suc k) v h l = fill-inside xs a n k v (omega arith) (omega arith)

  fill-keeps :
      (xs : List A) (a n k : ℕ) (v : A) → get_or xs k v ≡ v → get_or (fill xs a n v) k v ≡ v
  fill-keeps [] a n k v h = refl
  fill-keeps (x ∷ xs) zero zero k v h = h
  fill-keeps (x ∷ xs) zero (suc n) zero v h = refl
  fill-keeps (x ∷ xs) zero (suc n) (suc k) v h = fill-keeps xs zero n k v h
  fill-keeps (x ∷ xs) (suc a) n zero v h = h
  fill-keeps (x ∷ xs) (suc a) n (suc k) v h = fill-keeps xs a n k v h

  get_or-past : (xs : List A) (k : ℕ) (v : A) → length xs ≤ k → get_or xs k v ≡ v
  get_or-past [] k v h = refl
  get_or-past (x ∷ xs) zero v h = absurd (omega arith)
  get_or-past (x ∷ xs) (suc k) v h = get_or-past xs k v (omega arith)

module _ (F : Doubles) (c : Settings F) where
  open F use {Double, of_int}

  abbrev pub half : ℕ
  half = c.burst_width / 2

  -- The bin reads 0.
  abbrev pub IsZero : List Double → ℕ → Type 0
  IsZero mask k = get_or mask k (of_int (pos 0)) ≡ of_int (pos 0)

  -- All bins within half a width read 0.
  abbrev pub IsCovered : List Double → ℕ → Type 0
  IsCovered mask bin = (k : ℕ) → bin ≤ k + half → k ≤ bin + half → IsZero mask k

  abbrev pub AreCovered : List Double → List ℕ → Type 0
  AreCovered mask [] = Unit {0}
  AreCovered mask (b ∷ bins) = IsCovered mask b × AreCovered mask bins

  length-mask_burst :
      (mask : List Double) (bin : ℕ) → length (mask_burst F c mask bin) ≡ length mask
  unfolding mask_burst
  length-mask_burst mask bin = length-fill mask _ _ _

  mask_burst-keeps :
      (mask : List Double) (bin k : ℕ) → IsZero mask k → IsZero (mask_burst F c mask bin) k
  unfolding mask_burst
  mask_burst-keeps mask bin k z = fill-keeps mask _ _ k _ z

  mask_burst-covers :
      (mask : List Double) (bin : ℕ)
      → length mask ≡ c.fft_size
      → IsCovered (mask_burst F c mask bin) bin
  mask_burst-covers mask bin l k h h' = elim (Bool-cases (leb c.fft_size k)) [
    | inl e ↦
        get_or-past (mask_burst F c mask bin) k _ (ground (arith, length-mask_burst mask bin, l))
    | inr e ↦ elim (Bool-cases (leb c.fft_size (bin + half))) [
      | inl cut ↦
          unfold mask_burst in rw (cut) (fill-inside mask _ _ k _ (omega arith) (ground arith))
      | inr whole ↦
          unfold mask_burst in rw (whole) (fill-inside mask _ _ k _ (omega arith) (omega arith))
    ]
  ]

  mask_burst-AreCovered :
      (mask : List Double) (bin : ℕ) (bins : List ℕ)
      → AreCovered mask bins
      → AreCovered (mask_burst F c mask bin) bins
  mask_burst-AreCovered mask bin [] a = tt
  mask_burst-AreCovered mask bin (b ∷ bins) a =
      (λ k h h'. mask_burst-keeps mask bin k (a.0 k h h'), mask_burst-AreCovered mask bin bins a.1)

  AreCovered-append :
      (mask : List Double) (bins : List ℕ) (new : ℕ)
      → AreCovered mask bins
      → IsCovered mask new
      → AreCovered mask (bins ++ (new ∷ []))
  AreCovered-append mask [] new a i = (i, tt)
  AreCovered-append mask (b ∷ bins) new a i = (a.0, AreCovered-append mask bins new a.1 i)

  -- A mask of one frame that covers these bins.
  pub record IsMask (mask : List Double) (bins : List ℕ) : Type 0 where
    pub size : length mask ≡ c.fft_size
    pub covered : AreCovered mask bins

  pub mask_burst-IsMask :
      (mask : List Double) (bins : List ℕ) (new : ℕ)
      → IsMask mask bins
      → IsMask (mask_burst F c mask new) (bins ++ (new ∷ []))
  mask_burst-IsMask mask bins new m = record {
    size = length-mask_burst mask new ∙ m.size;
    covered =
        AreCovered-append (mask_burst F c mask new) bins new
          (mask_burst-AreCovered mask new bins m.covered) (mask_burst-covers mask new m.size);
  }

  mask_all-IsMask :
      (bursts : List (Active F)) (mask : List Double) (bins : List ℕ)
      → IsMask mask bins
      → IsMask (mask_all F c mask bursts) (bins ++ centers F bursts)
  unfolding mask_all
  mask_all-IsMask [] mask bins m = rw (append-nil bins) m
  mask_all-IsMask (b ∷ bursts) mask bins m =
      rw (sym (append_assoc bins (b.center_bin ∷ []) (centers F bursts))) (
        mask_all-IsMask bursts (mask_burst F c mask b.center_bin) (bins ++ (b.center_bin ∷ []))
          (mask_burst-IsMask mask bins b.center_bin m))

  pub update_burst_mask-IsMask :
      (d : Detector F) → IsMask (update_burst_mask F c d).burst_mask (centers F d.bursts)
  unfolding update_burst_mask
  update_burst_mask-IsMask d =
      mask_all-IsMask d.bursts (replicate c.fft_size (of_int (pos 1))) []
        (record { size = length-replicate _ _; covered = tt })
