-- ===== src/Detector/Kernels.antt =====
-- simd_generic.c: the scalar kernels that the burst detector calls, over whole arrays.
use iridium_sniffer.Base.{ℕ, ◌/◌, List, [], ◌∷◌, ◌++◌, map, take, drop, if◌then◌else◌}
use iridium_sniffer.Base.Int.{ℤ, pos}
use iridium_sniffer.Base.Doubles.{Doubles}
use iridium_sniffer.Detector.{Sample}

module _ (F : Doubles) where
  open F use {Double, of_int, add, sub, mul, div, lt}

  -- `out[i] = f(a[i], b[i])`
  abbrev pub zip_with {ℓ κ μ} :
      {A : Type ℓ} {B : Type κ} {C : Type μ} → (A → B → C) → List A → List B → List C
  zip_with f (a ∷ xs) (b ∷ ys) = f a b ∷ zip_with f xs ys
  zip_with f _ _ = []

  unfoldable pub generic_window_cf : List (Sample F) → List Double → List (Sample F)
  generic_window_cf samples window =
      zip_with (λ s w. record { re = mul s.re w; im = mul s.im w }) samples window

  abbrev pub power : Sample F → Double
  power s = add (mul s.re s.re) (mul s.im s.im)

  -- The two halves change places.
  unfoldable pub generic_fftshift_mag : List (Sample F) → ℕ → List Double
  generic_fftshift_mag fft_out fft_size =
      let half = fft_size / 2 in
      map power (take half (drop half fft_out)) ++ map power (take half fft_out)

  unfoldable pub generic_baseline_update : List Double → List Double → List Double → List Double
  generic_baseline_update sum old_hist new_mag =
      zip_with (λ s n. add s n) (zip_with (λ s o. sub s o) sum old_hist) new_mag

  unfoldable pub generic_relative_mag : List Double → List Double → List Double
  generic_relative_mag mag baseline =
      zip_with (λ m b. if lt (of_int (pos 0)) b then div m b else of_int (pos 0)) mag baseline

  -- Signed bytes, I before Q; an odd byte at the end is not read.
  unfoldable pub generic_convert_i8_cf : List ℤ → List (Sample F)
  generic_convert_i8_cf (re ∷ (im ∷ iq)) =
      record { re = div (of_int re) (of_int (pos 128)); im = div (of_int im) (of_int (pos 128)) }
      ∷ generic_convert_i8_cf iq
  generic_convert_i8_cf _ = []

  -- Interleaved floats.
  unfoldable pub convert_cf32 : List Double → List (Sample F)
  convert_cf32 (re ∷ (im ∷ iq)) = record { re = re; im = im } ∷ convert_cf32 iq
  convert_cf32 _ = []
