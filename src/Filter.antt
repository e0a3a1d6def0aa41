-- ===== src/Filter.antt =====
-- The filters of the downmixer: the scalar kernels of simd_generic.c that fir_filter.c calls, and
-- the rotator of rotator.h. A pointer into an array is the list from there on.
pub mod Taps
use iridium_sniffer.Base.{ℕ, zero, suc, ◌+◌, ◌-◌, ◌^◌, List, [], ◌∷◌, map, drop, if◌then◌else◌}
use iridium_sniffer.Base.Int.{pos, negsuc}
use iridium_sniffer.Base.Doubles.{Doubles}
use iridium_sniffer.Detector.{Sample}
use iridium_sniffer.Detector.Kernels.{zip_with, power}

module _ (F : Doubles) where
  open F use {Double, of_int, add, sub, mul, div, lt}

  abbrev int : ℕ → Double
  int n = of_int (pos n)

  -- Sums and products of complex numbers, a complex number by a real one.
  abbrev pub c_add : Sample F → Sample F → Sample F
  c_add a b = record { re = add a.re b.re; im = add a.im b.im }

  abbrev pub c_mul : Sample F → Sample F → Sample F
  c_mul a b = record {
    re = sub (mul a.re b.re) (mul a.im b.im);
    im = add (mul a.re b.im) (mul a.im b.re);
  }

  abbrev pub scale : Double → Sample F → Sample F
  scale w a = record { re = mul w a.re; im = mul w a.im }

  abbrev pub c_div : Sample F → Double → Sample F
  c_div a x = record { re = div a.re x; im = div a.im x }

  abbrev pub conj : Sample F → Sample F
  conj a = record { re = a.re; im = mul a.im (of_int (negsuc 0)) }

  abbrev pub c_zero : Sample F
  c_zero = record { re = int 0; im = int 0 }

  abbrev pub c_one : Sample F
  c_one = record { re = int 1; im = int 0 }

  -- `acc += taps[k] * in[i + k]` for all taps.
  abbrev pub taps_ccf : List Double → List (Sample F) → Sample F → Sample F
  taps_ccf [] xs acc = acc
  taps_ccf (t ∷ taps) [] acc = acc
  taps_ccf (t ∷ taps) (x ∷ xs) acc = taps_ccf taps xs (c_add acc (scale t x))

  abbrev pub taps_fff : List Double → List Double → Double → Double
  taps_fff [] xs acc = acc
  taps_fff (t ∷ taps) [] acc = acc
  taps_fff (t ∷ taps) (x ∷ xs) acc = taps_fff taps xs (add acc (mul t x))

  unfoldable pub generic_fir_ccf : List Double → List (Sample F) → ℕ → List (Sample F)
  generic_fir_ccf taps xs zero = []
  generic_fir_ccf taps xs (suc n) = taps_ccf taps xs c_zero ∷ generic_fir_ccf taps (drop 1 xs) n

  unfoldable pub generic_fir_ccf_dec : List Double → List (Sample F) → ℕ → ℕ → List (Sample F)
  generic_fir_ccf_dec taps xs zero decimation = []
  generic_fir_ccf_dec taps xs (suc n_out) decimation =
      taps_ccf taps xs c_zero ∷ generic_fir_ccf_dec taps (drop decimation xs) n_out decimation

  unfoldable pub generic_fir_fff : List Double → List Double → ℕ → List Double
  generic_fir_fff taps xs zero = []
  generic_fir_fff taps xs (suc n) = taps_fff taps xs (int 0) ∷ generic_fir_fff taps (drop 1 xs) n

  unfoldable pub generic_mag_squared : List (Sample F) → List Double
  generic_mag_squared xs = map (power F) xs

  -- The maximum of `max_val` and the array.
  abbrev pub max_from : Double → List Double → Double
  max_from max_val [] = max_val
  max_from max_val (x ∷ xs) = max_from (if lt max_val x then x else max_val) xs

  unfoldable pub generic_max_float : List Double → Double
  generic_max_float xs = max_from (sub (int 0) (int (10 ^ 30))) xs

  unfoldable pub generic_csquare_window : List (Sample F) → List Double → List (Sample F)
  generic_csquare_window xs window = zip_with F (λ s w. scale w (c_mul s s)) xs window

  -- `rotator_t`
  pub record Rotator : Type 0 where
    pub phase : Sample F
    pub phase_incr : Sample F

  -- The loop of `rotator_rotate_n`: what it writes, and the phase behind it.
  abbrev pub rotate_from : Sample F → Sample F → List (Sample F) → List (Sample F) × Sample F
  rotate_from incr phase [] = ([], phase)
  rotate_from incr phase (x ∷ xs) =
      let (out, last) = rotate_from incr (c_mul phase incr) xs in (c_mul x phase ∷ out, last)

  -- `cabs` is the function of C.
  unfoldable pub rotator_rotate_n :
      (Sample F → Double) → Rotator → List (Sample F) → List (Sample F) × Rotator
  rotator_rotate_n cabs r xs =
      let (out, phase) = rotate_from r.phase_incr r.phase xs in
      let mag = cabs phase in
      (out, record r { phase = if lt (int 0) mag then c_div phase mag else phase })
