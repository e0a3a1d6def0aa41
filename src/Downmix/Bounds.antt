-- ===== src/Downmix/Bounds.antt =====
-- burst_downmix.c: every step stays within the work buffers, and what a frame is cut from.
use native.Mathlib.Nat.{div-mul-le_self, div-le_self, mul-le-mul_right, min-le_left, min-le_right}
use iridium_sniffer.Base.{
  ℕ, zero, suc, ◌+◌, ◌-◌, ◌*◌, ◌/◌, ◌≤◌, ◌<◌, ◌≡◌, refl, List, [], ◌∷◌, ◌++◌, length, length-append,
  drop, min, replicate, ◌==◌, Bool-cases, inl, inr, false, arith,
}
use iridium_sniffer.Base.Doubles.{Doubles}
use iridium_sniffer.Detector.{Sample}
use iridium_sniffer.Filter.{c_zero, generic_fir_ccf, generic_fir_ccf_dec, c_mul, rotate_from}
use iridium_sniffer.Downmix.Steps.{Downmix, padded, filter_same, decimate_burst, decimation_of}

module _ (F : Doubles) where
  length-generic_fir_ccf :
      (taps : List (F.Double)) (xs : List (Sample F)) (n : ℕ)
      → length (generic_fir_ccf F taps xs n) ≡ n
  unfolding generic_fir_ccf
  length-generic_fir_ccf taps xs zero = refl
  length-generic_fir_ccf taps xs (suc n) = omega (arith, length-generic_fir_ccf taps (drop 1 xs) n)

  length-generic_fir_ccf_dec :
      (taps : List (F.Double)) (xs : List (Sample F)) (n decimation : ℕ)
      → length (generic_fir_ccf_dec F taps xs n decimation) ≡ n
  unfolding generic_fir_ccf_dec
  length-generic_fir_ccf_dec taps xs zero decimation = refl
  length-generic_fir_ccf_dec taps xs (suc n) decimation =
      omega (arith, length-generic_fir_ccf_dec taps (drop decimation xs) n decimation)

  pub length-filter_same :
      (taps : List (F.Double)) (xs : List (Sample F)) → length (filter_same F taps xs) ≡ length xs
  unfolding filter_same
  length-filter_same taps xs = length-generic_fir_ccf taps _ (length xs)

  pub length-rotate_from :
      (incr phase : Sample F) (xs : List (Sample F))
      → length (rotate_from F incr phase xs).0 ≡ length xs
  length-rotate_from incr phase [] = refl
  length-rotate_from incr phase (x ∷ xs) =
      omega (arith, length-rotate_from incr (c_mul F phase incr) xs)

  length-replicate : (n : ℕ) (x : Sample F) → length (replicate n x) ≡ n
  length-replicate zero x = refl
  length-replicate (suc n) x = omega (arith, length-replicate n x)

  length-padded :
      (taps : List (F.Double)) (xs : List (Sample F))
      → length (padded F taps xs) ≡ length xs + (length taps - 1)
  length-padded taps xs =
      let k = length taps - 1 in
      let zeros = replicate (k - k / 2) (c_zero F) in
      omega (
        arith,
        length-append (replicate (k / 2) (c_zero F)) (xs ++ zeros),
        length-append xs zeros,
        length-replicate (k / 2) (c_zero F),
        length-replicate (k - k / 2) (c_zero F),
      )

  -- What `decimate_burst` reads and what it leaves room for: the last sample that it reads is one of
  -- the samples, its output is in the work buffer, and so are that and anything shorter with the zeros
  -- of a filter around it, if the filter has no more taps than that of the input.
  pub record IsInside (dm : Downmix F) (xs out : List (Sample F)) (decimation : ℕ) : Type 0 where
    pub reads : (length out - 1) * decimation + length dm.input_fir ≤ length xs
    pub fits : length out ≤ dm.work_size
    pub room :
        (taps : List (F.Double)) (ys : List (Sample F))
        → length taps ≤ length dm.input_fir
        → length ys ≤ length out
        → length (padded F taps ys) ≤ dm.work_size

  decimation_pos : (dm : Downmix F) (rate : ℕ) → 1 ≤ decimation_of F dm rate
  decimation_pos dm rate = ground arith

  count :
      (q m k len ntaps decimation : ℕ)
      → suc k ≤ q
      → q * decimation ≤ m
      → m ≡ len + 1 - ntaps
      → 1 ≤ decimation
      → k * decimation + ntaps ≤ len
  count q m k len ntaps decimation l h e d =
      let more : suc k * decimation ≤ q * decimation = mul-le-mul_right decimation l in
      let next : suc k * decimation ≡ decimation + k * decimation = omega arith in
      omega (arith, more, next, h, e, d)

  -- If the samples fit into the work buffer and any come out of `decimate_burst`, the last sample read
  -- is one of them, and there is room in the buffer for what comes out, also with the zeros of a filter
  -- around it, or around less, if the filter has no more taps than that of the input.
  pub decimate_burst-IsInside :
      (dm : Downmix F) (xs : List (Sample F)) (rate timestamp : ℕ)
      → length xs ≤ dm.work_size
      → let out = (decimate_burst F dm xs rate timestamp).0 in
        0 < length out → IsInside dm xs out (decimation_of F dm rate)
  unfolding decimate_burst
  decimate_burst-IsInside dm xs rate timestamp h =
      let q = (length xs + 1 - length dm.input_fir) / decimation_of F dm rate in
      let n_out = min q dm.work_size in
      elim (Bool-cases (n_out == 0)) [
        | inl e ↦ rw (decimate_burst, e) (λ some_out. absurd (omega (arith, some_out)))
        | inr e ↦
            rw (decimate_burst, e)
              (λ some_out.
                inside q n_out e (min-le_left q dm.work_size) (min-le_right q dm.work_size) refl)
      ]
    where
      inside :
          (q n : ℕ)
          → (n == 0) ≡ false
          → n ≤ q
          → n ≤ dm.work_size
          → q ≡ (length xs + 1 - length dm.input_fir) / decimation_of F dm rate
          → IsInside dm xs
              (generic_fir_ccf_dec F dm.input_fir xs n (decimation_of F dm rate))
              (decimation_of F dm rate)
      inside q zero z l w e = absurd (ground arith)
      inside q (suc k) z l w e =
          let m = length xs + 1 - length dm.input_fir in
          let d = decimation_of F dm rate in
          let out = generic_fir_ccf_dec F dm.input_fir xs (suc k) d in
          let len : length out ≡ suc k = length-generic_fir_ccf_dec dm.input_fir xs (suc k) d in
          let short : q ≤ m = rw (e) (div-le_self m d) in
          let product : q * d ≤ m = rw (e) (div-mul-le_self m d) in
          let pred : length out - 1 ≡ k = omega (arith, len) in
          record {
            reads = rw (pred) (
                count q m k (length xs) (length dm.input_fir) d l product refl
                  (decimation_pos dm rate));
            fits = omega (arith, len, w);
            room = λ taps ys few ys_short.
                omega (arith, len, l, short, h, few, ys_short, length-padded taps ys);
          }
