-- ===== src/Filter/Taps.antt =====
-- fir_filter.c: the taps of the filters. The number of taps is the length of the list.
use iridium_sniffer.Base.{
  ℕ, zero, suc, ◌-◌, ◌/◌, bit_or, List, [], ◌∷◌, map, replicate, ◌&&◌, if◌then◌else◌,
}
use iridium_sniffer.Base.Int.{pos, pos_part, sub_ℕ}
use iridium_sniffer.Base.Doubles.{Doubles}

module _ (F : Doubles) where
  open F use {Double, of_int, to_int, add, sub, mul, div, sqrt, fabs, sin, cos, pi, lt, decimal}

  abbrev int : ℕ → Double
  int n = of_int (pos n)

  -- `f` of the `n` indices from `i` on.
  abbrev pub tabulate : (ℕ → Double) → ℕ → ℕ → List Double
  tabulate f i zero = []
  tabulate f i (suc n) = f i ∷ tabulate f (suc i) n

  -- The sum behind `acc`, in order.
  abbrev sum_from : Double → List Double → Double
  sum_from acc [] = acc
  sum_from acc (x ∷ xs) = sum_from (add acc x) xs

  -- `sincf`
  unfoldable pub sincf : Double → Double
  sincf x = if lt (fabs x) (decimal 1 10) then int 1 else div (sin (mul pi x)) (mul pi x)

  -- `(i - center) / sps`
  abbrev time : ℕ → ℕ → Double → Double
  time ntaps i sps = div (of_int (sub_ℕ i (ntaps / 2))) sps

  unfoldable pub rrc_tap : Double → Double → Double
  rrc_tap alpha t =
      let four = mul (int 4) alpha in
      let at_corner = lt (fabs (sub (fabs t) (div (int 1) four))) (decimal 1 6) in
      let low = mul (mul pi t) (sub (int 1) alpha) in
      let high = mul (mul pi t) (add (int 1) alpha) in
      let four_t = mul four t in
      let corner =
        add (mul (add (int 1) (div (int 2) pi)) (sin (div pi four)))
          (mul (sub (int 1) (div (int 2) pi)) (cos (div pi four))) in
      let num = add (sin low) (mul four_t (cos high)) in
      let den = mul (mul pi t) (sub (int 1) (mul four_t four_t)) in
      if lt (fabs t) (decimal 1 10)
      then add (sub (int 1) alpha) (div four pi)
      else if at_corner
      then mul (div alpha (sqrt (int 2))) corner
      else div num den

  unfoldable pub rrc_taps : Double → Double → Double → Double → ℕ → List Double
  rrc_taps gain sample_rate symbol_rate alpha ntaps =
      let n = bit_or ntaps 1 in
      let sps = div sample_rate symbol_rate in
      let taps = tabulate (λ i. rrc_tap alpha (time n i sps)) 0 n in
      let energy = sum_from (int 0) (map (λ x. mul x x) taps) in
      map (λ x. mul x (div gain (sqrt energy))) taps

  unfoldable pub rc_tap : Double → Double → Double
  rc_tap alpha t =
      let two = mul (int 2) alpha in
      let at_corner =
        lt (int 0) alpha && lt (fabs (sub (fabs t) (div (int 1) two))) (decimal 1 6) in
      let cos_term = cos (mul (mul pi alpha) t) in
      let den = sub (int 1) (mul (mul two t) (mul two t)) in
      if lt (fabs t) (decimal 1 10)
      then int 1
      else if at_corner
      then mul (div pi (int 4)) (sincf (div (int 1) two))
      else div (mul (sincf t) cos_term) den

  unfoldable pub rc_taps : Double → Double → Double → ℕ → List Double
  rc_taps sample_rate symbol_rate alpha ntaps =
      let n = bit_or ntaps 1 in
      tabulate (λ i. rc_tap alpha (time n i (div sample_rate symbol_rate))) 0 n

  -- The window of a low-pass filter at `i`.
  abbrev blackman_harris : ℕ → ℕ → Double
  blackman_harris ntaps i =
      let angle : ℕ → Double = λ k. div (mul (mul (int k) pi) (int i)) (int (ntaps - 1)) in
      sub
        (add (sub (decimal 35_875 5) (mul (decimal 48_829 5) (cos (angle 2))))
          (mul (decimal 14_128 5) (cos (angle 4))))
        (mul (decimal 1_168 5) (cos (angle 6)))

  unfoldable pub lpf_tap : Double → ℕ → ℕ → Double
  lpf_tap omega_c ntaps i =
      let n = of_int (sub_ℕ i (ntaps / 2)) in
      let h =
        if lt (fabs n) (decimal 1 10)
        then div omega_c pi
        else div (sin (mul omega_c n)) (mul pi n) in
      mul h (blackman_harris ntaps i)

  unfoldable pub lpf_taps : Double → Double → Double → Double → List Double
  lpf_taps gain sample_rate cutoff_freq transition_width =
      let n = bit_or (pos_part (to_int (div (int 4) (div transition_width sample_rate)))) 1 in
      let omega_c = div (mul (mul (int 2) pi) cutoff_freq) sample_rate in
      let taps = tabulate (lpf_tap omega_c n) 0 n in
      let energy = sum_from (int 0) taps in
      if lt (int 0) (fabs energy) then map (λ x. mul x (div gain energy)) taps else taps

  unfoldable pub box_taps : ℕ → List Double
  box_taps n = replicate n (div (int 1) (int n))
