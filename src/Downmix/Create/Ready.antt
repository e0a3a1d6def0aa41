-- ===== src/Downmix/Create/Ready.antt =====
-- burst_downmix.c, `burst_downmix_create`: the parts of the downmixer fit to each other.
use iridium_sniffer.Base.{
  ℕ, zero, suc, ◌+◌, ◌*◌, ◌^◌, ◌≤◌, length, replicate, ltb, if◌then◌else◌, ◌≡◌, refl, arith,
}
use iridium_sniffer.Base.Doubles.{Doubles}
use iridium_sniffer.Detector.Create.{blackman_from, blackman_window}
use iridium_sniffer.Filter.Taps.{rrc_taps, box_taps}
use iridium_sniffer.Downmix.Steps.{Downmix, Library}
use iridium_sniffer.Downmix.Create.{next_pow2, DownmixConfig, burst_downmix_create}
use iridium_sniffer.Downmix.Create.Sizes.{next_pow2_lem}

has_room : (n m : ℕ) → n ≤ next_pow2 (n + m)
has_room n m = let (k, is, l) = next_pow2_lem (n + m) in rw (is) (omega (arith, l.above))

module _ (F : Doubles) where
  length-blackman_from : (n k i : ℕ) → length (blackman_from F n k i) ≡ k
  unfolding blackman_from
  length-blackman_from n zero i = refl
  length-blackman_from n (suc k) i = omega (arith, length-blackman_from n k (i + 1))

  length-box_taps : (n : ℕ) → length (box_taps F n) ≡ n
  unfolding box_taps
  length-box_taps n = same n _
    where
      same : (n : ℕ) (x : F.Double) → length (replicate n x) ≡ n
      same zero x = refl
      same (suc n) x = omega (arith, same n x)

  length-rrc_taps :
      (gain sample_rate symbol_rate alpha : F.Double)
      → length (rrc_taps F gain sample_rate symbol_rate alpha 51) ≡ 51
  unfolding rrc_taps
  length-rrc_taps gain sample_rate symbol_rate alpha = refl

  at_least_three : (n : ℕ) → 3 ≤ (if ltb n 3 then 3 else n)
  at_least_three n = ground arith

  pub record IsReady (dm : Downmix F) : Type 0 where
    pub window : length dm.cfo_window ≡ dm.cfo_fft_size
    pub oversampled : dm.cfo_fft_total ≡ 16 * dm.cfo_fft_size
    pub smoothing : 3 ≤ length dm.start_fir
    pub matched : length dm.rrc_fir ≡ 51
    pub power_of_two : (k : ℕ) × (dm.corr_fft_size ≡ 2 ^ k)
    pub room : dm.sync_search_len ≤ dm.corr_fft_size
    pub depth : 1 ≤ dm.search_depth
    pub rate : 1 ≤ dm.output_sample_rate

  -- Whatever the configuration is, the window has the size of its FFT, which is padded to 16 times its
  -- length, the filters for the start and the symbols have at least 3 and just 51 taps, the FFT of the
  -- correlation is a power of two with room for the samples that are searched, and the rate and the
  -- depth of the search are positive.
  pub burst_downmix_create-IsReady :
      (L : Library F) (config : DownmixConfig F) → IsReady (burst_downmix_create F L config)
  unfolding burst_downmix_create blackman_window
  burst_downmix_create-IsReady L config =
      let (k, is, l) = next_pow2_lem _ in
      record {
        window = length-blackman_from _ _ 0;
        oversampled = omega arith;
        smoothing = omega (arith, at_least_three _, length-box_taps _);
        matched = length-rrc_taps _ _ _ _;
        power_of_two = (k, is);
        room = has_room _ _;
        depth = ground arith;
        rate = ground arith;
      }
