-- ===== src/Tests/Downmixer.antt =====
-- A downmixer with filters of one tap, and a burst of 120 equal samples.
use iridium_sniffer.Downmix.Create.Sizes.{IsLeast, next_pow2-IsLeast}
use iridium_sniffer.Base.{
  ◌^◌, ℕ, ◌+◌, ◌-◌, ◌*◌, ◌≤◌, ◌<◌, [], ◌∷◌, some, length, replicate, ◌≡◌, refl, arith,
}
use iridium_sniffer.Demod.{Direction}
use iridium_sniffer.Detector.{Sample, BurstData}
use iridium_sniffer.Filter.{
  generic_fir_ccf, generic_fir_ccf_dec, generic_fir_fff, generic_mag_squared, generic_max_float,
  generic_csquare_window, rotator_rotate_n,
}
use iridium_sniffer.Downmix.{
  DownmixFrame, correct_cfo, limit_noise, align_phase, frame_lengths, extract_frame, downmix_rest,
  burst_downmix_process,
}
use iridium_sniffer.Downmix.Steps.{
  Downmix, Library, filter_same, decimate_burst, decimation_of, find_burst_start, estimate_fine_cfo,
  correlate_sync, fft_unshift_index, fft_shift_index,
}
use iridium_sniffer.Downmix.Bounds.{IsInside, decimate_burst-IsInside}
use iridium_sniffer.Downmix.Create.{next_pow2, burst_downmix_create}
use iridium_sniffer.Downmix.Create.Ready.{IsReady, burst_downmix_create-IsReady}
use iridium_sniffer.Downmix.Cut.{IsCut, burst_downmix_process-IsCut}
use iridium_sniffer.Tests.{hertz}

abbrev one : Sample hertz
one = record { re = 1; im = 0 }

abbrev plain : Library hertz
plain = record { fft = λ xs. xs; ifft = λ xs. xs; cabs = λ x. x.re; cis = λ x. one }

abbrev downmix : Downmix hertz
downmix = record {
  output_sample_rate = 1;
  search_depth = 10;
  samples_per_symbol = 1;
  input_fir = 1 ∷ [];
  noise_fir = 1 ∷ [];
  start_fir = replicate 3 1;
  rrc_fir = 1 ∷ [];
  cfo_fft_size = 1;
  cfo_fft_total = 1;
  cfo_window = 1 ∷ [];
  corr_fft_size = 10;
  sync_search_len = 10;
  dl_sync_fft = replicate 10 one;
  ul_sync_fft = replicate 10 one;
  dl_sync_len = 10;
  ul_sync_len = 10;
  work_size = 1000;
  pre_start_samples = 1;
}

some_left : 0 < length (decimate_burst hertz downmix (replicate 6 one) 2 5).0
unfolding decimate_burst generic_fir_ccf_dec
some_left = omega arith

decimate_burst-IsInside_example :
    IsInside hertz downmix
      (replicate 6 one)
      (decimate_burst hertz downmix (replicate 6 one) 2 5).0
      (decimation_of hertz downmix 2)
decimate_burst-IsInside_example =
    decimate_burst-IsInside hertz downmix (replicate 6 one) 2 5 (omega arith) some_left

abbrev samples : BurstData hertz
samples = record {
  info = record {
    id = 7;
    start = 0;
    stop = 120;
    last_active = 110;
    center_bin = 4;
    magnitude = 20;
    noise = 3;
  };
  center_frequency = 1_700_000_000;
  sample_rate = 1;
  fft_size = 8;
  start_time_ns = 50;
  samples = replicate 120 one;
}

abbrev cut : DownmixFrame hertz
cut = record {
  id = 7;
  timestamp = 50;
  center_frequency = 1_700_000_000;
  sample_rate = 1;
  samples_per_symbol = 1;
  direction = Direction.downlink;
  magnitude = 20;
  noise = 3;
  uw_start = 0;
  samples = replicate 113 one;
}

is_cut : burst_downmix_process hertz plain downmix samples ≡ some cut
unfolding burst_downmix_process downmix_rest extract_frame frame_lengths align_phase limit_noise
    correct_cfo decimate_burst find_burst_start estimate_fine_cfo correlate_sync filter_same
    fft_unshift_index fft_shift_index generic_fir_ccf generic_fir_ccf_dec generic_fir_fff
    generic_mag_squared generic_max_float generic_csquare_window rotator_rotate_n
is_cut = refl

burst_downmix_process-IsCut_example :
    (n : ℕ) × IsCut hertz plain downmix samples n cut
    × (n ≤ 1000)
    × ((n - 1) * decimation_of hertz downmix 1 + 1 ≤ 120)
burst_downmix_process-IsCut_example =
    burst_downmix_process-IsCut hertz plain downmix samples cut is_cut

burst_downmix_create-IsReady_example :
    IsReady hertz
      (burst_downmix_create hertz plain (record { output_sample_rate = 0; search_depth = 0 }))
burst_downmix_create-IsReady_example =
    burst_downmix_create-IsReady hertz plain (record { output_sample_rate = 0; search_depth = 0 })

next_pow2-IsLeast_example : (k : ℕ) × (next_pow2 1120 ≡ 2 ^ k) × (k ≤ 30) × IsLeast 1120 k
next_pow2-IsLeast_example = next_pow2-IsLeast 1120 (omega arith)
