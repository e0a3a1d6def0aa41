-- ===== src/Detector/Create.antt =====
-- burst_detect.c, `burst_detector_create`: the settings with their defaults and the first state; and
-- window_func.c, `blackman_window`.
use iridium_sniffer.Base.{
  ℕ, zero, suc, ◌+◌, ◌-◌, ◌*◌, ◌/◌, ◌^◌, List, [], ◌∷◌, map, false, replicate, ltb, if◌then◌else◌,
}
use iridium_sniffer.Base.Int.{pos, pos_part}
use iridium_sniffer.Base.Doubles.{Doubles}
use iridium_sniffer.Detector.{Settings, Detector}

module _ (F : Doubles) where
  open F use {Double, of_int, to_int, add, sub, mul, div, lt, pi, cos, round, log2, pow, decimal}

  -- `burst_config_t`; an `int` that is not positive is 0 here.
  pub record Config : Type 0 where
    pub center_frequency : Double
    pub sample_rate : ℕ
    pub fft_size : ℕ
    pub burst_pre_len : ℕ
    pub burst_post_len : ℕ
    pub burst_width : ℕ
    pub max_bursts : ℕ
    pub max_burst_len : ℕ
    pub threshold : Double
    pub history_size : ℕ

  abbrev int : ℕ → Double
  int n = of_int (pos n)

  -- `(int)x` of a number that is not negative.
  abbrev truncate : Double → ℕ
  truncate x = pos_part (to_int x)

  -- The entries from `i` on, `k` of them.
  unfoldable pub blackman_from : ℕ → ℕ → ℕ → List Double
  blackman_from n zero i = []
  blackman_from n (suc k) i =
      let angle : ℕ → Double = λ m. div (mul (mul (int m) pi) (int i)) (int (n - 1)) in
      add (sub (decimal 42 2) (mul (decimal 5 1) (cos (angle 2))))
        (mul (decimal 8 2) (cos (angle 4)))
      ∷ blackman_from n k (i + 1)

  unfoldable pub blackman_window : ℕ → List Double
  blackman_window n = blackman_from n n 0

  abbrev or_default : ℕ → ℕ → ℕ
  or_default n d = if ltb 0 n then n else d

  unfoldable pub settings_of : Config → Settings F
  settings_of config =
      let rate = int config.sample_rate in
      let fft_size =
        or_default config.fft_size (2 ^ truncate (round (log2 (div rate (int 1000))))) in
      let pre = or_default config.burst_pre_len (2 * fft_size) in
      let post = or_default config.burst_post_len (truncate (mul rate (decimal 16 3))) in
      let width_hz = or_default config.burst_width 40_000 in
      let max_len = or_default config.max_burst_len (truncate (mul rate (decimal 9 2))) in
      let history = or_default config.history_size 512 in
      let threshold_db = if lt (int 0) config.threshold then config.threshold else int 16 in
      let minimum = max_len + post + pre in
      record {
        center_frequency = config.center_frequency;
        sample_rate = config.sample_rate;
        fft_size = fft_size;
        burst_pre_len = pre;
        burst_post_len = post;
        burst_width = width_hz / (config.sample_rate / fft_size);
        max_bursts =
            or_default config.max_bursts (truncate (mul (div rate (int width_hz)) (decimal 8 1)));
        max_burst_len = max_len;
        threshold =
            div (div (pow (int 10) (div threshold_db (int 10))) (int history)) (decimal 172 2);
        history_size = history;
        ringbuf_size = minimum + minimum / 4;
        window = map (λ w. div w (decimal 42 2)) (blackman_window fft_size);
      }

  -- The ring buffer is not cleared in the source; its cells are not read before they are written.
  unfoldable pub burst_detector_create : Config → Settings F × Detector F
  burst_detector_create config =
      let c = settings_of config in
      let zeros = replicate c.fft_size (int 0) in
      (
        c,
        record {
          baseline_history = replicate c.history_size zeros;
          baseline_sum = zeros;
          history_index = 0;
          history_primed = false;
          magnitude_shifted = zeros;
          relative_magnitude = zeros;
          burst_mask = replicate c.fft_size (int 1);
          bursts = [];
          new_bursts = [];
          gone_bursts = [];
          peaks = [];
          burst_id = 0;
          n_tagged_bursts = 0;
          sample_count = 0;
          index = 0;
          squelch_count = 0;
          peak_signal_db = int 0;
          ringbuf = record {
            cells = replicate c.ringbuf_size (record { re = int 0; im = int 0 });
            write = 0;
            start = 0;
          };
          start_time_ns = 0;
          pending_hw_ts = 0;
        },
      )
