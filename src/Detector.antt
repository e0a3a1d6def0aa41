-- ===== src/Detector.antt =====
-- burst_detect.c: the state of the burst detector. Samples come in, bursts go out: the noise floor
-- (`update_filters_pre`, `update_filters_post`), the bursts that are on the air, and the ring buffer
-- of the samples they are cut from.
pub mod Create
pub mod Ring
pub mod Kernels
pub mod Sweep
pub mod Noise
pub mod Track
pub mod Gone
pub mod Feed
pub mod Apart
use iridium_sniffer.Base.{ℕ, List, Bool}
use iridium_sniffer.Base.Doubles.{Doubles}

module _ (F : Doubles) where
  open F use {Double}

  -- `float complex`; `float` and `double` share one type.
  pub record Sample : Type 0 where
    pub re : Double
    pub im : Double

  -- What `burst_detector_create` fixes. The lengths are positive or 0.
  pub record Settings : Type 0 where
    pub center_frequency : Double
    pub sample_rate : ℕ
    pub fft_size : ℕ
    pub burst_pre_len : ℕ
    pub burst_post_len : ℕ
    pub burst_width : ℕ
    pub max_bursts : ℕ
    pub max_burst_len : ℕ
    pub threshold : Double
    pub history_size : ℕ
    pub ringbuf_size : ℕ
    pub window : List Double

  -- `active_burst_t`
  pub record Active : Type 0 where
    pub id : ℕ
    pub start : ℕ
    pub stop : ℕ
    pub last_active : ℕ
    pub center_bin : ℕ
    pub magnitude : Double
    pub noise : Double

  -- `peak_t`
  pub record Peak : Type 0 where
    pub bin : ℕ
    pub relative_magnitude : Double

  -- The ring buffer; `start` is `ringbuf_start`, the number of the oldest sample in it.
  pub record RingBuffer : Type 0 where
    pub cells : List Sample
    pub write : ℕ
    pub start : ℕ

  -- `struct _burst_detector`, without the settings and the buffers that the GPU and FFTW fill; the
  -- arrays that grow are lists. A row of `baseline_history` is one frame.
  pub record Detector : Type 0 where
    pub baseline_history : List (List Double)
    pub baseline_sum : List Double
    pub history_index : ℕ
    pub history_primed : Bool
    pub magnitude_shifted : List Double
    pub relative_magnitude : List Double
    pub burst_mask : List Double
    pub bursts : List Active
    pub new_bursts : List Active
    pub gone_bursts : List Active
    pub peaks : List Peak
    pub burst_id : ℕ
    pub n_tagged_bursts : ℕ
    pub sample_count : ℕ
    pub index : ℕ
    pub squelch_count : ℕ
    pub peak_signal_db : Double
    pub ringbuf : RingBuffer
    pub start_time_ns : ℕ
    pub pending_hw_ts : ℕ

  -- `burst_data_t` with its `burst_info_t`.
  pub record BurstData : Type 0 where
    pub info : Active
    pub center_frequency : Double
    pub sample_rate : ℕ
    pub fft_size : ℕ
    pub start_time_ns : ℕ
    pub samples : List Sample
