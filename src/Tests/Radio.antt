-- ===== src/Tests/Radio.antt =====
-- A ring buffer of four samples, a burst detector with two bursts, and a frame for it.
use iridium_sniffer.Base.{
  ℕ, ◌+◌, ◌<◌, ◌++◌, List, [], ◌∷◌, take, drop, true, replicate, some, inl, inr, ◌≡◌, refl, arith,
}
use iridium_sniffer.Circular.{Circular, push}
use iridium_sniffer.Circular.Contents.{contents, last_of, push-contents}
use iridium_sniffer.Detector.{Sample, Settings, Active, Peak, RingBuffer, Detector}
use iridium_sniffer.Detector.Track.{delete_gone_bursts}
use iridium_sniffer.Detector.Gone.{still_active, stopped, delete_gone_bursts-once}
use iridium_sniffer.Detector.Ring.{overwrite, write_block, ringbuf_write, ringbuf_extract}
use iridium_sniffer.Detector.Ring.History.{IsHistory, ringbuf_write-IsHistory}
use iridium_sniffer.Detector.Ring.Extract.{ringbuf_extract-history}
use iridium_sniffer.Detector.Feed.{process_magnitude_frame, feed_samples}
use iridium_sniffer.Detector.Feed.Whole.{feed_samples-drains, feed_samples-IsHistory}
use iridium_sniffer.Detector.Apart.{AreApart, centers}
use iridium_sniffer.Detector.Apart.Frame.{process_magnitude_frame-AreApart}
use iridium_sniffer.Tests.{hertz}

abbrev three : Circular ℕ
three = record { cells = 7 ∷ (8 ∷ (9 ∷ [])); head = 1; count = 3 }

push-contents_example : contents (push three 4) ≡ last_of 3 ((8 ∷ (9 ∷ (7 ∷ []))) ++ (4 ∷ []))
push-contents_example =
    push-contents three 4 (record { room = omega arith; filling = inr (refl, omega arith) })

abbrev sample : ℕ → Sample hertz
sample n = record { re = n; im = 0 }

abbrev ring : RingBuffer hertz
ring = record { cells = replicate 4 (sample 0); write = 0; start = 0 }

ring-IsHistory : IsHistory hertz ring []
ring-IsHistory = record {
  circular = record { room = omega arith; filling = inl (refl, omega arith) };
  newest = refl;
  write = refl;
  start = omega arith;
}

abbrev samples : List (Sample hertz)
samples = sample 1 ∷ (sample 2 ∷ (sample 3 ∷ []))

ringbuf_extract-history_example :
    ringbuf_extract hertz (ringbuf_write hertz ring 0 samples) 1 3 ≡ some (take 2 (drop 1 samples))
unfolding ringbuf_write write_block overwrite
ringbuf_extract-history_example =
    ringbuf_extract-history hertz (ringbuf_write hertz ring 0 samples) samples 1 3
      (ringbuf_write-IsHistory hertz ring [] samples ring-IsHistory (omega arith)) (omega arith)
      (omega arith) (omega arith)

-- Frames of two samples, bursts of four bins.
abbrev settings : Settings hertz
settings = record {
  center_frequency = 1_622_000_000;
  sample_rate = 1000;
  fft_size = 2;
  burst_pre_len = 2;
  burst_post_len = 2;
  burst_width = 4;
  max_bursts = 4;
  max_burst_len = 100;
  threshold = 5;
  history_size = 1;
  ringbuf_size = 4;
  window = 1 ∷ (1 ∷ []);
}

abbrev active : ℕ → ℕ → Active hertz
active center_bin last_active = record {
  id = 10;
  start = 2;
  stop = 0;
  last_active = last_active;
  center_bin = center_bin;
  magnitude = 6;
  noise = 1;
}

abbrev detector : ℕ → Detector hertz
detector index = record {
  baseline_history = (1 ∷ (1 ∷ [])) ∷ [];
  baseline_sum = 1 ∷ (1 ∷ []);
  history_index = 0;
  history_primed = true;
  magnitude_shifted = 0 ∷ (0 ∷ []);
  relative_magnitude = 0 ∷ (0 ∷ []);
  burst_mask = 1 ∷ (1 ∷ []);
  bursts = active 10 2 ∷ (active 20 8 ∷ []);
  new_bursts = [];
  gone_bursts = [];
  peaks = [];
  burst_id = 20;
  n_tagged_bursts = 0;
  sample_count = 0;
  index = index;
  squelch_count = 0;
  peak_signal_db = 0;
  ringbuf = ring;
  start_time_ns = 0;
  pending_hw_ts = 0;
}

abbrev unsorted : List (Peak hertz) → List (Peak hertz)
unsorted peaks = peaks

abbrev no_fft : List (Sample hertz) → List (Sample hertz)
no_fft x = x

feed_samples-IsHistory_example :
    IsHistory hertz
      (feed_samples hertz unsorted no_fft settings (detector 0) 5 samples).1.ringbuf
      samples
feed_samples-IsHistory_example =
    feed_samples-IsHistory hertz unsorted no_fft settings (detector 0) 5 [] samples ring-IsHistory
      refl (omega arith) (omega arith) (omega arith) (omega arith)

feed_samples-drains_example :
    ((feed_samples hertz unsorted no_fft settings (detector 0) 5 samples).1.sample_count ≡ 3)
    × (3 < (feed_samples hertz unsorted no_fft settings (detector 0) 5 samples).1.index + 2)
feed_samples-drains_example =
    feed_samples-drains hertz unsorted no_fft settings (detector 0) 5 samples (omega arith)
      (omega arith) (omega arith)

process_magnitude_frame-AreApart_example : AreApart 2 (
    centers hertz
      (process_magnitude_frame hertz unsorted settings (detector 9) (9 ∷ (1 ∷ []))).bursts)
process_magnitude_frame-AreApart_example =
    process_magnitude_frame-AreApart hertz settings unsorted refl (detector 9) (9 ∷ (1 ∷ []))
      ((omega arith, tt), (tt, tt))

-- The first burst has ended, the second one has not.
delete_gone_bursts-once_example :
    ((delete_gone_bursts hertz settings (detector 9)).bursts
      ≡ still_active hertz settings 9 (active 10 2 ∷ (active 20 8 ∷ [])))
    × ((delete_gone_bursts hertz settings (detector 9)).gone_bursts
        ≡ [] ++ stopped hertz settings 9 (active 10 2 ∷ (active 20 8 ∷ [])))
delete_gone_bursts-once_example = delete_gone_bursts-once hertz settings (detector 9)
