-- ===== src/Detector/Ring/History.antt =====
-- burst_detect.c, `ringbuf_write` against the list of all samples so far.
use iridium_sniffer.Base.{
  ℕ, ◌+◌, ◌-◌, ◌%◌, ◌≤◌, List, ◌++◌, length, min, length-append, length-drop, ltb, if◌then◌else◌,
  ◌≡◌, sym, ap, ap₂, ◌∙◌, arith,
}
use native.Mathlib.Nat.{mod-add-mod}
use iridium_sniffer.Base.Doubles.{Doubles}
use iridium_sniffer.Circular.{Circular}
use iridium_sniffer.Circular.Contents.{IsCircular, contents, last_of}
use iridium_sniffer.Circular.Lookup.{length-contents}
use iridium_sniffer.Detector.{Sample, RingBuffer}
use iridium_sniffer.Detector.Ring.{ringbuf_write}
use iridium_sniffer.Detector.Ring.Pushes.{pushes, write_block-pushes}
use iridium_sniffer.Detector.Ring.Entries.{
  last_of-append, head_below, pushes-contents, size-pushes, head-pushes,
}

module _ (F : Doubles) where
  -- The buffer with the number of its entries, out of the number of samples so far.
  abbrev pub circular_of : RingBuffer F → ℕ → Circular (Sample F)
  circular_of r total = record {
    cells = r.cells;
    head = r.write;
    count = min total (length r.cells);
  }

  -- The buffer holds the last samples of the history, and nothing newer counts as overwritten.
  pub record IsHistory (r : RingBuffer F) (history : List (Sample F)) : Type 0 where
    pub circular : IsCircular (circular_of r (length history))
    pub newest : contents (circular_of r (length history)) ≡ last_of (length r.cells) history
    pub write : r.write ≡ length history % length r.cells
    pub start : r.start ≤ length history - length r.cells

  start_below :
      (r : RingBuffer F) (total : ℕ) (samples : List (Sample F))
      → r.start ≤ total - length r.cells
      → (ringbuf_write F r total samples).start ≤ total - length r.cells
  unfolding ringbuf_write
  start_below r total samples h = by_wrap r.start total (length r.cells) h
    where
      by_wrap : (a t n : ℕ) → a ≤ t - n → (if ltb n t then t - n else a) ≤ t - n
      by_wrap a t n h = ground arith

  -- Writing a buffer of samples, no longer than the ring buffer, adds them to the history: the ring
  -- buffer then holds the last samples of the longer history, as many as fit.
  pub ringbuf_write-IsHistory :
      (r : RingBuffer F) (history samples : List (Sample F))
      → IsHistory r history
      → length samples ≤ length r.cells
      → IsHistory (ringbuf_write F r (length history) samples) (history ++ samples)
  ringbuf_write-IsHistory r history samples h l =
      let size = length r.cells in
      let c = circular_of r (length history) in
      let p = pushes c samples in
      let r' = ringbuf_write F r (length history) samples in
      let block = write_block-pushes samples c (head_below c h.circular).0 l in
      let cells : r'.cells ≡ p.cells = unfold ringbuf_write in ap (λ b. b.0) block in
      let write : r'.write ≡ p.head = unfold ringbuf_write in ap (λ b. b.1) block in
      let same_size : length p.cells ≡ size = size-pushes samples c in
      let (valid, entries) = pushes-contents samples c h.circular in
      let all : contents p ≡ last_of size (history ++ samples) =
        entries
        ∙ ap (λ e. last_of size (e ++ samples)) h.newest
        ∙ last_of-append size history samples in
      let count : min (length (history ++ samples)) (length r'.cells) ≡ p.count =
        ap (λ cs. min (length (history ++ samples)) (length cs)) cells
        ∙ omega (
          arith,
          same_size,
          ap length all,
          length-contents p valid,
          length-drop (length (history ++ samples) - size) (history ++ samples),
        ) in
      let same : circular_of r' (length (history ++ samples)) ≡ p =
        ap₂ (λ cs k. record { cells = cs; head = r'.write; count = k }) cells count
        ∙ ap (λ w. record { cells = p.cells; head = w; count = p.count }) write in
      record {
        circular = rw (same) valid;
        newest =
            ap contents same
            ∙ all
            ∙ ap (λ n. last_of n (history ++ samples)) (sym (ap length cells ∙ same_size));
        write =
            rw (write, cells, same_size)
              (head-pushes samples c (head_below c h.circular).0
                ∙ ap (λ w. (w + length samples) % size) h.write
                ∙ mod-add-mod (length history) size (length samples)
                ∙ ap (λ k. k % size) (sym (length-append history samples)));
        start = omega (
          arith,
          ap length cells,
          same_size,
          h.start,
          start_below r (length history) samples h.start,
          length-append history samples,
        );
      }
