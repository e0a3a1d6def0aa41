-- ===== src/Detector/Ring.antt =====
-- burst_detect.c: `ringbuf_write` and `ringbuf_extract`.
pub mod Pushes
pub mod Entries
pub mod History
pub mod Extract
use iridium_sniffer.Base.{
  ℕ, ◌+◌, ◌-◌, ◌%◌, List, [], ◌∷◌, ◌++◌, Option, none, some, length, take, drop, ltb, leb, ◌==◌,
  if◌then◌else◌,
}
use iridium_sniffer.Base.Doubles.{Doubles}
use iridium_sniffer.Detector.{Sample, RingBuffer}

-- memcpy of a block to index `at`.
unfoldable pub overwrite {ℓ} : {A : Type ℓ} → List A → ℕ → List A → List A
overwrite cells at block = take at cells ++ (block ++ drop (at + length block) cells)

-- The cells and the write position after a block, which may go around the end once.
unfoldable pub write_block {ℓ} : {A : Type ℓ} → List A → ℕ → List A → List A × ℕ
write_block cells pos samples =
    let n = length samples in
    let first = length cells - pos in
    if leb (pos + n) (length cells)
    then (overwrite cells pos samples, if pos + n == length cells then 0 else pos + n)
    else (overwrite (overwrite cells pos (take first samples)) 0 (drop first samples), n - first)

-- `len` cells from index `pos` on, around the end at most once.
unfoldable pub read_block {ℓ} : {A : Type ℓ} → List A → ℕ → ℕ → List A
read_block cells pos len =
    if leb (pos + len) (length cells)
    then take len (drop pos cells)
    else drop pos cells ++ take (len - (length cells - pos)) cells

module _ (F : Doubles) where
  -- `sample_count` is what it was before these samples.
  unfoldable pub ringbuf_write : RingBuffer F → ℕ → List (Sample F) → RingBuffer F
  ringbuf_write r sample_count samples =
      let (cells, write) = write_block r.cells r.write samples in
      let size = length r.cells in
      record {
        cells = cells;
        write = write;
        start = if ltb size sample_count then sample_count - size else r.start;
      }

  -- None where the length is 0 and NULL is returned.
  unfoldable pub ringbuf_extract : RingBuffer F → ℕ → ℕ → Option (List (Sample F))
  ringbuf_extract r start stop =
      let start' = if ltb start r.start then r.start else start in
      if leb stop start'
      then none
      else some (read_block r.cells (start' % length r.cells) (stop - start'))
