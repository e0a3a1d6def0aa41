-- ===== src/Detector/Ring/Extract.antt =====
-- burst_detect.c, `ringbuf_extract` against the list of all samples so far.
use iridium_sniffer.Base.{
  ℕ, ◌+◌, ◌-◌, ◌%◌, ◌≤◌, ◌<◌, List, ◌++◌, some, false, Bool-cases, inl, inr, length, min, list_ext,
  length-append, length-drop, length-take, get_elem?, get_elem?-take, get_elem?-drop,
  get_elem?-past, get_elem?-append_left, get_elem?-append_right, take, drop, ltb, ltb→lt, not_below,
  leb, leb→le, if◌then◌else◌, ◌≡◌, refl, sym, ap, ◌∙◌, arith,
}
use native.Mathlib.Nat.{mod-eq_of_lt, mod-lt, mod-add-mod, add-mod_right}
use iridium_sniffer.Base.Doubles.{Doubles}
use iridium_sniffer.Circular.Contents.{contents}
use iridium_sniffer.Circular.Lookup.{get_elem?-rotated}
use iridium_sniffer.Detector.{Sample, RingBuffer}
use iridium_sniffer.Detector.Ring.{read_block, ringbuf_extract}
use iridium_sniffer.Detector.Ring.Entries.{head_below}
use iridium_sniffer.Detector.Ring.History.{circular_of, IsHistory}

module _ {ℓ} {A : Type ℓ} where
  -- A block is the cells from `pos` on, modulo the size.
  get_elem?-read_block :
      (cells : List A) (pos len k : ℕ)
      → pos < length cells
      → len ≤ length cells
      → k < len
      → get_elem? (read_block cells pos len) k ≡ get_elem? cells ((pos + k) % length cells)
  unfolding read_block
  get_elem?-read_block cells pos len k h l m = elim (Bool-cases (leb (pos + len) (length cells))) [
    | inl e ↦
        rw (e, mod-eq_of_lt {n = pos + k} {m = length cells} (omega (arith, leb→le _ _ e)))
          (get_elem?-take (drop pos cells) len k m ∙ get_elem?-drop cells pos k)
    | inr e ↦ rw (e) (elim (Bool-cases (ltb (pos + k) (length cells))) [
      | inl f ↦
          get_elem?-append_left (drop pos cells) _ k
            (omega (arith, length-drop pos cells, ltb→lt _ _ f))
          ∙ get_elem?-drop cells pos k
          ∙ ap (get_elem? cells) (sym (mod-eq_of_lt (ltb→lt _ _ f)))
      | inr f ↦
          let past = not_below _ _ f in
          let d : length (drop pos cells) ≡ length cells - pos = length-drop pos cells in
          let w : (pos + k) % length cells ≡ k - (length cells - pos) =
            ap (λ i. i % length cells) {x = pos + k} {y = (k - (length cells - pos)) + length cells}
              (omega arith)
            ∙ add-mod_right (k - (length cells - pos)) (length cells)
            ∙ mod-eq_of_lt (omega arith) in
          get_elem?-append_right (drop pos cells) _ k (omega arith)
          ∙ rw (d) (
              get_elem?-take cells (len - (length cells - pos)) (k - (length cells - pos))
                (omega arith))
          ∙ ap (get_elem? cells) (sym w)
    ])
  ]

  length-read_block :
      (cells : List A) (pos len : ℕ)
      → pos < length cells
      → len ≤ length cells
      → length (read_block cells pos len) ≡ len
  unfolding read_block
  length-read_block cells pos len h l = elim (Bool-cases (leb (pos + len) (length cells))) [
    | inl e ↦
        rw (e)
          (omega (arith, leb→le _ _ e, length-take len (drop pos cells), length-drop pos cells))
    | inr e ↦ rw (e) (
        omega (
          arith,
          over (pos + len) (length cells) e,
          length-append (drop pos cells) (take (len - (length cells - pos)) cells),
          length-drop pos cells,
          length-take (len - (length cells - pos)) cells,
        ))
  ]
    where
      over : (a b : ℕ) → leb a b ≡ false → b < a
      over a b h = ground arith

module _ (F : Doubles) where
  -- Where a sample of the history lies.
  cell_of :
      (r : RingBuffer F) (history : List (Sample F)) (t : ℕ)
      → IsHistory F r history
      → length history - length r.cells ≤ t
      → t < length history
      → get_elem? r.cells (t % length r.cells) ≡ get_elem? history t
  cell_of r history t h old new =
      let size = length r.cells in
      let total = length history in
      let j = t - (total - size) in
      elim (Bool-cases (ltb (min total size) size)) [
        | inl e ↦
            let few : min total size ≡ total = omega (arith, ltb→lt _ _ e) in
            let all : contents (circular_of F r total) ≡ take total r.cells = rw (e, few) refl in
            ap (get_elem? r.cells) (mod-eq_of_lt {n = t} {m = size} (omega (arith, ltb→lt _ _ e)))
            ∙ sym (get_elem?-take r.cells total t new)
            ∙ ap (λ l. get_elem? l t) (sym all ∙ h.newest)
            ∙ get_elem?-drop history (total - size) t
            ∙ ap (get_elem? history) (omega (arith, ltb→lt _ _ e))
        | inr e ↦
            let full = not_below _ _ e in
            let all : contents (circular_of F r total)
                ≡ drop r.write r.cells ++ take r.write r.cells =
              rw (e) refl in
            let turn : t % size ≡ (r.write + j) % size = sym (
              ap (λ w. (w + j) % size) h.write
              ∙ mod-add-mod total size j
              ∙ ap (λ k. k % size) {x = total + j} {y = t + size} (omega arith)
              ∙ add-mod_right t size) in
            ap (get_elem? r.cells) turn
            ∙ get_elem?-rotated r.cells r.write j (head_below _ h.circular).0 (omega arith)
            ∙ ap (λ l. get_elem? l j) (sym all ∙ h.newest)
            ∙ get_elem?-drop history (total - size) j
            ∙ ap (get_elem? history) (omega arith)
      ]

  -- Samples that the ring buffer still holds come out as they went in: cutting out `start` to `stop`
  -- gives the samples of the history between them, if there are any, none of them older than the
  -- ring buffer's size and none newer than the history.
  pub ringbuf_extract-history :
      (r : RingBuffer F) (history : List (Sample F)) (start stop : ℕ)
      → IsHistory F r history
      → length history - length r.cells ≤ start
      → start < stop
      → stop ≤ length history
      → ringbuf_extract F r start stop ≡ some (take (stop - start) (drop start history))
  unfolding ringbuf_extract
  ringbuf_extract-history r history start stop h old some_left new =
      let size = length r.cells in
      let len = stop - start in
      let unclamped : (if ltb start r.start then r.start else start) ≡ start =
        stays start r.start (omega (arith, h.start)) in
      let left : leb stop start ≡ false = ground arith in
      let pos_below : start % size < size = mod-lt start h.circular.room in
      let fits : len ≤ size = omega arith in
      rw (unclamped, left)
        (ap some (
          list_ext (read_block r.cells (start % size) len) (take len (drop start history)) (λ k.
            elim (Bool-cases (ltb k len)) [
              | inl e ↦
                  let inside = ltb→lt _ _ e in
                  get_elem?-read_block r.cells (start % size) len k pos_below fits inside
                  ∙ ap (get_elem? r.cells) (mod-add-mod start size k)
                  ∙ cell_of r history (start + k) h (omega arith) (omega arith)
                  ∙ sym (get_elem?-drop history start k)
                  ∙ sym (get_elem?-take (drop start history) len k inside)
              | inr e ↦
                  let past = not_below _ _ e in
                  get_elem?-past _ k
                    (omega (arith, length-read_block r.cells (start % size) len pos_below fits))
                  ∙ sym (get_elem?-past _ k (omega (arith, length-take len (drop start history))))
            ])))
    where
      stays : (a b : ℕ) → b ≤ a → (if ltb a b then b else a) ≡ a
      stays a b h = ground arith
