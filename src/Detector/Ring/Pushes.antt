-- ===== src/Detector/Ring/Pushes.antt =====
-- burst_detect.c, `ringbuf_write`: the two memcpys against samples that are put in one by one.
use iridium_sniffer.Base.{
  ℕ, zero, suc, ◌+◌, ◌-◌, ◌%◌, ◌≤◌, ◌<◌, List, [], ◌∷◌, ◌++◌, true, false, Bool-cases, inl, inr,
  ◌⊎◌, length, length-set, take-set, take-append-drop, set, take, drop, ltb, ltb→lt, not_below, leb,
  ◌==◌, ◌≡◌, refl, sym, ap, ap₂, ◌∙◌, arith,
}
use mathlib.Core.List.{append_assoc}
use native.Mathlib.Nat.{mod_self, mod-eq_of_lt, mod-lt}
use iridium_sniffer.Circular.{Circular, size, push}
use iridium_sniffer.Detector.Ring.{overwrite, write_block}

trichotomy : (a b : ℕ) → (a < b) ⊎ ((a ≡ b) ⊎ (b < a))
trichotomy a b = omega arith

module _ {ℓ} {A : Type ℓ} where
  -- One after the other.
  abbrev pub pushes : Circular A → List A → Circular A
  pushes c [] = c
  pushes c (x ∷ xs) = pushes (push c x) xs

  drop-set_past : (xs : List A) (n m : ℕ) (v : A) → n < m → drop m (set xs n v) ≡ drop m xs
  drop-set_past [] n m v h = refl
  drop-set_past (x ∷ xs) n zero v h = absurd (omega arith)
  drop-set_past (x ∷ xs) zero (suc m) v h = refl
  drop-set_past (x ∷ xs) (suc n) (suc m) v h = drop-set_past xs n m v (omega arith)

  overwrite-nil : (cells : List A) (at : ℕ) → overwrite cells at [] ≡ cells
  unfolding overwrite
  overwrite-nil cells at = let e : at + 0 ≡ at = omega arith in rw (e) (take-append-drop at cells)

  -- The first entry of a block by itself.
  overwrite-cons :
      (cells : List A) (at : ℕ) (x : A) (xs : List A)
      → at < length cells
      → overwrite cells at (x ∷ xs) ≡ overwrite (set cells at x) (suc at) xs
  unfolding overwrite
  overwrite-cons cells at x xs h =
      let e : at + suc (length xs) ≡ suc at + length xs = omega arith in
      rw
        (
          e,
          take-set cells at x h,
          append_assoc (take at cells) (x ∷ []) (xs ++ drop (suc at + length xs) (set cells at x)),
          drop-set_past cells at (suc at + length xs) x (omega arith),
        )
        refl

  -- The three ways a block can lie.
  write_short :
      (cells : List A) (pos : ℕ) (xs : List A)
      → pos + length xs < length cells
      → write_block cells pos xs ≡ (overwrite cells pos xs, pos + length xs)
  unfolding write_block
  write_short cells pos xs h =
      let fits : leb (pos + length xs) (length cells) ≡ true = ground arith in
      let ends : (pos + length xs == length cells) ≡ false = ground arith in rw (fits, ends) refl

  write_to_end :
      (cells : List A) (pos : ℕ) (xs : List A)
      → pos + length xs ≡ length cells
      → write_block cells pos xs ≡ (overwrite cells pos xs, 0)
  unfolding write_block
  write_to_end cells pos xs h =
      let fits : leb (pos + length xs) (length cells) ≡ true = ground arith in
      let ends : (pos + length xs == length cells) ≡ true = ground arith in rw (fits, ends) refl

  write_around :
      (cells : List A) (pos : ℕ) (xs : List A)
      → length cells < pos + length xs
      → write_block cells pos xs ≡ (
        overwrite
            (overwrite cells pos (take (length cells - pos) xs))
            0
            (drop (length cells - pos) xs),
        length xs - (length cells - pos),
      )
  unfolding write_block
  write_around cells pos xs h =
      let fits : leb (pos + length xs) (length cells) ≡ false = ground arith in rw (fits) refl

  -- One entry before the rest of a block, in front of the end and at the end.
  cons_before_end :
      (cells : List A) (pos : ℕ) (x : A) (xs : List A)
      → suc pos < length cells
      → write_block cells pos (x ∷ xs) ≡ write_block (set cells pos x) (suc pos) xs
  cons_before_end cells pos x xs h =
      let m : length (set cells pos x) ≡ length cells = length-set cells pos x in
      let p : pos + suc (length xs) ≡ suc pos + length xs = omega arith in
      elim (trichotomy (suc pos + length xs) (length cells)) [
        | inl l ↦
            write_short cells pos (x ∷ xs) (omega arith)
            ∙ rw (overwrite-cons cells pos x xs (omega arith), p)
                (sym (write_short (set cells pos x) (suc pos) xs (omega arith)))
        | inr (inl e) ↦
            write_to_end cells pos (x ∷ xs) (omega arith)
            ∙ rw (overwrite-cons cells pos x xs (omega arith))
                (sym (write_to_end (set cells pos x) (suc pos) xs (omega arith)))
        | inr (inr g) ↦
            let first : length cells - pos ≡ suc (length cells - suc pos) = omega arith in
            write_around cells pos (x ∷ xs) (omega arith)
            ∙ rw
                (first, overwrite-cons cells pos x (take (length cells - suc pos) xs) (omega arith))
                (ap
                    (λ k. (
                      overwrite
                          (overwrite (set cells pos x) (suc pos) (take (length cells - suc pos) xs))
                          0 (drop (length cells - suc pos) xs),
                      k,
                    ))
                    (omega arith)
                  ∙ ap
                      (λ k. (
                        overwrite (overwrite (set cells pos x) (suc pos) (take (k - suc pos) xs)) 0
                            (drop (k - suc pos) xs),
                        length xs - (k - suc pos),
                      ))
                      (sym m)
                  ∙ sym (write_around (set cells pos x) (suc pos) xs (omega arith)))
      ]

  cons_at_end :
      (cells : List A) (pos : ℕ) (x : A) (xs : List A)
      → suc pos ≡ length cells
      → suc (length xs) ≤ length cells
      → write_block cells pos (x ∷ xs) ≡ write_block (set cells pos x) 0 xs
  unfolding overwrite
  cons_at_end cells pos x [] e l =
      let m : length (set cells pos x) ≡ length cells = length-set cells pos x in
      write_to_end cells pos (x ∷ []) (omega arith)
      ∙ rw (overwrite-cons cells pos x [] (omega arith), overwrite-nil (set cells pos x) (suc pos))
          (sym (write_short (set cells pos x) 0 [] (omega arith)))
  cons_at_end cells pos x (y ∷ xs) e l =
      let m : length (set cells pos x) ≡ length cells = length-set cells pos x in
      let first : length cells - pos ≡ 1 = omega arith in
      write_around cells pos (x ∷ (y ∷ xs)) (omega arith)
      ∙ rw
          (
            first,
            overwrite-cons cells pos x [] (omega arith),
            overwrite-nil (set cells pos x) (suc pos),
          )
          (ap (λ k. (overwrite (set cells pos x) 0 (y ∷ xs), k)) (omega arith)
            ∙ sym (write_short (set cells pos x) 0 (y ∷ xs) (omega arith)))

  -- A block of at most the buffer's size, copied in one or two parts, leaves the same entries and the
  -- same write position as its entries put in one by one.
  pub write_block-pushes :
      (xs : List A) (c : Circular A)
      → c.head < size c
      → length xs ≤ size c
      → write_block c.cells c.head xs ≡ ((pushes c xs).cells, (pushes c xs).head)
  unfolding overwrite
  write_block-pushes [] c h l =
      write_short c.cells c.head [] (omega arith)
      ∙ ap₂ (λ cells head. (cells, head)) (overwrite-nil c.cells c.head) (omega arith)
  write_block-pushes (x ∷ xs) c h l =
      let m : length (set c.cells c.head x) ≡ size c = length-set c.cells c.head x in
      let next : (push c x).head ≡ (c.head + 1) % size c = unfold push in refl in
      let same : (push c x).cells ≡ set c.cells c.head x = unfold push in refl in
      let rest =
        write_block-pushes xs (push c x) (rw (next, same, m) (mod-lt _ (omega arith)))
          (rw (same, m) (omega arith)) in
      elim (Bool-cases (ltb (suc c.head) (size c))) [
        | inl e ↦
            let p : (c.head + 1) % size c ≡ suc c.head =
              ap (λ k. k % size c) {x = c.head + 1} (omega arith) ∙ mod-eq_of_lt (ltb→lt _ _ e) in
            cons_before_end c.cells c.head x xs (ltb→lt _ _ e)
            ∙ ap₂ (λ cells head. write_block cells head xs) (sym same) (sym (next ∙ p))
            ∙ rest
        | inr e ↦
            let end : suc c.head ≡ size c = omega (arith, not_below _ _ e) in
            let p : (c.head + 1) % size c ≡ 0 =
              ap (λ k. k % size c) {x = c.head + 1} (omega arith) ∙ mod_self (size c) in
            cons_at_end c.cells c.head x xs end l
            ∙ ap₂ (λ cells head. write_block cells head xs) (sym same) (sym (next ∙ p))
            ∙ rest
      ]
