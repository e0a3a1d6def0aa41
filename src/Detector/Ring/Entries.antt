-- ===== src/Detector/Ring/Entries.antt =====
-- burst_detect.c, `ringbuf_write`: the entries of the ring buffer after a block.
use iridium_sniffer.Base.{
  ℕ, ◌+◌, ◌-◌, ◌%◌, ◌≤◌, ◌<◌, List, [], ◌∷◌, ◌++◌, inl, inr, length, length-set, drop-append,
  drop-drop, length-append, length-drop, drop, ◌≡◌, refl, sym, ap, ap₂, ◌∙◌, arith,
}
use mathlib.Core.List.{append_assoc, append-nil}
use native.Mathlib.Nat.{mod-eq_of_lt, mod-lt, mod-add-mod}
use iridium_sniffer.Circular.{Circular, size, push}
use iridium_sniffer.Circular.Contents.{
  IsCircular, contents, last_of, push-contents, push-IsCircular,
}
use iridium_sniffer.Circular.Lookup.{length-contents}
use iridium_sniffer.Detector.Ring.Pushes.{pushes}

module _ {ℓ} {A : Type ℓ} where
  pub last_of-append :
      (n : ℕ) (xs ys : List A) → last_of n (last_of n xs ++ ys) ≡ last_of n (xs ++ ys)
  last_of-append n xs ys =
      let k = length xs - n in
      ap (last_of n) (sym (drop-append k xs ys (omega arith)))
      ∙ drop-drop (length (drop k (xs ++ ys)) - n) k (xs ++ ys)
      ∙ ap (λ i. drop i (xs ++ ys)) (omega (arith, length-drop k (xs ++ ys), length-append xs ys))

  last_of_all : (n : ℕ) (xs : List A) → length xs ≤ n → last_of n xs ≡ xs
  last_of_all n xs h = ap (λ i. drop i xs) {x = length xs - n} {y = 0} (omega arith)

  pub head_below : (c : Circular A) → IsCircular c → (c.head < size c) × (c.count ≤ size c)
  head_below c v = elim v.filling [
    | inl f ↦ (omega (arith, f.0, f.1), omega (arith, f.0, f.1))
    | inr f ↦ (f.1, omega (arith, f.0))
  ]

  -- All of a block at once: the contents are the last entries of everything that came.
  pub pushes-contents :
      (xs : List A) (c : Circular A)
      → IsCircular c
      → IsCircular (pushes c xs) × (contents (pushes c xs) ≡ last_of (size c) (contents c ++ xs))
  pushes-contents [] c v = (
    v,
    sym (
        ap (last_of (size c)) (append-nil (contents c))
        ∙ last_of_all (size c) (contents c)
            (omega (arith, length-contents c v, (head_below c v).1))),
  )
  pushes-contents (x ∷ xs) c v =
      let m : size (push c x) ≡ size c = unfold push in length-set c.cells c.head x in
      let (valid, rest) = pushes-contents xs (push c x) (push-IsCircular c x v) in
      (
        valid,
        rest
            ∙ ap₂ (λ n l. last_of n (l ++ xs)) m (push-contents c x v)
            ∙ last_of-append (size c) (contents c ++ (x ∷ [])) xs
            ∙ ap (last_of (size c)) (append_assoc (contents c) (x ∷ []) xs),
      )

  pub size-pushes : (xs : List A) (c : Circular A) → size (pushes c xs) ≡ size c
  size-pushes [] c = refl
  size-pushes (x ∷ xs) c = size-pushes xs (push c x) ∙ unfold push in length-set c.cells c.head x

  pub head-pushes :
      (xs : List A) (c : Circular A)
      → c.head < size c
      → (pushes c xs).head ≡ (c.head + length xs) % size c
  head-pushes [] c h = sym (ap (λ k. k % size c) {x = c.head + 0} (omega arith) ∙ mod-eq_of_lt h)
  head-pushes (x ∷ xs) c h =
      let m : size (push c x) ≡ size c = unfold push in length-set c.cells c.head x in
      let next : (push c x).head ≡ (c.head + 1) % size c = unfold push in refl in
      head-pushes xs (push c x) (rw (next, m) (mod-lt _ (omega arith)))
      ∙ ap₂ (λ a n. (a + length xs) % n) next m
      ∙ mod-add-mod (c.head + 1) (size c) (length xs)
      ∙ ap (λ k. k % size c) {x = c.head + 1 + length xs} (omega arith)
