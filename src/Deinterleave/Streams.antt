-- ===== src/Deinterleave/Streams.antt =====
-- frame_decode.c and ida_decode.c: the de-interleavers and the interleaver, which stands here as the
-- description: a block is sent group by group, the last group first, and a group holds the next symbol
-- of each stream.
use iridium_sniffer.Base.{
  ℕ, zero, suc, ◌+◌, ◌-◌, ◌*◌, ◌/◌, ◌<◌, List, [], ◌∷◌, ◌++◌, get_or, length, ◌≡◌, refl, ap, ap₂,
  ◌∙◌, arith, length-append,
}
use native.Mathlib.Nat.{add-zero}
use mathlib.Core.List.{append_assoc}
use iridium_sniffer.Deinterleave.{symbols_down, de_interleave_n, de_interleave, de_interleave3}

module _ {ℓ} {A : Type ℓ} where
  abbrev pub interleave : List (List A) → List A
  interleave [] = []
  interleave (g ∷ r) = interleave r ++ g

  -- All groups hold `n` symbols.
  abbrev pub AreGroups : ℕ → List (List A) → Type 0
  AreGroups n [] = Unit {0}
  AreGroups n (g ∷ r) = (length g ≡ 2 * n) × AreGroups n r

  -- The entries of stream `j`, in order.
  abbrev pub stream : A → ℕ → List (List A) → List A
  stream d j [] = []
  stream d j (g ∷ r) = get_or g (2 * j) d ∷ get_or g (2 * j + 1) d ∷ stream d j r

  get_or-append_right :
      (xs ys : List A) (k : ℕ) (d : A) → get_or (xs ++ ys) (length xs + k) d ≡ get_or ys k d
  get_or-append_right [] ys k d = ap (λ (i : ℕ). get_or ys i d) (omega arith)
  get_or-append_right (x ∷ xs) ys k d =
      ap (λ (i : ℕ). get_or (x ∷ xs ++ ys) i d) (shift (length xs)) ∙ get_or-append_right xs ys k d
    where
      shift : (n : ℕ) → suc n + k ≡ suc (n + k)
      shift n = omega arith

  get_or-append_left :
      (xs ys : List A) (k : ℕ) (d : A) → k < length xs → get_or (xs ++ ys) k d ≡ get_or xs k d
  get_or-append_left [] ys k d h = absurd (omega arith)
  get_or-append_left (x ∷ xs) ys zero d h = refl
  get_or-append_left (x ∷ xs) ys (suc k) d h = get_or-append_left xs ys k d (omega arith)

  length-interleave :
      (n : ℕ) (gs : List (List A)) → AreGroups n gs → length (interleave gs) ≡ 2 * n * length gs
  length-interleave n [] h = omega arith
  length-interleave n (g ∷ gs) h =
      omega (arith, h.0, length-append (interleave gs) g, length-interleave n gs h.1)

  module _ (d : A) (n j : ℕ) (in_group : j < n) where
    module _ (g : List A) (gs : List (List A)) (tail : List A) (s : ℕ) (h : AreGroups n (g ∷ gs))
        (e : s ≡ n * length gs + j) where
      -- The last group of a block, at the symbol that the loop starts from.
      read_group :
          (k : ℕ)
          → k < 2
          → get_or ((interleave gs ++ g) ++ tail) (2 * s + k) d ≡ get_or g (2 * j + k) d
      read_group k two =
          rw (append_assoc (interleave gs) g tail, place)
            (get_or-append_right (interleave gs) (g ++ tail) (2 * j + k) d
              ∙ get_or-append_left g tail (2 * j + k) d (omega (arith, h.0)))
        where
          place : 2 * s + k ≡ length (interleave gs) + (2 * j + k)
          place = omega (arith, length-interleave n gs h.1)

      read_first : get_or ((interleave gs ++ g) ++ tail) (2 * s) d ≡ get_or g (2 * j) d
      read_first = rw (add-zero, add-zero) at (read_group 0 (omega arith))

      round :
          (k : ℕ)
          → symbols_down d ((interleave gs ++ g) ++ tail) n (suc k) s
            ≡ get_or g (2 * j) d
              ∷ get_or g (2 * j + 1) d
              ∷ symbols_down d (interleave gs ++ (g ++ tail)) n k (s - n)
      unfolding symbols_down
      round k =
          ap₂ (λ x r. x ∷ r) read_first
            (ap₂ (λ x r. x ∷ r) (read_group 1 (omega arith))
              (ap (λ input. symbols_down d input n k (s - n))
                (append_assoc (interleave gs) g tail)))

    -- Whatever stands behind the block, the loop that starts at symbol `j` of its last group reads
    -- out stream `j`.
    symbols_down-interleave :
        (gs : List (List A)) (tail : List A) (s : ℕ)
        → AreGroups n gs
        → s + n ≡ n * length gs + j
        → symbols_down d (interleave gs ++ tail) n (length gs) s ≡ stream d j gs
    symbols_down-interleave [] tail s h e = unfold symbols_down in refl
    symbols_down-interleave (g ∷ []) tail s h e =
        round g [] tail s h (omega arith) 0 ∙ unfold symbols_down in refl
    symbols_down-interleave (g ∷ g' ∷ gs) tail s h e =
        round g (g' ∷ gs) tail s h (omega arith) (suc (length gs))
        ∙ ap (λ r. get_or g (2 * j) d ∷ get_or g (2 * j + 1) d ∷ r)
            (symbols_down-interleave (g' ∷ gs) (g ++ tail) (s - n) h.1 (omega arith))

  -- From a block of one or more groups of two symbols, whatever follows it, `de_interleave_n` reads
  -- out both streams in order.
  pub de_interleave_n-interleave :
      (d : A) (gs : List (List A)) (tail : List A)
      → AreGroups 2 gs
      → 0 < length gs
      → de_interleave_n d (interleave gs ++ tail) (2 * length gs) ≡ (stream d 1 gs, stream d 0 gs)
  unfolding de_interleave_n
  de_interleave_n-interleave d gs tail h some_groups = rw half (
      ap₂ (λ x y. (x, y))
        (symbols_down-interleave d 2 1 (omega arith) gs tail (2 * length gs - 1) h (omega arith))
        (symbols_down-interleave d 2 0 (omega arith) gs tail (2 * length gs - 2) h (omega arith)))
    where
      half : 2 * length gs / 2 ≡ length gs
      half = omega arith

  -- The 64-bit blocks of IBC and IRA frames.
  pub de_interleave-interleave :
      (d : A) (gs : List (List A)) (tail : List A)
      → AreGroups 2 gs
      → length gs ≡ 16
      → de_interleave d (interleave gs ++ tail) ≡ (stream d 1 gs, stream d 0 gs)
  unfolding de_interleave
  de_interleave-interleave d gs tail h e =
      ap₂ (λ x y. (x, y))
        (rw e at (symbols_down-interleave d 2 1 (omega arith) gs tail 31 h (omega arith)))
        (rw e at (symbols_down-interleave d 2 0 (omega arith) gs tail 30 h (omega arith)))

  -- The 96-bit header block of IRA frames.
  pub de_interleave3-interleave :
      (d : A) (gs : List (List A)) (tail : List A)
      → AreGroups 3 gs
      → length gs ≡ 16
      → de_interleave3 d (interleave gs ++ tail) ≡ (stream d 2 gs, stream d 1 gs, stream d 0 gs)
  unfolding de_interleave3
  de_interleave3-interleave d gs tail h e =
      let a = rw e at (symbols_down-interleave d 3 2 (omega arith) gs tail 47 h (omega arith)) in
      let b = rw e at (symbols_down-interleave d 3 1 (omega arith) gs tail 46 h (omega arith)) in
      let c = rw e at (symbols_down-interleave d 3 0 (omega arith) gs tail 45 h (omega arith)) in
      λ i. (a i, b i, c i)
