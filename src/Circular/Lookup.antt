-- ===== src/Circular/Lookup.antt =====
-- doppler_pos.c, web_map.c and main.c: reading a circular buffer by index.
use iridium_sniffer.Base.{
  ℕ, ◌+◌, ◌-◌, ◌%◌, ◌≤◌, ◌<◌, List, ◌++◌, length, length-append, length-take, length-drop,
  get_elem?-take, get_elem?-drop, get_elem?-past, get_elem?-append_left, get_elem?-append_right,
  get_elem?, take, drop, ltb, true, false, not_below, ltb→lt, lt→ltb, Bool-cases, inl, inr, ◌≡◌,
  sym, ap, ◌∙◌, arith,
}
use native.Mathlib.Nat.{add-mod_right, mod-eq_of_lt}
use iridium_sniffer.Circular.{Circular, size, get, recent}
use iridium_sniffer.Circular.Contents.{IsCircular, contents}

module _ {ℓ} {A : Type ℓ} where
  pub get_elem?-rotated :
      (xs : List A) (h i : ℕ)
      → h < length xs
      → i < length xs
      → get_elem? xs ((h + i) % length xs) ≡ get_elem? (drop h xs ++ take h xs) i
  get_elem?-rotated xs h i k l = elim (Bool-cases (ltb (h + i) (length xs))) [
    | inl e ↦ rw (mod-eq_of_lt (ltb→lt _ _ e)) (
        sym (
          get_elem?-append_left (drop h xs) (take h xs) i
            (omega (arith, length-drop h xs, ltb→lt _ _ e))
          ∙ get_elem?-drop xs h i))
    | inr e ↦
        let past : length xs ≤ h + i = ground arith in
        let wrapped : (h + i) % length xs ≡ i - length (drop h xs) =
          rw (length-drop h xs) (wraps (length xs) h i k l past) in
        rw (wrapped) (
          sym (
            get_elem?-append_right (drop h xs) (take h xs) i (omega (arith, length-drop h xs))
            ∙ get_elem?-take xs h (i - length (drop h xs)) (omega (arith, length-drop h xs))))
  ]
    where
      wraps : (n h i : ℕ) → h < n → i < n → n ≤ h + i → (h + i) % n ≡ i - (n - h)
      wraps n h i k l p =
          let e : h + i ≡ (i - (n - h)) + n = omega arith in
          rw (e) (add-mod_right (i - (n - h)) n ∙ mod-eq_of_lt (omega arith))

  -- There are `count` entries.
  pub length-contents : (c : Circular A) → IsCircular c → length (contents c) ≡ c.count
  length-contents c v = elim v.filling [
    | inl f ↦
        let n : ltb c.count (size c) ≡ true = lt→ltb _ _ f.1 in
        rw (n) (omega (arith, f.1, length-take c.count c.cells))
    | inr f ↦
        let n : ltb c.count (size c) ≡ false = ground (arith, f.0) in
        rw (n) (
          omega (
            arith,
            f.0,
            f.1,
            length-append (drop c.head c.cells) (take c.head c.cells),
            length-drop c.head c.cells,
            length-take c.head c.cells,
          ))
  ]

  -- What `get` finds are the contents in order.
  get-contents : (c : Circular A) (i : ℕ) → IsCircular c → get c i ≡ get_elem? (contents c) i
  unfolding get
  get-contents c i v = elim (Bool-cases (ltb i c.count)) [
    | inl e ↦ elim v.filling [
      | inl f ↦
          let n : ltb c.count (size c) ≡ true = lt→ltb _ _ f.1 in
          let s : (0 + i) % size c ≡ i =
            mod-eq_of_lt {n = 0 + i} (omega (arith, f.1, ltb→lt _ _ e)) ∙ omega arith in
          rw (e, n, s) (sym (get_elem?-take c.cells c.count i (ltb→lt _ _ e)))
      | inr f ↦
          let n : ltb c.count (size c) ≡ false = ground (arith, f.0) in
          let s : (c.head + size c - c.count) % size c ≡ c.head =
            ap (λ k. k % size c) {x = c.head + size c - c.count} (omega (arith, f.0))
            ∙ mod-eq_of_lt f.1 in
          rw (e, n, s) (get_elem?-rotated c.cells c.head i f.1 (omega (arith, f.0, ltb→lt _ _ e)))
    ]
    | inr e ↦
        rw (e) (
          sym (get_elem?-past (contents c) i (omega (arith, length-contents c v, not_below _ _ e))))
  ]

  -- The entry `i` back from the newest.
  recent-contents :
      (c : Circular A) (i : ℕ)
      → IsCircular c
      → i < c.count
      → recent c i ≡ get_elem? (contents c) (c.count - 1 - i)
  unfolding recent
  recent-contents c i v l = elim v.filling [
    | inl f ↦
        let n : ltb c.count (size c) ≡ true = lt→ltb _ _ f.1 in
        let s : (c.head + size c - 1 - i) % size c ≡ c.count - 1 - i =
          ap (λ k. k % size c) {x = c.head + size c - 1 - i} {y = (c.count - 1 - i) + size c}
            (omega (arith, f.0))
          ∙ add-mod_right (c.count - 1 - i) (size c)
          ∙ mod-eq_of_lt (omega (arith, f.1)) in
        rw (n, s) (sym (get_elem?-take c.cells c.count (c.count - 1 - i) (omega arith)))
    | inr f ↦
        let n : ltb c.count (size c) ≡ false = ground (arith, f.0) in
        let s : c.head + size c - 1 - i ≡ c.head + (c.count - 1 - i) = omega (arith, f.0) in
        rw (n, s) (get_elem?-rotated c.cells c.head (c.count - 1 - i) f.1 (omega (arith, f.0)))
  ]
