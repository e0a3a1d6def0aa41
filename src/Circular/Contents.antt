-- ===== src/Circular/Contents.antt =====
-- doppler_pos.c, web_map.c and main.c: a circular buffer as the list of its entries, the oldest first.
use iridium_sniffer.Base.{
  ℕ, suc, ◌+◌, ◌-◌, ◌%◌, ◌≤◌, ◌<◌, List, [], ◌∷◌, ◌++◌, length, length-append, length-take,
  length-drop, length-set, take-set, drop-set, take_all, drop_all, drop_one, set, take, drop, ltb,
  true, false, ltb→lt, lt→ltb, if◌then◌else◌, Bool-cases, inl, inr, ◌⊎◌, ◌≡◌, refl, sym, ap₂, ◌∙◌,
  arith,
}
use mathlib.Core.List.{append_assoc, append-nil}
use native.Mathlib.Nat.{mod-lt, mod_self, mod-eq_of_lt}
use iridium_sniffer.Circular.{Circular, size, push}

module _ {ℓ} {A : Type ℓ} where
  -- The buffer fills up from index 0, and then stays full.
  pub record IsCircular (c : Circular A) : Type ℓ where
    pub room : 0 < size c
    pub filling :
        ((c.head ≡ c.count) × (c.count < size c)) ⊎ ((c.count ≡ size c) × (c.head < size c))

  -- The entries, the oldest first.
  abbrev pub contents : Circular A → List A
  contents c =
      if ltb c.count (size c)
      then take c.count c.cells
      else drop c.head c.cells ++ take c.head c.cells

  -- The last `n` entries of a list.
  abbrev pub last_of : ℕ → List A → List A
  last_of n l = drop (length l - n) l

  -- Writing at `k` and stepping on, both where the index wraps and where it does not.
  set-rotated :
      (xs : List A) (k : ℕ) (v : A)
      → k < length xs
      → drop ((k + 1) % length xs) (set xs k v) ++ take ((k + 1) % length xs) (set xs k v)
        ≡ drop (suc k) xs ++ (take k xs ++ (v ∷ []))
  set-rotated xs k v h = elim (Bool-cases (ltb (k + 1) (length xs))) [
    | inl e ↦
        let w : (k + 1) % length xs ≡ suc k = mod-eq_of_lt (ltb→lt _ _ e) ∙ omega arith in
        rw (w) (ap₂ (λ a b. a ++ b) (drop-set xs k v) (take-set xs k v h))
    | inr e ↦
        let w : (k + 1) % length xs ≡ 0 = wraps (length xs) k h (ground arith) in
        rw (w, append-nil (set xs k v), drop_all xs (suc k) (ground arith))
          (sym (take_all (set xs k v) (suc k) (ground (arith, length-set xs k v)))
            ∙ take-set xs k v h)
  ]
    where
      wraps : (n k : ℕ) → k < n → n ≤ k + 1 → (k + 1) % n ≡ 0
      wraps n k h l = let e : k + 1 ≡ n = omega arith in rw (e) (mod_self n)

  -- Where a full buffer has dropped its first entry.
  last_of-rotated :
      (xs : List A) (k : ℕ) (v : A)
      → k < length xs
      → last_of (length xs) ((drop k xs ++ take k xs) ++ (v ∷ []))
        ≡ drop (suc k) xs ++ (take k xs ++ (v ∷ []))
  last_of-rotated xs k v h =
      let n : length ((drop k xs ++ take k xs) ++ (v ∷ [])) - length xs ≡ 1 = omega (
        arith,
        length-append (drop k xs ++ take k xs) (v ∷ []),
        length-append (drop k xs) (take k xs),
        length-drop k xs,
        length-take k xs,
      ) in
      rw (n, append_assoc (drop k xs) (take k xs) (v ∷ []))
        (drop_one xs (take k xs ++ (v ∷ [])) k h)

  -- A buffer that is filling up, and that a push may fill.
  filling-push :
      (xs : List A) (n : ℕ) (v : A)
      → n < length xs
      → contents (record { cells = set xs n v; head = (n + 1) % length xs; count = n + 1 })
        ≡ last_of (length xs) (take n xs ++ (v ∷ []))
  filling-push xs n v h =
      let l : length (take n xs ++ (v ∷ [])) - length xs ≡ 0 =
        omega (arith, length-append (take n xs) (v ∷ []), length-take n xs) in
      elim (Bool-cases (ltb (n + 1) (length xs))) [
        | inl e ↦
            let up : n + 1 ≡ suc n = omega arith in
            rw (length-set xs n v, e, l, up) (take-set xs n v h)
        | inr e ↦
            rw (length-set xs n v, e, l, set-rotated xs n v h, drop_all xs (suc n) (ground arith))
              refl
      ]

  -- A push appends to the contents; if they are full, the oldest entry goes.
  pub push-contents :
      (c : Circular A) (v : A)
      → IsCircular c
      → contents (push c v) ≡ last_of (size c) (contents c ++ (v ∷ []))
  unfolding push
  push-contents c v w = elim w.filling [
    | inl f ↦
        let n : ltb c.count (size c) ≡ true = lt→ltb _ _ f.1 in
        rw (n, f.0) (filling-push c.cells c.count v f.1)
    | inr f ↦
        let n : ltb c.count (size c) ≡ false = ground (arith, f.0) in
        rw (n, length-set c.cells c.head v, n)
          (set-rotated c.cells c.head v f.1 ∙ sym (last_of-rotated c.cells c.head v f.1))
  ]

  pub push-IsCircular : (c : Circular A) (v : A) → IsCircular c → IsCircular (push c v)
  unfolding push
  push-IsCircular c v w = elim w.filling [
    | inl f ↦
        let n : ltb c.count (size c) ≡ true = lt→ltb _ _ f.1 in
        record {
          room = rw (length-set c.cells c.head v) w.room;
          filling = rw (n, length-set c.cells c.head v, f.0) (next c.count (size c) f.1);
        }
    | inr f ↦
        let n : ltb c.count (size c) ≡ false = ground (arith, f.0) in
        record {
          room = rw (length-set c.cells c.head v) w.room;
          filling = rw (n, length-set c.cells c.head v) (inr (f.0, mod-lt _ w.room));
        }
  ]
    where
      next :
          (n l : ℕ)
          → n < l
          → (((n + 1) % l ≡ n + 1) × (n + 1 < l)) ⊎ ((n + 1 ≡ l) × ((n + 1) % l < l))
      next n l h = elim (Bool-cases (ltb (n + 1) l)) [
        | inl e ↦ inl (mod-eq_of_lt (ltb→lt _ _ e), ltb→lt _ _ e)
        | inr e ↦ inr (ground arith, mod-lt _ (omega arith))
      ]
