-- ===== src/Detector/Sweep.antt =====
-- burst_detect.c: the loops of `delete_gone_bursts` and `create_new_bursts` that move bursts from one
-- array to another while they walk it (`push_burst`, `remove_burst`).
use iridium_sniffer.Base.{
  ℕ, zero, suc, ◌≤◌, List, [], ◌∷◌, ◌++◌, none, some, Bool, true, false, ◌||◌, length, get_elem?,
  take, drop, Bool-cases, inl, inr, ◌≡◌, refl, sym, ap, ◌∙◌, arith,
}
use mathlib.Core.List.{append_assoc, append-nil}

or_false : (flag : Bool) → flag || false ≡ flag
or_false true = refl
or_false false = refl

or_assoc : (a b c : Bool) → (a || b) || c ≡ a || (b || c)
or_assoc true b c = refl
or_assoc false b c = refl

-- Which entries leave, which of them set the flag, and what is written into one that leaves.
pub record Rule {ℓ} (A : Type ℓ) : Type ℓ where
  pub leaves : A → Bool
  pub flags : A → Bool
  pub mark : A → A

module _ {ℓ} {A : Type ℓ} where
  -- The memmove that closes the gap at `idx`.
  abbrev pub remove_burst : List A → ℕ → List A
  remove_burst arr idx = take idx arr ++ drop (suc idx) arr

  -- The array from index `i` on, what has left it, and the flag, in `fuel` rounds.
  unfoldable pub sweep : Rule A → ℕ → ℕ → List A → List A → Bool → List A × List A × Bool
  sweep r zero i arr gone flag = (arr, gone, flag)
  sweep r (suc fuel) i arr gone flag = elim (get_elem? arr i) [
    | none ↦ (arr, gone, flag)
    | some b ↦ elim (r.leaves b) [
      | true ↦ sweep r fuel i (remove_burst arr i) (gone ++ (r.mark b ∷ [])) (flag || r.flags b)
      | false ↦ sweep r fuel (suc i) arr gone (flag || r.flags b)
    ]
  ]

  -- One pass, without an index.
  abbrev pub kept : Rule A → List A → List A
  kept r [] = []
  kept r (b ∷ arr) = elim (r.leaves b) [ true ↦ kept r arr | false ↦ b ∷ kept r arr ]

  abbrev pub left : Rule A → List A → List A
  left r [] = []
  left r (b ∷ arr) = elim (r.leaves b) [ true ↦ r.mark b ∷ left r arr | false ↦ left r arr ]

  abbrev pub flagged : Rule A → List A → Bool
  flagged r [] = false
  flagged r (b ∷ arr) = r.flags b || flagged r arr

  middle : (pre arr : List A) (b : A) → get_elem? (pre ++ (b ∷ arr)) (length pre) ≡ some b
  middle [] arr b = refl
  middle (p ∷ pre) arr b = middle pre arr b

  without_middle :
      (pre arr : List A) (b : A) → remove_burst (pre ++ (b ∷ arr)) (length pre) ≡ pre ++ arr
  without_middle [] arr b = refl
  without_middle (p ∷ pre) arr b = ap (λ r. p ∷ r) (without_middle pre arr b)

  end : (pre : List A) → get_elem? pre (length pre) ≡ none
  end [] = refl
  end (p ∷ pre) = end pre

  length-snoc : (pre : List A) (b : A) → suc (length pre) ≡ length (pre ++ (b ∷ []))
  length-snoc [] b = refl
  length-snoc (p ∷ pre) b = ap suc (length-snoc pre b)

  leave_step :
      (r : Rule A) (fuel : ℕ) (pre arr gone : List A) (b : A) (flag : Bool)
      → r.leaves b ≡ true
      → sweep r (suc fuel) (length pre) (pre ++ (b ∷ arr)) gone flag
        ≡ sweep r fuel (length pre) (pre ++ arr) (gone ++ (r.mark b ∷ [])) (flag || r.flags b)
  unfolding sweep
  leave_step r fuel pre arr gone b flag e =
      rw (sweep, middle pre arr b, e, without_middle pre arr b) refl

  stay_step :
      (r : Rule A) (fuel : ℕ) (pre arr gone : List A) (b : A) (flag : Bool)
      → r.leaves b ≡ false
      → sweep r (suc fuel) (length pre) (pre ++ (b ∷ arr)) gone flag
        ≡ sweep r fuel
            (length (pre ++ (b ∷ [])))
            ((pre ++ (b ∷ [])) ++ arr)
            gone
            (flag || r.flags b)
  unfolding sweep
  stay_step r fuel pre arr gone b flag e =
      rw (append_assoc pre (b ∷ []) arr, sym (length-snoc pre b), sweep, middle pre arr b, e) refl

  sweep_from :
      (r : Rule A) (fuel : ℕ) (pre arr gone : List A) (flag : Bool)
      → length arr ≤ fuel
      → sweep r fuel (length pre) (pre ++ arr) gone flag
        ≡ (pre ++ kept r arr, gone ++ left r arr, flag || flagged r arr)
  unfolding sweep
  sweep_from r zero pre [] gone flag h = rw (append-nil gone, or_false flag) refl
  sweep_from r (suc fuel) pre [] gone flag h =
      rw (append-nil pre, end pre, sweep, append-nil pre, append-nil gone, or_false flag) refl
  sweep_from r zero pre (b ∷ arr) gone flag h = absurd (omega arith)
  sweep_from r (suc fuel) pre (b ∷ arr) gone flag h = elim (Bool-cases (r.leaves b)) [
    | inl e ↦
        leave_step r fuel pre arr gone b flag e
        ∙ sweep_from r fuel pre arr (gone ++ (r.mark b ∷ [])) (flag || r.flags b) (omega arith)
        ∙ rw
            (
              kept,
              left,
              e,
              append_assoc gone (r.mark b ∷ []) (left r arr),
              or_assoc flag (r.flags b) (flagged r arr),
            )
            refl
    | inr e ↦
        stay_step r fuel pre arr gone b flag e
        ∙ sweep_from r fuel (pre ++ (b ∷ [])) arr gone (flag || r.flags b) (omega arith)
        ∙ rw
            (
              kept,
              left,
              e,
              append_assoc pre (b ∷ []) (kept r arr),
              or_assoc flag (r.flags b) (flagged r arr),
            )
            refl
  ]

  -- As many rounds as there are entries are enough, and each entry is looked at once.
  pub sweep-once :
      (r : Rule A) (arr gone : List A)
      → sweep r (length arr) 0 arr gone false ≡ (kept r arr, gone ++ left r arr, flagged r arr)
  sweep-once r arr gone = sweep_from r (length arr) [] arr gone false (omega arith)
