-- ===== src/Acars/Tokens.antt =====
-- sbd_acars.c, `acars_extract_waypoint_position`: the tokens that its loop looks up.
use iridium_sniffer.Base.{
  ℕ, zero, suc, ◌≤◌, List, [], ◌∷◌, Option, none, some, Bool, true, false, ◌&&◌, ◌||◌, length, take,
  get_or, leb, ◌==◌, if◌then◌else◌, Bool-cases, Option-cases, inl, inr, ◌≡◌, refl, ap, ap₂, ◌∙◌,
  sym, arith,
}
use iridium_sniffer.Base.Text.{Chars, is_upper}
use iridium_sniffer.Base.Doubles.{Doubles}
use iridium_sniffer.Acars.Position.{is_sep, to_sep, past_seps, all_upper, is_token, scan_tokens}

-- The text up to its first separator.
abbrev pub token : Chars → Chars
token [] = []
token (c ∷ s) = if is_sep c then [] else c ∷ token s

-- What stands behind each of its separators, up to the next one.
abbrev pub later_tokens : Chars → List Chars
later_tokens [] = []
later_tokens (c ∷ s) = if is_sep c then token s ∷ later_tokens s else later_tokens s

-- `n` capitals, and then the end of the text or of a line.
abbrev pub is_name : ℕ → Chars → Bool
is_name zero [] = true
is_name zero (c ∷ t) = (c == 0) || (c == b'\r') || (c == b'\n')
is_name (suc n) [] = false
is_name (suc n) (c ∷ t) = is_upper c && is_name n t

-- The first of two.
abbrev pub first_of {ℓ} : {A : Type ℓ} → Option A → Option A → Option A
first_of none b = b
first_of (some p) b = some p

-- The first name of five capitals that is known.
abbrev pub first_known {ℓ} : {A : Type ℓ} → (Chars → Option A) → List Chars → Option A
first_known lookup [] = none
first_known lookup (t ∷ ts) =
    first_of (if is_name 5 t then lookup (take 5 t) else none) (first_known lookup ts)

-- The test of `is_token` for names of `n` letters.
abbrev ends : ℕ → Bool
ends next = is_sep next || (next == 0) || (next == b'\r') || (next == b'\n')

abbrev is_token_of : ℕ → Chars → Bool
is_token_of n scan = leb n (length scan) && all_upper (take n scan) && ends (get_or scan n 0)

sep_no_upper : (c : ℕ) → is_sep c ≡ true → is_upper c ≡ false
sep_no_upper c h = ground arith

and_swap : (a b c d : Bool) → (a && (b && c) && d) ≡ (b && (a && c && d))
and_swap true true c d = refl
and_swap true false c d = refl
and_swap false true c d = refl
and_swap false false c d = refl

leb-suc : (m n : ℕ) → leb (suc m) (suc n) ≡ leb m n
leb-suc m n = ground arith

leb-zero : (n : ℕ) → leb 0 n ≡ true
leb-zero n = ground arith

leb-none : (n : ℕ) → leb (suc n) 0 ≡ false
leb-none n = ground arith

is_token_of-token : (n : ℕ) (scan : Chars) → is_token_of n scan ≡ is_name n (token scan)
is_token_of-token zero [] = refl
is_token_of-token zero (c ∷ s) = elim (Bool-cases (is_sep c)) [
  | inl e ↦ rw (e, leb-zero (suc (length s))) refl
  | inr e ↦ rw (e, leb-zero (suc (length s))) refl
]
is_token_of-token (suc n) [] = rw (leb-none n) refl
is_token_of-token (suc n) (c ∷ s) =
    let step : is_token_of (suc n) (c ∷ s) ≡ (is_upper c && is_token_of n s) =
      ap (λ b. b && (is_upper c && all_upper (take n s)) && ends (get_or s n 0))
        (leb-suc n (length s))
      ∙ and_swap (leb n (length s)) (is_upper c) (all_upper (take n s)) (ends (get_or s n 0)) in
    step ∙ elim (Bool-cases (is_sep c)) [
      | inl e ↦ rw (e, sep_no_upper c e) refl
      | inr e ↦ rw (e) (ap (λ b. is_upper c && b) (is_token_of-token n s))
    ]

and_right : (a b : Bool) → (a && b) ≡ true → b ≡ true
and_right true b h = h
and_right false b h = absurd (cc h)

is_name-take :
    (n : ℕ) (scan : Chars) → is_name n (token scan) ≡ true → take n (token scan) ≡ take n scan
is_name-take zero scan h = refl
is_name-take (suc n) [] h = refl
is_name-take (suc n) (c ∷ s) h = elim (Bool-cases (is_sep c)) [
  | inl e ↦ absurd (cc (rw (e) at h))
  | inr e ↦ rw (e) (ap (λ t. c ∷ t) (is_name-take n s (and_right (is_upper c) _ (rw (e) at h))))
]

to_sep-short : (s : Chars) → length (to_sep s) ≤ length s
unfolding to_sep
to_sep-short [] = omega arith
to_sep-short (c ∷ s) = elim (Bool-cases (is_sep c)) [
  | inl e ↦ rw (to_sep, e) (omega arith)
  | inr e ↦ rw (to_sep, e) (omega (arith, to_sep-short s))
]

past_seps-short : (s : Chars) → length (past_seps s) ≤ length s
unfolding past_seps
past_seps-short [] = omega arith
past_seps-short (c ∷ s) = elim (Bool-cases (is_sep c)) [
  | inl e ↦ rw (past_seps, e) (omega (arith, past_seps-short s))
  | inr e ↦ rw (past_seps, e) (omega arith)
]

module _ (c : ℕ) (s : Chars) where
  to_sep-here : is_sep c ≡ true → to_sep (c ∷ s) ≡ c ∷ s
  unfolding to_sep
  to_sep-here e = rw (to_sep, e) refl

  to_sep-later : is_sep c ≡ false → to_sep (c ∷ s) ≡ to_sep s
  unfolding to_sep
  to_sep-later e = rw (to_sep, e) refl

  past_seps-later : is_sep c ≡ true → past_seps (c ∷ s) ≡ past_seps s
  unfolding past_seps
  past_seps-later e = rw (past_seps, e) refl

  past_seps-here : is_sep c ≡ false → past_seps (c ∷ s) ≡ c ∷ s
  unfolding past_seps
  past_seps-here e = rw (past_seps, e) refl

-- A round goes on at least one character.
round-short : (c : ℕ) (s : Chars) → length (past_seps (to_sep (c ∷ s))) ≤ length s
unfolding to_sep past_seps
round-short c s = elim (Bool-cases (is_sep c)) [
  | inl e ↦ rw (to_sep-here c s e, past_seps-later c s e) (past_seps-short s)
  | inr e ↦ rw (to_sep-later c s e) (further s)
]
  where
    further : (s : Chars) → length (past_seps (to_sep s)) ≤ length s
    further [] = omega arith
    further (d ∷ s) = omega (arith, past_seps-short (to_sep (d ∷ s)), to_sep-short (d ∷ s))

-- What the loop does not look at.
later_tokens-to_sep : (s : Chars) → later_tokens s ≡ later_tokens (to_sep s)
unfolding to_sep
later_tokens-to_sep [] = refl
later_tokens-to_sep (c ∷ s) = elim (Bool-cases (is_sep c)) [
  | inl e ↦ rw (to_sep-here c s e) refl
  | inr e ↦ rw (to_sep-later c s e) (rw (e) (later_tokens-to_sep s))
]

module _ {ℓ} {A : Type ℓ} (lookup : Chars → Option A) where
  abbrev from : Chars → Option A
  from s = first_known lookup (token s ∷ later_tokens s)

  from-past_seps : (s : Chars) → from s ≡ from (past_seps s)
  unfolding past_seps
  from-past_seps [] = refl
  from-past_seps (c ∷ s) = elim (Bool-cases (is_sep c)) [
    | inl e ↦ rw (past_seps-later c s e) (rw (e) (from-past_seps s))
    | inr e ↦ rw (past_seps-here c s e) refl
  ]

  -- At a separator, or at the end.
  at_sep : (s : Chars) → first_known lookup (later_tokens (to_sep s)) ≡ from (past_seps (to_sep s))
  unfolding to_sep past_seps
  at_sep [] = refl
  at_sep (c ∷ s) = elim (Bool-cases (is_sep c)) [
    | inl e ↦ rw (to_sep-here c s e, past_seps-later c s e) (rw (e) (from-past_seps s))
    | inr e ↦ rw (to_sep-later c s e) (at_sep s)
  ]

  found :
      (scan : Chars)
      → (if is_name 5 (token scan) then lookup (take 5 (token scan)) else none)
        ≡ (if is_token scan then lookup (take 5 scan) else none)
  unfolding is_token
  found scan = elim (Bool-cases (is_name 5 (token scan))) [
    | inl e ↦ rw (is_token, is_token_of-token 5 scan, e) (ap lookup (is_name-take 5 scan e))
    | inr e ↦ rw (is_token, is_token_of-token 5 scan, e) refl
  ]

module _ (F : Doubles) (lookup : Chars → Option (F.Double × F.Double)) where
  round :
      (fuel c : ℕ) (s : Chars)
      → let scan = past_seps (to_sep (c ∷ s)) in
        scan_tokens F lookup (suc fuel) (c ∷ s)
        ≡ first_of
            (if is_token scan then lookup (take 5 scan) else none)
            (scan_tokens F lookup fuel (to_sep scan))
  unfolding scan_tokens
  round fuel c s =
      let scan = past_seps (to_sep (c ∷ s)) in
      elim (Option-cases (if is_token scan then lookup (take 5 scan) else none)) [
        | inl e ↦ rw (scan_tokens, e) refl
        | inr (p, e) ↦ rw (scan_tokens, e) refl
      ]

  -- A round for each character is enough: what the loop finds is the position of the first token
  -- behind a separator that is five capitals, up to the end of the text or of a line, and is in the
  -- database of waypoints.
  pub scan_tokens-later_tokens :
      (fuel : ℕ) (scan : Chars)
      → length scan ≤ fuel
      → scan_tokens F lookup fuel scan ≡ first_known lookup (later_tokens scan)
  unfolding scan_tokens
  scan_tokens-later_tokens zero [] h = refl
  scan_tokens-later_tokens zero (c ∷ s) h = absurd (omega arith)
  scan_tokens-later_tokens (suc fuel) [] h = refl
  scan_tokens-later_tokens (suc fuel) (c ∷ s) h =
      let scan = past_seps (to_sep (c ∷ s)) in
      let next =
        scan_tokens-later_tokens fuel (to_sep scan)
          (omega (arith, round-short c s, to_sep-short scan)) in
      let rest = next ∙ ap (first_known lookup) (sym (later_tokens-to_sep scan)) in
      let all = ap (first_known lookup) (later_tokens-to_sep (c ∷ s)) ∙ at_sep lookup (c ∷ s) in
      round fuel c s ∙ ap₂ first_of (sym (found lookup scan)) rest ∙ sym all
