-- ===== src/BaseStation/Tracks.antt =====
-- basestation.c, `bs_derive_track`: the fix of an aircraft is found again.
use iridium_sniffer.Base.{
  ℕ, zero, suc, ◌+◌, ◌-◌, ◌^◌, ◌≤◌, ◌<◌, List, [], ◌∷◌, ◌++◌, Option, none, some, true, false,
  length, length-set, length-append, take, take_all, get_elem?, get_elem?-set_self,
  get_elem?-append_right, get_or, set, ltb, ltb→lt, ◌==◌, Bool-cases, Option-cases, inl, inr,
  some_eq, not_below, ◌⊎◌, ◌≡◌, refl, ap, ap₂, ◌∙◌, sym, arith,
}
use iridium_sniffer.Base.Text.{Chars, same_chars}
use iridium_sniffer.Base.Doubles.{Doubles}
use iridium_sniffer.BaseStation.Oldest.{AllSince, AreTimed, oldest_track-AllSince}
use iridium_sniffer.BaseStation.{Track, find_track, oldest_track, bs_derive_track, bs_track_max}

pub same_chars-eq : (s t : Chars) → same_chars s t ≡ true → s ≡ t
same_chars-eq [] [] h = refl
same_chars-eq [] (b ∷ t) h = absurd (cc h)
same_chars-eq (a ∷ s) [] h = absurd (cc h)
same_chars-eq (a ∷ s) (b ∷ t) h = elim (Bool-cases (a == b)) [
  | inl e ↦ ap₂ (λ x xs. x ∷ xs) (ground arith) (same_chars-eq s t (rw (e) at h))
  | inr e ↦ absurd (cc (rw (e) at h))
]

pub same_chars_self : (s : Chars) → same_chars s s ≡ true
same_chars_self [] = refl
same_chars_self (a ∷ s) = let e : (a == a) ≡ true = ground arith in rw (e) (same_chars_self s)

module _ (F : Doubles) where
  -- The entry that is found: its index is in the table, its address is the one asked for, and another
  -- entry for that address in its place is found too.
  record IsFound (tracks : List (Track F)) (hex : Chars) (i k : ℕ) : Type 0 where
    below : k < length tracks
    again : (e : Track F) → e.hex ≡ hex → find_track F (set tracks k e) hex i ≡ some (i + k)

  hit :
      (t : Track F) (tracks : List (Track F)) (hex : Chars) (i : ℕ)
      → t.hex ≡ hex
      → find_track F (t ∷ tracks) hex i ≡ some i
  unfolding find_track
  hit t tracks hex i e =
      let s : same_chars t.hex hex ≡ true = rw (e) (same_chars_self hex) in rw (s) refl

  miss :
      (t : Track F) (tracks : List (Track F)) (hex : Chars) (i : ℕ)
      → same_chars t.hex hex ≡ false
      → find_track F (t ∷ tracks) hex i ≡ find_track F tracks hex (i + 1)
  unfolding find_track
  miss t tracks hex i s = rw (s) refl

  shifted : (o : Option ℕ) (i k : ℕ) → o ≡ some (i + 1 + k) → o ≡ some (i + suc k)
  shifted o i k h = h ∙ ap some (omega arith)

  nowhere : (hex : Chars) (i j : ℕ) → find_track F [] hex i ≡ some j → ⊥
  unfolding find_track
  nowhere hex i j h = cc h

  j_is_i : {i j : ℕ} → i ≡ j → j ≡ i + 0
  j_is_i h = omega (arith, h)

  found :
      (tracks : List (Track F)) (hex : Chars) (i j : ℕ)
      → find_track F tracks hex i ≡ some j
      → (k : ℕ) × (j ≡ i + k)
        × IsFound tracks hex i k
        × ((d : Track F) → (get_or tracks k d).hex ≡ hex)
  found [] hex i j h = absurd (nowhere hex i j h)
  found (t ∷ tracks) hex i j h = elim (Bool-cases (same_chars t.hex hex)) [
    | inl s ↦
        let e : t.hex ≡ hex = same_chars-eq t.hex hex s in
        (
          zero,
          j_is_i (some_eq (sym (hit t tracks hex i e) ∙ h)),
          record {
            below = omega arith;
            again = λ u v. hit u tracks hex i v ∙ ap some (omega arith);
          },
          λ d. e,
        )
    | inr s ↦
        let (k, at, f, same) = found tracks hex (i + 1) j (sym (miss t tracks hex i s) ∙ h) in
        (
          suc k,
          omega arith,
          record {
            below = omega (arith, f.below);
            again = λ u v. shifted _ i k (miss t (set tracks k u) hex i s ∙ f.again u v);
          },
          same,
        )
  ]

  placed :
      (tracks : List (Track F)) (hex : Chars) (i k : ℕ) (e : Track F)
      → find_track F tracks hex i ≡ none
      → k < length tracks
      → e.hex ≡ hex
      → find_track F (set tracks k e) hex i ≡ some (i + k)
  placed [] hex i k e h l v = absurd (omega arith)
  placed (t ∷ tracks) hex i zero e h l v = hit e tracks hex i v ∙ ap some (omega arith)
  placed (t ∷ tracks) hex i (suc k) e h l v = elim (Bool-cases (same_chars t.hex hex)) [
    | inl s ↦ absurd (cc (sym (hit t tracks hex i (same_chars-eq t.hex hex s)) ∙ h))
    | inr s ↦ shifted _ i k (
        miss t (set tracks k e) hex i s
        ∙ placed tracks hex (i + 1) k e (sym (miss t tracks hex i s) ∙ h) (omega arith) v)
  ]

  appended :
      (tracks : List (Track F)) (hex : Chars) (i : ℕ) (e : Track F)
      → find_track F tracks hex i ≡ none
      → e.hex ≡ hex
      → find_track F (tracks ++ (e ∷ [])) hex i ≡ some (i + length tracks)
  appended [] hex i e h v = hit e [] hex i v ∙ ap some (omega arith)
  appended (t ∷ tracks) hex i e h v = elim (Bool-cases (same_chars t.hex hex)) [
    | inl s ↦ absurd (cc (sym (hit t tracks hex i (same_chars-eq t.hex hex s)) ∙ h))
    | inr s ↦ shifted _ i (length tracks) (
        miss t (tracks ++ (e ∷ [])) hex i s
        ∙ appended tracks hex (i + 1) e (sym (miss t tracks hex i s) ∙ h) v)
  ]

  oldest-below :
      (tracks : List (Track F)) (i idx oldest n : ℕ)
      → idx < n
      → i + length tracks ≤ n
      → oldest_track F tracks i idx oldest < n
  unfolding oldest_track
  oldest-below [] i idx oldest n h l = h
  oldest-below (t ∷ tracks) i idx oldest n h l =
      oldest-below tracks (i + 1) _ _ n (ground arith) (omega arith)

  -- The entry of an aircraft.
  abbrev pub entry : Chars → F.Double → F.Double → ℕ → Track F
  entry hex lat lon timestamp_ns = record {
    hex = hex;
    lat = lat;
    lon = lon;
    timestamp_ns = timestamp_ns;
  }

  -- The table has room for 64, and the entry of `hex` is the one given.
  abbrev pub IsRecorded : List (Track F) → Chars → Track F → Type 0
  IsRecorded tracks hex e =
      (length tracks ≤ 64)
      × ((k : ℕ) × (find_track F tracks hex 0 ≡ some k) × (get_elem? tracks k ≡ some e))

  set-IsRecorded :
      (tracks : List (Track F)) (hex : Chars) (k : ℕ) (e : Track F)
      → length tracks ≤ 64
      → k < length tracks
      → find_track F (set tracks k e) hex 0 ≡ some (0 + k)
      → IsRecorded (set tracks k e) hex e
  set-IsRecorded tracks hex k e l b f = (
    omega (arith, length-set tracks k e),
    (k, f ∙ ap some (omega arith), get_elem?-set_self tracks k e b),
  )

  -- How the table changes: the entry of a known aircraft is replaced; a new one comes last while there is
  -- room; or else it replaces an entry that no other is older than. All other entries stay.
  abbrev pub IsUpdated : List (Track F) → List (Track F) → Chars → Track F → Type 0
  IsUpdated tracks tracks' hex e =
      ((k : ℕ) × (find_track F tracks hex 0 ≡ some k) × (tracks' ≡ set tracks k e))
      ⊎ (((find_track F tracks hex 0 ≡ none)
            × (length tracks < 64)
            × (tracks' ≡ tracks ++ (e ∷ [])))
          ⊎ ((find_track F tracks hex 0 ≡ none)
              × (length tracks ≡ 64)
              × ((k : ℕ) × (t : Track F) × (get_elem? tracks k ≡ some t)
                  × AllSince F t.timestamp_ns tracks
                  × (tracks' ≡ set tracks k e))))

  -- A report on an aircraft with an address of at most 6 characters, with at most 64 entries whose times
  -- are `uint64_t`. Its fix is the one that is found for the address afterwards, and the table has at most
  -- 64 entries. If the address was known, its entry is replaced; if not, the fix is appended while there
  -- are less than 64, and with 64 it replaces an entry that was made no later than any other. Every other
  -- entry stays as it is.
  pub bs_derive_track-IsRecorded :
      (tracks : List (Track F)) (hex : Chars) (lat lon : F.Double) (timestamp_ns : ℕ)
      → length tracks ≤ 64
      → AreTimed F tracks
      → length hex ≤ 6
      → let tracks' = (bs_derive_track F tracks hex lat lon timestamp_ns).1 in
        IsRecorded tracks' hex (entry hex lat lon timestamp_ns)
        × IsUpdated tracks tracks' hex (entry hex lat lon timestamp_ns)
  unfolding bs_derive_track
  bs_derive_track-IsRecorded tracks hex lat lon timestamp_ns l timed s =
      let e = entry hex lat lon timestamp_ns in
      let short : take 6 hex ≡ hex = take_all hex 6 s in
      elim (Option-cases (find_track F tracks hex 0)) [
        | inr (j, f) ↦
            let (k, at, is, same) = found tracks hex 0 j f in
            let f' : find_track F tracks hex 0 ≡ some k = f ∙ ap some (omega (arith, at)) in
            rw (bs_derive_track, f', same e)
              (set-IsRecorded tracks hex k e l is.below (is.again e refl), inl (k, refl, refl))
        | inl f ↦ elim (Bool-cases (ltb (length tracks) bs_track_max)) [
          | inl r ↦
              rw (bs_derive_track, f, r, short)
                (
                  (
                    omega (arith, ltb→lt _ _ r, length-append tracks (e ∷ [])),
                    (
                      length tracks,
                      appended tracks hex 0 e f refl ∙ ap some {y = length tracks} (omega arith),
                      get_elem?-append_right tracks (e ∷ []) (length tracks) (omega arith)
                          ∙ ap (get_elem? (e ∷ [])) {y = 0} (omega arith),
                    ),
                  ),
                  inr (inl (refl, ltb→lt _ _ r, refl)),
                )
          | inr r ↦
              let full : length tracks ≡ 64 = omega (arith, l, not_below _ _ r) in
              let k = oldest_track F tracks 0 0 (2 ^ 64 - 1) in
              let (t, there, since) = oldest_track-AllSince F tracks (omega (arith, full)) timed in
              let b : k < length tracks =
                oldest-below tracks 0 0 (2 ^ 64 - 1) (length tracks) (ground arith) (omega arith) in
              rw (bs_derive_track, f, r, short)
                (
                  set-IsRecorded tracks hex k e l b (placed tracks hex 0 k e f b refl),
                  inr (inr (refl, full, (k, t, there, since, refl))),
                )
        ]
      ]
