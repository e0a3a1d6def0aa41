-- ===== src/WebMap/Evict.antt =====
-- web_map.c, `web_map_add_aircraft`: the entry that makes room for a new one.
use iridium_sniffer.Base.{
  ℕ, suc, ◌+◌, ◌-◌, ◌≤◌, ◌^◌, List, [], ◌∷◌, Option, none, some, false, length, get_elem?, set, ltb,
  if◌then◌else◌, Bool-cases, Option-cases, inl, inr, ◌≡◌, refl, sym, ap, ◌∙◌, arith,
}
use iridium_sniffer.Base.Doubles.{Doubles}
use iridium_sniffer.WebMap.{AircraftEntry}
use iridium_sniffer.WebMap.Valid.{AllSeen}
use iridium_sniffer.Base.Text.{Chars}
use iridium_sniffer.WebMap.Aircraft.{place_aircraft, find_aircraft, find_oldest, blank_entry}

module _ (F : Doubles) where
  -- No entry of the list was updated before this time.
  abbrev pub AllSince : ℕ → List (AircraftEntry F) → Type 0
  AllSince time [] = Unit {0}
  AllSince time (a ∷ aircraft) = (time ≤ a.last_seen) × AllSince time aircraft

  -- The index found so far is that of an entry of the whole list with this time, or there is none yet.
  abbrev pub IsAt : List (AircraftEntry F) → Option ℕ → ℕ → Type 0
  IsAt all none oldest = oldest ≡ 2 ^ 64 - 1
  IsAt all (some i) oldest =
      (a : AircraftEntry F) × (get_elem? all i ≡ some a) × (a.last_seen ≡ oldest)

  -- The entry that the search ends with, and its time.
  abbrev pub IsOldest : List (AircraftEntry F) → Option ℕ → List (AircraftEntry F) → ℕ → Type 0
  IsOldest all found rest before =
      (time : ℕ) × IsAt all found time × (time ≤ before) × AllSince time rest

  find_oldest_lem :
      (all aircraft : List (AircraftEntry F)) (i : ℕ) (idx : Option ℕ) (oldest : ℕ)
      → ((k : ℕ) → get_elem? all (i + k) ≡ get_elem? aircraft k)
      → IsAt all idx oldest
      → IsOldest all (find_oldest F aircraft i idx oldest) aircraft oldest
  unfolding find_oldest
  find_oldest_lem all [] i idx oldest h at = (oldest, at, omega arith, tt)
  find_oldest_lem all (a ∷ aircraft) i idx oldest h at =
      let older = ltb a.last_seen oldest in
      let here : get_elem? all i ≡ some a =
        ap (get_elem? all) {x = i} {y = i + 0} (omega arith) ∙ h 0 in
      let at' : IsAt all (if older then some i else idx) (if older then a.last_seen else oldest) =
        elim (Bool-cases older) [ inl e ↦ rw (e) (a, here, refl) | inr e ↦ rw (e) at ] in
      let (time, found, early, rest) =
        find_oldest_lem all aircraft (i + 1) _ _
          (λ k. ap (get_elem? all) {x = i + 1 + k} {y = i + suc k} (omega arith) ∙ h (suc k)) at' in
      let (m, n) = smaller a.last_seen oldest in
      (time, found, omega (arith, early, n), (omega (arith, early, m), rest))
    where
      smaller : (a b : ℕ) → ((if ltb a b then a else b) ≤ a) × ((if ltb a b then a else b) ≤ b)
      smaller a b = (ground arith, ground arith)

  nobody :
      (aircraft : List (AircraftEntry F))
      → AllSince (2 ^ 64 - 1) aircraft
      → AllSeen F aircraft
      → 32 ≤ length aircraft
      → ⊥
  nobody [] since seen l = omega arith
  nobody (a ∷ aircraft) since seen l = omega (arith, since.0, seen.0)

  pub find_oldest-some :
      (aircraft : List (AircraftEntry F))
      → 32 ≤ length aircraft
      → AllSeen F aircraft
      → (i : ℕ) × (a : AircraftEntry F) × (get_elem? aircraft i ≡ some a)
        × AllSince a.last_seen aircraft
        × (find_oldest F aircraft 0 none (2 ^ 64 - 1) ≡ some i)
  find_oldest-some aircraft l seen =
      let (time, at, early, rest) =
        find_oldest_lem aircraft aircraft 0 none (2 ^ 64 - 1)
          (λ k. ap (get_elem? aircraft) (omega arith)) refl in
      elim (Option-cases (find_oldest F aircraft 0 none (2 ^ 64 - 1))) [
        | inl e ↦
            let last : time ≡ 2 ^ 64 - 1 = rw (e) at at in
            absurd (nobody aircraft (rw (sym last) rest) seen l)
        | inr (i, e) ↦
            let (a, there, at_time) : IsAt aircraft (some i) time = rw (e) at at in
            (i, a, there, rw (at_time) rest, e)
      ]

  -- With 32 aircraft, none of them `reg` and none seen at the time 2 ^ 64 - 1, the entry that goes is one
  -- that was updated no later than any other, and the new one has its place.
  pub place_aircraft-oldest :
      (aircraft : List (AircraftEntry F)) (reg : Chars)
      → find_aircraft F aircraft reg 0 ≡ none
      → 32 ≤ length aircraft
      → AllSeen F aircraft
      → (i : ℕ) × (a : AircraftEntry F) × (get_elem? aircraft i ≡ some a)
        × AllSince a.last_seen aircraft
        × (place_aircraft F aircraft reg ≡ (set aircraft i (blank_entry F reg), some i))
  unfolding place_aircraft
  place_aircraft-oldest aircraft reg h l seen =
      let full : ltb (length aircraft) 32 ≡ false = ground arith in
      let (i, a, there, since, e) = find_oldest-some aircraft l seen in
      (i, a, there, since, rw (place_aircraft, h, full, e) refl)
