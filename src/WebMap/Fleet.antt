-- ===== src/WebMap/Fleet.antt =====
-- web_map.c, `web_map_add_aircraft`: the list of aircraft before and after.
use iridium_sniffer.Base.{
  ℕ, zero, suc, ◌-◌, ◌<◌, ◌≤◌, ◌^◌, List, [], ◌∷◌, ◌++◌, some, length, length-append, length-drop,
  length-set, get_or, set, drop, ltb, ltb→lt, leb, ◌==◌, if◌then◌else◌, inc64, Bool-cases,
  Option-cases, inl, inr, ◌≡◌, refl, arith,
}
use iridium_sniffer.Base.Doubles.{Doubles}
use iridium_sniffer.WebMap.{State, AircraftEntry, Fix}
use iridium_sniffer.Base.Text.{Chars}
use iridium_sniffer.WebMap.Aircraft.{
  Report, append_fix, place_aircraft, find_aircraft, blank_entry, named, moved, is_implausible,
  web_map_add_aircraft,
}
use iridium_sniffer.WebMap.Valid.{IsMap, FewFixes, AllSeen}
use iridium_sniffer.WebMap.Evict.{find_oldest-some}

module _ (F : Doubles) where
  blank-fixes : (reg : Chars) → length (blank_entry F reg).fixes ≤ 8
  blank-fixes reg = omega arith

  append_fix-few :
      (fixes : List (Fix F)) (f : Fix F) → length fixes ≤ 8 → length (append_fix F fixes f) ≤ 8
  unfolding append_fix
  append_fix-few fixes f h = elim (Bool-cases (leb 8 (length fixes))) [
    | inl e ↦ rw (e) (omega (arith, length-append (drop 1 fixes) (f ∷ []), length-drop 1 fixes))
    | inr e ↦ rw (e) (ground (arith, length-append fixes (f ∷ [])))
  ]

  set-FewFixes :
      (aircraft : List (AircraftEntry F)) (i : ℕ) (a : AircraftEntry F)
      → FewFixes F aircraft
      → length a.fixes ≤ 8
      → FewFixes F (set aircraft i a)
  set-FewFixes [] i a f h = tt
  set-FewFixes (b ∷ aircraft) zero a f h = (h, f.1)
  set-FewFixes (b ∷ aircraft) (suc i) a f h = (f.0, set-FewFixes aircraft i a f.1 h)

  append-FewFixes :
      (aircraft : List (AircraftEntry F)) (a : AircraftEntry F)
      → FewFixes F aircraft
      → length a.fixes ≤ 8
      → FewFixes F (aircraft ++ (a ∷ []))
  append-FewFixes [] a f h = (h, tt)
  append-FewFixes (b ∷ aircraft) a f h = (f.0, append-FewFixes aircraft a f.1 h)

  get_or-fixes :
      (aircraft : List (AircraftEntry F)) (i : ℕ) (d : AircraftEntry F)
      → FewFixes F aircraft
      → length d.fixes ≤ 8
      → length (get_or aircraft i d).fixes ≤ 8
  get_or-fixes [] i d f h = h
  get_or-fixes (b ∷ aircraft) zero d f h = f.0
  get_or-fixes (b ∷ aircraft) (suc i) d f h = get_or-fixes aircraft i d f.1 h

  -- The list of aircraft within its bounds.
  pub record IsFleet (aircraft : List (AircraftEntry F)) : Type 0 where
    pub few : length aircraft ≤ 32
    pub fixes : FewFixes F aircraft
    pub seen : AllSeen F aircraft

  set-AllSeen :
      (aircraft : List (AircraftEntry F)) (i : ℕ) (a : AircraftEntry F)
      → AllSeen F aircraft
      → a.last_seen < 2 ^ 64 - 1
      → AllSeen F (set aircraft i a)
  set-AllSeen [] i a f h = tt
  set-AllSeen (b ∷ aircraft) zero a f h = (h, f.1)
  set-AllSeen (b ∷ aircraft) (suc i) a f h = (f.0, set-AllSeen aircraft i a f.1 h)

  append-AllSeen :
      (aircraft : List (AircraftEntry F)) (a : AircraftEntry F)
      → AllSeen F aircraft
      → a.last_seen < 2 ^ 64 - 1
      → AllSeen F (aircraft ++ (a ∷ []))
  append-AllSeen [] a f h = (h, tt)
  append-AllSeen (b ∷ aircraft) a f h = (f.0, append-AllSeen aircraft a f.1 h)

  get_or-seen :
      (aircraft : List (AircraftEntry F)) (i : ℕ) (d : AircraftEntry F)
      → AllSeen F aircraft
      → d.last_seen < 2 ^ 64 - 1
      → (get_or aircraft i d).last_seen < 2 ^ 64 - 1
  get_or-seen [] i d f h = h
  get_or-seen (b ∷ aircraft) zero d f h = f.0
  get_or-seen (b ∷ aircraft) (suc i) d f h = get_or-seen aircraft i d f.1 h

  blank-seen : (reg : Chars) → (blank_entry F reg).last_seen < 2 ^ 64 - 1
  blank-seen reg = omega arith

  -- There is an entry for the aircraft, and the list stays within its bounds.
  place_aircraft-IsFleet :
      (aircraft : List (AircraftEntry F)) (reg : Chars)
      → IsFleet aircraft
      → IsFleet (place_aircraft F aircraft reg).0
        × ((i : ℕ) × ((place_aircraft F aircraft reg).1 ≡ some i))
  unfolding place_aircraft
  place_aircraft-IsFleet aircraft reg f = elim (Option-cases (find_aircraft F aircraft reg 0)) [
    | inr (i, e) ↦ rw (place_aircraft, e) (f, (i, refl))
    | inl e ↦ elim (Bool-cases (ltb (length aircraft) 32)) [
      | inl space ↦
          rw (place_aircraft, e, space)
            (
              record {
                few =
                    omega
                      (arith, length-append aircraft (blank_entry F reg ∷ []), ltb→lt _ _ space);
                fixes = append-FewFixes aircraft (blank_entry F reg) f.fixes (blank-fixes reg);
                seen = append-AllSeen aircraft (blank_entry F reg) f.seen (blank-seen reg);
              },
              (length aircraft, refl),
            )
      | inr full ↦
          let (i, a, there, since, s) = find_oldest-some F aircraft (ground arith) f.seen in
          rw (place_aircraft, e, full, s)
            (
              record {
                few = rw (length-set aircraft i (blank_entry F reg)) f.few;
                fixes = set-FewFixes aircraft i (blank_entry F reg) f.fixes (blank-fixes reg);
                seen = set-AllSeen aircraft i (blank_entry F reg) f.seen (blank-seen reg);
              },
              (i, refl),
            )
    ]
  ]

  named-seen : (ac : AircraftEntry F) (r : Report F) → (named F ac r).last_seen ≡ ac.last_seen
  unfolding named
  named-seen ac r = refl

  moved-seen : (ac : AircraftEntry F) (r : Report F) → (moved F ac r).last_seen ≡ r.timestamp_ns
  unfolding moved
  moved-seen ac r = refl

  named-fixes : (ac : AircraftEntry F) (r : Report F) → (named F ac r).fixes ≡ ac.fixes
  unfolding named
  named-fixes ac r = refl

  moved-fixes :
      (ac : AircraftEntry F) (r : Report F) → length ac.fixes ≤ 8 → length (moved F ac r).fixes ≤ 8
  unfolding moved
  moved-fixes ac r h = append_fix-few ac.fixes _ h

  set-IsFleet :
      (aircraft : List (AircraftEntry F)) (i : ℕ) (a : AircraftEntry F)
      → IsFleet aircraft
      → length a.fixes ≤ 8
      → a.last_seen < 2 ^ 64 - 1
      → IsFleet (set aircraft i a)
  set-IsFleet aircraft i a f h t = record {
    few = rw (length-set aircraft i a) f.few;
    fixes = set-FewFixes aircraft i a f.fixes h;
    seen = set-AllSeen aircraft i a f.seen t;
  }

  with_aircraft :
      (st st' : State F)
      → IsMap F st
      → IsFleet st'.aircraft
      → st' ≡ record st { aircraft = st'.aircraft; totals = st'.totals }
      → IsMap F st'
  with_aircraft st st' m f e = rw (e) (record {
    ra = m.ra;
    beams = m.beams;
    mt = m.mt;
    acars = m.acars;
    sats = m.sats;
    aircraft = f.few;
    fixes = f.fixes;
    intact = m.intact;
    seen = f.seen;
  })

  -- The state with entry `i` updated.
  updated-IsMap :
      (st : State F) (r : Report F) (aircraft : List (AircraftEntry F)) (i : ℕ)
      → IsMap F st
      → IsFleet aircraft
      → r.timestamp_ns < 2 ^ 64 - 1
      → let ac = named F (get_or aircraft i (blank_entry F r.reg)) r in
        IsMap F (
          if is_implausible F ac r then record st { aircraft = set aircraft i ac } else record st {
            aircraft = set aircraft i (moved F ac r);
            totals = record st.totals { aircraft = inc64 st.totals.aircraft };
          })
  updated-IsMap st r aircraft i m fleet now =
      let old = get_or aircraft i (blank_entry F r.reg) in
      let ac = named F old r in
      let h : length ac.fixes ≤ 8 =
        rw (named-fixes old r)
          (get_or-fixes aircraft i (blank_entry F r.reg) fleet.fixes (blank-fixes r.reg)) in
      let t : ac.last_seen < 2 ^ 64 - 1 =
        rw (named-seen old r)
          (get_or-seen aircraft i (blank_entry F r.reg) fleet.seen (blank-seen r.reg)) in
      elim (Bool-cases (is_implausible F ac r)) [
        | inl e ↦ rw (e) (with_aircraft st _ m (set-IsFleet aircraft i ac fleet h t) refl)
        | inr e ↦ rw (e) (
            with_aircraft st _ m
              (set-IsFleet aircraft i (moved F ac r) fleet (moved-fixes ac r h)
                (rw (moved-seen ac r) now))
              refl)
      ]

  pub web_map_add_aircraft-IsMap :
      (st : State F) (r : Report F)
      → r.timestamp_ns < 2 ^ 64 - 1
      → IsMap F st
      → IsMap F (web_map_add_aircraft F st r)
  unfolding web_map_add_aircraft
  web_map_add_aircraft-IsMap st r now m =
      let (fleet, (i, at)) =
        place_aircraft-IsFleet st.aircraft r.reg
          (record { few = m.aircraft; fixes = m.fixes; seen = m.seen }) in
      elim (Bool-cases (length r.reg == 0)) [
        | inl e ↦ rw (web_map_add_aircraft, e) m
        | inr e ↦ rw (web_map_add_aircraft, e, at) (updated-IsMap st r _ i m fleet now)
      ]
