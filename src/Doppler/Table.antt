-- ===== src/Doppler/Table.antt =====
-- doppler_pos.c, `doppler_pos_add_measurement`: the satellites of the table, one by one.
use iridium_sniffer.Base.{
  ℕ, zero, suc, ◌+◌, ◌≤◌, List, [], ◌∷◌, ◌++◌, Option, none, some, Bool, true, false, length,
  length-append, length-replicate, length-set, get_or, set, ltb, leb, ◌==◌, if◌then◌else◌,
  Bool-cases, Option-cases, inl, inr, ◌⊎◌, ◌≢◌, ◌≡◌, refl, sym, ◌∙◌, arith,
}
use iridium_sniffer.Base.Doubles.{Doubles}
use iridium_sniffer.Circular.{push, recent}
use iridium_sniffer.Circular.Contents.{IsCircular, push-IsCircular}
use iridium_sniffer.Doppler.{
  SatBuffer, Vec, no_meas, empty_sat, find_sat, find_or_create_sat, sat_buf_add, take_measurement,
  int,
}

module _ (F : Doubles) where
  -- 200 cells, filled from index 0 on.
  pub record IsBuffer (s : SatBuffer F) : Type 0 where
    pub cells : length s.meas.cells ≡ 200
    pub filled : IsCircular s.meas

  abbrev pub IsNew : ℕ → List (SatBuffer F) → Type 0
  IsNew sat_id [] = Unit {0}
  IsNew sat_id (s ∷ sats) = (s.sat_id ≢ sat_id) × IsNew sat_id sats

  -- Every satellite has a buffer, and no two have the same id.
  abbrev pub AreBuffers : List (SatBuffer F) → Type 0
  AreBuffers [] = Unit {0}
  AreBuffers (s ∷ sats) = IsBuffer s × IsNew s.sat_id sats × AreBuffers sats

  pub record IsTable (sats : List (SatBuffer F)) : Type 0 where
    pub room : length sats ≤ 128
    pub buffers : AreBuffers sats

  pub empty_sat-IsBuffer : (sat_id : ℕ) → IsBuffer (empty_sat F sat_id)
  empty_sat-IsBuffer sat_id = record {
    cells = length-replicate 200 (no_meas F);
    filled = record {
      room = omega (arith, length-replicate 200 (no_meas F));
      filling = inl (refl, omega (arith, length-replicate 200 (no_meas F)));
    };
  }

  -- A satellite that is not found has a new id.
  find_sat-IsNew :
      (sats : List (SatBuffer F)) (sat_id i : ℕ)
      → find_sat F sats sat_id i ≡ none
      → IsNew sat_id sats
  unfolding find_sat
  find_sat-IsNew [] sat_id i h = tt
  find_sat-IsNew (s ∷ sats) sat_id i h = elim (Bool-cases (s.sat_id == sat_id)) [
    | inl e ↦ absurd (let q = rw (find_sat, e) at h in cc q)
    | inr e ↦ (λ q. ground (arith, q), find_sat-IsNew sats sat_id (i + 1) (rw (find_sat, e) at h))
  ]

  IsNew-append :
      (sats : List (SatBuffer F)) (sat_id : ℕ) (s : SatBuffer F)
      → IsNew sat_id sats
      → s.sat_id ≢ sat_id
      → IsNew sat_id (sats ++ (s ∷ []))
  IsNew-append [] sat_id s n d = (d, tt)
  IsNew-append (x ∷ sats) sat_id s n d = (n.0, IsNew-append sats sat_id s n.1 d)

  AreBuffers-append :
      (sats : List (SatBuffer F)) (s : SatBuffer F)
      → AreBuffers sats
      → IsNew s.sat_id sats
      → IsBuffer s
      → AreBuffers (sats ++ (s ∷ []))
  AreBuffers-append [] s b n i = (i, tt, tt)
  AreBuffers-append (x ∷ sats) s b n i =
      (b.0, IsNew-append sats x.sat_id s b.1 (λ e. n.0 (sym e)), AreBuffers-append sats s b.2 n.1 i)

  pub find_or_create_sat-IsTable :
      (sats : List (SatBuffer F)) (sat_id : ℕ)
      → IsTable sats
      → IsTable (find_or_create_sat F sats sat_id).0
  unfolding find_or_create_sat
  find_or_create_sat-IsTable sats sat_id t = elim (Option-cases (find_sat F sats sat_id 0)) [
    | inl e ↦ elim (Bool-cases (leb 128 (length sats))) [
      | inl full ↦ rw (find_or_create_sat, e, full) t
      | inr space ↦
          rw (find_or_create_sat, e, space)
            (record {
              room = ground (arith, length-append sats (empty_sat F sat_id ∷ []), t.room);
              buffers =
                  AreBuffers-append sats (empty_sat F sat_id) t.buffers
                    (find_sat-IsNew sats sat_id 0 e) (empty_sat-IsBuffer sat_id);
            })
    ]
    | inr (i, e) ↦ rw (find_or_create_sat, e) t
  ]

  -- A satellite in place of one with the same id.
  set-IsNew :
      (sats : List (SatBuffer F)) (i sat_id : ℕ) (s d : SatBuffer F)
      → IsNew sat_id sats
      → s.sat_id ≡ (get_or sats i d).sat_id
      → IsNew sat_id (set sats i s)
  set-IsNew [] i sat_id s d n e = tt
  set-IsNew (x ∷ sats) zero sat_id s d n e = (λ q. n.0 (sym e ∙ q), n.1)
  set-IsNew (x ∷ sats) (suc i) sat_id s d n e = (n.0, set-IsNew sats i sat_id s d n.1 e)

  pub set-AreBuffers :
      (sats : List (SatBuffer F)) (i : ℕ) (s d : SatBuffer F)
      → AreBuffers sats
      → IsBuffer s
      → s.sat_id ≡ (get_or sats i d).sat_id
      → AreBuffers (set sats i s)
  set-AreBuffers [] i s d b k e = tt
  set-AreBuffers (x ∷ sats) zero s d b k e = (k, rw (e) b.1, b.2)
  set-AreBuffers (x ∷ sats) (suc i) s d b k e =
      (b.0, set-IsNew sats i x.sat_id s d b.1 e, set-AreBuffers sats i s d b.2 k e)

  pub get_or-IsBuffer :
      (sats : List (SatBuffer F)) (i : ℕ) (d : SatBuffer F)
      → AreBuffers sats
      → IsBuffer d
      → IsBuffer (get_or sats i d)
  get_or-IsBuffer [] i d b k = k
  get_or-IsBuffer (x ∷ sats) zero d b k = b.0
  get_or-IsBuffer (x ∷ sats) (suc i) d b k = get_or-IsBuffer sats i d b.2 k

  add-IsBuffer :
      (s : SatBuffer F) (ecef : Vec F) (freq : F.Double) (ts : ℕ)
      → IsBuffer s
      → IsBuffer (sat_buf_add F s ecef freq ts)
  unfolding sat_buf_add
  add-IsBuffer s ecef freq ts b = record {
    cells = unfold push in (length-set s.meas.cells s.meas.head _ ∙ b.cells);
    filled = push-IsCircular s.meas _ b.filled;
  }

  abbrev restarted : SatBuffer F → SatBuffer F
  restarted s = record s {
    meas = record { cells = s.meas.cells; head = 0; count = 0 };
    channel_freq = int F 0;
  }

  -- A measurement is rejected, or added, or added to a buffer that starts again; a buffer without
  -- measurements rejects none.
  pub take-cases :
      (P : Option (SatBuffer F) → Type 0) (s : SatBuffer F) (ecef : Vec F) (freq : F.Double)
      (ts : ℕ)
      → (P none ⊎ (s.meas.count ≡ 0))
      → P (some (sat_buf_add F s ecef freq ts))
      → P (some (sat_buf_add F (restarted s) ecef freq ts))
      → P (take_measurement F s ecef freq ts)
  unfolding take_measurement
  take-cases P s ecef freq ts rejected added again = elim (Option-cases (recent s.meas 0)) [
    | inl e ↦ rw (take_measurement, e) added
    | inr (last, e) ↦
        rw (take_measurement, e)
          (by_tests (ltb 0 s.meas.count) _ _
            (elim rejected [ inl r ↦ inl r | inr z ↦ inr (ground arith) ]))
  ]
    where
      by_tests :
          (used gap fast : Bool)
          → (P none ⊎ (used ≡ false))
          → P (
              if used
              then (if gap
                  then some (sat_buf_add F (restarted s) ecef freq ts)
                  else if fast
                  then none
                  else some (sat_buf_add F s ecef freq ts))
              else some (sat_buf_add F s ecef freq ts))
      by_tests false gap fast r = added
      by_tests true true fast r = again
      by_tests true false false r = added
      by_tests true false true (inl r) = r
      by_tests true false true (inr e) = absurd (cc e)

  -- A satellite that may come after another.
  abbrev pub IsNext : SatBuffer F → Option (SatBuffer F) → Type 0
  IsNext s none = Unit {0}
  IsNext s (some s') = IsBuffer s' × (s'.sat_id ≡ s.sat_id)

  pub take-IsNext :
      (s : SatBuffer F) (ecef : Vec F) (freq : F.Double) (ts : ℕ)
      → IsBuffer s
      → IsNext s (take_measurement F s ecef freq ts)
  unfolding sat_buf_add
  take-IsNext s ecef freq ts b =
      take-cases (IsNext s) s ecef freq ts (inl tt) (add-IsBuffer s ecef freq ts b, refl)
        (
          add-IsBuffer (restarted s) ecef freq ts (record {
            cells = b.cells;
            filled = record { room = b.filled.room; filling = inl (refl, b.filled.room) };
          }),
          refl,
        )
