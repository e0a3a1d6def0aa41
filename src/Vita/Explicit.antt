-- ===== src/Vita/Explicit.antt =====
-- vita49.c, `vrt_handle_context`: the settings before and after.
use iridium_sniffer.Base.{
  ℕ, List, some, true, ◌||◌, ◌≡◌, refl, Option-cases, some_eq, Bool-cases, inl, inr, sym,
}
use iridium_sniffer.Base.Doubles.{Doubles}
use iridium_sniffer.Vita.{
  Settings, Found, read_context, apply_found, vrt_handle_context, is_empty, is_mismatch,
}

module _ (F : Doubles) where
  apply_found-logged :
      (s : Settings F) (found : Found F) → s.ctx_logged ≡ true → apply_found F s found ≡ some s
  unfolding apply_found
  apply_found-logged s found h = elim (Bool-cases (is_empty F found)) [
    | inl e ↦ rw (e, apply_found)
    | inr e ↦ rw (e, h, apply_found)
  ]

  -- Once a context packet has been taken, no other changes the settings or ends the program.
  vrt_handle_context-logged :
      (s : Settings F) (vrt : List ℕ) → s.ctx_logged ≡ true → vrt_handle_context F s vrt ≡ some s
  unfolding vrt_handle_context
  vrt_handle_context-logged s vrt h = elim (Option-cases (read_context F vrt)) [
    | inl e ↦ rw (e, vrt_handle_context)
    | inr (found, e) ↦ rw (e, vrt_handle_context) (apply_found-logged s found h)
  ]

  -- The rates and the format are those of before.
  pub record IsKept (s s' : Settings F) : Type 0 where
    pub samp_rate : s'.samp_rate ≡ s.samp_rate
    pub center_freq : s'.center_freq ≡ s.center_freq
    pub iq_format : s'.iq_format ≡ s.iq_format

  pub record AreExplicit (s : Settings F) : Type 0 where
    pub samp_rate : s.samp_rate_explicit ≡ true
    pub center_freq : s.center_freq_explicit ≡ true
    pub iq_format : s.iq_format_explicit ≡ true

  self : (s : Settings F) → IsKept s s
  self s = record { samp_rate = refl; center_freq = refl; iq_format = refl }

  apply_found-IsKept :
      (s s' : Settings F) (found : Found F)
      → AreExplicit s
      → apply_found F s found ≡ some s'
      → IsKept s s'
  unfolding apply_found
  apply_found-IsKept s s' found h e = elim (Bool-cases (is_empty F found || s.ctx_logged)) [
    | inl same ↦ (let q = rw (same, apply_found) at e in rw (sym (some_eq q)) (self s))
    | inr new ↦ elim (Bool-cases (is_mismatch F s found.format)) [
      | inl bad ↦ (let q = rw (new, bad, apply_found) at e in absurd (cc q))
      | inr good ↦
          (let q = rw (new, good, h.samp_rate, h.center_freq, h.iq_format, apply_found) at e in
            rw (sym (some_eq q))
              (record { samp_rate = refl; center_freq = refl; iq_format = refl }))
    ]
  ]

  -- With the sample rate, the frequency and the format given on the command line, no context packet
  -- changes any of them.
  vrt_handle_context-IsKept :
      (s s' : Settings F) (vrt : List ℕ)
      → AreExplicit s
      → vrt_handle_context F s vrt ≡ some s'
      → IsKept s s'
  unfolding vrt_handle_context
  vrt_handle_context-IsKept s s' vrt h e = elim (Option-cases (read_context F vrt)) [
    | inl n ↦ (let q = rw (n, vrt_handle_context) at e in rw (sym (some_eq q)) (self s))
    | inr (found, f) ↦ apply_found-IsKept s s' found h (rw (f, vrt_handle_context) at e)
  ]
