-- ===== src/Ida/Lcw/Header/Lossless.antt =====
-- ida_decode.c, `format_lcw_header`: the word that a header was made from.
use iridium_sniffer.Base.{
  ℕ, ◌+◌, ◌-◌, ◌*◌, ◌^◌, ◌<◌, [], ◌∷◌, ◌==◌, Bool-cases, inl, inr, ◌≡◌, ◌∙◌, arith,
}
use iridium_sniffer.Ida.Lcw.{LcwWord}
use iridium_sniffer.Ida.Lcw.Header.{
  lcw3_to_bits, LcwCode, Remain, LcwType, type_of, format_parts, format_maint, format_acchl,
  format_hndof, format_lcw_header,
}
use iridium_sniffer.Ida.Lcw.Header.Fields.{run_value, run-lcw3, field-lcw3, digit-lcw3}

-- The 21 bits that a header was printed from.
pub word_of : LcwCode → Remain → ℕ
word_of (LcwCode.sync status dtoa dfoa) (Remain.digits (a ∷ (b ∷ []))) =
    run_value a * 2 ^ 20 + status * 2 ^ 19 + run_value b * 2 ^ 18 + dtoa * 2 ^ 8 + dfoa
word_of (LcwCode.switch dtoa dfoa) (Remain.digits (a ∷ [])) =
    run_value a * 2 ^ 18 + dtoa * 2 ^ 8 + dfoa
word_of (LcwCode.maint_2 lqi power f_dtoa f_dfoa) (Remain.digits (a ∷ (b ∷ []))) =
    run_value a * 2 ^ 20 + lqi * 2 ^ 18 + power * 2 ^ 15 + f_dtoa * 2 ^ 8 + f_dfoa * 2 + run_value b
word_of (LcwCode.maint_1 lqi power) (Remain.digits (a ∷ [])) =
    run_value a * 2 ^ 5 + power * 2 ^ 2 + lqi
word_of (LcwCode.access_channel msg_type bloc_num sapi_code segm_list) (Remain.digits_hex a tail) =
    run_value a * 2 ^ 20
    + msg_type * 2 ^ 17
    + bloc_num * 2 ^ 16
    + sapi_code * 2 ^ 13
    + run_value segm_list * 2 ^ 5
    + tail
word_of (LcwCode.handoff_resp cand denied ref slot sband_up sband_dn access)
      (Remain.digits (a ∷ (b ∷ []))) =
    run_value a * 2 ^ 19
    + cand * 2 ^ 18
    + denied * 2 ^ 17
    + ref * 2 ^ 16
    + run_value b * 2 ^ 15
    + (slot - 1) * 2 ^ 13
    + sband_up * 2 ^ 8
    + sband_dn * 2 ^ 3
    + (access - 1)
word_of LcwCode.handoff_cand (Remain.digits (a ∷ (b ∷ []))) = run_value a * 2 ^ 10 + run_value b
word_of LcwCode.geoloc (Remain.digits (a ∷ [])) = run_value a
word_of LcwCode.silent (Remain.digits (a ∷ [])) = run_value a
word_of (LcwCode.reserved n) (Remain.digits (a ∷ [])) = run_value a
word_of (LcwCode.number n) (Remain.digits (a ∷ [])) = run_value a
word_of _ _ = 0

whole-lcw3 : (v : ℕ) → v < 2 ^ 21 → run_value (lcw3_to_bits v 21) ≡ v
unfolding lcw3_to_bits
whole-lcw3 v h = run-lcw3 0 21 0 v (omega arith) ∙ omega arith

maint-word_of :
    (code v : ℕ)
    → v < 2 ^ 21
    → word_of (format_maint code (lcw3_to_bits v 21)).0 (format_maint code (lcw3_to_bits v 21)).1
      ≡ v
unfolding format_maint word_of
maint-word_of code v h = elim (Bool-cases (code == 0)) [
  | inl e0 ↦
      rw (e0, format_maint, word_of)
        (omega (
          arith,
          run-lcw3 0 1 20 v (omega arith),
          digit-lcw3 1 19 v,
          run-lcw3 2 1 18 v (omega arith),
          field-lcw3 3 10 8 v (omega arith),
          field-lcw3 13 8 0 v (omega arith),
        ))
  | inr n0 ↦ elim (Bool-cases (code == 1)) [
    | inl e1 ↦
        rw (n0, e1, format_maint, word_of)
          (omega (
            arith,
            run-lcw3 0 3 18 v (omega arith),
            field-lcw3 3 10 8 v (omega arith),
            field-lcw3 13 8 0 v (omega arith),
          ))
    | inr n1 ↦ elim (Bool-cases (code == 3)) [
      | inl e3 ↦
          rw (n0, n1, e3, format_maint, word_of)
            (omega (
              arith,
              run-lcw3 0 1 20 v (omega arith),
              digit-lcw3 1 19 v,
              digit-lcw3 2 18 v,
              field-lcw3 3 3 15 v (omega arith),
              field-lcw3 6 7 8 v (omega arith),
              field-lcw3 13 7 1 v (omega arith),
              run-lcw3 20 1 0 v (omega arith),
            ))
      | inr n3 ↦ elim (Bool-cases (code == 6)) [
        | inl e6 ↦ rw (n0, n1, n3, e6, format_maint, word_of) (whole-lcw3 v h)
        | inr n6 ↦ elim (Bool-cases (code == 12)) [
          | inl e12 ↦
              rw (n0, n1, n3, n6, e12, format_maint, word_of)
                (omega (
                  arith,
                  run-lcw3 0 16 5 v (omega arith),
                  field-lcw3 16 3 2 v (omega arith),
                  digit-lcw3 19 1 v,
                  digit-lcw3 20 0 v,
                ))
          | inr n12 ↦ elim (Bool-cases (code == 15)) [
            | inl e15 ↦ rw (n0, n1, n3, n6, n12, e15, format_maint, word_of) (whole-lcw3 v h)
            | inr n15 ↦ rw (n0, n1, n3, n6, n12, n15, format_maint, word_of) (whole-lcw3 v h)
          ]
        ]
      ]
    ]
  ]
]

acchl-word_of :
    (code v : ℕ)
    → v < 2 ^ 21
    → word_of (format_acchl code (lcw3_to_bits v 21)).0 (format_acchl code (lcw3_to_bits v 21)).1
      ≡ v
unfolding format_acchl word_of
acchl-word_of code v h = elim (Bool-cases (code == 1)) [
  | inl e1 ↦
      rw (e1, format_acchl, word_of)
        (omega (
          arith,
          run-lcw3 0 1 20 v (omega arith),
          field-lcw3 1 3 17 v (omega arith),
          digit-lcw3 4 16 v,
          field-lcw3 5 3 13 v (omega arith),
          run-lcw3 8 8 5 v (omega arith),
          field-lcw3 16 5 0 v (omega arith),
        ))
  | inr n1 ↦ rw (n1, format_acchl, word_of) (whole-lcw3 v h)
]

hndof-word_of :
    (code v : ℕ)
    → v < 2 ^ 21
    → word_of (format_hndof code (lcw3_to_bits v 21)).0 (format_hndof code (lcw3_to_bits v 21)).1
      ≡ v
unfolding format_hndof word_of
hndof-word_of code v h = elim (Bool-cases (code == 3)) [
  | inl e3 ↦
      rw (e3, format_hndof, word_of)
        (omega (
          arith,
          run-lcw3 0 2 19 v (omega arith),
          digit-lcw3 2 18 v,
          digit-lcw3 3 17 v,
          digit-lcw3 4 16 v,
          run-lcw3 5 1 15 v (omega arith),
          digit-lcw3 6 14 v,
          digit-lcw3 7 13 v,
          field-lcw3 8 5 8 v (omega arith),
          field-lcw3 13 5 3 v (omega arith),
          field-lcw3 18 3 0 v (omega arith),
        ))
  | inr n3 ↦ elim (Bool-cases (code == 12)) [
    | inl e12 ↦
        rw (n3, e12, format_hndof, word_of)
          (omega (arith, run-lcw3 0 11 10 v (omega arith), run-lcw3 11 10 0 v (omega arith)))
    | inr n12 ↦ elim (Bool-cases (code == 15)) [
      | inl e15 ↦ rw (n3, n12, e15, format_hndof, word_of) (whole-lcw3 v h)
      | inr n15 ↦ rw (n3, n12, n15, format_hndof, word_of) (whole-lcw3 v h)
    ]
  ]
]

-- If the third word has 21 bits, it can be read back from the parts of the header, whatever the type
-- and the code are.
pub format_lcw_header-word_of :
    (ft : ℕ) (lcw : LcwWord)
    → lcw.lcw3_val < 2 ^ 21
    → word_of (format_lcw_header ft lcw).code (format_lcw_header ft lcw).remain ≡ lcw.lcw3_val
unfolding format_lcw_header word_of
format_lcw_header-word_of ft lcw h = by_type (type_of lcw.lcw_ft)
  where
    by_type :
        (ty : LcwType)
        → word_of
            (format_parts ty lcw.lcw_code (lcw3_to_bits lcw.lcw3_val 21)).0
            (format_parts ty lcw.lcw_code (lcw3_to_bits lcw.lcw3_val 21)).1
          ≡ lcw.lcw3_val
    by_type LcwType.maint = maint-word_of lcw.lcw_code lcw.lcw3_val h
    by_type LcwType.acchl = acchl-word_of lcw.lcw_code lcw.lcw3_val h
    by_type LcwType.hndof = hndof-word_of lcw.lcw_code lcw.lcw3_val h
    by_type LcwType.rsrvd = whole-lcw3 lcw.lcw3_val h
