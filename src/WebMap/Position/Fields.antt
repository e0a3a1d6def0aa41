-- ===== src/WebMap/Position/Fields.antt =====
-- web_map.c, `mtpos_xyz`: the three fields of 12 bits in five bytes.
use iridium_sniffer.Base.{
  ℕ, ◌+◌, ◌-◌, ◌*◌, ◌/◌, ◌%◌, ◌^◌, ◌<◌, true, List, [], ◌∷◌, ltb, ◌≡◌, refl, ap, ap₂, ◌∙◌, arith,
}
use iridium_sniffer.Base.Int.{ℤ, pos, negsuc, pos_part, neg_part}
use iridium_sniffer.WebMap.Position.{sign12, join5, raw_xyz}

-- A number below 2 ^ 40, the top byte first.
abbrev pub bytes5 : ℕ → List ℕ
bytes5 v =
    (v / 2 ^ 32)
    ∷ ((v / 2 ^ 24 % 2 ^ 8) ∷ ((v / 2 ^ 16 % 2 ^ 8) ∷ ((v / 2 ^ 8 % 2 ^ 8) ∷ ((v % 2 ^ 8) ∷ []))))

join5-bytes5 : (v : ℕ) → v < 2 ^ 40 → join5 (bytes5 v) ≡ v
unfolding join5
join5-bytes5 v h = omega arith

-- Two's complement on 12 bits.
abbrev pub bits12 : ℤ → ℕ
bits12 (pos n) = n
bits12 (negsuc n) = 2 ^ 12 - 1 - n

sign12-bits12 : (x : ℤ) → pos_part x < 2 ^ 11 → neg_part x < 2 ^ 11 + 1 → sign12 (bits12 x) ≡ x
unfolding sign12
sign12-bits12 (pos n) h l = ground arith
sign12-bits12 (negsuc n) h l =
    let big : ltb 0x7FF (4095 - n) ≡ true = ground arith in rw (big) (ap negsuc (omega arith))

-- Four spare bits behind the fields, and in front of them.
abbrev pub spare_behind : ℕ → ℕ → ℕ → ℕ → ℕ
spare_behind x y z spare = x * 2 ^ 28 + y * 2 ^ 16 + z * 2 ^ 4 + spare

abbrev pub spare_in_front : ℕ → ℕ → ℕ → ℕ → ℕ
spare_in_front x y z spare = spare * 2 ^ 36 + x * 2 ^ 24 + y * 2 ^ 12 + z

triple : {a b c x y z : ℕ} → a ≡ x → b ≡ y → c ≡ z → Path (ℕ × ℕ × ℕ) (a, b, c) (x, y, z)
triple {c = c} {x = x} {y = y} e f g = ap₂ (λ a b. (a, b, c)) e f ∙ ap (λ k. (x, y, k)) g

module _ (x y z spare : ℕ) (hx : x < 2 ^ 12) (hy : y < 2 ^ 12) (hz : z < 2 ^ 12)
    (hs : spare < 2 ^ 4) where
  raw_behind : raw_xyz (bytes5 (spare_behind x y z spare)) 0 ≡ (x, y, z)
  unfolding raw_xyz
  raw_behind =
      rw (join5-bytes5 (spare_behind x y z spare) (omega arith))
        (triple (omega arith) (omega arith) (omega arith))

  raw_in_front : raw_xyz (bytes5 (spare_in_front x y z spare)) 4 ≡ (x, y, z)
  unfolding raw_xyz
  raw_in_front =
      rw (join5-bytes5 (spare_in_front x y z spare) (omega arith))
        (triple (omega arith) (omega arith) (omega arith))

-- An integer of 12 bits.
abbrev pub FitsIn12 : ℤ → Type 0
FitsIn12 x = (pos_part x < 2 ^ 11) × (neg_part x < 2 ^ 11 + 1)

bits12-below : (x : ℤ) → FitsIn12 x → bits12 x < 2 ^ 12
bits12-below (pos n) h = omega (arith, h.0)
bits12-below (negsuc n) h = omega (arith, h.1)

-- The three fields with their signs.
abbrev pub signed : ℕ × ℕ × ℕ → ℤ × ℤ × ℤ
signed r = (sign12 r.0, sign12 r.1, sign12 r.2)

-- Three integers of 12 bits in five bytes are read back with their signs, whether the four spare bits
-- stand behind them or in front of them.
pub raw_xyz-signed :
    (x y z : ℤ) (spare : ℕ)
    → FitsIn12 x
    → FitsIn12 y
    → FitsIn12 z
    → spare < 2 ^ 4
    → (signed (raw_xyz (bytes5 (spare_behind (bits12 x) (bits12 y) (bits12 z) spare)) 0)
        ≡ (x, y, z))
      × (signed (raw_xyz (bytes5 (spare_in_front (bits12 x) (bits12 y) (bits12 z) spare)) 4)
          ≡ (x, y, z))
raw_xyz-signed x y z spare fx fy fz fs =
    let back =
      raw_behind (bits12 x) (bits12 y) (bits12 z) spare (bits12-below x fx) (bits12-below y fy)
        (bits12-below z fz) fs in
    let front =
      raw_in_front (bits12 x) (bits12 y) (bits12 z) spare (bits12-below x fx) (bits12-below y fy)
        (bits12-below z fz) fs in
    let ends : signed (bits12 x, bits12 y, bits12 z) ≡ (x, y, z) =
      rw (sign12-bits12 x fx.0 fx.1, sign12-bits12 y fy.0 fy.1, sign12-bits12 z fz.0 fz.1) refl in
    (ap signed back ∙ ends, ap signed front ∙ ends)
