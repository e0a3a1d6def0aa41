-- ===== src/Symbols/Rotation.antt =====
-- qpsk_demod.c, `decode_dqpsk`: symbols with the phase off by quarter turns.
use iridium_sniffer.Base.{ℕ, ◌+◌, ◌-◌, ◌%◌, ◌<◌, List, [], ◌∷◌, map, ◌≡◌, refl, ap, ap₂, arith}
use iridium_sniffer.Symbols.{dqpsk_map, decode_from, decode_dqpsk}

-- The phase is off by `k` quarter turns.
abbrev pub rotate : ℕ → ℕ → ℕ
rotate k s = (s + k) % 4

abbrev pub AreSymbols : List ℕ → Type 0
AreSymbols [] = Unit {0}
AreSymbols (s ∷ symbols) = (s < 4) × AreSymbols symbols

diff-rotate :
    (k old s : ℕ) → old < 4 → s < 4 → (rotate k s + 4 - rotate k old) % 4 ≡ (s + 4 - old) % 4
diff-rotate k old s h h' = omega arith

decode_from-rotate :
    (k old : ℕ) (symbols : List ℕ)
    → old < 4
    → AreSymbols symbols
    → decode_from (rotate k old) (map (rotate k) symbols) ≡ decode_from old symbols
unfolding decode_from
decode_from-rotate k old [] h a = refl
decode_from-rotate k old (s ∷ symbols) h a =
    ap₂ (λ d r. dqpsk_map d ∷ r) (diff-rotate k old s h a.0)
      (decode_from-rotate k s symbols a.0 a.1)

-- For symbols 0 to 3, the decoded symbols behind the first are the same if the phase of all symbols
-- is off by any number of quarter turns.
decode_dqpsk-rotate :
    (k s : ℕ) (symbols : List ℕ)
    → s < 4
    → AreSymbols symbols
    → (first : ℕ) × (decode_dqpsk (map (rotate k) (s ∷ symbols)) ≡ first ∷ decode_from s symbols)
unfolding decode_dqpsk decode_from
decode_dqpsk-rotate k s symbols h a = (
  dqpsk_map ((rotate k s + 4 - 0) % 4),
  ap (λ r. dqpsk_map ((rotate k s + 4 - 0) % 4) ∷ r) (decode_from-rotate k s symbols h a),
)
