-- ===== src/Base/Doubles.antt =====
-- Floating point, as a parameter: the type of `double` and what the program calls on it. Nothing
-- is assumed of the operations; where a theorem needs a law, it takes it as a hypothesis.
use iridium_sniffer.Base.{ℕ, Bool}
use iridium_sniffer.Base.Int.{ℤ}

pub record Doubles : Type 1 where
  pub Double : Type 0
  pub of_int : ℤ → Double
  pub to_int : Double → ℤ
  pub add : Double → Double → Double
  pub sub : Double → Double → Double
  pub mul : Double → Double → Double
  pub div : Double → Double → Double
  pub sqrt : Double → Double
  pub atan2 : Double → Double → Double
  pub fabs : Double → Double
  pub pi : Double
  pub lt : Double → Double → Bool
  pub eq : Double → Double → Bool
  -- The constant m / 10^k, as C rounds it.
  pub decimal : ℕ → ℕ → Double
  pub round : Double → Double
  pub log2 : Double → Double
  pub log10 : Double → Double
  pub pow : Double → Double → Double
  pub fmod : Double → Double → Double
  pub sin : Double → Double
  pub cos : Double → Double
