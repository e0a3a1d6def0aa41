-- ===== src/Tests.antt =====
-- Concrete inputs for the theorems: small frames, messages and datagrams.
pub mod Blocks
pub mod Frames
pub mod Bursts
pub mod Packets
pub mod Radio
pub mod Satellites
pub mod Maps
pub mod Aircraft
pub mod Downmixer
pub mod Databases
use iridium_sniffer.Base.{ℕ, ◌+◌, ◌-◌, ◌*◌, ◌/◌, ◌%◌, ◌^◌, ◌==◌, ltb, List, [], ◌∷◌, ◌++◌}
use iridium_sniffer.Base.Int.{ℤ}
use iridium_sniffer.Base.Doubles.{Doubles}

-- Frequencies in whole hertz stand for `double`.
abbrev pub whole : ℤ → ℕ
whole (ℤ.pos n) = n
whole (ℤ.negsuc n) = 0

abbrev pub hertz : Doubles
hertz = record {
  Double = ℕ;
  of_int = whole;
  to_int = ℤ.pos;
  add = ◌+◌;
  sub = λ a b. (a - b) + (b - a);
  mul = ◌*◌;
  div = ◌/◌;
  sqrt = λ a. a;
  atan2 = λ a b. a;
  fabs = λ a. a;
  pi = 3;
  lt = ltb;
  eq = ◌==◌;
  decimal = λ m k. m / 10 ^ k;
  round = λ a. a;
  log2 = λ a. a;
  log10 = λ a. a;
  pow = ◌^◌;
  fmod = ◌%◌;
  sin = λ a. a;
  cos = λ a. a;
}

-- The groups of two symbols whose streams 1 and 0 are `a` and `b`.
abbrev pub groups2 : List ℕ → List ℕ → List (List ℕ)
groups2 (a ∷ (a' ∷ ar)) (b ∷ (b' ∷ br)) = (b ∷ (b' ∷ (a ∷ (a' ∷ [])))) ∷ groups2 ar br
groups2 _ _ = []

-- The groups of three symbols whose streams 2, 1 and 0 are `a`, `b` and `c`.
abbrev pub groups3 : List ℕ → List ℕ → List ℕ → List (List ℕ)
groups3 (a ∷ (a' ∷ ar)) (b ∷ (b' ∷ br)) (c ∷ (c' ∷ cr)) =
    (c ∷ (c' ∷ (b ∷ (b' ∷ (a ∷ (a' ∷ [])))))) ∷ groups3 ar br cr
groups3 _ _ _ = []
