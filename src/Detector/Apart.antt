-- ===== src/Detector/Apart.antt =====
-- burst_detect.c: the center bins of the bursts that are on the air, and the bins that the mask covers.
pub mod Mask
pub mod Create
pub mod Frame
use iridium_sniffer.Base.{ℕ, ◌+◌, ◌-◌, ◌<◌, List, [], ◌∷◌, ◌++◌, map, ◌≡◌, arith}
use iridium_sniffer.Base.Doubles.{Doubles}
use iridium_sniffer.Detector.{Active}

-- More than `half` bins between this bin and each of the list.
abbrev pub AllFar : ℕ → ℕ → List ℕ → Type 0
AllFar half bin [] = Unit {0}
AllFar half bin (b ∷ bins) = (half < (bin - b) + (b - bin)) × AllFar half bin bins

-- More than `half` bins between any two.
abbrev pub AreApart : ℕ → List ℕ → Type 0
AreApart half [] = Unit {0}
AreApart half (b ∷ bins) = AllFar half b bins × AreApart half bins

AllFar-append :
    (half bin new : ℕ) (bins : List ℕ)
    → AllFar half bin bins
    → half < (bin - new) + (new - bin)
    → AllFar half bin (bins ++ (new ∷ []))
AllFar-append half bin new [] f h = (h, tt)
AllFar-append half bin new (b ∷ bins) f h = (f.0, AllFar-append half bin new bins f.1 h)

pub AreApart-append :
    (half new : ℕ) (bins : List ℕ)
    → AreApart half bins
    → AllFar half new bins
    → AreApart half (bins ++ (new ∷ []))
AreApart-append half new [] a f = (tt, tt)
AreApart-append half new (b ∷ bins) a f =
    (AllFar-append half b new bins a.0 (omega (arith, f.0)), AreApart-append half new bins a.1 f.1)

module _ (F : Doubles) where
  abbrev pub centers : List (Active F) → List ℕ
  centers bursts = map (λ b. b.center_bin) bursts
