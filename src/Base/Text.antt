-- ===== src/Base/Text.antt =====
-- Strings of C as lists of character codes without the 0 at their end, and what the program calls of
-- <string.h> and <ctype.h> on them, in the "C" locale.
use Prim.Native.Nat.{ℕ, ◌-◌}
use Prim.Native.Char.{code}
use Prim.Native.String.{String}
use mathlib.Core.Bool.{Bool, true, false, ◌&&◌}
use mathlib.Core.Option.{Option, none, some}
use mathlib.Core.List.{List, [], ◌∷◌}
use iridium_sniffer.Base.Tests.{leb, ◌==◌, if◌then◌else◌}

abbrev pub Chars : Type 0
Chars = List ℕ

-- The codes of a literal.
abbrev pub codes : String → Chars
codes String.[] = []
codes (String.◌∷◌ c s) = code c ∷ codes s

-- The string in a buffer, up to its first 0.
abbrev pub c_string : List ℕ → Chars
c_string [] = []
c_string (c ∷ s) = if c == 0 then [] else c ∷ c_string s

abbrev pub is_digit : ℕ → Bool
is_digit c = leb b'0' c && leb c b'9'

abbrev pub is_upper : ℕ → Bool
is_upper c = leb b'A' c && leb c b'Z'

abbrev pub toupper : ℕ → ℕ
toupper c = if leb b'a' c && leb c b'z' then c - 32 else c

-- Two strings are equal: strcmp gives 0.
abbrev pub same_chars : Chars → Chars → Bool
same_chars [] [] = true
same_chars [] (b ∷ bs) = false
same_chars (a ∷ xs) [] = false
same_chars (a ∷ xs) (b ∷ ys) = (a == b) && same_chars xs ys

-- strncmp(s, p, strlen(p)) gives 0.
abbrev pub starts_with : Chars → Chars → Bool
starts_with [] s = true
starts_with (c ∷ p) [] = false
starts_with (c ∷ p) (d ∷ s) = (c == d) && starts_with p s

-- strstr: the string from the first occurrence of `p` on.
abbrev pub strstr : Chars → Chars → Option Chars
strstr p [] = none
strstr p (c ∷ s) = if starts_with p (c ∷ s) then some (c ∷ s) else strstr p s

-- `while (*s == c) s++;`
abbrev pub skip : ℕ → Chars → Chars
skip c [] = []
skip c (d ∷ s) = if d == c then skip c s else d ∷ s

-- strchr: what stands before the first `c`, and what stands behind it.
abbrev pub before : ℕ → Chars → Chars
before c [] = []
before c (d ∷ s) = if d == c then [] else d ∷ before c s

abbrev pub behind : ℕ → Chars → Option Chars
behind c [] = none
behind c (d ∷ s) = if d == c then some s else behind c s

-- The longest prefix of digits, and what follows it.
abbrev pub digits : Chars → Chars
digits [] = []
digits (c ∷ s) = if is_digit c then c ∷ digits s else []

abbrev pub after_digits : Chars → Chars
after_digits [] = []
after_digits (c ∷ s) = if is_digit c then after_digits s else c ∷ s
