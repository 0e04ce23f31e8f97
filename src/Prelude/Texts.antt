-- ===== src/Prelude/Texts.antt =====
-- Go strings that are compared and never taken apart: ids, names, modes.
use Prim.Native.Nat.{ℕ, zero, suc, ◌/◌, ◌%◌}
use Prim.Native.Char.{code}
use Prim.Native.String.{String, ◌++◌}
use network_skill_lab.Prelude.Tests.{ltb, ◌==◌ as eqb, if◌then◌else◌}
use mathlib.Core.Bool.{Bool, true, false, ◌||◌}
use mathlib.Core.List.{List, [], ◌∷◌}
use text.Mathlib.Text.{◌==◌}

-- `==` of Go on strings.
abbrev pub str_eq : String → String → Bool
str_eq s t = s == t

-- `s + t` of Go.
abbrev pub str_append : String → String → String
str_append s t = s ++ t

abbrev digit_names : List String
digit_names = "0" ∷ "1" ∷ "2" ∷ "3" ∷ "4" ∷ "5" ∷ "6" ∷ "7" ∷ "8" ∷ "9" ∷ []

abbrev name_at : List String → ℕ → String
name_at [] n = ""
name_at (name ∷ names) zero = name
name_at (name ∷ names) (suc n) = name_at names n

abbrev digit : ℕ → String
digit = name_at digit_names

abbrev digits_before : ℕ → ℕ → String → String
digits_before zero n text = text
digits_before (suc more) n text =
    let rest = digits_before more (n / 10) (str_append (digit (n % 10)) text) in
    if ltb n 10 then str_append (digit n) text else rest

-- `%d` of a number below 10 ^ 20, which every `uint64` is.
unfoldable pub decimal : ℕ → String
decimal n = digits_before 20 n ""

-- The code points of a text. Byte order of UTF-8 is the order of the code points.
abbrev pub codes : String → List ℕ
codes String.[] = []
codes (String.◌∷◌ c s) = code c ∷ codes s

-- `slices.Contains` on strings.
abbrev pub contains : List String → String → Bool
contains [] s = false
contains (x ∷ xs) s = str_eq x s || contains xs s

abbrev pub codes_le : List ℕ → List ℕ → Bool
codes_le [] ys = true
codes_le (x ∷ xs) [] = false
codes_le (x ∷ xs) (y ∷ ys) =
    let rest = codes_le xs ys in if ltb x y then true else if eqb x y then rest else false

-- `strings.Compare(s, t) <= 0`.
unfoldable pub name_le : String → String → Bool
name_le s t = codes_le (codes s) (codes t)
