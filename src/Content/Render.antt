-- ===== src/Content/Render.antt =====
-- `Render` of internal/content/content.go: `{{ name }}` is replaced by the value of the parameter.
use network_skill_lab.Prelude.{
  Bool, List, Option, Result, [], err, false, if◌then◌else◌, leb, length, none, ok, some, suc, take,
  zero, ℕ, ◌&&◌, ◌++◌, ◌-◌, ◌==◌, ◌>>=◌, ◌||◌, ◌∷◌,
}
use mathlib.Core.Option
use network_skill_lab.Content.Lab.{Bytes, Params, param, Localized}

-- `\s` of Go's regular expressions.
abbrev is_space : ℕ → Bool
is_space c = c == 9 || c == 10 || c == 12 || c == 13 || c == 32

abbrev within : ℕ → ℕ → ℕ → Bool
within lo hi c = leb lo c && leb c hi

abbrev is_name_start : ℕ → Bool
is_name_start c = within b'A' b'Z' c || within b'a' b'z' c || c == b'_'

abbrev is_name_byte : ℕ → Bool
is_name_byte c = is_name_start c || within b'0' b'9' c

-- The bytes of a class at the front, and what follows them.
unfoldable pub span : (ℕ → Bool) → Bytes → Bytes × Bytes
span class [] = ([], [])
span class (c ∷ cs) =
    let (more, rest) = span class cs in if class c then (c ∷ more, rest) else ([], c ∷ cs)

-- The text after two copies of a byte, if it begins with them.
two : ℕ → Bytes → Option Bytes
two b (x ∷ y ∷ rest) = if x == b && y == b then some rest else none
two b _ = none

is_name : Bytes → Bool
is_name [] = false
is_name (c ∷ cs) = is_name_start c

close : Bytes → Bytes → Option (Bytes × Bytes)
unfolding two
close name s = Option.map (λ rest. (name, rest)) (two b'}' s)

-- After the opening braces.
inside : Bytes → Option (Bytes × Bytes)
unfolding span is_name close
inside s =
    let (name, rest) = span is_name_byte (span is_space s).1 in
    if is_name name then close name (span is_space rest).1 else none

-- A placeholder at the front of the text: its name, and the text behind it.
unfoldable pub match_placeholder : Bytes → Option (Bytes × Bytes)
unfolding inside two Option.bind
match_placeholder s = Option.bind (two b'{' s) inside

-- The text written so far and the names that are unknown, in the order of the text.
pub record Rendered : Type 0 where
  pub out : Bytes
  pub unknown : List Bytes

abbrev pub add_out : Bytes → Rendered → Rendered
add_out v r = record r { out = v ++ r.out }

abbrev pub substitute : Option Bytes → Bytes → Bytes → Rendered → Rendered
substitute (some value) name text r = add_out value r
substitute none name text r = record { out = text ++ r.out; unknown = name ∷ r.unknown }

-- What stands for a placeholder at the front of `c ∷ cs`, or for `c`; `next` does the rest, less the
-- bytes of the match.
abbrev pub replaced : Params → ℕ → Bytes → (ℕ → Rendered) → Option (Bytes × Bytes) → Rendered
replaced ps c cs next none = add_out (c ∷ []) (next 0)
replaced ps c cs next (some (name, rest)) =
    let n = length cs - length rest in substitute (param name ps) name (c ∷ take n cs) (next n)

-- `ReplaceAllStringFunc`: `skip` bytes belong to the match before. What stands for a placeholder
-- with an unknown name is the match itself.
unfoldable pub replace_all : Params → ℕ → Bytes → Rendered
replace_all ps skip [] = record { out = []; unknown = [] }
replace_all ps (suc skip) (c ∷ cs) = replace_all ps skip cs
replace_all ps zero (c ∷ cs) =
    replaced ps c cs (λ n. replace_all ps n cs) (match_placeholder (c ∷ cs))

unfoldable pub or_unknown : Rendered → Result (List Bytes) Bytes
or_unknown r = elim r.unknown [ [] ↦ ok r.out | n ∷ ns ↦ err (n ∷ ns) ]

-- The error lists the unknown names.
unfoldable pub render : Bytes → Params → Result (List Bytes) Bytes
unfolding replace_all or_unknown
render s ps = or_unknown (replace_all ps zero s)

abbrev pub render_localized : Localized → Params → Result (List Bytes) Localized
render_localized l ps = do
  zh ← render l.zh ps
  en ← render l.en ps
  ok (record { zh = zh; en = en })
