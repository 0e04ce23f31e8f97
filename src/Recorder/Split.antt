-- ===== src/Recorder/Split.antt =====
-- A log can be cut behind any newline: the entries of the two parts are the entries of the whole.
use network_skill_lab.Prelude.{
  Bool-cases, List, Option, String, [], ap, arith, false, inl, inr, refl, sym, true, ℕ, ◌++◌, ◌==◌,
  ◌∷◌, ◌≡◌,
}
use mathlib.Core.List.{append_assoc, append-nil}
use network_skill_lab.Content.Lab.{Bytes}
use network_skill_lab.Recorder.Lines.{
  newline, prepend, split, LogLine, CommandEntry, Parsed, parse_lines, parse, add, parse_line,
  entry, is_blank,
}

-- Nothing, or bytes of which the last is a newline.
abbrev pub IsClosed : Bytes → Type 0
IsClosed [] = Unit
IsClosed (b ∷ []) = b ≡ newline
IsClosed (b ∷ c ∷ rest) = IsClosed (c ∷ rest)

abbrev prefix : Bytes → List Bytes → List Bytes
prefix p [] = p ∷ []
prefix p (line ∷ lines) = (p ++ line) ∷ lines

prefix-prepend :
    (p : Bytes) (b : ℕ) (lines : List Bytes)
    → prefix p (prepend b lines) ≡ prefix (p ++ b ∷ []) lines
prefix-prepend p b [] = refl
prefix-prepend p b (line ∷ lines) = ap (λ l. l ∷ lines) (sym (append_assoc p (b ∷ []) line))

prepend-nil : (b : ℕ) (lines : List Bytes) → prefix [] (prepend b lines) ≡ prepend b lines
prepend-nil b [] = refl
prepend-nil b (line ∷ lines) = refl

split-nil : split [] ≡ [] ∷ []
unfolding split
split-nil = refl

split-newline : (b : ℕ) (rest : Bytes) → b == newline ≡ true → split (b ∷ rest) ≡ [] ∷ split rest
unfolding split
split-newline b rest e = rw e

split-other :
    (b : ℕ) (rest : Bytes) → b == newline ≡ false → split (b ∷ rest) ≡ prepend b (split rest)
unfolding split
split-other b rest e = rw e

prefix-nil : (xs : Bytes) → prefix [] (split xs) ≡ split xs
unfolding split
prefix-nil [] = refl
prefix-nil (b ∷ rest) = elim (Bool-cases (b == newline)) [
  | inl e ↦ rw e
  | inr e ↦ rw e (prepend-nil b (split rest))
]

module _ (decode : Bytes → Option LogLine) (attempt_id node : String) where
  abbrev entries_of : List Bytes → List CommandEntry
  entries_of lines = (parse_lines decode attempt_id node lines).0

  abbrev entry_of : Bytes → List CommandEntry
  entry_of line = (add (parse_line decode attempt_id node line) ([], 0)).0

  add-append : (p : Parsed) (r : List CommandEntry × ℕ) → (add p r).0 ≡ (add p ([], 0)).0 ++ r.0
  add-append Parsed.blank r = refl
  add-append Parsed.bad r = refl
  add-append (entry e) r = refl

  entries-cons :
      (line : Bytes) (lines : List Bytes)
      → entries_of (line ∷ lines) ≡ entry_of line ++ entries_of lines
  unfolding parse_lines
  entries-cons line lines =
      add-append (parse_line decode attempt_id node line) (parse_lines decode attempt_id node lines)

  entries-nil : entries_of ([] ∷ []) ≡ []
  unfolding parse_lines parse_line is_blank
  entries-nil = refl

  entries-prefix :
      (p xs ys : Bytes) (b : ℕ)
      → IsClosed (b ∷ xs)
      → entries_of (prefix p (split (b ∷ xs ++ ys)))
        ≡ entries_of (prefix p (split (b ∷ xs))) ++ entries_of (split ys)
  entries-prefix p [] ys b closed =
      let e : b == newline ≡ true = ground (arith, closed) in
      rw (
        split-newline b ys e,
        split-newline b [] e,
        split-nil,
        entries-cons (p ++ []) (split ys),
        entries-cons (p ++ []) ([] ∷ []),
        entries-nil,
        append-nil (entry_of (p ++ [])),
      )
  entries-prefix p (c ∷ xs) ys b closed = elim (Bool-cases (b == newline)) [
    | inl e ↦
        let ih =
          rw (prefix-nil (c ∷ xs ++ ys), prefix-nil (c ∷ xs)) at
            (entries-prefix [] xs ys c closed) in
        rw
          (
            split-newline b (c ∷ xs ++ ys) e,
            split-newline b (c ∷ xs) e,
            entries-cons (p ++ []) (split (c ∷ xs ++ ys)),
            entries-cons (p ++ []) (split (c ∷ xs)),
            ih,
          )
          (sym (
            append_assoc (entry_of (p ++ [])) (entries_of (split (c ∷ xs)))
              (entries_of (split ys))))
    | inr e ↦
        rw
          (
            split-other b (c ∷ xs ++ ys) e,
            split-other b (c ∷ xs) e,
            prefix-prepend p b (split (c ∷ xs ++ ys)),
            prefix-prepend p b (split (c ∷ xs)),
          )
          (entries-prefix (p ++ b ∷ []) xs ys c closed)
  ]

  -- The entries of closed bytes, and then those of what follows.
  pub parse-append :
      (xs ys : Bytes)
      → IsClosed xs
      → (parse decode attempt_id node (xs ++ ys)).0
        ≡ (parse decode attempt_id node xs).0 ++ (parse decode attempt_id node ys).0
  unfolding parse
  parse-append [] ys closed = rw (split-nil, entries-nil)
  parse-append (b ∷ xs) ys closed =
      rw (prefix-nil (b ∷ xs ++ ys), prefix-nil (b ∷ xs)) at (entries-prefix [] xs ys b closed)
