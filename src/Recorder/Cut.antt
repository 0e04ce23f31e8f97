-- ===== src/Recorder/Cut.antt =====
-- What `pull` makes of an answer: its bytes through the last newline, and whose entries they are.
use network_skill_lab.Prelude.{
  Bool, Bool-cases, List, Option, Option-cases, String, [], ap, arith, drop, if◌then◌else◌, inl,
  inr, none, refl, some, str_eq, suc, sym, take, zero, ℕ, ◌++◌, ◌==◌, ◌∙◌, ◌∷◌, ◌≡◌,
}
use network_skill_lab.Content.Lab.{Bytes}
use network_skill_lab.Recorder.Pull.{Pulled, accept, save}
use network_skill_lab.Recorder.Lines.{
  entry, add, is_blank, LogLine, CommandEntry, last_index, newline, parse_lines, parse_line, Parsed,
}
use network_skill_lab.Recorder.Pull.{Pulled, save, accept}
use network_skill_lab.Recorder.Split.{IsClosed}

pub cut : (n : ℕ) (xs : Bytes) → take n xs ++ drop n xs ≡ xs
cut zero xs = refl
cut (suc n) [] = refl
cut (suc n) (x ∷ xs) = ap (λ r. x ∷ r) (cut n xs)

pub last_index-none :
    (b : ℕ) (rest : Bytes)
    → last_index rest ≡ none
    → last_index (b ∷ rest) ≡ (if b == newline then some 0 else none)
unfolding last_index
last_index-none b rest e = rw e

pub last_index-some :
    (b : ℕ) (rest : Bytes) (j : ℕ) → last_index rest ≡ some j → last_index (b ∷ rest) ≡ some (suc j)
unfolding last_index
last_index-some b rest j e = rw e

pub last_index-nil : last_index [] ≡ none
unfolding last_index
last_index-nil = refl

-- The last newline is the first byte.
pub first-newline :
    (b i : ℕ) → (if b == newline then some 0 else none) ≡ some i → (b ≡ newline) × (i ≡ 0)
first-newline b i h = elim (Bool-cases (b == newline)) [
  | inl e ↦ (ground (arith, e), let h' = rw e at h in cc)
  | inr e ↦ let h' = rw e at h in absurd (cc)
]

-- The bytes through the last newline.
pub complete-IsClosed : (xs : Bytes) (i : ℕ) → last_index xs ≡ some i → IsClosed (take (suc i) xs)
complete-IsClosed [] i h = absurd (cc last_index-nil)
complete-IsClosed (b ∷ []) i h =
    let (e, z) = first-newline b i (sym (last_index-none b [] last_index-nil) ∙ h) in rw z e
complete-IsClosed (b ∷ c ∷ rest) i h = elim (Option-cases (last_index (c ∷ rest))) [
  | inl e ↦ let (f, z) = first-newline b i (sym (last_index-none b (c ∷ rest) e) ∙ h) in rw z f
  | inr (j, e) ↦
      let z : i ≡ suc j = cc (last_index-some b (c ∷ rest) j e) in
      rw z (complete-IsClosed (c ∷ rest) j e)
]

pub append-IsClosed : (xs ys : Bytes) → IsClosed xs → IsClosed ys → IsClosed (xs ++ ys)
append-IsClosed [] ys p q = q
append-IsClosed (b ∷ []) [] p q = p
append-IsClosed (b ∷ []) (c ∷ ys) p q = q
append-IsClosed (b ∷ c ∷ xs) ys p q = append-IsClosed (c ∷ xs) ys p q

-- The entries of one node.
abbrev pub from : String → List CommandEntry → List CommandEntry
from node [] = []
from node (e ∷ entries) =
    let rest = from node entries in if str_eq e.node node then e ∷ rest else rest

pub from-append :
    (node : String) (xs ys : List CommandEntry)
    → from node (xs ++ ys) ≡ from node xs ++ from node ys
from-append node [] ys = refl
from-append node (e ∷ xs) ys = elim (Bool-cases (str_eq e.node node)) [
  | inl h ↦ rw h (ap (λ r. e ∷ r) (from-append node xs ys))
  | inr h ↦ rw h (from-append node xs ys)
]

module _ (decode : Bytes → Option LogLine) (attempt_id : String) where
  node_of : String → Parsed → String
  node_of node (entry e) = e.node
  node_of node _ = node

  parse_line-node :
      (node : String) (raw : Bytes) → node_of node (parse_line decode attempt_id node raw) ≡ node
  unfolding parse_line node_of
  parse_line-node node raw = elim (Bool-cases (is_blank raw)) [
    | inl e ↦ rw e
    | inr e ↦ elim (Option-cases (decode raw)) [
      | inl f ↦ rw (e, f)
      | inr (line, f) ↦ elim (Bool-cases (line.ts == 0)) [
        | inl g ↦ rw (e, f, g)
        | inr g ↦ rw (e, f, g)
      ]
    ]
  ]

  from-add :
      (node name : String) (p : Parsed) (r : List CommandEntry × ℕ)
      → node_of node p ≡ node
      → from name r.0 ≡ (if str_eq node name then r.0 else [])
      → from name (add p r).0 ≡ (if str_eq node name then (add p r).0 else [])
  unfolding node_of
  from-add node name Parsed.blank r h ih = ih
  from-add node name Parsed.bad r h ih = ih
  from-add node name (entry e) r h ih = elim (Bool-cases (str_eq node name)) [
    | inl q ↦ rw (ih, h, q)
    | inr q ↦ rw (ih, h, q)
  ]

  pub from-lines :
      (node name : String) (lines : List Bytes)
      → from name (parse_lines decode attempt_id node lines).0
        ≡ (if str_eq node name then (parse_lines decode attempt_id node lines).0 else [])
  unfolding parse_lines
  from-lines node name [] = ground arith
  from-lines node name (raw ∷ lines) =
      from-add node name (parse_line decode attempt_id node raw) _ (parse_line-node node raw)
        (from-lines node name lines)

  pub accept-partial :
      (saves : Bool) (node : String) (out : Bytes) (s : Pulled)
      → last_index out ≡ none
      → accept decode attempt_id saves node (some (0, out)) s ≡ s
  unfolding accept
  accept-partial saves node out s e = rw (accept, e)

  pub accept_complete :
      (saves : Bool) (node : String) (out : Bytes) (end : ℕ) (s : Pulled)
      → last_index out ≡ some end
      → accept decode attempt_id saves node (some (0, out)) s
        ≡ save decode attempt_id saves node (take (suc end) out) s
  unfolding accept
  accept_complete saves node out end s e = rw (accept, e)
