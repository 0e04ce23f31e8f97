-- ===== src/Content/Names.antt =====
-- `Render` of internal/content/content.go fails by the names of the parameters alone.
use network_skill_lab.Prelude.{
  List, Option, [], ap, err, length, none, ok, refl, some, suc, sym, take, zero, ℕ, ◌-◌, ◌∙◌, ◌∷◌,
  ◌≡◌,
}
use network_skill_lab.Content.Lab.{Bytes, Params, param}
use network_skill_lab.Content.Render.{
  match_placeholder, substitute, replaced, replace_all, or_unknown, render, Rendered,
}
use network_skill_lab.Content.Links.{is_some}

-- Two sets of parameters with the same names.
abbrev pub SameNames : Params → Params → Type 0
SameNames ps qs = (name : Bytes) → is_some (param name ps) ≡ is_some (param name qs)

substitute-unknown :
    (o o' : Option Bytes) (name text : Bytes) (r r' : Rendered)
    → is_some o ≡ is_some o'
    → r.unknown ≡ r'.unknown
    → (substitute o name text r).unknown ≡ (substitute o' name text r').unknown
substitute-unknown none none name text r r' h e = ap (λ ns. name ∷ ns) e
substitute-unknown none (some v) name text r r' h e = absurd (cc)
substitute-unknown (some v) none name text r r' h e = absurd (cc)
substitute-unknown (some v) (some w) name text r r' h e = e

module _ (ps qs : Params) (same : SameNames ps qs) where
  replaced-unknown :
      (c : ℕ) (cs : Bytes) (o : Option (Bytes × Bytes)) (next next' : ℕ → Rendered)
      → ((n : ℕ) → (next n).unknown ≡ (next' n).unknown)
      → (replaced ps c cs next o).unknown ≡ (replaced qs c cs next' o).unknown
  replaced-unknown c cs none next next' h = h 0
  replaced-unknown c cs (some (name, rest)) next next' h =
      let n = length cs - length rest in
      substitute-unknown (param name ps) (param name qs) name (c ∷ take n cs) (next n) (next' n)
        (same name) (h n)

  replace_all-unknown :
      (skip : ℕ) (s : Bytes) → (replace_all ps skip s).unknown ≡ (replace_all qs skip s).unknown
  unfolding replace_all
  replace_all-unknown skip [] = refl
  replace_all-unknown (suc skip) (c ∷ cs) = replace_all-unknown skip cs
  replace_all-unknown zero (c ∷ cs) =
      replaced-unknown c cs (match_placeholder (c ∷ cs)) (λ n. replace_all ps n cs)
        (λ n. replace_all qs n cs) (λ n. replace_all-unknown n cs)

  no_bad_text :
      (r : Rendered) (n : Bytes) (ns : List Bytes) (text : Bytes)
      → r.unknown ≡ n ∷ ns
      → ¬ (or_unknown r ≡ ok text)
  unfolding or_unknown
  no_bad_text r n ns text e h = absurd (cc (e, h))

  good_text : (r : Rendered) → r.unknown ≡ [] → or_unknown r ≡ ok r.out
  unfolding or_unknown
  good_text r e = ap (λ ns. elim ns [ [] ↦ ok r.out | n ∷ ns' ↦ err (n ∷ ns') ]) e

  -- What renders with the one renders with the other.
  pub render-SameNames :
      (s text : Bytes) → render s ps ≡ ok text → (text' : Bytes) × (render s qs ≡ ok text')
  unfolding render
  render-SameNames s text h = by (replace_all ps 0 s).unknown refl
    where
      by :
          (us : List Bytes)
          → (replace_all ps 0 s).unknown ≡ us
          → (text' : Bytes) × (render s qs ≡ ok text')
      by [] e = (
        (replace_all qs 0 s).out,
        good_text (replace_all qs 0 s) (sym (replace_all-unknown 0 s) ∙ e),
      )
      by (u ∷ us) e = absurd (no_bad_text (replace_all ps 0 s) u us text e h)
