-- ===== src/Prelude/Lists.antt =====
-- Lists measured by native numbers, and Boolean searches that run in a test.
use Prim.Native.Nat.{ℕ, zero, suc, ◌+◌, ◌-◌, ◌<◌, ◌≤◌}
use mathlib.Core.Path.{◌≡◌, refl, ap, ◌∙◌}
use mathlib.Core.Option.{Option, none, some}
use mathlib.Core.List.{List, [], ◌∷◌, ◌++◌}
use native.Mathlib.Omega.{arith}

module _ {ℓ} {A : Type ℓ} where
  abbrev pub length : List A → ℕ
  length [] = 0
  length (x ∷ xs) = suc (length xs)

  abbrev pub take : ℕ → List A → List A
  take zero xs = []
  take (suc n) [] = []
  take (suc n) (x ∷ xs) = x ∷ take n xs

  abbrev pub drop : ℕ → List A → List A
  drop zero xs = xs
  drop (suc n) [] = []
  drop (suc n) (x ∷ xs) = drop n xs

  abbrev pub get_elem? : List A → ℕ → Option A
  get_elem? [] n = none
  get_elem? (x ∷ xs) zero = some x
  get_elem? (x ∷ xs) (suc n) = get_elem? xs n

  abbrev pub replicate : ℕ → A → List A
  replicate zero a = []
  replicate (suc n) a = a ∷ replicate n a

  pub get_elem?-replicate_lt :
      (n k : ℕ) (a : A) (xs : List A) → k < n → get_elem? (replicate n a ++ xs) k ≡ some a
  get_elem?-replicate_lt zero k a xs h = absurd (omega (arith, h))
  get_elem?-replicate_lt (suc n) zero a xs h = refl
  get_elem?-replicate_lt (suc n) (suc k) a xs h = get_elem?-replicate_lt n k a xs (omega (arith, h))

  pub get_elem?-replicate_ge :
      (n k : ℕ) (a : A) (xs : List A)
      → n ≤ k
      → get_elem? (replicate n a ++ xs) k ≡ get_elem? xs (k - n)
  get_elem?-replicate_ge zero k a xs h = ap (get_elem? xs) (omega arith)
  get_elem?-replicate_ge (suc n) zero a xs h = absurd (omega (arith, h))
  get_elem?-replicate_ge (suc n) (suc k) a xs h =
      get_elem?-replicate_ge n k a xs (omega (arith, h)) ∙ ap (get_elem? xs) (omega arith)

  pub length-append : (xs ys : List A) → length (xs ++ ys) ≡ length xs + length ys
  length-append [] ys = omega arith
  length-append (x ∷ xs) ys = omega (arith, length-append xs ys)

  pub drop-length-append : (xs ys : List A) → drop (length xs) (xs ++ ys) ≡ ys
  drop-length-append [] ys = refl
  drop-length-append (x ∷ xs) ys = drop-length-append xs ys

  abbrev pub All {κ} : (A → Type κ) → List A → Type κ
  All P [] = Unit
  All P (x ∷ xs) = P x × All P xs

  pub All-map {κ μ} :
      (P : A → Type κ) (Q : A → Type μ) (xs : List A) → ((x : A) → P x → Q x) → All P xs → All Q xs
  All-map P Q [] f h = tt
  All-map P Q (x ∷ xs) f h = (f x h.0, All-map P Q xs f h.1)
