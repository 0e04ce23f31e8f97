-- ===== src/Prelude/Maps.antt =====
-- A Go map with numbers as its keys, as a function, and a flag as a number.
use Prim.Native.Nat.{ℕ}
use network_skill_lab.Prelude.Tests.{◌==◌, if◌then◌else◌}
use mathlib.Core.Path.{◌≡◌, refl, ap}
use mathlib.Core.Logic.{◌≢◌}
use mathlib.Core.Bool.{Bool, true, false}
use native.Mathlib.Omega.{arith}

abbrev pub one_if : Bool → ℕ
one_if b = if b then 1 else 0

abbrev pub set {ℓ} : {A : Type ℓ} → ℕ → A → (ℕ → A) → ℕ → A
set key value map other = if key == other then value else map other

-- What holds of the value that was put, and of the others at another key, holds of each.
pub set-split {ℓ κ} :
    {A : Type ℓ} (P : A → Type κ) (k j : ℕ) (a : A) (map : ℕ → A)
    → (k ≡ j → P a)
    → (k ≢ j → P (map j))
    → P (set k a map j)
set-split P k j a map put kept = at (k == j) refl
  where
    at : (c : Bool) → (k == j) ≡ c → P (if c then a else map j)
    at true e = put (ground arith)
    at false e = kept (ground arith)

pub set-elim {ℓ κ} :
    {A : Type ℓ} (P : A → Type κ) (k j : ℕ) (a : A) (map : ℕ → A)
    → (k ≡ j → P a)
    → P (map j)
    → P (set k a map j)
set-elim P k j a map put kept = set-split P k j a map put (λ apart. kept)

pub set-at {ℓ} : {A : Type ℓ} (k : ℕ) (a : A) (map : ℕ → A) → set k a map k ≡ a
set-at k a map = let same : (k == k) ≡ true = ground arith in ap (λ c. if c then a else map k) same
