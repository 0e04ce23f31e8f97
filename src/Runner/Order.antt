-- ===== src/Runner/Order.antt =====
-- The order on names, and what sorting by name does to a list of members.
use network_skill_lab.Prelude.{
  All, Bool-cases, List, String, [], arith, codes, codes_le, false, inl, inr, name_le, refl, true,
  ℕ, ◌∷◌, ◌≡◌,
}
use mathlib.Core.List.{Memᴰ}
use network_skill_lab.Runner.Member.{Member}
use network_skill_lab.Runner.Schedule.{insert_by_name, sort_by_name}

codes_le_trans :
    (xs ys zs : List ℕ) → codes_le xs ys ≡ true → codes_le ys zs ≡ true → codes_le xs zs ≡ true
codes_le_trans [] ys zs p q = refl
codes_le_trans (x ∷ xs) [] zs p q = cc
codes_le_trans (x ∷ xs) (y ∷ ys) [] p q = cc
codes_le_trans (x ∷ xs) (y ∷ ys) (z ∷ zs) p q = ground (arith, codes_le_trans xs ys zs)

codes_le_total : (xs ys : List ℕ) → codes_le xs ys ≡ false → codes_le ys xs ≡ true
codes_le_total [] ys p = cc
codes_le_total (x ∷ xs) [] p = refl
codes_le_total (x ∷ xs) (y ∷ ys) p = ground (arith, codes_le_total xs ys)

codes_le_refl : (xs : List ℕ) → codes_le xs xs ≡ true
codes_le_refl [] = refl
codes_le_refl (x ∷ xs) = ground (arith, codes_le_refl xs)

pub name_le_refl : (s : String) → name_le s s ≡ true
unfolding name_le
name_le_refl s = codes_le_refl (codes s)

pub name_le_trans : (s t u : String) → name_le s t ≡ true → name_le t u ≡ true → name_le s u ≡ true
unfolding name_le
name_le_trans s t u p q = codes_le_trans (codes s) (codes t) (codes u) p q

pub name_le_total : (s t : String) → name_le s t ≡ false → name_le t s ≡ true
unfolding name_le
name_le_total s t p = codes_le_total (codes s) (codes t) p

-- Every name of the list is at or after `s`.
abbrev pub After : String → List Member → Type 0
After s = All (λ m. name_le s m.name ≡ true)

abbrev pub IsSorted : List Member → Type 0
IsSorted [] = Unit
IsSorted (m ∷ ms) = After m.name ms × IsSorted ms

After-trans : (s t : String) (ms : List Member) → name_le s t ≡ true → After t ms → After s ms
After-trans s t [] h a = tt
After-trans s t (m ∷ ms) h a = (name_le_trans s t m.name h a.0, After-trans s t ms h a.1)

module _ {ℓ} (P : Member → Type ℓ) where
  All-insert : (m : Member) (ms : List Member) → P m → All P ms → All P (insert_by_name m ms)
  unfolding insert_by_name
  All-insert m [] h a = (h, tt)
  All-insert m (x ∷ xs) h a = elim (Bool-cases (name_le m.name x.name)) [
    | inl e ↦ rw e (h, (a.0, a.1))
    | inr e ↦ rw e (a.0, All-insert m xs h a.1)
  ]

  All-insert-inv : (m : Member) (ms : List Member) → All P (insert_by_name m ms) → P m × All P ms
  unfolding insert_by_name
  All-insert-inv m [] a = (a.0, tt)
  All-insert-inv m (x ∷ xs) a = elim (Bool-cases (name_le m.name x.name)) [
    | inl e ↦ let b = rw e at a in b
    | inr e ↦ let b = rw e at a in let c = All-insert-inv m xs b.1 in (c.0, (b.0, c.1))
  ]

  pub All-sort : (ms : List Member) → All P ms → All P (sort_by_name ms)
  unfolding sort_by_name
  All-sort [] a = tt
  All-sort (m ∷ ms) a = All-insert m (sort_by_name ms) a.0 (All-sort ms a.1)

  pub All-sort-inv : (ms : List Member) → All P (sort_by_name ms) → All P ms
  unfolding sort_by_name
  All-sort-inv [] a = tt
  All-sort-inv (m ∷ ms) a =
      let b = All-insert-inv m (sort_by_name ms) a in (b.0, All-sort-inv ms b.1)

insert-IsSorted : (m : Member) (ms : List Member) → IsSorted ms → IsSorted (insert_by_name m ms)
unfolding insert_by_name
insert-IsSorted m [] h = (tt, tt)
insert-IsSorted m (x ∷ xs) h = elim (Bool-cases (name_le m.name x.name)) [
  | inl e ↦ rw e ((e, After-trans m.name x.name xs e h.0), (h.0, h.1))
  | inr e ↦ rw e (All-insert _ m xs (name_le_total m.name x.name e) h.0, insert-IsSorted m xs h.1)
]

-- Sorting gives a list in which no name comes before an earlier one.
pub sort-IsSorted : (ms : List Member) → IsSorted (sort_by_name ms)
unfolding sort_by_name
sort-IsSorted [] = tt
sort-IsSorted (m ∷ ms) = insert-IsSorted m (sort_by_name ms) (sort-IsSorted ms)

pub All-map {κ} :
    {Q R : Member → Type κ} → ((m : Member) → Q m → R m) → (ms : List Member) → All Q ms → All R ms
All-map f [] a = tt
All-map f (m ∷ ms) a = (f m a.0, All-map f ms a.1)

-- Each member of a list stands in it.
pub All-Memᴰ : (ms : List Member) → All (λ m. Memᴰ m ms) ms
All-Memᴰ [] = tt
All-Memᴰ (m ∷ ms) = (Memᴰ.head refl, All-map (λ x h. Memᴰ.tail h) ms (All-Memᴰ ms))
