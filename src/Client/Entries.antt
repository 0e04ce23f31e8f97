-- ===== src/Client/Entries.antt =====
-- The entries of a session's map of streams: which ids it has, and how often it leads to a terminal.
use network_skill_lab.Prelude.{
  Bool, List, [], arith, false, if◌then◌else◌, none, one_if, refl, some, true, ℕ, ◌+◌, ◌<◌, ◌==◌,
  ◌||◌, ◌∷◌, ◌≡◌, ◌≢◌, ◌≤◌,
}
use network_skill_lab.Client.Session.{stream, without, keys}

-- How many entries of the map lead to this terminal.
unfoldable pub listed : ℕ → List (ℕ × ℕ) → ℕ
listed k [] = 0
listed k ((n, j) ∷ rest) = one_if (j == k) + listed k rest

unfoldable pub has : ℕ → List ℕ → Bool
has n [] = false
has n (x ∷ xs) = x == n || has n xs

-- The ids go down from below `b`.
abbrev pub Falls : ℕ → List (ℕ × ℕ) → Type 0
Falls b [] = Unit
Falls b ((n, k) ∷ rest) = (n < b) × Falls n rest

pub Falls-grow : (b c : ℕ) (ss : List (ℕ × ℕ)) → b ≤ c → Falls b ss → Falls c ss
Falls-grow b c [] h f = tt
Falls-grow b c ((n, k) ∷ rest) h f = (omega (arith, h, f.0), f.1)

pub without-fresh : (b id : ℕ) (ss : List (ℕ × ℕ)) → b ≤ id → Falls b ss → without id ss ≡ ss
unfolding without
without-fresh b id [] h f = refl
without-fresh b id ((n, k) ∷ rest) h f =
    let same = without-fresh n id rest (omega (arith, h, f.0)) f.1 in ground (arith, same, h, f.0)

kept-Falls :
    (c : Bool) (b n k : ℕ) (rest others : List (ℕ × ℕ))
    → n < b
    → Falls n rest
    → Falls n others
    → Falls b (if c then rest else (n, k) ∷ others)
kept-Falls true b n k rest others h f g = Falls-grow n b rest (omega (arith, h)) f
kept-Falls false b n k rest others h f g = (h, g)

pub without-Falls : (b id : ℕ) (ss : List (ℕ × ℕ)) → Falls b ss → Falls b (without id ss)
unfolding without
without-Falls b id [] f = tt
without-Falls b id ((n, k) ∷ rest) f =
    kept-Falls (n == id) b n k rest (without id rest) f.0 f.1 (without-Falls n id rest f.1)

pub listed-without :
    (id k j : ℕ) (ss : List (ℕ × ℕ))
    → stream id ss ≡ some k
    → listed j (without id ss) + one_if (k == j) ≡ listed j ss
unfolding stream without listed
listed-without id k j [] h = absurd (cc)
listed-without id k j ((n, i) ∷ rest) h = ground (arith, listed-without id k j rest)

pub without-unknown : (id : ℕ) (ss : List (ℕ × ℕ)) → stream id ss ≡ none → without id ss ≡ ss
unfolding stream without
without-unknown id [] h = refl
without-unknown id ((n, i) ∷ rest) h = ground (arith, without-unknown id rest)

pub has-below : (b n : ℕ) (ss : List (ℕ × ℕ)) → Falls b ss → has n (keys ss) ≡ true → n < b
unfolding has
has-below b n [] f h = absurd (cc)
has-below b n ((m, k) ∷ rest) f h = ground (arith, has-below m n rest f.1, f.0)

pub has-without :
    (b id n : ℕ) (ss : List (ℕ × ℕ))
    → Falls b ss
    → has n (keys (without id ss)) ≡ true
    → (has n (keys ss) ≡ true) × (id ≢ n)
unfolding has without
has-without b id n [] f h = absurd (cc)
has-without b id n ((m, k) ∷ rest) f h =
    ground (arith, has-without m id n rest f.1, has-below m n rest f.1, f.0)
