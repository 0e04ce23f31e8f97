-- ===== src/Store/Lookup.antt =====
-- What a statement on one row does to the reads of the table.
use network_skill_lab.Prelude.{String, [], arith, eq_iff, if◌then◌else◌, some, str_eq, ◌∷◌, ◌≡◌}
use mathlib.Core.Option
use network_skill_lab.Store.Model.{Attempt}
use network_skill_lab.Store.Attempts.{Attempts, get, update}

-- `update` on a table that has the row.
abbrev pub amend : String → (Attempt → Attempt) → Attempts → Attempts
amend id f [] = []
amend id f (a ∷ rows) = if str_eq a.id id then f a ∷ rows else a ∷ amend id f rows

pub update-amend :
    (id : String) (f : Attempt → Attempt) (rows : Attempts) (a : Attempt)
    → get id rows ≡ some a
    → update id f rows ≡ some (amend id f rows)
unfolding get update
update-amend id f [] a e = cc
update-amend id f (b ∷ rows) a e = ground (arith, update-amend id f rows a)

module _ (id : String) (f : Attempt → Attempt) (keeps : (a : Attempt) → (f a).id ≡ a.id) where
  pub get-amend :
      (j : String) (rows : Attempts)
      → get j (amend id f rows) ≡ (if str_eq id j then Option.map f (get j rows) else get j rows)
  unfolding get
  get-amend j [] = ground arith
  get-amend j (b ∷ rows) = ground (
    arith,
    keeps b,
    eq_iff b.id id,
    eq_iff b.id j,
    eq_iff id j,
    eq_iff (f b).id j,
    get-amend j rows,
  )
