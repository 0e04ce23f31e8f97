-- ===== src/Content/Requires.antt =====
-- content/validate_rules.go: the rule that the requirements of the checkpoints exist and have no cycle.
-- An error keeps what its text is made from.
use network_skill_lab.Prelude.{
  Bool, List, Option, String, [], false, if◌then◌else◌, length, map, none, some, str_eq, suc, true,
  zero, ℕ, ◌++◌, ◌+◌, ◌∷◌,
}
use network_skill_lab.Content.Lab.{Checkpoint}

-- `known`: a later checkpoint replaces one with the same id.
unfoldable pub known : List Checkpoint → String → Option Checkpoint
known [] id = none
known (cp ∷ cps) id =
    let rest = known cps id in
    elim rest [ some later ↦ some later | none ↦ if str_eq cp.id id then some cp else none ]

abbrev pub required : Option Checkpoint → List String
required none = []
required (some cp) = cp.requires

-- `known[id].Requires`
abbrev pub requires_of : List Checkpoint → String → List String
requires_of cps id = required (known cps id)

-- The values 0, 1 and 2 of `state`.
pub data Mark : Type 0 where
  unseen on_path finished : Mark

abbrev pub Marks : Type 0
Marks = String → Mark

abbrev pub mark : String → Mark → Marks → Marks
mark id m s other = if str_eq id other then m else s other

-- What a visit finds. The text of a cycle is its names, joined by ` -> `.
pub data Visit : Type 0 where
  clean : Visit
  cycle : List String → Visit
  out_of_fuel : Visit

-- A cycle at the empty name alone has the empty text, which the code reads as no cycle.
abbrev pub cycle_at : String → Visit
cycle_at id = if str_eq id "" then clean else cycle (id ∷ [])

abbrev pub finish : String → Visit × Marks → Visit × Marks
finish id (clean, s) = (clean, mark id finished s)
finish id (cycle names, s) = (cycle (id ∷ names), s)
finish id (out_of_fuel, s) = (out_of_fuel, s)

abbrev pub unless_found : Visit × Marks → (Marks → Visit × Marks) → Visit × Marks
unless_found (clean, s) f = f s
unless_found (cycle names, s) f = (cycle names, s)
unless_found (out_of_fuel, s) f = (out_of_fuel, s)

-- A loop over names that stops at the first cycle.
abbrev pub visit_all : (String → Marks → Visit × Marks) → List String → Marks → Visit × Marks
visit_all visit [] s = (clean, s)
visit_all visit (id ∷ ids) s = unless_found (visit id s) (visit_all visit ids)

module _ (requires : String → List String) where
  abbrev pub visit_by : (String → Marks → Visit × Marks) → Mark → String → Marks → Visit × Marks
  visit_by visit unseen id s = finish id (visit_all visit (requires id) (mark id on_path s))
  visit_by visit on_path id s = (cycle_at id, s)
  visit_by visit finished id s = (clean, s)

  -- `findRequiresCycle`
  unfoldable pub find_requires_cycle : ℕ → String → Marks → Visit × Marks
  find_requires_cycle zero id s = (out_of_fuel, s)
  find_requires_cycle (suc fuel) id s = visit_by (find_requires_cycle fuel) (s id) id s

pub data RequiresError : Type 0 where
  does_not_exist : ℕ → String → RequiresError
  cycle_through : List String → RequiresError
  no_answer : RequiresError

abbrev pub is_known : Option Checkpoint → Bool
is_known none = false
is_known (some cp) = true

abbrev pub missing_of : List Checkpoint → ℕ → List String → List RequiresError
missing_of cps i [] = []
missing_of cps i (id ∷ ids) =
    let rest = missing_of cps i ids in
    if is_known (known cps id) then rest else does_not_exist i id ∷ rest

-- The errors of the checkpoints from the index `i` on.
abbrev pub missing : List Checkpoint → ℕ → List Checkpoint → List RequiresError
missing cps i [] = []
missing cps i (cp ∷ rest) = missing_of cps i cp.requires ++ missing cps (i + 1) rest

abbrev pub ids_of : List Checkpoint → List String
ids_of cps = map (λ cp. cp.id) cps

abbrev pub errors_of : Visit → List RequiresError
errors_of clean = []
errors_of (cycle names) = cycle_through names ∷ []
errors_of out_of_fuel = no_answer ∷ []

-- The depth-first search from each checkpoint; the path has no more names than there are checkpoints.
unfoldable pub find_cycle : List Checkpoint → Visit
find_cycle cps =
    (visit_all (find_requires_cycle (requires_of cps) (suc (length cps))) (ids_of cps)
      (λ id. unseen)).0

abbrev pub unless_missing : List RequiresError → Visit → List RequiresError
unless_missing [] v = errors_of v
unless_missing (e ∷ es) v = e ∷ es

-- `checkRequires`
unfoldable pub check_requires : List Checkpoint → List RequiresError
check_requires cps = unless_missing (missing cps 0 cps) (find_cycle cps)
