-- ===== src/Content/Lab.antt =====
-- The parts of a lab that the server reads after it is loaded (internal/content/content.go and
-- params.go). Templates, parameter names and values are bytes, since `Render` reads into them.
use network_skill_lab.Prelude.{
  Bool, List, Option, String, [], false, if◌then◌else◌, none, some, str_eq, true, ℕ, ◌==◌, ◌∷◌,
}

abbrev pub Bytes : Type 0
Bytes = List ℕ

abbrev pub bytes_eq : Bytes → Bytes → Bool
bytes_eq [] [] = true
bytes_eq [] (y ∷ ys) = false
bytes_eq (x ∷ xs) [] = false
bytes_eq (x ∷ xs) (y ∷ ys) = let rest = bytes_eq xs ys in if x == y then rest else false

-- `map[string]string`; the entry found first is the value.
abbrev pub Params : Type 0
Params = List (Bytes × Bytes)

unfoldable pub param : Bytes → Params → Option Bytes
param name [] = none
param name ((key, value) ∷ rest) = if bytes_eq key name then some value else param name rest

pub record Localized : Type 0 where
  pub zh : Bytes
  pub en : Bytes

pub record Checkpoint : Type 0 where
  pub id : String
  pub title : Localized
  pub node : String
  pub script : String
  pub visible : Bool
  pub requires : List String

pub record TutorialStep : Type 0 where
  pub checkpoint : String
  pub instruction : Localized

-- An `int` is the bit pattern of `Prelude.Words`; a pointer or a list that may be nil is an `Option`.
pub record Param : Type 0 where
  pub name : Bytes
  pub gen : String
  pub value : Bytes
  pub base : Bytes
  pub prefix : ℕ
  pub subnet : Bytes
  pub index : Option ℕ
  pub range : Option (List ℕ)
  pub of : Option (List Bytes)
  pub min : Option ℕ
  pub max : Option ℕ

pub record Case : Type 0 where
  pub id : String
  pub weight : ℕ
  pub params : List Param
  pub setup_env : Params

-- `Lab` of content.go, less the fields that only the validation and the pages of the site read.
-- `precheck` holds the script and the retries; `nodes` the names and roles of the topology by name.
pub record Lab : Type 0 where
  pub id : String
  pub version : ℕ
  pub modes : List String
  pub environment : String
  pub ticket : Localized
  pub params : List Param
  pub cases : List Case
  pub precheck : Option (String × ℕ)
  pub setup : String
  pub checkpoints : List Checkpoint
  pub tutorial : List TutorialStep
  pub nodes : List (String × String)

pub record Resolved : Type 0 where
  pub case_id : String
  pub params : Params
  pub setup_env : Params

-- `Lab.CaseByID`
unfoldable pub case_by_id : String → List Case → Option Case
case_by_id id [] = none
case_by_id id (c ∷ cs) = if str_eq c.id id then some c else case_by_id id cs
