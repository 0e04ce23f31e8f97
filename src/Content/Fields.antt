-- ===== src/Content/Fields.antt =====
-- The checks of the parameters in internal/content/validate_rules.go: which fields a generator takes,
-- and what `checkParams` of validate.go and `checkCases` report.
use network_skill_lab.Prelude.{
  Bool, List, Option, String, [], contains, false, if◌then◌else◌, int_lt, map, none, not, some,
  str_eq, suc, true, ℕ, ◌++◌, ◌==◌, ◌||◌, ◌∷◌,
}
use network_skill_lab.Content.Lab.{Bytes, Param, Case, Lab, bytes_eq}
use network_skill_lab.Content.Library.{Library}
use network_skill_lab.Content.Cases.{merge_params}
use network_skill_lab.Content.Params.{ParamError, resolve}

-- `paramFields`
abbrev pub param_fields : String → Option (List String)
param_fields gen =
    if str_eq gen "const"
    then some ("value" ∷ [])
    else if str_eq gen "cidr"
    then some ("base" ∷ "prefix" ∷ [])
    else if str_eq gen "ip_in"
    then some ("subnet" ∷ "index" ∷ "range" ∷ [])
    else if str_eq gen "choice"
    then some ("of" ∷ [])
    else if str_eq gen "int"
    then some ("min" ∷ "max" ∷ [])
    else none

-- `requiredParamFields`
abbrev pub required_param_fields : String → List String
required_param_fields gen =
    if str_eq gen "const"
    then "value" ∷ []
    else if str_eq gen "cidr"
    then "base" ∷ "prefix" ∷ []
    else if str_eq gen "ip_in"
    then "subnet" ∷ []
    else if str_eq gen "choice"
    then "of" ∷ []
    else if str_eq gen "int"
    then "min" ∷ "max" ∷ []
    else []

abbrev is_set {ℓ} : {A : Type ℓ} → Option A → Bool
is_set none = false
is_set (some a) = true

abbrev is_text : Bytes → Bool
is_text [] = false
is_text (b ∷ bs) = true

abbrev field_if : String → Bool → List String → List String
field_if name holds rest = if holds then name ∷ rest else rest

-- `setParamFields`
unfoldable pub set_param_fields : Param → List String
set_param_fields p = field_if "value" (is_text p.value) (
    field_if "base" (is_text p.base) (
      field_if "prefix" (not (p.prefix == 0)) (
        field_if "subnet" (is_text p.subnet) (
          field_if "index" (is_set p.index) (
            field_if "range" (is_set p.range) (
              field_if "of" (is_set p.of)
                (field_if "min" (is_set p.min) (field_if "max" (is_set p.max) []))))))))

pub data FieldError : Type 0 where
  unsupported_gen : String → FieldError
  field_required field_not_of_gen : String → String → FieldError
  both_selectors no_selector_given range_not_two : FieldError

abbrev pub absent : String → List String → List String → List FieldError
absent gen set [] = []
absent gen set (name ∷ rest) =
    let errs = absent gen set rest in
    if contains set name then errs else field_required gen name ∷ errs

abbrev pub foreign : String → List String → List String → List FieldError
foreign gen allowed [] = []
foreign gen allowed (name ∷ rest) =
    let errs = foreign gen allowed rest in
    if contains allowed name then errs else field_not_of_gen gen name ∷ errs

abbrev pub two_of : List ℕ → Bool
two_of (a ∷ b ∷ []) = true
two_of _ = false

-- `checkIPInSelector`
abbrev pub check_ip_in_selector : Option ℕ → Option (List ℕ) → List FieldError
check_ip_in_selector (some i) (some r) = both_selectors ∷ []
check_ip_in_selector none none = no_selector_given ∷ []
check_ip_in_selector none (some r) = if two_of r then [] else range_not_two ∷ []
check_ip_in_selector (some i) none = []

abbrev selector_errors : Param → List FieldError
selector_errors p = if str_eq p.gen "ip_in" then check_ip_in_selector p.index p.range else []

abbrev check_fields_as : Option (List String) → Param → List FieldError
check_fields_as none p = unsupported_gen p.gen ∷ []
check_fields_as (some allowed) p =
    let set = set_param_fields p in
    absent p.gen set (required_param_fields p.gen) ++ foreign p.gen allowed set ++ selector_errors p

-- `checkParamFields`
unfoldable pub check_param_fields : Param → List FieldError
check_param_fields p = check_fields_as (param_fields p.gen) p

-- The error of a lab or of a case, by the name of the parameter.
pub data ParamsError : Type 0 where
  bad_field : Bytes → FieldError → ParamsError
  not_resolved : Bytes → ParamError → ParamsError
  no_file bad_case_weight : ℕ → ParamsError
  duplicate_case : ℕ → String → ParamsError

abbrev fields_of : Param → List ParamsError
fields_of p = map (λ e. bad_field p.name e) (check_param_fields p)

abbrev all_fields : List Param → List ParamsError
all_fields [] = []
all_fields (p ∷ ps) = fields_of p ++ all_fields ps

abbrev is_own : Bytes → List Param → Bool
is_own name [] = false
is_own name (p ∷ ps) = let rest = is_own name ps in bytes_eq p.name name || rest

-- The errors that the callback keeps: those of the case's own parameters.
abbrev own_errors : List Param → List (Bytes × ParamError) → List ParamsError
own_errors own [] = []
own_errors own ((name, e) ∷ rest) =
    let errs = own_errors own rest in if is_own name own then not_resolved name e ∷ errs else errs

abbrev all_errors : List (Bytes × ParamError) → List ParamsError
all_errors [] = []
all_errors ((name, e) ∷ rest) = not_resolved name e ∷ all_errors rest

-- A case with the name of its file; `seen` are the ids of the cases before.
abbrev pub FiledCase : Type 0
FiledCase = String × Case

module _ (lib : Library) where
  -- `checkParams`
  unfoldable pub check_params : Lab → List ParamsError
  check_params lab = all_fields lab.params ++ all_errors (resolve lib 1 lab.params).1

  abbrev weight_errors : ℕ → Case → List ParamsError
  weight_errors i c = if int_lt 0 c.weight then [] else bad_case_weight i ∷ []

  abbrev seen_errors : ℕ → Case → List String → List ParamsError
  seen_errors i c seen = if contains seen c.id then duplicate_case i c.id ∷ [] else []

  abbrev check_case : ℕ → Lab → List String → Case → List ParamsError
  check_case i lab seen c =
      weight_errors i c
      ++ seen_errors i c seen
      ++ all_fields c.params
      ++ own_errors c.params (resolve lib 1 (merge_params lab.params c.params)).1

  abbrev check_cases_from : ℕ → Lab → List String → List FiledCase → List ParamsError
  check_cases_from i lab seen [] = []
  check_cases_from i lab seen ((file, c) ∷ rest) =
      let unfiled = check_cases_from (suc i) lab seen rest in
      let filed = check_cases_from (suc i) lab (c.id ∷ seen) rest in
      if str_eq file "" then no_file i ∷ unfiled else check_case i lab seen c ++ filed

  -- `checkCases`, less the errors that loading the files of the cases left.
  unfoldable pub check_cases : Lab → List FiledCase → List ParamsError
  check_cases lab cases = check_cases_from 0 lab [] cases
