-- ===== src/Store/Attempts.antt =====
-- internal/store/attempts.go: the statements on the table `attempts`. `id` is its primary key; the
-- order of the list is the order of insertion. An update of a missing row answers `none`, which
-- `requireRow` turns into `ErrNotFound`.
use network_skill_lab.Prelude.{
  Bool, List, Option, String, Time, [], false, if◌then◌else◌, ltb, milliseconds, name_le, none, not,
  some, str_eq, suc, take, true, ℕ, ◌&&◌, ◌++◌, ◌+◌, ◌∷◌,
}
use mathlib.Core.Option
use network_skill_lab.Store.Model.{Attempt, Status, is_active, stored}

abbrev pub Attempts : Type 0
Attempts = List Attempt

unfoldable pub get : String → Attempts → Option Attempt
get id [] = none
get id (a ∷ rows) = if str_eq a.id id then some a else get id rows

-- UPDATE … WHERE id = ?
unfoldable pub update : String → (Attempt → Attempt) → Attempts → Option Attempts
update id f [] = none
update id f (a ∷ rows) =
    if str_eq a.id id then some (f a ∷ rows) else Option.map (λ rest. a ∷ rest) (update id f rows)

abbrev pub stored? : Option Time → Option Time
stored? none = none
stored? (some t) = some (stored t)

-- The row as it is read back.
unfoldable pub as_stored : Attempt → Attempt
as_stored a = record a {
  started_at = stored? a.started_at;
  ended_at = stored? a.ended_at;
  created_at = stored a.created_at;
}

-- The INSERT fails on an id that is there.
unfoldable pub create : Attempt → Attempts → Option Attempts
unfolding get as_stored
create a rows = elim (get a.id rows) [ none ↦ some (rows ++ as_stored a ∷ []) | some b ↦ none ]

unfoldable pub set_status : String → Status → Option Time → String → Attempts → Option Attempts
unfolding update
set_status id status ended message =
    update id λ a. record a { status = status; ended_at = stored? ended; error_message = message }

unfoldable pub set_sandbox : String → String → String → Attempts → Option Attempts
unfolding update
set_sandbox id runner sandbox = update id λ a. record a { runner_id = runner; sandbox_id = sandbox }

unfoldable pub set_elapsed : String → ℕ → Attempts → Option Attempts
unfolding update
set_elapsed id elapsed = update id λ a. record a { elapsed_ms = milliseconds elapsed }

unfoldable pub set_started_at : String → Time → Attempts → Option Attempts
unfolding update
set_started_at id t = update id λ a. record a { started_at = some (stored t) }

unfoldable pub set_resolved : String → ℕ → String → String → Attempts → Option Attempts
unfolding update
set_resolved id seed case params =
    update id λ a. record a { seed = some seed; case_id = case; params_json = params }

unfoldable pub increment_submit_count : String → Attempts → Option Attempts
unfolding update
increment_submit_count id = update id λ a. record a { submit_count = a.submit_count + 1 }

unfoldable pub delete : String → Attempts → Option Attempts
delete id [] = none
delete id (a ∷ rows) =
    if str_eq a.id id then some rows else Option.map (λ rest. a ∷ rest) (delete id rows)

-- ORDER BY created_at DESC, id DESC
abbrev pub newer : Attempt → Option Attempt → Option Attempt
newer a none = some a
newer a (some b) =
    if ltb b.created_at a.created_at
    then some a
    else if ltb a.created_at b.created_at
    then some b
    else if name_le b.id a.id
    then some a
    else some b

unfoldable pub active_for_user : String → Attempts → Option Attempt
active_for_user user [] = none
active_for_user user (a ∷ rows) =
    let rest = active_for_user user rows in
    if str_eq a.user_id user && is_active a.status then newer a rest else rest

-- `CountActiveByRunner`, at the name of one runner; `runner_id` may be empty.
unfoldable pub count_active_by_runner : Attempts → String → ℕ
count_active_by_runner [] name = 0
count_active_by_runner (a ∷ rows) name =
    let rest = count_active_by_runner rows name in
    if is_active a.status && str_eq a.runner_id name then suc rest else rest

unfoldable pub list_active : Attempts → List Attempt
list_active [] = []
list_active (a ∷ rows) =
    let rest = list_active rows in if is_active a.status then a ∷ rest else rest

-- status NOT IN ('provisioning', 'running') AND ended_at IS NOT NULL AND ended_at < before. The texts
-- have one length, so they compare as the times in whole milliseconds do.
abbrev pub ended_within : Option Time → Time → Bool
ended_within none before = false
ended_within (some t) before = ltb t (stored before)

abbrev pub ended_before : Time → Attempt → Bool
ended_before before a = not (is_active a.status) && ended_within a.ended_at before

abbrev ended_time : Option Time → Time
ended_time none = 0
ended_time (some t) = t

abbrev pub ends_earlier : Attempt → Attempt → Bool
ends_earlier a b =
    if ltb (ended_time a.ended_at) (ended_time b.ended_at)
    then true
    else if ltb (ended_time b.ended_at) (ended_time a.ended_at)
    then false
    else name_le a.id b.id

-- ORDER BY ended_at, id
unfoldable pub insert_by_end : Attempt → List Attempt → List Attempt
insert_by_end a [] = a ∷ []
insert_by_end a (b ∷ rows) = if ends_earlier a b then a ∷ b ∷ rows else b ∷ insert_by_end a rows

unfoldable pub all_ended_before : Time → Attempts → List Attempt
unfolding insert_by_end
all_ended_before before [] = []
all_ended_before before (a ∷ rows) =
    let rest = all_ended_before before rows in
    if ended_before before a then insert_by_end a rest else rest

unfoldable pub list_terminal_ended_before : Time → ℕ → Attempts → List Attempt
unfolding all_ended_before
list_terminal_ended_before before limit rows = take limit (all_ended_before before rows)

-- ORDER BY created_at, id
abbrev older : Attempt → Attempt → Bool
older a b =
    if ltb a.created_at b.created_at
    then true
    else if ltb b.created_at a.created_at
    then false
    else name_le a.id b.id

unfoldable pub insert_by_age : Attempt → List Attempt → List Attempt
insert_by_age a [] = a ∷ []
insert_by_age a (b ∷ rows) = if older a b then a ∷ b ∷ rows else b ∷ insert_by_age a rows

unfoldable pub sort_by_age : List Attempt → List Attempt
unfolding insert_by_age
sort_by_age [] = []
sort_by_age (a ∷ rows) = insert_by_age a (sort_by_age rows)

unfoldable pub list_non_terminal : Attempts → List Attempt
unfolding list_active sort_by_age
list_non_terminal rows = sort_by_age (list_active rows)
