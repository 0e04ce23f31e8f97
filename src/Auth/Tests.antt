-- ===== src/Auth/Tests.antt =====
-- A client whose login fails ten times within a minute, and a login that succeeds.
use network_skill_lab.Prelude.{
  List, Time, [], arith, false, leb, length, ltb, none, ok, refl, second, some, str_eq, true, ◌*◌,
  ◌+◌, ◌<◌, ◌||◌, ◌∷◌, ◌≡◌,
}
use network_skill_lab.Auth.Limiter.{allow, no_entries, max_login_failures, login_block_for}
use network_skill_lab.Store.Model.{stored}
use network_skill_lab.Auth.Login.{
  User, Calls, State, Session, new_session, login, authenticate, find, by_id, by_username,
  session_ttl, judge, accept, open_session, Statements,
}
use network_skill_lab.Auth.Session.{login_authenticates}
use network_skill_lab.Auth.Block.{failures_block, fails, InRow, last_of}

-- At 101 s to 109 s.
abbrev later : List Time
later =
    101 * second
    ∷ 102 * second
    ∷ 103 * second
    ∷ 104 * second
    ∷ 105 * second
    ∷ 106 * second
    ∷ 107 * second
    ∷ 108 * second
    ∷ 109 * second
    ∷ []

later-InRow : InRow (100 * second) later
later-InRow = (
  omega arith,
  omega arith,
  (
    omega arith,
    omega arith,
    (
      omega arith,
      omega arith,
      (
        omega arith,
        omega arith,
        (
          omega arith,
          omega arith,
          (
            omega arith,
            omega arith,
            (omega arith, omega arith, (omega arith, omega arith, (omega arith, omega arith, tt))),
          ),
        ),
      ),
    ),
  ),
)

failures_block_example :
    (allow "10.0.0.7" (150 * second) (fails "10.0.0.7" (100 * second ∷ later) no_entries)).0 ≡ (
      ltb (1 + length later) max_login_failures
      || leb (last_of (100 * second) later + login_block_for) (150 * second))
failures_block_example =
    failures_block "10.0.0.7" no_entries (100 * second) later (150 * second) refl refl later-InRow
      (omega arith)

abbrev alice : User
alice = record { id = "u1"; username = "alice"; password_hash = "hash"; disabled = false }

abbrev calls : Calls
calls = record {
  verify = λ hash password. some (str_eq password "secret");
  placeholder = "none";
  session_id = some "s1";
  reads = true;
  writes = true;
}

abbrev start : State
start = record { users = alice ∷ []; sessions = []; entries = no_entries; now = 5 * second }

abbrev opened_session : Session
opened_session = new_session "s1" alice "curl" (5 * second)

abbrev after_login : State
after_login = (login calls "10.0.0.7" "alice" "secret" "curl" start).1

logs_in :
    login calls "10.0.0.7" "alice" "secret" "curl" start ≡ (ok (opened_session, alice), after_login)
unfolding login allow by_username judge accept open_session
logs_in = refl

no_session : find "s1" start.sessions ≡ none
unfolding find
no_session = refl

alice_listed : by_id "u1" start.users ≡ some alice
unfolding by_id
alice_listed = refl

still_early : stored (60 * second) < stored (start.now + session_ttl)
unfolding stored
still_early = omega arith

abbrev all_work : Statements
all_work = record { reads_session = true; reads_user = true; touches = true }

login_authenticates_example :
    ((allow "10.0.0.7" start.now start.entries).0 ≡ true)
    × (by_username "alice" start.users ≡ some alice)
    × (calls.verify "hash" "secret" ≡ some true)
    × ((authenticate all_work "s1" (record after_login { now = 60 * second })).0 ≡ ok alice)
login_authenticates_example =
    login_authenticates calls "10.0.0.7" "alice" "secret" "curl" start (60 * second) all_work
      opened_session alice after_login logs_in no_session alice_listed still_early
      (refl, refl, refl)
