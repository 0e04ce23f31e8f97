-- ===== src/Auth/Login.antt =====
-- internal/auth/service.go: `Login`, `Authenticate` and `Logout`, with the statements of
-- internal/store/sessions.go that they make.
use network_skill_lab.Prelude.{
  Bool, List, Option, Result, String, Time, [], err, false, if◌then◌else◌, leb, ltb, none, not, ok,
  second, some, str_eq, sub_time, true, ℕ, ◌*◌, ◌++◌, ◌+◌, ◌∷◌,
}
use network_skill_lab.Store.Model.{stored}
use network_skill_lab.Auth.Limiter.{Entries, allow, fail, reset}

-- `store.User`, as far as the login reads it; `disabled` is whether `DisabledAt` is set.
pub record User : Type 0 where
  pub id : String
  pub username : String
  pub password_hash : String
  pub disabled : Bool

pub record Session : Type 0 where
  pub id : String
  pub user_id : String
  pub created_at : Time
  pub last_seen_at : Time
  pub expires_at : Time
  pub user_agent : String

pub data LoginError : Type 0 where
  too_many_attempts invalid_credentials user_disabled : LoginError
  not_found store_failed verify_failed no_random : LoginError

-- `SessionTTL`, `TouchInterval`
abbrev pub session_ttl : ℕ
session_ttl = 7 * 24 * 3_600 * second

abbrev pub touch_interval : ℕ
touch_interval = 5 * 60 * second

pub record State : Type 0 where
  pub users : List User
  pub sessions : List Session
  pub entries : Entries
  pub now : Time

-- What the login calls: `VerifyPassword`, which answers `none` on a hash that it cannot read, the
-- hash for users that have none, the draw of a session id, and whether the read of the user and the
-- write of the session succeed.
pub record Calls : Type 0 where
  pub verify : String → String → Option Bool
  pub placeholder : String
  pub session_id : Option String
  pub reads : Bool
  pub writes : Bool

unfoldable pub by_username : String → List User → Option User
by_username name [] = none
by_username name (u ∷ us) = if str_eq u.username name then some u else by_username name us

unfoldable pub by_id : String → List User → Option User
by_id id [] = none
by_id id (u ∷ us) = if str_eq u.id id then some u else by_id id us

unfoldable pub find : String → List Session → Option Session
find id [] = none
find id (s ∷ ss) = if str_eq s.id id then some s else find id ss

-- The row of a session as it is read back.
abbrev pub as_stored : Session → Session
as_stored s = record s {
  created_at = stored s.created_at;
  last_seen_at = stored s.last_seen_at;
  expires_at = stored s.expires_at;
}

-- The hash that is verified.
abbrev pub hash_of : Calls → Option User → String
hash_of c none = c.placeholder
hash_of c (some u) = if str_eq u.password_hash "" then c.placeholder else u.password_hash

abbrev pub Answer : Type 0
Answer = Result LoginError (Session × User) × State

abbrev pub new_session : String → User → String → Time → Session
new_session id u agent now = record {
  id = id;
  user_id = u.id;
  created_at = now;
  last_seen_at = now;
  expires_at = now + session_ttl;
  user_agent = agent;
}

-- The end of `Login`, with the session id that was drawn and whether the write succeeds.
unfoldable pub open_session : Option String → Bool → User → String → State → Answer
open_session none writes u agent s = (err no_random, s)
open_session (some id) false u agent s = (err store_failed, s)
open_session (some id) true u agent s =
    let session = new_session id u agent s.now in
    (ok (session, u), record s { sessions = s.sessions ++ as_stored session ∷ [] })

abbrev pub refuse : String → State → Answer
refuse key s = (err invalid_credentials, record s { entries = fail key s.now s.entries })

-- `Login` for a password that matches, by whether the user is disabled.
unfoldable pub accept : Bool → Calls → String → User → String → State → Answer
accept true c key u agent s = (err user_disabled, s)
accept false c key u agent s =
    open_session c.session_id c.writes u agent (record s { entries = reset key s.entries })

-- By whether the user has no hash, and the answer of `VerifyPassword`.
unfoldable pub judge : Calls → String → Option User → Option Bool → String → State → Answer
judge c key user none agent s = (err verify_failed, s)
judge c key user (some false) agent s = refuse key s
judge c key none (some true) agent s = refuse key s
judge c key (some u) (some true) agent s =
    if str_eq u.password_hash "" then refuse key s else accept u.disabled c key u agent s

-- By the verdict of the limiter and whether the user is read.
abbrev pub gate : Bool → Bool → Answer → State → Answer
gate false reads answer s = (err too_many_attempts, s)
gate true false answer s = (err store_failed, s)
gate true true answer s = answer

-- `Login` for a client with the key `key`.
unfoldable pub login : Calls → String → String → String → String → State → Answer
login c key username password agent s =
    let (allowed, entries) = allow key s.now s.entries in
    let s' = record s { entries = entries } in
    let user = by_username username s.users in
    gate allowed c.reads (judge c key user (c.verify (hash_of c user) password) agent s') s'

abbrev touch_rows : String → Time → List Session → List Session
touch_rows id now [] = []
touch_rows id now (s ∷ ss) =
    let rest = touch_rows id now ss in
    if str_eq s.id id
    then record s { last_seen_at = stored now; expires_at = stored (now + session_ttl) } ∷ ss
    else s ∷ rest

-- Whether the statements of `Authenticate` succeed: the read of the session, the read of the user and
-- the write of the session.
pub record Statements : Type 0 where
  pub reads_session : Bool
  pub reads_user : Bool
  pub touches : Bool

-- `Sessions.Touch`, by whether the statement succeeds; the row is there, since it was read.
abbrev pub touch : Bool → User → Session → State → Result LoginError User × State
touch false u session s = (err store_failed, s)
touch true u session s = (ok u, record s { sessions = touch_rows session.id s.now s.sessions })

-- `Authenticate` for a session that counts, by whether its user is disabled.
abbrev pub admit : Bool → Bool → User → Session → State → Result LoginError User × State
admit true touches u session s = (err user_disabled, s)
admit false touches u session s =
    if leb touch_interval (sub_time s.now session.last_seen_at)
    then touch touches u session s
    else (ok u, s)

-- `Authenticate`. A session counts up to its end.
unfoldable pub authenticate : Statements → String → State → Result LoginError User × State
authenticate st id s =
    if not st.reads_session then (err store_failed, s) else elim (find id s.sessions) [
      | none ↦ (err not_found, s)
      | some session ↦
          if not (ltb (stored s.now) session.expires_at)
          then (err not_found, s)
          else if not st.reads_user
          then (err store_failed, s)
          else elim (by_id session.user_id s.users) [
            | none ↦ (err not_found, s)
            | some u ↦ admit u.disabled st.touches u session s
          ]
    ]

abbrev drop_session : String → List Session → List Session
drop_session id [] = []
drop_session id (s ∷ ss) = let rest = drop_session id ss in if str_eq s.id id then ss else s ∷ rest

-- `Logout`, by whether the statement succeeds: a session that is not there is no error.
unfoldable pub logout : Bool → String → State → Result LoginError (Unit {0}) × State
logout false id s = (err store_failed, s)
logout true id s = (ok tt, record s { sessions = drop_session id s.sessions })
