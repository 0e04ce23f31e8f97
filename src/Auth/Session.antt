-- ===== src/Auth/Session.antt =====
-- What a login leads to.
use network_skill_lab.Prelude.{
  Bool, Bool-cases, List, Option, String, Time, [], arith, eq_iff, err, false, inl, inr, leb, ltb,
  none, ok, refl, some, str_eq, sub_time, subst, true, ◌++◌, ◌+◌, ◌<◌, ◌∷◌, ◌≡◌,
}
use network_skill_lab.Store.Model.{stored}
use network_skill_lab.Auth.Limiter.{Entries, allow, reset}
use network_skill_lab.Auth.Login.{
  User, Session, LoginError, State, Calls, Answer, login, judge, accept, open_session, by_username,
  by_id, find, authenticate, new_session, as_stored, session_ttl, hash_of, touch_interval,
  invalid_credentials, user_disabled, store_failed, verify_failed, no_random, too_many_attempts,
  admit, gate, touch, Statements,
}

module _ (c : Calls) (key username password agent : String) (s : State) where
  -- The ways in which `Login` ends.
  pub data Ends : Answer → Type 0 where
    refused : (e : LoginError) (s' : State) → Ends (err e, s')
    opened :
        (u : User) (id : String) (entries : Entries)
        → (allow key s.now s.entries).0 ≡ true
        → by_username username s.users ≡ some u
        → str_eq u.password_hash "" ≡ false
        → c.verify u.password_hash password ≡ some true
        → u.disabled ≡ false
        → c.session_id ≡ some id
        → Ends (
          ok (new_session id u agent s.now, u),
          record s {
            entries = entries;
            sessions = s.sessions ++ as_stored (new_session id u agent s.now) ∷ [];
          },
        )

  open_session-Ends :
      (drawn : Option String) (writes : Bool) (u : User) (entries : Entries)
      → c.session_id ≡ drawn
      → (allow key s.now s.entries).0 ≡ true
      → by_username username s.users ≡ some u
      → str_eq u.password_hash "" ≡ false
      → c.verify u.password_hash password ≡ some true
      → u.disabled ≡ false
      → Ends (open_session drawn writes u agent (record s { entries = entries }))
  unfolding open_session
  open_session-Ends none writes u entries e a b h v d = refused no_random _
  open_session-Ends (some id) false u entries e a b h v d = refused store_failed _
  open_session-Ends (some id) true u entries e a b h v d = opened u id entries a b h v d e

  accept-Ends :
      (disabled : Bool) (u : User) (entries : Entries)
      → u.disabled ≡ disabled
      → (allow key s.now s.entries).0 ≡ true
      → by_username username s.users ≡ some u
      → str_eq u.password_hash "" ≡ false
      → c.verify u.password_hash password ≡ some true
      → Ends (accept disabled c key u agent (record s { entries = entries }))
  unfolding accept
  accept-Ends true u entries d a b h v = refused user_disabled _
  accept-Ends false u entries d a b h v =
      open_session-Ends c.session_id c.writes u (reset key entries) refl a b h v d

  judge-Ends :
      (user : Option User) (verdict : Option Bool) (entries : Entries)
      → by_username username s.users ≡ user
      → c.verify (hash_of c user) password ≡ verdict
      → (allow key s.now s.entries).0 ≡ true
      → Ends (judge c key user verdict agent (record s { entries = entries }))
  unfolding judge
  judge-Ends user none entries b v a = refused verify_failed _
  judge-Ends user (some false) entries b v a = refused invalid_credentials _
  judge-Ends none (some true) entries b v a = refused invalid_credentials _
  judge-Ends (some u) (some true) entries b v a = elim (Bool-cases (str_eq u.password_hash "")) [
    | inl h ↦ rw h (refused invalid_credentials _)
    | inr h ↦
        let v' : c.verify u.password_hash password ≡ some true = rw h at v in
        rw h (accept-Ends u.disabled u entries refl a b h v')
  ]

  gate-Ends :
      (allowed reads : Bool) (answer : Answer) (s' : State)
      → (allowed ≡ true → Ends answer)
      → Ends (gate allowed reads answer s')
  gate-Ends false reads answer s' h = refused too_many_attempts _
  gate-Ends true false answer s' h = refused store_failed _
  gate-Ends true true answer s' h = h refl

  login-Ends : Ends (login c key username password agent s)
  unfolding login
  login-Ends =
      gate-Ends (allow key s.now s.entries).0 c.reads _ _
        (λ a. judge-Ends (by_username username s.users) _ (allow key s.now s.entries).1 refl refl a)

find-append :
    (id : String) (ss : List Session) (x : Session)
    → find id ss ≡ none
    → x.id ≡ id
    → find id (ss ++ x ∷ []) ≡ some x
unfolding find
find-append id [] x h e = ground (arith, eq_iff x.id id)
find-append id (y ∷ ss) x h e = elim (Bool-cases (str_eq y.id id)) [
  | inl q ↦ let h' = rw q at h in absurd (cc)
  | inr q ↦ let h' = rw q at h in rw q (find-append id ss x h' e)
]

touch-ok :
    (touches : Bool) (u : User) (session : Session) (s : State)
    → touches ≡ true
    → (touch touches u session s).0 ≡ ok u
touch-ok true u session s h = refl
touch-ok false u session s h = absurd (cc)

admit-ok :
    (disabled touches : Bool) (u : User) (session : Session) (s : State)
    → disabled ≡ false
    → touches ≡ true
    → (admit disabled touches u session s).0 ≡ ok u
admit-ok true touches u session s d h = absurd (cc)
admit-ok false touches u session s d h =
    elim (Bool-cases (leb touch_interval (sub_time s.now session.last_seen_at))) [
      | inl e ↦ rw e (touch-ok touches u session s h)
      | inr e ↦ rw e
    ]

-- That no statement of `Authenticate` fails.
abbrev pub AllSucceed : Statements → Type 0
AllSucceed st = (st.reads_session ≡ true) × (st.reads_user ≡ true) × (st.touches ≡ true)

authenticate-ok :
    (st : Statements) (u : User) (session : Session) (s : State)
    → AllSucceed st
    → find session.id s.sessions ≡ some session
    → ltb (stored s.now) session.expires_at ≡ true
    → by_id session.user_id s.users ≡ some u
    → u.disabled ≡ false
    → (authenticate st session.id s).0 ≡ ok u
unfolding authenticate
authenticate-ok st u session s (a, r, w) f l b d =
    rw (authenticate, a, f, l, r, b) (admit-ok u.disabled st.touches u session s d w)

module _ (c : Calls) (key username password agent : String) (s : State) (t : Time)
    (st : Statements) where
  -- What a login promises on each of its results.
  abbrev Promise : Answer → Type 0
  Promise (err e, s') = Unit
  Promise (ok (session, u), s') =
      find session.id s.sessions ≡ none
      → by_id u.id s.users ≡ some u
      → stored t < stored (s.now + session_ttl)
      → AllSucceed st
      → ((allow key s.now s.entries).0 ≡ true)
        × (by_username username s.users ≡ some u)
        × (c.verify u.password_hash password ≡ some true)
        × ((authenticate st session.id (record s' { now = t })).0 ≡ ok u)

  Ends-Promise : (answer : Answer) → Ends c key username password agent s answer → Promise answer
  Ends-Promise _ (refused e s') = tt
  Ends-Promise _ (opened u id entries a b h v d drawn) = λ fresh listed early works.
      let session = new_session id u agent s.now in
      let s' = record s {
        entries = entries;
        sessions = s.sessions ++ as_stored session ∷ [];
        now = t;
      } in
      (
        a,
        b,
        v,
        authenticate-ok st u (as_stored session) s' works
            (find-append id s.sessions (as_stored session) fresh refl) (ground (arith, early))
            listed d,
      )

  -- A login that succeeds was let through by the limiter, names a user of the table, and had a
  -- password that fits the hash of that user. The session that it answers with then authenticates
  -- that user until it expires, a week after the login, where no statement of `Authenticate` fails. The id of the session is a new one, the id
  -- of the user is that of no earlier row, and the time is compared in whole milliseconds.
  pub login_authenticates :
      (session : Session) (u : User) (s' : State)
      → login c key username password agent s ≡ (ok (session, u), s')
      → find session.id s.sessions ≡ none
      → by_id u.id s.users ≡ some u
      → stored t < stored (s.now + session_ttl)
      → AllSucceed st
      → ((allow key s.now s.entries).0 ≡ true)
        × (by_username username s.users ≡ some u)
        × (c.verify u.password_hash password ≡ some true)
        × ((authenticate st session.id (record s' { now = t })).0 ≡ ok u)
  login_authenticates session u s' e =
      subst Promise e (Ends-Promise _ (login-Ends c key username password agent s))
