-- ===== src/Attempt/Leftover.antt =====
-- What `provisionUntilPrechecked` leaves behind: the sandbox that it answers with and no other.
use network_skill_lab.Prelude.{
  Bool, Bool-cases, List, Option, Option-cases, Result, String, [], arith, eq_iff, err, false, inl,
  inr, none, ok, refl, some, str_eq, subst, suc, true, zero, ℕ, ◌+◌, ◌<◌, ◌==◌, ◌||◌, ◌∙◌, ◌∷◌, ◌≡◌,
  ◌≤◌,
}
use network_skill_lab.Store.Attempts.{Attempts}
use network_skill_lab.Attempt.World.{write, Error, World, provisioning_event, precheck_failed}
use network_skill_lab.Attempt.Service.{is_connected, without, destroy}
use network_skill_lab.Attempt.Reserve.{statement-cases}
use network_skill_lab.Attempt.Provision.{
  bind, Answer, give_back, store_drawn, renew, Outside, renewed, judge, provision_until, next_seed,
  round, run_provision,
}

-- The map of the service has this sandbox.
abbrev pub is_bound : String → List (String × String) → Bool
is_bound k [] = false
is_bound k ((key, name) ∷ rest) = str_eq key k || is_bound k rest

is_bound-without :
    (k sandbox : String) (xs : List (String × String))
    → is_bound k (without sandbox xs) ≡ true
    → (is_bound k xs ≡ true) × (str_eq sandbox k ≡ false)
is_bound-without k sandbox [] h = absurd cc
is_bound-without k sandbox ((key, name) ∷ xs) h = elim (Bool-cases (str_eq key sandbox)) [
  | inl same ↦ let (b, o) = is_bound-without k sandbox xs (rw same at h) in (ground (arith, b), o)
  | inr other ↦ elim (Bool-cases (str_eq key k)) [
    | inl e ↦ (rw e refl, ground (arith, eq_iff key k, eq_iff key sandbox, eq_iff sandbox k))
    | inr e ↦
        let (b, o) = is_bound-without k sandbox xs (let h' = rw (other, e) at h in h') in
        (rw (e, b) refl, o)
  ]
]

-- After a sandbox was bound and taken off again, there is none that was not bound before.
released :
    (k sandbox name : String) (w : World)
    → is_bound k (without sandbox (bind sandbox name w).sandboxes) ≡ true
    → is_bound k w.sandboxes ≡ true
released k sandbox name w h =
    let (c, o) = is_bound-without k sandbox (bind sandbox name w).sandboxes h in
    (is_bound-without k sandbox w.sandboxes (let c' = rw o at c in c')).0

-- Of the sandboxes that are bound, only the one that is answered was not bound before.
abbrev pub Leaves : World → Answer → Type 0
Leaves w (err e, v) = (k : String) → is_bound k v.sandboxes ≡ true → is_bound k w.sandboxes ≡ true
Leaves w (ok sandbox, v) =
    (k : String)
    → is_bound k v.sandboxes ≡ true
    → str_eq sandbox k ≡ false
    → is_bound k w.sandboxes ≡ true

write-sandboxes :
    (change : Attempts → Option Attempts) (e : Error) (w : World)
    → (write change e w).1.sandboxes ≡ w.sandboxes
unfolding write
write-sandboxes change e w =
    let (fs, c) = statement-cases w in
    elim c [
      | inr f ↦ rw f refl
      | inl f ↦ elim (Option-cases (change w.attempts)) [
        | inl g ↦ rw (f, g) refl
        | inr (rows, g) ↦ rw (f, g) refl
      ]
    ]

destroy-sandboxes :
    (name id sandbox : String) (w : World)
    → str_eq sandbox "" ≡ false
    → ((destroy name id sandbox w).0 ≡ ok tt)
      × ((destroy name id sandbox w).1.sandboxes ≡ without sandbox w.sandboxes)
unfolding destroy
destroy-sandboxes name id sandbox w h = elim (Bool-cases (is_connected name w.runners)) [
  | inl e ↦ rw (h, e) (refl, refl)
  | inr e ↦ rw (h, e) (refl, refl)
]

module _ (outside : Outside) (id name : String) where
  store_drawn-sandboxes :
      (seed : ℕ) (r : Result Error (String × String)) (w : World)
      → (store_drawn outside id name seed r w).1.sandboxes ≡ w.sandboxes
  store_drawn-sandboxes seed (err e) w = refl
  store_drawn-sandboxes seed (ok (case, params)) w = write-sandboxes _ _ w

  renew-sandboxes :
      (sandbox : String) (attempt seed : ℕ) (w : World)
      → str_eq sandbox "" ≡ false
      → (renew outside id name sandbox attempt seed w).1.sandboxes ≡ without sandbox w.sandboxes
  unfolding renew
  renew-sandboxes sandbox attempt seed w h =
      let v : World = record w {
        events = provisioning_event id "precheck" (attempt + 1) w.now ∷ w.events;
      } in
      let (o, d) = destroy-sandboxes name id sandbox v h in
      rw o (store_drawn-sandboxes seed (outside.drawn seed) (destroy name id sandbox v).1 ∙ d)

  abbrev pub Answers : World → Option Answer → Type 0
  Answers w o = (R : Answer) × (o ≡ some R) × Leaves w R

  give_back-Leaves :
      (sandbox : String) (e : Error) (w : World)
      → str_eq sandbox "" ≡ false
      → Leaves w (give_back outside id name sandbox e (bind sandbox name w))
  give_back-Leaves sandbox e w h k b =
      let d = (destroy-sandboxes name id sandbox (bind sandbox name w) h).1 in
      released k sandbox name w (subst (λ xs. is_bound k xs ≡ true) d b)

  -- What a run from a world with fewer sandboxes leaves.
  fewer-Leaves :
      (w v : World) (R : Answer)
      → ((k : String) → is_bound k v.sandboxes ≡ true → is_bound k w.sandboxes ≡ true)
      → Leaves v R
      → Leaves w R
  fewer-Leaves w v (err e, u) f l = λ k b. f k (l k b)
  fewer-Leaves w v (ok sandbox, u) f l = λ k b o. f k (l k b o)

  taken-Leaves : (sandbox : String) (w : World) → Leaves w (ok sandbox, bind sandbox name w)
  taken-Leaves sandbox w k b o =
      (is_bound-without k sandbox w.sandboxes (let b' = rw o at b in b')).0

  renewed-Answers :
      (sandbox : String) (attempt seed : ℕ) (w : World) (again : World → Option Answer)
      → str_eq sandbox "" ≡ false
      → ((v : World) → Answers v (again v))
      → Answers w (
          renewed outside id name again
            (renew outside id name sandbox attempt seed (bind sandbox name w)))
  renewed-Answers sandbox attempt seed w again h go =
      after (renew outside id name sandbox attempt seed (bind sandbox name w))
        (renew-sandboxes sandbox attempt seed (bind sandbox name w) h)
    where
      fewer :
          (v : World)
          → v.sandboxes ≡ without sandbox (bind sandbox name w).sandboxes
          → (k : String) → is_bound k v.sandboxes ≡ true
          → is_bound k w.sandboxes ≡ true
      fewer v e k b = released k sandbox name w (subst (λ xs. is_bound k xs ≡ true) e b)

      after :
          (R : Result Error (Unit {0}) × World)
          → R.1.sandboxes ≡ without sandbox (bind sandbox name w).sandboxes
          → Answers w (renewed outside id name again R)
      after (err e, v) d = ((err e, v), refl, fewer v d)
      after (ok u, v) d = let (R, e, l) = go v in (R, e, fewer-Leaves w v R (fewer v d) l)

  judge-Answers :
      (again : World → Option Answer) (total attempt seed : ℕ) (sandbox : String) (w : World)
      → str_eq sandbox "" ≡ false
      → ((attempt == total) ≡ false → (v : World) → Answers v (again v))
      → (r : Result Error Bool)
      → Answers w (judge outside id name again r total attempt seed sandbox (bind sandbox name w))
  judge-Answers again total attempt seed sandbox w h go (err e) =
      (_, refl, give_back-Leaves sandbox e w h)
  judge-Answers again total attempt seed sandbox w h go (ok true) =
      (_, refl, taken-Leaves sandbox w)
  judge-Answers again total attempt seed sandbox w h go (ok false) =
      elim (Bool-cases (attempt == total)) [
        | inl e ↦ rw e (_, refl, give_back-Leaves sandbox precheck_failed w h)
        | inr e ↦
            rw e (renewed-Answers sandbox attempt (next_seed outside id name seed) w again h (go e))
      ]

  abbrev pub last_try : Option ℕ → ℕ
  last_try none = 1
  last_try (some total) = total

  -- From a try that is not beyond the last one, with fuel for the tries to the last,
  -- `provisionUntilPrechecked` answers, however the prechecks go. A failure leaves no sandbox bound that was not bound before, and a success only the
  -- one that it answers with. The condition on
  -- the runner is that it gives no sandbox the empty name.
  pub provision_until_leaves :
      ((n : ℕ) (sandbox : String) → outside.made n ≡ ok sandbox → str_eq sandbox "" ≡ false)
      → (fuel : ℕ) (retries : Option ℕ) (attempt seed : ℕ) (w : World) → attempt ≤ last_try retries
      → last_try retries < attempt + fuel
      → Answers w (provision_until outside id name fuel retries attempt seed w)
  unfolding provision_until
  provision_until_leaves named zero retries attempt seed w h l = absurd (omega (arith, h, l))
  provision_until_leaves named (suc fuel) retries attempt seed w h l =
      tried (outside.made attempt) refl (λ e v.
        provision_until_leaves named fuel retries (attempt + 1) (next_seed outside id name seed) v
          (ground (arith, e, h)) (omega (arith, l)))
    where
      tried :
          (r : Result Error String)
          → outside.made attempt ≡ r
          → ((attempt == last_try retries) ≡ false
              → (v : World)
              → Answers v (
                  provision_until outside id name fuel retries
                    (attempt + 1)
                    (next_seed outside id name seed)
                    v))
          → Answers w (
              round outside id name
                (provision_until outside id name fuel retries
                  (attempt + 1)
                  (next_seed outside id name seed))
                retries
                attempt
                seed
                (run_provision r name w))
      tried (err e) m go = ((err e, w), refl, λ k b. b)
      tried (ok sandbox) m go = by_retries retries go
        where
          by_retries :
              (o : Option ℕ)
              → ((attempt == last_try o) ≡ false
                  → (v : World)
                  → Answers v (
                      provision_until outside id name fuel retries
                        (attempt + 1)
                        (next_seed outside id name seed)
                        v))
              → Answers w (
                  round outside id name
                    (provision_until outside id name fuel retries
                      (attempt + 1)
                      (next_seed outside id name seed))
                    o
                    attempt
                    seed
                    (ok sandbox, bind sandbox name w))
          by_retries none go = (_, refl, taken-Leaves sandbox w)
          by_retries (some total) go =
              judge-Answers _ total attempt seed sandbox w (named attempt sandbox m) go
                (outside.prechecked attempt)
