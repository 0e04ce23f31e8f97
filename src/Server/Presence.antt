-- ===== src/Server/Presence.antt =====
-- The connections of the runners, in any order of their steps.
use network_skill_lab.Prelude.{
  Bool-cases, List, Option, String, Time, [], ap, arith, eq_iff, false, if◌then◌else◌, inl, inr,
  none, refl, some, str_eq, subst, true, ℕ, ◌+◌, ◌==◌, ◌∷◌, ◌≡◌, ◌≤◌,
}
use network_skill_lab.Server.Hub.{
  conn_in, get, register, is_conn, drop_found, unregister, seen, pinged, Hello, Entry, Hub, drop_if,
  new_hub,
}

abbrev pub count : ℕ → List ℕ → ℕ
count c [] = 0
count c (d ∷ ds) = (if d == c then 1 else 0) + count c ds

abbrev holds : ℕ → Option Entry → ℕ
holds c e = if is_conn c (conn_in e) then 1 else 0

-- The second part of `register`, `unregister` and `pinged`, each of a connection.
pub data Step : Type 0 where
  registers : ℕ → Hello → Time → Step
  unregisters : ℕ → Step
  pings : ℕ → ℕ → Time → Step

-- Each connection has the name of its runner for good.
module _ (name_of : ℕ → String) where
  abbrev pub step : Step → Hub → Hub
  step (registers c hello now) h = register c (name_of c) hello now h
  step (unregisters c) h = unregister c (name_of c) h
  step (pings c active now) h = pinged c (name_of c) active now h

  abbrev pub run : List Step → Hub → Hub
  run [] h = h
  run (s ∷ steps) h = run steps (step s h)

  abbrev pub registers_of : ℕ → Step → ℕ
  registers_of c (registers d hello now) = if d == c then 1 else 0
  registers_of c _ = 0

  abbrev pub registrations : ℕ → List Step → ℕ
  registrations c [] = 0
  registrations c (s ∷ steps) = registers_of c s + registrations c steps

  -- How often the callbacks were run for a connection, and whether it is the one of its runner.
  abbrev pub accounted : ℕ → Hub → ℕ
  accounted c h = count c h.notified + (if is_conn c (get (name_of c) h) then 1 else 0)

  register-accounted :
      (c d : ℕ) (hello : Hello) (now : Time) (h : Hub)
      → accounted c (register d (name_of d) hello now h)
        ≤ accounted c h + registers_of c (registers d hello now)
  unfolding register get
  register-accounted c d hello now h = elim (Bool-cases (str_eq (name_of d) (name_of c))) [
    | inl e ↦ rw e (ground arith)
    | inr e ↦ rw e (ground arith)
  ]

  pub entry-same :
      (c d : ℕ) (h : Hub) (e : Entry)
      → str_eq (name_of d) (name_of c) ≡ true
      → h.entries (name_of d) ≡ some e
      → h.entries (name_of c) ≡ some e
  entry-same c d h e same f =
      subst (λ n. h.entries n ≡ some e) ((eq_iff (name_of d) (name_of c)).0 same) f

  other_conn : (c d : ℕ) → str_eq (name_of d) (name_of c) ≡ false → (d == c) ≡ false
  other_conn c d other = elim (Bool-cases (d == c)) [
    | inr differs ↦ differs
    | inl equal ↦
        let eq : d ≡ c = ground (arith, equal) in
        let same = (eq_iff (name_of d) (name_of c)).1 (ap name_of eq) in absurd cc
  ]

  dropped-accounted :
      (c d : ℕ) (h : Hub) (e : Entry)
      → h.entries (name_of d) ≡ some e
      → is_conn d e.conn ≡ true
      → accounted c (drop_if true d (name_of d) e h) ≤ accounted c h
  unfolding get
  dropped-accounted c d h e f g = elim (Bool-cases (str_eq (name_of d) (name_of c))) [
    | inr other ↦ rw (other, other_conn c d other) (omega arith)
    | inl same ↦ let f' = entry-same c d h e same f in rw (same, f') (ground (arith, g))
  ]

  unregister-accounted :
      (c d : ℕ) (h : Hub) → accounted c (unregister d (name_of d) h) ≤ accounted c h
  unfolding unregister get
  unregister-accounted c d h = found (h.entries (name_of d)) refl
    where
      found :
          (o : Option Entry)
          → h.entries (name_of d) ≡ o
          → accounted c (drop_found o d (name_of d) h) ≤ accounted c h
      found none e = omega arith
      found (some e) f = elim (Bool-cases (is_conn d e.conn)) [
        | inr g ↦ rw g (omega arith)
        | inl g ↦ rw g (dropped-accounted c d h e f g)
      ]

  pinged-accounted :
      (c d active : ℕ) (now : Time) (h : Hub)
      → accounted c (pinged d (name_of d) active now h) ≤ accounted c h
  unfolding pinged get
  pinged-accounted c d active now h = found (h.entries (name_of d)) refl
    where
      found :
          (o : Option Entry)
          → h.entries (name_of d) ≡ o
          → accounted c (seen o d (name_of d) active now h) ≤ accounted c h
      found none e = omega arith
      found (some e) f = elim (Bool-cases (is_conn d e.conn)) [
        | inr g ↦ rw g (omega arith)
        | inl g ↦ rw g (elim (Bool-cases (str_eq (name_of d) (name_of c))) [
          | inr other ↦ rw other (omega arith)
          | inl same ↦ let f' = entry-same c d h e same f in rw (same, f') (omega arith)
        ])
      ]

  step-accounted :
      (c : ℕ) (s : Step) (h : Hub) → accounted c (step s h) ≤ accounted c h + registers_of c s
  step-accounted c (registers d hello now) h = register-accounted c d hello now h
  step-accounted c (unregisters d) h = omega (arith, unregister-accounted c d h)
  step-accounted c (pings d active now) h = omega (arith, pinged-accounted c d active now h)

  run-accounted :
      (c : ℕ) (steps : List Step) (h : Hub)
      → accounted c (run steps h) ≤ accounted c h + registrations c steps
  run-accounted c [] h = omega arith
  run-accounted c (s ∷ steps) h =
      omega (arith, run-accounted c steps (step s h), step-accounted c s h)

  -- After any steps of a new hub, the callbacks of `OnDisconnect` were run for a connection no more
  -- often than it was registered, and less often while it is the connection of its runner. So a
  -- connection that registers once is reported once at most, and not while it is in use.
  pub disconnects_once :
      (c : ℕ) (steps : List Step)
      → let h = run steps new_hub in
        count c h.notified + (if is_conn c (get (name_of c) h) then 1 else 0)
        ≤ registrations c steps
  unfolding new_hub get
  disconnects_once c steps = omega (arith, run-accounted c steps new_hub)
