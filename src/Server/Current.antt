-- ===== src/Server/Current.antt =====
-- Which connection of a runner is found, whatever the others do.
use network_skill_lab.Prelude.{
  All, Bool-cases, List, Option, String, Time, [], ap, arith, eq_iff, false, inl, inr, none, refl,
  some, str_eq, sym, true, ℕ, ◌==◌, ◌∙◌, ◌∷◌, ◌≡◌,
}
use network_skill_lab.Server.Hub.{
  conn_in, get, register, is_conn, drop_found, unregister, seen, pinged, Hello, Entry, Hub,
}
use network_skill_lab.Server.Presence.{step, run, entry-same, Step, registers, unregisters, pings}

module _ (name_of : ℕ → String) where
  -- The step neither ends the connection nor puts another in its place.
  abbrev pub Spares : ℕ → Step → Type 0
  Spares c (registers d hello now) = str_eq (name_of d) (name_of c) ≡ true → (d == c) ≡ true
  Spares c (unregisters d) = (d == c) ≡ false
  Spares c (pings d active now) = Unit

  registered :
      (c : ℕ) (hello : Hello) (now : Time) (h : Hub)
      → get (name_of c) (register c (name_of c) hello now h) ≡ some c
  unfolding register get
  registered c hello now h = rw ((eq_iff (name_of c) (name_of c)).1 refl) refl

  register-current :
      (c d : ℕ) (hello : Hello) (now : Time) (h : Hub)
      → Spares c (registers d hello now)
      → get (name_of c) h ≡ some c
      → get (name_of c) (register d (name_of d) hello now h) ≡ some c
  unfolding register get
  register-current c d hello now h spare e = elim (Bool-cases (str_eq (name_of d) (name_of c))) [
    | inr other ↦ rw other e
    | inl same ↦ let equal = spare same in rw same (ground (arith, equal))
  ]

  unregister-current :
      (c d : ℕ) (h : Hub)
      → (d == c) ≡ false
      → get (name_of c) h ≡ some c
      → get (name_of c) (unregister d (name_of d) h) ≡ some c
  unfolding unregister get
  unregister-current c d h spare e = found (h.entries (name_of d)) refl
    where
      found :
          (o : Option Entry)
          → h.entries (name_of d) ≡ o
          → conn_in ((drop_found o d (name_of d) h).entries (name_of c)) ≡ some c
      found none f = e
      found (some en) f = elim (Bool-cases (is_conn d en.conn)) [
        | inr g ↦ rw g e
        | inl g ↦ elim (Bool-cases (str_eq (name_of d) (name_of c))) [
          | inr other ↦ rw (g, other) e
          | inl same ↦
              let conn : en.conn ≡ some c =
                sym (ap conn_in (entry-same name_of c d h en same f)) ∙ e in
              absurd (ground (arith, conn, g, spare))
        ]
      ]

  pinged-current :
      (c d active : ℕ) (now : Time) (h : Hub)
      → get (name_of c) h ≡ some c
      → get (name_of c) (pinged d (name_of d) active now h) ≡ some c
  unfolding pinged get
  pinged-current c d active now h e = found (h.entries (name_of d)) refl
    where
      found :
          (o : Option Entry)
          → h.entries (name_of d) ≡ o
          → conn_in ((seen o d (name_of d) active now h).entries (name_of c)) ≡ some c
      found none f = e
      found (some en) f = elim (Bool-cases (is_conn d en.conn)) [
        | inr g ↦ rw g e
        | inl g ↦ elim (Bool-cases (str_eq (name_of d) (name_of c))) [
          | inr other ↦ rw (g, other) e
          | inl same ↦
              let conn : en.conn ≡ some c =
                sym (ap conn_in (entry-same name_of c d h en same f)) ∙ e in
              rw (g, same) conn
        ]
      ]

  step-current :
      (c : ℕ) (s : Step) (h : Hub)
      → Spares c s
      → get (name_of c) h ≡ some c
      → get (name_of c) (step name_of s h) ≡ some c
  step-current c (registers d hello now) h spare e = register-current c d hello now h spare e
  step-current c (unregisters d) h spare e = unregister-current c d h spare e
  step-current c (pings d active now) h spare e = pinged-current c d active now h e

  run-current :
      (c : ℕ) (steps : List Step) (h : Hub)
      → All (Spares c) steps
      → get (name_of c) h ≡ some c
      → get (name_of c) (run name_of steps h) ≡ some c
  run-current c [] h spare e = e
  run-current c (s ∷ steps) h spare e =
      run-current c steps (step name_of s h) spare.1 (step-current c s h spare.0 e)

  -- A connection that registers is the one that `Get` finds for its runner, and stays it through all
  -- steps but its own `unregister` and the registration of another connection of the runner: the late
  -- `unregister` of the connection that it replaced does not remove it.
  pub registered_stays :
      (c : ℕ) (hello : Hello) (now : Time) (steps : List Step) (h : Hub)
      → All (Spares c) steps
      → get (name_of c) (run name_of steps (register c (name_of c) hello now h)) ≡ some c
  registered_stays c hello now steps h spare =
      run-current c steps (register c (name_of c) hello now h) spare (registered c hello now h)
