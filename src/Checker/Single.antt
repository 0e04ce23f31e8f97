-- ===== src/Checker/Single.antt =====
-- That an attempt has one loop at a time, and a loop one sweep.
use network_skill_lab.Prelude.{
  Bool, Bool-cases, List, Option, String, [], ap, arith, eq_iff, false, if◌then◌else◌, inl, inr,
  map, none, not, one_if, refl, set, set-split, some, str_eq, subst, suc, sym, true, zero, ℕ, ◌&&◌,
  ◌+◌, ◌<◌, ◌||◌, ◌∙◌, ◌∷◌, ◌≡◌, ◌≢◌, ◌≤◌, ◌⊎◌,
}
use network_skill_lab.Store.Model.{Status, provisioning, running, passed, abandoned, expired, error}
use network_skill_lab.Checker.Loops.{
  takes, put, new_loop, start_as, start_loop, cancel_loop, stop_as, stop_loop, on_status,
  return_from, state_for, begin_as, is_ticking, begin_sweep, tick, sweep_done, end_sweep, Loop,
  Loops, take_if, begin_loop, Step, new_loops, take_as, take_result, run, leave_loop, step, events,
  begins, takes, ticks_on, ends, leaves,
}

abbrev pub Sweeps : Loop → Type 0
Sweeps l = l.sweeps + l.results ≤ one_if l.sweeping

-- A loop that is not cancelled is the one of its attempt.
record Inv (c : Loops) : Type 0 where
  live : (l : ℕ) → (c.loop l).is_cancelled ≡ false → c.loops (c.loop l).attempt ≡ some l
  home : (id : String) (l : ℕ) → c.loops id ≡ some l → ((c.loop l).attempt ≡ id) × (l < c.next)
  sweeps : (l : ℕ) → Sweeps (c.loop l)

put-elim :
    {A : Type 0} (P : A → Type 0) (k j : String) (a : A) (map : String → A)
    → (k ≡ j → P a)
    → (k ≢ j → P (map j))
    → P (put k a map j)
put-elim P k j a map here kept = by (str_eq k j) refl
  where
    by : (c : Bool) → str_eq k j ≡ c → P (if c then a else map j)
    by true e = here ((eq_iff k j).0 e)
    by false e = kept (λ same. absurd (cc (e, (eq_iff k j).1 same)))

-- A change of one loop that leaves its attempt and its context.
update-Inv :
    (l : ℕ) (x : Loop) (c : Loops)
    → x.attempt ≡ (c.loop l).attempt
    → x.is_cancelled ≡ (c.loop l).is_cancelled
    → Sweeps x
    → Inv c
    → Inv (record c { loop = set l x c.loop })
update-Inv l x c same_attempt same_context s v = record {
  live = λ j.
      set-split (λ y. y.is_cancelled ≡ false → c.loops y.attempt ≡ some j) l j x c.loop
        (λ e h. ap c.loops same_attempt ∙ v.live l (sym same_context ∙ h) ∙ ap some e)
        (λ apart. v.live j);
  home = λ id j h. (
    set-split (λ y. y.attempt ≡ id) l j x c.loop
        (λ e. same_attempt ∙ ap (λ i. (c.loop i).attempt) e ∙ (v.home id j h).0)
        (λ apart. (v.home id j h).0),
    (v.home id j h).1,
  );
  sweeps = λ j. set-split Sweeps l j x c.loop (λ e. s) (λ apart. v.sweeps j);
}

stop_as-Inv :
    (o : Option ℕ) (id : String) (c : Loops) → c.loops id ≡ o → Inv c → Inv (stop_as o id c)
stop_as-Inv none id c e v = v
stop_as-Inv (some l) id c e v = record {
  live = λ j.
      set-split (λ y. y.is_cancelled ≡ false → put id none c.loops y.attempt ≡ some j) l j
        (cancel_loop (c.loop l)) c.loop (λ same h. absurd (cc))
        (λ apart h.
          put-elim (λ o. o ≡ some j) id (c.loop j).attempt none c.loops
            (λ mine.
              let same : some l ≡ some j = sym e ∙ ap c.loops mine ∙ v.live j h in
              absurd (apart (cc)))
            (λ other. v.live j h));
  home = λ k j.
      put-elim
        (λ o. o ≡ some j → ((set l (cancel_loop (c.loop l)) c.loop j).attempt ≡ k) × (j < c.next))
        id k none c.loops (λ mine h. absurd (cc))
        (λ other h. (
          set-split (λ y. y.attempt ≡ k) l j (cancel_loop (c.loop l)) c.loop
              (λ same. ap (λ i. (c.loop i).attempt) same ∙ (v.home k j h).0)
              (λ apart. (v.home k j h).0),
          (v.home k j h).1,
        ));
  sweeps = λ j.
      set-split Sweeps l j (cancel_loop (c.loop l)) c.loop (λ same. v.sweeps l)
        (λ apart. v.sweeps j);
}

stop_loop-Inv : (id : String) (c : Loops) → Inv c → Inv (stop_loop id c)
unfolding stop_loop
stop_loop-Inv id c v =
    stop_as-Inv (c.loops id) id (record c { states = put id false c.states }) refl
      (record { live = v.live; home = v.home; sweeps = v.sweeps })

start_as-Inv :
    (o : Option ℕ) (id : String) (c : Loops) → c.loops id ≡ o → Inv c → Inv (start_as o id c)
start_as-Inv (some l) id c e v = v
start_as-Inv none id c e v = record {
  live = λ j.
      set-split (λ y. y.is_cancelled ≡ false → put id (some c.next) c.loops y.attempt ≡ some j)
        c.next j (new_loop id) c.loop
        (λ same h.
          put-elim (λ o. o ≡ some j) id id (some c.next) c.loops (λ mine. ap some same)
            (λ other. absurd (other refl)))
        (λ apart h.
          put-elim (λ o. o ≡ some j) id (c.loop j).attempt (some c.next) c.loops
            (λ mine.
              let both = v.live j h in let none_here = ap c.loops (sym mine) ∙ e in absurd (cc))
            (λ other. v.live j h));
  home = λ k j.
      put-elim
        (λ o. o ≡ some j → ((set c.next (new_loop id) c.loop j).attempt ≡ k) × (j < suc c.next)) id
        k (some c.next) c.loops
        (λ mine h.
          let same : c.next ≡ j = cc in
          (
            set-split (λ y. y.attempt ≡ k) c.next j (new_loop id) c.loop (λ s. mine)
                (λ apart. absurd (apart same)),
            omega (arith, same),
          ))
        (λ other h.
          let old = v.home k j h in
          (
            set-split (λ y. y.attempt ≡ k) c.next j (new_loop id) c.loop
                (λ same. absurd (omega (arith, same, old.1))) (λ apart. old.0),
            omega (arith, old.1),
          ));
  sweeps = λ j.
      set-split Sweeps c.next j (new_loop id) c.loop (λ same. omega arith) (λ apart. v.sweeps j);
}

on_status-Inv : (status : Status) (id : String) (c : Loops) → Inv c → Inv (on_status status id c)
unfolding on_status start_loop
on_status-Inv provisioning id c v = v
on_status-Inv running id c v = start_as-Inv (c.loops id) id c refl v
on_status-Inv passed id c v = stop_loop-Inv id c v
on_status-Inv abandoned id c v = stop_loop-Inv id c v
on_status-Inv expired id c v = stop_loop-Inv id c v
on_status-Inv error id c v = stop_loop-Inv id c v

return_from-Inv : (l : ℕ) (c : Loops) → Inv c → Inv (return_from l c)
return_from-Inv l c v =
    stop_loop-Inv (c.loop l).attempt _
      (update-Inv l (record (c.loop l) { is_over = true }) c refl refl (v.sweeps l) v)

if-Inv : (b : Bool) (c d : Loops) → Inv c → Inv d → Inv (if b then c else d)
if-Inv true c d v w = v
if-Inv false c d v w = w

begin_as-Inv : (b : Bool) (l : ℕ) (c : Loops) → Inv c → Inv (begin_as b l c)
unfolding state_for
begin_as-Inv false l c v = return_from-Inv l c v
begin_as-Inv true l c v =
    let w = update-Inv l (record (c.loop l) { ticks = true }) c refl refl (v.sweeps l) v in
    record { live = w.live; home = w.home; sweeps = w.sweeps }

tick-Inv : (l : ℕ) (c : Loops) → Inv c → Inv (tick l c)
unfolding tick
tick-Inv l c v = by (is_ticking (c.loop l)) (c.loop l).sweeping refl
  where
    begun : Loops
    begun = record c { loop = set l (begin_sweep (c.loop l)) c.loop }

    by : (b s : Bool) → (c.loop l).sweeping ≡ s → Inv (if b && not s then begun else c)
    by true true e = v
    by true false e =
        let before : (c.loop l).sweeps + (c.loop l).results ≤ 0 =
          subst (λ s. (c.loop l).sweeps + (c.loop l).results ≤ one_if s) e (v.sweeps l) in
        update-Inv l (begin_sweep (c.loop l)) c refl refl (omega (arith, before)) v
    by false s e = v

sweep_done-Sweeps : (n : ℕ) (x : Loop) → x.sweeps ≡ n → Sweeps x → Sweeps (sweep_done n x)
sweep_done-Sweeps zero x e s = s
sweep_done-Sweeps (suc n) x e s =
    let total : n + suc x.results ≡ x.sweeps + x.results = omega (arith, e) in
    subst (λ m. m ≤ one_if x.sweeping) (sym total) s

sweep_done-attempt : (n : ℕ) (x : Loop) → (sweep_done n x).attempt ≡ x.attempt
sweep_done-attempt zero x = refl
sweep_done-attempt (suc n) x = refl

sweep_done-context : (n : ℕ) (x : Loop) → (sweep_done n x).is_cancelled ≡ x.is_cancelled
sweep_done-context zero x = refl
sweep_done-context (suc n) x = refl

end_sweep-Inv : (l : ℕ) (c : Loops) → Inv c → Inv (end_sweep l c)
unfolding end_sweep
end_sweep-Inv l c v =
    let x = c.loop l in
    update-Inv l (sweep_done x.sweeps x) c (sweep_done-attempt x.sweeps x)
      (sweep_done-context x.sweeps x) (sweep_done-Sweeps x.sweeps x refl (v.sweeps l)) v

one_if-le : (b : Bool) → one_if b ≤ 1
one_if-le true = omega arith
one_if-le false = omega arith

-- A loop that has taken an outcome.
taken : ℕ → Bool → Loop → Loop
taken n sweeping x = record x { results = n; sweeping = sweeping }

taken-Inv :
    (n l : ℕ) (c : Loops)
    → (c.loop l).results ≡ suc n
    → Inv c
    → Inv (record c { loop = set l (taken n false (c.loop l)) c.loop })
      × Inv (record c { loop = set l (record (c.loop l) { results = n }) c.loop })
unfolding taken
taken-Inv n l c e v =
    let x = c.loop l in
    let few : x.sweeps + suc n ≤ one_if x.sweeping =
      subst (λ m. x.sweeps + m ≤ one_if x.sweeping) e (v.sweeps l) in
    (
      update-Inv l (taken n false x) c refl refl (omega (arith, few, one_if-le x.sweeping)) v,
      update-Inv l (record x { results = n }) c refl refl (omega (arith, few)) v,
    )

take_if-Inv :
    (n : ℕ) (is_final : Bool) (l : ℕ) (c : Loops)
    → (c.loop l).results ≡ n
    → Inv c
    → Inv (take_if n is_final l c)
unfolding taken
take_if-Inv zero is_final l c e v = v
take_if-Inv (suc n) is_final l c e v = by (c.loop l).is_cancelled is_final (taken-Inv n l c e v)
  where
    by :
        (b f : Bool)
        → Inv (record c { loop = set l (taken n false (c.loop l)) c.loop })
          × Inv (record c { loop = set l (record (c.loop l) { results = n }) c.loop })
        → Inv (take_as b f n l c)
    by true f w = return_from-Inv l _ w.1
    by false true w = return_from-Inv l _ w.0
    by false false w = w.0

step-Inv : (s : Step) (c : Loops) → Inv c → Inv (step s c)
unfolding begin_loop take_result leave_loop
step-Inv (events status id) c v = on_status-Inv status id c v
step-Inv (begins goes_on l) c v =
    if-Inv ((c.loop l).is_over || (c.loop l).ticks) c (begin_as goes_on l c) v
      (begin_as-Inv goes_on l c v)
step-Inv (takes is_final l) c v =
    if-Inv (is_ticking (c.loop l)) (take_if (c.loop l).results is_final l c) c
      (take_if-Inv (c.loop l).results is_final l c refl v) v
step-Inv (ticks_on l) c v = tick-Inv l c v
step-Inv (ends l) c v = end_sweep-Inv l c v
step-Inv (leaves l) c v =
    if-Inv (is_ticking (c.loop l) && (c.loop l).is_cancelled) (return_from l c) c
      (return_from-Inv l c v) v

run-Inv : (steps : List Step) (c : Loops) → Inv c → Inv (run steps c)
run-Inv [] c v = v
run-Inv (s ∷ steps) c v = run-Inv steps (step s c) (step-Inv s c v)

new_loops-Inv : Inv new_loops
unfolding new_loops
new_loops-Inv = record {
  live = λ l h. absurd (cc);
  home = λ id l h. absurd (cc);
  sweeps = λ l. omega arith;
}

-- After any steps of a new checker, no loop has two sweeps that run, and a loop is cancelled or is the
-- one that `stopLoop` will find for its attempt: of two loops of an attempt one is cancelled, or they
-- are one loop.
pub one_loop_each :
    (steps : List Step) (l j : ℕ)
    → ((run steps new_loops).loop l).attempt ≡ ((run steps new_loops).loop j).attempt
    → (((run steps new_loops).loop l).sweeps ≤ 1)
      × ((((run steps new_loops).loop l).is_cancelled ≡ true)
          ⊎ ((run steps new_loops).loops ((run steps new_loops).loop l).attempt ≡ some l))
      × ((((run steps new_loops).loop l).is_cancelled ≡ true)
          ⊎ (((run steps new_loops).loop j).is_cancelled ≡ true)
          ⊎ (l ≡ j))
one_loop_each steps l j same =
    let c = run steps new_loops in
    let v = run-Inv steps new_loops new_loops-Inv in
    let few = v.sweeps l in
    (
      omega (arith, few, one_if-le (c.loop l).sweeping),
      elim (Bool-cases (c.loop l).is_cancelled) [ inl e ↦ inl e | inr e ↦ inr (v.live l e) ],
      elim (Bool-cases (c.loop l).is_cancelled) [
        | inl e ↦ inl e
        | inr e ↦ elim (Bool-cases (c.loop j).is_cancelled) [
          | inl f ↦ inr (inl f)
          | inr f ↦
              let one : some l ≡ some j = sym (v.live l e) ∙ ap c.loops same ∙ v.live j f in
              inr (inr (cc (one)))
        ]
      ],
    )
