-- ===== src/Checker/First.antt =====
-- What the checker remembers of the sweeps of an attempt.
use network_skill_lab.Prelude.{
  All, Bool, Bool-cases, List, Option, String, Time, [], ap, arith, eq_iff, false, if◌then◌else◌,
  inl, inr, none, not, refl, some, str_eq, suc, sym, true, zero, ℕ, ◌&&◌, ◌||◌, ◌↔◌, ◌∷◌, ◌≡◌,
}
use network_skill_lab.Store.Model.{CheckStatus}
use network_skill_lab.Checker.Sweep.{
  Sweep, Answer, Board, Results, sweep, note_all, note, check_all, check, is_pass, mark, all_pass,
}

-- Whether a checkpoint passed in a sweep.
abbrev pub passed_in : String → Results → Bool
passed_in id [] = false
passed_in id ((key, status) ∷ results) = is_pass status && str_eq key id || passed_in id results

-- Whether a checkpoint passed in a sweep that was not cancelled.
abbrev pub passes : String → Sweep → List (String × Answer) → Bool
passes id sw answers = not sw.is_cancelled && passed_in id (check_all answers)

-- The time of the first of such sweeps in a list, the first one first.
abbrev pub first_pass : String → List (Sweep × List (String × Answer)) → Option Time
first_pass id [] = none
first_pass id ((sw, answers) ∷ sweeps) =
    if passes id sw answers then some sw.now else first_pass id sweeps

abbrev pub sweeps_on : List (Sweep × List (String × Answer)) → Board → Board
sweeps_on [] b = b
sweeps_on ((sw, answers) ∷ sweeps) b = sweeps_on sweeps (sweep sw answers b).1

abbrev pub or_first : Option Time → Option Time → Option Time
or_first none t = t
or_first (some s) t = some s

mark-first :
    (now : Time) (key id : String) (status : CheckStatus) (first : String → Option Time)
    → mark now key status first id
      ≡ or_first (first id) (if is_pass status && str_eq key id then some now else none)
mark-first now key id status first = ground (arith, eq_iff key id)

or_first_assoc : (a b c : Option Time) → or_first (or_first a b) c ≡ or_first a (or_first b c)
or_first_assoc none b c = refl
or_first_assoc (some t) b c = refl

or_first-none : (t : Option Time) → or_first t none ≡ t
or_first-none none = refl
or_first-none (some t) = refl

note-first :
    (sw : Sweep) (key : String) (status : CheckStatus) (b : Board) (id : String)
    → (note sw key status b).first_passed id ≡ mark sw.now key status b.first_passed id
unfolding note
note-first sw key status b id = refl

either-time :
    (p q : Bool) (now : Time)
    → or_first (if p then some now else none) (if q then some now else none)
      ≡ (if p || q then some now else none)
either-time true q now = refl
either-time false q now = refl

note_all-first :
    (sw : Sweep) (results : Results) (b : Board) (id : String)
    → (note_all sw results b).first_passed id
      ≡ or_first (b.first_passed id) (if passed_in id results then some sw.now else none)
unfolding note_all
note_all-first sw [] b id = ground arith
note_all-first sw ((key, status) ∷ results) b id = rw (
  note_all-first sw results (note sw key status b) id,
  note-first sw key status b id,
  mark-first sw.now key id status b.first_passed,
  or_first_assoc (b.first_passed id) (if is_pass status && str_eq key id then some sw.now else none)
      (if passed_in id results then some sw.now else none),
  either-time (is_pass status && str_eq key id) (passed_in id results) sw.now,
)

sweep-first :
    (sw : Sweep) (answers : List (String × Answer)) (b : Board) (id : String)
    → (sweep sw answers b).1.first_passed id
      ≡ or_first (b.first_passed id) (if passes id sw answers then some sw.now else none)
unfolding sweep note_all note
sweep-first sw answers b id = elim (Bool-cases sw.is_cancelled) [
  | inl e ↦ rw e (sym (or_first-none (b.first_passed id)))
  | inr e ↦ rw e (note_all-first sw (check_all answers) b id)
]

later-first :
    (p : Bool) (now : Time) (rest : Option Time)
    → or_first (if p then some now else none) rest ≡ (if p then some now else rest)
later-first true now rest = refl
later-first false now rest = refl

-- For each checkpoint, the board has the time of the first sweep that was not cancelled and in which
-- its script passed, or what it had before the sweeps, if it had a time: no later sweep changes it.
pub sweeps_first :
    (sweeps : List (Sweep × List (String × Answer))) (b : Board) (id : String)
    → (sweeps_on sweeps b).first_passed id ≡ or_first (b.first_passed id) (first_pass id sweeps)
sweeps_first [] b id = ground arith
sweeps_first ((sw, answers) ∷ sweeps) b id = rw (
  sweeps_first sweeps (sweep sw answers b).1 id,
  sweep-first sw answers b id,
  or_first_assoc (b.first_passed id) (if passes id sw answers then some sw.now else none)
      (first_pass id sweeps),
  later-first (passes id sw answers) sw.now (first_pass id sweeps),
)

-- The script ran in time and answered with the exit code 0.
abbrev pub Succeeded : String × Answer → Type 0
Succeeded (id, answer) = answer ≡ some (0, false)

clash : (code : ℕ) → ¬ (◌≡◌ {A = Answer} (some (suc code, false)) (some (0, false)))
clash code h =
    let e : suc code ≡ 0 = ap (λ (a : Answer). elim a [ none ↦ 0 | some p ↦ p.0 ]) h in
    omega (arith, e)

check-Succeeded :
    (id : String) (answer : Answer) → (is_pass (check answer) ≡ true) ↔ Succeeded (id, answer)
unfolding check
check-Succeeded id none = ((λ h. cc), (λ h. cc))
check-Succeeded id (some (code, true)) = ((λ h. cc), (λ h. cc))
check-Succeeded id (some (zero, false)) = ((λ h. refl), (λ h. refl))
check-Succeeded id (some (suc code, false)) = ((λ h. cc), (λ h. absurd (clash code h)))

all_pass-Succeeded :
    (answers : List (String × Answer))
    → (all_pass (check_all answers) ≡ true) ↔ All Succeeded answers
unfolding all_pass
all_pass-Succeeded [] = ((λ h. tt), (λ h. refl))
all_pass-Succeeded ((id, answer) ∷ answers) =
    let ih = all_pass-Succeeded answers in
    let head = check-Succeeded id answer in
    elim (Bool-cases (is_pass (check answer))) [
      | inl e ↦ ((λ h. (head.0 e, ih.0 (rw e at h))), (λ a. rw e (ih.1 a.1)))
      | inr e ↦ ((λ h. let h' = rw e at h in absurd (cc)), (λ a. let t = head.1 a.0 in absurd (cc)))
    ]

-- A sweep reports that the attempt has passed exactly where its context is not cancelled once the
-- scripts have answered, and the script of each checkpoint was run to its end in time, with the exit
-- code 0.
pub sweep_passes :
    (sw : Sweep) (answers : List (String × Answer)) (b : Board)
    → ((sweep sw answers b).0 ≡ true) ↔ ((sw.is_cancelled ≡ false) × All Succeeded answers)
unfolding sweep
sweep_passes sw answers b =
    let whole = all_pass-Succeeded answers in
    elim (Bool-cases sw.is_cancelled) [
      | inl e ↦ ((λ h. let h' = rw e at h in absurd (cc)), (λ a. let t = a.0 in absurd (cc)))
      | inr e ↦ ((λ h. (e, whole.0 (rw e at h))), (λ a. rw e (whole.1 a.1)))
    ]
