-- ===== src/Content/Lessons.antt =====
-- What `checkTutorial` guarantees of the steps of a tutorial.
use network_skill_lab.Prelude.{
  Bool, List, Option, String, [], ap, arith, contains, eq_iff, false, get_elem?, if◌then◌else◌,
  none, refl, some, str_eq, subst, suc, sym, true, zero, ℕ, ◌++◌, ◌+◌, ◌||◌, ◌∙◌, ◌∷◌, ◌≡◌, ◌≤◌,
}
use network_skill_lab.Content.Lab.{Checkpoint, TutorialStep, Lab}
use network_skill_lab.Content.Topology.{entry}
use network_skill_lab.Content.Links.{ParamSet, is_some}
use network_skill_lab.Content.Checked.{nil_left, nil_right}
use network_skill_lab.Content.Tutorial.{
  Positions, add_position, positions, step_as, step_errors, late, order_of, order_at, order_errors,
  TutorialError, check_tutorial, wanted_errors, unwanted_errors, visible_ids, hidden, stepless,
}

is_some-none {ℓ} : {A : Type ℓ} (o : Option A) → is_some o ≡ false → o ≡ none
is_some-none none h = refl
is_some-none (some a) h = absurd (cc)

step_as-new :
    (seen : Bool) (i : ℕ) (s : TutorialStep) (visible : List String) (sets : List ParamSet)
    → step_as seen i s visible sets ≡ []
    → seen ≡ false
step_as-new true i s visible sets h = absurd (cc)
step_as-new false i s visible sets h = refl

module _ (visible : List String) (sets : List ParamSet) where
  -- Without an error, a step is new.
  step-new :
      (s : TutorialStep) (steps : List TutorialStep) (i : ℕ) (pos : Positions)
      → step_errors (s ∷ steps) i pos visible sets ≡ []
      → (is_some (entry s.checkpoint pos) ≡ false)
        × (step_errors steps (suc i) ((s.checkpoint, i) ∷ pos) visible sets ≡ [])
        × (positions (s ∷ steps) i pos ≡ positions steps (suc i) ((s.checkpoint, i) ∷ pos))
  step-new s steps i pos h =
      let seen = is_some (entry s.checkpoint pos) in
      let here = step_as seen i s visible sets in
      let later = step_errors steps (suc i) (add_position seen s.checkpoint i pos) visible sets in
      let new : seen ≡ false = step_as-new seen i s visible sets (nil_left here later h) in
      (
        new,
        sym (
              ap (λ b. step_errors steps (suc i) (add_position b s.checkpoint i pos) visible sets)
                new)
            ∙ nil_right here later h,
        ap (λ b. positions steps (suc i) (add_position b s.checkpoint i pos)) new,
      )

  -- A position that is noted stays.
  positions-kept :
      (steps : List TutorialStep) (i : ℕ) (pos : Positions) (id : String) (k : ℕ)
      → step_errors steps i pos visible sets ≡ []
      → entry id pos ≡ some k
      → entry id (positions steps i pos) ≡ some k
  positions-kept [] i pos id k h e = e
  positions-kept (s ∷ steps) i pos id k h e =
      let (new, rest, same) = step-new s steps i pos h in
      ap (entry id) same
      ∙ positions-kept steps (suc i) ((s.checkpoint, i) ∷ pos) id k rest
          (ahead (str_eq s.checkpoint id) refl new)
    where
      ahead :
          (b : Bool)
          → str_eq s.checkpoint id ≡ b
          → is_some (entry s.checkpoint pos) ≡ false
          → (if b then some i else entry id pos) ≡ some k
      ahead true same new =
          let missing = is_some-none (entry s.checkpoint pos) new in
          let other = ap (λ x. entry x pos) ((eq_iff s.checkpoint id).0 same) in absurd (cc)
      ahead false apart new = e

  -- The position of a step is its index.
  positions-at :
      (steps : List TutorialStep) (i : ℕ) (pos : Positions) (n : ℕ) (s : TutorialStep)
      → step_errors steps i pos visible sets ≡ []
      → get_elem? steps n ≡ some s
      → entry s.checkpoint (positions steps i pos) ≡ some (i + n)
  positions-at [] i pos n s h e = absurd (cc)
  positions-at (x ∷ steps) i pos zero s h e =
      let first : x ≡ s = cc in
      let (new, rest, same) = step-new x steps i pos h in
      let own : entry x.checkpoint ((x.checkpoint, i) ∷ pos) ≡ some i =
        ap (λ b. if b then some i else entry x.checkpoint pos)
          ((eq_iff x.checkpoint x.checkpoint).1 refl) in
      subst (λ y. entry y.checkpoint (positions (x ∷ steps) i pos) ≡ some (i + 0)) first
        (ap (entry x.checkpoint) same
          ∙ positions-kept steps (suc i) ((x.checkpoint, i) ∷ pos) x.checkpoint i rest own
          ∙ ap (λ m. some m) (omega arith))
  positions-at (x ∷ steps) i pos (suc n) s h e =
      let (new, rest, same) = step-new x steps i pos h in
      ap (entry s.checkpoint) same
      ∙ positions-at steps (suc i) ((x.checkpoint, i) ∷ pos) n s rest e
      ∙ ap (λ m. some m) (omega arith)

order_of-late :
    (cp : String) (step : ℕ) (ids : List String) (pos : Positions) (id : String) (required : ℕ)
    → order_of cp step ids pos ≡ []
    → contains ids id ≡ true
    → entry id pos ≡ some required
    → required ≤ step
order_of-late cp step [] pos id required h inside e = absurd (cc)
order_of-late cp step (x ∷ ids) pos id required h inside e =
    at (str_eq x id) refl inside (order_of-late cp step ids pos id required (nil_right here rest h))
  where
    here : List TutorialError
    here = late cp step x (entry x pos)

    rest : List TutorialError
    rest = order_of cp step ids pos

    at :
        (b : Bool)
        → str_eq x id ≡ b
        → (b || contains ids id) ≡ true
        → (contains ids id ≡ true → entry id pos ≡ some required → required ≤ step)
        → required ≤ step
    at true same g later =
        let found : entry x pos ≡ some required =
          ap (λ y. entry y pos) ((eq_iff x id).0 same) ∙ e in
        let none_late : late cp step x (some required) ≡ [] =
          sym (ap (late cp step x) found) ∙ nil_left here rest h in
        ground (arith, none_late)
    at false apart g later = later g e

order_errors-at :
    (cps : List Checkpoint) (pos : Positions) (n : ℕ) (cp : Checkpoint)
    → order_errors cps pos ≡ []
    → get_elem? cps n ≡ some cp
    → order_at (entry cp.id pos) cp pos ≡ []
order_errors-at [] pos n cp h e = absurd (cc)
order_errors-at (x ∷ cps) pos zero cp h e =
    let same : x ≡ cp = cc in
    subst (λ y. order_at (entry y.id pos) y pos ≡ []) same
      (nil_left (order_at (entry x.id pos) x pos) (order_errors cps pos) h)
order_errors-at (x ∷ cps) pos (suc n) cp h e =
    order_errors-at cps pos n cp
      (nil_right (order_at (entry x.id pos) x pos) (order_errors cps pos) h) e

-- In a tutorial in which `checkTutorial` finds no error, a step for a checkpoint comes before none of
-- the steps for the checkpoints that it requires.
pub check_tutorial_ordered :
    (lab : Lab) (sets : List ParamSet) (n i j : ℕ) (cp : Checkpoint) (s r : TutorialStep)
    → contains lab.modes "tutorial" ≡ true
    → check_tutorial lab sets ≡ []
    → get_elem? lab.checkpoints n ≡ some cp
    → get_elem? lab.tutorial i ≡ some s
    → get_elem? lab.tutorial j ≡ some r
    → s.checkpoint ≡ cp.id
    → contains cp.requires r.checkpoint ≡ true
    → j ≤ i
unfolding check_tutorial
check_tutorial_ordered lab sets n i j cp s r wanted h at_n at_i at_j own required =
    on_steps lab.tutorial at_i at_j (
      sym (
        ap
          (λ b.
            if b
            then wanted_errors lab.tutorial lab.checkpoints sets
            else unwanted_errors lab.tutorial)
          wanted)
      ∙ h)
  where
    on_steps :
        (steps : List TutorialStep)
        → get_elem? steps i ≡ some s
        → get_elem? steps j ≡ some r
        → wanted_errors steps lab.checkpoints sets ≡ []
        → j ≤ i
    on_steps [] e f g = absurd (cc)
    on_steps (x ∷ steps) e f g =
        let all = x ∷ steps in
        let visible = visible_ids lab.checkpoints in
        let pos = positions all 0 [] in
        let hiding = hidden 0 lab.checkpoints in
        let stepping = step_errors all 0 [] visible sets in
        let bare = stepless visible pos in
        let ordering = order_errors lab.checkpoints pos in
        let steps_good =
          nil_right hiding stepping (
            nil_left (hiding ++ stepping) bare
              (nil_left (hiding ++ stepping ++ bare) ordering g)) in
        let order_good = nil_right (hiding ++ stepping ++ bare) ordering g in
        let place_i : entry cp.id pos ≡ some i =
          sym (ap (λ id. entry id pos) own)
          ∙ positions-at visible sets all 0 [] i s steps_good e
          ∙ ap (λ m. some m) (omega arith) in
        let place_j : entry r.checkpoint pos ≡ some j =
          positions-at visible sets all 0 [] j r steps_good f ∙ ap (λ m. some m) (omega arith) in
        let at_cp : order_of cp.id i cp.requires pos ≡ [] =
          sym (ap (λ o. order_at o cp pos) place_i)
          ∙ order_errors-at lab.checkpoints pos n cp order_good at_n in
        order_of-late cp.id i cp.requires pos r.checkpoint j at_cp required place_j
