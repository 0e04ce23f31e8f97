-- ===== src/Content/Acyclic.antt =====
-- The search for a cycle is right: it ends, and finds one exactly where the requirements have one.
use network_skill_lab.Prelude.{
  All, All-map, Bool, Bool-cases, List, String, [], ap, arith, eq_iff, false, if◌then◌else◌, inl,
  inr, refl, str_eq, subst, suc, true, zero, ℕ, ◌<◌, ◌∷◌, ◌≡◌, ◌≢◌,
}
use network_skill_lab.Content.Requires.{
  out_of_fuel, visit_by, Marks, on_path, finished, Visit, unseen, mark, clean, visit_all,
  unless_found, cycle, Mark, finish, find_requires_cycle,
}

-- The requirements have no cycle: each name has a rank above those that it requires.
abbrev pub IsRanking : (String → List String) → (String → ℕ) → Type 0
IsRanking requires rank = (id : String) → All (λ q. rank q < rank id) (requires id)

-- Each finished name has its requirements finished, with ranks below its own.
pub record IsRanked (requires : String → List String) (rank : String → ℕ) (n : ℕ) (s : Marks)
    : Type 0 where
  pub sound :
      (id : String)
      → s id ≡ finished
      → All (λ q. (s q ≡ finished) × (rank q < rank id)) (requires id)
  pub bound : (id : String) → s id ≡ finished → rank id < n

-- There is such a ranking, with all ranks below `top`.
pub record Ranked (requires : String → List String) (s : Marks) : Type 0 where
  pub rank : String → ℕ
  pub top : ℕ
  pub ranked : IsRanked requires rank top s

-- From `s` to `s'`, what was finished stays so, and nothing on the path changes.
pub record Extends (s s' : Marks) : Type 0 where
  pub stays : (q : String) → s q ≡ finished → s' q ≡ finished
  pub waits : (q : String) → s q ≡ on_path → s' q ≡ on_path

Extends-refl : (s : Marks) → Extends s s
Extends-refl s = record { stays = λ q h. h; waits = λ q h. h }

Extends-trans : (s t u : Marks) → Extends s t → Extends t u → Extends s u
Extends-trans s t u e f = record {
  stays = λ q h. f.stays q (e.stays q h);
  waits = λ q h. f.waits q (e.waits q h);
}

abbrev is_finished : Mark → Bool
is_finished finished = true
is_finished _ = false

not_finished : (m : Mark) → is_finished m ≡ false → m ≢ finished
not_finished unseen h e = absurd cc
not_finished on_path h e = absurd cc
not_finished finished h e = absurd cc

was_finished :
    (id : String) (s : Marks) (j : String) → mark id on_path s j ≡ finished → s j ≡ finished
was_finished id s j h = elim (Bool-cases (str_eq id j)) [
  | inl same ↦ absurd (let h' = rw same at h in cc)
  | inr other ↦ rw other at h
]

pub unseen_other : (id q : String) (s : Marks) → s id ≡ unseen → s q ≡ on_path → str_eq id q ≡ false
unseen_other id q s e h = elim (Bool-cases (str_eq id q)) [
  | inr other ↦ other
  | inl same ↦
      let e' : s q ≡ unseen = subst (λ k. s k ≡ unseen) ((eq_iff id q).0 same) e in absurd cc
]

-- A finished name is not one that is not finished.
is_other :
    (id q : String) (s : Marks) → is_finished (s id) ≡ false → s q ≡ finished → str_eq id q ≡ false
is_other id q s h e = elim (Bool-cases (str_eq id q)) [
  | inr other ↦ other
  | inl same ↦
      let eq : id ≡ q = (eq_iff id q).0 same in
      absurd (not_finished (s q) (subst (λ k. is_finished (s k) ≡ false) eq h) e)
]

abbrev pub IsNamed : String → Type 0
IsNamed q = str_eq q "" ≡ false

module _ (requires : String → List String) where
  -- What a visit that finds no cycle leaves.
  abbrev pub Leaves : Marks → Marks → Type 0
  Leaves s s' = Ranked requires s' × Extends s s'

  abbrev pub IsSound : (String → Marks → Visit × Marks) → Type 0
  IsSound visit =
      (id : String) (s : Marks)
      → IsNamed id
      → Ranked requires s
      → (visit id s).0 ≡ clean
      → Leaves s (visit id s).1 × ((visit id s).1 id ≡ finished)

  abbrev pub AllLeft : List String → Marks → Visit × Marks → Type 0
  AllLeft ids s R = R.0 ≡ clean → Leaves s R.1 × All (λ q. R.1 q ≡ finished) ids

  then_sound :
      (id : String) (ids : List String) (s : Marks) (R : Visit × Marks) (f : Marks → Visit × Marks)
      → (R.0 ≡ clean → Leaves s R.1 × (R.1 id ≡ finished))
      → ((t : Marks) → Ranked requires t → AllLeft ids t (f t))
      → AllLeft (id ∷ ids) s (unless_found R f)
  then_sound id ids s (cycle names, t) f h g e = absurd cc
  then_sound id ids s (out_of_fuel, t) f h g e = absurd cc
  then_sound id ids s (clean, t) f h g e =
      let ((r, x), d) = h refl in
      let ((r', x'), all) = g t r e in ((r', Extends-trans _ _ _ x x'), (x'.stays id d, all))

  pub visit_all_sound :
      (visit : String → Marks → Visit × Marks) (ids : List String) (s : Marks)
      → IsSound visit
      → All IsNamed ids
      → Ranked requires s
      → AllLeft ids s (visit_all visit ids s)
  visit_all_sound visit [] s sound named r = λ e. ((r, Extends-refl s), tt)
  visit_all_sound visit (id ∷ ids) s sound named r =
      then_sound id ids s (visit id s) (visit_all visit ids) (sound id s named.0 r)
        (λ t r'. visit_all_sound visit ids t sound named.1 r')

  enter-Ranked :
      (id : String) (s : Marks)
      → s id ≡ unseen
      → Ranked requires s
      → Ranked requires (mark id on_path s)
  enter-Ranked id s e r =
      let mine = ap is_finished e in
      record {
        rank = r.rank;
        top = r.top;
        ranked = record {
          sound = λ j h.
              All-map _ _ _ (λ q f. (rw (is_other id q s mine f.0) f.0, f.1))
                (r.ranked.sound j (was_finished id s j h));
          bound = λ j h. r.ranked.bound j (was_finished id s j h);
        };
      }

  leave-Ranked :
      (id : String) (s : Marks)
      → s id ≡ on_path
      → All (λ q. s q ≡ finished) (requires id)
      → Ranked requires s
      → Ranked requires (mark id finished s)
  leave-Ranked id s e all r = record {
    rank = rank';
    top = suc r.top;
    ranked = record { sound = sound; bound = bound };
  }
    where
      mine : is_finished (s id) ≡ false
      mine = ap is_finished e

      rank' : String → ℕ
      rank' j = if str_eq id j then r.top else r.rank j

      bound : (j : String) → mark id finished s j ≡ finished → rank' j < suc r.top
      bound j h = elim (Bool-cases (str_eq id j)) [
        | inl same ↦ rw same (omega arith)
        | inr other ↦ let b = r.ranked.bound j (rw other at h) in rw other (omega (arith, b))
      ]

      sound :
          (j : String)
          → mark id finished s j ≡ finished
          → All (λ q. (mark id finished s q ≡ finished) × (rank' q < rank' j)) (requires j)
      sound j h = elim (Bool-cases (str_eq id j)) [
        | inl same ↦
            All-map _ _ _
              (λ q f.
                let o = is_other id q s mine f in
                let b = r.ranked.bound q f in (rw o f, rw (o, same) b))
              (subst (λ k. All (λ q. s q ≡ finished) (requires k)) ((eq_iff id j).0 same) all)
        | inr other ↦
            All-map _ _ _ (λ q f. let o = is_other id q s mine f.0 in (rw o f.0, rw (o, other) f.1))
              (r.ranked.sound j (rw other at h))
      ]

  enter-Extends : (id : String) (s : Marks) → s id ≡ unseen → Extends s (mark id on_path s)
  enter-Extends id s e = record {
    stays = λ q h. rw (is_other id q s (ap is_finished e) h) h;
    waits =
        λ q h. elim (Bool-cases (str_eq id q)) [ inl same ↦ rw same refl | inr other ↦ rw other h ];
  }

  -- Names on the path but `id` stay on it.
  leave-Extends :
      (id : String) (s t : Marks)
      → s id ≡ unseen
      → Extends (mark id on_path s) t
      → Extends s (mark id finished t)
  leave-Extends id s t e x = record {
    stays = λ q h. let o = is_other id q s (ap is_finished e) h in rw o (x.stays q (rw o h));
    waits = λ q h. let o = unseen_other id q s e h in rw o (x.waits q (rw o h));
  }

  finish_sound :
      (id : String) (s : Marks) (R : Visit × Marks)
      → s id ≡ unseen
      → AllLeft (requires id) (mark id on_path s) R
      → (finish id R).0 ≡ clean
      → Leaves s (finish id R).1 × ((finish id R).1 id ≡ finished)
  finish_sound id s (cycle names, t) e h c = absurd cc
  finish_sound id s (out_of_fuel, t) e h c = absurd cc
  finish_sound id s (clean, t) e h c =
      let ((r, x), all) = h refl in
      let self = (eq_iff id id).1 refl in
      (
        (leave-Ranked id t (x.waits id (rw self refl)) all r, leave-Extends id s t e x),
        rw self refl,
      )

  visit_by_sound :
      (visit : String → Marks → Visit × Marks) (m : Mark) (id : String) (s : Marks)
      → ((q : String) → All IsNamed (requires q))
      → IsSound visit
      → s id ≡ m
      → IsNamed id
      → Ranked requires s
      → (visit_by requires visit m id s).0 ≡ clean
      → Leaves s (visit_by requires visit m id s).1
        × ((visit_by requires visit m id s).1 id ≡ finished)
  visit_by_sound visit unseen id s named sound e n r =
      finish_sound id s (visit_all visit (requires id) (mark id on_path s)) e (
        visit_all_sound visit (requires id) (mark id on_path s) sound (named id)
          (enter-Ranked id s e r))
  visit_by_sound visit on_path id s named sound e n r =
      λ c. absurd (let c' : ◌≡◌ {A = Visit} (cycle (id ∷ [])) clean = rw n at c in cc)
  visit_by_sound visit finished id s named sound e n r = λ c. ((r, Extends-refl s), e)

  pub find-IsSound :
      (fuel : ℕ)
      → ((q : String) → All IsNamed (requires q))
      → IsSound (find_requires_cycle requires fuel)
  unfolding find_requires_cycle
  find-IsSound zero named id s n r = λ e. absurd cc
  find-IsSound (suc fuel) named id s n r =
      visit_by_sound (find_requires_cycle requires fuel) (s id) id s named (find-IsSound fuel named)
        refl n r
