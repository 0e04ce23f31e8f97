-- ===== src/Recorder/Progress.antt =====
-- That a round which reaches a node leaves no complete line of its log behind.
use network_skill_lab.Prelude.{
  List, Option, Option-cases, String, [], ap, arith, drop, eq_iff, inl, inr, int_add, length, none,
  refl, some, suc, sym, take, true, zero, ℕ, ◌+◌, ◌<◌, ◌^◌, ◌∙◌, ◌∷◌, ◌≡◌,
}
use network_skill_lab.Content.Lab.{Bytes}
use network_skill_lab.Recorder.Lines.{LogLine, CommandEntry, parse, last_index}
use network_skill_lab.Recorder.Pull.{Round, Pulled, save, accept, pull, is_appended}
use network_skill_lab.Recorder.Cut.{
  accept-partial, accept_complete, last_index-none, last_index-some, last_index-nil, first-newline,
}

-- There is no newline behind the last one.
behind-last_index :
    (xs : Bytes) (i : ℕ)
    → last_index xs ≡ some i
    → (last_index (drop (suc i) xs) ≡ none) × (i < length xs)
behind-last_index [] i h = absurd (cc last_index-nil)
behind-last_index (b ∷ rest) i h = elim (Option-cases (last_index rest)) [
  | inl e ↦
      let (f, z) = first-newline b i (sym (last_index-none b rest e) ∙ h) in rw z (e, omega arith)
  | inr (j, e) ↦
      let z : i ≡ suc j = cc (last_index-some b rest j e) in
      let (f, less) = behind-last_index rest j e in rw z (f, omega (arith, less))
]

drop-nil {ℓ} : {A : Type ℓ} (n : ℕ) → drop {A = A} n [] ≡ []
drop-nil zero = refl
drop-nil (suc n) = refl

drop-add {ℓ} : {A : Type ℓ} (m n : ℕ) (xs : List A) → drop (m + n) xs ≡ drop n (drop m xs)
drop-add zero n xs = ap (λ k. drop k xs) (omega arith)
drop-add (suc m) n [] = drop-nil (suc m + n) ∙ sym (drop-nil n)
drop-add (suc m) n (x ∷ xs) =
    let e : suc m + n ≡ suc (m + n) = omega arith in rw e (drop-add m n xs)

length-take {ℓ} : {A : Type ℓ} (n : ℕ) (xs : List A) → n < suc (length xs) → length (take n xs) ≡ n
length-take zero xs h = refl
length-take (suc n) [] h = omega arith
length-take (suc n) (x ∷ xs) h = ap suc (length-take n xs (omega arith))

length-drop {ℓ} : {A : Type ℓ} (n : ℕ) (xs : List A) → n + length (drop n xs) < suc (n + length xs)
length-drop zero xs = omega arith
length-drop (suc n) [] = omega arith
length-drop (suc n) (x ∷ xs) = omega (arith, length-drop n xs)

appended : (entries : List CommandEntry) → is_appended true entries ≡ true
appended [] = refl
appended (e ∷ entries) = refl

module _ (decode : Bytes → Option LogLine) (attempt_id : String) where
  save-offset :
      (node : String) (complete : Bytes) (s : Pulled)
      → (save decode attempt_id true node complete s).0 node ≡ int_add (s.0 node) (length complete)
  unfolding save
  save-offset node complete s =
      rw (appended (parse decode attempt_id node complete).0, (eq_iff node node).1 refl)

  -- What `accept` leaves of bytes that begin at the offset.
  accept-rest :
      (node : String) (s : Pulled) (file : Bytes)
      → length file < 2 ^ 62
      → s.0 node < 2 ^ 62
      → let out = drop (s.0 node) file in
        last_index (drop ((accept decode attempt_id true node (some (0, out)) s).0 node) file)
        ≡ none
  accept-rest node s file small within =
      let k = s.0 node in
      let out = drop k file in
      elim (Option-cases (last_index out)) [
        | inl e ↦ rw (accept-partial decode attempt_id true node out s e) e
        | inr (end, e) ↦
            let (clear, less) = behind-last_index out end e in
            let size = length-take (suc end) out (omega (arith, less)) in
            let moved : int_add k (length (take (suc end) out)) ≡ k + suc end =
              omega (arith, size, less, length-drop k file) in
            rw
              (
                accept_complete decode attempt_id true node out end s e,
                save-offset node (take (suc end) out) s,
                moved,
                drop-add k (suc end) file,
              )
              clear
      ]

  -- Where a call of `tail` on a node answers with all of the file from the offset on, and the
  -- database takes the entries, `pull` moves the offset behind the last newline of the file. The
  -- offset and the length of the file are below 2 ^ 62.
  pub pull_catches_up :
      (r : Round) (node : String) (s : Pulled) (file : Bytes)
      → length file < 2 ^ 62
      → s.0 node < 2 ^ 62
      → r.tail node (suc (s.0 node)) ≡ some (0, drop (s.0 node) file)
      → r.saves node ≡ true
      → last_index (drop ((pull decode attempt_id r node s).0 node) file) ≡ none
  unfolding pull
  pull_catches_up r node s file small within answer saves =
      let next : int_add (s.0 node) 1 ≡ suc (s.0 node) = omega (arith, within) in
      rw (next, answer, saves) (accept-rest node s file small within)
