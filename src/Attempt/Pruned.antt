-- ===== src/Attempt/Pruned.antt =====
-- What `Prune` removes, and that its loop ends.
use network_skill_lab.Prelude.{
  Bool, List, Option, Option-cases, String, [], arith, err, false, inl, inr, length, none, ok, refl,
  some, true, ℕ, ◌+◌, ◌<◌, ◌∷◌, ◌≡◌, ◌≤◌, ◌⊎◌,
}
use network_skill_lab.Store.Attempts.{Attempts, delete}
use network_skill_lab.Store.Model.{Attempt}
use network_skill_lab.Store.Removal.{has, has-delete, length-delete}
use network_skill_lab.Attempt.World.{file_access, write, Error, World, store_failed, files_failed}
use network_skill_lab.Attempt.Service.{Site}
use network_skill_lab.Attempt.Ending.{remove_files, remove}
use network_skill_lab.Attempt.Reserve.{statement-cases}
use network_skill_lab.Attempt.Pruning.{
  add, sized, Report, removed, prune_sized, prune_one, PruneReport, recordings_size, unless_failed,
  prune_all,
}

pub file_access-cases :
    (w : World)
    → (fs : List Bool) × ((file_access w ≡ (ok tt, record w { faults = fs }))
        ⊎ (file_access w ≡ (err files_failed, record w { faults = fs })))
unfolding file_access
file_access-cases w = cases w.faults
  where
    cases :
        (gs : List Bool)
        → let v = record w { faults = gs } in
          (fs : List Bool) × ((file_access v ≡ (ok tt, record w { faults = fs }))
            ⊎ (file_access v ≡ (err files_failed, record w { faults = fs })))
    cases [] = ([], inl refl)
    cases (false ∷ fs) = (fs, inl refl)
    cases (true ∷ fs) = (fs, inr refl)

-- The rows are as they were, or without one row of the id.
abbrev pub AtMostOne : String → Attempts → Attempts → Type 0
AtMostOne id rows rows' = (rows' ≡ rows) ⊎ (delete id rows ≡ some rows')

-- The ways in which the removal of one attempt ends.
pub data Ends (id : String) (r : PruneReport) (w : World) : Report → Type 0 where
  stops :
      (e : Error) (v : World) → AtMostOne id w.attempts v.attempts → Ends id r w ((r, some e), v)
  skips :
      (v : World)
      → delete id w.attempts ≡ none
      → v.attempts ≡ w.attempts
      → Ends id r w ((r, none), v)
  removes :
      (size : ℕ) (v : World)
      → delete id w.attempts ≡ some v.attempts
      → Ends id r w ((add id size r, none), v)

module _ (site : Site) (id : String) (r : PruneReport) where
  removed-Ends : (size : ℕ) (w : World) → Ends id r w (removed id size r (remove site id w))
  unfolding remove write
  removed-Ends size w =
      let (fs, c) = statement-cases w in
      elim c [
        | inr e ↦ rw e (stops store_failed _ (inl refl))
        | inl e ↦ elim (Option-cases (delete id w.attempts)) [
          | inl d ↦ rw (e, d) (skips _ d refl)
          | inr (rows, d) ↦
              rw (e, d) (cleared site.has_dir (record w { attempts = rows; faults = fs }) d)
        ]
      ]
    where
      cleared :
          (dir : Bool) (v : World)
          → delete id w.attempts ≡ some v.attempts
          → Ends id r w (removed id size r (remove_files dir id v))
      cleared false v d = removes size v d
      cleared true v d =
          let (gs, c) = file_access-cases v in
          elim c [ inl e ↦ rw e (removes size _ d) | inr e ↦ rw e (stops files_failed _ (inr d)) ]

  pub prune_one-Ends : (w : World) → Ends id r w (prune_one site id r w)
  unfolding prune_one recordings_size
  prune_one-Ends w = measured site.has_dir
    where
      measured : (dir : Bool) → Ends id r w (prune_sized site id r (sized dir id w))
      measured false = removed-Ends 0 w
      measured true =
          let (gs, c) = file_access-cases w in
          elim c [
            | inl e ↦ rw e (moved gs (removed-Ends _ (record w { faults = gs })))
            | inr e ↦ rw e (stops files_failed _ (inl refl))
          ]
        where
          moved :
              (gs : List Bool) {R : Report} → Ends id r (record w { faults = gs }) R → Ends id r w R
          moved gs (stops e v h) = stops e v h
          moved gs (skips v d h) = skips v d h
          moved gs (removes size v d) = removes size v d

-- Without an error, the report counts the rows that are gone.
pub record IsCounted (r : PruneReport) (w : World) (R : Report) : Type 0 where
  pub shrinks : length R.1.attempts ≤ length w.attempts
  pub counts : R.0.1 ≡ none → R.0.0.attempts + length R.1.attempts ≡ r.attempts + length w.attempts

pub idle-IsCounted :
    (r : PruneReport) (e : Option Error) (w v : World)
    → v.attempts ≡ w.attempts
    → IsCounted r w ((r, e), v)
idle-IsCounted r e w v h = record { shrinks = rw h (omega arith); counts = λ n. rw h }

Ends-IsCounted :
    (id : String) (r : PruneReport) (w : World) {R : Report} → Ends id r w R → IsCounted r w R
Ends-IsCounted id r w (stops e v (inl h)) = idle-IsCounted r (some e) w v h
Ends-IsCounted id r w (stops e v (inr d)) = record {
  shrinks = omega (arith, length-delete id _ _ d);
  counts = λ n. absurd cc;
}
Ends-IsCounted id r w (skips v d h) = idle-IsCounted r none w v h
Ends-IsCounted id r w (removes size v d) = record {
  shrinks = omega (arith, length-delete id _ _ d);
  counts = λ n. omega (arith, length-delete id _ _ d);
}

-- Where the table has the row, one that ends without an error has removed it.
Ends-less :
    (id : String) (r : PruneReport) (w : World) {R : Report}
    → has id w.attempts ≡ true
    → Ends id r w R
    → R.0.1 ≡ none
    → length R.1.attempts < length w.attempts
Ends-less id r w h (stops e v o) n = absurd cc
Ends-less id r w h (skips v d e) n = absurd (has-delete id _ h d)
Ends-less id r w h (removes size v d) n = omega (arith, length-delete id _ _ d)

then-IsCounted :
    (r : PruneReport) (w : World) (R : Report) (f : PruneReport → World → Report)
    → IsCounted r w R
    → ((r' : PruneReport) (v : World) → IsCounted r' v (f r' v))
    → IsCounted r w (unless_failed R f)
then-IsCounted r w ((r', some e), v) f c g = c
then-IsCounted r w ((r', none), v) f c g =
    let d = g r' v in
    record {
      shrinks = omega (arith, c.shrinks, d.shrinks);
      counts = λ n. let e = d.counts n in let e' = c.counts refl in omega (arith, e, e');
    }

module _ (site : Site) where
  pub prune_all-IsCounted :
      (batch : List Attempt) (r : PruneReport) (w : World)
      → IsCounted r w (prune_all site batch r w)
  unfolding prune_all
  prune_all-IsCounted [] r w = idle-IsCounted r none w w refl
  prune_all-IsCounted (a ∷ batch) r w =
      then-IsCounted r w (prune_one site a.id r w) (prune_all site batch)
        (Ends-IsCounted a.id r w (prune_one-Ends site a.id r w)) (prune_all-IsCounted batch)

  pub prune_all-less :
      (a : Attempt) (batch : List Attempt) (r : PruneReport) (w : World)
      → has a.id w.attempts ≡ true
      → (prune_all site (a ∷ batch) r w).0.1 ≡ none
      → length (prune_all site (a ∷ batch) r w).1.attempts < length w.attempts
  unfolding prune_all
  prune_all-less a batch r w h n =
      after (prune_one site a.id r w) (Ends-less a.id r w h (prune_one-Ends site a.id r w)) n
    where
      after :
          (R : Report)
          → (R.0.1 ≡ none → length R.1.attempts < length w.attempts)
          → (unless_failed R (prune_all site batch)).0.1 ≡ none
          → length (unless_failed R (prune_all site batch)).1.attempts < length w.attempts
      after ((r', some e), v) l n = absurd cc
      after ((r', none), v) l n =
          let c = prune_all-IsCounted batch r' v in let l' = l refl in omega (arith, c.shrinks, l')
