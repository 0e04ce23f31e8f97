-- ===== src/Attempt/Retention.antt =====
-- The loop of `Prune` over the batches: it ends, and touches only what ended before the cutoff.
use network_skill_lab.Prelude.{
  All, All-map, Bool, List, Option, String, Time, [], ap, arith, err, false, inl, inr, leb, length,
  none, ok, refl, some, str_eq, suc, true, zero, ℕ, ◌+◌, ◌-◌, ◌<◌, ◌==◌, ◌∙◌, ◌∷◌, ◌≡◌, ◌⊎◌,
}
use network_skill_lab.Store.Model.{Attempt}
use network_skill_lab.Store.Attempts.{Attempts, get, ended_before, list_terminal_ended_before}
use network_skill_lab.Store.Removal.{has, get-delete, All-delete, All-listed, rows-has}
use network_skill_lab.Attempt.World.{World, store_failed}
use network_skill_lab.Attempt.Service.{Site}
use network_skill_lab.Attempt.Reserve.{statement-cases}
use network_skill_lab.Attempt.Pruning.{
  Report, prune_one, unless_failed, prune_all, prune_next, list_batch, prune_loop, PruneReport,
  prune_batch, prune, new_report,
}
use network_skill_lab.Attempt.Pruned.{
  prune_one-Ends, prune_all-less, Ends, IsCounted, stops, skips, removes, idle-IsCounted,
  prune_all-IsCounted,
}

-- No row of the id `j` ended before the cutoff.
abbrev pub IsKept : Time → String → Attempts → Type 0
IsKept cutoff j rows = All (λ a. str_eq a.id j ≡ true → ended_before cutoff a ≡ false) rows

-- From `rows` to `rows'`, the row of `j` stays as it is, and it is still to be kept.
abbrev pub Keeps : Time → String → Attempts → Attempts → Type 0
Keeps cutoff j rows rows' = (get j rows' ≡ get j rows) × IsKept cutoff j rows'

abbrev IsOther : String → Attempt → Type 0
IsOther j a = str_eq a.id j ≡ false

listed-IsOther :
    (cutoff : Time) (j : String) (xs : List Attempt)
    → All
        (λ a.
          (str_eq a.id j ≡ true → ended_before cutoff a ≡ false) × (ended_before cutoff a ≡ true))
        xs
    → All (IsOther j) xs
listed-IsOther cutoff j [] h = tt
listed-IsOther cutoff j (a ∷ xs) h =
    let ((k, e), rest) = h in (ground (arith, k, e), listed-IsOther cutoff j xs rest)

module _ (cutoff : Time) (j : String) where
  Ends-Keeps :
      (id : String) (r : PruneReport) (w : World) {R : Report}
      → str_eq id j ≡ false
      → IsKept cutoff j w.attempts
      → Ends id r w R
      → Keeps cutoff j w.attempts R.1.attempts
  Ends-Keeps id r w o k (stops e v (inl h)) = rw h (refl, k)
  Ends-Keeps id r w o k (stops e v (inr d)) = (get-delete id j _ _ d o, All-delete _ id _ _ d k)
  Ends-Keeps id r w o k (skips v d h) = rw h (refl, k)
  Ends-Keeps id r w o k (removes size v d) = (get-delete id j _ _ d o, All-delete _ id _ _ d k)

  then-Keeps :
      (rows : Attempts) (R : Report) (f : PruneReport → World → Report)
      → Keeps cutoff j rows R.1.attempts
      → ((r : PruneReport) (v : World)
          → IsKept cutoff j v.attempts
          → Keeps cutoff j v.attempts (f r v).1.attempts)
      → Keeps cutoff j rows (unless_failed R f).1.attempts
  then-Keeps rows ((r', some e), v) f k g = k
  then-Keeps rows ((r', none), v) f k g = let d = g r' v k.1 in (d.0 ∙ k.0, d.1)

  prune_all-Keeps :
      (site : Site) (batch : List Attempt) (r : PruneReport) (w : World)
      → All (IsOther j) batch
      → IsKept cutoff j w.attempts
      → Keeps cutoff j w.attempts (prune_all site batch r w).1.attempts
  unfolding prune_all
  prune_all-Keeps site [] r w o k = (refl, k)
  prune_all-Keeps site (a ∷ batch) r w o k =
      then-Keeps w.attempts (prune_one site a.id r w) (prune_all site batch)
        (Ends-Keeps a.id r w o.0 k (prune_one-Ends site a.id r w))
        (λ r' v k'. prune_all-Keeps site batch r' v o.1 k')

pub list_batch-cases :
    (cutoff : Time) (limit : ℕ) (w : World)
    → (fs : List Bool) × ((list_batch cutoff limit w
          ≡ (ok (list_terminal_ended_before cutoff limit w.attempts), record w { faults = fs }))
        ⊎ (list_batch cutoff limit w ≡ (err store_failed, record w { faults = fs })))
unfolding list_batch
list_batch-cases cutoff limit w =
    let (fs, c) = statement-cases w in (fs, elim c [ inl e ↦ inl (rw e) | inr e ↦ inr (rw e) ])

-- What a run from `w` comes to: it answers, its report counts, and it keeps what is to be kept.
record Run (cutoff : Time) (r : PruneReport) (w : World) (o : Option Report) : Type 0 where
  pub report : Report
  pub answers : o ≡ some report
  pub counted : IsCounted r w report
  pub keeps :
      (j : String) → IsKept cutoff j w.attempts → Keeps cutoff j w.attempts report.1.attempts

listed-has :
    (cutoff : Time) (limit : ℕ) (rows : Attempts)
    → All (λ a. has a.id rows ≡ true) (list_terminal_ended_before cutoff limit rows)
listed-has cutoff limit rows =
    All-map _ _ _ (λ a h. h.0)
      (All-listed (λ a. has a.id rows ≡ true) cutoff limit rows (rows-has rows))

module _ (site : Site) (cutoff : Time) where
  -- A batch without an error that has a row leaves fewer rows.
  batch-less :
      (batch : List Attempt) (r : PruneReport) (w : World)
      → All (λ a. has a.id w.attempts ≡ true) batch
      → 0 < length batch
      → (prune_all site batch r w).0.1 ≡ none
      → length (prune_all site batch r w).1.attempts < length w.attempts
  batch-less [] r w h p n = absurd (omega (arith, p))
  batch-less (a ∷ batch) r w h p n = prune_all-less site a batch r w h.0 n

  next-Run :
      (fuel : ℕ) (r : PruneReport) (w : World) (whole : Bool) (R : Report)
      → IsCounted r w R
      → ((j : String) → IsKept cutoff j w.attempts → Keeps cutoff j w.attempts R.1.attempts)
      → ((r' : PruneReport) (v : World)
          → whole ≡ true
          → R ≡ ((r', none), v)
          → Run cutoff r' v (prune_loop fuel site cutoff r' v))
      → Run cutoff r w (prune_next (prune_loop fuel site cutoff) whole R)
  next-Run fuel r w whole ((r', some e), v) c k again = record {
    report = _;
    answers = refl;
    counted = c;
    keeps = k;
  }
  next-Run fuel r w false ((r', none), v) c k again = record {
    report = _;
    answers = refl;
    counted = c;
    keeps = k;
  }
  next-Run fuel r w true ((r', none), v) c k again =
      let t = again r' v refl refl in
      record {
        report = t.report;
        answers = t.answers;
        counted = record {
          shrinks = omega (arith, c.shrinks, t.counted.shrinks);
          counts =
              λ n. let e = c.counts refl in let e' = t.counted.counts n in omega (arith, e, e');
        };
        keeps = λ j q. let (e, q') = k j q in let (e', q'') = t.keeps j q' in (e' ∙ e, q'');
      }

  loop-Run :
      (fuel : ℕ) (r : PruneReport) (w : World)
      → length w.attempts < fuel
      → Run cutoff r w (prune_loop fuel site cutoff r w)
  unfolding prune_loop
  loop-Run zero r w h = absurd (omega (arith, h))
  loop-Run (suc fuel) r w h =
      let (fs, c) = list_batch-cases cutoff prune_batch w in
      let v : World = record w { faults = fs } in
      let batch = list_terminal_ended_before cutoff prune_batch w.attempts in
      elim c [
        | inr e ↦ rw e (record {
          report = ((r, some store_failed), v);
          answers = refl;
          counted = idle-IsCounted r (some store_failed) w v refl;
          keeps = λ j k. (refl, k);
        })
        | inl e ↦ rw e (
            moved fs (
              next-Run fuel r v (leb prune_batch (length batch)) (prune_all site batch r v)
                (prune_all-IsCounted site batch r v)
                (λ j k.
                  prune_all-Keeps cutoff j site batch r v
                    (listed-IsOther cutoff j batch (All-listed _ cutoff prune_batch w.attempts k))
                    k)
                (λ r' u full same. loop-Run fuel r' u (smaller fs full u r' same))))
      ]
    where
      moved :
          (fs : List Bool) {o : Option Report}
          → Run cutoff r (record w { faults = fs }) o
          → Run cutoff r w o
      moved fs t = record {
        report = t.report;
        answers = t.answers;
        counted = record { shrinks = t.counted.shrinks; counts = t.counted.counts };
        keeps = t.keeps;
      }

      smaller :
          (fs : List Bool)
          → let v = record w { faults = fs } in
            let batch = list_terminal_ended_before cutoff prune_batch w.attempts in
            leb prune_batch (length batch) ≡ true
            → (u : World) (r' : PruneReport) → prune_all site batch r v ≡ ((r', none), u)
            → length u.attempts < fuel
      smaller fs full u r' same =
          let less =
            batch-less _ r (record w { faults = fs }) (listed-has cutoff prune_batch w.attempts)
              (ground (arith, full)) (ap (λ (R : Report). R.0.1) same) in
          let e = ap (λ (R : Report). length R.1.attempts) same in omega (arith, h, less, e)

-- `Prune` of a positive retention answers, with more fuel than the table has rows: each full batch
-- removes a row or ends with an error. The report of a run without an error counts exactly the rows
-- that are gone.
pub prune_terminates :
    (site : Site) (older_than fuel : ℕ) (w : World)
    → 0 < older_than
    → length w.attempts < fuel
    → (R : Report) × (prune site older_than false fuel w ≡ some R)
      × (R.0.1 ≡ none → R.0.0.attempts + length R.1.attempts ≡ length w.attempts)
unfolding prune
prune_terminates site older_than fuel w positive enough =
    let t = loop-Run site (w.now - older_than) fuel new_report w enough in
    let not_zero : (older_than == 0) ≡ false = ground (arith, positive) in
    (t.report, rw not_zero t.answers, λ n. let e = t.counted.counts n in omega (arith, e))

-- `Prune` touches no row but of attempts that ended before the cutoff: the row of any other id is
-- read back as it was, when the run is over, with an error or without.
pub prune_keeps :
    (site : Site) (older_than fuel : ℕ) (w : World) (j : String)
    → 0 < older_than
    → length w.attempts < fuel
    → IsKept (w.now - older_than) j w.attempts
    → (R : Report) × (prune site older_than false fuel w ≡ some R)
      × (get j R.1.attempts ≡ get j w.attempts)
unfolding prune
prune_keeps site older_than fuel w j positive enough kept =
    let t = loop-Run site (w.now - older_than) fuel new_report w enough in
    let not_zero : (older_than == 0) ≡ false = ground (arith, positive) in
    (t.report, rw not_zero t.answers, (t.keeps j kept).0)
