-- ===== src/Attempt/Pruning.antt =====
-- attempt/prune.go: the attempts that ended before a cutoff are removed, a batch at a time. No other
-- operation of the service is interleaved with a run.
use network_skill_lab.Prelude.{
  Bool, List, Option, Result, String, Time, [], err, false, if◌then◌else◌, leb, length, none, ok,
  some, str_eq, suc, true, zero, ℕ, ◌++◌, ◌+◌, ◌-◌, ◌==◌, ◌^◌, ◌∷◌,
}
use network_skill_lab.Store.Model.{Attempt}
use network_skill_lab.Store.Attempts.{list_terminal_ended_before}
use network_skill_lab.Attempt.World.{
  Action, pure, gets, ◌>>◌, statement, file_access, Error, World, row_missing, not_positive,
}
use network_skill_lab.Attempt.Service.{Site}
use network_skill_lab.Attempt.Ending.{remove}

abbrev pub prune_batch : ℕ
prune_batch = 200

-- `Bytes` is an `int64`; what a disk holds is far below its limit.
pub record PruneReport : Type 0 where
  pub attempts : ℕ
  pub bytes : ℕ
  pub ids : List String

abbrev pub new_report : PruneReport
new_report = record { attempts = 0; bytes = 0; ids = [] }

-- `add`
abbrev pub add : String → ℕ → PruneReport → PruneReport
add id size r = record { attempts = r.attempts + 1; bytes = r.bytes + size; ids = r.ids ++ id ∷ [] }

abbrev pub size_in : String → List (String × ℕ) → ℕ
size_in id [] = 0
size_in id ((key, size) ∷ rest) = if str_eq key id then size else size_in id rest

abbrev pub sized : Bool → String → Action ℕ
sized false id = pure 0
sized true id = do file_access; gets (λ w. size_in id w.recordings)

-- `recordingsSize`; a directory that is not there has no bytes.
unfoldable pub recordings_size : Site → String → Action ℕ
recordings_size site id = sized site.has_dir id

-- A report with an error is what was done until the error.
abbrev pub Report : Type 0
Report = (PruneReport × Option Error) × World

-- The row may be gone already, which is no error.
abbrev pub removed : String → ℕ → PruneReport → Result Error (Unit {0}) × World → Report
removed id size r (ok u, w) = ((add id size r, none), w)
removed id size r (err row_missing, w) = ((r, none), w)
removed id size r (err e, w) = ((r, some e), w)

abbrev pub prune_sized : Site → String → PruneReport → Result Error ℕ × World → Report
prune_sized site id r (err e, w) = ((r, some e), w)
prune_sized site id r (ok size, w) = removed id size r (remove site id w)

unfoldable pub prune_one : Site → String → PruneReport → World → Report
prune_one site id r w = prune_sized site id r (recordings_size site id w)

abbrev pub unless_failed : Report → (PruneReport → World → Report) → Report
unless_failed ((r, some e), w) f = ((r, some e), w)
unless_failed ((r, none), w) f = f r w

-- The loop over one batch.
unfoldable pub prune_all : Site → List Attempt → PruneReport → World → Report
prune_all site [] r w = ((r, none), w)
prune_all site (att ∷ batch) r w = unless_failed (prune_one site att.id r w) (prune_all site batch)

abbrev pub prune_next : (PruneReport → World → Option Report) → Bool → Report → Option Report
prune_next again whole ((r, some e), w) = some ((r, some e), w)
prune_next again false ((r, none), w) = some ((r, none), w)
prune_next again true ((r, none), w) = again r w

abbrev pub with_batch :
    (PruneReport → World → Option Report)
    → Site
    → PruneReport
    → Result Error (List Attempt) × World
    → Option Report
with_batch again site r (err e, w) = some ((r, some e), w)
with_batch again site r (ok batch, w) =
    prune_next again (leb prune_batch (length batch)) (prune_all site batch r w)

unfoldable pub list_batch : Time → ℕ → Action (List Attempt)
list_batch cutoff limit = do
  statement
  gets (λ w. list_terminal_ended_before cutoff limit w.attempts)

-- The loop over the batches, which ends with a batch that is not full; `none` is out of fuel.
unfoldable pub prune_loop : ℕ → Site → Time → PruneReport → World → Option Report
prune_loop zero site cutoff r w = none
prune_loop (suc fuel) site cutoff r w =
    with_batch (prune_loop fuel site cutoff) site r (list_batch cutoff prune_batch w)

abbrev pub dry_sized :
    (PruneReport → World → Report) → String → PruneReport → Result Error ℕ × World → Report
dry_sized next id r (err e, w) = ((r, some e), w)
dry_sized next id r (ok size, w) = next (add id size r) w

-- A dry run only reads the sizes.
unfoldable pub dry_run : Site → List Attempt → PruneReport → World → Report
dry_run site [] r w = ((r, none), w)
dry_run site (att ∷ batch) r w =
    dry_sized (dry_run site batch) att.id r (recordings_size site att.id w)

abbrev pub dry_batch : Site → Result Error (List Attempt) × World → Report
dry_batch site (err e, w) = ((new_report, some e), w)
dry_batch site (ok batch, w) = dry_run site batch new_report w

abbrev pub prune_by : Bool → Bool → Site → ℕ → Time → World → Option Report
prune_by true dry site fuel cutoff w = some ((new_report, some not_positive), w)
prune_by false true site fuel cutoff w = some (dry_batch site (list_batch cutoff (2 ^ 31 - 1) w))
prune_by false false site fuel cutoff w = prune_loop fuel site cutoff new_report w

-- `Prune`; a retention that is zero or negative is the same to it.
unfoldable pub prune : Site → ℕ → Bool → ℕ → World → Option Report
prune site older_than dry fuel w = prune_by (older_than == 0) dry site fuel (w.now - older_than) w
