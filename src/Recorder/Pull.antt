-- ===== src/Recorder/Pull.antt =====
-- `pull` and `pullAll` of internal/recorder/recorder.go: one round over the nodes of an attempt.
use network_skill_lab.Prelude.{
  Bool, List, Option, String, [], false, if◌then◌else◌, int_add, length, none, some, str_eq, suc,
  take, true, zero, ℕ, ◌++◌, ◌∷◌,
}
use network_skill_lab.Content.Lab.{Bytes}
use network_skill_lab.Recorder.Lines.{LogLine, CommandEntry, parse, last_index}

-- What a round meets: the answer of `tail -c +N` on a node for each N, an exit code with the output
-- or `none` where the call failed; and whether the database takes the entries of the node.
pub record Round : Type 0 where
  pub tail : String → ℕ → Option (ℕ × Bytes)
  pub saves : String → Bool

-- `offsets` is `none` until `run` has read the attempt; `log` is the table of the commands, as far
-- as it is about this attempt.
pub record Loop : Type 0 where
  pub offsets : Option (String → ℕ)
  pub final : Bool
  pub log : List CommandEntry

abbrev pub set_offset : String → ℕ → (String → ℕ) → String → ℕ
set_offset node n offsets name = if str_eq node name then n else offsets name

-- The offsets and the log.
abbrev pub Pulled : Type 0
Pulled = (String → ℕ) × List CommandEntry

-- `run`, once it has read the attempt.
unfoldable pub open_loop : Loop → Loop
open_loop l = record l { offsets = some (λ node. 0) }

-- `append`: no entries are appended without the database.
abbrev pub is_appended : Bool → List CommandEntry → Bool
is_appended saves [] = true
is_appended saves (e ∷ entries) = saves

module _ (decode : Bytes → Option LogLine) (attempt_id : String) where
  -- The end of `pull`: `AppendBatch` writes all entries or none.
  abbrev pub keep : Bool → String → ℕ → List CommandEntry → Pulled → Pulled
  keep false node size entries (offsets, log) = (offsets, log)
  keep true node size entries (offsets, log) =
      (set_offset node (int_add (offsets node) size) offsets, log ++ entries)

  unfoldable pub save : Bool → String → Bytes → Pulled → Pulled
  save saves node complete s =
      let entries = (parse decode attempt_id node complete).0 in
      keep (is_appended saves entries) node (length complete) entries s

  unfoldable pub accept : Bool → String → Option (ℕ × Bytes) → Pulled → Pulled
  accept saves node none s = s
  accept saves node (some (suc code, stdout)) s = s
  accept saves node (some (zero, stdout)) s = elim (last_index stdout) [
    | none ↦ s
    | some end ↦ save saves node (take (suc end) stdout) s
  ]

  unfoldable pub pull : Round → String → Pulled → Pulled
  pull r node (offsets, log) =
      accept (r.saves node) node (r.tail node (int_add (offsets node) 1)) (offsets, log)

  unfoldable pub pull_nodes : Round → List String → Pulled → Pulled
  pull_nodes r [] s = s
  pull_nodes r (node ∷ nodes) s = pull_nodes r nodes (pull r node s)

  abbrev pull_open : Round → List String → Bool → Option (String → ℕ) → List CommandEntry → Loop
  pull_open r nodes final none log = record { offsets = none; final = false; log = log }
  pull_open r nodes final (some offsets) log =
      let (offsets', log') = pull_nodes r nodes (offsets, log) in
      record { offsets = some offsets'; final = final; log = log' }

  -- A `pullAll` behind the final one does nothing.
  unfoldable pub pull_all : List String → Bool → Round → Loop → Loop
  pull_all nodes final r l = if l.final then l else pull_open r nodes final l.offsets l.log
