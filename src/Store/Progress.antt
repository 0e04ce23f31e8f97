-- ===== src/Store/Progress.antt =====
-- internal/store/progress.go: one row for each user, kind and reference.
use network_skill_lab.Prelude.{Bool, List, [], false, if◌then◌else◌, str_eq, true, ◌&&◌, ◌∷◌}
use network_skill_lab.Store.Model.{Kind, progress_doc, progress_lab, ProgressEntry}

abbrev kind_eq : Kind → Kind → Bool
kind_eq progress_doc progress_doc = true
kind_eq progress_lab progress_lab = true
kind_eq _ _ = false

abbrev same_key : ProgressEntry → ProgressEntry → Bool
same_key e f = str_eq e.user_id f.user_id && kind_eq e.kind f.kind && str_eq e.ref f.ref

-- INSERT … ON CONFLICT DO UPDATE
unfoldable pub upsert : ProgressEntry → List ProgressEntry → List ProgressEntry
upsert e [] = e ∷ []
upsert e (f ∷ rows) = if same_key f e then e ∷ rows else f ∷ upsert e rows
