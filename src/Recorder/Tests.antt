-- ===== src/Recorder/Tests.antt =====
-- A log of one complete line and the start of another, read in two rounds.
use network_skill_lab.Prelude.{
  Bool-cases, Option, String, [], ap, arith, drop, false, if◌then◌else◌, inl, inr, length, none,
  refl, some, str_eq, suc, sym, true, zero, ℕ, ◌<◌, ◌^◌, ◌∙◌, ◌∷◌, ◌≡◌,
}
use mathlib.Core.List.{append-nil}
use network_skill_lab.Content.Lab.{Bytes}
use network_skill_lab.Recorder.Lines.{LogLine, last_index}
use network_skill_lab.Recorder.Pull.{Round, open_loop, pull, Pulled}
use network_skill_lab.Recorder.Exact.{Honest, rounds, rounds_exact, fresh, IsCopying}
use network_skill_lab.Recorder.Progress.{pull_catches_up}

abbrev decode_any : Bytes → Option LogLine
decode_any raw = some (record { ts = length raw; user = "root"; cwd = "/"; cmd = "ip a"; exit = 0 })

abbrev line : Bytes
line = 97 ∷ 98 ∷ 10 ∷ 99 ∷ []

abbrev files : String → Bytes
files node = if str_eq node "client" then line else []

files-small : (node : String) → length (files node) < 2 ^ 62
files-small node = elim (Bool-cases (str_eq node "client")) [
  | inl e ↦ rw e (omega arith)
  | inr e ↦ rw e (omega arith)
]

abbrev tail_of : String → ℕ → Option (ℕ × Bytes)
tail_of node zero = none
tail_of node (suc k) = some (0, drop k (files node))

abbrev round : Round
round = record { tail = tail_of; saves = λ node. true }

abbrev out_of : Option (ℕ × Bytes) → Bytes
out_of none = []
out_of (some p) = p.1

round-Honest : Honest files round
round-Honest node k out h = ([], append-nil out ∙ sym (ap out_of h))

rounds_exact_example : IsCopying decode_any "attempt" files files-small (
    rounds decode_any "attempt"
      ("client" ∷ [])
      ((false, round) ∷ (true, round) ∷ [])
      (open_loop fresh))
rounds_exact_example =
    rounds_exact decode_any "attempt" files files-small ("client" ∷ [])
      ((false, round) ∷ (true, round) ∷ []) (round-Honest, (round-Honest, tt))

abbrev at_start : Pulled
at_start = ((λ node. 0), [])

pull_catches_up_example :
    last_index (drop ((pull decode_any "attempt" round "client" at_start).0 "client") line) ≡ none
pull_catches_up_example =
    pull_catches_up decode_any "attempt" round "client" at_start line (omega arith) (omega arith)
      refl refl
