-- ===== src/Server/Calls.antt =====
-- The steps of one connection, in any order.
use network_skill_lab.Prelude.{Bool, List, Option, String, [], ℕ, ◌∷◌}
use network_skill_lab.Content.Lab.{Bytes}
use network_skill_lab.Protocol.Failure.{Reply}
use network_skill_lab.Server.Conn.{
  begin_call, handle_result, handle_progress, close_object, handle_frame, handle_stream_closed,
  teardown, give_up, Conn,
}

-- What the reader of the socket, the callers and the pages do to a connection.
pub data Step : Type 0 where
  calls : String → Bool → Step
  results : Reply → Step
  progresses : ℕ → String → Step
  frames : Bytes → Step
  closures closes : ℕ → Step
  gives_up : ℕ → Option ℕ → Step
  teardowns : Step

module _ (decode : Option Bytes → Option ℕ) where
  abbrev pub step : Step → Conn → Conn
  step (calls method sends) c = (begin_call method sends c).1
  step (results r) c = handle_result decode r c
  step (progresses id name) c = handle_progress id name c
  step (frames frame) c = handle_frame frame c
  step (closures number) c = handle_stream_closed number c
  step (closes k) c = close_object k c
  step (gives_up id k) c = give_up id k c
  step teardowns c = teardown c

  abbrev pub run : List Step → Conn → Conn
  run [] c = c
  run (s ∷ steps) c = run steps (step s c)
