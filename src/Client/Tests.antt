-- ===== src/Client/Tests.antt =====
-- The theorems of the runner's client at a concrete session.
use network_skill_lab.Prelude.{
  List, Option, [], arith, err, false, ltb, none, ok, one_if, refl, some, true, ℕ, ◌+◌, ◌<◌, ◌∷◌,
  ◌≡◌, ◌≤◌,
}
use network_skill_lab.Content.Lab.{Bytes}
use network_skill_lab.Protocol.Failure.{Failure}
use network_skill_lab.Protocol.Failure.{new_result}
use network_skill_lab.Client.Work.{start, work_send, work_follow}
use network_skill_lab.Client.Pumps.{pump_output}
use network_skill_lab.Client.Session.{
  after, open_terminal, without, write, begin_close, close_next, close_stream, stream, shut,
  close_pty, Call, Value, stream_value, Session, new_session,
}
use network_skill_lab.Client.Dispatch.{dispatch, decode_params, work_dispatch, Decoders, Provider}
use network_skill_lab.Client.Keeper
use network_skill_lab.Client.Keeper.{
  new_keeper, disconnected, fire, expire, destroy_all, connected, waits, min_backoff, next_backoff,
}
use network_skill_lab.Client.Dispatch.{track}
use network_skill_lab.Client.Steps.{
  Codec, Step, run, calls, dispatches, sends, follows, outputs, ends, closes_next, closes_once,
  closed_all,
}
use network_skill_lab.Client.Entries.{listed}
use network_skill_lab.Client.Log.{Ordered}
use network_skill_lab.Client.Order.{announced_first}

abbrev refused : Failure
refused = record { message = "no"; is_sandbox_not_found = false; is_node_not_found = false }

abbrev json : Decoders
json = record {
  provision = λ bytes. err refused;
  exec = λ bytes. err refused;
  sandbox = λ bytes. ok "lab-1";
  terminal = λ bytes. ok ("lab-1", "web");
  resize = λ bytes. err refused;
  close = λ bytes. err refused;
}

abbrev marshal : Value → Option Bytes
marshal (stream_value id) = some (id ∷ [])
marshal _ = some []

abbrev codec : Codec
codec = record { quote = λ s. s; json = json; marshal = marshal; encode_failure = λ id. refused }

abbrev provider : Provider
provider = record {
  provision = λ spec. ok "lab-1";
  exec = λ sandbox node cmd opts. err refused;
  destroy = λ sandbox. none;
  gc = none;
  health = record {
    is_ok = true;
    docker = true;
    image = true;
    image_name = "";
    instance_id = "";
    mem_available_mb = 0;
    error = "";
  };
  open_terminal = λ sandbox node. none;
  resize = λ k cols rows. none;
}

abbrev open_call : Call
open_call = record { id = 1; method = "open_terminal"; params = [] }

-- One terminal is opened and shows something; another is opened after the end has begun.
abbrev steps : List Step
steps =
    calls open_call
    ∷ dispatches 0 provider
    ∷ sends 0 true
    ∷ follows 0
    ∷ outputs 0 (108 ∷ []) false true true
    ∷ calls open_call
    ∷ ends
    ∷ dispatches 1 provider
    ∷ closes_next
    ∷ []

abbrev after_steps : Session
after_steps = run codec steps (new_session [])

marshalled : (id : ℕ) → (bytes : Bytes) × (marshal (stream_value id) ≡ some bytes)
marshalled id = (id ∷ [], refl)

closes_once_example :
    (listed 1 after_steps.streams + (after_steps.terminals 1).closes
      ≡ one_if (ltb 1 after_steps.opened))
    × ((after_steps.terminals 1).done ≤ (after_steps.terminals 1).closes)
closes_once_example = closes_once codec [] steps 1 (omega arith)

is_closed : after_steps.closed ≡ true
unfolding new_session start work_dispatch dispatch decode_params work_send work_follow after
    pump_output open_terminal without write new_result begin_close close_next close_stream stream
    shut close_pty
is_closed = refl

none_left : after_steps.closing ≡ []
unfolding new_session start work_dispatch dispatch decode_params work_send work_follow after
    pump_output open_terminal without write new_result begin_close close_next close_stream stream
    shut close_pty
none_left = refl

two_opened : 1 < after_steps.opened
unfolding new_session start work_dispatch dispatch decode_params work_send work_follow after
    pump_output open_terminal without write new_result begin_close close_next close_stream stream
    shut close_pty
two_opened = omega arith

closed_all_example : (after_steps.terminals 1).closes ≡ 1
closed_all_example = closed_all codec [] steps 1 (omega arith) is_closed none_left two_opened

announced_first_example : Ordered marshal after_steps.sent
announced_first_example = announced_first codec marshalled [] steps

-- The retention runs out while a new connection waits to be welcomed: its sandbox is destroyed, though
-- the hello of that connection has named it.
destroyed_in_handshake :
    let k =
      Keeper.run
        (Keeper.provisions "lab-1"
          ∷ Keeper.disconnects
          ∷ Keeper.fires 0
          ∷ Keeper.expires
          ∷ Keeper.connects
          ∷ [])
        new_keeper in
    (k.sandboxes ≡ []) × (k.destroyed ≡ "lab-1" ∷ [])
unfolding new_keeper track disconnected fire expire destroy_all connected
destroyed_in_handshake = (refl, refl)

waits_double :
    waits (true ∷ false ∷ false ∷ false ∷ false ∷ false ∷ false ∷ []) min_backoff
    ≡ 1000 ∷ 2000 ∷ 4000 ∷ 8000 ∷ 16000 ∷ 30000 ∷ 30000 ∷ []
unfolding next_backoff
waits_double = refl
