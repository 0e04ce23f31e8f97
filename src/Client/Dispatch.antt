-- ===== src/Client/Dispatch.antt =====
-- `start`, `cancel` and `dispatch` of internal/runnerclient/session.go, with what they use of client.go:
-- what the runner answers to each method.
use network_skill_lab.Prelude.{
  Bool, List, Option, Result, String, [], contains, decimal, err, false, if◌then◌else◌, none, ok,
  set, some, str_append, str_eq, true, ℕ, ◌||◌, ◌∷◌,
}
use network_skill_lab.Content.Lab.{Bytes}
use network_skill_lab.Protocol.Failure.{Failure}
use network_skill_lab.Protocol.Payload.{
  ProvisionParams, ExecParams, ExecOptions, ExecResult, Health, SandboxSpec, spec, options,
}
use network_skill_lab.Client.Session.{
  send, stream, close_stream, Call, Value, Answer, Work, Session, progress_sent, sandbox_value,
  exec_value, health_value, stream_value, running, answering, open_terminal,
}

-- `json.Unmarshal` into the parameters of each method.
pub record Decoders : Type 0 where
  pub provision : Bytes → Result Failure ProvisionParams
  pub exec : Bytes → Result Failure ExecParams
  pub sandbox : Bytes → Result Failure String
  pub terminal : Bytes → Result Failure (String × String)
  pub resize : Bytes → Result Failure (ℕ × ℕ × ℕ)
  pub close : Bytes → Result Failure ℕ

-- What the provider answers at this moment; a nil error is `none`. `resize` takes the object of a
-- stream, for its PTY.
pub record Provider : Type 0 where
  pub provision : SandboxSpec → Result Failure String
  pub exec : String → String → List String → ExecOptions → Result Failure ExecResult
  pub destroy : String → Option Failure
  pub gc : Option Failure
  pub health : Health
  pub open_terminal : String → String → Option Failure
  pub resize : ℕ → ℕ → ℕ → Option Failure

abbrev pub plain : String → Failure
plain message = record {
  message = message;
  is_sandbox_not_found = false;
  is_node_not_found = false;
}

-- `decodeParams`; the error of the decoder is none of the runner's.
abbrev pub wrapped {ℓ} : {A : Type ℓ} → String → Result Failure A → Result Failure A
wrapped method (ok a) = ok a
wrapped method (err e) = err (record e {
  message = str_append "decode " (str_append method (str_append " params: " e.message));
})

unfoldable pub decode_params {ℓ} :
    {A : Type ℓ} → (Bytes → Result Failure A) → Call → Result Failure A
decode_params decode call = wrapped call.method (decode call.params)

abbrev pub failed : Failure → Answer
failed e = record { outcome = err e; after = none }

abbrev pub valued : Option Value → Answer
valued v = record { outcome = ok v; after = none }

abbrev pub nil_or : Option Failure → Answer
nil_or none = valued none
nil_or (some e) = failed e

-- `track`, `untrack` and `untrackAll`
unfoldable pub track : String → List String → List String
track sandbox all = if contains all sandbox then all else sandbox ∷ all

unfoldable pub untrack : String → List String → List String
untrack sandbox [] = []
untrack sandbox (s ∷ rest) =
    let others = untrack sandbox rest in if str_eq s sandbox then others else s ∷ others

abbrev pub tracking : String → Session → Session
tracking sandbox s = record s { sandboxes = track sandbox s.sandboxes }

abbrev pub untracking : String → Session → Session
untracking sandbox s = record s { sandboxes = untrack sandbox s.sandboxes }

abbrev pub untracking_all : Session → Session
untracking_all s = record s { sandboxes = [] }

abbrev pub provisioned : Result Failure String → Session → Answer × Session
provisioned (err e) s = (failed e, s)
provisioned (ok sandbox) s = (valued (some (sandbox_value sandbox)), tracking sandbox s)

abbrev pub executed : Result Failure ExecResult → Answer
executed (err e) = failed e
executed (ok result) = valued (some (exec_value result))

abbrev pub is_gone : Option Failure → Bool
is_gone none = true
is_gone (some e) = e.is_sandbox_not_found

abbrev pub destroyed : Option Failure → String → Session → Answer × Session
destroyed result sandbox s = (nil_or result, if is_gone result then untracking sandbox s else s)

abbrev pub collected : Option Failure → Session → Answer × Session
collected none s = (valued none, untracking_all s)
collected (some e) s = (failed e, s)

-- The error of `ctx.Err()`, and that of a session that is closed.
abbrev pub refusal : Bool → String
refusal true = "context canceled"
refusal false = "the connection to the control plane closed"

abbrev pub stream_opened : Bool → Option (ℕ × ℕ) × Session → Answer × Session
stream_opened is_cancelled (none, s) = (failed (plain (refusal is_cancelled)), s)
stream_opened is_cancelled (some (id, k), s) =
    (record { outcome = ok (some (stream_value id)); after = some (id, k) }, s)

-- `openTerminal`
abbrev pub terminal_from : Option Failure → Bool → Session → Answer × Session
terminal_from (some e) is_cancelled s = (failed e, s)
terminal_from none is_cancelled s = stream_opened is_cancelled (open_terminal is_cancelled s)

abbrev pub resized : Option ℕ → Provider → ℕ → ℕ → ℕ → Answer
resized none p id cols rows = failed (plain (str_append "no terminal stream " (decimal id)))
resized (some k) p id cols rows = nil_or (p.resize k cols rows)

abbrev pub provision_for : Result Failure ProvisionParams → Provider → Session → Answer × Session
provision_for (err e) p s = (failed e, s)
provision_for (ok params) p s =
    provisioned (p.provision (record (spec params) { progress = true })) s

abbrev pub exec_for : Result Failure ExecParams → Provider → Session → Answer × Session
exec_for (err e) p s = (failed e, s)
exec_for (ok params) p s =
    (executed (p.exec params.sandbox params.node params.cmd (options params)), s)

abbrev pub destroy_for : Result Failure String → Provider → Session → Answer × Session
destroy_for (err e) p s = (failed e, s)
destroy_for (ok sandbox) p s = destroyed (p.destroy sandbox) sandbox s

abbrev pub open_terminal_for :
    Result Failure (String × String) → Provider → Bool → Session → Answer × Session
open_terminal_for (err e) p is_cancelled s = (failed e, s)
open_terminal_for (ok (sandbox, node)) p is_cancelled s =
    terminal_from (p.open_terminal sandbox node) is_cancelled s

abbrev pub resize_for : Result Failure (ℕ × ℕ × ℕ) → Provider → Session → Answer × Session
resize_for (err e) p s = (failed e, s)
resize_for (ok (id, cols, rows)) p s = (resized (stream id s.streams) p id cols rows, s)

abbrev pub close_terminal_for : Result Failure ℕ → Session → Answer × Session
close_terminal_for (err e) s = (failed e, s)
close_terminal_for (ok id) s = (valued none, (close_stream id s).1)

-- The methods of `dispatch`.
pub data Method : Type 0 where
  provision_method exec_method destroy_method gc_method health_method : Method
  open_terminal_method resize_method close_terminal_method unknown_method : Method

abbrev pub method_of : String → Method
method_of name =
    if str_eq name "provision"
    then provision_method
    else if str_eq name "exec"
    then exec_method
    else if str_eq name "destroy"
    then destroy_method
    else if str_eq name "gc"
    then gc_method
    else if str_eq name "health"
    then health_method
    else if str_eq name "open_terminal"
    then open_terminal_method
    else if str_eq name "resize"
    then resize_method
    else if str_eq name "close_terminal"
    then close_terminal_method
    else unknown_method

abbrev pub answer_with : ℕ → Call → Answer × Session → Session
answer_with k call (answer, s) = record s { works = set k (answering call answer) s.works }

-- `strconv.Quote` is the parameter `quote`.
module _ (quote : String → String) (json : Decoders) where
  abbrev pub dispatch_as : Method → Provider → Bool → Call → Session → Answer × Session
  dispatch_as provision_method p is_cancelled call s =
      provision_for (decode_params json.provision call) p s
  dispatch_as exec_method p is_cancelled call s = exec_for (decode_params json.exec call) p s
  dispatch_as destroy_method p is_cancelled call s =
      destroy_for (decode_params json.sandbox call) p s
  dispatch_as gc_method p is_cancelled call s = collected p.gc s
  dispatch_as health_method p is_cancelled call s = (valued (some (health_value p.health)), s)
  dispatch_as open_terminal_method p is_cancelled call s =
      open_terminal_for (decode_params json.terminal call) p is_cancelled s
  dispatch_as resize_method p is_cancelled call s = resize_for (decode_params json.resize call) p s
  dispatch_as close_terminal_method p is_cancelled call s =
      close_terminal_for (decode_params json.close call) s
  dispatch_as unknown_method p is_cancelled call s =
      (failed (plain (str_append "unknown method " (quote call.method))), s)

  -- `dispatch`, for a provider that answers as `p`.
  unfoldable pub dispatch : Provider → Bool → Call → Session → Answer × Session
  dispatch p is_cancelled call s = dispatch_as (method_of call.method) p is_cancelled call s

  abbrev pub goes_on : Result Failure ProvisionParams → Bool
  goes_on (err e) = false
  goes_on (ok params) = true

  -- Whether the provider can report a step of this call.
  abbrev pub is_provision : Method → Call → Bool
  is_provision provision_method call = goes_on (decode_params json.provision call)
  is_provision _ call = false

  abbrev pub progress_for : Work → String → Bool → Session → Session
  progress_for (running call) step writes s =
      if is_provision (method_of call.method) call
      then send writes (progress_sent call.id step) s
      else s
  progress_for _ step writes s = s

  -- The callback `spec.Progress`.
  unfoldable pub report : ℕ → String → Bool → Session → Session
  report k step writes s = progress_for (s.works k) step writes s

  abbrev pub dispatch_for : Work → ℕ → Provider → Session → Session
  dispatch_for (running call) k p s =
      answer_with k call (dispatch p (s.ended || s.cancelled k) call s)
  dispatch_for _ k p s = s

  -- A goroutine of `start` comes back from `dispatch`.
  unfoldable pub work_dispatch : ℕ → Provider → Session → Session
  work_dispatch k p s = dispatch_for (s.works k) k p s
