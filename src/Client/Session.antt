-- ===== src/Client/Session.antt =====
-- internal/runnerclient/session.go: the state of one session, what it writes, and its terminals. A
-- part of a method under the mutex is one operation. The terminals are objects with a number of
-- their own, since the pumps and the map of the session share them.
use network_skill_lab.Prelude.{
  Bool, List, Option, Result, String, [], false, if◌then◌else◌, none, set, some, suc, true, ℕ, ◌%◌,
  ◌+◌, ◌==◌, ◌^◌, ◌∷◌,
}
use network_skill_lab.Content.Lab.{Bytes}
use network_skill_lab.Protocol.Failure.{Failure, Reply}
use network_skill_lab.Protocol.Payload.{ExecResult, Health}

-- What has been written to the control plane, as the message or the frame it is encoded from.
pub data Sent : Type 0 where
  ping_sent : ℕ → Sent
  progress_sent : ℕ → String → Sent
  result_sent : Reply → Sent
  stream_closed_sent : ℕ → Sent
  frame_sent : ℕ → Bytes → Sent

-- `stream`, with how often its `done` and its PTY are closed, and which of its pumps run. `number` is
-- the id that `openTerminal` gave it.
pub record Terminal : Type 0 where
  pub number : ℕ
  pub input : List Bytes
  pub done : ℕ
  pub closes : ℕ
  pub pumps_output : Bool
  pub pumps_input : Bool

-- `runnerproto.Call`
pub record Call : Type 0 where
  pub id : ℕ
  pub method : String
  pub params : Bytes

-- The value of a result that is not nil.
pub data Value : Type 0 where
  sandbox_value : String → Value
  exec_value : ExecResult → Value
  health_value : Health → Value
  stream_value : ℕ → Value

-- What `dispatch` returns: the value or the error, and the stream whose pumps start afterwards.
pub record Answer : Type 0 where
  pub outcome : Result Failure (Option Value)
  pub after : Option (ℕ × ℕ)

-- How far the goroutine of a call is.
pub data Work : Type 0 where
  idle : Work
  running : Call → Work
  answering : Call → Answer → Work
  following : Call → Option (ℕ × ℕ) → Work
  finished : Work

-- `calls` leads from the id of a call to its goroutine, by whose number `cancelled` tells whether its
-- context is. `broken` is the socket after a write that failed, `ended` the context of `serve`. `streams`
-- holds the map's entries; `closing` the ids that `closeStreams` still has before it. `sandboxes` is
-- the client's, which outlives the session. `sent` holds the newest first.
pub record Session : Type 0 where
  pub calls : ℕ → Option ℕ
  pub works : ℕ → Work
  pub cancelled : ℕ → Bool
  pub next_work : ℕ
  pub streams : List (ℕ × ℕ)
  pub next_stream : ℕ
  pub closed : Bool
  pub closing : List ℕ
  pub ended : Bool
  pub terminals : ℕ → Terminal
  pub opened : ℕ
  pub sandboxes : List String
  pub broken : Bool
  pub sent : List Sent

abbrev pub no_terminal : Terminal
no_terminal = record {
  number = 0;
  input = [];
  done = 0;
  closes = 0;
  pumps_output = false;
  pumps_input = false;
}

-- `newSession`, with the sandboxes of the client.
unfoldable pub new_session : List String → Session
new_session sandboxes = record {
  calls = λ id. none;
  works = λ k. idle;
  cancelled = λ k. false;
  next_work = 0;
  streams = [];
  next_stream = 0;
  closed = false;
  closing = [];
  ended = false;
  terminals = λ k. no_terminal;
  opened = 0;
  sandboxes = sandboxes;
  broken = false;
  sent = [];
}

-- The outcome on a socket that is `broken`, or not.
abbrev pub written : Bool → Sent → Session → Bool × Session
written true m s = (false, s)
written false m s = (true, record s { sent = m ∷ s.sent })

-- `write`: whether it succeeds. A socket that a write failed on is closed, and takes no more.
unfoldable pub write : Bool → Sent → Session → Bool × Session
write true m s = written s.broken m s
write false m s = (false, record s { broken = true })

abbrev pub send : Bool → Sent → Session → Session
send writes m s = (write writes m s).1

-- `s.streams[id]`
unfoldable pub stream : ℕ → List (ℕ × ℕ) → Option ℕ
stream id [] = none
stream id ((n, k) ∷ rest) = if n == id then some k else stream id rest

-- `delete(s.streams, id)`; an id has one entry.
unfoldable pub without : ℕ → List (ℕ × ℕ) → List (ℕ × ℕ)
without id [] = []
without id ((n, k) ∷ rest) =
    let others = without id rest in if n == id then rest else (n, k) ∷ others

abbrev pub keys : List (ℕ × ℕ) → List ℕ
keys [] = []
keys ((n, k) ∷ rest) = n ∷ keys rest

abbrev pub on_terminal : ℕ → (Terminal → Terminal) → Session → Session
on_terminal k f s = record s { terminals = set k (f (s.terminals k)) s.terminals }

-- `_ = pty.Close()`
unfoldable pub close_pty : Terminal → Terminal
close_pty t = record t { closes = suc t.closes }

-- `close(st.done)` and `_ = st.pty.Close()`
unfoldable pub shut : Terminal → Terminal
shut t = record t { done = suc t.done; closes = suc t.closes }

abbrev pub shut_found : Option ℕ → Session → Bool × Session
shut_found none s = (false, s)
shut_found (some k) s = (true, on_terminal k shut s)

-- `closeStream`. What follows the mutex is done by the caller that removed the entry alone.
unfoldable pub close_stream : ℕ → Session → Bool × Session
close_stream id s = shut_found (stream id s.streams) (record s { streams = without id s.streams })

-- `if s.closeStream(id) { _ = s.send(…, StreamClosed{Stream: id}) }`
abbrev pub tell_if : Bool × Session → Bool → ℕ → Session
tell_if (true, s) tells id = send tells (stream_closed_sent id) s
tell_if (false, s) tells id = s

abbrev pub close_and_tell : Bool → ℕ → Session → Session
close_and_tell tells id s = tell_if (close_stream id s) tells id

-- The start of `closeStreams`, after the context of `serve` is cancelled: which ids it will close.
unfoldable pub begin_close : Session → Session
begin_close s = record s { ended = true; closed = true; closing = keys s.streams }

abbrev pub close_first : List ℕ → Session → Session
close_first [] s = s
close_first (id ∷ rest) s = (close_stream id (record s { closing = rest })).1

-- One round of the loop of `closeStreams`.
unfoldable pub close_next : Session → Session
close_next s = close_first s.closing s

-- `s.nextStream++` on `uint32`.
abbrev pub next_of : ℕ → ℕ
next_of n = (n + 1) % 2 ^ 32

abbrev pub new_terminal : ℕ → Terminal
new_terminal id = record no_terminal { number = id }

-- `openTerminal` once the provider has given it a PTY. The answer is the id and the object of the
-- stream, or nothing where the call is cancelled or the session has closed.
abbrev pub open_as : Bool → Bool → Session → Option (ℕ × ℕ) × Session
open_as true closed s = (
  none,
  record s { terminals = set s.opened (close_pty no_terminal) s.terminals; opened = suc s.opened },
)
open_as false true s = (
  none,
  record s { terminals = set s.opened (close_pty no_terminal) s.terminals; opened = suc s.opened },
)
open_as false false s =
    let id = next_of s.next_stream in
    (
      some (id, s.opened),
      record s {
        next_stream = id;
        streams = (id, s.opened) ∷ without id s.streams;
        terminals = set s.opened (new_terminal id) s.terminals;
        opened = suc s.opened;
      },
    )

unfoldable pub open_terminal : Bool → Session → Option (ℕ × ℕ) × Session
open_terminal is_cancelled s = open_as is_cancelled s.closed s

-- `after`
abbrev pub start_pumps : Terminal → Terminal
start_pumps t = record t { pumps_output = true; pumps_input = true }

unfoldable pub after : Option (ℕ × ℕ) → Session → Session
after none s = s
after (some (id, k)) s = on_terminal k start_pumps s
