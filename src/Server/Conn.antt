-- ===== src/Server/Conn.antt =====
-- internal/runnerserver/conn.go: the calls and the terminals of one connection to a runner. A part of
-- a method under the mutex is one operation. The streams are objects with a number of their own,
-- since a terminal and the map of the connection share them.
use network_skill_lab.Prelude.{
  Bool, List, Option, Result, String, [], err, false, if◌then◌else◌, none, not, ok, set, some,
  str_eq, suc, true, ℕ, ◌%◌, ◌&&◌, ◌+◌, ◌==◌, ◌^◌, ◌∷◌,
}
use network_skill_lab.Content.Lab.{Bytes}
use network_skill_lab.Protocol.Frame.{FrameError, decode_stream_frame}
use network_skill_lab.Protocol.Failure.{Reply}
use network_skill_lab.Server.Stream.{Stream, new_stream}
use network_skill_lab.Server.Stream

-- What is given to the outbox of the connection, which may refuse it.
pub data Sent : Type 0 where
  call_sent : ℕ → String → Sent
  cancel_sent : ℕ → Sent
  close_terminal_sent : ℕ → Sent

-- `reply`, in the channel of the call with this id; `stream` is the object of the stream.
pub record Delivered : Type 0 where
  pub call : ℕ
  pub result : Reply
  pub stream : Option ℕ

-- `pending` holds the method of each call; `replies`, `steps` and `sent` hold the newest first.
pub record Conn : Type 0 where
  pub next_id : ℕ
  pub done : Bool
  pub pending : ℕ → Option String
  pub streams : ℕ → Option ℕ
  pub closed_streams : ℕ → Bool
  pub objects : ℕ → Option Stream
  pub next_object : ℕ
  pub replies : List Delivered
  pub steps : List (ℕ × String)
  pub sent : List Sent

unfoldable pub new_conn : Conn
new_conn = record {
  next_id = 0;
  done = false;
  pending = λ id. none;
  streams = λ id. none;
  closed_streams = λ id. false;
  objects = λ k. none;
  next_object = 0;
  replies = [];
  steps = [];
  sent = [];
}

-- `c.nextID.Add(1)` on `uint64`.
abbrev pub next_of : ℕ → ℕ
next_of n = (n + 1) % 2 ^ 64

abbrev pub start_call : Bool → Bool → ℕ → String → Conn → Option ℕ × Conn
start_call true sends id method c = (none, c)
start_call false false id method c = (none, record c { pending = set id none c.pending })
start_call false true id method c = (
  some id,
  record c { pending = set id (some method) c.pending; sent = call_sent id method ∷ c.sent },
)

-- The start of `roundTrip`: the id of the call, or `none` on a connection that is done. `sends` is
-- whether the outbox takes the call; a call that it does not take is forgotten at once.
unfoldable pub begin_call : String → Bool → Conn → Option ℕ × Conn
begin_call method sends c =
    let id = next_of c.next_id in start_call c.done sends id method (record c { next_id = id })

-- `notify` of a closed terminal, which needs an id too.
unfoldable pub notify_closed : ℕ → Conn → Conn
notify_closed number c = record c {
  next_id = next_of c.next_id;
  sent = close_terminal_sent number ∷ c.sent;
}

unfoldable pub forget : ℕ → Conn → Conn
forget id c = record c { pending = set id none c.pending }

abbrev pub open_as : Option ℕ → Conn → Option ℕ × Conn
open_as none c = (none, c)
open_as (some number) c = (
  some c.next_object,
  record c {
    streams = set number (some c.next_object) c.streams;
    objects = set c.next_object (some (new_stream number)) c.objects;
    next_object = suc c.next_object;
  },
)

-- `json.Unmarshal` into a `StreamResult` is the parameter `decode`.
module _ (decode : Option Bytes → Option ℕ) where
  -- `openStreamLocked`
  unfoldable pub open_stream : Reply → Conn → Option ℕ × Conn
  open_stream r c = open_as (decode r.value) c

  abbrev pub opened : Bool → Reply → Conn → Option ℕ × Conn
  opened true r c = open_stream r c
  opened false r c = (none, c)

  abbrev pub deliver : Reply → Option ℕ × Conn → Conn
  deliver r (k, c) = record c {
    replies = record { call = r.id; result = r; stream = k } ∷ c.replies;
  }

  abbrev pub result_of : Option String → Reply → Conn → Conn
  result_of none r c = c
  result_of (some method) r c =
      deliver r (opened (str_eq method "open_terminal" && r.is_ok) r (forget r.id c))

  -- `handleResult`. The reply is put in the channel of the call, which has room for one, right after the
  -- mutex is released; here it is with it.
  unfoldable pub handle_result : Reply → Conn → Conn
  handle_result r c = result_of (c.pending r.id) r c

abbrev pub progress_of : Option String → ℕ → String → Conn → Conn
progress_of none id step c = c
progress_of (some method) id step c = record c { steps = (id, step) ∷ c.steps }

-- `handleProgress`
unfoldable pub handle_progress : ℕ → String → Conn → Conn
handle_progress id step c = progress_of (c.pending id) id step c

abbrev pub set_object : ℕ → Stream → Conn → Conn
set_object k s c = record c { objects = set k (some s) c.objects }

abbrev pub is_open : Option ℕ → Bool
is_open none = false
is_open (some k) = true

abbrev pub notify_if : Bool → ℕ → Conn → Conn
notify_if true number c = notify_closed number c
notify_if false number c = c

abbrev pub unlisted : ℕ → Conn → Conn
unlisted number c = record c {
  streams = set number none c.streams;
  closed_streams = set number true c.closed_streams;
}

-- `closeStream`
unfoldable pub close_stream : ℕ → Conn → Conn
close_stream number c =
    notify_if (is_open (c.streams number) && not c.done) number (unlisted number c)

abbrev pub close_once : Bool → ℕ → Stream → Conn → Conn
close_once true k s c = c
close_once false k s c = close_stream s.number (set_object k (Stream.close s) c)

abbrev pub close_found : Option Stream → ℕ → Conn → Conn
close_found none k c = c
close_found (some s) k c = close_once s.closed k s c

-- `Close` of a stream, which does its work once.
unfoldable pub close_object : ℕ → Conn → Conn
close_object k c = close_found (c.objects k) k c

abbrev pub pushed : ℕ → Bool × Stream → Conn → Conn
pushed k (true, s) c = set_object k s c
pushed k (false, s) c = close_object k (set_object k s c)

abbrev pub push_found : Option Stream → ℕ → Bytes → Conn → Conn
push_found none k payload c = c
push_found (some s) k payload c = pushed k (Stream.push payload s) c

abbrev pub refuse_once : Bool → ℕ → Conn → Conn
refuse_once true number c = c
refuse_once false number c =
    notify_closed number (record c { closed_streams = set number true c.closed_streams })

abbrev pub frame_for : Option ℕ → ℕ → Bytes → Conn → Conn
frame_for (some k) number payload c = push_found (c.objects k) k payload c
frame_for none number payload c = refuse_once (c.closed_streams number) number c

abbrev pub frame_of : Result FrameError (ℕ × Bytes) → Conn → Conn
frame_of (err e) c = c
frame_of (ok (number, payload)) c = frame_for (c.streams number) number payload c

-- `handleFrame`; a malformed frame is ignored.
unfoldable pub handle_frame : Bytes → Conn → Conn
handle_frame frame c = frame_of (decode_stream_frame frame) c

abbrev pub end_found : Option Stream → ℕ → Conn → Conn
end_found none k c = c
end_found (some s) k c = set_object k (Stream.end s) c

abbrev pub end_object : Option ℕ → Conn → Conn
end_object none c = c
end_object (some k) c = end_found (c.objects k) k c

-- `handleStreamClosed`
unfoldable pub handle_stream_closed : ℕ → Conn → Conn
handle_stream_closed number c = end_object (c.streams number) (unlisted number c)

abbrev ended_if : Bool → Option Stream → Option Stream
ended_if is_registered none = none
ended_if is_registered (some s) = if is_registered then some (Stream.end s) else some s

abbrev holds : ℕ → Option ℕ → Bool
holds k none = false
holds k (some j) = j == k

abbrev registered : Conn → ℕ → Option Stream → Bool
registered c k none = false
registered c k (some s) = holds k (c.streams s.number)

-- `teardown`: the streams of the map end, and the calls are dropped.
unfoldable pub teardown : Conn → Conn
teardown c = record c {
  done = true;
  pending = λ id. none;
  streams = λ number. none;
  objects = λ k. ended_if (registered c k (c.objects k)) (c.objects k);
}

-- A caller whose context ends: `forget`, then `abandon` of a terminal that is in the channel, if
-- `k` is its object, and the message of the cancel.
unfoldable pub give_up : ℕ → Option ℕ → Conn → Conn
give_up id none c = let c' = forget id c in record c' { sent = cancel_sent id ∷ c'.sent }
give_up id (some k) c =
    let c' = close_object k (forget id c) in record c' { sent = cancel_sent id ∷ c'.sent }
