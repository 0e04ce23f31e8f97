-- ===== src/Server/Outbox.antt =====
-- internal/runnerserver/outbox.go: the frames that wait to be written to a runner. A method holds the
-- mutex from its start to its end. `int` is a natural number here: `bytes` stays at most at
-- `max_bytes`, and the length of a slice is below 2 ^ 62, so no sum wraps; that no difference is
-- negative follows from `IsCounted` in Server.Fifo.
use network_skill_lab.Prelude.{
  Bool, List, Option, [], false, if◌then◌else◌, length, ltb, none, some, true, ℕ, ◌++◌, ◌+◌, ◌-◌,
  ◌||◌, ◌∷◌,
}
use network_skill_lab.Content.Lab.{Bytes}

abbrev pub max_outbox_frames : ℕ
max_outbox_frames = 4096

-- `websocket.MessageType`
pub data Kind : Type 0 where
  text binary : Kind

pub record Frame : Type 0 where
  pub kind : Kind
  pub payload : Bytes

pub data SendError : Type 0 where
  outbox_full outbox_closed : SendError

-- `queue` is what the channel holds, the next frame first; `writing` is the frame that `run` has
-- taken and not counted as written yet; `wire` holds the frames whose write has ended, the last first.
pub record Outbox : Type 0 where
  pub queue : List Frame
  pub max_bytes : ℕ
  pub bytes : ℕ
  pub count : ℕ
  pub closed : Bool
  pub writing : Option Frame
  pub wire : List Frame

unfoldable pub new_outbox : ℕ → Outbox
new_outbox max_bytes = record {
  queue = [];
  max_bytes = max_bytes;
  bytes = 0;
  count = 0;
  closed = false;
  writing = none;
  wire = [];
}

-- The test of `send` for a frame that is too much.
unfoldable pub overflows : ℕ → Outbox → Bool
overflows size o = ltb max_outbox_frames (o.count + 1) || ltb o.max_bytes (o.bytes + size)

unfoldable pub send : Frame → Outbox → Option SendError × Outbox
unfolding overflows
send f o =
    if o.closed
    then (some outbox_closed, o)
    else if overflows (length f.payload) o
    then (some outbox_full, record o { closed = true })
    else (
      none,
      record o {
        count = o.count + 1;
        bytes = o.bytes + length f.payload;
        queue = o.queue ++ f ∷ [];
      },
    )

unfoldable pub finish : Outbox → Outbox
finish o = record o { closed = true }

-- One round of `run` is in two steps: it takes a frame from the channel, which also a closed one
-- gives out, and after the write counts it as written.
abbrev pub taken : List Frame → Option Frame → Outbox → Outbox
taken (f ∷ queue) none o = record o { queue = queue; writing = some f }
taken _ _ o = o

unfoldable pub take_frame : Outbox → Outbox
take_frame o = taken o.queue o.writing o

abbrev pub written_as : Option Frame → Outbox → Outbox
written_as none o = o
written_as (some f) o = record o {
  count = o.count - 1;
  bytes = o.bytes - length f.payload;
  writing = none;
  wire = f ∷ o.wire;
}

-- `written`, behind the write to the socket.
unfoldable pub written : Outbox → Outbox
written o = written_as o.writing o
