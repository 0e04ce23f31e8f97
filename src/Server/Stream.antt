-- ===== src/Server/Stream.antt =====
-- internal/runnerserver/pty.go: the buffer of a terminal on the server.
use network_skill_lab.Prelude.{
  Bool, [], drop, false, if◌then◌else◌, length, ltb, take, true, ℕ, ◌++◌, ◌+◌, ◌^◌, ◌||◌, ◌∷◌,
}
use network_skill_lab.Content.Lab.{Bytes}

abbrev pub max_stream_buffer : ℕ
max_stream_buffer = 2 ^ 20

-- `number` is the id of the stream on its connection.
pub record Stream : Type 0 where
  pub number : ℕ
  pub buf : Bytes
  pub ended : Bool
  pub closed : Bool

unfoldable pub new_stream : ℕ → Stream
new_stream number = record { number = number; buf = []; ended = false; closed = false }

-- The answer is false where the reader cannot keep up.
unfoldable pub push : Bytes → Stream → Bool × Stream
push payload s =
    if s.closed || s.ended
    then (true, s)
    else if ltb max_stream_buffer (length s.buf + length payload)
    then (false, s)
    else (true, record s { buf = s.buf ++ payload })

abbrev pub end : Stream → Stream
end s = record s { ended = true }

-- What `Read` with a slice of `n` bytes comes to: it waits, it meets the end, or it has bytes.
pub data ReadResult : Type 0 where
  waits eof : ReadResult
  got : Bytes → ReadResult

abbrev drained : ℕ → Bytes → Stream → ReadResult × Stream
drained n [] s = if s.ended then (eof, s) else (waits, s)
drained n (b ∷ bs) s = (got (take n (b ∷ bs)), record s { buf = drop n (b ∷ bs) })

unfoldable pub read : ℕ → Stream → ReadResult × Stream
read n s = if s.closed then (eof, s) else drained n s.buf s

-- What `Write` asks before it sends a frame.
unfoldable pub is_gone : Stream → Bool
is_gone s = s.closed || s.ended

-- `Close`, less its call of `closeStream`.
abbrev pub close : Stream → Stream
close s = record s { closed = true; buf = [] }
