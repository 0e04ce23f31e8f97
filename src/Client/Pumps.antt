-- ===== src/Client/Pumps.antt =====
-- The pumps of a terminal and its input, of internal/runnerclient/session.go.
use network_skill_lab.Prelude.{
  Bool, List, Option, Result, [], err, false, if◌then◌else◌, leb, length, ltb, none, ok, some, take,
  true, ℕ, ◌&&◌, ◌++◌, ◌^◌, ◌||◌, ◌∷◌,
}
use network_skill_lab.Content.Lab.{Bytes}
use network_skill_lab.Protocol.Frame.{FrameError, decode_stream_frame}
use network_skill_lab.Client.Session.{
  write, stream, on_terminal, close_stream, close_and_tell, Terminal, Session, frame_sent,
}

abbrev pub pty_buffer_size : ℕ
pty_buffer_size = 2 ^ 15

abbrev pub stop_output : ℕ → Session → Session
stop_output k s = on_terminal k (λ t. record t { pumps_output = false }) s

-- What `pumpOutput` does after it wrote what it read, or failed to.
abbrev pub output_written : Bool × Session → Bool → Bool → ℕ → ℕ → Session
output_written (false, s) fails tells id k = (close_stream id (stop_output k s)).1
output_written (true, s) true tells id k = close_and_tell tells id (stop_output k s)
output_written (true, s) false tells id k = s

-- One round of `pumpOutput`: the PTY gives `bytes`, and an error or not.
abbrev pub output_of : Bytes → Bool → Bool → Bool → ℕ → ℕ → Session → Session
output_of [] fails writes tells id k s = output_written (true, s) fails tells id k
output_of (b ∷ bs) fails writes tells id k s =
    output_written (write writes (frame_sent id (take pty_buffer_size (b ∷ bs))) s) fails tells id k

unfoldable pub pump_output : Bytes → Bool → Bool → Bool → ℕ → Session → Session
pump_output bytes fails writes tells k s =
    if (s.terminals k).pumps_output
    then output_of bytes fails writes tells (s.terminals k).number k s
    else s

-- One round of `pumpInput`: where the stream is done and a frame waits, `is_done_first` tells which
-- case the `select` takes.
abbrev pub input_round : Bool → Bool → List Bytes → Terminal → Terminal
input_round true fails queue t = record t { pumps_input = false }
input_round false fails [] t = t
input_round false true (frame ∷ rest) t = record t { input = rest; pumps_input = false }
input_round false false (frame ∷ rest) t = record t { input = rest }

abbrev pub takes_done : Bool → Terminal → Bool
takes_done is_done_first t = ltb 0 t.done && (is_done_first || leb (length t.input) 0)

unfoldable pub pump_input : Bool → Bool → ℕ → Session → Session
pump_input is_done_first fails k s =
    if (s.terminals k).pumps_input
    then on_terminal k
        (input_round (takes_done is_done_first (s.terminals k)) fails (s.terminals k).input) s
    else s

abbrev stream_input_frames : ℕ
stream_input_frames = 256

-- The cases of the `select` in `input`.
pub data Case : Type 0 where
  queued dropped refused : Case

abbrev pub select : Bool → Bool → Bool → Case
select true true is_done_first = if is_done_first then dropped else queued
select true false is_done_first = queued
select false true is_done_first = dropped
select false false is_done_first = refused

unfoldable pub input_case : Bool → Terminal → Case
input_case is_done_first t =
    select (ltb (length t.input) stream_input_frames) (ltb 0 t.done) is_done_first

abbrev pub take_input : Case → Bytes → Bool → ℕ → ℕ → Session → Session
take_input queued bytes tells id k s =
    on_terminal k (λ t. record t { input = t.input ++ bytes ∷ [] }) s
take_input dropped bytes tells id k s = s
take_input refused bytes tells id k s = close_and_tell tells id s

abbrev pub input_for : Option ℕ → ℕ → Bytes → Bool → Bool → Session → Session
input_for none id bytes is_done_first tells s = s
input_for (some k) id bytes is_done_first tells s =
    take_input (input_case is_done_first (s.terminals k)) bytes tells id k s

abbrev pub input_of : Result FrameError (ℕ × Bytes) → Bool → Bool → Session → Session
input_of (err e) is_done_first tells s = s
input_of (ok (id, bytes)) is_done_first tells s =
    input_for (stream id s.streams) id bytes is_done_first tells s

-- `input`; a malformed frame and one for an unknown stream are ignored.
unfoldable pub input : Bytes → Bool → Bool → Session → Session
input frame is_done_first tells s = input_of (decode_stream_frame frame) is_done_first tells s
