-- ===== src/Server/Keeps.antt =====
-- What the operations on streams leave alone: the calls and their replies.
use network_skill_lab.Prelude.{
  Bool, List, Option, Result, [], ap, err, false, if◌then◌else◌, inl, inr, none, ok, refl, set,
  some, true, ℕ, ◌+◌, ◌==◌, ◌∷◌, ◌≡◌, ◌⊎◌,
}
use network_skill_lab.Content.Lab.{Bytes}
use network_skill_lab.Protocol.Frame.{FrameError, decode_stream_frame}
use network_skill_lab.Server.Stream.{Stream}
use network_skill_lab.Server.Stream
use network_skill_lab.Server.Conn.{
  next_of, notify_closed, close_stream, close_object, Conn, notify_if, unlisted, close_once,
  close_found, pushed, frame_for, handle_frame, handle_stream_closed, set_object, push_found,
  frame_of, end_found, refuse_once, end_object, Sent, call_sent, cancel_sent, close_terminal_sent,
}

-- How many of the messages are calls with this id.
abbrev pub calls_to : ℕ → List Sent → ℕ
calls_to id [] = 0
calls_to id (call_sent n method ∷ rest) = (if n == id then 1 else 0) + calls_to id rest
calls_to id (cancel_sent n ∷ rest) = calls_to id rest
calls_to id (close_terminal_sent n ∷ rest) = calls_to id rest

abbrev pub Keeps : Conn → Conn → Type 0
Keeps c c' =
    (c'.pending ≡ c.pending)
    × (c'.replies ≡ c.replies)
    × ((id : ℕ) → calls_to id c'.sent ≡ calls_to id c.sent)
    × ((c'.next_id ≡ c.next_id) ⊎ (c'.next_id ≡ next_of c.next_id))

unmoved : (c : Conn) → Keeps c c
unmoved c = (refl, refl, (λ id. refl), inl refl)

notify_if-Keeps :
    (tells : Bool) (number : ℕ) (c c' : Conn)
    → Keeps c c'
    → c'.next_id ≡ c.next_id
    → Keeps c (notify_if tells number c')
unfolding notify_closed
notify_if-Keeps true number c c' (p, r, s, d) e = (p, r, s, inr (ap next_of e))
notify_if-Keeps false number c c' k e = k

pub close_stream-Keeps : (number : ℕ) (c : Conn) → Keeps c (close_stream number c)
unfolding close_stream
close_stream-Keeps number c = notify_if-Keeps _ number c (unlisted number c) (unmoved c) refl

close_once-Keeps : (done : Bool) (k : ℕ) (s : Stream) (c : Conn) → Keeps c (close_once done k s c)
close_once-Keeps true k s c = unmoved c
close_once-Keeps false k s c = close_stream-Keeps s.number (set_object k (Stream.close s) c)

pub close_object-Keeps : (k : ℕ) (c : Conn) → Keeps c (close_object k c)
unfolding close_object
close_object-Keeps k c = found (c.objects k)
  where
    found : (o : Option Stream) → Keeps c (close_found o k c)
    found none = unmoved c
    found (some s) = close_once-Keeps s.closed k s c

pushed-Keeps : (k : ℕ) (p : Bool × Stream) (c : Conn) → Keeps c (pushed k p c)
pushed-Keeps k (true, s) c = unmoved c
pushed-Keeps k (false, s) c = close_object-Keeps k (set_object k s c)

frame_for-Keeps :
    (o : Option ℕ) (number : ℕ) (payload : Bytes) (c : Conn)
    → Keeps c (frame_for o number payload c)
frame_for-Keeps (some k) number payload c = found (c.objects k)
  where
    found : (o : Option Stream) → Keeps c (push_found o k payload c)
    found none = unmoved c
    found (some s) = pushed-Keeps k (Stream.push payload s) c
frame_for-Keeps none number payload c = refused (c.closed_streams number)
  where
    refused : (b : Bool) → Keeps c (refuse_once b number c)
    refused true = unmoved c
    refused false =
        notify_if-Keeps true number c
          (record c { closed_streams = set number true c.closed_streams }) (unmoved c) refl

pub handle_frame-Keeps : (frame : Bytes) (c : Conn) → Keeps c (handle_frame frame c)
unfolding handle_frame
handle_frame-Keeps frame c = decoded (decode_stream_frame frame)
  where
    decoded : (r : Result FrameError (ℕ × Bytes)) → Keeps c (frame_of r c)
    decoded (err e) = unmoved c
    decoded (ok (number, payload)) = frame_for-Keeps (c.streams number) number payload c

pub handle_stream_closed-Keeps : (number : ℕ) (c : Conn) → Keeps c (handle_stream_closed number c)
unfolding handle_stream_closed
handle_stream_closed-Keeps number c = listed (c.streams number)
  where
    found : (o : Option Stream) (k : ℕ) → Keeps c (end_found o k (unlisted number c))
    found none k = unmoved c
    found (some s) k = unmoved c

    listed : (o : Option ℕ) → Keeps c (end_object o (unlisted number c))
    listed none = unmoved c
    listed (some k) = found (c.objects k) k
