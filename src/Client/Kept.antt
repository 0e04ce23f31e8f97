-- ===== src/Client/Kept.antt =====
-- That every operation of a session keeps the account of its terminals.
use network_skill_lab.Prelude.{
  Bool, List, Option, Result, [], ap, arith, err, false, if◌then◌else◌, none, ok, refl, some, take,
  true, ℕ, ◌++◌, ◌==◌, ◌∷◌, ◌≡◌,
}
use network_skill_lab.Content.Lab.{Bytes}
use network_skill_lab.Protocol.Frame.{FrameError, decode_stream_frame}
use network_skill_lab.Client.Session.{
  after, written, write, send, stream, on_terminal, close_stream, tell_if, close_and_tell,
  start_pumps, Sent, Terminal, Session, stream_closed_sent, frame_sent,
}
use network_skill_lab.Client.Pumps.{
  pty_buffer_size, stop_output, output_written, output_of, pump_output, input_round, takes_done,
  pump_input, input_case, take_input, input_for, input_of, input, Case, queued, dropped, refused,
}
use network_skill_lab.Client.Ledger.{
  Same, Same-refl, Same-Inv, if-closes, if-done, close_stream-Inv, InvOf,
}

written-Same : (b : Bool) (m : Sent) (s : Session) → Same s ((written b m s).1)
written-Same true m s = Same-refl s
written-Same false m s = Same-refl s

pub write-Same : (writes : Bool) (m : Sent) (s : Session) → Same s (send writes m s)
unfolding write
write-Same true m s = written-Same s.broken m s
write-Same false m s = Same-refl s

pub on_terminal-Same :
    (k : ℕ) (f : Terminal → Terminal) (s : Session)
    → ((t : Terminal) → (f t).closes ≡ t.closes)
    → ((t : Terminal) → (f t).done ≡ t.done)
    → Same s (on_terminal k f s)
on_terminal-Same k f s closes done = (
  refl,
  refl,
  refl,
  refl,
  refl,
  λ j.
      let same : k ≡ j → (s.terminals k).closes ≡ (s.terminals j).closes =
        ap (λ i. (s.terminals i).closes) in
      ground (
        arith,
        if-closes (k == j) (f (s.terminals k)) (s.terminals j),
        closes (s.terminals k),
        same,
      ),
  λ j.
      let same : k ≡ j → (s.terminals k).done ≡ (s.terminals j).done =
        ap (λ i. (s.terminals i).done) in
      ground
        (arith, if-done (k == j) (f (s.terminals k)) (s.terminals j), done (s.terminals k), same),
)

module _ (n : ℕ) where
  pub send-Inv : (writes : Bool) (m : Sent) (s : Session) → InvOf n s → InvOf n (send writes m s)
  send-Inv writes m s v = Same-Inv n s (send writes m s) (write-Same writes m s) v

  changed-Inv :
      (k : ℕ) (f : Terminal → Terminal) (s : Session)
      → ((t : Terminal) → (f t).closes ≡ t.closes)
      → ((t : Terminal) → (f t).done ≡ t.done)
      → InvOf n s
      → InvOf n (on_terminal k f s)
  changed-Inv k f s closes done v =
      Same-Inv n s (on_terminal k f s) (on_terminal-Same k f s closes done) v

  told-Inv :
      (p : Bool × Session) (tells : Bool) (id : ℕ) → InvOf n (p.1) → InvOf n (tell_if p tells id)
  told-Inv (true, s) tells id v = send-Inv tells (stream_closed_sent id) s v
  told-Inv (false, s) tells id v = v

  close_and_tell-Inv :
      (tells : Bool) (id : ℕ) (s : Session) → InvOf n s → InvOf n (close_and_tell tells id s)
  close_and_tell-Inv tells id s v =
      told-Inv (close_stream id s) tells id (close_stream-Inv n id s v)

  stop_output-Inv : (k : ℕ) (s : Session) → InvOf n s → InvOf n (stop_output k s)
  stop_output-Inv k s v =
      changed-Inv k (λ t. record t { pumps_output = false }) s (λ t. refl) (λ t. refl) v

  output_written-Inv :
      (p : Bool × Session) (fails tells : Bool) (id k : ℕ)
      → InvOf n (p.1)
      → InvOf n (output_written p fails tells id k)
  output_written-Inv (false, s) fails tells id k v = close_stream-Inv n id _ (stop_output-Inv k s v)
  output_written-Inv (true, s) true tells id k v =
      close_and_tell-Inv tells id _ (stop_output-Inv k s v)
  output_written-Inv (true, s) false tells id k v = v

  output_of-Inv :
      (bytes : Bytes) (fails writes tells : Bool) (id k : ℕ) (s : Session)
      → InvOf n s
      → InvOf n (output_of bytes fails writes tells id k s)
  output_of-Inv [] fails writes tells id k s v = output_written-Inv (true, s) fails tells id k v
  output_of-Inv (b ∷ bs) fails writes tells id k s v =
      output_written-Inv (write writes (frame_sent id (take pty_buffer_size (b ∷ bs))) s) fails
        tells id k (send-Inv writes (frame_sent id (take pty_buffer_size (b ∷ bs))) s v)

  if-Inv : (c : Bool) (t s : Session) → InvOf n t → InvOf n s → InvOf n (if c then t else s)
  if-Inv true t s h g = h
  if-Inv false t s h g = g

  pub pump_output-Inv :
      (bytes : Bytes) (fails writes tells : Bool) (k : ℕ) (s : Session)
      → InvOf n s
      → InvOf n (pump_output bytes fails writes tells k s)
  unfolding pump_output
  pump_output-Inv bytes fails writes tells k s v =
      if-Inv (s.terminals k).pumps_output _ s
        (output_of-Inv bytes fails writes tells (s.terminals k).number k s v) v

  pub pump_input-Inv :
      (is_done_first fails : Bool) (k : ℕ) (s : Session)
      → InvOf n s
      → InvOf n (pump_input is_done_first fails k s)
  unfolding pump_input
  pump_input-Inv is_done_first fails k s v =
      if-Inv (s.terminals k).pumps_input _ s
        (turned (takes_done is_done_first (s.terminals k)) fails (s.terminals k).input) v
    where
      turned :
          (d fails' : Bool) (queue : List Bytes)
          → InvOf n (on_terminal k (input_round d fails' queue) s)
      turned true fails' queue =
          changed-Inv k (input_round true fails' queue) s (λ t. refl) (λ t. refl) v
      turned false fails' [] =
          changed-Inv k (input_round false fails' []) s (λ t. refl) (λ t. refl) v
      turned false true (b ∷ queue) =
          changed-Inv k (input_round false true (b ∷ queue)) s (λ t. refl) (λ t. refl) v
      turned false false (b ∷ queue) =
          changed-Inv k (input_round false false (b ∷ queue)) s (λ t. refl) (λ t. refl) v

  pub input-Inv :
      (frame : Bytes) (is_done_first tells : Bool) (s : Session)
      → InvOf n s
      → InvOf n (input frame is_done_first tells s)
  unfolding input
  input-Inv frame is_done_first tells s v = decoded (decode_stream_frame frame)
    where
      taken : (c : Case) (bytes : Bytes) (id k : ℕ) → InvOf n (take_input c bytes tells id k s)
      taken queued bytes id k =
          Same-Inv n s _
            (on_terminal-Same k (λ t. record t { input = t.input ++ bytes ∷ [] }) s (λ t. refl)
              (λ t. refl))
            v
      taken dropped bytes id k = v
      taken refused bytes id k = close_and_tell-Inv tells id s v

      found :
          (o : Option ℕ) (id : ℕ) (bytes : Bytes)
          → InvOf n (input_for o id bytes is_done_first tells s)
      found none id bytes = v
      found (some k) id bytes = taken (input_case is_done_first (s.terminals k)) bytes id k

      decoded : (r : Result FrameError (ℕ × Bytes)) → InvOf n (input_of r is_done_first tells s)
      decoded (err e) = v
      decoded (ok (id, bytes)) = found (stream id s.streams) id bytes

  pub after-Inv : (o : Option (ℕ × ℕ)) (s : Session) → InvOf n s → InvOf n (after o s)
  unfolding after
  after-Inv none s v = v
  after-Inv (some (id, k)) s v = changed-Inv k start_pumps s (λ t. refl) (λ t. refl) v
