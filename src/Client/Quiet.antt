-- ===== src/Client/Quiet.antt =====
-- That what a session does with its terminals keeps its log in order.
use network_skill_lab.Prelude.{
  Bool, List, Option, Result, [], ap, arith, err, false, if◌then◌else◌, inl, inr, none, ok, refl,
  set, set-elim, some, suc, sym, take, true, ℕ, ◌++◌, ◌∙◌, ◌∷◌, ◌≡◌,
}
use network_skill_lab.Content.Lab.{Bytes}
use network_skill_lab.Protocol.Frame.{FrameError, decode_stream_frame}
use network_skill_lab.Client.Session.{
  no_terminal, write, send, stream, without, on_terminal, close_pty, shut, shut_found, close_stream,
  tell_if, close_and_tell, close_first, close_next, next_of, new_terminal, open_as, open_terminal,
  Terminal, Value, Session, stream_closed_sent, frame_sent,
}
use network_skill_lab.Client.Pumps.{
  pty_buffer_size, stop_output, output_written, output_of, pump_output, input_round, takes_done,
  pump_input, input_case, take_input, input_for, input_of, input, Case, queued, dropped, refused,
}
use network_skill_lab.Client.Log.{
  Ordered, Known, Grows, Grows-refl, Grows-trans, put-Grows, send-Grows,
}

module _ (marshal : Value → Option Bytes) where
  pub on_terminal-Grows :
      (k : ℕ) (f : Terminal → Terminal) (s : Session)
      → ((t : Terminal) → (f t).number ≡ t.number)
      → ((t : Terminal) → (f t).pumps_output ≡ true → t.pumps_output ≡ true)
      → Grows marshal s (on_terminal k f s)
  on_terminal-Grows k f s number pumps = (
    refl,
    (
      λ h. h,
      λ id h. h,
      omega arith,
      λ j below.
          set-elim (λ t. t.number ≡ (s.terminals j).number) k j (f (s.terminals k)) s.terminals
            (λ e. number (s.terminals k) ∙ ap (λ i. (s.terminals i).number) e) refl,
      λ j.
          set-elim (λ t. t.pumps_output ≡ true → (s.terminals j).pumps_output ≡ true) k j
            (f (s.terminals k)) s.terminals
            (λ e on. sym (ap (λ i. (s.terminals i).pumps_output) e) ∙ pumps (s.terminals k) on)
            (λ on. on),
    ),
  )

  pub close_stream-Grows : (id : ℕ) (s : Session) → Grows marshal s ((close_stream id s).1)
  unfolding close_stream shut
  close_stream-Grows id s = found (stream id s.streams)
    where
      found :
          (o : Option ℕ)
          → Grows marshal s ((shut_found o (record s { streams = without id s.streams })).1)
      found none = Grows-refl marshal s
      found (some k) =
          on_terminal-Grows k shut (record s { streams = without id s.streams }) (λ t. refl)
            (λ t on. on)

  pub close_and_tell-Grows :
      (tells : Bool) (id : ℕ) (s : Session) → Grows marshal s (close_and_tell tells id s)
  close_and_tell-Grows tells id s = told (close_stream id s) (close_stream-Grows id s)
    where
      told : (p : Bool × Session) → Grows marshal s (p.1) → Grows marshal s (tell_if p tells id)
      told (true, t) g =
          Grows-trans marshal s t (send tells (stream_closed_sent id) t) g
            (send-Grows marshal tells (stream_closed_sent id) t refl)
      told (false, t) g = g

  pub close_next-Grows : (s : Session) → Grows marshal s (close_next s)
  unfolding close_next
  close_next-Grows s = round s.closing
    where
      round : (ids : List ℕ) → Grows marshal s (close_first ids s)
      round [] = Grows-refl marshal s
      round (id ∷ rest) = close_stream-Grows id (record s { closing = rest })

  -- A new terminal, whose pumps do not run.
  new-Grows :
      (t : Terminal) (s : Session)
      → t.pumps_output ≡ false
      → Grows marshal s (record s { terminals = set s.opened t s.terminals; opened = suc s.opened })
  new-Grows t s off = (
    refl,
    (
      λ h. h,
      λ id h. h,
      omega arith,
      λ j below.
          set-elim (λ u. u.number ≡ (s.terminals j).number) s.opened j t s.terminals
            (λ e. absurd (omega (arith, e, below))) refl,
      λ j.
          set-elim (λ u. u.pumps_output ≡ true → (s.terminals j).pumps_output ≡ true) s.opened j t
            s.terminals (λ e on. absurd (cc (off, on))) (λ on. on),
    ),
  )

  open_as-Grows : (c d : Bool) (s : Session) → Grows marshal s ((open_as c d s).1)
  unfolding close_pty
  open_as-Grows true d s = new-Grows (close_pty no_terminal) s refl
  open_as-Grows false true s = new-Grows (close_pty no_terminal) s refl
  open_as-Grows false false s = new-Grows (new_terminal (next_of s.next_stream)) s refl

  pub open_terminal-Grows :
      (is_cancelled : Bool) (s : Session) → Grows marshal s ((open_terminal is_cancelled s).1)
  unfolding open_terminal
  open_terminal-Grows is_cancelled s = open_as-Grows is_cancelled s.closed s

  pub pump_input-Grows :
      (is_done_first fails : Bool) (k : ℕ) (s : Session)
      → Grows marshal s (pump_input is_done_first fails k s)
  unfolding pump_input
  pump_input-Grows is_done_first fails k s = ran (s.terminals k).pumps_input
    where
      turned :
          (d : Bool) (fails' : Bool) (queue : List Bytes)
          → Grows marshal s (on_terminal k (input_round d fails' queue) s)
      turned true fails' queue =
          on_terminal-Grows k (input_round true fails' queue) s (λ t. refl) (λ t on. on)
      turned false fails' [] =
          on_terminal-Grows k (input_round false fails' []) s (λ t. refl) (λ t on. on)
      turned false true (b ∷ queue) =
          on_terminal-Grows k (input_round false true (b ∷ queue)) s (λ t. refl) (λ t on. on)
      turned false false (b ∷ queue) =
          on_terminal-Grows k (input_round false false (b ∷ queue)) s (λ t. refl) (λ t on. on)

      ran :
          (c : Bool)
          → Grows marshal s (
              if c
              then on_terminal k
                  (input_round
                    (takes_done is_done_first (s.terminals k))
                    fails
                    (s.terminals k).input)
                  s
              else s)
      ran true = turned (takes_done is_done_first (s.terminals k)) fails (s.terminals k).input
      ran false = Grows-refl marshal s

  pub input-Grows :
      (frame : Bytes) (is_done_first tells : Bool) (s : Session)
      → Grows marshal s (input frame is_done_first tells s)
  unfolding input
  input-Grows frame is_done_first tells s = decoded (decode_stream_frame frame)
    where
      taken :
          (c : Case) (bytes : Bytes) (id k : ℕ) → Grows marshal s (take_input c bytes tells id k s)
      taken queued bytes id k =
          on_terminal-Grows k (λ t. record t { input = t.input ++ bytes ∷ [] }) s (λ t. refl)
            (λ t on. on)
      taken dropped bytes id k = Grows-refl marshal s
      taken refused bytes id k = close_and_tell-Grows tells id s

      found :
          (o : Option ℕ) (id : ℕ) (bytes : Bytes)
          → Grows marshal s (input_for o id bytes is_done_first tells s)
      found none id bytes = Grows-refl marshal s
      found (some k) id bytes = taken (input_case is_done_first (s.terminals k)) bytes id k

      decoded :
          (r : Result FrameError (ℕ × Bytes)) → Grows marshal s (input_of r is_done_first tells s)
      decoded (err e) = Grows-refl marshal s
      decoded (ok (id, bytes)) = found (stream id s.streams) id bytes

  stop_output-Grows : (k : ℕ) (s : Session) → Grows marshal s (stop_output k s)
  stop_output-Grows k s =
      on_terminal-Grows k (λ t. record t { pumps_output = false }) s (λ t. refl)
        (λ t on. absurd (cc))

  output_written-Grows :
      (p : Bool × Session) (fails tells : Bool) (id k : ℕ)
      → Grows marshal (p.1) (output_written p fails tells id k)
  output_written-Grows (false, s) fails tells id k =
      Grows-trans marshal s (stop_output k s) ((close_stream id (stop_output k s)).1)
        (stop_output-Grows k s) (close_stream-Grows id (stop_output k s))
  output_written-Grows (true, s) true tells id k =
      Grows-trans marshal s (stop_output k s) (close_and_tell tells id (stop_output k s))
        (stop_output-Grows k s) (close_and_tell-Grows tells id (stop_output k s))
  output_written-Grows (true, s) false tells id k = Grows-refl marshal s

  output_of-Grows :
      (bytes : Bytes) (fails writes tells : Bool) (id k : ℕ) (s : Session)
      → Known marshal s id
      → Grows marshal s (output_of bytes fails writes tells id k s)
  output_of-Grows [] fails writes tells id k s known =
      output_written-Grows (true, s) fails tells id k
  output_of-Grows (b ∷ bs) fails writes tells id k s known =
      let m = frame_sent id (take pty_buffer_size (b ∷ bs)) in
      Grows-trans marshal s (send writes m s) (output_written (write writes m s) fails tells id k)
        (put-Grows marshal writes m s (fits known))
        (output_written-Grows (write writes m s) fails tells id k)
    where
      fits :
          Known marshal s id
          → s.broken ≡ false
          → Ordered marshal s.sent
          → Ordered marshal (frame_sent id (take pty_buffer_size (b ∷ bs)) ∷ s.sent)
      fits (inl broken) e o = absurd (cc (broken, e))
      fits (inr announced) e o = (announced, o)

  pub pump_output-Grows :
      (bytes : Bytes) (fails writes tells : Bool) (k : ℕ) (s : Session)
      → ((s.terminals k).pumps_output ≡ true → Known marshal s (s.terminals k).number)
      → Grows marshal s (pump_output bytes fails writes tells k s)
  unfolding pump_output
  pump_output-Grows bytes fails writes tells k s known = ran (s.terminals k).pumps_output refl
    where
      ran :
          (c : Bool)
          → (s.terminals k).pumps_output ≡ c
          → Grows marshal s
              (if c then output_of bytes fails writes tells (s.terminals k).number k s else s)
      ran true on = output_of-Grows bytes fails writes tells (s.terminals k).number k s (known on)
      ran false on = Grows-refl marshal s
