-- ===== src/Server/Fifo.antt =====
-- The outbox as a queue: what it counts, and that it gives out the frames that it took, in order.
use network_skill_lab.Prelude.{
  Bool-cases, List, Option, [], ap, arith, inl, inr, length, length-append, none, refl, some, sym,
  ℕ, ◌++◌, ◌+◌, ◌∙◌, ◌∷◌, ◌≡◌, ◌≤◌,
}
use mathlib.Core.List.{reverse, reverse-cons, append_assoc, append-nil}
use network_skill_lab.Server.Outbox.{
  overflows, taken, written_as, max_outbox_frames, send, take_frame, written, Frame, Outbox, finish,
  new_outbox, SendError,
}

abbrev pub sizes : List Frame → ℕ
sizes [] = 0
sizes (f ∷ fs) = length f.payload + sizes fs

abbrev pub in_flight : Option Frame → List Frame
in_flight none = []
in_flight (some f) = f ∷ []

-- The counters are those of the frames that wait or are being written, and within the limits.
pub record IsCounted (o : Outbox) : Type 0 where
  pub frames : o.count ≡ length o.queue + length (in_flight o.writing)
  pub total : o.bytes ≡ sizes o.queue + sizes (in_flight o.writing)
  pub room : o.count ≤ max_outbox_frames
  pub fits : o.bytes ≤ o.max_bytes

sizes-append : (xs ys : List Frame) → sizes (xs ++ ys) ≡ sizes xs + sizes ys
sizes-append [] ys = omega arith
sizes-append (x ∷ xs) ys = omega (arith, sizes-append xs ys)

send-IsCounted : (f : Frame) (o : Outbox) → IsCounted o → IsCounted (send f o).1
unfolding send
send-IsCounted f o v = ground (arith, length-append o.queue (f ∷ []), sizes-append o.queue (f ∷ []))

take_frame-IsCounted : (o : Outbox) → IsCounted o → IsCounted (take_frame o)
unfolding take_frame
take_frame-IsCounted o v = ground arith

written-IsCounted : (o : Outbox) → IsCounted o → IsCounted (written o)
unfolding written
written-IsCounted o v = ground arith

-- The steps of the goroutines that share an outbox, in any order.
pub data Step : Type 0 where
  sends : Frame → Step
  finishes takes writes : Step

abbrev pub step : Step → Outbox → Outbox
step (sends f) o = (send f o).1
step finishes o = finish o
step takes o = take_frame o
step writes o = written o

abbrev pub run : List Step → Outbox → Outbox
run [] o = o
run (s ∷ steps) o = run steps (step s o)

step-IsCounted : (s : Step) (o : Outbox) → IsCounted o → IsCounted (step s o)
unfolding finish
step-IsCounted (sends f) o v = send-IsCounted f o v
step-IsCounted finishes o v = ground arith
step-IsCounted takes o v = take_frame-IsCounted o v
step-IsCounted writes o v = written-IsCounted o v

run-IsCounted : (steps : List Step) (o : Outbox) → IsCounted o → IsCounted (run steps o)
run-IsCounted [] o v = v
run-IsCounted (s ∷ steps) o v = run-IsCounted steps (step s o) (step-IsCounted s o v)

new_outbox-IsCounted : (max_bytes : ℕ) → IsCounted (new_outbox max_bytes)
unfolding new_outbox
new_outbox-IsCounted max_bytes = ground arith

new_outbox-max : (max_bytes : ℕ) → (new_outbox max_bytes).max_bytes ≡ max_bytes
unfolding new_outbox
new_outbox-max max_bytes = refl

step-max_bytes : (s : Step) (o : Outbox) → (step s o).max_bytes ≡ o.max_bytes
unfolding send finish take_frame written
step-max_bytes (sends f) o = ground arith
step-max_bytes finishes o = ground arith
step-max_bytes takes o = ground arith
step-max_bytes writes o = ground arith

run-max_bytes : (steps : List Step) (o : Outbox) → (run steps o).max_bytes ≡ o.max_bytes
run-max_bytes [] o = refl
run-max_bytes (s ∷ steps) o = run-max_bytes steps (step s o) ∙ step-max_bytes s o

-- After any steps from a new outbox, the counters are those of the frames that wait or are being
-- written; no more frames wait than the channel holds, so `send` never blocks on it; and their bytes
-- are within the limit that the outbox was made with.
pub outbox_bounds :
    (max_bytes : ℕ) (steps : List Step)
    → let o = run steps (new_outbox max_bytes) in
      IsCounted o × (length o.queue ≤ max_outbox_frames) × (o.bytes ≤ max_bytes)
outbox_bounds max_bytes steps =
    let v = run-IsCounted steps (new_outbox max_bytes) (new_outbox-IsCounted max_bytes) in
    (
      v,
      omega (arith, v.frames, v.room),
      omega (arith, v.fits, run-max_bytes steps (new_outbox max_bytes), new_outbox-max max_bytes),
    )

-- The frames that `send` took in the course of some steps, the first one first.
abbrev pub taken_in : Frame → Option SendError → List Frame
taken_in f none = f ∷ []
taken_in f (some e) = []

abbrev pub accepted : List Step → Outbox → List Frame
accepted [] o = []
accepted (sends f ∷ steps) o = taken_in f (send f o).0 ++ accepted steps (send f o).1
accepted (s ∷ steps) o = accepted steps (step s o)

-- All that an outbox has taken and not lost: what is written, being written, and waiting.
abbrev pub history : Outbox → List Frame
history o = reverse o.wire ++ (in_flight o.writing ++ o.queue)

send-history :
    (f : Frame) (o : Outbox) → history (send f o).1 ≡ history o ++ taken_in f (send f o).0
unfolding send
send-history f o = elim (Bool-cases o.closed) [
  | inl e ↦ simp (e, append-nil)
  | inr e ↦ elim (Bool-cases (overflows (length f.payload) o)) [
    | inl g ↦ simp (e, g, append-nil)
    | inr g ↦ simp (e, g, append_assoc)
  ]
]

taken-history :
    (queue : List Frame) (writing : Option Frame) (o : Outbox)
    → o.queue ≡ queue
    → o.writing ≡ writing
    → history (taken queue writing o) ≡ history o
taken-history [] writing o q w = refl
taken-history (f ∷ queue) none o q w = simp (q, w)
taken-history (f ∷ queue) (some g) o q w = refl

written_as-history :
    (writing : Option Frame) (o : Outbox)
    → o.writing ≡ writing
    → history (written_as writing o) ≡ history o
written_as-history none o w = refl
written_as-history (some f) o w = simp (w, reverse-cons, append_assoc)

step-history :
    (s : Step) (steps : List Step) (o : Outbox)
    → history (step s o) ++ accepted steps (step s o) ≡ history o ++ accepted (s ∷ steps) o
unfolding finish take_frame written
step-history (sends f) steps o =
    rw (send-history f o) (append_assoc (history o) (taken_in f (send f o).0) _)
step-history finishes steps o = refl
step-history takes steps o =
    ap (λ h. h ++ accepted steps (step takes o)) (taken-history o.queue o.writing o refl refl)
step-history writes steps o =
    ap (λ h. h ++ accepted steps (step writes o)) (written_as-history o.writing o refl)

run-history :
    (steps : List Step) (o : Outbox) → history (run steps o) ≡ history o ++ accepted steps o
run-history [] o = sym (append-nil (history o))
run-history (s ∷ steps) o = run-history steps (step s o) ∙ step-history s steps o

-- After any steps from a new outbox, what was given to the socket, then the frame that is being
-- written, then those that wait, are exactly the frames that `send` accepted, in this order.
pub outbox_fifo :
    (max_bytes : ℕ) (steps : List Step)
    → history (run steps (new_outbox max_bytes)) ≡ accepted steps (new_outbox max_bytes)
unfolding new_outbox
outbox_fifo max_bytes steps = run-history steps (new_outbox max_bytes)
