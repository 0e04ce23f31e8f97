-- ===== src/Attempt/Deliver.antt =====
-- What a subscriber of the bus sees.
use network_skill_lab.Prelude.{
  All, Bool, List, String, [], ap, arith, false, length, length-append, ltb, map, refl, str_eq,
  subst, sym, true, ℕ, ◌&&◌, ◌++◌, ◌==◌, ◌||◌, ◌∙◌, ◌∷◌, ◌≡◌, ◌≤◌,
}
use mathlib.Core.List.{reverse, reverse-cons, reverse-append, append_assoc}
use network_skill_lab.Attempt.World.{Event}
use network_skill_lab.Attempt.Bus.{
  close_if, subscriber_buffer, any, is_for, put_if, offer, taken, Channel, Bus, take_if, shut_if,
  publish, shut, subscribe, new_bus, cancel, receive, close, subscribe_if, close_if, attempt_of,
}

-- The first list is the second with some entries left out.
pub data Part : List Event → List Event → Type 0 where
  nothing : Part [] []
  keep : (ev : Event) (xs ys : List Event) → Part xs ys → Part (ev ∷ xs) (ev ∷ ys)
  leave : (ev : Event) (xs ys : List Event) → Part xs ys → Part xs (ev ∷ ys)

-- All that reached the channel, newest first.
abbrev pub arrived : Channel → List Event
arrived ch = reverse ch.queue ++ ch.received

-- An event that the subscriber asked for: one of its attempt, or any.
abbrev pub IsOwn : String → Event → Type 0
IsOwn attempt_id ev = (str_eq attempt_id "" || str_eq attempt_id (attempt_of ev)) ≡ true

-- A channel holds its own events in the order of publication, within its buffer, and is open while listed.
pub record IsServed (published : List Event) (ch : Channel) : Type 0 where
  pub part : Part (arrived ch) published
  pub own : All (IsOwn ch.attempt_id) (arrived ch)
  pub fits : length ch.queue ≤ subscriber_buffer
  pub open_listed : ch.listed ≡ true → ch.closed ≡ false

pub record Inv (b : Bus) : Type 0 where
  pub served : All (IsServed b.published) b.channels
  pub calm : b.panicked ≡ false

none_left : (ys : List Event) → Part [] ys
none_left [] = nothing
none_left (y ∷ ys) = leave y [] ys (none_left ys)

All-mapped :
    (P Q : Channel → Type 0) (f : Channel → Channel) (chs : List Channel)
    → ((ch : Channel) → P ch → Q (f ch))
    → All P chs
    → All Q (map f chs)
All-mapped P Q f [] g h = tt
All-mapped P Q f (ch ∷ chs) g h = (g ch h.0, All-mapped P Q f chs g h.1)

any-none :
    (P : Channel → Type 0) (test : Channel → Bool) (chs : List Channel)
    → ((ch : Channel) → P ch → test ch ≡ false)
    → All P chs
    → any test chs ≡ false
any-none P test [] g h = refl
any-none P test (ch ∷ chs) g h = rw (g ch h.0) (any-none P test chs g h.1)

asked_for :
    (ev : Event) (ch : Channel)
    → (is_for ev ch && ltb (length ch.queue) subscriber_buffer) ≡ true
    → IsOwn ch.attempt_id ev
asked_for ev ch e = ground (arith, e)

offer-IsServed :
    (ev : Event) (published : List Event) (ch : Channel)
    → IsServed published ch
    → IsServed (ev ∷ published) (offer ev ch)
offer-IsServed ev published ch v =
    by_room (is_for ev ch && ltb (length ch.queue) subscriber_buffer) refl
  where
    by_room :
        (b : Bool)
        → (is_for ev ch && ltb (length ch.queue) subscriber_buffer) ≡ b
        → IsServed (ev ∷ published) (put_if b ev ch)
    by_room false e = record {
      part = leave ev _ _ v.part;
      own = v.own;
      fits = v.fits;
      open_listed = v.open_listed;
    }
    by_room true e = record {
      part =
          subst (λ xs. Part (xs ++ ch.received) (ev ∷ published))
            (sym (reverse-append ch.queue (ev ∷ []))) (keep ev _ _ v.part);
      own =
          subst (λ xs. All (IsOwn ch.attempt_id) (xs ++ ch.received))
            (sym (reverse-append ch.queue (ev ∷ []))) (asked_for ev ch e, v.own);
      fits = ground (arith, e, length-append ch.queue (ev ∷ []));
      open_listed = v.open_listed;
    }

taken-IsServed :
    (published : List Event) (queue : List Event) (ch : Channel)
    → ch.queue ≡ queue
    → IsServed published ch
    → IsServed published (taken queue ch)
taken-IsServed published [] ch e v = v
taken-IsServed published (ev ∷ queue) ch e v = record {
  part = subst (λ xs. Part xs published) moved v.part;
  own = subst (All (IsOwn ch.attempt_id)) moved v.own;
  fits = let l = ap length e in omega (arith, v.fits, l);
  open_listed = v.open_listed;
}
  where
    moved : arrived ch ≡ reverse queue ++ ev ∷ ch.received
    moved =
        ap (λ q. reverse q ++ ch.received) e
        ∙ ap (λ q. q ++ ch.received) (reverse-cons ev queue)
        ∙ append_assoc (reverse queue) (ev ∷ []) ch.received

take_if-IsServed :
    (published : List Event) (b : Bool) (ch : Channel)
    → IsServed published ch
    → IsServed published (take_if b ch)
take_if-IsServed published true ch v = taken-IsServed published ch.queue ch refl v
take_if-IsServed published false ch v = v

shut_if-IsServed :
    (published : List Event) (b : Bool) (ch : Channel)
    → IsServed published ch
    → IsServed published (shut_if b ch)
shut_if-IsServed published true ch v = record {
  part = v.part;
  own = v.own;
  fits = v.fits;
  open_listed = λ h. absurd cc;
}
shut_if-IsServed published false ch v = v

-- What `publish` and the closings test for is not closed, so they do not panic.
closed_is :
    (ch : Channel) (t : Bool)
    → (ch.listed ≡ true → ch.closed ≡ false)
    → (t ≡ true → ch.listed ≡ true)
    → (t && ch.closed) ≡ false
closed_is ch true o l = o (l refl)
closed_is ch false o l = refl

publish-Inv : (ev : Event) (b : Bus) → Inv b → Inv (publish ev b)
unfolding publish
publish-Inv ev b v = record {
  served = All-mapped _ _ (offer ev) b.channels (offer-IsServed ev b.published) v.served;
  calm =
      let quiet =
        any-none (IsServed b.published) (λ ch. is_for ev ch && ch.closed) b.channels
          (λ ch s. closed_is ch (is_for ev ch) s.open_listed (λ h. ground (arith, h))) v.served in
      simp (v.calm, quiet);
}

shut-Inv :
    (test : Channel → Bool) (b : Bus)
    → ((ch : Channel) → test ch ≡ true → ch.listed ≡ true)
    → Inv b
    → Inv (shut test b)
shut-Inv test b l v = record {
  served =
      All-mapped _ _ (λ ch. shut_if (test ch) ch) b.channels
        (λ ch. shut_if-IsServed b.published (test ch) ch) v.served;
  calm =
      let quiet =
        any-none (IsServed b.published) (λ ch. test ch && ch.closed) b.channels
          (λ ch s. closed_is ch (test ch) s.open_listed (l ch)) v.served in
      simp (v.calm, quiet);
}

-- The calls of the service and of the subscribers, in any order.
pub data Step : Type 0 where
  subscribes : String → Step
  cancels receives : ℕ → Step
  publishes : Event → Step
  closes : Step

abbrev pub step : Step → Bus → Bus
step (subscribes attempt_id) b = (subscribe attempt_id b).1
step (cancels id) b = cancel id b
step (receives id) b = receive id b
step (publishes ev) b = publish ev b
step closes b = close b

abbrev pub run : List Step → Bus → Bus
run [] b = b
run (s ∷ steps) b = run steps (step s b)

step-Inv : (s : Step) (b : Bus) → Inv b → Inv (step s b)
unfolding subscribe cancel receive close
step-Inv (subscribes attempt_id) b v = made b.closed
  where
    made : (c : Bool) → Inv (subscribe_if c attempt_id b).1
    made true = v
    made false = record {
      served = (
        record {
          part = none_left b.published;
          own = tt;
          fits = omega arith;
          open_listed = λ h. refl;
        },
        v.served,
      );
      calm = v.calm;
    }
step-Inv (cancels id) b v =
    shut-Inv (λ ch. ch.id == id && ch.listed) b (λ ch h. ground (arith, h)) v
step-Inv (receives id) b v = record {
  served =
      All-mapped _ _ (λ ch. take_if (ch.id == id) ch) b.channels
        (λ ch. take_if-IsServed b.published (ch.id == id) ch) v.served;
  calm = v.calm;
}
step-Inv (publishes ev) b v = publish-Inv ev b v
step-Inv closes b v = done b.closed
  where
    done : (c : Bool) → Inv (close_if c b)
    done true = v
    done false =
        shut-Inv (λ ch. ch.listed) (record b { closed = true }) (λ ch h. h)
          (record { served = v.served; calm = v.calm })

run-Inv : (steps : List Step) (b : Bus) → Inv b → Inv (run steps b)
run-Inv [] b v = v
run-Inv (s ∷ steps) b v = run-Inv steps (step s b) (step-Inv s b v)

-- After any calls on a new bus nothing has panicked: no event was sent on a closed channel, and no
-- channel was closed twice. Each subscriber has got, in the order of publication, a part of what was
-- published, each event at most once and only what it subscribed to, and no more than 64 events wait in
-- its channel.
pub bus_in_order :
    (steps : List Step)
    → let b = run steps new_bus in (b.panicked ≡ false) × All (IsServed b.published) b.channels
unfolding new_bus
bus_in_order steps =
    let v = run-Inv steps new_bus (record { served = tt; calm = refl }) in (v.calm, v.served)
