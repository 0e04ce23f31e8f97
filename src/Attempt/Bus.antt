-- ===== src/Attempt/Bus.antt =====
-- attempt/bus.go: the events for the subscribers. Each method holds the mutex as a whole. A send on a
-- closed channel and the second close of a channel panic.
use network_skill_lab.Prelude.{
  Bool, List, Option, String, [], false, length, ltb, map, none, some, str_eq, true, ℕ, ◌&&◌, ◌++◌,
  ◌+◌, ◌==◌, ◌||◌, ◌∷◌,
}
use network_skill_lab.Attempt.World.{
  Event, status_event, provisioning_event, checkpoint_event, submit_event,
}

abbrev pub subscriber_buffer : ℕ
subscriber_buffer = 64

abbrev pub attempt_of : Event → String
attempt_of (status_event id status message elapsed now) = id
attempt_of (provisioning_event id step n now) = id
attempt_of (checkpoint_event id checkpoint status first now) = id
attempt_of (submit_event id n failed now) = id

-- A channel with its subscription; `listed` is whether `subs` has it. `received` holds what the
-- subscriber took, newest first.
pub record Channel : Type 0 where
  pub id : ℕ
  pub attempt_id : String
  pub queue : List Event
  pub closed : Bool
  pub listed : Bool
  pub received : List Event

-- `published` holds the newest first. `next` stays far below 2 ^ 63.
pub record Bus : Type 0 where
  pub next : ℕ
  pub channels : List Channel
  pub closed : Bool
  pub panicked : Bool
  pub published : List Event

unfoldable pub new_bus : Bus
new_bus = record { next = 0; channels = []; closed = false; panicked = false; published = [] }

-- `subscribe`; on a closed bus the channel is closed from the start, and nobody else has it.
abbrev pub subscribe_if : Bool → String → Bus → Option ℕ × Bus
subscribe_if true attempt_id b = (none, b)
subscribe_if false attempt_id b =
    let ch : Channel = record {
      id = b.next;
      attempt_id = attempt_id;
      queue = [];
      closed = false;
      listed = true;
      received = [];
    } in
    (some b.next, record b { next = b.next + 1; channels = ch ∷ b.channels })

unfoldable pub subscribe : String → Bus → Option ℕ × Bus
subscribe attempt_id b = subscribe_if b.closed attempt_id b

abbrev pub any : (Channel → Bool) → List Channel → Bool
any test [] = false
any test (ch ∷ chs) = test ch || any test chs

-- Closing the channels that pass the test, and taking them off the map.
abbrev pub shut_if : Bool → Channel → Channel
shut_if true ch = record ch { closed = true; listed = false }
shut_if false ch = ch

abbrev pub shut : (Channel → Bool) → Bus → Bus
shut test b = record b {
  channels = map (λ ch. shut_if (test ch) ch) b.channels;
  panicked = b.panicked || any (λ ch. test ch && ch.closed) b.channels;
}

-- The function that `subscribe` returns.
unfoldable pub cancel : ℕ → Bus → Bus
cancel id b = shut (λ ch. ch.id == id && ch.listed) b

abbrev pub close_if : Bool → Bus → Bus
close_if true b = b
close_if false b = shut (λ ch. ch.listed) (record b { closed = true })

-- `close`
unfoldable pub close : Bus → Bus
close b = close_if b.closed b

abbrev pub is_for : Event → Channel → Bool
is_for ev ch = ch.listed && (str_eq ch.attempt_id "" || str_eq ch.attempt_id (attempt_of ev))

abbrev pub put_if : Bool → Event → Channel → Channel
put_if true ev ch = record ch { queue = ch.queue ++ ev ∷ [] }
put_if false ev ch = ch

-- A full channel drops the event.
abbrev pub offer : Event → Channel → Channel
offer ev ch = put_if (is_for ev ch && ltb (length ch.queue) subscriber_buffer) ev ch

-- `publish`
unfoldable pub publish : Event → Bus → Bus
publish ev b = record b {
  channels = map (offer ev) b.channels;
  panicked = b.panicked || any (λ ch. is_for ev ch && ch.closed) b.channels;
  published = ev ∷ b.published;
}

abbrev pub taken : List Event → Channel → Channel
taken [] ch = ch
taken (ev ∷ queue) ch = record ch { queue = queue; received = ev ∷ ch.received }

abbrev pub take_if : Bool → Channel → Channel
take_if true ch = taken ch.queue ch
take_if false ch = ch

-- The subscriber takes an event from its channel, if one is there.
unfoldable pub receive : ℕ → Bus → Bus
receive id b = record b { channels = map (λ ch. take_if (ch.id == id) ch) b.channels }
