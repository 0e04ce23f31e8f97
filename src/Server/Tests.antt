-- ===== src/Server/Tests.antt =====
-- The theorems of the server at concrete runs.
use network_skill_lab.Prelude.{
  All, Bool, List, Option, String, [], codes, false, if◌then◌else◌, none, ok, refl, some, str_eq,
  true, ℕ, ◌+◌, ◌↔◌, ◌∷◌, ◌≡◌, ◌≤◌,
}
use network_skill_lab.Content.Lab.{Bytes, bytes_eq}
use network_skill_lab.Protocol.Failure.{Reply}
use network_skill_lab.Server.Outbox.{new_outbox, Frame, text}
use network_skill_lab.Server.Fifo
use network_skill_lab.Server.Fifo.{IsCounted, history, accepted, outbox_bounds, outbox_fifo}
use network_skill_lab.Server.Calls
use network_skill_lab.Server.Hub.{handshake, new_hub, get, register, is_conn, Runner, Hello}
use network_skill_lab.Server.Presence
use network_skill_lab.Server.Presence.{count, registrations, disconnects_once}
use network_skill_lab.Server.Current.{registered_stays, Spares}
use network_skill_lab.Server.Handshake.{handshake_iff, IsAdmitted}

abbrev hello_frame : Frame
hello_frame = record { kind = text; payload = 1 ∷ 2 ∷ 3 ∷ [] }

abbrev outbox_steps : List Fifo.Step
outbox_steps =
    Fifo.sends hello_frame
    ∷ Fifo.takes
    ∷ Fifo.sends hello_frame
    ∷ Fifo.writes
    ∷ Fifo.finishes
    ∷ Fifo.sends hello_frame
    ∷ []

outbox_fifo_example :
    history (Fifo.run outbox_steps (new_outbox 5)) ≡ accepted outbox_steps (new_outbox 5)
outbox_fifo_example = outbox_fifo 5 outbox_steps

abbrev decode : Option Bytes → Option ℕ
decode value = some 7

abbrev opened : Reply
opened = record { id = 1; is_ok = true; value = none; message = ""; code = "" }

abbrev calls : List Calls.Step
calls =
    Calls.calls "open_terminal" true
    ∷ Calls.results opened
    ∷ Calls.results opened
    ∷ Calls.gives_up 1 (some 0)
    ∷ Calls.teardowns
    ∷ []

abbrev name_of : ℕ → String
name_of c = "edge"

abbrev hello : Hello
hello = record {
  proto = 1;
  name = "edge";
  version = "v1";
  capacity = 2;
  capabilities = [];
  sandboxes = [];
}

abbrev presence : List Presence.Step
presence =
    Presence.registers 1 hello 10
    ∷ Presence.registers 2 hello 20
    ∷ Presence.unregisters 1
    ∷ Presence.pings 2 1 30
    ∷ Presence.unregisters 2
    ∷ []

disconnects_once_example :
    let h = Presence.run name_of presence new_hub in
    count 2 h.notified + (if is_conn 2 (get (name_of 2) h) then 1 else 0)
    ≤ registrations name_of 2 presence
disconnects_once_example = disconnects_once name_of 2 presence

abbrev later : List Presence.Step
later = Presence.unregisters 1 ∷ Presence.pings 2 1 30 ∷ []

later-Spares : All (Spares name_of 2) later
later-Spares = (refl, (tt, tt))

registered_stays_example :
    get (name_of 2) (
      Presence.run name_of later
        (register 2 (name_of 2) hello 20 (register 1 (name_of 1) hello 10 new_hub)))
    ≡ some 2
registered_stays_example =
    registered_stays name_of 2 hello 20 later (register 1 (name_of 1) hello 10 new_hub) later-Spares

abbrev edge : Runner
edge = record { id = "r1"; token_hash = codes "hash"; revoked = false }

abbrev by_name : String → Option Runner
by_name name = if str_eq name "edge" then some edge else none

abbrev verify : Bytes → Bytes → Option Bool
verify hash token = some (bytes_eq token (codes "secret"))

handshake_iff_example :
    (handshake by_name verify (codes "bearer secret") (some hello) ≡ ok edge) ↔ (
      (first : Hello) × (some hello ≡ some first)
      × IsAdmitted by_name verify (codes "bearer secret") first edge)
handshake_iff_example = handshake_iff by_name verify (codes "bearer secret") (some hello) edge
