-- ===== src/Server/Hub.antt =====
-- internal/runnerserver/hub.go: who may connect as a runner, and which connection is the current one
-- of a runner. A part of a method under the mutex is one operation. A connection is a number.
use network_skill_lab.Prelude.{
  Bool, List, Option, Result, String, Time, [], codes, err, false, if◌then◌else◌, leb, length, map,
  none, ok, some, str_eq, true, ℕ, ◌&&◌, ◌+◌, ◌==◌, ◌∷◌,
}
use mathlib.Core.Option
use network_skill_lab.Content.Lab.{Bytes, bytes_eq}

-- `store.Runner`, as far as the hub reads it.
pub record Runner : Type 0 where
  pub id : String
  pub token_hash : Bytes
  pub revoked : Bool

pub record Hello : Type 0 where
  pub proto : ℕ
  pub name : String
  pub version : String
  pub capacity : ℕ
  pub capabilities : List String
  pub sandboxes : List String

abbrev pub proto_version : ℕ
proto_version = 1

-- `strings.Cut(header, " ")`
abbrev pub cut_space : Bytes → Option (Bytes × Bytes)
cut_space [] = none
cut_space (c ∷ cs) =
    let rest = cut_space cs in
    if c == 32 then some ([], cs) else Option.map (λ (before, after). (c ∷ before, after)) rest

-- `strings.EqualFold`, on a text of ASCII letters that have no other fold.
abbrev pub lower : ℕ → ℕ
lower c = if leb 65 c && leb c 90 then c + 32 else c

abbrev pub is_bearer : Bytes → Bool
is_bearer scheme = bytes_eq (map lower scheme) (codes "bearer")

abbrev pub token_of : Option (Bytes × Bytes) → Option Bytes
token_of none = none
token_of (some (scheme, [])) = none
token_of (some (scheme, c ∷ cs)) = if is_bearer scheme then some (c ∷ cs) else none

-- `bearerToken`
unfoldable pub bearer_token : Bytes → Option Bytes
bearer_token header = token_of (cut_space header)

pub data Close : Type 0 where
  protocol_mismatch unauthorized : Close

-- `ByName`, which answers `none` on an error too, and `auth.VerifyPassword` are parameters.
module _ (by_name : String → Option Runner) (verify : Bytes → Bytes → Option Bool) where
  abbrev pub verified : Option Bool → Runner → Result Close Runner
  verified (some true) r = ok r
  verified _ r = err unauthorized

  abbrev pub unless_revoked : Bool → Runner → Bytes → Result Close Runner
  unless_revoked true r token = err unauthorized
  unless_revoked false r token = verified (verify r.token_hash token) r

  abbrev pub admit : Option Runner → Bytes → Result Close Runner
  admit none token = err unauthorized
  admit (some r) token = unless_revoked r.revoked r token

  -- `authenticate`
  abbrev pub authenticate : String → Option Bytes → Result Close Runner
  authenticate name none = err unauthorized
  authenticate name (some token) = admit (by_name name) token

  -- `ServeHTTP` up to the registration; `none` is what `readHello` cannot read.
  unfoldable pub handshake : Bytes → Option Hello → Result Close Runner
  handshake header none = err protocol_mismatch
  handshake header (some hello) =
      if hello.proto == proto_version
      then authenticate hello.name (bearer_token header)
      else err protocol_mismatch

-- `RunnerInfo`; the name is the key of the entry.
pub record RunnerInfo : Type 0 where
  pub capabilities : List String
  pub capacity : ℕ
  pub active : ℕ
  pub connected : Bool
  pub last_seen : Time
  pub version : String

pub record Entry : Type 0 where
  pub info : RunnerInfo
  pub conn : Option ℕ

-- `notified` holds the connections for which the callbacks of `OnDisconnect` were run, newest first.
pub record Hub : Type 0 where
  pub entries : String → Option Entry
  pub notified : List ℕ

unfoldable pub new_hub : Hub
new_hub = record { entries = λ name. none; notified = [] }

abbrev pub conn_in : Option Entry → Option ℕ
conn_in none = none
conn_in (some e) = e.conn

-- `Get`; also the connection that the first part of `register` finds and shuts down.
unfoldable pub get : String → Hub → Option ℕ
get name h = conn_in (h.entries name)

abbrev pub put : String → Entry → Hub → Hub
put name e h = record h { entries = λ other. if str_eq name other then some e else h.entries other }

-- The second part of `register`.
unfoldable pub register : ℕ → String → Hello → Time → Hub → Hub
register c name hello now h =
    put name
      (record {
        info = record {
          capabilities = hello.capabilities;
          capacity = hello.capacity;
          active = length hello.sandboxes;
          connected = true;
          last_seen = now;
          version = hello.version;
        };
        conn = some c;
      })
      h

abbrev pub is_conn : ℕ → Option ℕ → Bool
is_conn c none = false
is_conn c (some d) = c == d

abbrev pub dropped : Entry → Entry
dropped e = record { info = record e.info { connected = false }; conn = none }

abbrev pub drop_if : Bool → ℕ → String → Entry → Hub → Hub
drop_if false c name e h = h
drop_if true c name e h = let h' = put name (dropped e) h in record h' { notified = c ∷ h.notified }

abbrev pub drop_found : Option Entry → ℕ → String → Hub → Hub
drop_found none c name h = h
drop_found (some e) c name h = drop_if (is_conn c e.conn) c name e h

-- `unregister`: a connection that was replaced changes nothing, and no callback is run.
unfoldable pub unregister : ℕ → String → Hub → Hub
unregister c name h = drop_found (h.entries name) c name h

abbrev pub seen_if : Bool → String → Entry → ℕ → Time → Hub → Hub
seen_if false name e active now h = h
seen_if true name e active now h =
    put name (record e { info = record e.info { active = active; last_seen = now } }) h

abbrev pub seen : Option Entry → ℕ → String → ℕ → Time → Hub → Hub
seen none c name active now h = h
seen (some e) c name active now h = seen_if (is_conn c e.conn) name e active now h

-- `pinged`, less the touch of the database.
unfoldable pub pinged : ℕ → String → ℕ → Time → Hub → Hub
pinged c name active now h = seen (h.entries name) c name active now h
