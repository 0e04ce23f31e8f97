-- ===== src/Protocol/Payload.antt =====
-- The requests of internal/runnerproto/payload.go, with the types of internal/runner/runner.go that
-- they carry. A slice or a map that may be nil is an `Option`; a `time.Duration` is its bit pattern.
use network_skill_lab.Prelude.{
  Bool, List, Option, Result, String, [], ap, arith, err, false, if◌then◌else◌, int_mul, ltb, map,
  none, ok, refl, some, str_append, ℕ, ◌%◌, ◌-◌, ◌/◌, ◌<◌, ◌>>=◌, ◌^◌, ◌∷◌, ◌≡◌,
}
use network_skill_lab.Content.Lab.{Bytes, Params}
use network_skill_lab.Protocol.Failure.{Failure}

-- `NodeSpec`, `EndpointSpec`, `LinkSpec` and `Script` of the runner. Those of the protocol have the
-- same fields, and Go's conversion from one to the other keeps every field.
pub record NodeSpec : Type 0 where
  pub name : String
  pub role : String
  pub k3s_disable : Option (List String)

pub record EndpointSpec : Type 0 where
  pub node : String
  pub iface : Bytes
  pub address : Bytes

pub record LinkSpec : Type 0 where
  pub name : String
  pub subnet : Bytes
  pub endpoints : List EndpointSpec

pub record Script : Type 0 where
  pub name : String
  pub content : Bytes

-- `SandboxSpec`, with `Progress` as whether there is a callback.
pub record SandboxSpec : Type 0 where
  pub attempt_id : String
  pub image : String
  pub nodes : List NodeSpec
  pub links : List LinkSpec
  pub setup : Script
  pub env : Params
  pub internet : Bool
  pub progress : Bool

pub record ProvisionParams : Type 0 where
  pub attempt_id : String
  pub image : String
  pub nodes : List NodeSpec
  pub links : List LinkSpec
  pub setup : Script
  pub env : Params
  pub internet : Bool

-- The loop over the endpoints of a link.
abbrev copy_endpoints : List EndpointSpec → List EndpointSpec
copy_endpoints [] = []
copy_endpoints (e ∷ es) =
    record { node = e.node; iface = e.iface; address = e.address } ∷ copy_endpoints es

abbrev copy_links : List LinkSpec → List LinkSpec
copy_links [] = []
copy_links (l ∷ ls) =
    record { name = l.name; subnet = l.subnet; endpoints = copy_endpoints l.endpoints }
    ∷ copy_links ls

abbrev copy_nodes : List NodeSpec → List NodeSpec
copy_nodes [] = []
copy_nodes (n ∷ ns) =
    record { name = n.name; role = n.role; k3s_disable = n.k3s_disable } ∷ copy_nodes ns

-- `FromSpec`
unfoldable pub from_spec : SandboxSpec → ProvisionParams
from_spec s = record {
  attempt_id = s.attempt_id;
  image = s.image;
  nodes = copy_nodes s.nodes;
  links = copy_links s.links;
  setup = s.setup;
  env = s.env;
  internet = s.internet;
}

-- `ProvisionParams.Spec`
unfoldable pub spec : ProvisionParams → SandboxSpec
spec p = record {
  attempt_id = p.attempt_id;
  image = p.image;
  nodes = copy_nodes p.nodes;
  links = copy_links p.links;
  setup = p.setup;
  env = p.env;
  internet = p.internet;
  progress = false;
}

copy_endpoints_id : (es : List EndpointSpec) → copy_endpoints es ≡ es
copy_endpoints_id [] = refl
copy_endpoints_id (e ∷ es) = ap (λ rest. e ∷ rest) (copy_endpoints_id es)

copy_links_id : (ls : List LinkSpec) → copy_links ls ≡ ls
copy_links_id [] = refl
copy_links_id (l ∷ ls) = rw (copy_links_id ls, copy_endpoints_id l.endpoints) refl

copy_nodes_id : (ns : List NodeSpec) → copy_nodes ns ≡ ns
copy_nodes_id [] = refl
copy_nodes_id (n ∷ ns) = ap (λ rest. n ∷ rest) (copy_nodes_id ns)

-- What a runner is asked to provision is the specification of the server, without its callback.
pub spec-from_spec : (s : SandboxSpec) → spec (from_spec s) ≡ record s { progress = false }
unfolding spec from_spec
spec-from_spec s =
    rw
      (
        copy_links_id (copy_links s.links),
        copy_links_id s.links,
        copy_nodes_id (copy_nodes s.nodes),
        copy_nodes_id s.nodes,
      )
      refl

-- `ExecOptions`; the reader `Stdin` is what reading all of it comes to.
pub record ExecOptions : Type 0 where
  pub env : Option Params
  pub stdin : Option (Result Failure Bytes)
  pub timeout : ℕ
  pub user : String

pub record ExecParams : Type 0 where
  pub sandbox : String
  pub node : String
  pub cmd : List String
  pub env : Option Params
  pub stdin : Option Bytes
  pub timeout_ms : ℕ
  pub user : String

-- `Duration.Milliseconds`, which rounds toward zero.
abbrev milliseconds : ℕ → ℕ
milliseconds d = if ltb d (2 ^ 63) then d / 1000000 else (2 ^ 64 - (2 ^ 64 - d) / 1000000) % 2 ^ 64

abbrev stdin_failure : Failure → Failure
stdin_failure e = record e { message = str_append "read exec stdin: " e.message }

abbrev read_stdin : Option (Result Failure Bytes) → Result Failure (Option Bytes)
read_stdin none = ok none
read_stdin (some (ok bytes)) = ok (some bytes)
read_stdin (some (err e)) = err (stdin_failure e)

abbrev request : String → String → List String → ExecOptions → Option Bytes → ExecParams
request sandbox node cmd opts stdin = record {
  sandbox = sandbox;
  node = node;
  cmd = cmd;
  env = opts.env;
  stdin = stdin;
  timeout_ms = milliseconds opts.timeout;
  user = opts.user;
}

-- `FromExec`
unfoldable pub from_exec : String → String → List String → ExecOptions → Result Failure ExecParams
from_exec sandbox node cmd opts = do
  stdin ← read_stdin opts.stdin
  ok (request sandbox node cmd opts stdin)

-- `omitempty`: a slice or a map without entries is not written, and is read back as nil.
abbrev pub kept {ℓ} : {A : Type ℓ} → Option (List A) → Option (List A)
kept none = none
kept (some []) = none
kept (some (x ∷ xs)) = some (x ∷ xs)

-- What the reader of a text that `json.Marshal` wrote finds in place of it: `valid` puts U+FFFD for each
-- byte that is not UTF-8. The other texts of a request are strings of whole characters.
module _ (valid : Bytes → Bytes) where
  abbrev pub valid_env : Params → Params
  valid_env env = map (λ e. (valid e.0, valid e.1)) env

  abbrev pub env_of : Option Params → Option Params
  env_of none = none
  env_of (some env) = some (valid_env env)

  -- `ExecParams` as the runner reads it from the JSON that the server writes.
  unfoldable pub over_wire : ExecParams → ExecParams
  over_wire p = record p { env = kept (env_of p.env); stdin = kept p.stdin }

-- `if len(p.Stdin) > 0`
abbrev reader_of : Option Bytes → Option (Result Failure Bytes)
reader_of (some (b ∷ bs)) = some (ok (b ∷ bs))
reader_of _ = none

-- `ExecParams.Options`
unfoldable pub options : ExecParams → ExecOptions
options p = record {
  env = p.env;
  stdin = reader_of p.stdin;
  timeout = int_mul p.timeout_ms 1000000;
  user = p.user;
}

whole_milliseconds : (d : ℕ) → d < 2 ^ 63 → int_mul (milliseconds d) 1000000 ≡ d - d % 1000000
whole_milliseconds d h = ground arith

-- `ExecResult`; the exit code is its bit pattern. The conversions between the runner's and the
-- protocol's keep every field.
pub record ExecResult : Type 0 where
  pub stdout : Bytes
  pub stderr : Bytes
  pub exit_code : ℕ
  pub timed_out : Bool

pub record Health : Type 0 where
  pub is_ok : Bool
  pub docker : Bool
  pub image : Bool
  pub image_name : String
  pub instance_id : String
  pub mem_available_mb : ℕ
  pub error : String

-- What a reader still gives once it has crossed: an empty input is none.
abbrev pub heard : Option (Result Failure Bytes) → Option (Result Failure Bytes)
heard (some (ok (b ∷ bs))) = some (ok (b ∷ bs))
heard _ = none

reader_of-kept : (o : Option Bytes) → reader_of (kept o) ≡ reader_of o
reader_of-kept none = refl
reader_of-kept (some []) = refl
reader_of-kept (some (b ∷ bs)) = refl

reader_of-read_stdin :
    (o : Option (Result Failure Bytes)) (stdin : Option Bytes)
    → read_stdin o ≡ ok stdin
    → reader_of stdin ≡ heard o
reader_of-read_stdin none none h = refl
reader_of-read_stdin none (some bytes) h = absurd (cc)
reader_of-read_stdin (some (ok bytes)) none h = absurd (cc)
reader_of-read_stdin (some (ok [])) (some []) h = refl
reader_of-read_stdin (some (ok [])) (some (b ∷ bs)) h = absurd (cc)
reader_of-read_stdin (some (ok (b ∷ bs))) (some []) h = absurd (cc)
reader_of-read_stdin (some (ok (b ∷ bs))) (some (c ∷ cs)) h = cc
reader_of-read_stdin (some (err e)) stdin h = absurd (cc)

-- What the runner reads of a request.
abbrev Arrives : (Bytes → Bytes) → String → String → List String → ExecOptions → ExecParams → Type 0
Arrives valid sandbox node cmd opts p =
    let q = over_wire valid p in
    (q.sandbox ≡ sandbox)
    × (q.node ≡ node)
    × (q.cmd ≡ cmd)
    × (options q ≡ record opts {
      env = kept opts.env;
      stdin = heard opts.stdin;
      timeout = opts.timeout - opts.timeout % 1000000;
    })

-- The options of a command, with a timeout that is not negative, an input that can be read and an
-- environment in UTF-8, reach the runner over the JSON of the request with the command itself: the
-- timeout rounded down to whole milliseconds, an empty input or environment as none, and all else as
-- it was.
pub exec_crosses :
    (valid : Bytes → Bytes) (sandbox node : String) (cmd : List String) (opts : ExecOptions)
    (p : ExecParams)
    → env_of valid opts.env ≡ opts.env
    → opts.timeout < 2 ^ 63
    → from_exec sandbox node cmd opts ≡ ok p
    → let q = over_wire valid p in
      (q.sandbox ≡ sandbox)
      × (q.node ≡ node)
      × (q.cmd ≡ cmd)
      × (options q ≡ record opts {
        env = kept opts.env;
        stdin = heard opts.stdin;
        timeout = opts.timeout - opts.timeout % 1000000;
      })
unfolding from_exec options over_wire
exec_crosses valid sandbox node cmd opts p text small h = crosses (read_stdin opts.stdin) refl h
  where
    crosses :
        (r : Result Failure (Option Bytes))
        → read_stdin opts.stdin ≡ r
        → (do stdin ← r; ok (request sandbox node cmd opts stdin)) ≡ ok p
        → Arrives valid sandbox node cmd opts p
    crosses (ok stdin) read e =
        let built : request sandbox node cmd opts stdin ≡ p = cc in
        rw (← built) (
          refl,
          refl,
          refl,
          rw
              (
                text,
                reader_of-kept stdin,
                reader_of-read_stdin opts.stdin stdin read,
                whole_milliseconds opts.timeout small,
              )
              refl,
        )
    crosses (err e) read f = absurd (cc)
