-- ===== src/Protocol/Tests.antt =====
-- The theorems of the protocol at concrete frames and errors.
use network_skill_lab.Prelude.{
  Option, [], arith, err, false, none, ok, refl, some, true, ◌%◌, ◌-◌, ◌∷◌, ◌≡◌,
}
use network_skill_lab.Content.Lab.{Bytes}
use network_skill_lab.Protocol.Payload.{
  ExecOptions, ExecParams, from_exec, options, heard, exec_crosses, over_wire, kept,
}
use network_skill_lab.Protocol.Failure.{
  error_code, new_result, err_of, failure_crosses, Failure, Reply,
}

abbrev lost : Failure
lost = record { message = "no node h1"; is_sandbox_not_found = false; is_node_not_found = true }

abbrev as_bytes : Bytes → Option Bytes
as_bytes bytes = some bytes

abbrev answer : Reply
answer = record {
  id = 4;
  is_ok = false;
  value = none;
  message = "no node h1";
  code = "node_not_found";
}

answer_made : new_result as_bytes 4 (err lost) ≡ some answer
unfolding new_result error_code
answer_made = refl

failure_crosses_example :
    (f : Failure) × (err_of answer ≡ some f)
    × (f.message ≡ lost.message)
    × (f.is_sandbox_not_found ≡ lost.is_sandbox_not_found)
    × (lost.is_sandbox_not_found ≡ false → f.is_node_not_found ≡ lost.is_node_not_found)
failure_crosses_example = failure_crosses as_bytes 4 lost answer answer_made

-- An environment without entries, which crosses as none.
abbrev listing : ExecOptions
listing = record { env = some []; stdin = some (ok []); timeout = 1_500_000_123; user = "root" }

abbrev asked : ExecParams
asked = record {
  sandbox = "lab-1";
  node = "web";
  cmd = "ls" ∷ [];
  env = some [];
  stdin = some [];
  timeout_ms = 1500;
  user = "root";
}

request_made : from_exec "lab-1" "web" ("ls" ∷ []) listing ≡ ok asked
unfolding from_exec
request_made = refl

abbrev any_bytes : Bytes → Bytes
any_bytes bytes = bytes

exec_crosses_example :
    let q = over_wire any_bytes asked in
    (q.sandbox ≡ "lab-1")
    × (q.node ≡ "web")
    × (q.cmd ≡ "ls" ∷ [])
    × (options q ≡ record listing {
      env = kept listing.env;
      stdin = heard listing.stdin;
      timeout = listing.timeout - listing.timeout % 1000000;
    })
exec_crosses_example =
    exec_crosses any_bytes "lab-1" "web" ("ls" ∷ []) listing asked refl (omega arith) request_made
