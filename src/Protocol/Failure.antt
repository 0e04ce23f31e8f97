-- ===== src/Protocol/Failure.antt =====
-- `NewResult`, `ErrorCode`, `Result.Err` and `RemoteError` of internal/runnerproto/payload.go: how an
-- error of a runner reaches the server.
use network_skill_lab.Prelude.{
  Bool, Option, Result, String, err, false, if◌then◌else◌, none, ok, refl, some, str_eq, true, ℕ,
  ◌≡◌,
}
use network_skill_lab.Content.Lab.{Bytes}

-- An error as its text and as what `errors.Is` finds in it.
pub record Failure : Type 0 where
  pub message : String
  pub is_sandbox_not_found : Bool
  pub is_node_not_found : Bool

-- `runnerproto.Result`; `value` is `none` where it is omitted.
pub record Reply : Type 0 where
  pub id : ℕ
  pub is_ok : Bool
  pub value : Option Bytes
  pub message : String
  pub code : String

-- By whether `ErrSandboxNotFound` and `ErrNodeNotFound` are found in the error.
abbrev pub code_of : Bool → Bool → String
code_of true node = "sandbox_not_found"
code_of false true = "node_not_found"
code_of false false = ""

-- `ErrorCode`
unfoldable pub error_code : Failure → String
error_code e = code_of e.is_sandbox_not_found e.is_node_not_found

-- `NewResult` of an error or of a value that `json.Marshal` makes into bytes, or fails on.
module _ {ℓ} {A : Type ℓ} (marshal : A → Option Bytes) where
  abbrev pub of_bytes : ℕ → Option Bytes → Option Reply
  of_bytes id none = none
  of_bytes id (some bytes) =
      some (record { id = id; is_ok = true; value = some bytes; message = ""; code = "" })

  unfoldable pub new_result : ℕ → Result Failure (Option A) → Option Reply
  new_result id (err e) =
      some
        (record { id = id; is_ok = false; value = none; message = e.message; code = error_code e })
  new_result id (ok none) =
      some (record { id = id; is_ok = true; value = none; message = ""; code = "" })
  new_result id (ok (some a)) = of_bytes id (marshal a)

-- `RemoteError` with its `Unwrap`.
unfoldable pub remote_error : String → String → Failure
remote_error message code = record {
  message = message;
  is_sandbox_not_found = str_eq code "sandbox_not_found";
  is_node_not_found =
      if str_eq code "sandbox_not_found" then false else str_eq code "node_not_found";
}

-- `Result.Err`
unfoldable pub err_of : Reply → Option Failure
err_of r = if r.is_ok then none else some (remote_error r.message r.code)

code_of-sandbox :
    (sandbox node : Bool) → str_eq (code_of sandbox node) "sandbox_not_found" ≡ sandbox
code_of-sandbox true node = refl
code_of-sandbox false true = refl
code_of-sandbox false false = refl

code_of-node :
    (sandbox node : Bool) → sandbox ≡ false → str_eq (code_of sandbox node) "node_not_found" ≡ node
code_of-node true node h = absurd (cc)
code_of-node false true h = refl
code_of-node false false h = refl

-- A failure of a runner reaches the server as a failure with the same text, and as the same kind: a
-- missing sandbox as one, and a missing node as one where no sandbox is missing too.
pub failure_crosses :
    {A : Type 0} (marshal : A → Option Bytes) (id : ℕ) (e : Failure) (r : Reply)
    → new_result marshal id (err e) ≡ some r
    → (f : Failure) × (err_of r ≡ some f)
      × (f.message ≡ e.message)
      × (f.is_sandbox_not_found ≡ e.is_sandbox_not_found)
      × (e.is_sandbox_not_found ≡ false → f.is_node_not_found ≡ e.is_node_not_found)
unfolding new_result err_of remote_error error_code
failure_crosses marshal id e r h =
    let f = remote_error e.message (error_code e) in
    let g : r ≡ record {
      id = id;
      is_ok = false;
      value = none;
      message = e.message;
      code = error_code e;
    } =
      cc in
    (
      f,
      rw g refl,
      refl,
      code_of-sandbox e.is_sandbox_not_found e.is_node_not_found,
      λ alone.
          rw (code_of-sandbox e.is_sandbox_not_found e.is_node_not_found, alone)
            (code_of-node false e.is_node_not_found refl),
    )
