-- ===== src/Client/Answers.antt =====
-- What the answer to a call says of the session it leaves.
use network_skill_lab.Prelude.{
  Bool, Option, Result, String, ap, arith, err, false, if◌then◌else◌, none, ok, refl, set-at, some,
  true, ℕ, ◌<◌, ◌≡◌,
}
use network_skill_lab.Protocol.Failure.{Failure}
use network_skill_lab.Protocol.Payload.{ProvisionParams, ExecParams, ExecResult}
use network_skill_lab.Client.Session.{
  stream, open_as, open_terminal, Call, Value, Answer, Session, stream_value, new_terminal, next_of,
}
use network_skill_lab.Client.Dispatch.{
  nil_or, untracking, provisioned, executed, is_gone, collected, stream_opened, terminal_from,
  resized, provision_for, exec_for, destroy_for, open_terminal_for, resize_for, close_terminal_for,
  dispatch_as, Provider, Method, provision_method, exec_method, destroy_method, gc_method,
  health_method, open_terminal_method, resize_method, close_terminal_method, unknown_method,
}
use network_skill_lab.Client.Quiet.{close_stream-Grows, open_terminal-Grows}
use network_skill_lab.Client.Log.{Grows, Grows-refl}
use network_skill_lab.Client.Steps.{Codec}

-- The pumps of an answer are for the terminal that its value names.
abbrev pub Fit : Session → Result Failure (Option Value) → Option (ℕ × ℕ) → Type 0
Fit s outcome none = Unit
Fit s outcome (some (id, k)) =
    (outcome ≡ ok (some (stream_value id))) × ((s.terminals k).number ≡ id) × (k < s.opened)

abbrev pub FitAnswer : Session → Answer → Type 0
FitAnswer s a = Fit s a.outcome a.after

module _ (c : Codec) where
  -- What holds after `dispatch`.
  abbrev pub Good : Session → Answer × Session → Type 0
  Good s p = Grows c.marshal s (p.1) × FitAnswer (p.1) (p.0)

  module _ (s : Session) where
    stays : Grows c.marshal s s
    stays = Grows-refl c.marshal s

    provisioned-Good : (r : Result Failure String) → Good s (provisioned r s)
    provisioned-Good (err e) = (stays, tt)
    provisioned-Good (ok sandbox) = (stays, tt)

    provision_for-Good :
        (r : Result Failure ProvisionParams) (p : Provider) → Good s (provision_for r p s)
    provision_for-Good (err e) p = (stays, tt)
    provision_for-Good (ok params) p = provisioned-Good _

    executed-Good : (r : Result Failure ExecResult) → Good s (executed r, s)
    executed-Good (err e) = (stays, tt)
    executed-Good (ok result) = (stays, tt)

    exec_for-Good : (r : Result Failure ExecParams) (p : Provider) → Good s (exec_for r p s)
    exec_for-Good (err e) p = (stays, tt)
    exec_for-Good (ok params) p = executed-Good _

    nil_or-Good :
        (o : Option Failure) (b : Bool) (sandbox : String)
        → Good s (nil_or o, if b then untracking sandbox s else s)
    nil_or-Good none true sandbox = (stays, tt)
    nil_or-Good none false sandbox = (stays, tt)
    nil_or-Good (some e) true sandbox = (stays, tt)
    nil_or-Good (some e) false sandbox = (stays, tt)

    destroy_for-Good : (r : Result Failure String) (p : Provider) → Good s (destroy_for r p s)
    destroy_for-Good (err e) p = (stays, tt)
    destroy_for-Good (ok sandbox) p =
        nil_or-Good (p.destroy sandbox) (is_gone (p.destroy sandbox)) sandbox

    collected-Good : (o : Option Failure) → Good s (collected o s)
    collected-Good none = (stays, tt)
    collected-Good (some e) = (stays, tt)

    resized-Good :
        (o : Option ℕ) (p : Provider) (id cols rows : ℕ) → Good s (resized o p id cols rows, s)
    resized-Good none p id cols rows = (stays, tt)
    resized-Good (some k) p id cols rows = nil_or-Good (p.resize k cols rows) false ""

    resize_for-Good : (r : Result Failure (ℕ × ℕ × ℕ)) (p : Provider) → Good s (resize_for r p s)
    resize_for-Good (err e) p = (stays, tt)
    resize_for-Good (ok (id, cols, rows)) p = resized-Good (stream id s.streams) p id cols rows

    close_terminal_for-Good : (r : Result Failure ℕ) → Good s (close_terminal_for r s)
    close_terminal_for-Good (err e) = (stays, tt)
    close_terminal_for-Good (ok id) = (close_stream-Grows c.marshal id s, tt)

    open_terminal-Good :
        (is_cancelled : Bool) → Good s (stream_opened is_cancelled (open_terminal is_cancelled s))
    unfolding open_terminal
    open_terminal-Good is_cancelled =
        by is_cancelled s.closed (open_terminal-Grows c.marshal is_cancelled s)
      where
        by :
            (b d : Bool)
            → Grows c.marshal s ((open_as b d s).1)
            → Good s (stream_opened is_cancelled (open_as b d s))
        by true d g = (g, tt)
        by false true g = (g, tt)
        by false false g = (
          g,
          (
            refl,
            ap (λ t. t.number) (set-at s.opened (new_terminal (next_of s.next_stream)) s.terminals),
            omega arith,
          ),
        )

    open_terminal_for-Good :
        (r : Result Failure (String × String)) (p : Provider) (is_cancelled : Bool)
        → Good s (open_terminal_for r p is_cancelled s)
    open_terminal_for-Good (err e) p is_cancelled = (stays, tt)
    open_terminal_for-Good (ok (sandbox, node)) p is_cancelled = from (p.open_terminal sandbox node)
      where
        from : (o : Option Failure) → Good s (terminal_from o is_cancelled s)
        from (some e) = (stays, tt)
        from none = open_terminal-Good is_cancelled

    pub dispatch_as-Good :
        (m : Method) (p : Provider) (is_cancelled : Bool) (call : Call)
        → Good s (dispatch_as c.quote c.json m p is_cancelled call s)
    dispatch_as-Good provision_method p is_cancelled call = provision_for-Good _ p
    dispatch_as-Good exec_method p is_cancelled call = exec_for-Good _ p
    dispatch_as-Good destroy_method p is_cancelled call = destroy_for-Good _ p
    dispatch_as-Good gc_method p is_cancelled call = collected-Good p.gc
    dispatch_as-Good health_method p is_cancelled call = (stays, tt)
    dispatch_as-Good open_terminal_method p is_cancelled call =
        open_terminal_for-Good _ p is_cancelled
    dispatch_as-Good resize_method p is_cancelled call = resize_for-Good _ p
    dispatch_as-Good close_terminal_method p is_cancelled call = close_terminal_for-Good _
    dispatch_as-Good unknown_method p is_cancelled call = (stays, tt)
