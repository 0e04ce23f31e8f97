-- ===== src/Client/Calls.antt =====
-- That the goroutines of the calls keep the account of the terminals.
use network_skill_lab.Prelude.{
  Bool, Option, Result, String, err, false, if◌then◌else◌, none, ok, some, suc, true, ℕ, ◌<◌, ◌^◌,
}
use network_skill_lab.Content.Lab.{Bytes}
use network_skill_lab.Protocol.Failure.{Failure}
use network_skill_lab.Protocol.Payload.{ProvisionParams, ExecParams}
use network_skill_lab.Client.Session.{
  after, send, open_terminal, Call, Value, Answer, Work, Session, progress_sent, result_sent, idle,
  running, answering, following, finished,
}
use network_skill_lab.Client.Work.{
  reply_of, answer_for, work_send, over, follow_for, work_follow, cancel_found, cancel,
}
use network_skill_lab.Client.Dispatch.{
  tracking, untracking, untracking_all, provisioned, is_gone, collected, stream_opened,
  terminal_from, provision_for, exec_for, destroy_for, open_terminal_for, resize_for,
  close_terminal_for, method_of, answer_with, dispatch_as, dispatch, is_provision, progress_for,
  report, dispatch_for, work_dispatch, Decoders, Provider, Method, provision_method, exec_method,
  destroy_method, gc_method, health_method, open_terminal_method, resize_method,
  close_terminal_method, unknown_method,
}
use network_skill_lab.Client.Ledger.{
  Same-refl, Same-Inv, grow-Inv, close_stream-Inv, open_terminal-Inv, InvOf,
}
use network_skill_lab.Client.Kept.{send-Inv, after-Inv}

module _ (n : ℕ) (s : Session) (v : InvOf n s) (small : suc n < 2 ^ 32) where
  stays : InvOf (suc n) s
  stays = grow-Inv n s v

  provisioned-Inv : (r : Result Failure String) → InvOf (suc n) ((provisioned r s).1)
  provisioned-Inv (err e) = stays
  provisioned-Inv (ok sandbox) = Same-Inv (suc n) s (tracking sandbox s) (Same-refl s) stays

  provision_for-Inv :
      (r : Result Failure ProvisionParams) (p : Provider) → InvOf (suc n) ((provision_for r p s).1)
  provision_for-Inv (err e) p = stays
  provision_for-Inv (ok params) p = provisioned-Inv _

  exec_for-Inv : (r : Result Failure ExecParams) (p : Provider) → InvOf (suc n) ((exec_for r p s).1)
  exec_for-Inv (err e) p = stays
  exec_for-Inv (ok params) p = stays

  untracked-Inv :
      (c : Bool) (sandbox : String) → InvOf (suc n) (if c then untracking sandbox s else s)
  untracked-Inv true sandbox = Same-Inv (suc n) s (untracking sandbox s) (Same-refl s) stays
  untracked-Inv false sandbox = stays

  destroy_for-Inv :
      (r : Result Failure String) (p : Provider) → InvOf (suc n) ((destroy_for r p s).1)
  destroy_for-Inv (err e) p = stays
  destroy_for-Inv (ok sandbox) p = untracked-Inv (is_gone (p.destroy sandbox)) sandbox

  collected-Inv : (o : Option Failure) → InvOf (suc n) ((collected o s).1)
  collected-Inv none = Same-Inv (suc n) s (untracking_all s) (Same-refl s) stays
  collected-Inv (some e) = stays

  stream_opened-Inv :
      (is_cancelled : Bool) (p : Option (ℕ × ℕ) × Session)
      → InvOf (suc n) (p.1)
      → InvOf (suc n) ((stream_opened is_cancelled p).1)
  stream_opened-Inv is_cancelled (none, t) h = h
  stream_opened-Inv is_cancelled (some (id, k), t) h = h

  terminal_from-Inv :
      (o : Option Failure) (is_cancelled : Bool)
      → InvOf (suc n) ((terminal_from o is_cancelled s).1)
  terminal_from-Inv (some e) is_cancelled = stays
  terminal_from-Inv none is_cancelled =
      stream_opened-Inv is_cancelled (open_terminal is_cancelled s)
        (open_terminal-Inv n is_cancelled s small v)

  open_terminal_for-Inv :
      (r : Result Failure (String × String)) (p : Provider) (is_cancelled : Bool)
      → InvOf (suc n) ((open_terminal_for r p is_cancelled s).1)
  open_terminal_for-Inv (err e) p is_cancelled = stays
  open_terminal_for-Inv (ok (sandbox, node)) p is_cancelled =
      terminal_from-Inv (p.open_terminal sandbox node) is_cancelled

  resize_for-Inv :
      (r : Result Failure (ℕ × ℕ × ℕ)) (p : Provider) → InvOf (suc n) ((resize_for r p s).1)
  resize_for-Inv (err e) p = stays
  resize_for-Inv (ok (id, cols, rows)) p = stays

  close_terminal_for-Inv : (r : Result Failure ℕ) → InvOf (suc n) ((close_terminal_for r s).1)
  close_terminal_for-Inv (err e) = stays
  close_terminal_for-Inv (ok id) = close_stream-Inv (suc n) id s stays

  module _ (quote : String → String) (json : Decoders) where
    dispatch_as-Inv :
        (m : Method) (p : Provider) (is_cancelled : Bool) (call : Call)
        → InvOf (suc n) ((dispatch_as quote json m p is_cancelled call s).1)
    dispatch_as-Inv provision_method p is_cancelled call = provision_for-Inv _ p
    dispatch_as-Inv exec_method p is_cancelled call = exec_for-Inv _ p
    dispatch_as-Inv destroy_method p is_cancelled call = destroy_for-Inv _ p
    dispatch_as-Inv gc_method p is_cancelled call = collected-Inv p.gc
    dispatch_as-Inv health_method p is_cancelled call = stays
    dispatch_as-Inv open_terminal_method p is_cancelled call =
        open_terminal_for-Inv _ p is_cancelled
    dispatch_as-Inv resize_method p is_cancelled call = resize_for-Inv _ p
    dispatch_as-Inv close_terminal_method p is_cancelled call = close_terminal_for-Inv _
    dispatch_as-Inv unknown_method p is_cancelled call = stays

    answer_with-Inv :
        (k : ℕ) (call : Call) (p : Answer × Session)
        → InvOf (suc n) (p.1)
        → InvOf (suc n) (answer_with k call p)
    answer_with-Inv k call (answer, t) h =
        Same-Inv (suc n) t (answer_with k call (answer, t)) (Same-refl t) h

    pub work_dispatch-Inv : (k : ℕ) (p : Provider) → InvOf (suc n) (work_dispatch quote json k p s)
    unfolding work_dispatch dispatch
    work_dispatch-Inv k p = at (s.works k)
      where
        at : (w : Work) → InvOf (suc n) (dispatch_for quote json w k p s)
        at (running call) = answer_with-Inv k call _ (dispatch_as-Inv _ p _ call)
        at idle = stays
        at (answering call answer) = stays
        at (following call starts) = stays
        at finished = stays

    pub report-Inv :
        (k : ℕ) (name : String) (writes : Bool) → InvOf (suc n) (report quote json k name writes s)
    unfolding report
    report-Inv k name writes = at (s.works k)
      where
        told :
            (c : Bool) (id : ℕ)
            → InvOf (suc n) (if c then send writes (progress_sent id name) s else s)
        told true id = send-Inv (suc n) writes (progress_sent id name) s stays
        told false id = stays

        at : (w : Work) → InvOf (suc n) (progress_for quote json w name writes s)
        at (running call) = told (is_provision quote json (method_of call.method) call) call.id
        at idle = stays
        at (answering call answer) = stays
        at (following call starts) = stays
        at finished = stays

  pub work_send-Inv :
      (marshal : Value → Option Bytes) (encode_failure : ℕ → Failure) (k : ℕ) (writes : Bool)
      → InvOf (suc n) (work_send marshal encode_failure k writes s)
  unfolding work_send
  work_send-Inv marshal encode_failure k writes = at (s.works k)
    where
      at : (w : Work) → InvOf (suc n) (answer_for marshal encode_failure w k writes s)
      at (answering call answer) =
          let sent = send writes (result_sent (reply_of marshal encode_failure call.id answer)) s in
          Same-Inv (suc n) sent
            (answer_for marshal encode_failure (answering call answer) k writes s) (Same-refl sent)
            (send-Inv (suc n) writes _ s stays)
      at idle = stays
      at (running call) = stays
      at (following call starts) = stays
      at finished = stays

  pub work_follow-Inv : (k : ℕ) → InvOf (suc n) (work_follow k s)
  unfolding work_follow
  work_follow-Inv k = at (s.works k)
    where
      at : (w : Work) → InvOf (suc n) (follow_for w k s)
      at (following call starts) =
          Same-Inv (suc n) (after starts s) (over k call (after starts s))
            (Same-refl (after starts s)) (after-Inv (suc n) starts s stays)
      at idle = stays
      at (running call) = stays
      at (answering call answer) = stays
      at finished = stays

  pub cancel-Inv : (id : ℕ) → InvOf (suc n) (cancel id s)
  unfolding cancel
  cancel-Inv id = found (s.calls id)
    where
      found : (o : Option ℕ) → InvOf (suc n) (cancel_found o s)
      found none = stays
      found (some k) = Same-Inv (suc n) s (cancel_found (some k) s) (Same-refl s) stays
