-- ===== src/Client/Work.antt =====
-- `start` and `cancel` of internal/runnerclient/session.go, less what a goroutine does in `dispatch`.
use network_skill_lab.Prelude.{Bool, Option, false, length, none, set, some, suc, true, ℕ}
use network_skill_lab.Content.Lab.{Bytes}
use network_skill_lab.Protocol.Failure.{Failure, Reply, new_result, error_code}
use network_skill_lab.Client.Session.{
  after, send, Call, Value, Answer, Work, Session, ping_sent, result_sent, running, answering,
  following, finished,
}

-- The part of `start` before its goroutine.
unfoldable pub start : Call → Session → Session
start call s = record s {
  calls = set call.id (some s.next_work) s.calls;
  works = set s.next_work (running call) s.works;
  next_work = suc s.next_work;
}

-- `json.Marshal` of a value is the parameter `marshal`, and `encode_failure` the error that it makes
-- `NewResult` return.
module _ (marshal : Value → Option Bytes) (encode_failure : ℕ → Failure) where
  abbrev pub failure_reply : ℕ → Failure → Reply
  failure_reply id e = record {
    id = id;
    is_ok = false;
    value = none;
    message = e.message;
    code = error_code e;
  }

  abbrev pub reply_or : Option Reply → ℕ → Reply
  reply_or (some r) id = r
  reply_or none id = failure_reply id (encode_failure id)

  abbrev pub reply_of : ℕ → Answer → Reply
  reply_of id answer = reply_or (new_result marshal id answer.outcome) id

  abbrev pub answer_for : Work → ℕ → Bool → Session → Session
  answer_for (answering call answer) k writes s =
      let sent = send writes (result_sent (reply_of call.id answer)) s in
      record sent { works = set k (following call answer.after) sent.works }
  answer_for _ k writes s = s

  -- A goroutine of `start` sends its result.
  unfoldable pub work_send : ℕ → Bool → Session → Session
  work_send k writes s = answer_for (s.works k) k writes s

abbrev pub over : ℕ → Call → Session → Session
over k call s = record s {
  calls = set call.id none s.calls;
  cancelled = set k true s.cancelled;
  works = set k finished s.works;
}

abbrev pub follow_for : Work → ℕ → Session → Session
follow_for (following call starts) k s = over k call (after starts s)
follow_for _ k s = s

-- A goroutine of `start` calls `after` and its deferred function.
unfoldable pub work_follow : ℕ → Session → Session
work_follow k s = follow_for (s.works k) k s

abbrev pub cancel_found : Option ℕ → Session → Session
cancel_found none s = s
cancel_found (some k) s = record s { cancelled = set k true s.cancelled }

-- `cancel`
unfoldable pub cancel : ℕ → Session → Session
cancel id s = cancel_found (s.calls id) s

-- A round of `ping`.
unfoldable pub ping : Bool → Session → Session
ping writes s = send writes (ping_sent (length s.sandboxes)) s
