-- ===== src/Client/Order.antt =====
-- That the control plane knows a terminal before its first frame arrives.
use network_skill_lab.Prelude.{
  Bool, List, Option, String, [], false, if◌then◌else◌, length, none, refl, some, true, ℕ, ◌∷◌, ◌≡◌,
}
use network_skill_lab.Content.Lab.{Bytes}
use network_skill_lab.Client.Session.{
  new_session, send, begin_close, close_next, Work, Session, ping_sent, progress_sent, stream_value,
  idle, running, answering, following, finished,
}
use network_skill_lab.Client.Pumps.{pump_output, pump_input, input}
use network_skill_lab.Client.Dispatch.{method_of, is_provision, progress_for, report}
use network_skill_lab.Client.Work.{start, cancel_found, cancel, ping}
use network_skill_lab.Client.Log.{Ordered, Grows-refl, send-Grows}
use network_skill_lab.Client.Quiet.{
  close_next-Grows, pump_input-Grows, input-Grows, pump_output-Grows,
}
use network_skill_lab.Client.Steps.{
  Codec, Step, step, run, calls, cancels, reports, dispatches, sends, follows, pings, inputs,
  outputs, drains, ends, closes_next,
}
use network_skill_lab.Client.Stages.{
  Inv, same-Inv, put-Inv, work_dispatch-Inv, work_send-Inv, work_follow-Inv,
}

module _ (c : Codec) where
  step-Inv :
      ((id : ℕ) → (bytes : Bytes) × (c.marshal (stream_value id) ≡ some bytes))
      → (e : Step) (s : Session) → Inv c s
      → Inv c (step c e s)
  unfolding start ping cancel report begin_close
  step-Inv json (calls call) s v =
      put-Inv c s (start call s) s.next_work (running call) ((Grows-refl c.marshal s).1) refl tt v
  step-Inv json (cancels id) s v = found (s.calls id)
    where
      found : (o : Option ℕ) → Inv c (cancel_found o s)
      found none = v
      found (some k) = same-Inv c s (cancel_found (some k) s) (Grows-refl c.marshal s) v
  step-Inv json (reports k name writes) s v = at (s.works k)
    where
      told : (b : Bool) (id : ℕ) → Inv c (if b then send writes (progress_sent id name) s else s)
      told true id =
          let m = progress_sent id name in
          same-Inv c s (send writes m s) (send-Grows c.marshal writes m s refl) v
      told false id = v

      at : (w : Work) → Inv c (progress_for c.quote c.json w name writes s)
      at (running call) = told (is_provision c.quote c.json (method_of call.method) call) call.id
      at idle = v
      at (answering call a) = v
      at (following call o) = v
      at finished = v
  step-Inv json (dispatches k p) s v = work_dispatch-Inv c k p s v
  step-Inv json (sends k writes) s v = work_send-Inv c k writes s json v
  step-Inv json (follows k) s v = work_follow-Inv c k s v
  step-Inv json (pings writes) s v =
      let m = ping_sent (length s.sandboxes) in
      same-Inv c s (send writes m s) (send-Grows c.marshal writes m s refl) v
  step-Inv json (inputs frame is_done_first tells) s v =
      same-Inv c s (input frame is_done_first tells s)
        (input-Grows c.marshal frame is_done_first tells s) v
  step-Inv json (outputs k bytes fails writes tells) s v =
      same-Inv c s (pump_output bytes fails writes tells k s)
        (pump_output-Grows c.marshal bytes fails writes tells k s (λ on. (v.pumps k on).1)) v
  step-Inv json (drains k is_done_first fails) s v =
      same-Inv c s (pump_input is_done_first fails k s)
        (pump_input-Grows c.marshal is_done_first fails k s) v
  step-Inv json ends s v = same-Inv c s (begin_close s) (Grows-refl c.marshal s) v
  step-Inv json closes_next s v = same-Inv c s (close_next s) (close_next-Grows c.marshal s) v

  run-Inv :
      ((id : ℕ) → (bytes : Bytes) × (c.marshal (stream_value id) ≡ some bytes))
      → (steps : List Step) (s : Session) → Inv c s
      → Inv c (run c steps s)
  run-Inv json [] s v = v
  run-Inv json (e ∷ steps) s v = run-Inv json steps (step c e s) (step-Inv json e s v)

  new_session-Inv : (sandboxes : List String) → Inv c (new_session sandboxes)
  unfolding new_session
  new_session-Inv sandboxes = record { ordered = tt; pumps = λ k on. absurd (cc); works = λ k. tt }

  -- Where `json.Marshal` of a stream's id makes bytes, in what a session has written after any steps each
  -- frame of a terminal is newer than a result that gives the control plane its id.
  pub announced_first :
      ((id : ℕ) → (bytes : Bytes) × (c.marshal (stream_value id) ≡ some bytes))
      → (sandboxes : List String) (steps : List Step)
      → Ordered c.marshal (run c steps (new_session sandboxes)).sent
  announced_first json sandboxes steps =
      let v = run-Inv json steps (new_session sandboxes) (new_session-Inv sandboxes) in v.ordered
