-- ===== src/Client/Steps.antt =====
-- The steps of one session, in any order: its reader, the goroutines of its calls, its pumps and its
-- end. A goroutine that cannot take a step leaves the session as it is.
use network_skill_lab.Prelude.{
  Bool, List, Option, String, [], ap, arith, length, ltb, one_if, refl, subst, suc, true, ℕ, ◌+◌,
  ◌<◌, ◌^◌, ◌∷◌, ◌≡◌, ◌≤◌,
}
use network_skill_lab.Content.Lab.{Bytes}
use network_skill_lab.Protocol.Failure.{Failure}
use network_skill_lab.Client.Session.{
  new_session, keys, begin_close, close_next, Call, Value, Session,
}
use network_skill_lab.Client.Pumps.{pump_output, pump_input, input}
use network_skill_lab.Client.Work.{start, work_send, work_follow, cancel, ping}
use network_skill_lab.Client.Entries.{listed, has}
use network_skill_lab.Client.Dispatch.{report, work_dispatch, Decoders, Provider}
use network_skill_lab.Client.Ledger.{
  Same-refl, Same-Inv, grow-Inv, close_next-Inv, begin_close-Inv, InvOf,
}
use network_skill_lab.Client.Kept.{send-Inv, pump_output-Inv, pump_input-Inv, input-Inv}
use network_skill_lab.Client.Calls.{
  work_dispatch-Inv, report-Inv, work_send-Inv, work_follow-Inv, cancel-Inv,
}

pub data Step : Type 0 where
  calls : Call → Step
  cancels : ℕ → Step
  reports : ℕ → String → Bool → Step
  dispatches : ℕ → Provider → Step
  sends : ℕ → Bool → Step
  follows : ℕ → Step
  pings : Bool → Step
  inputs : Bytes → Bool → Bool → Step
  outputs : ℕ → Bytes → Bool → Bool → Bool → Step
  drains : ℕ → Bool → Bool → Step
  ends closes_next : Step

none_has : (id : ℕ) → ¬ (has id [] ≡ true)
unfolding has
none_has id h = absurd (cc)

none_left : (ss : List (ℕ × ℕ)) → ((id : ℕ) → ¬ (has id (keys ss) ≡ true)) → ss ≡ []
unfolding has
none_left [] h = refl
none_left ((n, k) ∷ ss) h = absurd (h n (ground arith))

-- `strconv.Quote`, `json.Unmarshal`, `json.Marshal` and the error of the last are parameters.
pub record Codec : Type 0 where
  pub quote : String → String
  pub json : Decoders
  pub marshal : Value → Option Bytes
  pub encode_failure : ℕ → Failure

module _ (c : Codec) where
  abbrev pub step : Step → Session → Session
  step (calls call) s = start call s
  step (cancels id) s = cancel id s
  step (reports k name writes) s = report c.quote c.json k name writes s
  step (dispatches k p) s = work_dispatch c.quote c.json k p s
  step (sends k writes) s = work_send c.marshal c.encode_failure k writes s
  step (follows k) s = work_follow k s
  step (pings writes) s = ping writes s
  step (inputs frame is_done_first tells) s = input frame is_done_first tells s
  step (outputs k bytes fails writes tells) s = pump_output bytes fails writes tells k s
  step (drains k is_done_first fails) s = pump_input is_done_first fails k s
  step ends s = begin_close s
  step closes_next s = close_next s

  abbrev pub run : List Step → Session → Session
  run [] s = s
  run (e ∷ steps) s = run steps (step e s)

  step-Inv :
      (n : ℕ) (e : Step) (s : Session) → suc n < 2 ^ 32 → InvOf n s → InvOf (suc n) (step e s)
  unfolding start ping
  step-Inv n (calls call) s small v =
      Same-Inv (suc n) s (start call s) (Same-refl s) (grow-Inv n s v)
  step-Inv n (cancels id) s small v = cancel-Inv n s v small id
  step-Inv n (reports k name writes) s small v = report-Inv n s v small c.quote c.json k name writes
  step-Inv n (dispatches k p) s small v = work_dispatch-Inv n s v small c.quote c.json k p
  step-Inv n (sends k writes) s small v =
      work_send-Inv n s v small c.marshal c.encode_failure k writes
  step-Inv n (follows k) s small v = work_follow-Inv n s v small k
  step-Inv n (pings writes) s small v = send-Inv (suc n) writes _ s (grow-Inv n s v)
  step-Inv n (inputs frame is_done_first tells) s small v =
      grow-Inv n _ (input-Inv n frame is_done_first tells s v)
  step-Inv n (outputs k bytes fails writes tells) s small v =
      grow-Inv n _ (pump_output-Inv n bytes fails writes tells k s v)
  step-Inv n (drains k is_done_first fails) s small v =
      grow-Inv n _ (pump_input-Inv n is_done_first fails k s v)
  step-Inv n ends s small v = grow-Inv n _ (begin_close-Inv n s v)
  step-Inv n closes_next s small v = grow-Inv n _ (close_next-Inv n s v)

  run-Inv :
      (n : ℕ) (steps : List Step) (s : Session)
      → n + length steps < 2 ^ 32
      → InvOf n s
      → InvOf (n + length steps) (run steps s)
  run-Inv n [] s small v = subst (λ m. InvOf m s) (omega arith) v
  run-Inv n (e ∷ steps) s small v =
      let next = step-Inv n e s (omega (arith, small)) v in
      let rest = run-Inv (suc n) steps (step e s) (omega (arith, small)) next in
      subst (λ m. InvOf m (run steps (step e s))) (omega arith) rest

  new_session-Inv : (sandboxes : List String) → InvOf 0 (new_session sandboxes)
  unfolding new_session listed has
  new_session-Inv sandboxes = record {
    once = λ k. ground arith;
    done = λ k. omega arith;
    falls = tt;
    counted = omega arith;
    few = omega arith;
    left = λ id h inside. absurd (cc);
  }

  reached-Inv :
      (sandboxes : List String) (steps : List Step)
      → length steps < 2 ^ 32
      → InvOf (length steps) (run steps (new_session sandboxes))
  reached-Inv sandboxes steps small =
      let v =
        run-Inv 0 steps (new_session sandboxes) (omega (arith, small))
          (new_session-Inv sandboxes) in
      subst (λ m. InvOf m (run steps (new_session sandboxes))) (omega arith) v

  -- After any steps of a new session, fewer than 2 ^ 32, each terminal that was opened is in the map
  -- once and has not been closed, or is no longer there and has been closed once; its channel `done` has
  -- not been closed more often.
  pub closes_once :
      (sandboxes : List String) (steps : List Step) (k : ℕ)
      → length steps < 2 ^ 32
      → (listed k (run steps (new_session sandboxes)).streams
            + ((run steps (new_session sandboxes)).terminals k).closes
          ≡ one_if (ltb k (run steps (new_session sandboxes)).opened))
        × (((run steps (new_session sandboxes)).terminals k).done
            ≤ ((run steps (new_session sandboxes)).terminals k).closes)
  closes_once sandboxes steps k small =
      let v = reached-Inv sandboxes steps small in (v.once k, v.done k)

  -- Once `closeStreams` has begun and has no id before it, each terminal that was opened, in fewer than
  -- 2 ^ 32 steps, has been closed exactly once, whatever the calls and the pumps did in between.
  pub closed_all :
      (sandboxes : List String) (steps : List Step) (k : ℕ)
      → length steps < 2 ^ 32
      → (run steps (new_session sandboxes)).closed ≡ true
      → (run steps (new_session sandboxes)).closing ≡ []
      → k < (run steps (new_session sandboxes)).opened
      → ((run steps (new_session sandboxes)).terminals k).closes ≡ 1
  unfolding listed
  closed_all sandboxes steps k small shut_now empty inside =
      let s = run steps (new_session sandboxes) in
      let v = reached-Inv sandboxes steps small in
      let gone : s.streams ≡ [] =
        none_left s.streams
          (λ id h. none_has id (subst (λ ids. has id ids ≡ true) empty (v.left id shut_now h))) in
      let unlisted : listed k s.streams ≡ 0 = ap (listed k) gone in
      ground (arith, v.once k, unlisted, inside)
