-- ===== src/Client/Stages.antt =====
-- How far each call of a session is, as far as the ids of its terminals are concerned.
use network_skill_lab.Prelude.{
  Bool, Option, Result, ap, arith, none, ok, refl, set, set-elim, some, subst, sym, true, ℕ, ◌<◌,
  ◌∙◌, ◌≡◌, ◌≤◌,
}
use network_skill_lab.Content.Lab.{Bytes}
use network_skill_lab.Protocol.Failure.{Failure, new_result, of_bytes}
use network_skill_lab.Client.Session.{
  after, send, start_pumps, Call, Value, Answer, Work, Session, result_sent, stream_value, idle,
  running, answering, following, finished,
}
use network_skill_lab.Client.Dispatch.{
  method_of, answer_with, dispatch, dispatch_for, work_dispatch, Provider,
}
use network_skill_lab.Client.Work.{
  reply_or, reply_of, answer_for, work_send, follow_for, work_follow,
}
use network_skill_lab.Client.Log.{
  Announces, Ordered, Known, Moves, Grows, Grows-refl, send-Known, send-Grows,
}
use network_skill_lab.Client.Steps.{Codec}
use network_skill_lab.Client.Answers.{Fit, FitAnswer, Good, dispatch_as-Good}

module _ (c : Codec) where
  abbrev pub Starts : Session → Option (ℕ × ℕ) → Type 0
  Starts s none = Unit
  Starts s (some (id, k)) = Known c.marshal s id × ((s.terminals k).number ≡ id) × (k < s.opened)

  abbrev pub Stage : Session → Work → Type 0
  Stage s (answering call a) = FitAnswer s a
  Stage s (following call o) = Starts s o
  Stage s _ = Unit

  pub record Inv (s : Session) : Type 0 where
    pub ordered : Ordered c.marshal s.sent
    pub pumps :
        (k : ℕ)
        → (s.terminals k).pumps_output ≡ true
        → (k < s.opened) × Known c.marshal s (s.terminals k).number
    pub works : (k : ℕ) → Stage s (s.works k)

  -- The part of `Moves` that tells of the terminals' ids.
  abbrev pub Widens : Session → Session → Type 0
  Widens s t =
      ((id : ℕ) → Known c.marshal s id → Known c.marshal t id)
      × (s.opened ≤ t.opened)
      × ((k : ℕ) → k < s.opened → (t.terminals k).number ≡ (s.terminals k).number)

  Fit-Widens :
      (s t : Session) (outcome : Result Failure (Option Value)) (o : Option (ℕ × ℕ))
      → Widens s t
      → Fit s outcome o
      → Fit t outcome o
  Fit-Widens s t outcome none g f = tt
  Fit-Widens s t outcome (some (id, k)) g f = (f.0, g.2 k f.2 ∙ f.1, omega (arith, g.1, f.2))

  Starts-Widens : (s t : Session) (o : Option (ℕ × ℕ)) → Widens s t → Starts s o → Starts t o
  Starts-Widens s t none g f = tt
  Starts-Widens s t (some (id, k)) g f = (g.0 id f.0, g.2 k f.2 ∙ f.1, omega (arith, g.1, f.2))

  Stage-Widens : (s t : Session) (w : Work) → Widens s t → Stage s w → Stage t w
  Stage-Widens s t (answering call a) g f = Fit-Widens s t a.outcome a.after g f
  Stage-Widens s t (following call o) g f = Starts-Widens s t o g f
  Stage-Widens s t idle g f = tt
  Stage-Widens s t (running call) g f = tt
  Stage-Widens s t finished g f = tt

  Stage-Moves : (s t : Session) (w : Work) → Moves c.marshal s t → Stage s w → Stage t w
  Stage-Moves s t w g = Stage-Widens s t w (g.1, g.2, g.3)

  -- A step after which every work is as far as its stage asks.
  grown-Inv :
      (s t : Session) → Moves c.marshal s t → ((k : ℕ) → Stage t (t.works k)) → Inv s → Inv t
  grown-Inv s t g works v = record {
    ordered = g.0 v.ordered;
    pumps = λ k on.
        let was = v.pumps k (g.4 k on) in
        (
          omega (arith, was.0, g.2),
          subst (λ id. Known c.marshal t id) (sym (g.3 k was.0)) (g.1 (s.terminals k).number was.1),
        );
    works = works;
  }

  pub same-Inv : (s t : Session) → Grows c.marshal s t → Inv s → Inv t
  same-Inv s t (e, g) v =
      grown-Inv s t g
        (λ k.
          subst (λ works. Stage t (works k)) (sym e) (Stage-Moves s t (s.works k) g (v.works k)))
        v

  -- A step that puts `w` for the work `j`.
  pub put-Inv :
      (s t : Session) (j : ℕ) (w : Work)
      → Moves c.marshal s t
      → t.works ≡ set j w s.works
      → Stage t w
      → Inv s
      → Inv t
  put-Inv s t j w g e f v =
      grown-Inv s t g
        (λ k.
          subst (λ works. Stage t (works k)) (sym e)
            (set-elim (Stage t) j k w s.works (λ h. f) (Stage-Moves s t (s.works k) g (v.works k))))
        v

  pub work_dispatch-Inv :
      (k : ℕ) (p : Provider) (s : Session) → Inv s → Inv (work_dispatch c.quote c.json k p s)
  unfolding work_dispatch dispatch
  work_dispatch-Inv k p s v = at (s.works k)
    where
      answered : (call : Call) (r : Answer × Session) → Good c s r → Inv (answer_with k call r)
      answered call (a, t) good =
          put-Inv s (answer_with k call (a, t)) k (answering call a) (good.0.1)
            (ap (set k (answering call a)) (good.0.0)) good.1 v

      at : (w : Work) → Inv (dispatch_for c.quote c.json w k p s)
      at (running call) = answered call _ (dispatch_as-Good c s (method_of call.method) p _ call)
      at idle = v
      at (answering call a) = v
      at (following call o) = v
      at finished = v

  reply-Announces :
      (call id : ℕ) (bytes : Bytes)
      → c.marshal (stream_value id) ≡ some bytes
      → Announces c.marshal
          (result_sent (
            reply_or c.marshal c.encode_failure
              (new_result c.marshal call (ok (some (stream_value id))))
              call))
          id
  unfolding new_result
  reply-Announces call id bytes h = at (c.marshal (stream_value id)) refl
    where
      at :
          (o : Option Bytes)
          → c.marshal (stream_value id) ≡ o
          → Announces c.marshal
              (result_sent (reply_or c.marshal c.encode_failure (of_bytes c.marshal call o) call))
              id
      at none e = absurd (cc (e, h))
      at (some b) e = (refl, sym e)

  pub work_send-Inv :
      (k : ℕ) (writes : Bool) (s : Session)
      → ((id : ℕ) → (bytes : Bytes) × (c.marshal (stream_value id) ≡ some bytes))
      → Inv s
      → Inv (work_send c.marshal c.encode_failure k writes s)
  unfolding work_send
  work_send-Inv k writes s json v = at (s.works k) (v.works k)
    where
      sent : Call → Answer → Session
      sent call a = send writes (result_sent (reply_of c.marshal c.encode_failure call.id a)) s

      announces :
          (call : Call) (a : Answer) (id : ℕ)
          → a.outcome ≡ ok (some (stream_value id))
          → Announces c.marshal (result_sent (reply_of c.marshal c.encode_failure call.id a)) id
      announces call a id e =
          subst
            (λ outcome.
              Announces c.marshal
                (result_sent (
                  reply_or c.marshal c.encode_failure (new_result c.marshal call.id outcome)
                    call.id))
                id)
            (sym e) (reply-Announces call.id id (json id).0 (json id).1)

      told :
          (call : Call) (a : Answer) (o : Option (ℕ × ℕ))
          → Fit s a.outcome o
          → Starts (sent call a) o
      told call a none f = tt
      told call a (some (id, k')) f =
          let m = result_sent (reply_of c.marshal c.encode_failure call.id a) in
          let same = send-Grows c.marshal writes m s refl in
          (
            send-Known c.marshal writes m s id (announces call a id f.0),
            same.1.3 k' f.2 ∙ f.1,
            omega (arith, same.1.2, f.2),
          )

      at : (w : Work) → Stage s w → Inv (answer_for c.marshal c.encode_failure w k writes s)
      at (answering call a) f =
          put-Inv s (answer_for c.marshal c.encode_failure (answering call a) k writes s) k
            (following call a.after)
            ((send-Grows c.marshal writes
              (result_sent (reply_of c.marshal c.encode_failure call.id a)) s refl).1)
            (ap (set k (following call a.after)) (
              (send-Grows c.marshal writes
                (result_sent (reply_of c.marshal c.encode_failure call.id a)) s refl).0))
            (told call a a.after f) v
      at idle f = v
      at (running call) f = v
      at (following call o) f = v
      at finished f = v

  pub work_follow-Inv : (k : ℕ) (s : Session) → Inv s → Inv (work_follow k s)
  unfolding work_follow after
  work_follow-Inv k s v = at (s.works k) (v.works k)
    where
      at : (w : Work) → Stage s w → Inv (follow_for w k s)
      at (following call none) f =
          put-Inv s (follow_for (following call none) k s) k finished ((Grows-refl c.marshal s).1)
            refl tt v
      at (following call (some (id, k'))) f =
          let t = follow_for (following call (some (id, k'))) k s in
          let numbers : (j : ℕ) → (t.terminals j).number ≡ (s.terminals j).number = λ j.
            set-elim (λ u. u.number ≡ (s.terminals j).number) k' j (start_pumps (s.terminals k'))
              s.terminals (ap (λ i. (s.terminals i).number)) refl in
          record {
            ordered = v.ordered;
            pumps = λ j.
                set-elim (λ u. u.pumps_output ≡ true → (j < s.opened) × Known c.marshal s u.number)
                  k' j (start_pumps (s.terminals k')) s.terminals
                  (λ e on. (omega (arith, e, f.2), subst (λ i. Known c.marshal s i) (sym f.1) f.0))
                  (v.pumps j);
            works = λ j.
                set-elim (Stage t) k j finished s.works (λ e. tt)
                  (Stage-Widens s t (s.works j) ((λ i h. h), omega arith, λ i h. numbers i)
                    (v.works j));
          }
      at idle f = v
      at (running call) f = v
      at (answering call a) f = v
      at finished f = v
