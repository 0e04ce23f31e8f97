-- ===== src/Server/Replies.antt =====
-- That each call is answered at most once, whatever the runner and the callers do.
use network_skill_lab.Prelude.{
  Bool, Bool-cases, List, Option, Option-cases, String, [], arith, false, if◌then◌else◌, inl, inr,
  none, refl, set, some, str_eq, subst, suc, true, ℕ, ◌&&◌, ◌+◌, ◌<◌, ◌==◌, ◌^◌, ◌∷◌, ◌≡◌, ◌≤◌,
}
use network_skill_lab.Content.Lab.{Bytes}
use network_skill_lab.Protocol.Failure.{Reply}
use network_skill_lab.Server.Conn.{
  next_of, start_call, begin_call, Delivered, Conn, forget, teardown, give_up, handle_result,
  close_object, open_stream, deliver, opened, open_as, Sent, call_sent, cancel_sent,
}
use network_skill_lab.Server.Keeps.{Keeps, calls_to, close_object-Keeps}

abbrev pub replies_to : ℕ → List Delivered → ℕ
replies_to id [] = 0
replies_to id (d ∷ ds) = (if d.call == id then 1 else 0) + replies_to id ds

abbrev pub waiting : Option String → ℕ
waiting none = 0
waiting (some method) = 1

-- The calls with an id, of which there is at most one, have a reply or wait for it, never both. `n`
-- bounds the ids that were drawn, of which `next` is the last.
pub record Inv (n next : ℕ) (pending : ℕ → Option String) (replies : List Delivered)
    (sent : List Sent) : Type 0 where
  pub once : (id : ℕ) → replies_to id replies + waiting (pending id) ≤ calls_to id sent
  pub single : (id : ℕ) → calls_to id sent ≤ 1
  pub fresh : (id : ℕ) → next < id → calls_to id sent ≡ 0
  pub drawn : next ≤ n

abbrev pub InvOf : ℕ → Conn → Type 0
InvOf n c = Inv n c.next_id c.pending c.replies c.sent

module _ (n next : ℕ) (pending : ℕ → Option String) (replies : List Delivered)
    (sent : List Sent) where
  pub grow-Inv : Inv n next pending replies sent → Inv (suc n) next pending replies sent
  grow-Inv v = record {
    once = v.once;
    single = v.single;
    fresh = v.fresh;
    drawn = omega (arith, v.drawn);
  }

  draw-Inv : Inv n next pending replies sent → Inv (suc n) (next + 1) pending replies sent
  draw-Inv v = record {
    once = v.once;
    single = v.single;
    fresh = λ id h. v.fresh id (omega arith);
    drawn = omega (arith, v.drawn);
  }

  drop-Inv :
      (id : ℕ) → Inv n next pending replies sent → Inv n next (set id none pending) replies sent
  drop-Inv id v = record {
    once = λ j. ground (arith, v.once j);
    single = v.single;
    fresh = v.fresh;
    drawn = v.drawn;
  }

  -- A call that is sent has the next id.
  put-Inv :
      (method : String)
      → Inv n next pending replies sent
      → Inv
          (suc n)
          (next + 1)
          (set (next + 1) (some method) pending)
          replies
          (call_sent (next + 1) method ∷ sent)
  put-Inv method v = record {
    once = λ id. ground (arith, v.once id, v.fresh id);
    single = λ id. ground (arith, v.single id, v.fresh id);
    fresh = λ id h. ground (arith, v.fresh id);
    drawn = omega (arith, v.drawn);
  }

  answer-Inv :
      (d : Delivered) (method : String)
      → pending d.call ≡ some method
      → Inv n next pending replies sent
      → Inv n next (set d.call none pending) (d ∷ replies) sent
  answer-Inv d method p v = record {
    once = λ j. elim (Bool-cases (d.call == j)) [
      | inl e ↦
          let same : d.call ≡ j = ground (arith, e) in
          let waits : pending j ≡ some method = subst (λ k. pending k ≡ some method) same p in
          let old = rw waits at (v.once j) in rw e (omega (arith, old))
      | inr e ↦ rw e (omega (arith, v.once j))
    ];
    single = v.single;
    fresh = v.fresh;
    drawn = v.drawn;
  }

  same-Inv :
      (sent' : List Sent)
      → ((id : ℕ) → calls_to id sent' ≡ calls_to id sent)
      → Inv n next pending replies sent
      → Inv n next pending replies sent'
  same-Inv sent' s v = record {
    once = λ id. rw (s id) (v.once id);
    single = λ id. rw (s id) (v.single id);
    fresh = λ id h. rw (s id) (v.fresh id h);
    drawn = v.drawn;
  }

pub Keeps-Inv : (n : ℕ) (c c' : Conn) → suc n < 2 ^ 64 → Keeps c c' → InvOf n c → InvOf (suc n) c'
Keeps-Inv n c c' small (p, r, s, d) v =
    let w = same-Inv n c.next_id c.pending c.replies c.sent c'.sent s v in
    elim d [
      | inl e ↦ rw (e, p, r) (grow-Inv n c.next_id c.pending c.replies c'.sent w)
      | inr e ↦
          let next : c'.next_id ≡ c.next_id + 1 = omega (arith, e, v.drawn) in
          rw (next, p, r) (draw-Inv n c.next_id c.pending c.replies c'.sent w)
    ]

pub begin_call-Inv :
    (n : ℕ) (method : String) (sends : Bool) (c : Conn)
    → suc n < 2 ^ 64
    → InvOf n c
    → InvOf (suc n) (begin_call method sends c).1
unfolding begin_call
begin_call-Inv n method sends c small v =
    let new : next_of c.next_id ≡ c.next_id + 1 = omega (arith, v.drawn) in
    rw new (started c.done sends)
  where
    next : Inv (suc n) (c.next_id + 1) c.pending c.replies c.sent
    next = draw-Inv n c.next_id c.pending c.replies c.sent v

    started :
        (d s : Bool)
        → let id = c.next_id + 1 in
          InvOf (suc n) (start_call d s id method (record c { next_id = id })).1
    started true s = next
    started false true = put-Inv n c.next_id c.pending c.replies c.sent method v
    started false false =
        drop-Inv (suc n) (c.next_id + 1) c.pending c.replies c.sent (c.next_id + 1) next

forget-Inv : (n id : ℕ) (c : Conn) → InvOf n c → InvOf n (forget id c)
unfolding forget
forget-Inv n id c v = drop-Inv n c.next_id c.pending c.replies c.sent id v

pub teardown-Inv : (n : ℕ) (c : Conn) → InvOf n c → InvOf n (teardown c)
unfolding teardown
teardown-Inv n c v = record {
  once = λ id. omega (arith, v.once id);
  single = v.single;
  fresh = v.fresh;
  drawn = v.drawn;
}

cancelled :
    (n : ℕ) (c : Conn) (id : ℕ) → InvOf n c → InvOf n (record c { sent = cancel_sent id ∷ c.sent })
cancelled n c id v =
    same-Inv n c.next_id c.pending c.replies c.sent (cancel_sent id ∷ c.sent) (λ j. refl) v

pub give_up-Inv :
    (n id : ℕ) (k : Option ℕ) (c : Conn)
    → suc n < 2 ^ 64
    → InvOf n c
    → InvOf (suc n) (give_up id k c)
unfolding give_up
give_up-Inv n id none c small v =
    cancelled (suc n) (forget id c) id (grow-Inv n _ _ _ _ (forget-Inv n id c v))
give_up-Inv n id (some k) c small v = cancelled (suc n) (close_object k (forget id c)) id (
    Keeps-Inv n (forget id c) (close_object k (forget id c)) small
      (close_object-Keeps k (forget id c)) (forget-Inv n id c v))

module _ (decode : Option Bytes → Option ℕ) where
  pub handle_result-Inv :
      (n : ℕ) (r : Reply) (c : Conn) → InvOf n c → InvOf n (handle_result decode r c)
  unfolding handle_result open_stream forget
  handle_result-Inv n r c v = elim (Option-cases (c.pending r.id)) [
    | inl e ↦ rw e v
    | inr (method, e) ↦ rw e (answered (str_eq method "open_terminal" && r.is_ok) method e)
  ]
    where
      answered :
          (b : Bool) (method : String)
          → c.pending r.id ≡ some method
          → InvOf n (deliver decode r (opened decode b r (forget r.id c)))
      answered false method e = answer-Inv n c.next_id c.pending c.replies c.sent _ method e v
      answered true method e = shown (decode r.value)
        where
          shown : (o : Option ℕ) → InvOf n (deliver decode r (open_as o (forget r.id c)))
          shown none = answer-Inv n c.next_id c.pending c.replies c.sent _ method e v
          shown (some k) = answer-Inv n c.next_id c.pending c.replies c.sent _ method e v
