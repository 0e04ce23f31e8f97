-- ===== src/Client/Ledger.antt =====
-- Which terminals of a session are in its map, and how often each is closed.
use network_skill_lab.Prelude.{
  Bool, List, Option, [], ap, arith, false, if◌then◌else◌, ltb, none, one_if, refl, set, some,
  subst, suc, sym, true, ℕ, ◌+◌, ◌<◌, ◌==◌, ◌^◌, ◌∙◌, ◌∷◌, ◌≡◌, ◌≢◌, ◌≤◌,
}
use network_skill_lab.Client.Session.{
  stream, without, keys, Session, close_stream, shut_found, Terminal, shut, close_next, begin_close,
  open_terminal, close_first, close_pty, open_as, no_terminal, next_of, new_terminal,
}
use network_skill_lab.Client.Entries.{
  listed, has, Falls, without-fresh, without-Falls, listed-without, without-unknown, has-without,
}

-- Of the first `opened` terminals, each is either in the map and not closed, or closed once; `done` is
-- closed no more often. After `closed` is set, the ids in the map are still to be closed.
pub record InvOf (n : ℕ) (s : Session) : Type 0 where
  pub once : (k : ℕ) → listed k s.streams + (s.terminals k).closes ≡ one_if (ltb k s.opened)
  pub done : (k : ℕ) → (s.terminals k).done ≤ (s.terminals k).closes
  pub falls : Falls (suc s.next_stream) s.streams
  pub counted : s.next_stream ≤ s.opened
  pub few : s.opened ≤ n
  pub left : (id : ℕ) → s.closed ≡ true → has id (keys s.streams) ≡ true → has id s.closing ≡ true

-- What an operation keeps that neither opens nor closes a terminal.
abbrev pub Same : Session → Session → Type 0
Same s t =
    (t.streams ≡ s.streams)
    × (t.next_stream ≡ s.next_stream)
    × (t.opened ≡ s.opened)
    × (t.closed ≡ s.closed)
    × (t.closing ≡ s.closing)
    × ((k : ℕ) → (t.terminals k).closes ≡ (s.terminals k).closes)
    × ((k : ℕ) → (t.terminals k).done ≡ (s.terminals k).done)

-- For any session that differs in other fields alone.
pub Same-refl : (s : Session) → Same s s
Same-refl s = (refl, refl, refl, refl, refl, (λ k. refl), λ k. refl)

pub Same-Inv : (n : ℕ) (s t : Session) → Same s t → InvOf n s → InvOf n t
Same-Inv n s t same v = record {
  once = λ k.
      ap (λ ss. listed k ss + (t.terminals k).closes) same.0
      ∙ ap (λ c. listed k s.streams + c) (same.5 k)
      ∙ v.once k
      ∙ ap (λ o. one_if (ltb k o)) (sym same.2);
  done = λ k. omega (arith, same.5 k, same.6 k, v.done k);
  falls =
      subst (λ ss. Falls (suc t.next_stream) ss) (sym same.0)
        (subst (λ m. Falls (suc m) s.streams) (sym same.1) v.falls);
  counted = omega (arith, same.1, same.2, v.counted);
  few = omega (arith, same.2, v.few);
  left = λ id shut_now inside.
      subst (λ ids. has id ids ≡ true) (sym same.4)
        (v.left id (sym same.3 ∙ shut_now) (sym (ap (λ ss. has id (keys ss)) same.0) ∙ inside));
}

pub grow-Inv : (n : ℕ) (s : Session) → InvOf n s → InvOf (suc n) s
grow-Inv n s v = record {
  once = v.once;
  done = v.done;
  falls = v.falls;
  counted = v.counted;
  few = omega (arith, v.few);
  left = v.left;
}

pub if-closes :
    (c : Bool) (t u : Terminal) → (if c then t else u).closes ≡ (if c then t.closes else u.closes)
if-closes true t u = refl
if-closes false t u = refl

pub if-done :
    (c : Bool) (t u : Terminal) → (if c then t else u).done ≡ (if c then t.done else u.done)
if-done true t u = refl
if-done false t u = refl

set-closes :
    (k j : ℕ) (ts : ℕ → Terminal)
    → (set k (shut (ts k)) ts j).closes ≡ (ts j).closes + one_if (k == j)
unfolding shut
set-closes k j ts =
    let same : k ≡ j → (ts k).closes ≡ (ts j).closes = ap (λ i. (ts i).closes) in
    ground (arith, if-closes (k == j) (shut (ts k)) (ts j), same)

set-done :
    (k j : ℕ) (ts : ℕ → Terminal) → (set k (shut (ts k)) ts j).done ≡ (ts j).done + one_if (k == j)
unfolding shut
set-done k j ts =
    let same : k ≡ j → (ts k).done ≡ (ts j).done = ap (λ i. (ts i).done) in
    ground (arith, if-done (k == j) (shut (ts k)) (ts j), same)

-- `closeStream` on a session whose list `closing` has lost this id or not.
closing-Inv :
    (n id : ℕ) (s : Session) (closing : List ℕ)
    → InvOf n s
    → ((j : ℕ) → has j s.closing ≡ true → id ≢ j → has j closing ≡ true)
    → InvOf n ((close_stream id (record s { closing = closing })).1)
unfolding close_stream
closing-Inv n id s closing v rest = found (stream id s.streams) refl
  where
    cut : Session
    cut = record s { streams = without id s.streams; closing = closing }

    unmoved :
        (j : ℕ)
        → s.closed ≡ true
        → has j (keys (without id s.streams)) ≡ true
        → has j closing ≡ true
    unmoved j shut_now inside =
        let kept = has-without (suc s.next_stream) id j s.streams v.falls inside in
        rest j (v.left j shut_now kept.0) kept.1

    found : (o : Option ℕ) → stream id s.streams ≡ o → InvOf n ((shut_found o cut).1)
    found none e = record {
      once = λ k.
          ap (λ ss. listed k ss + (s.terminals k).closes) (without-unknown id s.streams e)
          ∙ v.once k;
      done = v.done;
      falls = without-Falls (suc s.next_stream) id s.streams v.falls;
      counted = v.counted;
      few = v.few;
      left = unmoved;
    }
    found (some k) e = record {
      once = λ j.
          omega (arith, v.once j, listed-without id k j s.streams e, set-closes k j s.terminals);
      done = λ j. omega (arith, v.done j, set-done k j s.terminals, set-closes k j s.terminals);
      falls = without-Falls (suc s.next_stream) id s.streams v.falls;
      counted = v.counted;
      few = v.few;
      left = unmoved;
    }

pub close_stream-Inv : (n id : ℕ) (s : Session) → InvOf n s → InvOf n ((close_stream id s).1)
close_stream-Inv n id s v = closing-Inv n id s s.closing v (λ j h apart. h)

has-rest : (id j : ℕ) (rest : List ℕ) → has j (id ∷ rest) ≡ true → id ≢ j → has j rest ≡ true
unfolding has
has-rest id j rest h apart = ground (arith, apart)

pub close_next-Inv : (n : ℕ) (s : Session) → InvOf n s → InvOf n (close_next s)
unfolding close_next
close_next-Inv n s v = round s.closing refl
  where
    round : (ids : List ℕ) → s.closing ≡ ids → InvOf n (close_first ids s)
    round [] e = v
    round (id ∷ rest) e =
        closing-Inv n id s rest v
          (λ j h apart. has-rest id j rest (subst (λ ids. has j ids ≡ true) e h) apart)

pub begin_close-Inv : (n : ℕ) (s : Session) → InvOf n s → InvOf n (begin_close s)
unfolding begin_close
begin_close-Inv n s v = record {
  once = v.once;
  done = v.done;
  falls = v.falls;
  counted = v.counted;
  few = v.few;
  left = λ id shut_now inside. inside;
}

-- A terminal that is closed as soon as it is open.
refused-Inv :
    (n : ℕ) (s : Session)
    → InvOf n s
    → InvOf (suc n) (record s {
      terminals = set s.opened (close_pty no_terminal) s.terminals;
      opened = suc s.opened;
    })
unfolding close_pty
refused-Inv n s v =
    let t : Terminal = close_pty no_terminal in
    record {
      once = λ k. ground (arith, v.once k, if-closes (s.opened == k) t (s.terminals k));
      done = λ k. ground (
        arith,
        v.done k,
        if-closes (s.opened == k) t (s.terminals k),
        if-done (s.opened == k) t (s.terminals k),
      );
      falls = v.falls;
      counted = omega (arith, v.counted);
      few = omega (arith, v.few);
      left = v.left;
    }

-- A terminal that is put in the map.
opened-Inv :
    (n : ℕ) (s : Session)
    → suc n < 2 ^ 32
    → s.closed ≡ false
    → InvOf n s
    → InvOf (suc n) ((open_as false false s).1)
unfolding listed
opened-Inv n s small e v =
    let id = next_of s.next_stream in
    let t : Terminal = new_terminal id in
    let next : id ≡ suc s.next_stream = omega (arith, v.counted, v.few, small) in
    let fresh : without id s.streams ≡ s.streams =
      without-fresh (suc s.next_stream) id s.streams (omega (arith, next)) v.falls in
    record {
      once = λ k.
          let kept : listed k (without id s.streams) ≡ listed k s.streams = ap (listed k) fresh in
          ground (arith, kept, v.once k, if-closes (s.opened == k) t (s.terminals k));
      done = λ k. ground (
        arith,
        v.done k,
        if-closes (s.opened == k) t (s.terminals k),
        if-done (s.opened == k) t (s.terminals k),
      );
      falls = (
        omega arith,
        subst (λ ss. Falls id ss) (sym fresh) (subst (λ m. Falls m s.streams) (sym next) v.falls),
      );
      counted = omega (arith, next, v.counted);
      few = omega (arith, v.few);
      left = λ j shut_now inside. absurd (cc (e, shut_now));
    }

pub open_terminal-Inv :
    (n : ℕ) (is_cancelled : Bool) (s : Session)
    → suc n < 2 ^ 32
    → InvOf n s
    → InvOf (suc n) ((open_terminal is_cancelled s).1)
unfolding open_terminal
open_terminal-Inv n is_cancelled s small v = by is_cancelled s.closed refl
  where
    by : (c d : Bool) → s.closed ≡ d → InvOf (suc n) ((open_as c d s).1)
    by true d e = refused-Inv n s v
    by false true e = refused-Inv n s v
    by false false e = opened-Inv n s small e v
