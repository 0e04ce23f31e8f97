-- ===== src/Recorder/Exact.antt =====
-- That the rounds of the recorder copy each complete line of a log exactly once.
use network_skill_lab.Prelude.{
  All, Bool, Bool-cases, List, Option, Option-cases, String, [], ap, arith, drop,
  drop-length-append, eq_iff, false, if◌then◌else◌, inl, inr, int_add, length, length-append, none,
  refl, some, str_eq, subst, suc, sym, take, true, zero, ℕ, ◌++◌, ◌<◌, ◌^◌, ◌∙◌, ◌∷◌, ◌≡◌,
}
use mathlib.Core.List.{append_assoc, append-nil}
use network_skill_lab.Content.Lab.{Bytes}
use network_skill_lab.Recorder.Lines.{
  parse_lines, parse_line, is_blank, LogLine, CommandEntry, parse, last_index, split,
}
use network_skill_lab.Recorder.Pull
use network_skill_lab.Recorder.Pull.{
  Round, Loop, Pulled, save, accept, pull, pull_nodes, pull_all, open_loop,
}
use network_skill_lab.Recorder.Split.{IsClosed, parse-append}
use network_skill_lab.Recorder.Cut.{
  accept-partial, accept_complete, cut, complete-IsClosed, append-IsClosed, from, from-append,
  from-lines,
}

-- The log of a node only grows: what `tail` answers from the byte `k` on is the start of what the
-- file has there in the end.
abbrev pub Honest : (String → Bytes) → Round → Type 0
Honest files r =
    (node : String) (k : ℕ) (out : Bytes)
    → r.tail node (suc k) ≡ some (0, out)
    → (more : Bytes) × (out ++ more ≡ drop k (files node))

-- What has been copied of a file: a part that ends in a newline, and the entries of it.
pub record Copied (decode : Bytes → Option LogLine) (attempt_id node : String) (file : Bytes)
    (offset : ℕ) (log : List CommandEntry) : Type 0 where
  pub done : Bytes
  pub rest : Bytes
  pub whole : done ++ rest ≡ file
  pub closed : IsClosed done
  pub at : offset ≡ length done
  pub entries : from node log ≡ (parse decode attempt_id node done).0

module _ (decode : Bytes → Option LogLine) (attempt_id : String) (files : String → Bytes)
    (small : (node : String) → length (files node) < 2 ^ 62) where
  abbrev pub AllCopied : Pulled → Type 0
  AllCopied s = (node : String) → Copied decode attempt_id node (files node) (s.0 node) s.1

  from-parse :
      (node name : String) (bytes : Bytes)
      → from name (parse decode attempt_id node bytes).0
        ≡ (if str_eq node name then (parse decode attempt_id node bytes).0 else [])
  unfolding parse
  from-parse node name bytes = from-lines decode attempt_id node name (split bytes)

  -- The bytes behind those that have been copied.
  rest-drop :
      (node : String) (offset : ℕ) (log : List CommandEntry)
      (c : Copied decode attempt_id node (files node) offset log)
      → drop offset (files node) ≡ c.rest
  rest-drop node offset log c = rw (c.at, sym c.whole) (drop-length-append c.done c.rest)

  grow :
      (node : String) (offset : ℕ) (log : List CommandEntry) (complete more : Bytes)
      → Copied decode attempt_id node (files node) offset log
      → IsClosed complete
      → complete ++ more ≡ drop offset (files node)
      → Copied decode attempt_id node
          (files node)
          (int_add offset (length complete))
          (log ++ (parse decode attempt_id node complete).0)
  grow node offset log complete more c closed h =
      let new = (parse decode attempt_id node complete).0 in
      let behind : complete ++ more ≡ c.rest = h ∙ rest-drop node offset log c in
      let whole : (c.done ++ complete) ++ more ≡ files node =
        append_assoc c.done complete more ∙ ap (λ r. c.done ++ r) behind ∙ c.whole in
      let size = length-append c.done complete in
      let total = length-append (c.done ++ complete) more in
      record {
        done = c.done ++ complete;
        rest = more;
        whole = whole;
        closed = append-IsClosed c.done complete c.closed closed;
        at = omega (arith, small node, ap (λ bytes. length bytes) whole, size, total, c.at);
        entries =
            rw
              (
                from-append node log new,
                from-parse node node complete,
                (eq_iff node node).1 refl,
                c.entries,
              )
              (sym (parse-append decode attempt_id node c.done complete c.closed));
      }

  keep-Copied :
      (ok : Bool) (node : String) (complete more : Bytes) (s : Pulled)
      → AllCopied s
      → IsClosed complete
      → complete ++ more ≡ drop (s.0 node) (files node)
      → AllCopied (
          Pull.keep decode attempt_id ok node
            (length complete)
            (parse decode attempt_id node complete).0
            s)
  keep-Copied false node complete more (offsets, log) inv closed h name = inv name
  keep-Copied true node complete more (offsets, log) inv closed h name =
      let c = inv name in
      let new = (parse decode attempt_id node complete).0 in
      elim (Bool-cases (str_eq node name)) [
        | inl e ↦
            let grown = grow node (offsets node) log complete more (inv node) closed h in
            rw e (
              subst
                (λ n.
                  Copied decode attempt_id n (files n) (int_add (offsets node) (length complete))
                    (log ++ new))
                ((eq_iff node name).0 e) grown)
        | inr e ↦ rw e (record {
          done = c.done;
          rest = c.rest;
          whole = c.whole;
          closed = c.closed;
          at = c.at;
          entries =
              rw
                (
                  from-append name log new,
                  from-parse node name complete,
                  e,
                  append-nil (from name log),
                )
                c.entries;
        })
      ]

  accept-Copied :
      (r : Round) (node : String) (s : Pulled) (answer : Option (ℕ × Bytes))
      → AllCopied s
      → ((out : Bytes)
          → answer ≡ some (0, out)
          → (more : Bytes) × (out ++ more ≡ drop (s.0 node) (files node)))
      → AllCopied (accept decode attempt_id (r.saves node) node answer s)
  unfolding accept save
  accept-Copied r node s none inv honest = inv
  accept-Copied r node s (some (suc code, out)) inv honest = inv
  accept-Copied r node s (some (zero, out)) inv honest = elim (Option-cases (last_index out)) [
    | inl e ↦
        subst AllCopied (sym (accept-partial decode attempt_id (r.saves node) node out s e)) inv
    | inr (end, e) ↦
        let (more, h) = honest out refl in
        let complete = take (suc end) out in
        let left = drop (suc end) out ++ more in
        let whole : complete ++ left ≡ drop (s.0 node) (files node) =
          sym (append_assoc complete (drop (suc end) out) more)
          ∙ ap (λ bytes. bytes ++ more) (cut (suc end) out)
          ∙ h in
        subst AllCopied (sym (accept_complete decode attempt_id (r.saves node) node out end s e))
          (keep-Copied _ node complete left s inv (complete-IsClosed out end e) whole)
  ]

  pull-Copied :
      (r : Round) (node : String) (s : Pulled)
      → Honest files r
      → AllCopied s
      → AllCopied (pull decode attempt_id r node s)
  unfolding pull
  pull-Copied r node (offsets, log) honest inv =
      let c = inv node in
      let next : int_add (offsets node) 1 ≡ suc (offsets node) = omega (
        arith,
        small node,
        ap (λ bytes. length bytes) c.whole,
        length-append c.done c.rest,
        c.at,
      ) in
      rw next (
        accept-Copied r node (offsets, log) (r.tail node (suc (offsets node))) inv
          (λ out h. honest node (offsets node) out h))

  pull_nodes-Copied :
      (r : Round) (nodes : List String) (s : Pulled)
      → Honest files r
      → AllCopied s
      → AllCopied (pull_nodes decode attempt_id r nodes s)
  unfolding pull_nodes
  pull_nodes-Copied r [] s honest inv = inv
  pull_nodes-Copied r (node ∷ nodes) s honest inv =
      pull_nodes-Copied r nodes (pull decode attempt_id r node s) honest
        (pull-Copied r node s honest inv)

  -- A loop that has read its attempt, with what it has copied.
  pub record IsCopying (l : Loop) : Type 0 where
    pub current : String → ℕ
    pub is_open : l.offsets ≡ some current
    pub copied : AllCopied (current, l.log)

  pull_all-final :
      (nodes : List String) (final : Bool) (r : Round) (l : Loop)
      → l.final ≡ true
      → pull_all decode attempt_id nodes final r l ≡ l
  unfolding pull_all
  pull_all-final nodes final r l e = simp e

  pull_all-open :
      (nodes : List String) (final : Bool) (r : Round) (l : Loop) (current : String → ℕ)
      → l.final ≡ false
      → l.offsets ≡ some current
      → let s = pull_nodes decode attempt_id r nodes (current, l.log) in
        pull_all decode attempt_id nodes final r l
        ≡ record { offsets = some s.0; final = final; log = s.1 }
  unfolding pull_all
  pull_all-open nodes final r l current e f = simp (e, f)

  pull_all-IsCopying :
      (nodes : List String) (final : Bool) (r : Round) (l : Loop)
      → Honest files r
      → IsCopying l
      → IsCopying (pull_all decode attempt_id nodes final r l)
  pull_all-IsCopying nodes final r l honest c = elim (Bool-cases l.final) [
    | inl e ↦ subst IsCopying (sym (pull_all-final nodes final r l e)) c
    | inr e ↦
        let s = pull_nodes decode attempt_id r nodes (c.current, l.log) in
        subst IsCopying (sym (pull_all-open nodes final r l c.current e c.is_open)) (record {
          current = s.0;
          is_open = refl;
          copied = pull_nodes-Copied r nodes (c.current, l.log) honest c.copied;
        })
  ]

-- The calls of `pullAll` on a loop, the first of the list first.
abbrev pub rounds :
    (Bytes → Option LogLine) → String → List String → List (Bool × Round) → Loop → Loop
rounds decode id nodes [] l = l
rounds decode id nodes ((final, r) ∷ calls) l =
    rounds decode id nodes calls (pull_all decode id nodes final r l)

abbrev pub fresh : Loop
fresh = record { offsets = none; final = false; log = [] }

module _ (decode : Bytes → Option LogLine) (attempt_id : String) (files : String → Bytes)
    (small : (node : String) → length (files node) < 2 ^ 62) where
  rounds-IsCopying :
      (nodes : List String) (calls : List (Bool × Round)) (l : Loop)
      → All (λ c. Honest files c.1) calls
      → IsCopying decode attempt_id files small l
      → IsCopying decode attempt_id files small (rounds decode attempt_id nodes calls l)
  rounds-IsCopying nodes [] l honest c = c
  rounds-IsCopying nodes ((final, r) ∷ calls) l honest c =
      rounds-IsCopying nodes calls (pull_all decode attempt_id nodes final r l) honest.1
        (pull_all-IsCopying decode attempt_id files small nodes final r l honest.0 c)

  open_loop-IsCopying : IsCopying decode attempt_id files small (open_loop fresh)
  unfolding open_loop parse split parse_lines parse_line is_blank
  open_loop-IsCopying = record {
    current = λ node. 0;
    is_open = refl;
    copied = λ node. record {
      done = [];
      rest = files node;
      whole = refl;
      closed = tt;
      at = refl;
      entries = refl;
    };
  }

  -- Whatever rounds are run on a loop, with any of their calls or of their writes failing, where
  -- the runner answers with bytes of logs that only grow: for each node the log of the commands
  -- holds, in order and once each, exactly the entries of a part of the node's file that ends in a
  -- newline, and the offset of the node is the length of this part. A file is shorter than 2 ^ 62.
  pub rounds_exact :
      (nodes : List String) (calls : List (Bool × Round))
      → All (λ c. Honest files c.1) calls
      → IsCopying decode attempt_id files small
          (rounds decode attempt_id nodes calls (open_loop fresh))
  rounds_exact nodes calls honest =
      rounds-IsCopying nodes calls (open_loop fresh) honest open_loop-IsCopying
