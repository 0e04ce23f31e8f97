-- ===== src/Runner/Interfaces.antt =====
-- That the interfaces of every node of a sandbox are `eth1`, `eth2`, … in the order of its links, as
-- Docker will name them.
use network_skill_lab.Prelude.{
  Bool, List, Result, String, [], ap, arith, decimal, eq_iff, err, false, if◌then◌else◌, length, ok,
  refl, str_append, str_eq, subst, suc, true, zero, ℕ, ◌++◌, ◌+◌, ◌>>=◌, ◌∙◌, ◌∷◌, ◌≡◌,
}
use network_skill_lab.Content.Lab.{Bytes, Params, bytes_eq}
use network_skill_lab.Content.Topology.{names, resolve_topology, Endpoint, Link, Topology}
use network_skill_lab.Protocol.Payload.{EndpointSpec, LinkSpec, Script, SandboxSpec}
use network_skill_lab.Content.Links.{sorted_names}
use network_skill_lab.Runner.Spec.{
  extended, node_specs, eth, Counts, counted, endpoint_spec, endpoint_specs, both, link_specs,
  topology_or, spec_from_lab, ends_on, ends_in, SpecError, out_of_order,
}

abbrev pub ifaces : List EndpointSpec → List Bytes
ifaces [] = []
ifaces (e ∷ es) = e.iface ∷ ifaces es

-- The `n` names that follow `eth` with the number `done`.
abbrev pub numbered : ℕ → ℕ → List Bytes
numbered done zero = []
numbered done (suc n) = eth (suc done) ∷ numbered (suc done) n

bytes_eq-≡ : (xs ys : Bytes) → bytes_eq xs ys ≡ true → xs ≡ ys
bytes_eq-≡ [] [] h = refl
bytes_eq-≡ [] (y ∷ ys) h = absurd (cc)
bytes_eq-≡ (x ∷ xs) [] h = absurd (cc)
bytes_eq-≡ (x ∷ xs) (y ∷ ys) h = ground (arith, bytes_eq-≡ xs ys)

-- What the endpoints `es` of a node come to, after `done` of them, with `left` counted in the end.
abbrev Follows : ℕ → ℕ → List EndpointSpec → Type 0
Follows done left es = (ifaces es ≡ numbered done (length es)) × (left ≡ done + length es)

add-Follows :
    (done n : ℕ) (es : List EndpointSpec) (e : EndpointSpec)
    → e.iface ≡ eth (suc done)
    → Follows (suc done) n es
    → Follows done n (e ∷ es)
add-Follows done n es e h f = (rw (h, f.0) refl, omega (arith, f.1))

append-Follows :
    (a b c : ℕ) (xs ys : List EndpointSpec)
    → Follows a b xs
    → Follows b c ys
    → Follows a c (xs ++ ys)
append-Follows a b c [] ys f g =
    let same : b ≡ a = omega (arith, f.1) in subst (λ x. Follows x c ys) same g
append-Follows a b c (x ∷ xs) ys f g =
    let head : x.iface ≡ eth (suc a) = cc (f.0) in
    let tail : ifaces xs ≡ numbered (suc a) (length xs) = cc (f.0) in
    add-Follows a c (xs ++ ys) x head
      (append-Follows (suc a) b c xs ys (tail, omega (arith, f.1)) g)

-- The endpoints of each node, over the endpoints of one link.
ends_on-Follows :
    (same : Bool) (node : String) (counts : Counts) (left : ℕ) (e : Endpoint) (link : Link)
    (specs : List EndpointSpec)
    → str_eq e.node node ≡ same
    → e.iface ≡ eth (counted e.node counts e.node)
    → Follows (counted e.node counts node) left (ends_on node specs)
    → Follows
        (counts node)
        left
        (if same then endpoint_spec link e ∷ ends_on node specs else ends_on node specs)
ends_on-Follows true node counts left e link specs same h f =
    let here : e.node ≡ node = (eq_iff e.node node).0 same in
    let next : counted e.node counts node ≡ suc (counts node) =
      ap (λ b. if b then suc (counts node) else counts node) same in
    let own : counted e.node counts e.node ≡ counted e.node counts node =
      ap (counted e.node counts) here in
    add-Follows (counts node) left (ends_on node specs) (endpoint_spec link e)
      (h ∙ ap eth (own ∙ next)) (subst (λ n. Follows n left (ends_on node specs)) next f)
ends_on-Follows false node counts left e link specs same h f =
    let next : counted e.node counts node ≡ counts node =
      ap (λ b. if b then suc (counts node) else counts node) same in
    subst (λ n. Follows n left (ends_on node specs)) next f

endpoint_specs-Follows :
    (i : ℕ) (link : Link) (es : List Endpoint) (counts counts' : Counts) (specs : List EndpointSpec)
    → endpoint_specs i link es counts ≡ ok (specs, counts')
    → (node : String) → Follows (counts node) (counts' node) (ends_on node specs)
unfolding endpoint_specs
endpoint_specs-Follows i link [] counts counts' specs h node =
    let no_specs : [] ≡ specs = cc in
    let unmoved : counts ≡ counts' = cc in
    subst (λ xs. Follows (counts node) (counts' node) (ends_on node xs)) no_specs
      (refl, omega (arith, ap (λ f. f node) unmoved))
endpoint_specs-Follows i link (e ∷ es) counts counts' specs h node =
    at (bytes_eq e.iface (eth (counted e.node counts e.node)))
      (endpoint_specs i link es (counted e.node counts)) refl refl h
      (endpoint_specs-Follows i link es (counted e.node counts))
  where
    at :
        (b : Bool) (r : Result SpecError (List EndpointSpec × Counts))
        → bytes_eq e.iface (eth (counted e.node counts e.node)) ≡ b
        → endpoint_specs i link es (counted e.node counts) ≡ r
        → (if b
            then extended (endpoint_spec link e) r
            else err (out_of_order i e.node e.iface (counted e.node counts e.node)))
          ≡ ok (specs, counts')
        → ((c : Counts) (rest : List EndpointSpec)
            → endpoint_specs i link es (counted e.node counts) ≡ ok (rest, c)
            → (n : String) → Follows (counted e.node counts n) (c n) (ends_on n rest))
        → Follows (counts node) (counts' node) (ends_on node specs)
    at true (ok (rest, c)) named is g later =
        let all : endpoint_spec link e ∷ rest ≡ specs = cc in
        let last : c ≡ counts' = cc in
        let f = later c rest is node in
        subst (λ xs. Follows (counts node) (counts' node) (ends_on node xs)) all
          (ends_on-Follows (str_eq e.node node) node counts (counts' node) e link rest refl
            (bytes_eq-≡ e.iface (eth (counted e.node counts e.node)) named)
            (subst (λ k. Follows (counted e.node counts node) (k node) (ends_on node rest)) last f))
    at true (err x) named is g later = absurd (cc)
    at false r named is g later = absurd (cc)

link_specs-Follows :
    (i : ℕ) (links : List Link) (counts : Counts) (specs : List LinkSpec)
    → link_specs i links counts ≡ ok specs
    → (node : String) → (left : ℕ) × Follows (counts node) left (ends_in node specs)
unfolding link_specs
link_specs-Follows i [] counts specs h node =
    let none_left : [] ≡ specs = cc in
    subst (λ ls. (left : ℕ) × Follows (counts node) left (ends_in node ls)) none_left
      (counts node, (refl, omega arith))
link_specs-Follows i (link ∷ links) counts specs h node =
    at (endpoint_specs i link (both link.endpoints) counts) refl h
      (λ c rest. link_specs-Follows (suc i) links c rest)
  where
    built : List EndpointSpec → List LinkSpec → List LinkSpec
    built own rest =
        record { name = str_append "l" (decimal (suc i)); subnet = link.subnet; endpoints = own }
        ∷ rest

    rest_of :
        (own : List EndpointSpec) (c : Counts) (r : Result SpecError (List LinkSpec))
        → Follows (counts node) (c node) (ends_on node own)
        → link_specs (suc i) links c ≡ r
        → (do rest ← r; ok (built own rest)) ≡ ok specs
        → ((rest : List LinkSpec)
            → link_specs (suc i) links c ≡ ok rest
            → (n : String) → (left : ℕ) × Follows (c n) left (ends_in n rest))
        → (left : ℕ) × Follows (counts node) left (ends_in node specs)
    rest_of own c (ok rest) f is g later =
        let all : built own rest ≡ specs = cc in
        let (left, more) = later rest is node in
        subst (λ ls. (left : ℕ) × Follows (counts node) left (ends_in node ls)) all
          (
            left,
            append-Follows (counts node) (c node) left (ends_on node own) (ends_in node rest) f
                more,
          )
    rest_of own c (err x) f is g later = absurd (cc)

    at :
        (r : Result SpecError (List EndpointSpec × Counts))
        → endpoint_specs i link (both link.endpoints) counts ≡ r
        → (do (own, c) ← r; rest ← link_specs (suc i) links c; ok (built own rest)) ≡ ok specs
        → ((c : Counts) (rest : List LinkSpec)
            → link_specs (suc i) links c ≡ ok rest
            → (n : String) → (left : ℕ) × Follows (c n) left (ends_in n rest))
        → (left : ℕ) × Follows (counts node) left (ends_in node specs)
    at (ok (own, c)) is g later =
        rest_of own c (link_specs (suc i) links c)
          (endpoint_specs-Follows i link (both link.endpoints) counts c own is node) refl g
          (later c)
    at (err x) is g later = absurd (cc)

-- Of a sandbox that `SpecFromLab` makes, the interfaces of every node, over the links in their order,
-- are named `eth1`, `eth2` and so on.
pub spec_from_lab_ordered :
    (attempt_id image : String) (topology : Topology) (params : Params) (setup : Script)
    (env : Params) (internet : Bool) (s : SandboxSpec) (node : String)
    → spec_from_lab attempt_id image topology params setup env internet ≡ ok s
    → ifaces (ends_in node s.links) ≡ numbered 0 (length (ends_in node s.links))
unfolding spec_from_lab
spec_from_lab_ordered attempt_id image topology params setup env internet s node h =
    on_topology (topology_or (resolve_topology topology params)) h
  where
    spec_of : Topology → List LinkSpec → SandboxSpec
    spec_of t links = record {
      attempt_id = attempt_id;
      image = image;
      nodes = node_specs (sorted_names (names t.nodes)) t.nodes;
      links = links;
      setup = setup;
      env = env;
      internet = internet;
      progress = false;
    }

    on_links :
        (t : Topology) (r : Result SpecError (List LinkSpec))
        → link_specs 0 t.links (λ n. 0) ≡ r
        → (do links ← r; ok (spec_of t links)) ≡ ok s
        → ifaces (ends_in node s.links) ≡ numbered 0 (length (ends_in node s.links))
    on_links t (ok links) is g =
        let made : spec_of t links ≡ s = cc in
        let f = link_specs-Follows 0 t.links (λ n. 0) links is node in
        subst (λ x. ifaces (ends_in node x.links) ≡ numbered 0 (length (ends_in node x.links))) made
          f.1.0
    on_links t (err x) is g = absurd (cc)

    on_topology :
        (r : Result SpecError Topology)
        → (do t ← r; links ← link_specs 0 t.links (λ n. 0); ok (spec_of t links)) ≡ ok s
        → ifaces (ends_in node s.links) ≡ numbered 0 (length (ends_in node s.links))
    on_topology (ok t) g = on_links t (link_specs 0 t.links (λ n. 0)) refl g
    on_topology (err x) g = absurd (cc)
