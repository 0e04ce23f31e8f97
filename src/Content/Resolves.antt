-- ===== src/Content/Resolves.antt =====
-- That a topology which `checkLinks` accepts resolves when a lab starts: `Render` fails by the names of
-- the parameters alone, and these are the same for every seed.
use network_skill_lab.Prelude.{
  All, Bool, List, Option, Result, String, [], contains, err, get_elem?, none, ok, refl, some, suc,
  true, ℕ, ◌++◌, ◌∷◌, ◌≡◌,
}
use network_skill_lab.Content.Lab.{Bytes, Params}
use network_skill_lab.Content.Library.{Netip}
use network_skill_lab.Content.Render.{render}
use network_skill_lab.Content.Topology.{
  entry, names, Joined, add_address, address_at, render_addresses, resolve_with, resolve_link,
  add_link, resolve_links, resolved_or, resolve_topology, Node, Link, Topology,
}
use network_skill_lab.Content.Links.{
  sorted_names, check_endpoint, stray, unaddressed, check_sets, ends_of, check_link,
  check_links_from, check_links, ParamSet,
}
use network_skill_lab.Content.Names.{SameNames, render-SameNames}
use network_skill_lab.Content.Checked.{
  nil_left, nil_right, sorted-stray, check_addresses-ok, check_sets-at,
}

add_address-none :
    (i : ℕ) (node : String) (r : Result (List Bytes) Bytes) (rest : Joined (List (String × Bytes)))
    → ((text : Bytes) × (r ≡ ok text))
    → rest.0 ≡ []
    → (add_address i node r rest).0 ≡ []
add_address-none i node (ok text) (errs, rest) h e = e
add_address-none i node (err unknown) (errs, rest) h e = absurd (cc (h.1))

address_at-none :
    (i : ℕ) (node : String) (o : Option Bytes) (ps : Params) (rest : Joined (List (String × Bytes)))
    → ((template : Bytes) → o ≡ some template → (text : Bytes) × (render template ps ≡ ok text))
    → rest.0 ≡ []
    → (address_at i node o ps rest).0 ≡ []
address_at-none i node none ps rest h e = e
address_at-none i node (some template) ps rest h e =
    add_address-none i node (render template ps) rest (h template refl) e

render_addresses-none :
    (i : ℕ) (ends ns : List String) (addresses : List (String × Bytes)) (ps : Params)
    → All (λ n. contains ends n ≡ true) ns
    → ((node : String) (template : Bytes)
        → contains ends node ≡ true
        → entry node addresses ≡ some template
        → (text : Bytes) × (render template ps ≡ ok text))
    → (render_addresses i ns addresses ps).0 ≡ []
render_addresses-none i ends [] addresses ps inside renders = refl
render_addresses-none i ends (n ∷ ns) addresses ps inside renders =
    address_at-none i n (entry n addresses) ps (render_addresses i ns addresses ps)
      (λ template. renders n template inside.0)
      (render_addresses-none i ends ns addresses ps inside.1 renders)

resolve_with-none :
    (i : ℕ) (link : Link) (r : Result (List Bytes) Bytes) (rest : Joined (List (String × Bytes)))
    → ((text : Bytes) × (r ≡ ok text))
    → rest.0 ≡ []
    → (resolve_with i link r rest).0 ≡ []
resolve_with-none i link (ok text) (errs, addresses) h e = e
resolve_with-none i link (err unknown) (errs, addresses) h e = absurd (cc (h.1))

add_link-none :
    (p : Joined Link) (q : Joined (List Link)) → p.0 ≡ [] → q.0 ≡ [] → (add_link p q).0 ≡ []
add_link-none (errs, link) (rest, links) h e = rw (h, e) refl

module _ (read_prefix : Bytes → Option Netip) (holds : Netip → Netip → Bool)
    (nodes : List (String × Node)) (sets : List ParamSet) (n : ℕ) (set : ParamSet) (qs : Params)
    (listed : get_elem? sets n ≡ some set) (same : SameNames set.params qs) where
  resolve_link-none :
      (i : ℕ) (link : Link)
      → check_link read_prefix holds i nodes sets link ≡ []
      → (resolve_link i link qs).0 ≡ []
  resolve_link-none i link h =
      let ends = ends_of read_prefix holds link in
      let first = check_endpoint i 0 nodes [] link.endpoints.0 in
      let second = check_endpoint i 1 nodes (link.endpoints.0.node ∷ []) link.endpoints.1 in
      let strays = stray i ends (sorted_names (names link.addresses)) in
      let bare = unaddressed i ends link.addresses in
      let in_sets = check_sets read_prefix holds i ends link sets in
      let upto = first ++ second ++ strays in
      let h5 = nil_right (upto ++ bare) in_sets h in
      let h3 =
        nil_right (first ++ second) strays
          (nil_left upto bare (nil_left (upto ++ bare) in_sets h)) in
      let known = sorted-stray i ends (names link.addresses) h3 in
      let renders =
        check_addresses-ok read_prefix holds i ends link set
          (check_sets-at read_prefix holds i ends link sets n set h5 listed) in
      resolve_with-none i link (render link.subnet qs)
        (render_addresses i (names link.addresses) link.addresses qs)
        (render-SameNames set.params qs same link.subnet renders.0.0 renders.0.1)
        (render_addresses-none i ends (names link.addresses) link.addresses qs known
          (λ node template inside e.
            let text = renders.1 node template inside e in
            render-SameNames set.params qs same template text.0 text.1))

  resolve_links-none :
      (i : ℕ) (links : List Link)
      → check_links_from read_prefix holds i nodes sets links ≡ []
      → (resolve_links i links qs).0 ≡ []
  resolve_links-none i [] h = refl
  resolve_links-none i (link ∷ links) h =
      let here = check_link read_prefix holds i nodes sets link in
      let later = check_links_from read_prefix holds (suc i) nodes sets links in
      add_link-none (resolve_link i link qs) (resolve_links (suc i) links qs)
        (resolve_link-none i link (nil_left here later h))
        (resolve_links-none (suc i) links (nil_right here later h))

resolved_or-ok :
    (nodes : List (String × Node)) (p : Joined (List Link))
    → p.0 ≡ []
    → (t : Topology) × (resolved_or nodes p ≡ ok t) × (t.nodes ≡ nodes)
resolved_or-ok nodes ([], links) h = (record { nodes = nodes; links = links }, refl, refl)
resolved_or-ok nodes (e ∷ errs, links) h = absurd (cc)

-- A topology in which `checkLinks` finds no error resolves with every set of parameters that has the
-- names of one of the sets it was checked with: a lab that was loaded does not fail here when it starts.
pub checked_resolves :
    (read_prefix : Bytes → Option Netip) (holds : Netip → Netip → Bool) (t : Topology)
    (sets : List ParamSet) (n : ℕ) (set : ParamSet) (qs : Params)
    → check_links read_prefix holds t sets ≡ []
    → get_elem? sets n ≡ some set
    → SameNames set.params qs
    → (resolved : Topology) × (resolve_topology t qs ≡ ok resolved) × (resolved.nodes ≡ t.nodes)
unfolding check_links resolve_topology
checked_resolves read_prefix holds t sets n set qs h listed same =
    resolved_or-ok t.nodes (resolve_links 0 t.links qs)
      (resolve_links-none read_prefix holds t.nodes sets n set qs listed same 0 t.links h)
