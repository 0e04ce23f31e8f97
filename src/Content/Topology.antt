-- ===== src/Content/Topology.antt =====
-- `Topology` of internal/content/content.go with its `Resolve`. A map is a list of entries; the value
-- of a key is that of its first entry.
use network_skill_lab.Prelude.{
  List, Option, Result, String, [], err, if◌then◌else◌, none, ok, some, str_eq, suc, ℕ, ◌++◌, ◌∷◌,
}
use network_skill_lab.Content.Lab.{Bytes, Params}
use network_skill_lab.Content.Render.{render}

-- `Node`; `k3s` is the field `Disable` of the options, where there are options.
pub record Node : Type 0 where
  pub role : String
  pub k3s : Option (Option (List String))

pub record Endpoint : Type 0 where
  pub node : String
  pub iface : Bytes

-- `endpoints` are the two of the array, in order.
pub record Link : Type 0 where
  pub endpoints : Endpoint × Endpoint
  pub subnet : Bytes
  pub addresses : List (String × Bytes)

pub record Topology : Type 0 where
  pub nodes : List (String × Node)
  pub links : List Link

abbrev pub entry {ℓ} : {A : Type ℓ} → String → List (String × A) → Option A
entry key [] = none
entry key ((k, a) ∷ rest) = let others = entry key rest in if str_eq k key then some a else others

abbrev pub names {ℓ} : {A : Type ℓ} → List (String × A) → List String
names [] = []
names ((k, a) ∷ rest) = k ∷ names rest

-- `links[%d].subnet` and `links[%d].addresses.%s`, with the names that `Render` does not know.
pub data UnresolvedField : Type 0 where
  subnet_of : ℕ → List Bytes → UnresolvedField
  address_of : ℕ → String → List Bytes → UnresolvedField

-- What a round of a loop adds to the errors and to the result.
abbrev pub Joined {ℓ} : Type ℓ → Type ℓ
Joined A = List UnresolvedField × A

abbrev pub add_address :
    ℕ
    → String
    → Result (List Bytes) Bytes
    → Joined (List (String × Bytes))
    → Joined (List (String × Bytes))
add_address i node (ok text) (errs, rest) = (errs, (node, text) ∷ rest)
add_address i node (err unknown) (errs, rest) = (address_of i node unknown ∷ errs, rest)

abbrev pub address_at :
    ℕ
    → String
    → Option Bytes
    → Params
    → Joined (List (String × Bytes))
    → Joined (List (String × Bytes))
address_at i node none ps rest = rest
address_at i node (some text) ps rest = add_address i node (render text ps) rest

-- The loop over the addresses of a link.
abbrev pub render_addresses :
    ℕ → List String → List (String × Bytes) → Params → Joined (List (String × Bytes))
render_addresses i [] addresses ps = ([], [])
render_addresses i (node ∷ nodes) addresses ps =
    address_at i node (entry node addresses) ps (render_addresses i nodes addresses ps)

abbrev pub link_with : Link → Bytes → Joined (List (String × Bytes)) → Joined Link
link_with link subnet (errs, addresses) =
    (errs, record { endpoints = link.endpoints; subnet = subnet; addresses = addresses })

abbrev pub resolve_with :
    ℕ → Link → Result (List Bytes) Bytes → Joined (List (String × Bytes)) → Joined Link
resolve_with i link (ok subnet) rest = link_with link subnet rest
resolve_with i link (err unknown) (errs, addresses) =
    link_with link [] (subnet_of i unknown ∷ errs, addresses)

abbrev pub resolve_link : ℕ → Link → Params → Joined Link
resolve_link i link ps =
    resolve_with i link (render link.subnet ps)
      (render_addresses i (names link.addresses) link.addresses ps)

abbrev pub add_link : Joined Link → Joined (List Link) → Joined (List Link)
add_link (errs, link) (rest, links) = (errs ++ rest, link ∷ links)

-- The loop over the links, from the index `i` on.
abbrev pub resolve_links : ℕ → List Link → Params → Joined (List Link)
resolve_links i [] ps = ([], [])
resolve_links i (link ∷ links) ps =
    add_link (resolve_link i link ps) (resolve_links (suc i) links ps)

abbrev pub resolved_or :
    List (String × Node) → Joined (List Link) → Result (List UnresolvedField) Topology
resolved_or nodes ([], links) = ok (record { nodes = nodes; links = links })
resolved_or nodes (e ∷ errs, links) = err (e ∷ errs)

-- `Topology.Resolve`
unfoldable pub resolve_topology : Topology → Params → Result (List UnresolvedField) Topology
resolve_topology t ps = resolved_or t.nodes (resolve_links 0 t.links ps)
