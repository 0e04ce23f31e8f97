-- ===== src/Runner/Spec.antt =====
-- internal/runner/spec.go: the sandbox that a lab asks for, and what its nodes are told of it.
use network_skill_lab.Prelude.{
  Bool, List, Option, Result, String, [], codes, decimal, err, false, if◌then◌else◌, none, ok, some,
  str_append, str_eq, suc, ℕ, ◌++◌, ◌==◌, ◌>>=◌, ◌||◌, ◌∷◌,
}
use network_skill_lab.Content.Lab.{Bytes, Params, bytes_eq}
use network_skill_lab.Content.Topology.{
  entry, names, resolve_topology, Node, Endpoint, Link, Topology, UnresolvedField,
}
use network_skill_lab.Content.Links.{sorted_names}
use network_skill_lab.Protocol.Payload.{NodeSpec, EndpointSpec, LinkSpec, Script, SandboxSpec}

abbrev pub k3s_server : String
k3s_server = "k3s-server"

abbrev default_k3s_disable : List String
default_k3s_disable = "traefik" ∷ "metrics-server" ∷ []

abbrev disable_of : Option (Option (List String)) → Option (List String)
disable_of none = some default_k3s_disable
disable_of (some disable) = disable

-- `k3sDisable`
abbrev k3s_disable_of : Node → Option (List String)
k3s_disable_of n = if str_eq n.role k3s_server then disable_of n.k3s else none

abbrev node_spec : String → Option Node → NodeSpec
node_spec name none = record { name = name; role = ""; k3s_disable = none }
node_spec name (some n) = record { name = name; role = n.role; k3s_disable = k3s_disable_of n }

-- The loop over the sorted names of the nodes.
abbrev pub node_specs : List String → List (String × Node) → List NodeSpec
node_specs [] nodes = []
node_specs (name ∷ rest) nodes = node_spec name (entry name nodes) ∷ node_specs rest nodes

-- `eth%d`
abbrev pub eth : ℕ → Bytes
eth n = codes (str_append "eth" (decimal n))

-- The error of an interface out of order: the index of the link, the node, its interface and its number.
pub data SpecError : Type 0 where
  unresolved : List UnresolvedField → SpecError
  out_of_order : ℕ → String → Bytes → ℕ → SpecError

-- `ifaceCount`
abbrev pub Counts : Type 0
Counts = String → ℕ

abbrev pub counted : String → Counts → Counts
counted node counts other = if str_eq node other then suc (counts other) else counts other

abbrev text_or_empty : Option Bytes → Bytes
text_or_empty none = []
text_or_empty (some text) = text

abbrev pub endpoint_spec : Link → Endpoint → EndpointSpec
endpoint_spec link e = record {
  node = e.node;
  iface = e.iface;
  address = text_or_empty (entry e.node link.addresses);
}

abbrev pub extended :
    EndpointSpec
    → Result SpecError (List EndpointSpec × Counts)
    → Result SpecError (List EndpointSpec × Counts)
extended e (ok (specs, counts)) = ok (e ∷ specs, counts)
extended e (err x) = err x

-- The loop over the endpoints of a link; it hands on the counts.
unfoldable pub endpoint_specs :
    ℕ → Link → List Endpoint → Counts → Result SpecError (List EndpointSpec × Counts)
endpoint_specs i link [] counts = ok ([], counts)
endpoint_specs i link (e ∷ es) counts =
    let counts' = counted e.node counts in
    let rest = endpoint_specs i link es counts' in
    if bytes_eq e.iface (eth (counts' e.node))
    then extended (endpoint_spec link e) rest
    else err (out_of_order i e.node e.iface (counts' e.node))

abbrev pub both : Endpoint × Endpoint → List Endpoint
both (a, b) = a ∷ b ∷ []

-- The loop over the links.
unfoldable pub link_specs : ℕ → List Link → Counts → Result SpecError (List LinkSpec)
link_specs i [] counts = ok []
link_specs i (link ∷ links) counts = do
  (specs, counts') ← endpoint_specs i link (both link.endpoints) counts
  rest ← link_specs (suc i) links counts'
  ok (
      record { name = str_append "l" (decimal (suc i)); subnet = link.subnet; endpoints = specs }
      ∷ rest)

abbrev pub topology_or : Result (List UnresolvedField) Topology → Result SpecError Topology
topology_or (err fields) = err (unresolved fields)
topology_or (ok t) = ok t

-- `SpecFromLab`, of the topology and the fields of the lab that it reads, with the environment of the
-- parameters.
unfoldable pub spec_from_lab :
    String → String → Topology → Params → Script → Params → Bool → Result SpecError SandboxSpec
spec_from_lab attempt_id image topology params setup env internet = do
  t ← topology_or (resolve_topology topology params)
  links ← link_specs 0 t.links (λ node. 0)
  ok (record {
    attempt_id = attempt_id;
    image = image;
    nodes = node_specs (sorted_names (names t.nodes)) t.nodes;
    links = links;
    setup = setup;
    env = env;
    internet = internet;
    progress = false;
  })

-- The endpoints of a node, over the links of a sandbox in their order.
abbrev pub ends_on : String → List EndpointSpec → List EndpointSpec
ends_on node [] = []
ends_on node (e ∷ es) = let rest = ends_on node es in if str_eq e.node node then e ∷ rest else rest

abbrev pub ends_in : String → List LinkSpec → List EndpointSpec
ends_in node [] = []
ends_in node (l ∷ ls) = ends_on node l.endpoints ++ ends_in node ls

-- `strings.Join` of the pairs `iface=address` with commas.
abbrev pub joined_pairs : List EndpointSpec → Bytes
joined_pairs [] = []
joined_pairs (e ∷ []) = e.iface ++ b'=' ∷ e.address
joined_pairs (e ∷ f ∷ es) = e.iface ++ b'=' ∷ e.address ++ b',' ∷ joined_pairs (f ∷ es)

-- `IfacesEnv`
unfoldable pub ifaces_env : String → SandboxSpec → Bytes
ifaces_env node s = joined_pairs (ends_in node s.links)

-- `IsK3sRole`
abbrev pub is_k3s_role : String → Bool
is_k3s_role role = str_eq role k3s_server || str_eq role "k3s-agent"

-- `strings.Cut`: what is before a byte, and what is behind it.
abbrev pub cut : ℕ → Bytes → Bytes × Bytes
cut sep [] = ([], [])
cut sep (b ∷ bs) =
    let (before, behind) = cut sep bs in if b == sep then ([], bs) else (b ∷ before, behind)

abbrev pub address_in : Bytes → Bytes
address_in ifaces = (cut b'/' (cut b'=' (cut b',' ifaces).0).1).0

-- `K3sServerAddress`
abbrev pub server_address_of : List NodeSpec → SandboxSpec → Bytes
server_address_of [] s = []
server_address_of (n ∷ ns) s =
    let rest = server_address_of ns s in
    if str_eq n.role k3s_server then address_in (ifaces_env n.name s) else rest

unfoldable pub k3s_server_address : SandboxSpec → Bytes
k3s_server_address s = server_address_of s.nodes s
