-- ===== src/Content/Links.antt =====
-- `checkRoles`, `checkLinks` and `checkAddresses` of internal/content/validate.go.
use network_skill_lab.Prelude.{
  Bool, List, Option, Result, String, [], codes, contains, err, false, if◌then◌else◌, name_le, none,
  not, ok, some, suc, true, ℕ, ◌++◌, ◌||◌, ◌∷◌,
}
use network_skill_lab.Content.Lab.{Bytes, Params, bytes_eq}
use network_skill_lab.Content.Library.{Netip}
use network_skill_lab.Content.Render.{render}
use network_skill_lab.Content.Topology.{entry, names, Node, Endpoint, Link, Topology}

-- The errors, by the index of the link and what they name. Those of an address carry the id of the case.
pub data LinkError : Type 0 where
  bad_role : String → String → LinkError
  undeclared_node reserved_iface : ℕ → ℕ → String → LinkError
  twice_on_link stray_address missing_address : ℕ → String → LinkError
  bad_subnet : ℕ → String → LinkError
  bad_address outside_subnet : ℕ → String → String → LinkError

-- `slices.Sorted` of names.
abbrev pub insert_name : String → List String → List String
insert_name n [] = n ∷ []
insert_name n (m ∷ ms) = let rest = insert_name n ms in if name_le n m then n ∷ m ∷ ms else m ∷ rest

abbrev pub sorted_names : List String → List String
sorted_names [] = []
sorted_names (n ∷ ns) = insert_name n (sorted_names ns)

abbrev pub one_error : Bool → LinkError → List LinkError
one_error holds e = if holds then e ∷ [] else []

abbrev allowed_roles : List String
allowed_roles = "ubuntu" ∷ "ubuntu-nm" ∷ "k3s-server" ∷ "k3s-agent" ∷ []

abbrev role_of : Option Node → String
role_of none = ""
role_of (some n) = n.role

abbrev bad_roles : List String → List (String × Node) → List LinkError
bad_roles [] nodes = []
bad_roles (name ∷ rest) nodes =
    let role = role_of (entry name nodes) in
    one_error (not (contains allowed_roles role)) (bad_role name role) ++ bad_roles rest nodes

-- `checkRoles`
unfoldable pub check_roles : Topology → List LinkError
check_roles t = bad_roles (sorted_names (names t.nodes)) t.nodes

abbrev pub is_some {ℓ} : {A : Type ℓ} → Option A → Bool
is_some none = false
is_some (some a) = true

abbrev is_reserved : Bytes → Bool
is_reserved iface = bytes_eq iface [] || bytes_eq iface (codes "eth0")

-- A round of the loop over the endpoints, `before` being the nodes of the rounds before.
abbrev pub check_endpoint : ℕ → ℕ → List (String × Node) → List String → Endpoint → List LinkError
check_endpoint i j nodes before e =
    one_error (not (is_some (entry e.node nodes))) (undeclared_node i j e.node)
    ++ one_error (is_reserved e.iface) (reserved_iface i j e.node)
    ++ one_error (contains before e.node) (twice_on_link i e.node)

abbrev pub stray : ℕ → List String → List String → List LinkError
stray i ends [] = []
stray i ends (node ∷ rest) =
    one_error (not (contains ends node)) (stray_address i node) ++ stray i ends rest

abbrev pub unaddressed : ℕ → List String → List (String × Bytes) → List LinkError
unaddressed i [] addresses = []
unaddressed i (node ∷ rest) addresses =
    one_error (not (is_some (entry node addresses))) (missing_address i node)
    ++ unaddressed i rest addresses

-- `paramSet`
pub record ParamSet : Type 0 where
  pub case_id : String
  pub params : Params

-- `netip.ParsePrefix` and `Prefix.Contains` are parameters.
module _ (read_prefix : Bytes → Option Netip) (holds : Netip → Netip → Bool) where
  abbrev pub check_read : ℕ → String → String → Netip → Option Netip → List LinkError
  check_read i case_id node subnet none = bad_address i case_id node ∷ []
  check_read i case_id node subnet (some address) =
      one_error (not (holds subnet address)) (outside_subnet i case_id node)

  abbrev pub check_rendered :
      ℕ → String → String → Netip → Result (List Bytes) Bytes → List LinkError
  check_rendered i case_id node subnet (err unknown) = bad_address i case_id node ∷ []
  check_rendered i case_id node subnet (ok text) =
      check_read i case_id node subnet (read_prefix text)

  abbrev pub check_address : ℕ → String → Netip → Option Bytes → ParamSet → List LinkError
  check_address i node subnet none set = []
  check_address i node subnet (some text) set =
      check_rendered i set.case_id node subnet (render text set.params)

  abbrev pub check_each :
      ℕ → Netip → List String → List (String × Bytes) → ParamSet → List LinkError
  check_each i subnet [] addresses set = []
  check_each i subnet (node ∷ rest) addresses set =
      check_address i node subnet (entry node addresses) set
      ++ check_each i subnet rest addresses set

  abbrev pub check_in :
      ℕ → List String → List (String × Bytes) → ParamSet → Option Netip → List LinkError
  check_in i ends addresses set none = bad_subnet i set.case_id ∷ []
  check_in i ends addresses set (some subnet) = check_each i subnet ends addresses set

  abbrev pub check_subnet :
      ℕ
      → List String
      → List (String × Bytes)
      → ParamSet
      → Result (List Bytes) Bytes
      → List LinkError
  check_subnet i ends addresses set (err unknown) = bad_subnet i set.case_id ∷ []
  check_subnet i ends addresses set (ok text) = check_in i ends addresses set (read_prefix text)

  -- `checkAddresses`
  abbrev pub check_addresses : ℕ → List String → Link → ParamSet → List LinkError
  check_addresses i ends link set =
      check_subnet i ends link.addresses set (render link.subnet set.params)

  abbrev pub check_sets : ℕ → List String → Link → List ParamSet → List LinkError
  check_sets i ends link [] = []
  check_sets i ends link (set ∷ sets) =
      check_addresses i ends link set ++ check_sets i ends link sets

  abbrev pub ends_of : Link → List String
  ends_of link = link.endpoints.0.node ∷ link.endpoints.1.node ∷ []

  abbrev pub check_link : ℕ → List (String × Node) → List ParamSet → Link → List LinkError
  check_link i nodes sets link =
      check_endpoint i 0 nodes [] link.endpoints.0
      ++ check_endpoint i 1 nodes (link.endpoints.0.node ∷ []) link.endpoints.1
      ++ stray i (ends_of link) (sorted_names (names link.addresses))
      ++ unaddressed i (ends_of link) link.addresses
      ++ check_sets i (ends_of link) link sets

  abbrev pub check_links_from :
      ℕ → List (String × Node) → List ParamSet → List Link → List LinkError
  check_links_from i nodes sets [] = []
  check_links_from i nodes sets (link ∷ links) =
      check_link i nodes sets link ++ check_links_from (suc i) nodes sets links

  -- `checkLinks`, with the sets of `paramSets`.
  unfoldable pub check_links : Topology → List ParamSet → List LinkError
  check_links t sets = check_links_from 0 t.nodes sets t.links
