-- ===== src/Runner/SpecTests.antt =====
-- The sandbox of a lab with three nodes and two links.
use network_skill_lab.Prelude.{
  String, [], codes, decimal, false, length, name_le, none, ok, refl, some, true, ◌∷◌, ◌≡◌,
}
use network_skill_lab.Content.Lab.{Bytes}
use network_skill_lab.Content.Render.{render, match_placeholder}
use network_skill_lab.Content.Topology.{Node, Link, Topology, resolve_topology}
use network_skill_lab.Protocol.Payload.{EndpointSpec, Script, SandboxSpec}
use network_skill_lab.Runner.Spec.{
  endpoint_specs, link_specs, spec_from_lab, ends_in, ifaces_env, k3s_server_address,
}
use network_skill_lab.Runner.Interfaces.{spec_from_lab_ordered, ifaces, numbered}

abbrev router : Node
router = record { role = "k3s-server"; k3s = none }

abbrev host : Node
host = record { role = "ubuntu"; k3s = none }

abbrev link : String → Bytes → String → Bytes → Link
link a iface b iface' = record {
  endpoints = (record { node = a; iface = iface }, record { node = b; iface = iface' });
  subnet = codes "10.0.0.0/24";
  addresses = (a, codes "10.0.0.1/24") ∷ (b, codes "10.0.0.2/24") ∷ [];
}

abbrev topology : Topology
topology = record {
  nodes = ("r", router) ∷ ("h", host) ∷ ("g", host) ∷ [];
  links =
      link "h" (codes "eth1") "r" (codes "eth1") ∷ link "r" (codes "eth2") "g" (codes "eth1") ∷ [];
}

abbrev setup : Script
setup = record { name = "setup.sh"; content = [] }

abbrev end_of : String → Bytes → Bytes → EndpointSpec
end_of node iface address = record { node = node; iface = iface; address = address }

abbrev sandbox : SandboxSpec
sandbox = record {
  attempt_id = "a1";
  image = "img";
  nodes =
      record { name = "g"; role = "ubuntu"; k3s_disable = none }
      ∷ record { name = "h"; role = "ubuntu"; k3s_disable = none }
      ∷ record {
        name = "r";
        role = "k3s-server";
        k3s_disable = some ("traefik" ∷ "metrics-server" ∷ []);
      }
      ∷ [];
  links =
      record {
        name = "l1";
        subnet = codes "10.0.0.0/24";
        endpoints =
            end_of "h" (codes "eth1") (codes "10.0.0.1/24")
            ∷ end_of "r" (codes "eth1") (codes "10.0.0.2/24")
            ∷ [];
      }
      ∷ record {
        name = "l2";
        subnet = codes "10.0.0.0/24";
        endpoints =
            end_of "r" (codes "eth2") (codes "10.0.0.1/24")
            ∷ end_of "g" (codes "eth1") (codes "10.0.0.2/24")
            ∷ [];
      }
      ∷ [];
  setup = setup;
  env = [];
  internet = true;
  progress = false;
}

made : spec_from_lab "a1" "img" topology [] setup [] true ≡ ok sandbox
unfolding spec_from_lab resolve_topology render match_placeholder link_specs endpoint_specs decimal
    name_le
made = refl

server_found : k3s_server_address sandbox ≡ codes "10.0.0.2"
unfolding k3s_server_address ifaces_env
server_found = refl

interfaces_told : ifaces_env "r" sandbox ≡ codes "eth1=10.0.0.2/24,eth2=10.0.0.1/24"
unfolding ifaces_env
interfaces_told = refl

spec_from_lab_ordered_example :
    ifaces (ends_in "r" sandbox.links) ≡ numbered 0 (length (ends_in "r" sandbox.links))
spec_from_lab_ordered_example =
    spec_from_lab_ordered "a1" "img" topology [] setup [] true sandbox "r" made
