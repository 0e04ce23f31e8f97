-- ===== src/Content/LoadTests.antt =====
-- A lab that is checked and started, and one whose case fails only when it starts.
use network_skill_lab.Prelude.{
  Bool, List, String, [], codes, err, name_le, none, ok, refl, some, true, ◌∷◌, ◌≡◌, ◌≤◌,
}
use network_skill_lab.Content.Tutorial.{check_tutorial}
use network_skill_lab.Content.Lessons.{check_tutorial_ordered}
use network_skill_lab.Content.Lab.{
  Localized, Checkpoint, TutorialStep, Bytes, Param, Case, Lab, Resolved, param,
}
use network_skill_lab.Content.Library.{Netip}
use network_skill_lab.Content.Render.{render, match_placeholder}
use network_skill_lab.Content.Cases.{merge_one, merge_params, pick_case}
use network_skill_lab.Content.Params.{
  parse_prefix, resolve_ip_in, resolve_param, resolve, resolve_for, bad_prefix, not_resolved,
}
use network_skill_lab.Content.Topology.{resolve_topology, Link, Topology}
use network_skill_lab.Content.Links.{check_links}
use network_skill_lab.Content.Started.{param_sets, IsResolvable, loaded_resolves}
use network_skill_lab.Content.Fields.{
  check_param_fields, set_param_fields, check_params, check_cases,
}
use network_skill_lab.Content.Tests.{counting}

abbrev given : String → Bytes → Param
given name value = record {
  name = codes name;
  gen = "const";
  value = value;
  base = [];
  prefix = 0;
  subnet = [];
  index = none;
  range = none;
  of = none;
  min = none;
  max = none;
}

abbrev lab_of : List Param → List Case → Lab
lab_of params cases = record {
  id = "ping";
  version = 1;
  modes = "real" ∷ [];
  environment = "container";
  ticket = record { zh = []; en = [] };
  params = params;
  cases = cases;
  precheck = none;
  setup = "setup.sh";
  checkpoints = [];
  tutorial = [];
  nodes = [];
}

abbrev ping : Lab
ping = lab_of (given "net" (codes "10.0.0.0/24") ∷ []) []

abbrev wire : Link
wire = record {
  endpoints =
      (record { node = "a"; iface = codes "eth1" }, record { node = "b"; iface = codes "eth1" });
  subnet = codes "{{net}}";
  addresses = ("a", codes "{{net}}") ∷ ("b", codes "{{net}}") ∷ [];
}

abbrev topology : Topology
topology = record {
  nodes =
      ("a", record { role = "ubuntu"; k3s = none })
      ∷ ("b", record { role = "ubuntu"; k3s = none })
      ∷ [];
  links = wire ∷ [];
}

abbrev holds : Netip → Netip → Bool
holds subnet address = true

ping-IsResolvable : IsResolvable counting ping
unfolding resolve resolve_param render match_placeholder merge_params
ping-IsResolvable = (refl, tt)

ping_checked : check_links counting.read_prefix holds topology (param_sets counting ping) ≡ []
unfolding check_links param_sets resolve resolve_param render match_placeholder merge_params param
    name_le
ping_checked = refl

abbrev drawn : Resolved
drawn = record {
  case_id = "default";
  params = (codes "net", codes "10.0.0.0/24") ∷ [];
  setup_env = [];
}

ping_drawn : resolve_for counting 7 ping ≡ ok drawn
unfolding resolve_for pick_case resolve resolve_param render match_placeholder merge_params param
ping_drawn = refl

loaded_resolves_example :
    (resolved : Topology) × (resolve_topology topology drawn.params ≡ ok resolved)
    × (resolved.nodes ≡ topology.nodes)
loaded_resolves_example =
    loaded_resolves counting holds topology ping 7 drawn ping-IsResolvable ping_checked ping_drawn

-- `b` takes an address of the network `a`, and the case puts no network there.
abbrev of_net : Param
of_net = record (given "b" []) { gen = "ip_in"; subnet = codes "{{a}}"; index = some 1 }

abbrev no_net : Case
no_net = record { id = "broken"; weight = 1; params = given "a" (codes "x") ∷ []; setup_env = [] }

abbrev broken : Lab
broken = lab_of (given "a" (codes "10.0.0.0/24") ∷ of_net ∷ []) (no_net ∷ [])

-- `checkParams` and `checkCases` find nothing, and no start of the lab succeeds.
case_error_missed :
    (check_params counting broken ≡ [])
    × (check_cases counting broken (("cases/broken.yaml", no_net) ∷ []) ≡ [])
    × (resolve_for counting 7 broken ≡ err (not_resolved ((codes "b", bad_prefix) ∷ [])))
unfolding check_params check_cases check_param_fields set_param_fields resolve_for pick_case resolve
    resolve_param resolve_ip_in parse_prefix render match_placeholder merge_params merge_one param
case_error_missed = (refl, refl, refl)

abbrev said : Localized
said = record { zh = codes "ping"; en = codes "ping" }

abbrev checkpoint : String → List String → Checkpoint
checkpoint id requires = record {
  id = id;
  title = said;
  node = "a";
  script = "check.sh";
  visible = true;
  requires = requires;
}

abbrev lesson : String → TutorialStep
lesson id = record { checkpoint = id; instruction = said }

abbrev taught : Lab
taught = record ping {
  modes = "tutorial" ∷ [];
  checkpoints = checkpoint "dns" ("link" ∷ []) ∷ checkpoint "link" [] ∷ [];
  tutorial = lesson "link" ∷ lesson "dns" ∷ [];
}

taught_checked : check_tutorial taught (param_sets counting taught) ≡ []
unfolding check_tutorial param_sets resolve resolve_param render match_placeholder merge_params
taught_checked = refl

check_tutorial_ordered_example : 0 ≤ 1
check_tutorial_ordered_example =
    check_tutorial_ordered taught (param_sets counting taught) 0 1 0
      (checkpoint "dns" ("link" ∷ [])) (lesson "dns") (lesson "link") refl taught_checked refl refl
      refl refl refl
