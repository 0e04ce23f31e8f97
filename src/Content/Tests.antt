-- ===== src/Content/Tests.antt =====
-- A template, the cases, the draws and the rules of a lab at concrete inputs.
use network_skill_lab.Content.Declared.{AllDeclared, Rises}
use mathlib.Core.List.Memᴰ.{head}
use network_skill_lab.Prelude.{
  All, Bool-cases, List, String, [], arith, codes, get_elem?, if◌then◌else◌, inl, inr, min, none,
  ok, refl, some, subst, true, ℕ, ◌+◌, ◌-◌, ◌<◌, ◌^◌, ◌↔◌, ◌∷◌, ◌≡◌, ◌≢◌, ◌≤◌,
}
use network_skill_lab.Content.Lab.{param, Bytes, bytes_eq, Param, Case, Checkpoint}
use network_skill_lab.Content.Render.{match_placeholder, render}
use network_skill_lab.Content.Library.{ipv4, size_of, Prefix, Library, IsLibrary}
use network_skill_lab.Content.Cases.{pick_case, tickets, weight_sum, IsWeighted, pick_case_weighted}
use network_skill_lab.Content.Params.{Draws, parse_prefix, resolve_ip_in, resolve_cidr}
use network_skill_lab.Content.Addresses.{resolve_ip_in_usable, IsBlock, IsPicked}
use network_skill_lab.Content.Subnets.{resolve_cidr_inside, IsFree}
use network_skill_lab.Content.Requires.{
  out_of_fuel, known, find_requires_cycle, ids_of, find_cycle, check_requires, cycle_through,
}
use network_skill_lab.Content.Acyclic.{IsNamed}
use network_skill_lab.Content.Rules.{find_cycle_terminates, check_requires_acyclic}

rendered_address :
    render
      (codes "ping {{ client_ip }}/{{n}} {{x")
      ((codes "client_ip", codes "10.0.0.7") ∷ (codes "n", codes "24") ∷ [])
    ≡ ok (codes "ping 10.0.0.7/24 {{x")
unfolding render match_placeholder param
rendered_address = refl

-- A generator that counts up, and one prefix that it can read.
abbrev pub ten : Prefix
ten = record { addr = 0x0a000000; bits = 24 }

abbrev pub counting : Library
counting = record {
  Rng = ℕ;
  new_pcg = λ seed stream. seed;
  draw = λ n r. (min r (n - 1), r + 1);
  read_prefix = λ text. if bytes_eq text (codes "10.0.0.0/24") then some (ipv4 ten) else none;
  show_prefix = λ p. p.addr ∷ p.bits ∷ [];
  show_addr = λ a. a ∷ [];
  itoa = λ n. n ∷ [];
}

reads_ten : (text : Bytes) (p : Prefix) → counting.read_prefix text ≡ some (ipv4 p) → ten ≡ p
reads_ten text p e = elim (Bool-cases (bytes_eq text (codes "10.0.0.0/24"))) [
  | inl same ↦ let e' : some (ipv4 ten) ≡ some (ipv4 p) = rw same at e in cc
  | inr other ↦ absurd (let e' = rw other at e in cc)
]

counting-IsLibrary : IsLibrary counting
counting-IsLibrary = record {
  in_range = λ n r h. omega (arith, h);
  in_bits = λ text p e. subst (λ q. q.bits ≤ 32) (reads_ten text p e) (omega arith);
  in_word = λ text p e. subst (λ q. q.addr < 2 ^ 32) (reads_ten text p e) (omega arith);
}

abbrev client : Param
client = record {
  name = codes "client_ip";
  gen = "ip_in";
  value = [];
  base = codes "10.0.0.0/24";
  prefix = 28;
  subnet = codes "10.0.0.0/24";
  index = none;
  range = some (5 ∷ 20 ∷ []);
  of = none;
  min = none;
  max = none;
}

abbrev draws : Draws counting
draws = (3, [])

abbrev drawn_address : Bytes
drawn_address = 0x0a000008 ∷ []

abbrev draws_after : Draws counting
draws_after = (4, ((0x0a000000 ∷ 24 ∷ []), drawn_address) ∷ [])

resolves_address : resolve_ip_in counting client [] draws ≡ (ok drawn_address, draws_after)
unfolding resolve_ip_in parse_prefix render match_placeholder
resolves_address = refl

resolve_ip_in_usable_example :
    (subnet : Prefix) × (parse_prefix counting client.subnet [] ≡ ok subnet)
    × (subnet.addr + size_of subnet ≤ 2 ^ 32)
    × IsPicked counting subnet draws.1 drawn_address draws_after
resolve_ip_in_usable_example =
    resolve_ip_in_usable counting counting-IsLibrary client [] draws
      (omega arith, (omega arith, tt)) drawn_address draws_after resolves_address

abbrev drawn_subnet : Bytes
drawn_subnet = 0x0a000030 ∷ 28 ∷ []

resolves_subnet : resolve_cidr counting client [] draws ≡ (ok drawn_subnet, (4, []))
unfolding resolve_cidr parse_prefix render match_placeholder
resolves_subnet = refl

resolve_cidr_inside_example :
    (base : Prefix) × (q : Prefix) × (parse_prefix counting client.base [] ≡ ok base)
    × (drawn_subnet ≡ counting.show_prefix q)
    × IsBlock base
    × IsFree base client.prefix q
resolve_cidr_inside_example =
    resolve_cidr_inside counting counting-IsLibrary client [] draws (omega arith) drawn_subnet
      (4, []) resolves_subnet

abbrev pub case : String → ℕ → Case
case id weight = record { id = id; weight = weight; params = []; setup_env = [] }

cases-IsWeighted : All IsWeighted (case "mtu" 2 ∷ case "dns" 3 ∷ [])
cases-IsWeighted = (omega arith, (omega arith, tt))

pick_case_weighted_example :
    let cases = case "mtu" 2 ∷ case "dns" 3 ∷ [] in
    (picked : Case) × (pick_case ℕ counting.new_pcg counting.draw 3 cases ≡ ok picked)
    × (get_elem? (tickets cases) (counting.draw (weight_sum cases) 3).0 ≡ some picked)
pick_case_weighted_example =
    pick_case_weighted ℕ counting.new_pcg counting.draw counting-IsLibrary.in_range 3 (case "mtu" 2)
      (case "dns" 3 ∷ []) cases-IsWeighted (omega arith)

abbrev checkpoint : String → List String → Checkpoint
checkpoint id requires = record {
  id = id;
  title = record { zh = []; en = [] };
  node = "h1";
  script = "check.sh";
  visible = true;
  requires = requires;
}

abbrev ordered : List Checkpoint
ordered = checkpoint "ping" [] ∷ checkpoint "dns" ("ping" ∷ []) ∷ []

ordered-AllDeclared : AllDeclared ordered
ordered-AllDeclared = (tt, ((head refl, tt), tt))

find_cycle_terminates_example : find_cycle ordered ≢ out_of_fuel
find_cycle_terminates_example = find_cycle_terminates ordered ordered-AllDeclared

ordered-IsNamed : All IsNamed (ids_of ordered)
ordered-IsNamed = (refl, (refl, tt))

check_requires_acyclic_example :
    (check_requires ordered ≡ [])
    ↔ (AllDeclared ordered × ((rank : String → ℕ) × Rises rank ordered))
check_requires_acyclic_example = check_requires_acyclic ordered ordered-IsNamed

finds_cycle :
    let cps = checkpoint "a" ("b" ∷ []) ∷ checkpoint "b" ("a" ∷ []) ∷ [] in
    check_requires cps ≡ cycle_through ("a" ∷ "b" ∷ "a" ∷ []) ∷ []
unfolding check_requires find_cycle find_requires_cycle known
finds_cycle = refl
