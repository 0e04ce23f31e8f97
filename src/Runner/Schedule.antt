-- ===== src/Runner/Schedule.antt =====
-- `Schedule` of internal/runner/registry.go.
use network_skill_lab.Prelude.{
  Bool, List, Option, Result, String, [], contains, err, if◌then◌else◌, int_le, int_lt, int_mul,
  map, name_le, none, ok, some, ℕ, ◌&&◌, ◌||◌, ◌∷◌,
}
use network_skill_lab.Runner.Member.{Member, Load}

pub data ScheduleError : Type 0 where
  no_runner : String → ScheduleError
  busy : List Load → ScheduleError

-- `m.Connected && slices.Contains(m.Capabilities, env)`
abbrev pub is_capable : String → Member → Bool
is_capable env m = m.connected && contains m.capabilities env

unfoldable pub capable : String → List Member → List Member
capable env [] = []
capable env (m ∷ ms) = let rest = capable env ms in if is_capable env m then m ∷ rest else rest

unfoldable pub insert_by_name : Member → List Member → List Member
insert_by_name m [] = m ∷ []
insert_by_name m (x ∷ xs) = if name_le m.name x.name then m ∷ x ∷ xs else x ∷ insert_by_name m xs

-- `slices.SortFunc` by name. Names are distinct, so the order is the only one there is.
unfoldable pub sort_by_name : List Member → List Member
sort_by_name [] = []
sort_by_name (m ∷ ms) = insert_by_name m (sort_by_name ms)

module _ (active : String → ℕ) where
  -- `m.Capacity <= 0 || active[m.Name] >= m.Capacity`
  unfoldable pub is_full : Member → Bool
  is_full m = int_le m.capacity 0 || int_le m.capacity (active m.name)

  -- The test by which a later runner replaces the best one so far.
  unfoldable pub is_lighter : Member → Member → Bool
  is_lighter m best =
      int_lt (int_mul (active m.name) best.capacity) (int_mul (active best.name) m.capacity)

  unfoldable pub improve : Option Member → Member → Option Member
  unfolding is_full is_lighter
  improve none m = if is_full m then none else some m
  improve (some best) m =
      if is_full m then some best else if is_lighter m best then some m else some best

  -- The loop over the sorted runners; `best` is the member that the source keeps by its index.
  unfoldable pub pick : Option Member → List Member → Option Member
  pick best [] = best
  pick best (m ∷ ms) = pick (improve best m) ms

  abbrev pub load_of : Member → Load
  load_of m = record { runner = m.name; active = active m.name; max = m.capacity }

  unfoldable pub outcome : Option Member → List Member → Result ScheduleError String
  outcome (some best) ms = ok best.name
  outcome none ms = err (busy (map load_of ms))

  unfoldable pub choose : String → List Member → Result ScheduleError String
  unfolding pick sort_by_name outcome
  choose env [] = err (no_runner env)
  choose env (m ∷ ms) = let sorted = sort_by_name (m ∷ ms) in outcome (pick none sorted) sorted

  unfoldable pub schedule : List Member → String → Result ScheduleError String
  unfolding choose capable
  schedule members env = choose env (capable env members)
