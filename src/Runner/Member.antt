-- ===== src/Runner/Member.antt =====
-- internal/runner/registry.go and runner.go: the data of a runner as the scheduler sees it.
use network_skill_lab.Prelude.{Bool, List, String, ℕ}

-- `Capacity` is an `int`, kept as its bit pattern. `Env` is a string.
pub record Member : Type 0 where
  pub name : String
  pub capabilities : List String
  pub capacity : ℕ
  pub connected : Bool

pub record Load : Type 0 where
  pub runner : String
  pub active : ℕ
  pub max : ℕ
