-- ===== src/Runner/Ratio.antt =====
-- How the scheduler compares the shares of two runners, and that the comparison is an order.
use network_skill_lab.Prelude.{String, arith, name_le, true, ℕ, ◌*◌, ◌<◌, ◌^◌, ◌≡◌, ◌≤◌}
use native.Mathlib.Nat.{mul-le-mul_right, le_of_mul-le-mul_right}
use network_skill_lab.Runner.Member.{Member}
use network_skill_lab.Runner.Order.{name_le_trans}

-- a / c ≤ b / d and b / d ≤ e / f give a / c ≤ e / f, over products.
pub ratio_le_trans : (a c b d e f : ℕ) → 0 < d → a * d ≤ b * c → b * f ≤ e * d → a * f ≤ e * c
ratio_le_trans a c b d e f pos p q =
    le_of_mul-le-mul_right {m = a * f} {n = e * c} {k = d}
      (omega (
        arith,
        mul-le-mul_right {m = a * d} {n = b * c} f p,
        mul-le-mul_right {m = b * f} {n = e * d} c q,
      ))
      pos

module _ (active : String → ℕ) where
  -- A free slot, with numbers small enough for the products to be exact.
  abbrev pub HasRoom : Member → Type 0
  HasRoom m = (active m.name < m.capacity) × (m.capacity < 2 ^ 31)

  -- `a` uses at most the share of its capacity that `b` uses, and has the earlier name where the
  -- two shares are equal. The shares are compared as `active / capacity`, over products.
  abbrev pub Beats : Member → Member → Type 0
  Beats a b =
      (active a.name * b.capacity ≤ active b.name * a.capacity)
      × (active b.name * a.capacity ≤ active a.name * b.capacity → name_le a.name b.name ≡ true)

  pub Beats-trans :
      (a b c : Member) → HasRoom a → HasRoom b → HasRoom c → Beats a b → Beats b c → Beats a c
  Beats-trans a b c pa pb pc p q = (
    ratio_le_trans (active a.name) a.capacity (active b.name) b.capacity (active c.name) c.capacity
        (omega arith) p.0 q.0,
    λ h.
        name_le_trans a.name b.name c.name
          (p.1 (
            ratio_le_trans (active b.name) b.capacity (active c.name) c.capacity (active a.name)
              a.capacity (omega arith) q.0 h))
          (q.1 (
            ratio_le_trans (active c.name) c.capacity (active a.name) a.capacity (active b.name)
              b.capacity (omega arith) h p.0)),
  )
