-- ===== src/Content/Blocks.antt =====
-- Blocks of IPv4 addresses, and the limits that select an address of one.
use network_skill_lab.Prelude.{
  List, Option, [], ap, arith, false, int_lt, ltb, none, some, subst, suc, sym, zero, ℕ, ◌*◌, ◌+◌,
  ◌-◌, ◌/◌, ◌<◌, ◌^◌, ◌||◌, ◌∙◌, ◌≡◌, ◌≤◌,
}
use native.Mathlib.Nat.{
  pow-succ', mul_assoc, mul-le-mul_right, div-lt_iff_lt-mul, one-le-pow, pow-le-pow_right,
}
use network_skill_lab.Content.Library.{size_of, masked, Prefix}

pub pow_add : (a b : ℕ) → 2 ^ (a + b) ≡ 2 ^ a * 2 ^ b
pow_add zero b =
    let same : 0 + b ≡ b = omega arith in let e = ap (λ n. 2 ^ n) same in omega (arith, e)
pow_add (suc a) b =
    let twice : 2 ^ (suc a + b) ≡ 2 * 2 ^ (a + b) =
      ap (λ n. 2 ^ n) (omega arith) ∙ pow-succ' 2 (a + b) in
    twice
    ∙ ap (λ x. 2 * x) (pow_add a b)
    ∙ sym (mul_assoc 2 (2 ^ a) (2 ^ b))
    ∙ ap (λ x. x * 2 ^ b) (sym (pow-succ' 2 a))

-- The last block of `k` below `n` blocks ends there at the latest.
pub blocks_fit : (k n step : ℕ) → k < n → k * step + step ≤ n * step
blocks_fit k n step h =
    let all = mul-le-mul_right step h in
    let next : suc k * step ≡ k * step + step = omega arith in omega (arith, all, next)

pub size-pos : (p : Prefix) → 0 < size_of p
size-pos p = one-le-pow (32 - p.bits) 2 (omega arith)

-- An aligned block of the address space ends with it at the latest.
pub masked-fits :
    (p : Prefix) → p.bits ≤ 32 → p.addr < 2 ^ 32 → (masked p).addr + size_of (masked p) ≤ 2 ^ 32
masked-fits p h l =
    let parts : 32 ≡ p.bits + (32 - p.bits) = omega (arith, h) in
    let whole : 2 ^ 32 ≡ 2 ^ p.bits * size_of p =
      ap (λ n. 2 ^ n) parts ∙ pow_add p.bits (32 - p.bits) in
    let block : p.addr / size_of p < 2 ^ p.bits =
      (div-lt_iff_lt-mul (size-pos p)).1 (subst (λ n. p.addr < n) whole l) in
    let fits = blocks_fit (p.addr / size_of p) (2 ^ p.bits) (size_of p) block in
    omega (arith, fits, whole)

pub size-le : (p : Prefix) → size_of p ≤ 2 ^ 32
size-le p =
    let least : 0 < 2 = omega arith in
    let fewer : 32 - p.bits ≤ 32 = omega arith in pow-le-pow_right least fewer

pub index_limits :
    (subnet : Prefix) (offset : ℕ)
    → int_lt offset 1 || ltb (size_of subnet - 2) offset ≡ false
    → (1 ≤ offset) × (offset ≤ size_of subnet - 2)
index_limits subnet offset e =
    let le = size-le subnet in (ground (arith, e, le), ground (arith, e, le))

pub range_limits :
    (subnet : Prefix) (lo hi : ℕ)
    → lo < 2 ^ 64
    → hi < 2 ^ 64
    → int_lt lo 1 || int_lt hi lo || ltb (size_of subnet - 2) hi ≡ false
    → (1 ≤ lo) × (lo ≤ hi) × (hi ≤ size_of subnet - 2)
range_limits subnet lo hi a b e =
    let le = size-le subnet in
    (ground (arith, a, b, e, le), ground (arith, a, b, e, le), ground (arith, a, b, e, le))

abbrev pub limits : Option (List ℕ) → List ℕ
limits none = []
limits (some ns) = ns
