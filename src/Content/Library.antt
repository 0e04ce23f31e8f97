-- ===== src/Content/Library.antt =====
-- `net/netip` and `math/rand/v2` as content/params.go uses them. The texts of prefixes and addresses
-- and the generator are parameters.
use network_skill_lab.Prelude.{Bool, Option, min, some, ℕ, ◌*◌, ◌-◌, ◌/◌, ◌<◌, ◌==◌, ◌^◌, ◌≡◌, ◌≤◌}
use network_skill_lab.Content.Lab.{Bytes}

-- An IPv4 prefix; the address is the number that `addrToUint` gives.
pub record Prefix : Type 0 where
  pub addr : ℕ
  pub bits : ℕ

-- What `netip.ParsePrefix` reads.
pub data Netip : Type 0 where
  ipv4 : Prefix → Netip
  ipv6 : Netip

-- The number of addresses, `1 << (32 - bits)`.
abbrev pub size_of : Prefix → ℕ
size_of p = 2 ^ (32 - p.bits)

abbrev pub masked : Prefix → Prefix
masked p = record p { addr = p.addr / size_of p * size_of p }

-- `Overlaps` of two IPv4 prefixes: they agree on the bits that both have.
abbrev pub overlaps : Prefix → Prefix → Bool
overlaps p q = let host = 2 ^ (32 - min p.bits q.bits) in p.addr / host == q.addr / host

-- 172.16.0.0/12
abbrev pub reserved_block : Prefix
reserved_block = record { addr = 0xac100000; bits = 12 }

-- `draw n` is `Uint64N(n)`, which `IntN` is too on a positive number.
pub record Library : Type 1 where
  pub Rng : Type 0
  pub new_pcg : ℕ → ℕ → Rng
  pub draw : ℕ → Rng → ℕ × Rng
  pub read_prefix : Bytes → Option Netip
  pub show_prefix : Prefix → Bytes
  pub show_addr : ℕ → Bytes
  pub itoa : ℕ → Bytes

-- What is documented of them: a draw is below its bound, and a prefix that is read is one of 32 bits.
pub record IsLibrary (lib : Library) : Type 0 where
  pub in_range : (n : ℕ) (r : lib.Rng) → 0 < n → (lib.draw n r).0 < n
  pub in_bits : (text : Bytes) (p : Prefix) → lib.read_prefix text ≡ some (ipv4 p) → p.bits ≤ 32
  pub in_word : (text : Bytes) (p : Prefix) → lib.read_prefix text ≡ some (ipv4 p) → p.addr < 2 ^ 32
