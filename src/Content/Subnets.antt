-- ===== src/Content/Subnets.antt =====
-- The subnets that the parameters of a lab get: inside their base, away from the reserved block.
use network_skill_lab.Prelude.{
  Bool-cases, Result, ap, arith, err, false, inl, inr, int_le, int_lt, ok, refl, subst, suc, sym,
  zero, ℕ, ◌%◌, ◌*◌, ◌+◌, ◌-◌, ◌<◌, ◌^◌, ◌||◌, ◌∙◌, ◌≡◌, ◌≤◌,
}
use network_skill_lab.Content.Lab.{Bytes, Params, Param}
use network_skill_lab.Content.Library.{
  size_of, overlaps, reserved_block, Prefix, Library, IsLibrary,
}
use network_skill_lab.Content.Params.{
  draw_attempts, Draws, parse_prefix, draw_prefix, shown, cidr, resolve_cidr, ParamError,
}
use native.Mathlib.Nat.{one-le-pow}
use network_skill_lab.Content.Blocks.{pow_add, blocks_fit}
use network_skill_lab.Content.Addresses.{IfOk, parse_prefix-IsBlock, IsBlock}

-- A subnet of `bits` inside the base that does not overlap the reserved block.
pub record IsFree (base : Prefix) (bits : ℕ) (q : Prefix) : Type 0 where
  pub same_bits : q.bits ≡ bits
  pub starts : base.addr ≤ q.addr
  pub ends : q.addr + size_of q ≤ base.addr + size_of base
  pub apart : overlaps q reserved_block ≡ false

-- The steps of a base and their number make up its size.
span-step :
    (base : Prefix) (bits : ℕ)
    → base.bits ≤ bits
    → bits ≤ 32
    → 2 ^ (bits - base.bits) * 2 ^ (32 - bits) ≡ size_of base
span-step base bits h l =
    let parts : (bits - base.bits) + (32 - bits) ≡ 32 - base.bits = omega (arith, h, l) in
    sym (pow_add (bits - base.bits) (32 - bits)) ∙ ap (λ n. 2 ^ n) parts

wider :
    (base : Prefix) (bits : ℕ)
    → base.bits ≤ 32
    → bits < 2 ^ 64
    → int_le bits base.bits || int_lt 32 bits ≡ false
    → (base.bits ≤ bits) × (bits ≤ 32)
wider base bits h w e = (ground (arith, h, w, e), ground (arith, h, w, e))

module _ (lib : Library) where
  draw_prefix-IsFree :
      (n : ℕ) (base : Prefix) (bits : ℕ) (d : Draws lib)
      → IsLibrary lib
      → IsBlock base
      → base.bits ≤ bits
      → bits ≤ 32
      → IfOk lib
          (λ q d'. IsFree base bits q)
          (draw_prefix lib n base bits (2 ^ (bits - base.bits)) (2 ^ (32 - bits)) d)
  draw_prefix-IsFree zero base bits d laws block h l = tt
  draw_prefix-IsFree (suc n) base bits (rng, drawn) laws block h l =
      let span = 2 ^ (bits - base.bits) in
      let step = 2 ^ (32 - bits) in
      let some_span : 0 < span = one-le-pow (bits - base.bits) 2 (omega arith) in
      let k = (lib.draw span rng).0 in
      let fit = blocks_fit k span step (laws.in_range span rng some_span) in
      let room : k * step + step ≤ size_of base =
        subst (λ m. k * step + step ≤ m) (span-step base bits h l) fit in
      let some_step : 0 < step = one-le-pow (32 - bits) 2 (omega arith) in
      let addr : (base.addr + k * step) % 2 ^ 32 ≡ base.addr + k * step =
        omega (arith, room, block.fits, some_step) in
      let candidate : Prefix = record { addr = (base.addr + k * step) % 2 ^ 32; bits = bits } in
      elim (Bool-cases (overlaps candidate reserved_block)) [
        | inl e ↦ rw e (draw_prefix-IsFree n base bits _ laws block h l)
        | inr e ↦ rw e (record {
          same_bits = refl;
          starts = omega (arith, addr);
          ends = omega (arith, addr, room);
          apart = e;
        })
      ]

  cidr-IsFree :
      (base : Prefix) (bits : ℕ) (d : Draws lib)
      → IsLibrary lib
      → IsBlock base
      → bits < 2 ^ 64
      → IfOk lib (λ q d'. IsFree base bits q) (cidr lib (ok base) bits d)
  cidr-IsFree base bits d laws block w =
      elim (Bool-cases (int_le bits base.bits || int_lt 32 bits)) [
        | inl e ↦ rw e tt
        | inr e ↦
            let (h, l) = wider base bits block.small w e in
            rw e (draw_prefix-IsFree draw_attempts base bits d laws block h l)
      ]

  -- A subnet that `resolveCIDR` gives has the asked number of bits, lies in the base, which lies in
  -- the address space, and does not overlap 172.16.0.0/12. The condition is that the asked number is
  -- a 64-bit one.
  pub resolve_cidr_inside :
      IsLibrary lib
      → (p : Param) (resolved : Params) (d : Draws lib) → p.prefix < 2 ^ 64
      → (text : Bytes) (d' : Draws lib) → resolve_cidr lib p resolved d ≡ (ok text, d')
      → (base : Prefix) × (q : Prefix) × (parse_prefix lib p.base resolved ≡ ok base)
        × (text ≡ lib.show_prefix q)
        × IsBlock base
        × IsFree base p.prefix q
  unfolding resolve_cidr
  resolve_cidr_inside laws p resolved d w text d' h = read (parse_prefix lib p.base resolved) refl h
    where
      shows :
          (base : Prefix) (R : Result ParamError Prefix × Draws lib)
          → IfOk lib (λ q e. IsFree base p.prefix q) R
          → shown lib R ≡ (ok text, d')
          → (q : Prefix) × (text ≡ lib.show_prefix q) × IsFree base p.prefix q
      shows base (err e, f) i h = absurd (let h' = ap (λ r. r.0) h in cc)
      shows base (ok q, f) i h = (q, (let h' = ap (λ r. r.0) h in cc), i)

      read :
          (r : Result ParamError Prefix)
          → parse_prefix lib p.base resolved ≡ r
          → shown lib (cidr lib r p.prefix d) ≡ (ok text, d')
          → (base : Prefix) × (q : Prefix) × (parse_prefix lib p.base resolved ≡ ok base)
            × (text ≡ lib.show_prefix q)
            × IsBlock base
            × IsFree base p.prefix q
      read (err e) f h = absurd (let h' = ap (λ r. r.0) h in cc)
      read (ok base) f h =
          let block = parse_prefix-IsBlock lib p.base resolved base laws f in
          let (q, t, i) =
            shows base (cidr lib (ok base) p.prefix d) (cidr-IsFree base p.prefix d laws block w)
              h in
          (base, q, f, t, block, i)
