-- ===== src/Content/Addresses.antt =====
-- The addresses that the parameters of a lab get: inside their subnet, and each given once.
use network_skill_lab.Prelude.{
  All, Bool-cases, List, Option, Result, [], ap, arith, err, false, inl, inr, int_lt, ltb, none, ok,
  refl, some, subst, suc, zero, ℕ, ◌+◌, ◌-◌, ◌<◌, ◌>>=◌, ◌^◌, ◌||◌, ◌∷◌, ◌≡◌, ◌≤◌,
}
use network_skill_lab.Content.Lab.{Bytes, Param, Params}
use network_skill_lab.Content.Render.{render}
use network_skill_lab.Content.Library.{
  ipv6, size_of, masked, Prefix, Library, IsLibrary, Netip, ipv4,
}
use network_skill_lab.Content.Blocks.{masked-fits, index_limits, range_limits, limits}
use network_skill_lab.Content.Params.{
  Drawn, is_taken, Draws, address_at, draw_address, ParamError, select, select_range, parse_prefix,
  resolve_ip_in, of_netip, rendered, ip_in,
}

pub record IsBlock (q : Prefix) : Type 0 where
  pub small : q.bits ≤ 32
  pub fits : q.addr + size_of q ≤ 2 ^ 32

module _ (lib : Library) where
  -- What holds of an answer, which an error meets in any case.
  abbrev pub IfOk {ℓ} :
      {A : Type ℓ} → (A → Draws lib → Type 0) → Result ParamError A × Draws lib → Type 0
  IfOk P (ok a, d) = P a d
  IfOk P (err e, d) = Unit

  -- The address is a usable one of the subnet, it was free, and it is taken now.
  pub record IsPicked (subnet : Prefix) (drawn : Drawn) (address : Bytes) (d : Draws lib)
      : Type 0 where
    pub offset : ℕ
    pub first : 1 ≤ offset
    pub last : offset ≤ size_of subnet - 2
    pub shows : address ≡ address_at lib subnet offset
    pub free : is_taken (lib.show_prefix subnet) address drawn ≡ false
    pub takes : d.1 ≡ (lib.show_prefix subnet, address) ∷ drawn

  draw_address-IsPicked :
      (n : ℕ) (subnet : Prefix) (lo hi : ℕ) (d : Draws lib)
      → IsLibrary lib
      → 1 ≤ lo
      → lo ≤ hi
      → hi ≤ size_of subnet - 2
      → IfOk (IsPicked subnet d.1) (draw_address lib n subnet lo hi d)
  draw_address-IsPicked zero subnet lo hi d laws a b c = tt
  draw_address-IsPicked (suc n) subnet lo hi (rng, drawn) laws a b c =
      let below = laws.in_range (hi - lo + 1) rng (omega arith) in
      let k = (lib.draw (hi - lo + 1) rng).0 in
      elim (Bool-cases (is_taken (lib.show_prefix subnet) (address_at lib subnet (lo + k)) drawn)) [
        | inl e ↦ rw e (draw_address-IsPicked n subnet lo hi _ laws a b c)
        | inr e ↦ rw e (record {
          offset = lo + k;
          first = omega (arith, a);
          last = omega (arith, a, b, c, below);
          shows = refl;
          free = e;
          takes = refl;
        })
      ]

  select-IsPicked :
      (p : Param) (subnet : Prefix) (d : Draws lib)
      → IsLibrary lib
      → All (λ n. n < 2 ^ 64) (limits p.range)
      → IfOk (IsPicked subnet d.1) (select lib subnet p.index p.range d)
  select-IsPicked p subnet d laws words = cases p.index p.range words
    where
      indexed : (offset : ℕ) → IfOk (IsPicked subnet d.1) (select lib subnet (some offset) none d)
      indexed offset = elim (Bool-cases (int_lt offset 1 || ltb (size_of subnet - 2) offset)) [
        | inl e ↦ rw e tt
        | inr e ↦
            elim (Bool-cases
              (is_taken (lib.show_prefix subnet) (address_at lib subnet offset) d.1)) [
                | inl t ↦ rw (e, t) tt
                | inr t ↦
                    rw (e, t)
                      (record {
                        offset = offset;
                        first = (index_limits subnet offset e).0;
                        last = (index_limits subnet offset e).1;
                        shows = refl;
                        free = t;
                        takes = refl;
                      })
              ]
      ]

      ranged :
          (range : Option (List ℕ))
          → All (λ n. n < 2 ^ 64) (limits range)
          → IfOk (IsPicked subnet d.1) (select_range lib subnet range d)
      ranged none w = tt
      ranged (some []) w = tt
      ranged (some (lo ∷ [])) w = tt
      ranged (some (lo ∷ hi ∷ x ∷ xs)) w = tt
      ranged (some (lo ∷ hi ∷ [])) w =
          elim (Bool-cases (int_lt lo 1 || int_lt hi lo || ltb (size_of subnet - 2) hi)) [
            | inl e ↦ rw e tt
            | inr e ↦
                let (a, b, c) = range_limits subnet lo hi w.0 w.1.0 e in
                rw e (draw_address-IsPicked 64 subnet lo hi d laws a b c)
          ]

      cases :
          (index : Option ℕ) (range : Option (List ℕ))
          → All (λ n. n < 2 ^ 64) (limits range)
          → IfOk (IsPicked subnet d.1) (select lib subnet index range d)
      cases none range w = ranged range w
      cases (some offset) none w = indexed offset
      cases (some offset) (some range) w = tt

  of_netip-IsBlock :
      (text : Bytes) (o : Option Netip) (q : Prefix)
      → IsLibrary lib
      → lib.read_prefix text ≡ o
      → of_netip lib o ≡ ok q
      → IsBlock q
  of_netip-IsBlock text none q laws e h = absurd cc
  of_netip-IsBlock text (some ipv6) q laws e h = absurd cc
  of_netip-IsBlock text (some (ipv4 p)) q laws e h =
      let same : masked p ≡ q = cc in
      subst IsBlock same (record {
        small = laws.in_bits text p e;
        fits = masked-fits p (laws.in_bits text p e) (laws.in_word text p e);
      })

  -- A prefix that is read lies within the address space.
  pub parse_prefix-IsBlock :
      (template : Bytes) (resolved : Params) (q : Prefix)
      → IsLibrary lib
      → parse_prefix lib template resolved ≡ ok q
      → IsBlock q
  unfolding parse_prefix
  parse_prefix-IsBlock template resolved q laws h = of_text (render template resolved) h
    where
      of_text :
          (r : Result (List Bytes) Bytes)
          → (rendered r >>= λ text. of_netip lib (lib.read_prefix text)) ≡ ok q
          → IsBlock q
      of_text (ok text) e = of_netip-IsBlock text _ q laws refl e
      of_text (err names) e = absurd cc

  -- An address that `resolveIPIn` gives is one of the subnet, which lies within the address space,
  -- and neither its first nor its last; it was not given in this subnet before, and is taken now.
  -- The condition is that the limits of the range are 64-bit numbers.
  pub resolve_ip_in_usable :
      IsLibrary lib
      → (p : Param) (resolved : Params) (d : Draws lib) → All (λ n. n < 2 ^ 64) (limits p.range)
      → (address : Bytes) (d' : Draws lib) → resolve_ip_in lib p resolved d ≡ (ok address, d')
      → (subnet : Prefix) × (parse_prefix lib p.subnet resolved ≡ ok subnet)
        × (subnet.addr + size_of subnet ≤ 2 ^ 32)
        × IsPicked subnet d.1 address d'
  unfolding resolve_ip_in
  resolve_ip_in_usable laws p resolved d words address d' h =
      read (parse_prefix lib p.subnet resolved) refl h
    where
      read :
          (r : Result ParamError Prefix)
          → parse_prefix lib p.subnet resolved ≡ r
          → ip_in lib r p d ≡ (ok address, d')
          → (subnet : Prefix) × (parse_prefix lib p.subnet resolved ≡ ok subnet)
            × (subnet.addr + size_of subnet ≤ 2 ^ 32)
            × IsPicked subnet d.1 address d'
      read (err e) f h = absurd (let e' = ap (λ r. r.0) h in cc)
      read (ok subnet) f h =
          (subnet, f, (parse_prefix-IsBlock p.subnet resolved subnet laws f).fits, picked)
        where
          picked : IsPicked subnet d.1 address d'
          picked = elim (Bool-cases (ltb (size_of subnet) 4)) [
            | inl e ↦ absurd (let h' = ap (λ r. r.0) (rw e at h) in cc)
            | inr e ↦
                let h' : select lib subnet p.index p.range d ≡ (ok address, d') = rw e at h in
                subst (IfOk (IsPicked subnet d.1)) h' (select-IsPicked p subnet d laws words)
          ]
