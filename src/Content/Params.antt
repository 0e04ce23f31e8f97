-- ===== src/Content/Params.antt =====
-- content/params.go: the values of the parameters of a lab, drawn from a seed.
use network_skill_lab.Prelude.{
  Bool, List, Option, Result, [], err, false, if◌then◌else◌, int_add, int_le, int_lt, int_size,
  length, ltb, none, ok, some, str_eq, suc, zero, ℕ, ◌%◌, ◌&&◌, ◌*◌, ◌++◌, ◌+◌, ◌-◌, ◌>>=◌, ◌^◌,
  ◌||◌, ◌∷◌,
}
use network_skill_lab.Content.Lab.{Bytes, bytes_eq, Params, Param, Case, Lab, Resolved}
use network_skill_lab.Content.Render.{render}
use network_skill_lab.Content.Library.{
  size_of, masked, overlaps, reserved_block, Prefix, Netip, Library, ipv4, ipv6,
}
use network_skill_lab.Content.Cases.{pick_case, merge_params, PickError}

abbrev pub param_stream : ℕ
param_stream = 0xc2b2ae3d27d4eb4f

abbrev pub draw_attempts : ℕ
draw_attempts = 64

pub data ParamError : Type 0 where
  unknown_names : List Bytes → ParamError
  bad_prefix not_ipv4 bad_bits no_free_prefix no_usable : ParamError
  index_and_range bad_index address_used bad_range range_used no_selector : ParamError
  empty_choice no_limits max_below_min unknown_gen panics : ParamError

abbrev pub rendered : Result (List Bytes) Bytes → Result ParamError Bytes
rendered (ok text) = ok text
rendered (err names) = err (unknown_names names)

-- `drawn`: the addresses that are taken, each with the text of its subnet.
abbrev pub Drawn : Type 0
Drawn = List (Bytes × Bytes)

abbrev pub is_taken : Bytes → Bytes → Drawn → Bool
is_taken subnet address [] = false
is_taken subnet address ((s, a) ∷ rest) =
    bytes_eq s subnet && bytes_eq a address || is_taken subnet address rest

pub data ResolveError : Type 0 where
  not_picked : PickError → ResolveError
  not_resolved : List (Bytes × ParamError) → ResolveError

module _ (lib : Library) where
  -- The generator and the addresses that are taken.
  abbrev pub Draws : Type 0
  Draws = lib.Rng × Drawn

  abbrev pub of_netip : Option Netip → Result ParamError Prefix
  of_netip none = err bad_prefix
  of_netip (some ipv6) = err not_ipv4
  of_netip (some (ipv4 p)) = ok (masked p)

  -- `parsePrefix`
  unfoldable pub parse_prefix : Bytes → Params → Result ParamError Prefix
  parse_prefix template resolved = do
    text ← rendered (render template resolved)
    of_netip (lib.read_prefix text)

  -- The address at an offset, `uintToAddr(uint32(network + offset))`.
  abbrev pub address_at : Prefix → ℕ → Bytes
  address_at subnet offset = lib.show_addr ((subnet.addr + offset) % 2 ^ 32)

  abbrev pub taking : Prefix → Bytes → Draws → Result ParamError Bytes × Draws
  taking subnet address (rng, drawn) =
      (ok address, (rng, (lib.show_prefix subnet, address) ∷ drawn))

  abbrev pub take_index : Prefix → ℕ → Draws → Result ParamError Bytes × Draws
  take_index subnet offset d =
      let address = address_at subnet offset in
      if is_taken (lib.show_prefix subnet) address d.1
      then (err address_used, d)
      else taking subnet address d

  -- The loop over the draws of a range.
  abbrev pub draw_address : ℕ → Prefix → ℕ → ℕ → Draws → Result ParamError Bytes × Draws
  draw_address zero subnet lo hi d = (err range_used, d)
  draw_address (suc n) subnet lo hi (rng, drawn) =
      let (k, rng') = lib.draw (hi - lo + 1) rng in
      let rest = draw_address n subnet lo hi (rng', drawn) in
      let address = address_at subnet (lo + k) in
      if is_taken (lib.show_prefix subnet) address drawn
      then rest
      else taking subnet address (rng', drawn)

  abbrev pub select_range : Prefix → Option (List ℕ) → Draws → Result ParamError Bytes × Draws
  select_range subnet (some (lo ∷ hi ∷ [])) d =
      if int_lt lo 1 || int_lt hi lo || ltb (size_of subnet - 2) hi
      then (err bad_range, d)
      else draw_address draw_attempts subnet lo hi d
  select_range subnet _ d = (err no_selector, d)

  abbrev pub select : Prefix → Option ℕ → Option (List ℕ) → Draws → Result ParamError Bytes × Draws
  select subnet (some offset) (some range) d = (err index_and_range, d)
  select subnet (some offset) none d =
      if int_lt offset 1 || ltb (size_of subnet - 2) offset
      then (err bad_index, d)
      else take_index subnet offset d
  select subnet none range d = select_range subnet range d

  abbrev pub ip_in : Result ParamError Prefix → Param → Draws → Result ParamError Bytes × Draws
  ip_in (err e) p d = (err e, d)
  ip_in (ok subnet) p d =
      if ltb (size_of subnet) 4 then (err no_usable, d) else select subnet p.index p.range d

  -- `resolveIPIn`
  unfoldable pub resolve_ip_in : Param → Params → Draws → Result ParamError Bytes × Draws
  resolve_ip_in p resolved d = ip_in (parse_prefix p.subnet resolved) p d

  -- The loop over the draws of a prefix.
  abbrev pub draw_prefix : ℕ → Prefix → ℕ → ℕ → ℕ → Draws → Result ParamError Prefix × Draws
  draw_prefix zero base bits span step d = (err no_free_prefix, d)
  draw_prefix (suc n) base bits span step (rng, drawn) =
      let (k, rng') = lib.draw span rng in
      let rest = draw_prefix n base bits span step (rng', drawn) in
      let candidate : Prefix = record { addr = (base.addr + k * step) % 2 ^ 32; bits = bits } in
      if overlaps candidate reserved_block then rest else (ok candidate, (rng', drawn))

  abbrev pub shown : Result ParamError Prefix × Draws → Result ParamError Bytes × Draws
  shown (err e, d) = (err e, d)
  shown (ok p, d) = (ok (lib.show_prefix p), d)

  abbrev pub cidr : Result ParamError Prefix → ℕ → Draws → Result ParamError Prefix × Draws
  cidr (err e) bits d = (err e, d)
  cidr (ok base) bits d =
      if int_le bits base.bits || int_lt 32 bits
      then (err bad_bits, d)
      else draw_prefix draw_attempts base bits (2 ^ (bits - base.bits)) (2 ^ (32 - bits)) d

  -- `resolveCIDR`
  unfoldable pub resolve_cidr : Param → Params → Draws → Result ParamError Bytes × Draws
  resolve_cidr p resolved d = shown (cidr (parse_prefix p.base resolved) p.prefix d)

  -- `rng.IntN` panics on a number that is not positive.
  abbrev pub int_n : ℕ → (ℕ → Result ParamError Bytes) → Draws → Result ParamError Bytes × Draws
  int_n n f (rng, drawn) =
      let (k, rng') = lib.draw n rng in
      if int_lt 0 n then (f k, (rng', drawn)) else (err panics, (rng, drawn))

  abbrev pub nth : List Bytes → ℕ → Bytes
  nth [] k = []
  nth (x ∷ xs) zero = x
  nth (x ∷ xs) (suc k) = nth xs k

  abbrev pub choose : Option (List Bytes) → Params → Draws → Result ParamError Bytes × Draws
  choose (some (x ∷ xs)) resolved d =
      int_n (length (x ∷ xs)) (λ k. rendered (render (nth (x ∷ xs) k) resolved)) d
  choose _ resolved d = (err empty_choice, d)

  abbrev pub between : Option ℕ → Option ℕ → Draws → Result ParamError Bytes × Draws
  between (some lo) (some hi) d =
      let span = int_add (int_add hi (int_size - lo)) 1 in
      if int_lt hi lo
      then (err max_below_min, d)
      else int_n span (λ k. ok (lib.itoa (int_add lo k))) d
  between _ _ d = (err no_limits, d)

  -- `resolveParam`
  unfoldable pub resolve_param : Param → Params → Draws → Result ParamError Bytes × Draws
  resolve_param p resolved d =
      if str_eq p.gen "const"
      then (rendered (render p.value resolved), d)
      else if str_eq p.gen "cidr"
      then resolve_cidr p resolved d
      else if str_eq p.gen "ip_in"
      then resolve_ip_in p resolved d
      else if str_eq p.gen "choice"
      then choose p.of resolved d
      else if str_eq p.gen "int"
      then between p.min p.max d
      else (err unknown_gen, d)

  abbrev pub Resolution : Type 0
  Resolution = Params × List (Bytes × ParamError)

  -- A later value of a name is the one that is found.
  abbrev pub noted :
      Bytes → Result ParamError Bytes → Params → List (Bytes × ParamError) → Resolution
  noted name (ok value) resolved errs = ((name, value) ∷ resolved, errs)
  noted name (err e) resolved errs = (resolved, errs ++ (name, e) ∷ [])

  abbrev pub resolve_from : List Param → Resolution → Draws → Resolution × Draws
  resolve_from [] r d = (r, d)
  resolve_from (p ∷ ps) r d =
      let (value, d') = resolve_param p r.0 d in resolve_from ps (noted p.name value r.0 r.1) d'

  -- `Resolve`: the values, and an error for each parameter that has none.
  unfoldable pub resolve : ℕ → List Param → Resolution
  resolve seed ps = (resolve_from ps ([], []) (lib.new_pcg seed param_stream, [])).0

  abbrev pub of_resolution : Case → Resolution → Result ResolveError Resolved
  of_resolution c (params, []) =
      ok (record { case_id = c.id; params = params; setup_env = c.setup_env })
  of_resolution c (params, e ∷ errs) = err (not_resolved (e ∷ errs))

  abbrev pub of_picked : ℕ → Lab → Result PickError Case → Result ResolveError Resolved
  of_picked seed lab (err e) = err (not_picked e)
  of_picked seed lab (ok c) = of_resolution c (resolve seed (merge_params lab.params c.params))

  -- `ResolveFor`
  unfoldable pub resolve_for : ℕ → Lab → Result ResolveError Resolved
  resolve_for seed lab = of_picked seed lab (pick_case lib.Rng lib.new_pcg lib.draw seed lab.cases)
