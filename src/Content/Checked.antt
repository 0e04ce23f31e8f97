-- ===== src/Content/Checked.antt =====
-- What it says of a link that `checkLinks` finds no error in it.
use network_skill_lab.Prelude.{
  All, Bool, List, Option, Result, String, [], ap, contains, eq_iff, err, false, get_elem?,
  if◌then◌else◌, name_le, none, not, ok, refl, some, str_eq, subst, suc, sym, true, zero, ℕ, ◌++◌,
  ◌||◌, ◌∙◌, ◌∷◌, ◌≡◌,
}
use network_skill_lab.Content.Lab.{Bytes}
use network_skill_lab.Content.Library.{Netip}
use network_skill_lab.Content.Render.{render}
use network_skill_lab.Content.Topology.{entry, Link}
use network_skill_lab.Content.Links.{
  insert_name, sorted_names, one_error, stray, check_rendered, check_address, check_each, check_in,
  check_subnet, check_addresses, check_sets, LinkError, ParamSet, stray_address,
}

pub nil_left {ℓ} : {A : Type ℓ} (xs ys : List A) → xs ++ ys ≡ [] → xs ≡ []
nil_left [] ys h = refl
nil_left (x ∷ xs) ys h = absurd (cc)

pub nil_right {ℓ} : {A : Type ℓ} (xs ys : List A) → xs ++ ys ≡ [] → ys ≡ []
nil_right [] ys h = h
nil_right (x ∷ xs) ys h = absurd (cc)

one_error-nil : (c : Bool) (e : LinkError) → one_error (not c) e ≡ [] → c ≡ true
one_error-nil true e h = refl
one_error-nil false e h = absurd (cc)

stray-uncons :
    (i : ℕ) (ends : List String) (m : String) (ms : List String)
    → stray i ends (m ∷ ms) ≡ []
    → (contains ends m ≡ true) × (stray i ends ms ≡ [])
stray-uncons i ends m ms h =
    let first = one_error (not (contains ends m)) (stray_address i m) in
    (
      one_error-nil (contains ends m) (stray_address i m) (nil_left first (stray i ends ms) h),
      nil_right first (stray i ends ms) h,
    )

stray-cons :
    (i : ℕ) (ends : List String) (m : String) (ms : List String)
    → contains ends m ≡ true
    → stray i ends ms ≡ []
    → stray i ends (m ∷ ms) ≡ []
stray-cons i ends m ms h g = rw (h, g) refl

insert_if-stray :
    (c : Bool) (i : ℕ) (ends : List String) (n m : String) (ms rest : List String)
    → (stray i ends rest ≡ [] → (contains ends n ≡ true) × (stray i ends ms ≡ []))
    → stray i ends (if c then n ∷ m ∷ ms else m ∷ rest) ≡ []
    → (contains ends n ≡ true) × (stray i ends (m ∷ ms) ≡ [])
insert_if-stray true i ends n m ms rest later h = stray-uncons i ends n (m ∷ ms) h
insert_if-stray false i ends n m ms rest later h =
    let first = stray-uncons i ends m rest h in
    let kept = later first.1 in (kept.0, stray-cons i ends m ms first.0 kept.1)

-- No address is stray in the sorted names.
insert-stray :
    (i : ℕ) (ends : List String) (n : String) (ms : List String)
    → stray i ends (insert_name n ms) ≡ []
    → (contains ends n ≡ true) × (stray i ends ms ≡ [])
insert-stray i ends n [] h = stray-uncons i ends n [] h
insert-stray i ends n (m ∷ ms) h =
    insert_if-stray (name_le n m) i ends n m ms (insert_name n ms) (insert-stray i ends n ms) h

pub sorted-stray :
    (i : ℕ) (ends ns : List String)
    → stray i ends (sorted_names ns) ≡ []
    → All (λ n. contains ends n ≡ true) ns
sorted-stray i ends [] h = tt
sorted-stray i ends (n ∷ ns) h =
    let here = insert-stray i ends n (sorted_names ns) h in (here.0, sorted-stray i ends ns here.1)

module _ (read_prefix : Bytes → Option Netip) (holds : Netip → Netip → Bool) where
  check_rendered-ok :
      (i : ℕ) (case_id node : String) (subnet : Netip) (r : Result (List Bytes) Bytes)
      → check_rendered read_prefix holds i case_id node subnet r ≡ []
      → (text : Bytes) × (r ≡ ok text)
  check_rendered-ok i case_id node subnet (ok text) h = (text, refl)
  check_rendered-ok i case_id node subnet (err unknown) h = absurd (cc)

  -- The address of each end of a link renders.
  check_each-ok :
      (i : ℕ) (subnet : Netip) (ends : List String) (addresses : List (String × Bytes))
      (set : ParamSet) (node : String) (template : Bytes)
      → check_each read_prefix holds i subnet ends addresses set ≡ []
      → contains ends node ≡ true
      → entry node addresses ≡ some template
      → (text : Bytes) × (render template set.params ≡ ok text)
  check_each-ok i subnet [] addresses set node template h inside e = absurd (cc)
  check_each-ok i subnet (x ∷ ends) addresses set node template h inside e =
      let first = check_address read_prefix holds i x subnet (entry x addresses) set in
      let rest = check_each read_prefix holds i subnet ends addresses set in
      let later : contains ends node ≡ true
          → (text : Bytes) × (render template set.params ≡ ok text) =
        λ more.
          check_each-ok i subnet ends addresses set node template (nil_right first rest h) more e in
      at (str_eq x node) refl (nil_left first rest h) inside later
    where
      at :
          (c : Bool)
          → str_eq x node ≡ c
          → check_address read_prefix holds i x subnet (entry x addresses) set ≡ []
          → (c || contains ends node) ≡ true
          → (contains ends node ≡ true → (text : Bytes) × (render template set.params ≡ ok text))
          → (text : Bytes) × (render template set.params ≡ ok text)
      at true same first-ok g later =
          let here : entry x addresses ≡ some template =
            ap (λ k. entry k addresses) ((eq_iff x node).0 same) ∙ e in
          check_rendered-ok i set.case_id x subnet (render template set.params)
            (sym (ap (λ o. check_address read_prefix holds i x subnet o set) here) ∙ first-ok)
      at false same first-ok g later = later g

  -- What `checkAddresses` found for a link and a set: its subnet and the addresses of its ends render.
  pub check_addresses-ok :
      (i : ℕ) (ends : List String) (link : Link) (set : ParamSet)
      → check_addresses read_prefix holds i ends link set ≡ []
      → ((text : Bytes) × (render link.subnet set.params ≡ ok text))
        × ((node : String) (template : Bytes)
            → contains ends node ≡ true
            → entry node link.addresses ≡ some template
            → (text : Bytes) × (render template set.params ≡ ok text))
  check_addresses-ok i ends link set h = at (render link.subnet set.params) refl h
    where
      each :
          (o : Option Netip)
          → check_in read_prefix holds i ends link.addresses set o ≡ []
          → (node : String) (template : Bytes) → contains ends node ≡ true
          → entry node link.addresses ≡ some template
          → (text : Bytes) × (render template set.params ≡ ok text)
      each none g = absurd (cc)
      each (some subnet) g = λ node template inside e.
          check_each-ok i subnet ends link.addresses set node template g inside e

      at :
          (r : Result (List Bytes) Bytes)
          → render link.subnet set.params ≡ r
          → check_subnet read_prefix holds i ends link.addresses set r ≡ []
          → ((text : Bytes) × (render link.subnet set.params ≡ ok text))
            × ((node : String) (template : Bytes)
                → contains ends node ≡ true
                → entry node link.addresses ≡ some template
                → (text : Bytes) × (render template set.params ≡ ok text))
      at (err unknown) e g = absurd (cc)
      at (ok text) e g = ((text, e), each (read_prefix text) g)

  pub check_sets-at :
      (i : ℕ) (ends : List String) (link : Link) (sets : List ParamSet) (n : ℕ) (set : ParamSet)
      → check_sets read_prefix holds i ends link sets ≡ []
      → get_elem? sets n ≡ some set
      → check_addresses read_prefix holds i ends link set ≡ []
  check_sets-at i ends link [] n set h e = absurd (cc)
  check_sets-at i ends link (s ∷ sets) zero set h e =
      let same : s ≡ set = cc in
      subst (λ x. check_addresses read_prefix holds i ends link x ≡ []) same
        (nil_left (check_addresses read_prefix holds i ends link s)
          (check_sets read_prefix holds i ends link sets) h)
  check_sets-at i ends link (s ∷ sets) (suc n) set h e =
      check_sets-at i ends link sets n set
        (nil_right (check_addresses read_prefix holds i ends link s)
          (check_sets read_prefix holds i ends link sets) h)
        e
