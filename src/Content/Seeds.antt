-- ===== src/Content/Seeds.antt =====
-- The names of the resolved parameters of content/params.go are the same for every seed.
use network_skill_lab.Prelude.{
  Bool, List, Result, [], ap, err, false, if◌then◌else◌, ok, refl, some, sym, true, ℕ, ◌||◌, ◌∙◌,
  ◌∷◌, ◌≡◌,
}
use network_skill_lab.Content.Lab.{Bytes, bytes_eq, Params, param, Param}
use network_skill_lab.Content.Library.{Library}
use network_skill_lab.Content.Params.{
  param_stream, Draws, resolve_param, Resolution, noted, resolve_from, resolve, ParamError,
}
use network_skill_lab.Content.Names.{SameNames}
use network_skill_lab.Content.Links.{is_some}

abbrev declared : Bytes → List Param → Bool
declared n [] = false
declared n (p ∷ ps) = declared n ps || bytes_eq p.name n

module _ (lib : Library) where
  noted-errors :
      (name : Bytes) (value : Result ParamError Bytes) (resolved : Params)
      (errs : List (Bytes × ParamError))
      → (noted lib name value resolved errs).1 ≡ []
      → (errs ≡ []) × ((v : Bytes) × (value ≡ ok v))
  noted-errors name (ok v) resolved errs h = (h, (v, refl))
  noted-errors name (err e) resolved [] h = absurd (cc)
  noted-errors name (err e) resolved (x ∷ errs) h = absurd (cc)

  -- An error stays.
  resolve_from-errors :
      (ps : List Param) (r : Resolution lib) (d : Draws lib)
      → (resolve_from lib ps r d).0.1 ≡ []
      → r.1 ≡ []
  resolve_from-errors [] r d h = h
  resolve_from-errors (p ∷ ps) r d h =
      let (value, d') = resolve_param lib p r.0 d in
      let later = resolve_from-errors ps (noted lib p.name value r.0 r.1) d' h in
      (noted-errors p.name value r.0 r.1 later).0

  noted-names :
      (n name : Bytes) (value : Result ParamError Bytes) (resolved : Params)
      (errs : List (Bytes × ParamError))
      → (noted lib name value resolved errs).1 ≡ []
      → is_some (param n (noted lib name value resolved errs).0)
        ≡ (bytes_eq name n || is_some (param n resolved))
  unfolding param
  noted-names n name (ok v) resolved errs h = at (bytes_eq name n)
    where
      at :
          (c : Bool)
          → is_some (if c then some v else param n resolved) ≡ (c || is_some (param n resolved))
      at true = refl
      at false = refl
  noted-names n name (err e) resolved [] h = absurd (cc)
  noted-names n name (err e) resolved (x ∷ errs) h = absurd (cc)

  or_assoc : (a b c : Bool) → (a || (b || c)) ≡ ((a || b) || c)
  or_assoc true b c = refl
  or_assoc false b c = refl

  -- Without an error the names are those that are declared.
  resolve_from-names :
      (n : Bytes) (ps : List Param) (r : Resolution lib) (d : Draws lib)
      → (resolve_from lib ps r d).0.1 ≡ []
      → is_some (param n (resolve_from lib ps r d).0.0) ≡ (declared n ps || is_some (param n r.0))
  resolve_from-names n [] r d h = refl
  resolve_from-names n (p ∷ ps) r d h =
      let (value, d') = resolve_param lib p r.0 d in
      let next = noted lib p.name value r.0 r.1 in
      resolve_from-names n ps next d' h
      ∙ ap (λ b. declared n ps || b)
          (noted-names n p.name value r.0 r.1 (resolve_from-errors ps next d' h))
      ∙ or_assoc (declared n ps) (bytes_eq p.name n) (is_some (param n r.0))

  pub seeds-SameNames :
      (seed seed' : ℕ) (ps : List Param)
      → (resolve lib seed ps).1 ≡ []
      → (resolve lib seed' ps).1 ≡ []
      → SameNames (resolve lib seed ps).0 (resolve lib seed' ps).0
  unfolding resolve
  seeds-SameNames seed seed' ps h h' n =
      resolve_from-names n ps ([], []) (lib.new_pcg seed param_stream, []) h
      ∙ sym (resolve_from-names n ps ([], []) (lib.new_pcg seed' param_stream, []) h')
