-- ===== src/Router/Agree.antt =====
-- The two resolutions of router.rs find the same endpoint, and what is found has a handler.
use mathlib.Core.Path.{subst}
use saphir.Base.{
  ℕ, ◌≡◌, ◌⊎◌, inl, inr, refl, sym, ap, Bool, true, false, List, [], ◌∷◌, some, is_some, All,
  Result, ok, err, ok-injective, Bool-cases, Option-cases, arith,
}
use saphir.Base.Dict.{get}
use saphir.Text.{Str, str_eq}
use saphir.Text.Laws.{str_key, str_eq_iff}
use saphir.Http.{Method, HandlerMetadata, RouteId, Request}
use saphir.Endpoint.{Endpoint, Methods, specific, any, matched, resolve, resolve_method}
use saphir.Router.{chain_dispatch, Builder, build, values, resolve_from, resolve_metadata_from}
use saphir.Router.Chain.{chain_dispatch-found}
use saphir.Router.Served.{EntryIsServed, MethodsAreServed, EndpointIsServed}
use saphir.Router.Resolve.{Resolved-cases}
use saphir.Router.Build.{HasHandler, Built, Built-IsServed}

abbrev is_specific : Methods → Bool
is_specific (specific _) = true
is_specific (any _) = false

abbrev pub route_of : Result ℕ ℕ → RouteId
route_of (ok i) = RouteId.id i
route_of (err status) = RouteId.error status

-- The endpoint lists its methods; it is not for any method.
abbrev pub IsSpecific : {R : Type 0} → Endpoint R → Type 0
IsSpecific er = is_specific er.methods ≡ true

module _ (P : ℕ → Method → Type 0) where
  get-EntryIsServed :
      (i : ℕ) (m : Method) (entries : List (Method × HandlerMetadata)) {meta : HandlerMetadata}
      → All (EntryIsServed P i) entries
      → get m entries ≡ some meta
      → EntryIsServed P i (m, meta)
  unfolding get
  get-EntryIsServed i m [] h e = absurd (cc e)
  get-EntryIsServed i m ((n, old) ∷ entries) {meta} (h, hs) e = elim (Bool-cases (str_eq n m)) [
    | inl s ↦
        let same : ◌≡◌ {A = Method × HandlerMetadata} (n, old) (m, meta) =
          cc ((str_eq_iff n m).0 s, rw s at e) in
        subst (EntryIsServed P i) same h
    | inr s ↦ get-EntryIsServed i m entries hs (rw s at e)
  ]

  -- What a method resolves to is served for it, unless the endpoint is for any method.
  resolve_method-IsServed :
      (i : ℕ) (ms : Methods) (m : Method) {meta : HandlerMetadata}
      → MethodsAreServed P i ms
      → resolve_method ms m ≡ matched meta
      → (P i m ⊎ (ms ≡ any meta)) × (meta.route_id ≡ RouteId.id i)
  unfolding resolve_method
  resolve_method-IsServed i (any old) m {meta} (p, e) r =
      let opened : matched old ≡ matched meta = r in
      let same : old ≡ meta = cc opened in (inr (ap any same), rw (sym same) e)
  resolve_method-IsServed i (specific entries) m {meta} h r = elim (Option-cases (get m entries)) [
    | inl e ↦ absurd (cc (rw (e, resolve_method) at r))
    | inr (old, e) ↦
        let (p, q) = get-EntryIsServed i m entries h e in
        (inl p, let same : old ≡ meta = cc (rw (e, resolve_method) at r) in rw (sym same) q)
  ]

module _ {R : Type 0} (is_match : R → Str → Bool) where
  method-resolve :
      (er : Endpoint R) (req : Request) → (resolve is_match er req).1.method ≡ req.method
  unfolding resolve
  method-resolve er req = ground arith

  method-resolve_from :
      (ers : List (Endpoint R)) (flag : Bool) (req : Request)
      → (resolve_from is_match ers flag req).1.method ≡ req.method
  unfolding resolve_from
  method-resolve_from [] flag req = refl
  method-resolve_from (er ∷ ers) flag req =
      let req' = (resolve is_match er req).1 in
      ground (
        arith,
        method-resolve er req,
        method-resolve_from ers flag req',
        method-resolve_from ers true req',
      )

  resolve-matched :
      (er : Endpoint R) (req : Request) {meta : HandlerMetadata}
      → (resolve is_match er req).0 ≡ matched meta
      → resolve_method er.methods req.method ≡ matched meta
  unfolding resolve
  resolve-matched er req e = ground arith

  -- When every endpoint has its own number in its metadata, `resolve` and `resolve_metadata` agree on
  -- the route and leave the same captures.
  pub resolve_metadata_from-agrees :
      (P : ℕ → Method → Type 0) (ers : List (Endpoint R)) (flag : Bool) (req : Request)
      → All (EndpointIsServed P) ers
      → (route_of (resolve_from is_match ers flag req).0
          ≡ (resolve_metadata_from is_match ers flag req).0.route_id)
        × ((resolve_from is_match ers flag req).1 ≡ (resolve_metadata_from is_match ers flag req).1)
  unfolding resolve_from resolve_metadata_from
  resolve_metadata_from-agrees P [] flag req h = ground arith
  resolve_metadata_from-agrees P (er ∷ ers) flag req (h, hs) =
      let req' = (resolve is_match er req).1 in
      let rest = resolve_metadata_from-agrees P ers flag req' hs in
      let rest' = resolve_metadata_from-agrees P ers true req' hs in
      elim (Resolved-cases (resolve is_match er req).0) [
        | inl e ↦ rw (e, resolve_from, resolve_metadata_from) rest
        | inr (inl e) ↦ rw (e, resolve_from, resolve_metadata_from) rest'
        | inr (inr (meta, e)) ↦
            let (_, same) =
              resolve_method-IsServed P er.id er.methods req.method h (resolve-matched er req e) in
            rw (e, resolve_from, resolve_metadata_from) (sym same, refl)
      ]

  -- With no endpoint for any method, what is resolved is served for the method of the request.
  pub resolve_from-IsServed :
      (P : ℕ → Method → Type 0) (ers : List (Endpoint R)) (flag : Bool) (req : Request) {i : ℕ}
      → All (EndpointIsServed P) ers
      → All IsSpecific ers
      → (resolve_from is_match ers flag req).0 ≡ ok i
      → P i req.method
  unfolding resolve_from
  resolve_from-IsServed P [] true req h s e = absurd (cc e)
  resolve_from-IsServed P [] false req h s e = absurd (cc e)
  resolve_from-IsServed P (er ∷ ers) flag req {i} (h, hs) (s, ss) e =
      let req' = (resolve is_match er req).1 in
      let rest = resolve_from-IsServed P ers flag req' {i = i} hs ss in
      let rest' = resolve_from-IsServed P ers true req' {i = i} hs ss in
      elim (Resolved-cases (resolve is_match er req).0) [
        | inl r ↦ rw (sym (method-resolve er req)) (rest (rw (r, resolve_from) at e))
        | inr (inl r) ↦ rw (sym (method-resolve er req)) (rest' (rw (r, resolve_from) at e))
        | inr (inr (meta, r)) ↦
            let same : er.id ≡ i = ok-injective (rw (r, resolve_from) at e) in
            rw (sym same)
              (elim (resolve_method-IsServed P er.id er.methods req.method h
                (resolve-matched er req r)).0 [ inl p ↦ p | inr q ↦ absurd (cc (rw q at s)) ])
      ]

module _ {R Resp : Type 0} (compile : Str → Result R Str) (is_match : R → Str → Bool) where
  -- For a router of `route` and `controller` calls with no endpoint for any method, sorted in any way
  -- that keeps its endpoints: a request that `resolve` finds an endpoint for has a handler, so the
  -- dispatch does not answer that there is none.
  pub resolve-chain_dispatch :
      (sort : List (Endpoint R) → List (Endpoint R))
      (sort-All : (P : Endpoint R → Type 0) (ers : List (Endpoint R))
        → All P ers
        → All P (sort ers))
      {b : Builder R Resp} {c : ℕ} (req : Request) {i : ℕ}
      → Built compile b c
      → All IsSpecific (values b.resolver)
      → (resolve_from is_match (build sort b).resolvers false req).0 ≡ ok i
      → is_some (
          chain_dispatch
            (build sort b).chain
            i
            (resolve_from is_match (build sort b).resolvers false req).1)
        ≡ true
  unfolding build
  resolve-chain_dispatch sort sort-All {b} {c} req {i} built s e =
      let ers = sort (values b.resolver) in
      let left = (resolve_from is_match ers false req).1 in
      let served =
        resolve_from-IsServed is_match (HasHandler b.chain) ers false req
          (sort-All (EndpointIsServed (HasHandler b.chain)) (values b.resolver)
            (Built-IsServed compile built))
          (sort-All IsSpecific (values b.resolver) s) e in
      ground
        (arith, chain_dispatch-found b.chain i left, method-resolve_from is_match ers false req)
