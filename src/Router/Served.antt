-- ===== src/Router/Served.antt =====
-- Every method of every endpoint has a handler in the chain, under the endpoint's number.
use mathlib.Core.Path.{subst}
use saphir.Base.{
  ℕ, ◌≡◌, refl, List, [], ◌∷◌, Option, some, arith, All, Result, ok, >>=-eq-ok, ok-injective,
  Bool-cases, Option-cases, inl, inr,
}
use saphir.Base.Dict.{get, insert}
use saphir.Text.{Str, str_eq}
use saphir.Text.Laws.{str_key, str_eq_iff}
use saphir.Path.{new_path}
use saphir.Http.{Method, any_method, HandlerMetadata, RouteId}
use saphir.Endpoint.{
  Endpoint, Methods, specific, any, numbered, new_methods, new_endpoint, add_to_methods, add_method,
}
use saphir.Router.{register, values}

-- `P i m`: there is a handler for method `m` of endpoint `i`.
module _ (P : ℕ → Method → Type 0) where
  abbrev pub EntryIsServed : ℕ → Method × HandlerMetadata → Type 0
  EntryIsServed i (m, meta) = P i m × (meta.route_id ≡ RouteId.id i)

  abbrev pub MethodsAreServed : ℕ → Methods → Type 0
  MethodsAreServed i (specific entries) = All (EntryIsServed i) entries
  MethodsAreServed i (any meta) = EntryIsServed i (any_method, meta)

  abbrev pub EndpointIsServed : {R : Type 0} → Endpoint R → Type 0
  EndpointIsServed er = MethodsAreServed er.id er.methods

  insert-EntryIsServed :
      (i : ℕ) (m : Method) (meta : HandlerMetadata) (entries : List (Method × HandlerMetadata))
      → EntryIsServed i (m, meta)
      → All (EntryIsServed i) entries
      → All (EntryIsServed i) (insert m meta entries)
  unfolding insert
  insert-EntryIsServed i m meta [] e h = (e, tt)
  insert-EntryIsServed i m meta ((n, old) ∷ entries) e (h, hs) = elim (Bool-cases (str_eq n m)) [
    | inl s ↦ rw s (e, hs)
    | inr s ↦ rw s (h, insert-EntryIsServed i m meta entries e hs)
  ]

  new_methods-AreServed :
      (i : ℕ) (m : Method) (meta : Option HandlerMetadata)
      → P i m
      → MethodsAreServed i (new_methods m (numbered i meta))
  unfolding new_methods
  new_methods-AreServed i m meta p = elim (Bool-cases (str_eq m any_method)) [
    | inl e ↦ rw (e, new_methods) (rw ((str_eq_iff m any_method).0 e) at p, refl)
    | inr e ↦ rw (e, new_methods) ((p, refl), tt)
  ]

  add_to_methods-AreServed :
      (i : ℕ) (ms : Methods) (m : Method) (meta : Option HandlerMetadata) {ms' : Methods}
      → P i m
      → MethodsAreServed i ms
      → add_to_methods i ms m meta ≡ ok ms'
      → MethodsAreServed i ms'
  unfolding add_to_methods
  add_to_methods-AreServed i (any old) m meta p h e = cc
  add_to_methods-AreServed i (specific entries) m meta {ms'} p h e =
      let same : specific (insert m (numbered i meta) entries) ≡ ms' = ground arith in
      subst (MethodsAreServed i) same
        (insert-EntryIsServed i m (numbered i meta) entries (p, refl) h)

  module _ {R : Type 0} where
    insert-EndpointIsServed :
        (path : Str) (er : Endpoint R) (resolver : List (Str × Endpoint R))
        → EndpointIsServed er
        → All EndpointIsServed (values resolver)
        → All EndpointIsServed (values (insert path er resolver))
    unfolding insert
    insert-EndpointIsServed path er [] e h = (e, tt)
    insert-EndpointIsServed path er ((q, old) ∷ resolver) e (h, hs) =
        elim (Bool-cases (str_eq q path)) [
          | inl s ↦ rw s (e, hs)
          | inr s ↦ rw s (h, insert-EndpointIsServed path er resolver e hs)
        ]

    get-EndpointIsServed :
        (path : Str) (resolver : List (Str × Endpoint R)) {er : Endpoint R}
        → All EndpointIsServed (values resolver)
        → get path resolver ≡ some er
        → EndpointIsServed er
    unfolding get
    get-EndpointIsServed path [] h e = absurd (cc e)
    get-EndpointIsServed path ((q, old) ∷ resolver) {er} (h, hs) e =
        elim (Bool-cases (str_eq q path)) [
          | inl s ↦ let same : old ≡ er = cc (rw s at e) in subst EndpointIsServed same h
          | inr s ↦ get-EndpointIsServed path resolver hs (rw s at e)
        ]

    new_endpoint-IsServed :
        (compile : Str → Result R Str) (counter : ℕ) (path : Str) (m : Method)
        (meta : Option HandlerMetadata) {er : Endpoint R}
        → (new_endpoint compile counter path m meta).0 ≡ ok er
        → P er.id m
        → EndpointIsServed er
    unfolding new_endpoint
    new_endpoint-IsServed compile counter path m meta e =
        let (matcher, _, same) = >>=-eq-ok (new_path compile path) _ e in
        subst (λ (x : Endpoint R). P x.id m → EndpointIsServed x) (ok-injective same)
          (new_methods-AreServed counter m meta)

    add_method-IsServed :
        (er : Endpoint R) (m : Method) (meta : Option HandlerMetadata) {er' : Endpoint R}
        → add_method er m meta ≡ ok er'
        → P er'.id m
        → EndpointIsServed er
        → EndpointIsServed er'
    unfolding add_method
    add_method-IsServed er m meta e p h =
        let (methods, made, same) = >>=-eq-ok (add_to_methods er.id er.methods m meta) _ e in
        subst (λ (x : Endpoint R). P x.id m → EndpointIsServed x) (ok-injective same)
          (λ q. add_to_methods-AreServed er.id er.methods m meta q h made) p

    -- The endpoint that `register` finds or makes is served if its method has a handler.
    pub register-IsServed :
        (compile : Str → Result R Str) (counter : ℕ) (resolver : List (Str × Endpoint R))
        (path : Str) (m : Method) (meta : Option HandlerMetadata) {i counter' : ℕ}
        {resolver' : List (Str × Endpoint R)}
        → register compile counter resolver path m meta ≡ ok (i, resolver', counter')
        → P i m
        → All EndpointIsServed (values resolver)
        → All EndpointIsServed (values resolver')
    unfolding register
    register-IsServed compile counter resolver path m meta {i} {counter'} {resolver'} e p h =
        elim (Option-cases (get path resolver)) [
          | inl new ↦
              let (er, made, last) =
                >>=-eq-ok (new_endpoint compile counter path m meta).0 _
                  (rw (new, register) at e) in
              let name : er.id ≡ i = cc last in
              let map : insert path er resolver ≡ resolver' = cc last in
              subst (λ (t : List (Str × Endpoint R)). All EndpointIsServed (values t)) map
                (insert-EndpointIsServed path er resolver
                  (new_endpoint-IsServed compile counter path m meta made (rw name p)) h)
          | inr (er, old) ↦
              let (er', made, last) =
                >>=-eq-ok (add_method er m meta) _ (rw (old, register) at e) in
              let name : er'.id ≡ i = cc last in
              let map : insert path er' resolver ≡ resolver' = cc last in
              subst (λ (t : List (Str × Endpoint R)). All EndpointIsServed (values t)) map
                (insert-EndpointIsServed path er' resolver
                  (add_method-IsServed er m meta made (rw name p)
                    (get-EndpointIsServed path resolver h old))
                  h)
        ]
