-- ===== src/Router/Build.antt =====
-- Every builder that `route` and `controller` make has a handler for each of its endpoints.
use saphir.Base.{
  ℕ, ◌≡◌, true, List, [], ◌∷◌, ◌++◌, none, is_some, All, Result, ok, >>=-eq-ok, ok-injective,
}
use mathlib.Core.Path.{subst}
use saphir.Base.Dict.{insert}
use saphir.Text.{Str}
use saphir.Http.{Method, HandlerMetadata}
use saphir.Guard.{GuardChain}
use saphir.Endpoint.{Endpoint, Methods, specific, any}
use saphir.Router.{
  Handler, Handlers, handler_key, RouterChain, link, add_handler, Builder, ControllerEndpoint,
  register, route, add_endpoints, controller, default, values, named,
}
use saphir.Router.Chain.{
  found, found-insert_self, found-add_handler, found-add_handler_self, found-link,
  found-link_insert, found-link_own,
}
use saphir.Router.Served.{EntryIsServed, MethodsAreServed, EndpointIsServed, register-IsServed}

module _ (P Q : ℕ → Method → Type 0) (more : (i : ℕ) (m : Method) → P i m → Q i m) where
  entries_mono :
      (i : ℕ) (entries : List (Method × HandlerMetadata))
      → All (EntryIsServed P i) entries
      → All (EntryIsServed Q i) entries
  entries_mono i [] h = tt
  entries_mono i ((m, meta) ∷ entries) ((p, e), hs) = ((more i m p, e), entries_mono i entries hs)

  methods_mono : (i : ℕ) (ms : Methods) → MethodsAreServed P i ms → MethodsAreServed Q i ms
  methods_mono i (specific entries) h = entries_mono i entries h
  methods_mono i (any meta) (p, e) = (more i _ p, e)

  endpoints_mono :
      (R : Type 0) (ers : List (Endpoint R))
      → All (EndpointIsServed P) ers
      → All (EndpointIsServed Q) ers
  endpoints_mono R [] h = tt
  endpoints_mono R (er ∷ ers) (h, hs) = (methods_mono er.id er.methods h, endpoints_mono R ers hs)

abbrev pub HasHandler : {Resp : Type 0} → RouterChain Resp → ℕ → Method → Type 0
HasHandler chain i m = is_some (found chain i m) ≡ true

-- Each method of each endpoint has a handler, under the number that the metadata name.
abbrev pub IsServed : {R Resp : Type 0} → Builder R Resp → Type 0
IsServed b = All (EndpointIsServed (HasHandler b.chain)) (values b.resolver)

module _ {R Resp : Type 0} (compile : Str → Result R Str) where
  -- Adding a route keeps every endpoint served, the new one too.
  pub route-IsServed :
      (counter : ℕ) (b : Builder R Resp) (path : Str) (m : Method) (h : Handler Resp)
      (g : GuardChain Resp) {b' : Builder R Resp} {counter' : ℕ}
      → IsServed b
      → route compile counter b path m h g ≡ ok (b', counter')
      → IsServed b'
  unfolding route
  route-IsServed counter b path m h g {b'} {counter'} served e =
      let ((i, resolver, c), made, last) =
        >>=-eq-ok (register compile counter b.resolver path m none) _ e in
      let chain = add_handler b.chain i m h g in
      let same : ◌≡◌ {A = Builder R Resp} (record { resolver = resolver; chain = chain }) b' =
        cc last in
      subst (λ (x : Builder R Resp). IsServed x) same
        (register-IsServed (HasHandler chain) compile counter b.resolver path m none made
          (found-add_handler_self b.chain i m h g)
          (endpoints_mono (HasHandler b.chain) (HasHandler chain)
            (λ j n. found-add_handler b.chain i j m n h g) R (values b.resolver) served))

  add_endpoints-IsServed :
      (chain : RouterChain Resp) (base : Str) (es : List (ControllerEndpoint Resp)) (counter : ℕ)
      (resolver : List (Str × Endpoint R)) (handlers : Handlers Resp)
      {resolver' : List (Str × Endpoint R)} {handlers' : Handlers Resp} {counter' : ℕ}
      → All (EndpointIsServed (HasHandler (link handlers chain))) (values resolver)
      → add_endpoints compile base es counter resolver handlers
        ≡ ok (resolver', handlers', counter')
      → All (EndpointIsServed (HasHandler (link handlers' chain))) (values resolver')
  unfolding add_endpoints
  add_endpoints-IsServed chain base [] counter resolver handlers served e =
      subst
        (λ (t : List (Str × Endpoint R) × Handlers Resp × ℕ).
          All (EndpointIsServed (HasHandler (link t.1 chain))) (values t.0))
        (ok-injective e) served
  add_endpoints-IsServed chain base (x ∷ es) counter resolver handlers served e =
      let ((i, r, c), made, last) =
        >>=-eq-ok (register compile counter resolver (base ++ x.subroute) x.method (named x.name)) _
          e in
      let handlers' = insert (i, x.method) (x.handler, x.guards) handlers in
      add_endpoints-IsServed chain base es c r handlers'
        (register-IsServed (HasHandler (link handlers' chain)) compile counter resolver
          (base ++ x.subroute) x.method (named x.name) made
          (found-link_own handlers' chain i x.method
            (found-insert_self handlers i x.method (x.handler, x.guards)))
          (endpoints_mono (HasHandler (link handlers chain)) (HasHandler (link handlers' chain))
            (λ j n. found-link_insert handlers chain i j x.method n (x.handler, x.guards)) R
            (values resolver) served))
        last

  -- Adding a controller keeps every endpoint served, the new ones too.
  pub controller-IsServed :
      (counter : ℕ) (b : Builder R Resp) (base : Str) (es : List (ControllerEndpoint Resp))
      {b' : Builder R Resp} {counter' : ℕ}
      → IsServed b
      → controller compile counter b base es ≡ ok (b', counter')
      → IsServed b'
  unfolding controller
  controller-IsServed counter b base es {b'} {counter'} served e =
      let ((resolver, handlers, c), made, last) =
        >>=-eq-ok (add_endpoints compile base es counter b.resolver []) _ e in
      let same : ◌≡◌ {A = Builder R Resp}
          (record { resolver = resolver; chain = link handlers b.chain }) b' =
        cc last in
      subst (λ (x : Builder R Resp). IsServed x) same
        (add_endpoints-IsServed b.chain base es counter b.resolver []
          (endpoints_mono (HasHandler b.chain) (HasHandler (link [] b.chain))
            (λ j n. found-link [] b.chain j n) R (values b.resolver) served)
          made)

  -- A builder as calls of `route` and `controller` leave it, with the counter of the endpoints.
  pub data Built : Builder R Resp → ℕ → Type 0 where
    start : (counter : ℕ) → Built default counter
    routed :
        {b b' : Builder R Resp} {c c' : ℕ} (path : Str) (m : Method) (h : Handler Resp)
        (g : GuardChain Resp)
        → Built b c
        → route compile c b path m h g ≡ ok (b', c')
        → Built b' c'
    controlled :
        {b b' : Builder R Resp} {c c' : ℕ} (base : Str) (es : List (ControllerEndpoint Resp))
        → Built b c
        → controller compile c b base es ≡ ok (b', c')
        → Built b' c'

  pub Built-IsServed : {b : Builder R Resp} {c : ℕ} → Built b c → IsServed b
  Built-IsServed (start counter) = tt
  Built-IsServed (routed {b} {b'} {c} {c'} path m h g r e) =
      route-IsServed c b path m h g (Built-IsServed r) e
  Built-IsServed (controlled {b} {b'} {c} {c'} base es r e) =
      controller-IsServed c b base es (Built-IsServed r) e
