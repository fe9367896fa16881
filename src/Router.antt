-- ===== src/Router.antt =====
-- saphir/src/router.rs: the builder of the router, the resolution of a request and the dispatch to
-- a handler. A handler is a function of the request to a responder of type `Resp`; a controller's
-- handlers have the controller in them. Futures are taken to their results.
pub mod Chain
pub mod Served
pub mod Build
pub mod Resolve
pub mod Agree
pub mod AnyMethod
use saphir.Base.{
  ℕ, Bool, true, ◌&&◌, List, [], ◌∷◌, ◌++◌, Option, none, some, ◌==◌, if◌then◌else◌, Result, ok,
  err, ◌>>=◌, ok_or, ◌↔◌, ◌≡◌, arith,
}
use saphir.Base.Dict.{Key, get, insert}
use saphir.Text.{Str, str_eq}
use saphir.Text.Laws.{str_key, str_eq_iff}
use saphir.Http.{
  Method, Request, RouteId, HandlerMetadata, not_found, not_allowed, take_request, Context,
  set_after,
}
use saphir.Guard.{GuardChain, is_end, validate}
use saphir.Guard
use saphir.Endpoint.{
  Endpoint, invalid_path, method_not_allowed, matched, new_endpoint, add_method, resolve,
}
use saphir.Errors.{SaphirError, request_moved_before_handler}

abbrev pub Handler : Type 0 → Type 0
Handler Resp = Request → Resp

-- The key of a handler: the number of its endpoint, and the method it was added for.
abbrev pub handler_key_beq : ℕ × Method → ℕ × Method → Bool
handler_key_beq (i, m) (j, n) = i == j && str_eq m n

pub handler_key_iff : (a b : ℕ × Method) → (handler_key_beq a b ≡ true) ↔ (a ≡ b)
handler_key_iff (i, m) (j, n) = ground (arith, str_eq_iff m n)

instance abbrev pub handler_key : Key (ℕ × Method)
handler_key = record { beq = handler_key_beq; beq_iff = handler_key_iff }

abbrev pub Handlers : Type 0 → Type 0
Handlers Resp = List ((ℕ × Method) × (Handler Resp × GuardChain Resp))

-- `RouterChainEnd` holds the handlers of `route`; each `RouterChainLink` those of a controller.
pub data RouterChain (Resp : Type 0) : Type 0 where
  end : Handlers Resp → RouterChain Resp
  link : Handlers Resp → RouterChain Resp → RouterChain Resp

module _ {Resp : Type 0} where
  -- A handler behind its guards.
  unfoldable pub handle : Handler Resp × GuardChain Resp → Request → Resp
  unfolding is_end validate
  handle (handler, guards) req =
      if is_end guards
      then handler req
      else elim (validate guards req) [ ok req' ↦ handler req' | err resp ↦ resp ]

  unfoldable pub chain_dispatch : RouterChain Resp → ℕ → Request → Option Resp
  unfolding get handle str_eq
  chain_dispatch (end handlers) resolver_id req = elim (get (resolver_id, req.method) handlers) [
    | some handler ↦ some (handle handler req)
    | none ↦ none
  ]
  chain_dispatch (link handlers rest) resolver_id req =
      elim (get (resolver_id, req.method) handlers) [
        | some handler ↦ some (handle handler req)
        | none ↦ chain_dispatch rest resolver_id req
      ]

  unfoldable pub add_handler :
      RouterChain Resp → ℕ → Method → Handler Resp → GuardChain Resp → RouterChain Resp
  unfolding insert str_eq
  add_handler (end handlers) endpoint_id method handler guards =
      end (insert (endpoint_id, method) (handler, guards) handlers)
  add_handler (link handlers rest) endpoint_id method handler guards =
      link handlers (add_handler rest endpoint_id method handler guards)

pub record Builder (R Resp : Type 0) : Type 0 where
  pub resolver : List (Str × Endpoint R)
  pub chain : RouterChain Resp

-- An endpoint as `Controller::handlers` lists it.
pub record ControllerEndpoint (Resp : Type 0) : Type 0 where
  pub name : Option Str
  pub method : Method
  pub subroute : Str
  pub handler : Handler Resp
  pub guards : GuardChain Resp

-- `name.map(|name| HandlerMetadata { route_id: Default::default(), name: Some(name) })`
abbrev pub named : Option Str → Option HandlerMetadata
named none = none
named (some name) = some (record { route_id = not_found.route_id; name = some name })

module _ {R : Type 0} (compile : Str → Result R Str) where
  -- The endpoint of a route, new or with one more method: its number, the map and the counter.
  -- A panic is an error.
  unfoldable pub register :
      ℕ
      → List (Str × Endpoint R)
      → Str
      → Method
      → Option HandlerMetadata
      → Result (ℕ × List (Str × Endpoint R) × ℕ) Str
  unfolding get insert add_method new_endpoint str_eq
  register counter resolver path method meta = elim (get path resolver) [
    | some er ↦ do er' ← add_method er method meta; ok (er'.id, insert path er' resolver, counter)
    | none ↦
        let (created, counter') = new_endpoint compile counter path method meta in
        do er ← created; ok (er.id, insert path er resolver, counter')
  ]

module _ {R Resp : Type 0} (compile : Str → Result R Str) where
  -- `route_with_guards`, and `route` with no guards.
  unfoldable pub route :
      ℕ
      → Builder R Resp
      → Str
      → Method
      → Handler Resp
      → GuardChain Resp
      → Result (Builder R Resp × ℕ) Str
  unfolding register add_handler
  route counter b path method handler guards = do
    (endpoint_id, resolver, counter') ← register compile counter b.resolver path method none
    ok (
      record { resolver = resolver; chain = add_handler b.chain endpoint_id method handler guards },
      counter',
    )

  -- The loop of `controller`.
  unfoldable pub add_endpoints :
      Str
      → List (ControllerEndpoint Resp)
      → ℕ
      → List (Str × Endpoint R)
      → Handlers Resp
      → Result (List (Str × Endpoint R) × Handlers Resp × ℕ) Str
  unfolding register insert str_eq
  add_endpoints base [] counter resolver handlers = ok (resolver, handlers, counter)
  add_endpoints base (e ∷ es) counter resolver handlers =
      register compile counter resolver (base ++ e.subroute) e.method (named e.name)
      >>= λ (endpoint_id, resolver', counter').
          add_endpoints base es counter' resolver'
            (insert (endpoint_id, e.method) (e.handler, e.guards) handlers)

  unfoldable pub controller :
      ℕ → Builder R Resp → Str → List (ControllerEndpoint Resp) → Result (Builder R Resp × ℕ) Str
  unfolding add_endpoints
  controller counter b base endpoints = do
    (resolver, handlers, counter') ← add_endpoints base endpoints counter b.resolver []
    ok (record { resolver = resolver; chain = link handlers b.chain }, counter')

-- `Router`
pub record Router (R Resp : Type 0) : Type 0 where
  pub resolvers : List (Endpoint R)
  pub chain : RouterChain Resp

abbrev pub values : {R : Type 0} → List (Str × Endpoint R) → List (Endpoint R)
values [] = []
values ((_, er) ∷ resolver) = er ∷ values resolver

module _ {R Resp : Type 0} where
  abbrev pub default : Builder R Resp
  default = record { resolver = []; chain = end [] }

  -- `sort` is `sort_unstable` by the order of the matchers.
  unfoldable pub build : (List (Endpoint R) → List (Endpoint R)) → Builder R Resp → Router R Resp
  build sort b = record { resolvers = sort (values b.resolver); chain = b.chain }

module _ {R : Type 0} (is_match : R → Str → Bool) where
  -- The loop of `Router::resolve`; the flag is `method_not_allowed`.
  unfoldable pub resolve_from : List (Endpoint R) → Bool → Request → Result ℕ ℕ × Request
  unfolding resolve
  resolve_from [] flag req = (err (if flag then 405 else 404), req)
  resolve_from (er ∷ rest) flag req =
      let (resolved, req') = resolve is_match er req in
      elim resolved [
        | invalid_path ↦ resolve_from rest flag req'
        | method_not_allowed ↦ resolve_from rest true req'
        | matched _ ↦ (ok er.id, req')
      ]

  -- The loop of `Router::resolve_metadata`.
  unfoldable pub resolve_metadata_from :
      List (Endpoint R) → Bool → Request → HandlerMetadata × Request
  unfolding resolve
  resolve_metadata_from [] flag req = (if flag then not_allowed else not_found, req)
  resolve_metadata_from (er ∷ rest) flag req =
      let (resolved, req') = resolve is_match er req in
      elim resolved [
        | invalid_path ↦ resolve_metadata_from rest flag req'
        | method_not_allowed ↦ resolve_metadata_from rest true req'
        | matched meta ↦ (meta, req')
      ]

module _ {R Resp Response X : Type 0}
    (respond : Resp → Context Response (Router R Resp) → Result Response (SaphirError X))
    (respond_status : ℕ → Context Response (Router R Resp) → Result Response (SaphirError X)) where
  -- `Router::dispatch`. `respond` and `respond_status` build the response of a responder and of a
  -- status, with the context that they are given.
  unfoldable pub dispatch :
      Router R Resp
      → Context Response (Router R Resp)
      → Result (Context Response (Router R Resp)) (SaphirError X)
  unfolding take_request chain_dispatch set_after
  dispatch r ctx =
      let (taken, left) = take_request ctx.state in
      let ctx = record ctx { state = left } in
      ok_or taken request_moved_before_handler >>= λ req.
      (elim ctx.metadata.route_id [
        | RouteId.error e ↦ respond_status e ctx
        | RouteId.id route_id ↦ elim (chain_dispatch r.chain route_id req) [
          | some responder ↦ respond responder ctx
          | none ↦ respond_status 404 ctx
        ]
      ])
      >>= λ res. ok (set_after ctx res)
