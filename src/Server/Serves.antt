-- ===== src/Server/Serves.antt =====
-- A request on its whole way through a server without middlewares.
use saphir.Base.{
  ℕ, ◌≡◌, refl, sym, ap, ◌∙◌, Bool, true, false, List, none, some, is_some, All, Result, ok, err,
  Option-cases, inl, inr, ok_or, ◌>>=◌,
}
use saphir.Text.{Str}
use saphir.Http.{
  Request, RouteId, HandlerMetadata, empty, Context, new_context, clone_with_empty_state, set_after,
  take_request, take_response,
}
use saphir.Errors.{SaphirError, response_moved}
use saphir.Endpoint.{Endpoint}
use saphir.Router.{
  Router, Builder, build, values, chain_dispatch, resolve_from, resolve_metadata_from, dispatch,
}
use saphir.Router.Served.{EndpointIsServed}
use saphir.Router.Build.{HasHandler, Built, Built-IsServed}
use saphir.Router.Agree.{IsSpecific, route_of, resolve_metadata_from-agrees, resolve-chain_dispatch}
use saphir.Middleware.{end, next, next_end}
use saphir.Server.{Stack, inner_invoke, invoke, start}

module _ {R Resp Response X : Type 0} (compile : Str → Result R Str) (is_match : R → Str → Bool)
    (respond : Resp → Context Response (Router R Resp) → Result Response (SaphirError X))
    (respond_status : ℕ → Context Response (Router R Resp) → Result Response (SaphirError X))
    (error_response : SaphirError X
      → Context Response (Router R Resp)
      → Result Response (SaphirError X)) where
  abbrev pub stack_of :
      Router R Resp → Stack is_match (dispatch respond respond_status) error_response
  stack_of r = record { router = r; middlewares = end }

  -- The context that a responder is given: its request and its router are taken.
  abbrev pub emptied : Context Response (Router R Resp) → Context Response (Router R Resp)
  emptied ctx = record ctx { state = empty; router = none }

  -- A response, or the response of the error in its place
  abbrev pub or_error :
      Context Response (Router R Resp)
      → Result Response (SaphirError X)
      → Result Response (SaphirError X)
  or_error ctx (ok r) = ok r
  or_error ctx (err e) = error_response e (clone_with_empty_state ctx)

  settle :
      (ctx : Context Response (Router R Resp)) (meta : HandlerMetadata)
      (res : Result Response (SaphirError X))
      → or_error ctx (
          (res >>= λ r. ok (
            set_after {Response = Response} {Router = Router R Resp}
              (record { state = empty; metadata = meta; router = none })
              r))
          >>= λ c. ok_or (take_response c.state).0 response_moved)
        ≡ or_error ctx res
  unfolding set_after take_response
  settle ctx meta (ok r) = refl
  settle ctx meta (err e) = refl

  invoke_of_chain_dispatch :
      (r : Router R Resp) (req : Request) (count : ℕ) {i : ℕ} {responder : Resp}
      → (resolve_metadata_from is_match r.resolvers false req).0.route_id ≡ RouteId.id i
      → chain_dispatch r.chain i (resolve_metadata_from is_match r.resolvers false req).1
        ≡ some responder
      → (invoke is_match (dispatch respond respond_status) error_response (stack_of r) req count).0
        ≡ or_error
            (start is_match (dispatch respond respond_status) error_response (stack_of r) req)
            (respond responder (
              emptied
                (start is_match (dispatch respond respond_status) error_response (stack_of r) req)))
  unfolding invoke inner_invoke start next next_end dispatch new_context take_request take_response
      set_after clone_with_empty_state
  invoke_of_chain_dispatch r req count {i} {responder} e f =
      let begun =
        start is_match (dispatch respond respond_status) error_response (stack_of r) req in
      let meta = (resolve_metadata_from is_match r.resolvers false req).0 in
      rw (inner_invoke, next, next_end, dispatch, e, f)
        (settle begun meta (respond responder (emptied begun)))

  -- A router of `route` and `controller` calls, with no endpoint for any method and sorted in any way that
  -- keeps the endpoints, in a stack without middlewares: a request that is resolved is answered by a
  -- responder that its handler chain made, or by the error that the building of the response returns.
  pub invoke-responds :
      (sort : List (Endpoint R) → List (Endpoint R))
      (sort-All : (P : Endpoint R → Type 0) (ers : List (Endpoint R))
        → All P ers
        → All P (sort ers))
      {b : Builder R Resp} {c : ℕ} (req : Request) (count : ℕ) {i : ℕ}
      → Built compile b c
      → All IsSpecific (values b.resolver)
      → (resolve_from is_match (build sort b).resolvers false req).0 ≡ ok i
      → (responder : Resp) × (chain_dispatch
            (build sort b).chain
            i
            (resolve_from is_match (build sort b).resolvers false req).1
          ≡ some responder)
        × ((invoke is_match
              (dispatch respond respond_status)
              error_response
              (stack_of (build sort b))
              req
              count).0
            ≡ or_error
                (start is_match
                  (dispatch respond respond_status)
                  error_response
                  (stack_of (build sort b))
                  req)
                (respond responder (
                  emptied (
                    start is_match
                      (dispatch respond respond_status)
                      error_response
                      (stack_of (build sort b))
                      req))))
  invoke-responds sort sort-All {b} req count {i} built specific found =
      let r = build sort b in
      let left = (resolve_from is_match r.resolvers false req).1 in
      let handled : is_some (chain_dispatch r.chain i left) ≡ true =
        resolve-chain_dispatch compile is_match sort sort-All req built specific found in
      let served : All (EndpointIsServed (HasHandler b.chain)) r.resolvers =
        unfold build in
        sort-All (EndpointIsServed (HasHandler b.chain)) (values b.resolver)
          (Built-IsServed compile built) in
      let (same_route, same_left) =
        resolve_metadata_from-agrees is_match (HasHandler b.chain) r.resolvers false req served in
      elim (Option-cases (chain_dispatch r.chain i left)) [
        | inl e ↦ absurd (cc (rw e at handled))
        | inr (responder, e) ↦ (
          responder,
          e,
          invoke_of_chain_dispatch r req count (sym same_route ∙ ap route_of found)
              (ap (λ (q : Request). chain_dispatch r.chain i q) (sym same_left) ∙ e),
        )
      ]
