-- ===== src/Controller/Registers.antt =====
-- saphir/src/router.rs and saphir/src/controller.rs: the router registers the endpoints in the order in which they were added.
use saphir.Base.{ℕ, ◌≡◌, refl, List, [], ◌∷◌, ◌++◌, Result, ok, err, ◌>>=◌}
use saphir.Text.{Str}
use saphir.Endpoint.{Endpoint}
use saphir.Router.{ControllerEndpoint, Handlers, add_endpoints, register, named, handler_key}
use saphir.Base.Dict.{insert}

module _ {R Resp : Type 0} (compile : Str → Result R Str) where
  -- Registering a list of endpoints and then another is registering the two after one another.
  pub add_endpoints-++ :
      (base : Str) (es fs : List (ControllerEndpoint Resp)) (counter : ℕ)
      (resolver : List (Str × Endpoint R)) (handlers : Handlers Resp)
      → add_endpoints compile base (es ++ fs) counter resolver handlers ≡ (
          add_endpoints compile base es counter resolver handlers
          >>= λ (resolver', handlers', counter').
              add_endpoints compile base fs counter' resolver' handlers')
  unfolding add_endpoints
  add_endpoints-++ base [] fs counter resolver handlers = refl
  add_endpoints-++ base (e ∷ es) fs counter resolver handlers =
      after_register
        (register compile counter resolver (base ++ e.subroute) e.method (named e.name))
        (λ counter' resolver' handlers'. add_endpoints-++ base es fs counter' resolver' handlers')
    where
      after_register :
          (registered : Result (ℕ × List (Str × Endpoint R) × ℕ) Str)
          → ((counter : ℕ) (resolver : List (Str × Endpoint R)) (handlers : Handlers Resp)
              → add_endpoints compile base (es ++ fs) counter resolver handlers ≡ (
                  add_endpoints compile base es counter resolver handlers
                  >>= λ (resolver', handlers', counter').
                      add_endpoints compile base fs counter' resolver' handlers'))
          → (registered >>= λ (endpoint_id, resolver', counter').
              add_endpoints compile base
                (es ++ fs)
                counter'
                resolver'
                (insert (endpoint_id, e.method) (e.handler, e.guards) handlers))
            ≡ ((registered >>= λ (endpoint_id, resolver', counter').
                  add_endpoints compile base es counter' resolver'
                    (insert (endpoint_id, e.method) (e.handler, e.guards) handlers))
                >>= λ (resolver', handlers', counter').
                    add_endpoints compile base fs counter' resolver' handlers')
      after_register (err m) rest = refl
      after_register (ok (endpoint_id, resolver', counter')) rest =
          rest counter' resolver' (insert (endpoint_id, e.method) (e.handler, e.guards) handlers)
