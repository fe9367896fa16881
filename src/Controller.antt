-- ===== src/Controller.antt =====
-- saphir/src/controller.rs: the builder of the endpoints of a controller. A handler is a function of the controller and
-- of the request to a responder; its future is taken to its result.
pub mod Registers
use saphir.Base.{List, [], ◌∷◌, ◌++◌, Option, none, some}
use saphir.Text.{Str}
use saphir.Http.{Method, Request}
use saphir.Guard.{GuardChain}
use saphir.Guard
use saphir.Router.{ControllerEndpoint, Handler}

abbrev pub new_endpoints : {Resp : Type 0} → List (ControllerEndpoint Resp)
new_endpoints = []

module _ {C Resp : Type 0} where
  -- `ControllerHandler::handle` of a function, and `dyn_handle` with the responder it gives
  abbrev pub handle : (C → Request → Resp) → C → Handler Resp
  handle handler controller req = handler controller req

  -- The end of the builder's list takes the new endpoint.
  unfoldable pub push_endpoint :
      C
      → Option Str
      → Method
      → Str
      → (C → Request → Resp)
      → GuardChain Resp
      → List (ControllerEndpoint Resp)
      → List (ControllerEndpoint Resp)
  push_endpoint controller name method subroute handler guards endpoints =
      endpoints
      ++ (record {
        name = name;
        method = method;
        subroute = subroute;
        handler = handle handler controller;
        guards = guards;
      }
          ∷ [])

  unfoldable pub add :
      C
      → Method
      → Str
      → (C → Request → Resp)
      → List (ControllerEndpoint Resp)
      → List (ControllerEndpoint Resp)
  add controller method subroute handler =
      push_endpoint controller none method subroute handler Guard.end

  unfoldable pub add_with_guards :
      C
      → Method
      → Str
      → (C → Request → Resp)
      → (GuardChain Resp → GuardChain Resp)
      → List (ControllerEndpoint Resp)
      → List (ControllerEndpoint Resp)
  add_with_guards controller method subroute handler guards =
      push_endpoint controller none method subroute handler (guards Guard.end)

  unfoldable pub add_with_name :
      C
      → Str
      → Method
      → Str
      → (C → Request → Resp)
      → List (ControllerEndpoint Resp)
      → List (ControllerEndpoint Resp)
  add_with_name controller name method subroute handler =
      push_endpoint controller (some name) method subroute handler Guard.end

  unfoldable pub add_with_guards_and_name :
      C
      → Str
      → Method
      → Str
      → (C → Request → Resp)
      → (GuardChain Resp → GuardChain Resp)
      → List (ControllerEndpoint Resp)
      → List (ControllerEndpoint Resp)
  add_with_guards_and_name controller name method subroute handler guards =
      push_endpoint controller (some name) method subroute handler (guards Guard.end)
