-- ===== src/Server/Start.antt =====
-- saphir/src/server.rs: the builder of the server, the static memory that the stack is put into, and the start of `run`.
pub mod Once
use saphir.Base.{
  ℕ, Bool, true, false, List, [], Option, none, some, Result, ok, err, ◌>>=◌, unwrap_or,
}
use saphir.Text.{Str, codes}
use saphir.Endpoint.{Endpoint}
use saphir.Errors.{SaphirError, other, stack_already_initialized}
use saphir.Router.{Router, build}
use saphir.Router
use saphir.Server.Listener.{
  ListenerBuilder, ListenerConfig, SslConfig, default_listener, new_listener, build_listener,
  default_server_name,
}

-- `Builder` and `Server`; the chain of middlewares is built by boxing it.
pub record Builder (Signal R Resp Chain : Type 0) : Type 0 where
  pub listener : Option (ListenerBuilder Signal)
  pub router : Router.Builder R Resp
  pub middlewares : Chain

pub record BuiltStack (R Resp Chain : Type 0) : Type 0 where
  pub router : Router R Resp
  pub middlewares : Chain

pub record Server (Signal R Resp Chain : Type 0) : Type 0 where
  pub listener_config : ListenerConfig Signal
  pub stack : BuiltStack R Resp Chain

module _ {Signal R Resp Chain : Type 0} where
  unfoldable pub configure_listener :
      (ListenerBuilder Signal → ListenerBuilder Signal)
      → Builder Signal R Resp Chain
      → Builder Signal R Resp Chain
  configure_listener f b = record b { listener = some (f (unwrap_or b.listener new_listener)) }

  unfoldable pub configure_router :
      (Router.Builder R Resp → Router.Builder R Resp)
      → Builder Signal R Resp Chain
      → Builder Signal R Resp Chain
  configure_router f b = record b { router = f b.router }

  unfoldable pub configure_middlewares :
      {NewChain : Type 0}
      → (Chain → NewChain)
      → Builder Signal R Resp Chain
      → Builder Signal R Resp NewChain
  configure_middlewares f b = record {
    listener = b.listener;
    router = b.router;
    middlewares = f b.middlewares;
  }

  -- The stack that the builder makes; `sort` is the router's.
  unfoldable pub stack_of :
      (List (Endpoint R) → List (Endpoint R))
      → Builder Signal R Resp Chain
      → BuiltStack R Resp Chain
  unfolding build
  stack_of sort b = record { router = build sort b.router; middlewares = b.middlewares }

  -- `build`: a listener that was not configured is the default one.
  unfoldable pub build_server :
      (List (Endpoint R) → List (Endpoint R))
      → Builder Signal R Resp Chain
      → Server Signal R Resp Chain
  unfolding build_listener stack_of
  build_server sort b = record {
    listener_config = build_listener (unwrap_or b.listener default_listener);
    stack = stack_of sort b;
  }

-- `STACK`, `SERVER_NAME` and `REQUEST_BODY_BYTES_LIMIT`
pub record Statics (S Header : Type 0) : Type 0 where
  pub stack : Option S
  pub server_name : Option Header
  pub body_limit : Option ℕ

module _ {S Header X : Type 0} where
  unfoldable pub write_into_static :
      S → Header → Option ℕ → Statics S Header → Result S (SaphirError X) × Statics S Header
  write_into_static stack server_value request_body_max st = elim st.stack [
    | some _ ↦ (err stack_already_initialized, st)
    | none ↦ elim st.server_name [
      | some _ ↦ (err stack_already_initialized, record st { stack = some stack })
      | none ↦ (
        ok stack,
        record {
          stack = some stack;
          server_name = some server_value;
          body_limit = request_body_max;
        },
      )
    ]
  ]

  -- `build_stack_only` on the stack it builds; `to_header` is `HeaderValue::from_str`.
  unfoldable pub build_stack_only :
      {Signal : Type 0}
      → (Str → Result Header (SaphirError X))
      → S
      → Option (ListenerBuilder Signal)
      → Statics S Header
      → Result (Unit {0}) (SaphirError X) × Statics S Header
  unfolding write_into_static
  build_stack_only to_header stack listener st =
      let name : Option Str = elim listener [ none ↦ none | some l ↦ l.server_name ] in
      let limit : Option ℕ = elim listener [ none ↦ none | some l ↦ l.request_body_max ] in
      elim (to_header (unwrap_or name default_server_name)) [
        | err e ↦ (err e, st)
        | ok server_value ↦
            let (written, st') = write_into_static stack server_value limit st in
            (written >>= λ _. ok tt, st')
      ]

  -- The start of `run`, up to the acceptor: whether it is secure. `bound` is the outcome of binding the interface.
  unfoldable pub start_run :
      {Signal : Type 0}
      → (Str → Result Header (SaphirError X))
      → (Str → Result (Unit {0}) (SaphirError X))
      → S
      → ListenerConfig Signal
      → Statics S Header
      → Result Bool (SaphirError X) × Statics S Header
  unfolding write_into_static
  start_run to_header bound stack config st = elim (to_header config.server_name) [
    | err e ↦ (err e, st)
    | ok server_value ↦
        let (written, st') = write_into_static stack server_value config.request_body_max st in
        (
          written >>= λ _.
              bound config.iface >>= λ _. acceptor config.cert_config config.key_config,
          st',
        )
  ]
    where
      acceptor : Option SslConfig → Option SslConfig → Result Bool (SaphirError X)
      acceptor (some cert) (some key) = ok true
      acceptor none none = ok false
      acceptor (some cert) none =
          err (other (codes "Invalid SSL configuration, missing cert or key"))
      acceptor none (some key) =
          err (other (codes "Invalid SSL configuration, missing cert or key"))
