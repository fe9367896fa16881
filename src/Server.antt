-- ===== src/Server.antt =====
-- saphir/src/server.rs: the stack that takes a request through the router and the middlewares, the
-- counter `REQUEST_FUTURE_COUNT`, and the shutdown. The counter is an argument and a result.
pub mod Shutdown
pub mod Serves
pub mod Listener
pub mod Start
pub mod Ssl
use saphir.Base.{
  ℕ, ◌+◌, ◌-◌, ◌%◌, ◌^◌, Bool, true, false, if◌then◌else◌, ◌==◌, Result, ok, err, ◌>>=◌, ok_or,
  Option, none, some,
}
use saphir.Text.{Str, codes}
use saphir.Http.{Request, Context, take_response, new_context, clone_with_empty_state}
use saphir.Errors.{SaphirError, other, response_moved, request_timeout}
use saphir.Router.{Router, resolve_metadata_from}
use saphir.Middleware.{MiddlewareChain, Answer, next}

-- `fetch_add(1)` and `fetch_sub(1)` of a `u64`, which wrap around
abbrev pub fetch_add : ℕ → ℕ
fetch_add count = (count + 1) % 2 ^ 64

abbrev pub fetch_sub : ℕ → ℕ
fetch_sub count = (count + (2 ^ 64 - 1)) % 2 ^ 64

-- What a handler's `call` does at once, before the future of the answer is polled: the request is counted.
unfoldable pub enter : ℕ → ℕ
enter count = fetch_add count

-- `Stack`. `dispatch_to` is the router's dispatch, and `error_response` builds the response of an
-- error; the building may fail.
module _ {R Resp Response X : Type 0} (is_match : R → Str → Bool)
    (dispatch_to : Router R Resp
      → Context Response (Router R Resp)
      → Answer R Response (Router R Resp) X)
    (error_response : SaphirError X
      → Context Response (Router R Resp)
      → Result Response (SaphirError X)) where
  pub record Stack : Type 0 where
    pub router : Router R Resp
    pub middlewares : MiddlewareChain R Response (Router R Resp) X

  -- What `inner_invoke` returns, and the counter after it
  unfoldable pub inner_invoke :
      Stack → Context Response (Router R Resp) → ℕ → Result Response (SaphirError X) × ℕ
  inner_invoke s ctx count =
      let err_ctx = clone_with_empty_state ctx in
      let res = next is_match dispatch_to s.middlewares ctx >>= λ ctx.
      ok_or (take_response ctx.state).0 response_moved in
      (elim res [ ok r ↦ ok r | err e ↦ error_response e err_ctx ], fetch_sub count)

  -- The context that `invoke` and `invoke_with_timeout` start with
  unfoldable pub start : Stack → Request → Context Response (Router R Resp)
  start s req =
      let (meta, req') = resolve_metadata_from is_match s.router.resolvers false req in
      new_context req' s.router meta

  unfoldable pub invoke : Stack → Request → ℕ → Result Response (SaphirError X) × ℕ
  invoke s req count = inner_invoke s (start s req) count

  -- `expired`: the time ran out before `inner_invoke` was done, which is dropped then.
  unfoldable pub invoke_with_timeout :
      Bool → Stack → Request → ℕ → Result Response (SaphirError X) × ℕ
  invoke_with_timeout expired s req count =
      if expired then (err request_timeout, count) else inner_invoke s (start s req) count

  -- The two handlers' `call`: `insert_server` writes the header `Server`, and `into_raw` is
  -- hyper's response.
  module _ {Raw : Type 0} (insert_server : Response → Response)
      (into_raw : Response → Result Raw (SaphirError X)) where
    unfoldable pub call : Stack → Request → ℕ → Result Raw (SaphirError X) × ℕ
    call s req count =
        let (answer, count') = invoke s req (enter count) in
        (answer >>= λ r. into_raw (insert_server r), count')

    unfoldable pub call_with_timeout : Bool → Stack → Request → ℕ → Result Raw (SaphirError X) × ℕ
    call_with_timeout expired s req count =
        let (answer, count') = invoke_with_timeout expired s req (enter count) in
        (answer >>= λ r. into_raw (insert_server r), count')

    -- `inject_raw`, on the stack in the static memory
    unfoldable pub inject_raw : Option Stack → Request → ℕ → Result Raw (SaphirError X) × ℕ
    inject_raw none req count = (err (other (codes "Stack is not initialized")), count)
    inject_raw (some s) req count =
        let (answer, count') = invoke s req (enter count) in (answer >>= into_raw, count')

-- `ServerShutdown::poll`: whether it is ready, and `draining` after it. `signalled` is what the poll
-- of the signal returns.
unfoldable pub poll_shutdown : (graceful signalled draining : Bool) (count : ℕ) → Bool × Bool
poll_shutdown graceful signalled true count = (count == 0, true)
poll_shutdown graceful signalled false count =
    if signalled then if graceful then (false, true) else (true, false) else (false, false)

-- `ServerFuture::poll`: the first of the two parts is whether the shutdown is ready.
unfoldable pub poll_server : (shutdown_ready incoming_ready : Bool) → Bool
poll_server shutdown_ready incoming_ready =
    if shutdown_ready then true else if incoming_ready then true else false
