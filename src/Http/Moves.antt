-- ===== src/Http/Moves.antt =====
-- Taking a request or a response out of a context.
use saphir.Base.{◌≡◌, none, arith}
use saphir.Http.{State, take_request, take_response, request, response}

module _ {Response : Type 0} where
  -- Nothing can be taken twice, and a taken request cannot be read any more.
  pub take_request_once :
      (s : State Response)
      → ((take_request s).0 ≡ request s)
        × ((take_request (take_request s).1).0 ≡ none)
        × (request (take_request s).1 ≡ none)
        × (response (take_request s).1 ≡ none)
  unfolding take_request request response
  take_request_once s = ground arith

  pub take_response_once :
      (s : State Response)
      → ((take_response s).0 ≡ response s)
        × ((take_response (take_response s).1).0 ≡ none)
        × (request (take_response s).1 ≡ none)
        × (response (take_response s).1 ≡ none)
  unfolding take_response request response
  take_response_once s = ground arith
