-- ===== src/Http/Unchecked.antt =====
-- saphir/src/http_context.rs: the unchecked accesses to the state, which panic where the state is another.
-- What is left of the state is what a panic leaves too.
use saphir.Base.{◌≡◌, refl, Result, ok, err, ok_or}
use saphir.Http.{Request, State, before, after, empty, take_request, take_response}

pub data Panic : Type 0 where
  panics : Panic

module _ {Response : Type 0} where
  unfoldable pub take_request_unchecked : State Response → Result Request Panic × State Response
  take_request_unchecked (before r) = (ok r, empty)
  take_request_unchecked (after _) = (err panics, empty)
  take_request_unchecked empty = (err panics, empty)

  unfoldable pub take_response_unchecked : State Response → Result Response Panic × State Response
  take_response_unchecked (before _) = (err panics, empty)
  take_response_unchecked (after r) = (ok r, empty)
  take_response_unchecked empty = (err panics, empty)

  -- `request_unchecked` and `request_unchecked_mut`: nothing is taken
  unfoldable pub request_unchecked : State Response → Result Request Panic
  request_unchecked (before r) = ok r
  request_unchecked (after _) = err panics
  request_unchecked empty = err panics

  unfoldable pub response_unchecked : State Response → Result Response Panic
  response_unchecked (before _) = err panics
  response_unchecked (after r) = ok r
  response_unchecked empty = err panics

  -- Taking what the state has not panics exactly where the checked one gives nothing, and both leave the same.
  pub take_unchecked_agrees :
      (s : State Response)
      → (take_request_unchecked s ≡ (ok_or (take_request s).0 panics, (take_request s).1))
        × (take_response_unchecked s ≡ (ok_or (take_response s).0 panics, (take_response s).1))
  unfolding take_request_unchecked take_response_unchecked take_request take_response
  take_unchecked_agrees (before r) = (refl, refl)
  take_unchecked_agrees (after r) = (refl, refl)
  take_unchecked_agrees empty = (refl, refl)
