-- ===== src/Server/Shutdown.antt =====
-- The counter of the requests, and the shutdown that waits for it.
use saphir.Base.{
  ℕ, suc, ◌≡◌, ◌<◌, refl, ◌∙◌, ◌↔◌, ◌+◌, ◌%◌, ◌^◌, Bool, true, false, if◌then◌else◌, Result, arith,
}
use saphir.Text.{Str}
use saphir.Http.{Request, Context}
use saphir.Errors.{SaphirError}
use saphir.Router.{Router}
use saphir.Middleware.{Answer}
use saphir.Server.{
  enter, fetch_add, fetch_sub, poll_shutdown, Stack, call, call_with_timeout, invoke,
  invoke_with_timeout, inner_invoke,
}

-- The server's requests: those in work, those that were lost, and the counter.
pub record Load : Type 0 where
  pub count : ℕ
  pub working : ℕ
  pub lost : ℕ

abbrev Counts : Load → Type 0
Counts s = s.count ≡ (s.working + s.lost) % 2 ^ 64

enter_counted :
    (count working lost : ℕ)
    → count ≡ (working + lost) % 2 ^ 64
    → enter count ≡ (suc working + lost) % 2 ^ 64
unfolding enter
enter_counted count working lost h = omega (arith, h)

sub_counted :
    (count working lost n : ℕ)
    → working ≡ suc n
    → count ≡ (working + lost) % 2 ^ 64
    → fetch_sub count ≡ (n + lost) % 2 ^ 64
sub_counted count working lost n e h = omega (arith, h, e)

lost_counted :
    (count working lost n : ℕ)
    → working ≡ suc n
    → count ≡ (working + lost) % 2 ^ 64
    → count ≡ (n + suc lost) % 2 ^ 64
lost_counted count working lost n e h = omega (arith, h, e)

module _ {R Resp Response X : Type 0} (is_match : R → Str → Bool)
    (dispatch_to : Router R Resp
      → Context Response (Router R Resp)
      → Answer R Response (Router R Resp) X)
    (error_response : SaphirError X
      → Context Response (Router R Resp)
      → Result Response (SaphirError X)) where
  -- A request comes in, and `inner_invoke` answers it on some stack, or its time runs out in
  -- `invoke_with_timeout`. Or its future is dropped, as when the connection is closed, or panics: then
  -- no more code runs for it.
  pub data Step : Load → Load → Type 0 where
    arrives : (s : Load) → Step s (record s { count = enter s.count; working = suc s.working })
    answered :
        (stack : Stack is_match dispatch_to error_response) (ctx : Context Response (Router R Resp))
        (s : Load) (n : ℕ)
        → s.working ≡ suc n
        → Step s (record s {
          count = (inner_invoke is_match dispatch_to error_response stack ctx s.count).1;
          working = n;
        })
    expires :
        (stack : Stack is_match dispatch_to error_response) (req : Request) (s : Load) (n : ℕ)
        → s.working ≡ suc n
        → Step s (record {
          count =
              (invoke_with_timeout is_match dispatch_to error_response true stack req s.count).1;
          working = n;
          lost = suc s.lost;
        })
    dropped :
        (s : Load) (n : ℕ)
        → s.working ≡ suc n
        → Step s (record s { working = n; lost = suc s.lost })

  pub data Reachable : Load → Type 0 where
    start : Reachable (record { count = 0; working = 0; lost = 0 })
    steps : {s t : Load} → Reachable s → Step s t → Reachable t

  inner_invoke-count :
      (stack : Stack is_match dispatch_to error_response) (ctx : Context Response (Router R Resp))
      (count : ℕ)
      → (inner_invoke is_match dispatch_to error_response stack ctx count).1 ≡ fetch_sub count
  unfolding inner_invoke
  inner_invoke-count stack ctx count = refl

  invoke_with_timeout-count :
      (stack : Stack is_match dispatch_to error_response) (req : Request) (count : ℕ)
      → (invoke_with_timeout is_match dispatch_to error_response true stack req count).1 ≡ count
  unfolding invoke_with_timeout
  invoke_with_timeout-count stack req count = refl

  Step-Counts : {s t : Load} → Step s t → Counts s → Counts t
  Step-Counts (arrives s) h = enter_counted s.count s.working s.lost h
  Step-Counts (answered stack ctx s n e) h =
      inner_invoke-count stack ctx s.count ∙ sub_counted s.count s.working s.lost n e h
  Step-Counts (expires stack req s n e) h =
      invoke_with_timeout-count stack req s.count ∙ lost_counted s.count s.working s.lost n e h
  Step-Counts (dropped s n e) h = lost_counted s.count s.working s.lost n e h

  -- The counter is the number of the requests in work and of those that were lost, since the start.
  pub Reachable-count : {s : Load} → Reachable s → s.count ≡ (s.working + s.lost) % 2 ^ 64
  Reachable-count start = refl
  Reachable-count (steps r step) = Step-Counts step (Reachable-count r)

  -- A draining server whose counter has not wrapped around is ready to stop exactly if no request is in
  -- work and none was ever lost: none ran out of time, and no future of one was dropped or panicked.
  pub poll_shutdown_iff :
      (graceful signalled : Bool) {s : Load}
      → Reachable s
      → s.working + s.lost < 2 ^ 64
      → ((poll_shutdown graceful signalled true s.count).0 ≡ true)
        ↔ ((s.working ≡ 0) × (s.lost ≡ 0))
  unfolding poll_shutdown
  poll_shutdown_iff graceful signalled r h = ground (arith, Reachable-count r)

module _ {R Resp Response X Raw : Type 0} (is_match : R → Str → Bool)
    (dispatch_to : Router R Resp
      → Context Response (Router R Resp)
      → Answer R Response (Router R Resp) X)
    (error_response : SaphirError X
      → Context Response (Router R Resp)
      → Result Response (SaphirError X))
    (insert_server : Response → Response) (into_raw : Response → Result Raw (SaphirError X)) where
  -- A call leaves the counter as it was, whatever is answered, unless the time runs out: then the
  -- counter stays one higher.
  pub call_with_timeout-count :
      (expired : Bool) (s : Stack is_match dispatch_to error_response) (req : Request) (count : ℕ)
      → count < 2 ^ 64
      → ((call is_match dispatch_to error_response insert_server into_raw s req count).1 ≡ count)
        × ((call_with_timeout is_match dispatch_to error_response insert_server into_raw expired s
              req count).1
            ≡ (if expired then fetch_add count else count))
  unfolding enter call call_with_timeout invoke invoke_with_timeout inner_invoke
  call_with_timeout-count true s req count h = (omega (arith, h), refl)
  call_with_timeout-count false s req count h = (omega (arith, h), omega (arith, h))
