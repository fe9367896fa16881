-- ===== src/Http.antt =====
-- saphir/src/http_context.rs and the part of saphir/src/request.rs that the router reads: requests,
-- the metadata of an endpoint, and the context that goes through the middlewares.
pub mod Moves
pub mod Unchecked
use saphir.Base.{ℕ, Bool, List, Option, none, some}
use saphir.Text.{Str, codes, str_eq}

-- `http::Method`, by its text.
abbrev pub Method : Type 0
Method = Str

-- `Method::any()`
abbrev pub any_method : Method
any_method = codes "ANY"

-- `MethodExtension::is_any`
unfoldable pub is_any : Method → Bool
unfolding str_eq
is_any m = str_eq m any_method

-- A request with the captures of its path. The body and the cookies are in modules of their own.
pub record Request : Type 0 where
  pub method : Method
  pub path : Str
  pub headers : List (Str × Str)
  pub captures : List (Str × Str)

pub data RouteId : Type 0 where
  id : ℕ → RouteId
  error : ℕ → RouteId

pub record HandlerMetadata : Type 0 where
  pub route_id : RouteId
  pub name : Option Str

-- `RouteId::default()`, `HandlerMetadata::default()` and `HandlerMetadata::not_found()`
abbrev pub not_found : HandlerMetadata
not_found = record { route_id = error 404; name = none }

abbrev pub not_allowed : HandlerMetadata
not_allowed = record { route_id = error 405; name = none }

-- What a context holds: the request before the handler, the response after it.
pub data State (Response : Type 0) : Type 0 where
  before : Request → State Response
  after : Response → State Response
  empty : State Response

module _ {Response : Type 0} where
  -- Each `take` leaves `Empty` behind; the second part is what is left.
  unfoldable pub take_state : State Response → State Response × State Response
  take_state s = (s, empty)

  unfoldable pub take_request : State Response → Option Request × State Response
  take_request (before r) = (some r, empty)
  take_request (after _) = (none, empty)
  take_request empty = (none, empty)

  unfoldable pub take_response : State Response → Option Response × State Response
  take_response (before _) = (none, empty)
  take_response (after r) = (some r, empty)
  take_response empty = (none, empty)

  -- `request` and `request_mut`: nothing is taken
  unfoldable pub request : State Response → Option Request
  request (before r) = some r
  request (after _) = none
  request empty = none

  unfoldable pub response : State Response → Option Response
  response (before _) = none
  response (after r) = some r
  response empty = none

-- `HttpContext`; `Router` is the type of the router that it carries.
pub record Context (Response Router : Type 0) : Type 0 where
  pub state : State Response
  pub metadata : HandlerMetadata
  pub router : Option Router

module _ {Response Router : Type 0} where
  unfoldable pub new_context : Request → Router → HandlerMetadata → Context Response Router
  new_context req r meta = record { state = before req; metadata = meta; router = some r }

  unfoldable pub clone_with_empty_state : Context Response Router → Context Response Router
  clone_with_empty_state ctx = record ctx { state = empty }

  -- `HttpContext::before` and `HttpContext::after`
  unfoldable pub set_before : Context Response Router → Request → Context Response Router
  set_before ctx req = record ctx { state = before req }

  unfoldable pub set_after : Context Response Router → Response → Context Response Router
  set_after ctx res = record ctx { state = after res }
