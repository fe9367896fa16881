-- ===== src/Request.antt =====
-- saphir/src/request.rs: a request with its body, captures and cookies. The raw request is its head, of the
-- crate `http`, and its body; the jar of cookies and the parsing of one are parameters.
pub mod Cookies
pub mod Bodies
use saphir.Base.{List, [], Option, none, some, Result, ok, err}
use saphir.Text.{Str}
use saphir.Text.Laws.{str_key}

pub record Request (Head T Jar Peer Op : Type 0) : Type 0 where
  pub head : Head
  pub body : T
  pub captures : List (Str × Str)
  pub cookies : Jar
  pub peer_addr : Option Peer
  pub operation_id : Op

module _ {Head T Jar Peer Op : Type 0} where
  -- `Request::new`, with the empty jar and the default operation id
  unfoldable pub new_request : Jar → Op → Head → T → Option Peer → Request Head T Jar Peer Op
  new_request jar op head body peer = record {
    head = head;
    body = body;
    captures = [];
    cookies = jar;
    peer_addr = peer;
    operation_id = op;
  }

  -- The request with another body: its parts, taken apart and put together again
  unfoldable pub with_body :
      {U : Type 0} → U → Request Head T Jar Peer Op → Request Head U Jar Peer Op
  with_body body r = record {
    head = r.head;
    body = body;
    captures = r.captures;
    cookies = r.cookies;
    peer_addr = r.peer_addr;
    operation_id = r.operation_id;
  }

  -- `map`, and `async_map` where the future is taken to its result
  unfoldable pub map_request :
      {U : Type 0} → (T → U) → Request Head T Jar Peer Op → Request Head U Jar Peer Op
  map_request f r = with_body (f r.body) r

  -- `take_cookies` leaves the empty jar.
  unfoldable pub take_cookies : Jar → Request Head T Jar Peer Op → Jar × Request Head T Jar Peer Op
  take_cookies jar r = (r.cookies, record r { cookies = jar })

  -- `load_body`, on the outcome of the future of the body
  unfoldable pub load_body :
      {Out E : Type 0}
      → (T → Result Out E)
      → Request Head T Jar Peer Op
      → Result (Request Head Out Jar Peer Op) E
  load_body load r = elim (load r.body) [ ok out ↦ ok (with_body out r) | err e ↦ err e ]

-- `transpose` of a request of a result, and of an option
unfoldable pub transpose_result :
    {Head T Jar Peer Op E : Type 0}
    → Request Head (Result T E) Jar Peer Op
    → Result (Request Head T Jar Peer Op) E
transpose_result r = elim r.body [ ok body ↦ ok (with_body body r) | err e ↦ err e ]

unfoldable pub transpose_option :
    {Head T Jar Peer Op : Type 0}
    → Request Head (Option T) Jar Peer Op
    → Option (Request Head T Jar Peer Op)
transpose_option r = elim r.body [ some body ↦ some (with_body body r) | none ↦ none ]
