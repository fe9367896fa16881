-- ===== src/Endpoint.antt =====
-- saphir/src/utils.rs: `EndpointResolver`. A panic is an error with the text of the panic. The
-- counter `ENDPOINT_ID` is an argument and a result.
use saphir.Base.{
  ℕ, ◌+◌, ◌%◌, ◌^◌, Bool, List, [], Option, none, some, if◌then◌else◌, Result, ok, err, ◌>>=◌,
  unwrap_or,
}
use saphir.Base.Dict.{get, insert}
use saphir.Text.{Str, codes}
use saphir.Text.Laws.{str_key}
use saphir.Path.{PathMatcher, new_path}
use saphir.Path.Match.{match_all_and_capture}
use saphir.Http.{Method, is_any, Request, RouteId, HandlerMetadata, not_found}

pub data Methods : Type 0 where
  specific : List (Method × HandlerMetadata) → Methods
  any : HandlerMetadata → Methods

pub record Endpoint (R : Type 0) : Type 0 where
  pub id : ℕ
  pub path_matcher : PathMatcher R
  pub methods : Methods

pub data Resolved : Type 0 where
  invalid_path method_not_allowed : Resolved
  matched : HandlerMetadata → Resolved

-- `ENDPOINT_ID.fetch_add(1)` on a `u64`
abbrev pub next_id : ℕ → ℕ
next_id counter = (counter + 1) % 2 ^ 64

-- `meta.into().unwrap_or_default()` with the route's number
abbrev pub numbered : ℕ → Option HandlerMetadata → HandlerMetadata
numbered n meta = record (unwrap_or meta not_found) { route_id = RouteId.id n }

abbrev pub any_after_specific : Str
any_after_specific =
    codes "Adding ANY method but an Handler already defines specific methods, This is fatal"

abbrev pub specific_after_any : Str
specific_after_any =
    codes
      "Adding a specific endpoint method but an Handler already defines ANY method, This is fatal"

unfoldable pub new_methods : Method → HandlerMetadata → Methods
unfolding is_any insert
new_methods method meta = if is_any method then any meta else specific (insert method meta [])

module _ {R : Type 0} (compile : Str → Result R Str) where
  -- `EndpointResolver::new_with_metadata`, and `new` where `meta` is `none`. The number is taken
  -- before the path is parsed, so also where that fails.
  unfoldable pub new_endpoint :
      ℕ → Str → Method → Option HandlerMetadata → Result (Endpoint R) Str × ℕ
  unfolding new_methods new_path
  new_endpoint counter path method meta = (
    new_path compile path >>= (λ matcher. ok (record {
      id = counter;
      path_matcher = matcher;
      methods = new_methods method (numbered counter meta);
    })),
    next_id counter,
  )

-- `add_method_with_metadata`, and `add_method` where `meta` is `none`.
unfoldable pub add_to_methods : ℕ → Methods → Method → Option HandlerMetadata → Result Methods Str
unfolding is_any insert
add_to_methods n (any _) method meta = err specific_after_any
add_to_methods n (specific inner) method meta =
    if is_any method
    then err any_after_specific
    else ok (specific (insert method (numbered n meta) inner))

module _ {R : Type 0} where
  unfoldable pub add_method : Endpoint R → Method → Option HandlerMetadata → Result (Endpoint R) Str
  unfolding add_to_methods
  add_method er method meta = do
    methods ← add_to_methods er.id er.methods method meta
    ok (record er { methods = methods })

-- The inner `match` of `resolve`
unfoldable pub resolve_method : Methods → Method → Resolved
unfolding get
resolve_method (any meta) method = matched meta
resolve_method (specific methods) method = elim (get method methods) [
  | some meta ↦ matched meta
  | none ↦ method_not_allowed
]

module _ {R : Type 0} (is_match : R → Str → Bool) where
  -- The request comes back with the captures that the match wrote.
  unfoldable pub resolve : Endpoint R → Request → Resolved × Request
  unfolding match_all_and_capture resolve_method
  resolve er req =
      let (accepted, captures) =
        match_all_and_capture is_match er.path_matcher req.path req.captures in
      let req' = record req { captures = captures } in
      if accepted then (resolve_method er.methods req.method, req') else (invalid_path, req')
