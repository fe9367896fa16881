-- ===== src/Tests/Routes.antt =====
-- A router with a route and a controller, and a request to each.
use saphir.Base.{
  ℕ, ◌≡◌, ◌≢◌, refl, true, false, [], ◌∷◌, ◌++◌, none, some, is_some, Result, ok, err,
  if◌then◌else◌,
}
use saphir.Base.Dict
use saphir.Text.{Str, codes, str_eq}
use saphir.Text.Laws.{str_eq_iff}
use saphir.Path.{simple, static, variable}
use saphir.Path.Match.{match_all_and_capture}
use saphir.Http.{Method, any_method, Request, RouteId, State, before, Context}
use saphir.Guard.{Guard, GuardChain}
use saphir.Guard
use saphir.Endpoint.{Endpoint, specific, any}
use saphir.Router.{
  Router, dispatch, end, link, Builder, ControllerEndpoint, default, route, controller, values,
  build, chain_dispatch, resolve_from, resolve_metadata_from,
}
use saphir.Router.Build.{HasHandler, IsServed, Built, start, routed, controlled, Built-IsServed}
use saphir.Router.Resolve.{outcome, resolve_from-outcome}
use saphir.Router.Agree.{route_of, resolve_metadata_from-agrees, resolve-chain_dispatch}
use saphir.Errors.{SaphirError}
use saphir.Server.{invoke, start as start_of}
use saphir.Server.Serves.{stack_of, emptied, or_error, invoke-responds}
use saphir.Router.AnyMethod.{route-any_method}

abbrev compile : Str → Result Str Str
compile r = ok r

abbrev get : Method
get = codes "GET"

abbrev ask : Method → Str → Request
ask method path = record { method = method; path = path; headers = []; captures = [] }

abbrev guarded : GuardChain ℕ
guarded = Guard.GuardChain.link (λ req. ok req) Guard.GuardChain.end

abbrev user_route : Endpoint Str
user_route = record {
  id = 0;
  path_matcher = simple (static (codes "users") ∷ variable (some (codes "id")) ∷ []);
  methods = specific ((get, record { route_id = RouteId.id 0; name = none }) ∷ []);
}

abbrev one_route : Builder Str ℕ
one_route = record {
  resolver = (codes "/users/{id}", user_route) ∷ [];
  chain = end (((0, get), ((λ _. 7), guarded)) ∷ []);
}

one_route_made :
    route compile 0 default (codes "/users/{id}") get (λ _. 7) guarded ≡ ok (one_route, 1)
unfolding route
one_route_made = refl

one_route_built : Built compile one_route 1
one_route_built = routed (codes "/users/{id}") get (λ _. 7) guarded (start 0) one_route_made

abbrev listed : ControllerEndpoint ℕ
listed = record {
  name = some (codes "list");
  method = get;
  subroute = codes "/list";
  handler = λ _. 8;
  guards = Guard.GuardChain.end;
}

abbrev both : Builder Str ℕ
both = record {
  resolver =
      (codes "/users/{id}", user_route)
      ∷ (
        codes "/v1/files/list",
        record {
          id = 1;
          path_matcher =
              simple (static (codes "v1") ∷ static (codes "files") ∷ static (codes "list") ∷ []);
          methods =
              specific ((get, record { route_id = RouteId.id 1; name = some (codes "list") }) ∷ []);
        },
      )
      ∷ [];
  chain =
      link (((1, get), ((λ _. 8), Guard.GuardChain.end)) ∷ [])
        (end (((0, get), ((λ _. 7), guarded)) ∷ []));
}

both_made : controller compile 1 one_route (codes "/v1/files") (listed ∷ []) ≡ ok (both, 2)
unfolding controller
both_made = refl

both_built : Built compile both 2
both_built = controlled (codes "/v1/files") (listed ∷ []) one_route_built both_made

Built-IsServed_example : IsServed both
Built-IsServed_example = Built-IsServed compile both_built

resolve_from-outcome_example :
    (resolve_from str_eq (values both.resolver) false (ask get (codes "/users/5"))).0
    ≡ outcome str_eq false get (codes "/users/5") (values both.resolver)
resolve_from-outcome_example =
    resolve_from-outcome str_eq (values both.resolver) false (ask get (codes "/users/5"))

resolve_metadata_from-agrees_example :
    (route_of (resolve_from str_eq (values both.resolver) false (ask get (codes "/users/5"))).0
      ≡ (resolve_metadata_from str_eq
          (values both.resolver)
          false
          (ask get (codes "/users/5"))).0.route_id)
    × ((resolve_from str_eq (values both.resolver) false (ask get (codes "/users/5"))).1
        ≡ (resolve_metadata_from str_eq
            (values both.resolver)
            false
            (ask get (codes "/users/5"))).1)
resolve_metadata_from-agrees_example =
    resolve_metadata_from-agrees str_eq (HasHandler both.chain) (values both.resolver) false
      (ask get (codes "/users/5")) (Built-IsServed compile both_built)

resolve-chain_dispatch_example :
    is_some (
      chain_dispatch
        (build (λ ers. ers) both).chain
        1
        (resolve_from str_eq
          (build (λ ers. ers) both).resolvers
          false
          (ask get (codes "/v1/files/list"))).1)
    ≡ true
unfolding resolve_from build
resolve-chain_dispatch_example =
    resolve-chain_dispatch compile str_eq (λ ers. ers) (λ P ers h. h)
      (ask get (codes "/v1/files/list")) both_built (refl, (refl, tt)) refl

abbrev respond : ℕ → Context ℕ (Router Str ℕ) → Result ℕ (SaphirError Unit)
respond status ctx = ok status

abbrev as_500 : SaphirError Unit → Context ℕ (Router Str ℕ) → Result ℕ (SaphirError Unit)
as_500 e ctx = ok 500

abbrev list_files : Request
list_files = ask get (codes "/v1/files/list")

invoke-responds_example :
    (responder : ℕ) × (chain_dispatch
        (build (λ ers. ers) both).chain
        1
        (resolve_from str_eq (build (λ ers. ers) both).resolvers false list_files).1
      ≡ some responder)
    × ((invoke str_eq
          (dispatch respond respond)
          as_500
          (stack_of compile str_eq respond respond as_500 (build (λ ers. ers) both))
          list_files
          1).0
        ≡ or_error compile str_eq respond respond as_500
            (start_of str_eq
              (dispatch respond respond)
              as_500
              (stack_of compile str_eq respond respond as_500 (build (λ ers. ers) both))
              list_files)
            (respond responder (
              emptied compile str_eq respond respond as_500 (
                start_of str_eq
                  (dispatch respond respond)
                  as_500
                  (stack_of compile str_eq respond respond as_500 (build (λ ers. ers) both))
                  list_files))))
unfolding resolve_from build
invoke-responds_example =
    invoke-responds compile str_eq respond respond as_500 (λ ers. ers) (λ P ers h. h) list_files 1
      both_built (refl, (refl, tt)) refl

get_is_not_any : get ≢ any_method
unfolding str_eq
get_is_not_any e = let apart : false ≡ true = (str_eq_iff get any_method).1 e in cc apart

abbrev any_endpoint : Endpoint Str
any_endpoint = record {
  id = 2;
  path_matcher = simple (static (codes "ping") ∷ []);
  methods = any (record { route_id = RouteId.id 2; name = none });
}

abbrev with_any_route : Builder Str ℕ
with_any_route = record {
  resolver = both.resolver ++ ((codes "/ping", any_endpoint) ∷ []);
  chain =
      link (((1, get), ((λ _. 8), Guard.GuardChain.end)) ∷ [])
        (end (((0, get), ((λ _. 7), guarded)) ∷ ((2, any_method), ((λ _. 9), guarded)) ∷ []));
}

any_route_made :
    route compile 2 both (codes "/ping") any_method (λ _. 9) guarded ≡ ok (with_any_route, 3)
unfolding route
any_route_made = refl

route-any_method_example :
    ((resolve_from str_eq (any_endpoint ∷ values both.resolver) false (ask get (codes "/ping"))).0
      ≡ ok 2)
    × (chain_dispatch with_any_route.chain 2 (ask get (codes "/ping")) ≡ none)
    × (is_some (chain_dispatch with_any_route.chain 2 (ask any_method (codes "/ping"))) ≡ true)
unfolding match_all_and_capture chain_dispatch Dict.get str_eq
route-any_method_example =
    route-any_method compile str_eq 2 (codes "/ping") (λ _. 9) guarded both
      (ask get (codes "/ping")) any_endpoint false (values both.resolver) refl refl any_route_made
      refl refl get_is_not_any

abbrev no_admin : Guard ℕ
no_admin req = if str_eq req.path (codes "/admin") then err 403 else ok req

abbrev arrived : State ℕ
arrived = before (ask get (codes "/"))
