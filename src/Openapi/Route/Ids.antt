-- ===== src/Openapi/Route/Ids.antt =====
-- The operation ids of the routes of a method.
use saphir.Base.{
  ℕ, ◌+◌, ◌≤◌, ◌<◌, ◌^◌, ◌≡◌, refl, Bool, true, List, [], ◌∷◌, Option, none, some, if◌then◌else◌,
  length, arith, All, Bool-cases, inl, inr,
}
use saphir.Text.{Str, starts_with}
use saphir.Openapi.Schema.{PathMethod, method_to_str}
use saphir.Openapi.Operations.Fresh.{Distinct, operation_id_from_sig-fresh}
use saphir.Openapi.Syn.{Attribute}
use saphir.Openapi.Route.{
  RouteInfo, full_path, operation_name, extract_route_info, extract_all, routes_of,
  extract_routes_info,
}

-- The ids of the routes, the last in front, before those that were in use
abbrev pub ids_onto : List RouteInfo → List Str → List Str
ids_onto [] ids = ids
ids_onto (r ∷ routes) ids = ids_onto routes (r.operation_id ∷ ids)

-- The answer: its routes lie in the scope, and no id stands twice.
abbrev pub Extracts : Str → Option (List RouteInfo × List Str) → List Str → ℕ → Type 0
Extracts scope answer ids count =
    (routes : List RouteInfo) × (ids' : List Str) × (answer ≡ some (routes, ids'))
    × (ids' ≡ ids_onto routes ids)
    × Distinct ids'
    × (length ids' ≤ count + length ids)
    × All (λ (r : RouteInfo). starts_with scope r.uri ≡ true) routes

module _ (to_case : Str → Str) (scope controller_path : Str) (multi : Bool) (sig : Str) where
  abbrev route_with : PathMethod → Str → List Str → Str → RouteInfo
  route_with method path params id = record {
    method = method;
    uri = full_path controller_path path;
    uri_params = params;
    operation_id = id;
    operation_name =
        operation_name to_case scope sig (if multi then some (method_to_str method) else none);
  }

  extract_all-Extracts :
      (found : List (PathMethod × Str × List Str)) (ids : List Str)
      → length found + length ids + 2 < 2 ^ 31
      → Distinct ids
      → Extracts scope
          (extract_all to_case scope controller_path multi sig found ids)
          ids
          (length found)
  unfolding extract_all extract_route_info
  extract_all-Extracts [] ids small d = ([], ids, refl, refl, d, omega arith, tt)
  extract_all-Extracts ((method, path, params) ∷ found) ids small d =
      elim (Bool-cases (starts_with scope (full_path controller_path path))) [
        | inr outside ↦
            let (routes, ids', answer, onto, d', few, inside) =
              extract_all-Extracts found ids (omega arith) d in
            (
              routes,
              ids',
              rw (outside, extract_all, extract_route_info, answer),
              onto,
              d',
              omega arith,
              inside,
            )
        | inl within ↦
            let (id, taken, free) = operation_id_from_sig-fresh sig ids (omega arith) in
            let (routes, ids', answer, onto, d', few, inside) =
              extract_all-Extracts found (id ∷ ids) (omega arith) (free, d) in
            (
              route_with method path params id ∷ routes,
              ids',
              rw (within, taken, extract_all, extract_route_info, answer),
              onto,
              d',
              omega arith,
              (within, inside),
            )
      ]

-- The routes of a method are found, lie in the scope, and have ids that were not in use and differ from one
-- another, where the ids in use do and all are fewer than 2^31 - 2.
pub extract_routes_info-Extracts :
    (to_case : Str → Str) (scope : Str) (attrs : List Attribute) (sig controller_path : Str)
    (ids : List Str)
    → length (routes_of attrs) + length ids + 2 < 2 ^ 31
    → Distinct ids
    → Extracts scope
        (extract_routes_info to_case scope attrs sig controller_path ids)
        ids
        (length (routes_of attrs))
unfolding extract_routes_info
extract_routes_info-Extracts to_case scope attrs sig controller_path ids small d =
    extract_all-Extracts to_case scope controller_path _ sig (routes_of attrs) ids small d
