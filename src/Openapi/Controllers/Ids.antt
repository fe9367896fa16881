-- ===== src/Openapi/Controllers/Ids.antt =====
-- The operation ids of the handlers of a controller.
use saphir.Base.{ℕ, ◌+◌, ◌≤◌, ◌<◌, ◌^◌, ◌≡◌, refl, List, [], ◌∷◌, Option, some, length, arith}
use saphir.Text.{Str}
use saphir.Openapi.Operations.Fresh.{Distinct}
use saphir.Openapi.Route.{RouteInfo, routes_of, extract_routes_info}
use saphir.Openapi.Route.Ids.{ids_onto, extract_routes_info-Extracts}
use saphir.Openapi.TypeInfo.{Definition}
use saphir.Openapi.Controllers.{
  HandlerInfo, Method, handler_with, extract_handler_info, extract_handlers,
}

-- The ids of the handlers, the last in front, before those that were in use
abbrev pub handler_ids_onto :
    {Response : Type 0} → List (HandlerInfo Response) → List Str → List Str
handler_ids_onto [] ids = ids
handler_ids_onto (h ∷ handlers) ids = handler_ids_onto handlers (ids_onto h.routes ids)

-- How many routes the attributes of some methods may have
abbrev pub route_count : List Method → ℕ
route_count [] = 0
route_count (m ∷ methods) = length (routes_of m.attrs) + route_count methods

module _ {Response : Type 0} (to_case : Str → Str) (scope : Str)
    (definition : Str → Option Definition) (parse_u32 : Str → Option ℕ)
    (responses_of : Method → List Response) (controller_path : Str) where
  -- The handlers of a controller are found, and all their operations have ids that differ from one another and from
  -- those in use before, where those differ and all are fewer than 2^31 - 2; at most one id came for each attribute of a route.
  pub extract_handlers-Distinct :
      (methods : List Method) (ids : List Str)
      → route_count methods + length ids + 2 < 2 ^ 31
      → Distinct ids
      → (handlers : List (HandlerInfo Response)) × (ids' : List Str) × (extract_handlers to_case
            scope definition parse_u32 responses_of controller_path methods ids
          ≡ some (handlers, ids'))
        × (ids' ≡ handler_ids_onto handlers ids)
        × Distinct ids'
        × (length ids' ≤ route_count methods + length ids)
  unfolding extract_handlers extract_handler_info handler_with
  extract_handlers-Distinct [] ids small d = ([], ids, refl, refl, d, omega arith)
  extract_handlers-Distinct (m ∷ methods) ids small d =
      let (routes, ids', found, onto, d', few, inside) =
        extract_routes_info-Extracts to_case scope m.attrs m.sig controller_path ids (omega arith)
          d in
      by_routes routes ids' found onto few (extract_handlers-Distinct methods ids' (omega arith) d')
    where
      by_routes :
          (routes : List RouteInfo) (ids' : List Str)
          → extract_routes_info to_case scope m.attrs m.sig controller_path ids
            ≡ some (routes, ids')
          → ids' ≡ ids_onto routes ids
          → length ids' ≤ length (routes_of m.attrs) + length ids
          → ((handlers : List (HandlerInfo Response)) × (ids'' : List Str) × (extract_handlers
                  to_case scope definition parse_u32 responses_of controller_path methods ids'
                ≡ some (handlers, ids''))
              × (ids'' ≡ handler_ids_onto handlers ids')
              × Distinct ids''
              × (length ids'' ≤ route_count methods + length ids'))
          → (handlers : List (HandlerInfo Response)) × (ids'' : List Str) × (extract_handlers
                to_case scope definition parse_u32 responses_of controller_path
                (m ∷ methods)
                ids
              ≡ some (handlers, ids''))
            × (ids'' ≡ handler_ids_onto handlers ids)
            × Distinct ids''
            × (length ids'' ≤ route_count (m ∷ methods) + length ids)
      by_routes [] ids' found onto few (handlers, ids'', later, onto', d'', fewer) = (
        handlers,
        ids'',
        rw (found, extract_handlers, extract_handler_info, later),
        rw (← onto) onto',
        d'',
        omega (arith, few, fewer),
      )
      by_routes (route ∷ routes) ids' found onto few (handlers, ids'', later, onto', d'', fewer) = (
        handler_with to_case scope definition parse_u32 responses_of m route routes ∷ handlers,
        ids'',
        rw (found, extract_handlers, extract_handler_info, later),
        rw (← onto) onto',
        d'',
        omega (arith, few, fewer),
      )
