-- ===== src/Openapi/Fill.antt =====
-- saphir_cli/src/openapi/generate/mod.rs, the loops of `fill_openapi_with_controllers` over controllers, handlers, routes
-- and responses. The counter of responses without a name starts anew for every controller; it is an `i32` that wraps
-- around.
pub mod Kept
pub mod Parts
pub mod Answers
pub mod Leads
pub mod Whole
use saphir.Base.{
  ℕ, Bool, true, false, List, [], ◌∷◌, ◌++◌, map, Option, none, some, if◌then◌else◌, unwrap_or,
}
use saphir.Base.Dict.{get, insert}
use saphir.Text.{Str, codes}
use saphir.Text.Decimal.{print_u64}
use saphir.Text.Laws.{str_key}
use saphir.Openapi.Schema
use saphir.Openapi.Schema.{PathMethod, method_to_str, SchemaGranularity}
use saphir.Openapi.Schema.Tags.{Tag}
use saphir.Openapi.Schemas.{Gen}
use saphir.Openapi.TypeInfo.{TypeInfo}
use saphir.Openapi.Types.{Outcome}
use saphir.Openapi.Handler.{BodyParamInfo}
use saphir.Openapi.Route.{RouteInfo}
use saphir.Openapi.Responses.{ResponseInfo}
use saphir.Openapi.Controllers.{HandlerInfo, ControllerInfo}
use saphir.Openapi.Document.{
  DocParameter, RequestBody, Response, Operation, Doc, given_parameter, tags_of, body_param,
  body_parameters, response_schema, content_of, response_text,
}

abbrev pub is_get : PathMethod → Bool
is_get Schema.get = true
is_get Schema.post = false
is_get Schema.put = false
is_get Schema.patch = false
is_get Schema.delete = false
is_get Schema.any_path_method = false

-- `path_map.insert(method, data)`, in a map that is made where there is none
unfoldable pub add_operation : Str → PathMethod → Operation → Doc → Doc
unfolding get insert
add_operation path method operation doc = record doc {
  paths =
      insert path (insert (method_to_str method) operation (unwrap_or (get path doc.paths) []))
        doc.paths;
}

-- The document, with the number of responses without a name in the controller
pub record Filling : Type 0 where
  pub doc : Doc
  pub nameless : ℕ
  pub gen : Gen

module _ (find : TypeInfo → Bool → Gen → Outcome) (g : SchemaGranularity)
    (reason : ℕ → Option Str) where
  -- The body of a route: parameters for `get`, and a request body for the other methods
  unfoldable pub route_body :
      PathMethod
      → Option BodyParamInfo
      → Gen
      → Option (List DocParameter × Option RequestBody × Gen)
  unfolding body_parameters body_param
  route_body method none gen = some ([], none, gen)
  route_body method (some body) gen =
      if is_get method
      then elim (body_parameters find g body gen) [
        | none ↦ none
        | some (parameters, gen') ↦ some (parameters, none, gen')
      ]
      else elim (body_param find g body gen) [
        | none ↦ none
        | some (request, gen') ↦ some ([], some request, gen')
      ]

  -- The loop over the responses of a handler
  unfoldable pub fill_responses :
      Str
      → List ResponseInfo
      → List (Str × Response)
      → ℕ
      → Gen
      → Option (List (Str × Response) × ℕ × Gen)
  unfolding response_schema insert
  fill_responses model [] filled n gen = some (filled, n, gen)
  fill_responses model (r ∷ responses) filled n gen = elim (response_schema find g model r n gen) [
    | none ↦ none
    | some (schema, n', gen') ↦
        fill_responses model responses
          (insert (print_u64 r.code)
            (record {
              description = response_text find g reason r;
              content = content_of find g r.mime schema;
            })
            filled)
          n' gen'
  ]

  abbrev pub operation_of :
      ControllerInfo ResponseInfo
      → HandlerInfo ResponseInfo
      → RouteInfo
      → List DocParameter
      → Option RequestBody
      → List (Str × Response)
      → Operation
  operation_of c h route parameters request responses = record {
    parameters = map given_parameter h.parameters ++ parameters;
    description =
        if h.use_cookies then some (codes "NOTE: This request consume cookies.") else none;
    operation_id = route.operation_id;
    operation_name = route.operation_name;
    tags = map (λ (t : Tag). t.name) (tags_of c);
    request_body = request;
    responses = responses;
  }

  unfoldable pub fill_route :
      ControllerInfo ResponseInfo → HandlerInfo ResponseInfo → RouteInfo → Filling → Option Filling
  unfolding route_body fill_responses add_operation tags_of
  fill_route c h route f = elim (route_body route.method h.body_info f.gen) [
    | none ↦ none
    | some (parameters, request, gen') ↦
        elim (fill_responses c.name h.responses [] f.nameless gen') [
          | none ↦ none
          | some (responses, n, gen'') ↦ some (record {
            doc =
                add_operation route.uri route.method
                  (operation_of c h route parameters request responses)
                  (record f.doc { tags = f.doc.tags ++ tags_of c });
            nameless = n;
            gen = gen'';
          })
        ]
  ]

  unfoldable pub fill_routes :
      ControllerInfo ResponseInfo
      → HandlerInfo ResponseInfo
      → List RouteInfo
      → Filling
      → Option Filling
  unfolding fill_route
  fill_routes c h [] f = some f
  fill_routes c h (route ∷ routes) f = elim (fill_route c h route f) [
    | none ↦ none
    | some f' ↦ fill_routes c h routes f'
  ]

  unfoldable pub fill_handlers :
      ControllerInfo ResponseInfo → List (HandlerInfo ResponseInfo) → Filling → Option Filling
  unfolding fill_routes
  fill_handlers c [] f = some f
  fill_handlers c (h ∷ handlers) f = elim (fill_routes c h h.routes f) [
    | none ↦ none
    | some f' ↦ fill_handlers c handlers f'
  ]

  -- `fill_openapi_with_controllers`
  unfoldable pub fill_controllers :
      List (ControllerInfo ResponseInfo) → Doc → Gen → Option (Doc × Gen)
  unfolding fill_handlers
  fill_controllers [] doc gen = some (doc, gen)
  fill_controllers (c ∷ controllers) doc gen =
      elim (fill_handlers c c.handlers (record { doc = doc; nameless = 0; gen = gen })) [
        | none ↦ none
        | some f ↦ fill_controllers controllers f.doc f.gen
      ]
