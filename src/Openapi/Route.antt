-- ===== src/Openapi/Route.antt =====
-- saphir_cli/src/openapi/generate/route_info.rs: the routes of a method, out of its attributes.
pub mod Params
pub mod Ids
use saphir.Base.{
  ℕ, zero, suc, Bool, ◌||◌, ◌==◌, List, [], ◌∷◌, ◌++◌, Option, none, some, if◌then◌else◌, length,
  ltb, pop_back,
}
use saphir.Text.{Str, codes, starts_with, ends_with}
use saphir.Openapi.Syn.{get_ident, str, Meta, list, lit, Attribute}
use saphir.Openapi.Schema.{PathMethod, method_from_str, method_to_str}
use saphir.Openapi.Operations.{operation_id_from_sig}

pub record RouteInfo : Type 0 where
  pub method : PathMethod
  pub uri : Str
  pub uri_params : List Str
  pub operation_id : Str
  pub operation_name : Str

abbrev pub is_opening : ℕ → Bool
is_opening c = c == b'<' || c == b'{'

abbrev pub is_closing : ℕ → Bool
is_closing c = c == b'>' || c == b'}'

-- What stands before the first closing character and after it
unfoldable pub find_closing : Str → Option (Str × Str)
find_closing [] = none
find_closing (c ∷ s) =
    let later : Option (Str × Str) = elim (find_closing s) [
      | none ↦ none
      | some (before, after) ↦ some (c ∷ before, after)
    ] in
    if is_closing c then some ([], s) else later

-- The loop over the characters: the path with its variables in braces, and their names. The length of the path is
-- enough as fuel.
unfoldable pub path_and_params : ℕ → Str → Str × List Str
unfolding find_closing
path_and_params zero s = ([], [])
path_and_params (suc fuel) [] = ([], [])
path_and_params (suc fuel) (c ∷ s) =
    let rest = path_and_params fuel s in
    if is_opening c
    then elim (find_closing s) [
      | none ↦ (b'{' ∷ rest.0, rest.1)
      | some (param, after) ↦
          let (path, params) = path_and_params fuel after in
          (b'{' ∷ (param ++ (b'}' ∷ path)), param ∷ params)
    ]
    else (c ∷ rest.0, rest.1)

-- The first nested meta, where it is a text
abbrev pub first_text : Option Meta → Option Str
first_text (some (list p (lit (str s) rest))) = some s
first_text _ = none

unfoldable pub handler_path_from_attr : Attribute → Option (Str × List Str)
unfolding path_and_params
handler_path_from_attr attr = elim (first_text attr.parsed) [
  | none ↦ none
  | some s ↦ some (path_and_params (length s) s)
]

unfoldable pub handler_method_from_attr : Attribute → Option PathMethod
unfolding method_from_str
handler_method_from_attr attr = elim (get_ident attr.path) [
  | none ↦ none
  | some ident ↦ method_from_str ident
]

-- The methods and paths of the attributes that have both
unfoldable pub routes_of : List Attribute → List (PathMethod × Str × List Str)
unfolding handler_path_from_attr handler_method_from_attr
routes_of [] = []
routes_of (attr ∷ attrs) =
    let rest = routes_of attrs in
    elim (handler_method_from_attr attr) [
      | none ↦ rest
      | some method ↦ elim (handler_path_from_attr attr) [
        | none ↦ rest
        | some (path, params) ↦ (method, path, params) ∷ rest
      ]
    ]

-- `full_path`: a slash at its end is taken off.
unfoldable pub full_path : Str → Str → Str
unfolding ends_with
full_path controller_path path =
    let whole = b'/' ∷ (controller_path ++ path) in
    if ends_with (codes "/") whole
    then elim (pop_back whole) [ none ↦ whole | some (before, last) ↦ before ]
    else whole

-- `to_case` is the conversion of the crate `convert_case` to the case of the arguments.
module _ (to_case : Str → Str) (scope : Str) where
  unfoldable pub operation_name : Str → Option Str → Str
  operation_name name none = to_case name
  operation_name name (some prefix) = to_case (prefix ++ (b'_' ∷ name))

  -- A route outside the scope gets no id. None outside: the loop for the id was cut off.
  unfoldable pub extract_route_info :
      Str
      → PathMethod
      → Str
      → List Str
      → Bool
      → Str
      → List Str
      → Option (Option RouteInfo × List Str)
  unfolding full_path operation_name operation_id_from_sig starts_with method_to_str
  extract_route_info controller_path method path uri_params multi sig ids =
      if starts_with scope (full_path controller_path path)
      then elim (operation_id_from_sig sig ids) [
        | none ↦ none
        | some (operation_id, ids') ↦ some (
          some (record {
            method = method;
            uri = full_path controller_path path;
            uri_params = uri_params;
            operation_id = operation_id;
            operation_name =
                operation_name sig (if multi then some (method_to_str method) else none);
          }),
          ids',
        )
      ]
      else some (none, ids)

  unfoldable pub extract_all :
      Str
      → Bool
      → Str
      → List (PathMethod × Str × List Str)
      → List Str
      → Option (List RouteInfo × List Str)
  unfolding extract_route_info
  extract_all controller_path multi sig [] ids = some ([], ids)
  extract_all controller_path multi sig ((method, path, params) ∷ routes) ids =
      elim (extract_route_info controller_path method path params multi sig ids) [
        | none ↦ none
        | some (route, ids') ↦ elim (extract_all controller_path multi sig routes ids') [
          | none ↦ none
          | some (rest, ids'') ↦ some (elim route [ none ↦ rest | some r ↦ r ∷ rest ], ids'')
        ]
      ]

  -- `extract_routes_info_from_method_macro`
  unfoldable pub extract_routes_info :
      List Attribute → Str → Str → List Str → Option (List RouteInfo × List Str)
  unfolding routes_of extract_all
  extract_routes_info attrs sig controller_path ids =
      extract_all controller_path (ltb 1 (length (routes_of attrs))) sig (routes_of attrs) ids
