-- ===== src/Tests/Documents.antt =====
-- Schemas, routes, handlers and responses of documents.
use saphir.Base.{
  ℕ, ◌≡◌, ◌≢◌, ◌<◌, ◌^◌, refl, List, [], ◌∷◌, true, false, Option, none, some, All, length, arith,
  if◌then◌else◌,
}
use saphir.Base.Dict.{get, insert}
use saphir.Text.{Str, codes, str_eq}
use saphir.Text.Decimal.{print_u64}
use saphir.Openapi.Syn.{
  SynType, path_type, segment, end, no_arguments, Attribute, list, nil, meta, lit, str, int,
  NestedMetas, name_value, AttrPath,
}
use saphir.Openapi.Schema.{OpenApiType, object_of, ref_object, is_primitive, top, method_from_str}
use saphir.Openapi.Schemas.{Gen, component, get_schema, get_schema_ref, ref_name_of, ref_name_in}
use saphir.Openapi.Schemas.Numbering.{Paths}
use saphir.Openapi.Schemas.Refs.{IsNumbered}
use saphir.Openapi.Schemas.Distinct.{Call, after, component-injective}
use saphir.Openapi.Operations.{contains_id}
use saphir.Openapi.Route.{
  routes_of, handler_method_from_attr, handler_path_from_attr, path_and_params,
}
use saphir.Openapi.Route.Params.{
  Piece, char, variable, render, in_braces, variables, path_and_params_lem,
}
use saphir.Openapi.Controllers.{Method}
use saphir.Openapi.Crate.{Impl, Item, impl_item, other_item, load_controllers}
use saphir.Openapi.Crate.Ids.{Gives, all_ids_onto, crate_count, load_controllers-Gives}
use saphir.Openapi.TypeInfo.{Definition}
use saphir.Openapi.Responses.{read_return, no_return, pairs_of}
use saphir.Openapi.Responses.Codes.{IsStatus, pairs_of-read_return}

abbrev user : OpenApiType
user = object_of (ref_object (codes "User"))

abbrev fresh : Gen
fresh = record { schemas = []; generated_schema_names = [] }

fresh-IsNumbered : IsNumbered fresh
unfolding get
fresh-IsNumbered name paths e = cc

-- A call for another name in between
abbrev asked : Call
asked = record { name = codes "Car"; full_path = none; ty = user; as_ref = true }

few :
    (paths : Paths)
    → some ((some (codes "a::User"), codes "User") ∷ (none, codes "User_2") ∷ []) ≡ some paths
    → length paths < 2 ^ 64
few paths e =
    let known : (some (codes "a::User"), codes "User") ∷ (none, codes "User_2") ∷ [] ≡ paths = cc in
    rw (← known) (omega arith)

component-injective_example :
    (component top (codes "User") (some (codes "a::User")) user fresh).0
    ≢ (component top (codes "User") (none) user (
        after top
          (asked ∷ [])
          (component top (codes "User") (some (codes "a::User")) user fresh).1)).0
unfolding component ref_name_of ref_name_in is_primitive get insert get_schema get_schema_ref str_eq
    print_u64
component-injective_example =
    component-injective top (codes "User") (some (codes "a::User")) (none) user user (asked ∷ [])
      fresh fresh-IsNumbered refl refl (λ paths e. few paths e) (λ e. cc)

-- `/<a>/{b}`
abbrev pieces : List Piece
pieces =
    char b'/' ∷ variable b'<' (codes "a") b'>' ∷ char b'/' ∷ variable b'{' (codes "b") b'}' ∷ []

path_and_params_lem_example :
    path_and_params (length (render pieces)) (render pieces)
    ≡ (render (in_braces pieces), variables pieces)
path_and_params_lem_example =
    path_and_params_lem pieces
      (refl, ((refl, refl, (refl, tt)), (refl, ((refl, refl, (refl, tt)), tt))))

-- `Definition`s of no type, and numbers that do not parse
abbrev no_definition : Str → Option Definition
no_definition s = none

abbrev no_number : Str → Option ℕ
no_number s = none

abbrev inputs : List (Option Str × SynType)
inputs =
    (some (codes "id"), path_type (segment (codes "u64") no_arguments end))
    ∷ (none, path_type end)
    ∷ (some (codes "jar"), path_type (segment (codes "CookieJar") no_arguments end))
    ∷ []

abbrev word : Str → AttrPath
word s = record { leading_colon = false; segments = s ∷ [] }

-- `return(code = 404, code = 700, type = "A")`
abbrev answers : NestedMetas
answers = meta (name_value (word (codes "code")) (int (codes "404"))) (
    meta (name_value (word (codes "code")) (int (codes "700")))
      (meta (name_value (word (codes "type")) (str (codes "A"))) nil))

abbrev parse_u16 : Str → Option ℕ
parse_u16 s =
    if str_eq s (codes "404") then some 404 else if str_eq s (codes "700") then some 700 else none

pairs_of-read_return_example :
    All
      (λ (p : ℕ × Str). IsStatus p.0)
      (pairs_of
        (read_return parse_u16 answers no_return).codes_of
        (read_return parse_u16 answers no_return).types)
pairs_of-read_return_example = pairs_of-read_return parse_u16 answers

abbrev to_same : Str → Str
to_same s = s

-- `#[get("/<id>")] #[post("/")]`
abbrev attrs : List Attribute
attrs =
    record {
      path = word (codes "get");
      parsed = some (list (word (codes "get")) (lit (str (codes "/<id>")) nil));
    }
    ∷ record {
      path = word (codes "post");
      parsed = some (list (word (codes "post")) (lit (str (codes "/")) nil));
    }
    ∷ []

abbrev controller_impl : Impl
controller_impl = record {
  scope_path = codes "app";
  attrs = record { path = word (codes "controller"); parsed = none } ∷ [];
  self_ty = path_type (segment (codes "UsersController") no_arguments end);
  methods = record { attrs = attrs; sig = codes "find"; inputs = inputs } ∷ [];
}

abbrev items : List Item
items = other_item ∷ impl_item controller_impl ∷ []

abbrev no_definition_in : Str → Str → Option Definition
no_definition_in scope path = none

abbrev no_responses : Str → Method → List ℕ
no_responses scope method = []

load_controllers-Gives_example :
    Gives all_ids_onto
      (load_controllers to_same
        (codes "/users")
        no_definition_in
        no_number
        no_responses
        items
        (codes "find" ∷ []))
      (codes "find" ∷ [])
      (crate_count items)
unfolding routes_of handler_method_from_attr handler_path_from_attr path_and_params method_from_str
    contains_id str_eq
load_controllers-Gives_example =
    load_controllers-Gives to_same (codes "/users") no_number no_definition_in no_responses items
      (codes "find" ∷ []) (omega arith) (refl, tt)
