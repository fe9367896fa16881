-- ===== src/Openapi/Handler.antt =====
-- saphir_cli/src/openapi/generate/handler_info.rs: the parameters of a handler. An argument is its name, where its
-- pattern is one, with its type; the receiver is left out.
pub mod Parameters
use saphir.Base.{
  ℕ, Bool, true, false, not, ◌||◌, List, [], ◌∷◌, ◌++◌, Option, none, some, if◌then◌else◌,
  unwrap_or, any,
}
use saphir.Text.{Str, codes, str_eq}
use saphir.Openapi.Syn.{
  get_ident, Attribute, SynType, path_type, array_type, reference_type, other_type, Segments, end,
  segment, Arguments, angle_bracketed, no_arguments, type_argument,
}
use saphir.Openapi.Schema.{MimeType, json, form, OpenApiType, string, from_rust_type_str}
use saphir.Openapi.TypeInfo.{TypeInfo, Definition, type_info}

pub data Location : Type 0 where
  in_path in_query : Location

-- A parameter; its schema is a type that stands inline, and it has no description.
pub record Parameter : Type 0 where
  pub name : Str
  pub location : Location
  pub required : Bool
  pub nullable : Bool
  pub schema : OpenApiType

-- The last segment of a path, and the first
unfoldable pub last_segment : Segments → Option (Str × Arguments)
last_segment end = none
last_segment (segment name args end) = some (name, args)
last_segment (segment _ _ (segment name args rest)) = last_segment (segment name args rest)

abbrev pub first_segment : Segments → Option (Str × Arguments)
first_segment end = none
first_segment (segment name args rest) = some (name, args)

-- The path of the first argument, where that is a type and a path
abbrev pub first_path : Arguments → Option Segments
first_path (angle_bracketed (type_argument (path_type path) rest)) = some path
first_path _ = none

-- `path.get_ident()` of a type
abbrev pub type_ident : Segments → Option Str
type_ident (segment name no_arguments end) = some name
type_ident _ = none

-- What an argument of a handler is: skipped, the cookies, a body where there is one, or a parameter
pub data ArgumentKind : Type 0 where
  skipped cookies : ArgumentKind
  body : Option (Str × Arguments) → ArgumentKind
  plain : OpenApiType → Bool → ArgumentKind

-- The name of the type in an `Option`, which is a text where it has no plain name
abbrev pub optional_type : Arguments → Str
optional_type args = elim (first_path args) [
  | none ↦ codes "String"
  | some path ↦ unwrap_or (type_ident path) (codes "String")
]

unfoldable pub argument_kind : SynType → ArgumentKind
unfolding last_segment str_eq from_rust_type_str
argument_kind (path_type path) = elim (last_segment path) [
  | none ↦ plain string false
  | some (name, args) ↦
      if str_eq name (codes "Ext")
      then skipped
      else if str_eq name (codes "CookieJar")
      then cookies
      else if str_eq name (codes "Request")
      then body (elim (first_path args) [ none ↦ none | some p ↦ first_segment p ])
      else if str_eq name (codes "Json") || str_eq name (codes "Form")
      then body (some (name, args))
      else if str_eq name (codes "Option")
      then plain (unwrap_or (from_rust_type_str (optional_type args)) string) true
      else plain (unwrap_or (from_rust_type_str name) string) false
]
argument_kind (array_type _ _) = plain string false
argument_kind (reference_type _) = plain string false
argument_kind other_type = plain string false

-- The state of the loop
pub record Found : Type 0 where
  pub parameters : List Parameter
  pub has_cookies_param : Bool
  pub body_type : Option (Str × Arguments)

abbrev pub location_of : List Str → Str → Location
location_of uri_params name = if any (str_eq name) uri_params then in_path else in_query

-- What a kind of argument does; `Request` without a body type leaves the body that was found before.
unfoldable pub add_argument : List Str → Str → ArgumentKind → Found → Found
unfolding str_eq
add_argument uri_params name skipped found = found
add_argument uri_params name cookies found = record found { has_cookies_param = true }
add_argument uri_params name (body none) found = found
add_argument uri_params name (body (some b)) found = record found { body_type = some b }
add_argument uri_params name (plain schema optional) found = record found {
  parameters =
      found.parameters
      ++ (record {
        name = name;
        location = location_of uri_params name;
        required = not optional;
        nullable = optional;
        schema = schema;
      }
          ∷ []);
}

unfoldable pub parse_arguments : List Str → List (Option Str × SynType) → Found → Found
unfolding add_argument argument_kind
parse_arguments uri_params [] found = found
parse_arguments uri_params ((none, ty) ∷ inputs) found = parse_arguments uri_params inputs found
parse_arguments uri_params ((some name, ty) ∷ inputs) found =
    parse_arguments uri_params inputs (add_argument uri_params name (argument_kind ty) found)

pub record BodyParamInfo : Type 0 where
  pub openapi_type : MimeType
  pub info : TypeInfo

abbrev pub first_type : Arguments → Option SynType
first_type (angle_bracketed (type_argument t rest)) = some t
first_type _ = none

module _ (definition : Str → Option Definition) (parse_u32 : Str → Option ℕ) where
  -- `body_info`: only `Json` and `Form` have one.
  unfoldable pub body_info : Option (Str × Arguments) → Option BodyParamInfo
  unfolding type_info str_eq
  body_info none = none
  body_info (some (name, args)) =
      if str_eq name (codes "Json") || str_eq name (codes "Form")
      then elim (first_type args) [
        | none ↦ none
        | some t ↦ elim (type_info definition parse_u32 t) [
          | none ↦ none
          | some info ↦ some (record {
            openapi_type = if str_eq name (codes "Json") then json else form;
            info = info;
          })
        ]
      ]
      else none

  -- `parse_handler_parameters`
  unfoldable pub parse_handler_parameters :
      List Str → List (Option Str × SynType) → List Parameter × Bool × Option BodyParamInfo
  unfolding parse_arguments body_info
  parse_handler_parameters uri_params inputs =
      let found =
        parse_arguments uri_params inputs
          (record { parameters = []; has_cookies_param = false; body_type = none }) in
      (found.parameters, found.has_cookies_param, body_info found.body_type)

-- `handler_has_cookies`
unfoldable pub handler_has_cookies : List Attribute → Bool
unfolding str_eq
handler_has_cookies [] = false
handler_has_cookies (attr ∷ attrs) =
    elim (get_ident attr.path) [ none ↦ false | some ident ↦ str_eq ident (codes "cookies") ]
    || handler_has_cookies attrs
