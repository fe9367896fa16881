-- ===== src/Openapi/Controllers.antt =====
-- saphir_cli/src/openapi/generate/controller_info.rs: the controller of an implementation block, and
-- handler_info.rs, `extract_handler_info`. The responses of a handler are what `responses_of` makes of its method.
pub mod Ids
use saphir.Base.{
  ℕ, Bool, false, ◌||◌, ◌&&◌, leb, List, [], ◌∷◌, ◌++◌, Option, none, some, if◌then◌else◌,
  unwrap_or, ◌+◌,
}
use saphir.Text.{Str, codes, str_eq, starts_with}
use saphir.Openapi.Syn.{
  AttrPath, Lit, str, int, other, Meta, path, list, name_value, NestedMetas, nil, meta, lit,
  Attribute, SynType, path_type, segment,
}
use saphir.Openapi.Route.{RouteInfo, extract_routes_info}
use saphir.Openapi.TypeInfo.{Definition}
use saphir.Openapi.Handler.{Parameter, BodyParamInfo, parse_handler_parameters, handler_has_cookies}

pub record HandlerInfo (Response : Type 0) : Type 0 where
  pub use_cookies : Bool
  pub parameters : List Parameter
  pub body_info : Option BodyParamInfo
  pub routes : List RouteInfo
  pub responses : List Response

pub record ControllerInfo (Response : Type 0) : Type 0 where
  pub controller_name : Str
  pub name : Str
  pub version : Option Str
  pub prefix : Option Str
  pub handlers : List (HandlerInfo Response)

abbrev under_version : Option Str → Str → Str
under_version none name = name
under_version (some version) name = b'v' ∷ (version ++ (b'/' ∷ name))

abbrev under_prefix : Option Str → Str → Str
under_prefix none name = name
under_prefix (some prefix) name = prefix ++ (b'/' ∷ name)

unfoldable pub base_path : {Response : Type 0} → ControllerInfo Response → Str
base_path c = under_prefix c.prefix (under_version c.version c.name)

-- `to_ascii_lowercase`
unfoldable pub to_ascii_lowercase : Str → Str
to_ascii_lowercase [] = []
to_ascii_lowercase (c ∷ s) = (if leb b'A' c && leb c b'Z' then c + 32 else c) ∷ to_ascii_lowercase s

-- `&s[0..s.rfind(p).unwrap_or(s.len())]`: what stands before the last copy of a text
unfoldable pub before_last : Str → Str → Option Str
unfolding starts_with
before_last p [] = if starts_with p [] then some [] else none
before_last p (c ∷ s) = elim (before_last p s) [
  | some before ↦ some (c ∷ before)
  | none ↦ if starts_with p (c ∷ s) then some [] else none
]

-- The name of a controller without its ending
unfoldable pub short_name : Str → Str
unfolding to_ascii_lowercase before_last
short_name controller_name =
    let name = to_ascii_lowercase controller_name in
    unwrap_or (before_last (codes "controller") name) name

-- The texts of a literal that names, prefixes or versions take
abbrev pub literal_text : Lit → Option Str
literal_text (str s) = some s
literal_text (int s) = some s
literal_text other = none

abbrev first_ident : List Str → Option Str
first_ident [] = none
first_ident (ident ∷ _) = some ident

-- The fields of a controller that its attribute sets
module _ {Response : Type 0} where
  unfoldable pub set_field : Str → Str → ControllerInfo Response → ControllerInfo Response
  unfolding str_eq
  set_field field value c =
      if str_eq field (codes "name")
      then record c { name = value }
      else if str_eq field (codes "prefix")
      then record c { prefix = some value }
      else if str_eq field (codes "version")
      then record c { version = some value }
      else c

  unfoldable pub set_fields : NestedMetas → ControllerInfo Response → ControllerInfo Response
  unfolding set_field
  set_fields nil c = c
  set_fields (lit _ rest) c = set_fields rest c
  set_fields (meta (path _) rest) c = set_fields rest c
  set_fields (meta (list _ _) rest) c = set_fields rest c
  set_fields (meta (name_value p value) rest) c = elim (first_ident p.segments) [
    | none ↦ set_fields rest c
    | some field ↦ elim (literal_text value) [
      | none ↦ set_fields rest c
      | some text ↦ set_fields rest (set_field field text c)
    ]
  ]

  unfoldable pub set_from : Option Meta → ControllerInfo Response → ControllerInfo Response
  unfolding set_fields
  set_from (some (list _ nested)) c = set_fields nested c
  set_from (some (path _)) c = c
  set_from (some (name_value _ _)) c = c
  set_from none c = c

-- A method of an implementation block
pub record Method : Type 0 where
  pub attrs : List Attribute
  pub sig : Str
  pub inputs : List (Option Str × SynType)

module _ {Response : Type 0} (to_case : Str → Str) (scope : Str)
    (definition : Str → Option Definition) (parse_u32 : Str → Option ℕ)
    (responses_of : Method → List Response) where
  -- The handler of a method with its routes: the variables of the first one are the path's.
  unfoldable pub handler_with : Method → RouteInfo → List RouteInfo → HandlerInfo Response
  unfolding parse_handler_parameters handler_has_cookies
  handler_with method route routes =
      let (parameters, has_cookies_param, body) =
        parse_handler_parameters definition parse_u32 route.uri_params method.inputs in
      record {
        use_cookies = handler_has_cookies method.attrs || has_cookies_param;
        parameters = parameters;
        body_info = body;
        routes = route ∷ routes;
        responses = responses_of method;
      }

  -- `extract_handler_info`, with the ids in use after it. A method without a route is none.
  unfoldable pub extract_handler_info :
      Str → Method → List Str → Option (Option (HandlerInfo Response) × List Str)
  unfolding extract_routes_info handler_with
  extract_handler_info controller_path method ids =
      elim (extract_routes_info to_case scope method.attrs method.sig controller_path ids) [
        | none ↦ none
        | some ([], ids') ↦ some (none, ids')
        | some (route ∷ routes, ids') ↦ some (some (handler_with method route routes), ids')
      ]

  unfoldable pub extract_handlers :
      Str → List Method → List Str → Option (List (HandlerInfo Response) × List Str)
  unfolding extract_handler_info
  extract_handlers controller_path [] ids = some ([], ids)
  extract_handlers controller_path (m ∷ methods) ids =
      elim (extract_handler_info controller_path m ids) [
        | none ↦ none
        | some (handler, ids') ↦ elim (extract_handlers controller_path methods ids') [
          | none ↦ none
          | some (rest, ids'') ↦ some (elim handler [ none ↦ rest | some h ↦ h ∷ rest ], ids'')
        ]
      ]

  -- The controller that an attribute declares
  unfoldable pub controller_of :
      Str → Attribute → List Method → List Str → Option (ControllerInfo Response × List Str)
  unfolding set_from extract_handlers base_path short_name
  controller_of controller_name attr methods ids =
      let c = set_from attr.parsed (record {
        controller_name = controller_name;
        name = short_name controller_name;
        version = none;
        prefix = none;
        handlers = [];
      }) in
      elim (extract_handlers (base_path c) methods ids) [
        | none ↦ none
        | some (handlers, ids') ↦ some (record c { handlers = handlers }, ids')
      ]

  abbrev pub self_ident : SynType → Option Str
  self_ident (path_type (segment name args rest)) = some name
  self_ident _ = none

  abbrev pub is_controller : AttrPath → Bool
  is_controller p = elim (first_ident p.segments) [
    | none ↦ false
    | some ident ↦ str_eq ident (codes "controller")
  ]

  -- `extract_controller_info`: the first attribute that is `controller` counts.
  unfoldable pub extract_controller_info :
      List Attribute
      → SynType
      → List Method
      → List Str
      → Option (Option (ControllerInfo Response) × List Str)
  unfolding controller_of str_eq
  extract_controller_info [] self_ty methods ids = some (none, ids)
  extract_controller_info (attr ∷ attrs) self_ty methods ids =
      let rest = extract_controller_info attrs self_ty methods ids in
      elim (self_ident self_ty) [
        | none ↦ rest
        | some controller_name ↦
            if is_controller attr.path
            then elim (controller_of controller_name attr methods ids) [
              | none ↦ none
              | some (c, ids') ↦ some (some c, ids')
            ]
            else rest
      ]
