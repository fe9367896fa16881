-- ===== src/Openapi/Responses.antt =====
-- saphir_cli/src/openapi/generate/response_info.rs: the responses of a handler, out of its type. The types that
-- attributes give, which `openapitype_from_raw` reads, are left out.
pub mod Codes
use saphir.Base.{
  ℕ, true, ◌||◌, ◌&&◌, leb, ltb, List, [], ◌∷◌, ◌++◌, Option, none, some, if◌then◌else◌, unwrap_or,
  map,
}
use saphir.Text.{Str, codes, str_eq}
use saphir.Openapi.Syn.{
  get_ident, Lit, str, int, other, path, list, name_value, NestedMetas, nil, meta, lit, SynType,
  path_type, array_type, reference_type, other_type, Segments, end, segment, Arguments,
  angle_bracketed, no_arguments, GenericArguments, closed, type_argument, other_argument, idents,
}
use saphir.Openapi.Schema.{MimeType, json, form, any_mime, mime_from, Schema}
use saphir.Openapi.TypeInfo.{TypeInfo, Definition, path_info}

pub record AnonymousType : Type 0 where
  pub schema : Schema
  pub name : Option Str

pub record ResponseInfo : Type 0 where
  pub code : ℕ
  pub info : Option TypeInfo
  pub mime : MimeType
  pub anonymous_type : Option AnonymousType

-- A response, with the code that was chosen for it
abbrev pub Coded : Type 0
Coded = Option ℕ × ResponseInfo

-- The code of a response in a `Result` or an `Option`: the one that was chosen, or this one
abbrev pub with_code : ℕ → Coded → ResponseInfo
with_code default (code, r) = record r { code = unwrap_or code default }

-- `results.remove(1)` and `results.remove(0)` of a `Result`: first the errors
unfoldable pub result_responses : List (List Coded) → List Coded
result_responses (successes ∷ errors ∷ []) =
    map (λ (r : Coded). (some (with_code 500 r).code, with_code 500 r)) errors
    ++ map (λ (r : Coded). (some (with_code 200 r).code, with_code 200 r)) successes
result_responses [] = []
result_responses (_ ∷ []) = []
result_responses (_ ∷ _ ∷ _ ∷ _) = []

abbrev pub not_found_response : Coded
not_found_response =
    (some 404, record { code = 404; info = none; mime = any_mime; anonymous_type = none })

-- Each response of an `Option` is followed by one with 404.
abbrev pub or_not_found : List Coded → List Coded
or_not_found [] = []
or_not_found (r ∷ responses) = (r.0, with_code 200 r) ∷ not_found_response ∷ or_not_found responses

-- The only argument of another container, with a change of its responses
abbrev pub only_argument : List (List Coded) → List Coded
only_argument (responses ∷ []) = responses
only_argument [] = []
only_argument (_ ∷ _ ∷ _) = []

abbrev pub array_of : Coded → Coded
array_of (code, r) = elim r.info [
  | none ↦ (none, r)
  | some info ↦ (none, record r { info = some (record info { is_array = true }) })
]

abbrev pub with_mime : MimeType → Coded → Coded
with_mime mime (code, r) = (none, record r { mime = mime })

abbrev pub without_code : Coded → Coded
without_code (code, r) = (none, r)

-- What a type that is no container answers
unfoldable pub plain_response : Option TypeInfo → Coded
unfolding mime_from
plain_response none =
    (none, record { code = 200; info = none; mime = any_mime; anonymous_type = none })
plain_response (some info) = (
  none,
  record {
    code = 200;
    info = some info;
    mime = elim info.mime [ none ↦ any_mime | some m ↦ mime_from m ];
    anonymous_type = none;
  },
)

-- The responses of a type by its name and those of its arguments; `plain` is used for other names.
unfoldable pub named_responses : Str → List (List Coded) → Coded → List Coded
unfolding str_eq result_responses
named_responses name arguments plain =
    if str_eq name (codes "Result")
    then result_responses arguments
    else if str_eq name (codes "Option")
    then or_not_found (only_argument arguments)
    else if str_eq name (codes "Vec")
    then map array_of (only_argument arguments)
    else if str_eq name (codes "Json") || str_eq name (codes "JsonContent")
    then map (with_mime json) (only_argument arguments)
    else if str_eq name (codes "Form")
    then map (with_mime form) (only_argument arguments)
    else if str_eq name (codes "NoCache")
    then map without_code (only_argument arguments)
    else plain ∷ []

module _ (definition : Str → Option Definition) (parse_u32 : Str → Option ℕ) where
  unfoldable mutual
    unfolding named_responses plain_response path_info

    -- `response_info_from_type_path`, with the whole path, at its last segment
    pub path_responses : Segments → Segments → List Coded
    path_responses whole end = []
    path_responses whole (segment name args end) =
        named_responses name (argument_responses args)
          (plain_response (path_info definition parse_u32 (idents whole) whole))
    path_responses whole (segment _ _ (segment name args rest)) =
        path_responses whole (segment name args rest)

    -- `extract_arguments`: the arguments that are paths
    pub argument_responses : Arguments → List (List Coded)
    argument_responses (angle_bracketed args) = each_argument args
    argument_responses no_arguments = []

    pub each_argument : GenericArguments → List (List Coded)
    each_argument closed = []
    each_argument (type_argument (path_type p) rest) = path_responses p p ∷ each_argument rest
    each_argument (type_argument (array_type _ _) rest) = each_argument rest
    each_argument (type_argument (reference_type _) rest) = each_argument rest
    each_argument (type_argument other_type rest) = each_argument rest
    each_argument (other_argument rest) = each_argument rest

  unfoldable pub response_info_from_type : SynType → List Coded
  unfolding path_responses
  response_info_from_type (path_type p) = path_responses p p
  response_info_from_type (array_type _ _) = []
  response_info_from_type (reference_type _) = []
  response_info_from_type other_type = []

  -- The responses of a method without attributes of its own: there is always one.
  unfoldable pub responses_of_type : Option SynType → List ResponseInfo
  unfolding response_info_from_type
  responses_of_type output =
      or_default (elim output [ none ↦ [] | some t ↦ response_info_from_type t ])
    where
      or_default : List Coded → List ResponseInfo
      or_default [] =
          record { code = 200; info = none; mime = any_mime; anonymous_type = none } ∷ []
      or_default (r ∷ responses) = map (λ (c : Coded). c.1) (r ∷ responses)

-- What an attribute `return` gives
pub record Return : Type 0 where
  pub codes_of : List ℕ
  pub types : List Str
  pub mime : Option Str
  pub name : Option Str

abbrev pub no_return : Return
no_return = record { codes_of = []; types = []; mime = none; name = none }

-- A code outside 100 to 599, and one that does not parse, is passed over.
abbrev pub add_code : Option ℕ → Return → Return
add_code none r = r
add_code (some c) r =
    if leb 100 c && ltb c 600 then record r { codes_of = r.codes_of ++ (c ∷ []) } else r

module _ (parse_u16 : Str → Option ℕ) where
  unfoldable pub set_return : Str → Lit → Return → Return
  unfolding str_eq
  set_return field (int text) r =
      if str_eq field (codes "code") then add_code (parse_u16 text) r else r
  set_return field (str s) r =
      if str_eq field (codes "type")
      then record r { types = r.types ++ (s ∷ []) }
      else if str_eq field (codes "mime")
      then record r { mime = some s }
      else if str_eq field (codes "name")
      then record r { name = some s }
      else r
  set_return field other r = r

  unfoldable pub read_return : NestedMetas → Return → Return
  unfolding set_return
  read_return nil r = r
  read_return (lit _ rest) r = read_return rest r
  read_return (meta (path _) rest) r = read_return rest r
  read_return (meta (list _ _) rest) r = read_return rest r
  read_return (meta (name_value p value) rest) r = elim (get_ident p) [
    | none ↦ read_return rest r
    | some field ↦ read_return rest (set_return field value r)
  ]

-- The pairs of codes and types: one code with all types, or all codes with one type
unfoldable pub pairs_of : List ℕ → List Str → List (ℕ × Str)
pairs_of (code ∷ []) types = map (λ t. (code, t)) types
pairs_of (code ∷ code' ∷ rest) (t ∷ []) = map (λ c. (c, t)) (code ∷ code' ∷ rest)
pairs_of (code ∷ code' ∷ rest) [] = []
pairs_of (code ∷ code' ∷ rest) (_ ∷ _ ∷ _) = []
pairs_of [] types = []
