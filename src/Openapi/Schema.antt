-- ===== src/Openapi/Schema.antt =====
-- saphir_cli/src/openapi/schema.rs: the parts of a document. A `BTreeMap` is a list of its entries by key.
pub mod Tags
use saphir.Base.{
  ℕ, Bool, true, false, not, ◌&&◌, List, [], ◌∷◌, Option, none, some, if◌then◌else◌, is_empty, ◌||◌,
  ltb, ◌==◌, any,
}
use saphir.Text.{Str, codes, str_eq}

pub data MimeType : Type 0 where
  json form any_mime : MimeType
  other_mime : Str → MimeType

unfoldable pub mime_from : Str → MimeType
unfolding str_eq
mime_from s =
    if str_eq s (codes "json") || str_eq s (codes "application/json")
    then json
    else if str_eq s (codes "form") || str_eq s (codes "application/x-www-form-urlencoded")
    then form
    else if str_eq s (codes "any") || str_eq s (codes "*/*")
    then any_mime
    else other_mime s

-- `serialize`, the text that is written
unfoldable pub mime_text : MimeType → Str
mime_text json = codes "application/json"
mime_text form = codes "application/x-www-form-urlencoded"
mime_text any_mime = codes "*/*"
mime_text (other_mime s) = s

-- The visitor of `deserialize`
unfoldable pub mime_visit : Str → MimeType
unfolding str_eq
mime_visit s =
    if str_eq s (codes "application/json")
    then json
    else if str_eq s (codes "application/x-www-form-urlencoded")
    then form
    else if str_eq s (codes "*/*")
    then any_mime
    else other_mime s

pub data PathMethod : Type 0 where
  get post put patch delete any_path_method : PathMethod

unfoldable pub method_from_str : Str → Option PathMethod
unfolding str_eq
method_from_str s =
    if str_eq s (codes "get")
    then some get
    else if str_eq s (codes "post")
    then some post
    else if str_eq s (codes "put")
    then some put
    else if str_eq s (codes "patch")
    then some patch
    else if str_eq s (codes "delete")
    then some delete
    else if str_eq s (codes "any")
    then some any_path_method
    else none

unfoldable pub method_to_str : PathMethod → Str
method_to_str get = codes "get"
method_to_str post = codes "post"
method_to_str put = codes "put"
method_to_str patch = codes "patch"
method_to_str delete = codes "delete"
method_to_str any_path_method = codes "any"

pub data NumberFormat : Type 0 where
  float double int32 int64 : NumberFormat

mutual
  pub data Schema : Type 0 where
    ref : Str → Schema
    inline : OpenApiType → Schema

  pub data OpenApiType : Type 0 where
    string_of : List Str → OpenApiType
    number : Option NumberFormat → OpenApiType
    integer : Option NumberFormat → OpenApiType
    boolean : OpenApiType
    array : Schema → Option ℕ → Option ℕ → OpenApiType
    object_of : ObjectType → OpenApiType

  pub data ObjectType : Type 0 where
    properties_of : Properties → List Str → Bool → ObjectType
    dictionary : Properties → Schema → ObjectType
    ref_object : Str → ObjectType
    anonymous_input : Bool → ObjectType
    anonymous_output : ObjectType

  pub data Properties : Type 0 where
    nil : Properties
    property : Str → Schema → Properties → Properties

-- The order of `str`: by code points
unfoldable pub str_ltb : Str → Str → Bool
str_ltb s [] = false
str_ltb [] (y ∷ ys) = true
str_ltb (x ∷ xs) (y ∷ ys) = ltb x y || (x == y && str_ltb xs ys)

-- `properties.insert(name, schema)`
unfoldable pub insert_property : Str → Schema → Properties → Properties
unfolding str_eq str_ltb
insert_property name schema nil = property name schema nil
insert_property name schema (property n s rest) =
    let later = insert_property name schema rest in
    if str_eq n name
    then property n schema rest
    else if str_ltb name n
    then property name schema (property n s rest)
    else property n s later

pub data SchemaGranularity : Type 0 where
  granularity_none top all_schemas : SchemaGranularity

-- `SchemaGranularity::from_str`; `to_lowercase` is Unicode's.
unfoldable pub granularity_from_str : (Str → Str) → Str → Option SchemaGranularity
unfolding str_eq
granularity_from_str to_lowercase s =
    if str_eq (to_lowercase s) (codes "none")
    then some granularity_none
    else if str_eq (to_lowercase s) (codes "top")
    then some top
    else if str_eq (to_lowercase s) (codes "all")
    then some all_schemas
    else none

abbrev pub is_all : SchemaGranularity → Bool
is_all all_schemas = true
is_all granularity_none = false
is_all top = false

abbrev pub is_none_granularity : SchemaGranularity → Bool
is_none_granularity granularity_none = true
is_none_granularity all_schemas = false
is_none_granularity top = false

unfoldable pub is_primitive : OpenApiType → SchemaGranularity → Bool
is_primitive (object_of _) granularity = false
is_primitive (array _ _ _) granularity = false
is_primitive (string_of enum_values) granularity =
    not (not (is_empty enum_values) && is_all granularity)
is_primitive (number _) granularity = true
is_primitive (integer _) granularity = true
is_primitive boolean granularity = true

abbrev pub string : OpenApiType
string = string_of []

abbrev pub enums : List Str → OpenApiType
enums values = string_of values

abbrev pub object : Properties → List Str → OpenApiType
object properties required = object_of (properties_of properties required false)

abbrev pub anonymous_input_object : OpenApiType
anonymous_input_object = object_of (anonymous_input true)

-- Whether a text is one of those given
abbrev pub is_one_of : List Str → Str → Bool
is_one_of names s = any (str_eq s) names

unfoldable pub from_rust_type_str : Str → Option OpenApiType
unfolding str_eq
from_rust_type_str s =
    if is_one_of (codes "u64" ∷ codes "i64" ∷ []) s
    then some (integer (some int64))
    else if str_eq s (codes "i32")
    then some (integer (some int32))
    else if is_one_of
        (codes "u8"
          ∷ codes "u16"
          ∷ codes "u32"
          ∷ codes "u128"
          ∷ codes "usize"
          ∷ codes "i8"
          ∷ codes "i16"
          ∷ codes "i128"
          ∷ codes "isize"
          ∷ [])
        s
    then some (integer none)
    else if str_eq s (codes "f32")
    then some (number (some float))
    else if str_eq s (codes "f64")
    then some (number (some double))
    else if is_one_of (codes "bool" ∷ codes "Bool" ∷ codes "Boolean" ∷ []) s
    then some boolean
    else if is_one_of (codes "string" ∷ codes "String" ∷ []) s
    then some string
    else none
