-- ===== src/Openapi/Types.antt =====
-- saphir_cli/src/openapi/generate/mod.rs: the schemas of the structures and enumerations of a crate. `item_at` finds the
-- one of a name at a path as seen from a module, and `definition_in` what a path in a module stands for.
pub mod References
pub mod Closed
pub mod Recursive
use saphir.Base.{
  ℕ, zero, suc, Bool, true, false, ◌&&◌, not, List, [], ◌∷◌, ◌++◌, Option, none, some,
  if◌then◌else◌, unwrap_or,
}
use saphir.Text.{Str, codes}
use saphir.Openapi.Syn.{SynType, Attribute}
use saphir.Openapi.Attributes.{
  Case, get_serde_field, find_macro_attribute_flag, find_macro_attribute_named_value,
}
use saphir.Openapi.Schema.{
  Schema, inline, OpenApiType, array, object_of, dictionary, Properties, nil, property,
  insert_property, object, enums, string, anonymous_input_object, from_rust_type_str,
  SchemaGranularity, is_all,
}
use saphir.Openapi.Schemas.{Gen, get_schema}
use saphir.Openapi.TypeInfo.{TypeInfo, Definition, type_info}

-- A field of a structure, which has a name where it is no tuple
pub record SynField : Type 0 where
  pub ident : Option Str
  pub ty : SynType
  pub attrs : List Attribute

pub record Variant : Type 0 where
  pub ident : Str
  pub is_unit : Bool
  pub attrs : List Attribute

-- A structure or an enumeration, with the path of its module
pub data TypeItem : Type 0 where
  struct_item : Str → List SynField → List Attribute → TypeItem
  enum_item : Str → List Variant → List Attribute → TypeItem

abbrev pub dictionary_of : Schema → OpenApiType
dictionary_of schema = object_of (dictionary nil schema)

-- A schema as the array or the dictionary that its type is
abbrev pub wrapped : TypeInfo → Schema → Schema
wrapped info schema =
    if info.is_array
    then inline (array schema info.min_array_len info.max_array_len)
    else if info.is_dictionary
    then inline (dictionary_of schema)
    else schema

-- The type of a name that is no item of the crate
abbrev pub raw_type : Str → OpenApiType
raw_type name = unwrap_or (from_rust_type_str name) string

abbrev pub all_unit : List Variant → Bool
all_unit [] = true
all_unit (v ∷ variants) = v.is_unit && all_unit variants

abbrev pub is_nil : Properties → Bool
is_nil nil = true
is_nil (property _ _ _) = false

-- What a search gives: none where it ran out of fuel
abbrev pub Outcome : Type 0
Outcome = Option (Option Schema × Gen)

-- Whether a field of the name has to be there
abbrev pub is_required : SynField → TypeInfo → Bool
is_required field info =
    not info.is_optional
    && (not (find_macro_attribute_flag field.attrs (codes "serde") (codes "default")) && no_default)
  where
    no_default : Bool
    no_default =
        elim (find_macro_attribute_named_value field.attrs (codes "serde") (codes "default")) [
          | none ↦ true
          | some _ ↦ false
        ]

-- The schema of a field, where the search for its type gave this
abbrev pub field_schema : TypeInfo → Option Schema → Schema
field_schema info (some schema) = schema
field_schema info none = wrapped info (inline (raw_type (unwrap_or info.rename info.name)))

abbrev pub with_required : Bool → Str → List Str → List Str
with_required true name required = required ++ (name ∷ [])
with_required false name required = required

abbrev pub struct_type : Properties → List Str → OpenApiType
struct_type properties required =
    if is_nil properties then anonymous_input_object else object properties required

module _ (to_case : Str → Case → Str) where
  abbrev pub field_name_of : List Attribute → SynField → Option Str
  field_name_of attrs field = elim field.ident [
    | none ↦ none
    | some ident ↦ get_serde_field to_case ident field.attrs attrs
  ]

  abbrev pub values_of : List Attribute → List Variant → List Str
  values_of attrs [] = []
  values_of attrs (v ∷ variants) = elim (get_serde_field to_case v.ident v.attrs attrs) [
    | none ↦ values_of attrs variants
    | some name ↦ name ∷ values_of attrs variants
  ]

module _ (to_case : Str → Case → Str) (definition_in : Str → Str → Option Definition)
    (item_at : Str → Str → Str → Option TypeItem) (parse_u32 : Str → Option ℕ)
    (granularity : SchemaGranularity) where
  -- The loop over the fields of a structure, where `search` finds the schema of a type
  unfoldable pub fields_of :
      (TypeInfo → Gen → Outcome)
      → Str
      → List Attribute
      → List SynField
      → Properties
      → List Str
      → Gen
      → Option ((Properties × List Str) × Gen)
  fields_of search scope attrs [] properties required gen = some ((properties, required), gen)
  fields_of search scope attrs (field ∷ fields) properties required gen =
      elim (field_name_of to_case attrs field) [
        | none ↦ fields_of search scope attrs fields properties required gen
        | some name ↦ elim (type_info (definition_in scope) parse_u32 field.ty) [
          | none ↦ fields_of search scope attrs fields properties required gen
          | some info ↦ elim (search info gen) [
            | none ↦ none
            | some (found, gen') ↦
                fields_of search scope attrs fields
                  (insert_property name (field_schema info found) properties)
                  (with_required (is_required field info) name required) gen'
          ]
        ]
      ]

  -- `get_open_api_type_from_struct`
  unfoldable pub struct_schema :
      (TypeInfo → Gen → Outcome)
      → Str
      → Str
      → List SynField
      → List Attribute
      → Bool
      → Gen
      → Option (Schema × Gen)
  unfolding fields_of get_schema
  struct_schema search name scope fields attrs as_ref gen =
      elim (fields_of search scope attrs fields nil [] gen) [
        | none ↦ none
        | some ((properties, required), gen') ↦
            some (
              get_schema granularity name (some scope) (struct_type properties required) as_ref
                gen')
      ]

  -- `get_open_api_type_from_enum`
  unfoldable pub enum_schema : Str → Str → List Variant → List Attribute → Bool → Gen → Schema × Gen
  unfolding get_schema
  enum_schema name scope variants attrs as_ref gen =
      let ty =
        if all_unit variants
        then enums (values_of to_case attrs variants)
        else anonymous_input_object in
      get_schema granularity name (some scope) ty as_ref gen

  -- `get_open_api_schema_from_type_info`, with a bound of the depth of the types; a type that is no item has no schema.
  unfoldable pub schema_of : ℕ → Str → TypeInfo → Bool → Gen → Outcome
  unfolding struct_schema enum_schema
  schema_of zero scope info as_ref gen = none
  schema_of (suc fuel) scope info as_ref gen = elim info.type_path [
    | none ↦ some (none, gen)
    | some path ↦ elim (item_at scope path info.name) [
      | none ↦ some (none, gen)
      | some (struct_item at fields attrs) ↦
          elim (struct_schema (λ i. schema_of fuel at i (is_all granularity && as_ref)) info.name at
            fields attrs as_ref gen) [
              | none ↦ none
              | some (schema, gen') ↦ some (some (wrapped info schema), gen')
            ]
      | some (enum_item at variants attrs) ↦
          let (schema, gen') = enum_schema info.name at variants attrs as_ref gen in
          some (some (wrapped info schema), gen')
    ]
  ]
