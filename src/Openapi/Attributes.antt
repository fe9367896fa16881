-- ===== src/Openapi/Attributes.antt =====
-- saphir_cli/src/openapi/generate/utils.rs: flags and named values in attributes, and the name of a field.
pub mod Occurs
use saphir.Base.{Bool, false, ◌||◌, List, [], ◌∷◌, Option, none, some, if◌then◌else◌, or_else}
use saphir.Text.{Str, codes, str_eq}
use saphir.Openapi.Syn.{
  AttrPath, get_ident, Lit, str, Meta, path, list, name_value, NestedMetas, nil, meta, lit,
  Attribute,
}

pub data Case : Type 0 where
  lower upper pascal camel snake screaming_snake kebab cobol : Case

unfoldable pub case_from_serde_rename_str : Str → Option Case
unfolding str_eq
case_from_serde_rename_str name =
    if str_eq name (codes "lowercase")
    then some lower
    else if str_eq name (codes "UPPERCASE")
    then some upper
    else if str_eq name (codes "PascalCase")
    then some pascal
    else if str_eq name (codes "camelCase")
    then some camel
    else if str_eq name (codes "snake_case")
    then some snake
    else if str_eq name (codes "SCREAMING_SNAKE_CASE")
    then some screaming_snake
    else if str_eq name (codes "kebab-case")
    then some kebab
    else if str_eq name (codes "SCREAMING-KEBAB-CASE")
    then some cobol
    else none

-- Whether a path is the given identifier
abbrev pub is_ident : Str → AttrPath → Bool
is_ident name p = elim (get_ident p) [ none ↦ false | some ident ↦ str_eq ident name ]

unfoldable mutual
  -- `find_macro_attribute_flag_from_meta`
  pub flag_from_meta : Meta → Str → Bool
  flag_from_meta (list p nested) value_name = flag_from_nested nested value_name
  flag_from_meta (path p) value_name = is_ident value_name p
  flag_from_meta (name_value p value) value_name = false

  pub flag_from_nested : NestedMetas → Str → Bool
  flag_from_nested nil value_name = false
  flag_from_nested (meta nm rest) value_name =
      flag_from_meta nm value_name || flag_from_nested rest value_name
  flag_from_nested (lit l rest) value_name = flag_from_nested rest value_name

unfoldable mutual
  -- `find_macro_attribute_value_from_meta`
  pub value_from_meta : Meta → Str → Option Lit
  value_from_meta (list p nested) value_name = value_from_nested nested value_name
  value_from_meta (name_value p value) value_name =
      if is_ident value_name p then some value else none
  value_from_meta (path p) value_name = none

  pub value_from_nested : NestedMetas → Str → Option Lit
  value_from_nested nil value_name = none
  value_from_nested (meta nm rest) value_name =
      or_else (value_from_meta nm value_name) (value_from_nested rest value_name)
  value_from_nested (lit l rest) value_name = value_from_nested rest value_name

-- `find_macro_attribute_flag`: an attribute that does not parse is passed over.
unfoldable pub find_macro_attribute_flag : List Attribute → Str → Str → Bool
unfolding flag_from_meta
find_macro_attribute_flag [] macro_name value_name = false
find_macro_attribute_flag (attr ∷ attrs) macro_name value_name =
    let rest = find_macro_attribute_flag attrs macro_name value_name in
    if is_ident macro_name attr.path
    then elim attr.parsed [ none ↦ rest | some m ↦ flag_from_meta m value_name || rest ]
    else rest

unfoldable pub find_macro_attribute_named_value : List Attribute → Str → Str → Option Lit
unfolding value_from_meta
find_macro_attribute_named_value [] macro_name value_name = none
find_macro_attribute_named_value (attr ∷ attrs) macro_name value_name =
    let rest = find_macro_attribute_named_value attrs macro_name value_name in
    if is_ident macro_name attr.path
    then elim attr.parsed [ none ↦ rest | some m ↦ or_else (value_from_meta m value_name) rest ]
    else rest

-- The value of a literal that is a text
abbrev pub text_of : Option Lit → Option Str
text_of (some (str s)) = some s
text_of _ = none

-- `get_serde_field`; `to_case` is the conversion of the crate `convert_case`.
unfoldable pub get_serde_field :
    (Str → Case → Str) → Str → List Attribute → List Attribute → Option Str
unfolding find_macro_attribute_flag find_macro_attribute_named_value case_from_serde_rename_str
get_serde_field to_case field_name field_attributes container_attributes =
    if find_macro_attribute_flag field_attributes (codes "serde") (codes "skip")
      || find_macro_attribute_flag field_attributes (codes "serde") (codes "skip_serializing")
    then none
    else elim (text_of
        (find_macro_attribute_named_value field_attributes (codes "serde") (codes "rename"))) [
          | some rename ↦ some rename
          | none ↦
              elim (text_of (
                find_macro_attribute_named_value container_attributes (codes "serde")
                  (codes "rename_all"))) [
                    | none ↦ some field_name
                    | some rename ↦ elim (case_from_serde_rename_str rename) [
                      | some case ↦ some (to_case field_name case)
                      | none ↦ some field_name
                    ]
                  ]
        ]
