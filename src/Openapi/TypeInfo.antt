-- ===== src/Openapi/TypeInfo.antt =====
-- saphir_cli/src/openapi/generate/type_info.rs: what a type of the source is for the document. `definition` finds the
-- structure or enumeration of a path, and `parse_u32` reads the text of an integer.
use saphir.Base.{ℕ, Bool, true, false, ◌||◌, List, [], ◌∷◌, ◌++◌, Option, none, some, if◌then◌else◌}
use saphir.Text.{Str, codes, str_eq}
use saphir.Openapi.Syn.{
  Lit, str, int, other, Attribute, SynType, path_type, array_type, reference_type, other_type,
  Segments, end, segment, Arguments, angle_bracketed, no_arguments, GenericArguments, closed,
  type_argument, other_argument, idents,
}
use saphir.Openapi.Attributes.{find_macro_attribute_flag, find_macro_attribute_named_value, text_of}
use saphir.Openapi.Schema.{is_one_of}

pub record TypeInfo : Type 0 where
  pub name : Str
  pub type_path : Option Str
  pub is_type_serializable : Bool
  pub is_type_deserializable : Bool
  pub is_array : Bool
  pub is_optional : Bool
  pub is_dictionary : Bool
  pub min_array_len : Option ℕ
  pub max_array_len : Option ℕ
  pub mime : Option Str
  pub rename : Option Str

-- A definition that was found: the path of its module, and its attributes
pub record Definition : Type 0 where
  pub scope_path : Str
  pub attrs : List Attribute

-- `join("::")`
unfoldable pub join_path : List Str → Str
join_path [] = []
join_path (ident ∷ []) = ident
join_path (ident ∷ next ∷ rest) = ident ++ (codes "::" ++ join_path (next ∷ rest))

abbrev pub is_container : Str → Bool
is_container name = is_one_of (codes "Vec" ∷ codes "Option" ∷ codes "HashMap" ∷ []) name

unfoldable pub is_primitive_name : Str → Bool
unfolding str_eq
is_primitive_name = is_one_of (
    codes "u8"
    ∷ codes "u16"
    ∷ codes "u32"
    ∷ codes "u64"
    ∷ codes "u128"
    ∷ codes "usize"
    ∷ codes "i8"
    ∷ codes "i16"
    ∷ codes "i32"
    ∷ codes "i64"
    ∷ codes "i128"
    ∷ codes "isize"
    ∷ codes "f32"
    ∷ codes "f64"
    ∷ codes "bool"
    ∷ codes "Boolean"
    ∷ codes "string"
    ∷ codes "String"
    ∷ [])

-- The mark that a container puts on the type in it
unfoldable pub mark_container : Str → TypeInfo → TypeInfo
unfolding str_eq
mark_container name info =
    if str_eq name (codes "Vec")
    then record info { is_array = true }
    else if str_eq name (codes "Option")
    then record info { is_optional = true }
    else record info { is_dictionary = true }

-- A flag or a text of the attributes of the definition, where there is one
abbrev pub defined_flag : Option Definition → Str → Str → Bool
defined_flag none macro_name value_name = false
defined_flag (some d) macro_name value_name =
    find_macro_attribute_flag d.attrs macro_name value_name

abbrev pub defined_text : Option Definition → Str → Str → Option Str
defined_text none macro_name value_name = none
defined_text (some d) macro_name value_name =
    text_of (find_macro_attribute_named_value d.attrs macro_name value_name)

-- What a path that is no container is
unfoldable pub info_of : Str → Option Definition → TypeInfo
unfolding is_primitive_name find_macro_attribute_flag find_macro_attribute_named_value
info_of name definition = record {
  name = name;
  type_path = elim definition [ none ↦ none | some d ↦ some d.scope_path ];
  is_type_serializable =
      is_primitive_name name || defined_flag definition (codes "derive") (codes "Serialize");
  is_type_deserializable =
      is_primitive_name name || defined_flag definition (codes "derive") (codes "Deserialize");
  is_array = false;
  is_optional = false;
  is_dictionary = false;
  min_array_len = none;
  max_array_len = none;
  mime = defined_text definition (codes "openapi") (codes "mime");
  rename = defined_text definition (codes "openapi") (codes "name");
}

abbrev pub length_of : (Str → Option ℕ) → Option Lit → Option ℕ
length_of parse_u32 (some (int text)) = parse_u32 text
length_of parse_u32 (some (str _)) = none
length_of parse_u32 (some other) = none
length_of parse_u32 none = none

module _ (definition : Str → Option Definition) (parse_u32 : Str → Option ℕ) where
  unfoldable mutual
    unfolding mark_container info_of join_path str_eq

    -- `TypeInfo::new`
    pub type_info : SynType → Option TypeInfo
    type_info (path_type path) = path_info (idents path) path
    type_info (array_type elem len) = elim (type_info elem) [
      | none ↦ none
      | some info ↦ some (record info {
        is_array = true;
        min_array_len = length_of parse_u32 len;
        max_array_len = length_of parse_u32 len;
      })
    ]
    type_info (reference_type elem) = type_info elem
    type_info other_type = none

    -- `TypeInfo::new_from_path`, with the names of the whole path, at its last segment
    pub path_info : List Str → Segments → Option TypeInfo
    path_info whole end = none
    path_info whole (segment name args end) =
        let inner = container_info args in
        if is_container name
        then elim inner [ none ↦ none | some info ↦ some (mark_container name info) ]
        else some (info_of name (definition (join_path whole)))
    path_info whole (segment name args (segment name' args' rest)) =
        path_info whole (segment name' args' rest)

    -- The type in the arguments of a container
    pub container_info : Arguments → Option TypeInfo
    container_info (angle_bracketed args) = elim (last_type args) [ none ↦ none | some info ↦ info ]
    container_info no_arguments = none

    -- The last argument that is a type
    pub last_type : GenericArguments → Option (Option TypeInfo)
    last_type closed = none
    last_type (type_argument t rest) = elim (last_type rest) [
      | some info ↦ some info
      | none ↦ some (type_info t)
    ]
    last_type (other_argument rest) = last_type rest
