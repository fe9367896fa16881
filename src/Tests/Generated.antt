-- ===== src/Tests/Generated.antt =====
-- Documents out of crates with a structure that holds a number, and with one that holds itself.
use saphir.Base.{
  ℕ, ◌<◌, ◌≡◌, refl, true, false, List, [], ◌∷◌, Option, none, some, if◌then◌else◌, Bool-cases, inl,
  inr, arith,
}
use saphir.Base.Dict.{get}
use saphir.Text.{Str, codes, str_eq}
use saphir.Openapi.Syn.{
  SynType, path_type, segment, end, no_arguments, angle_bracketed, type_argument, closed,
}
use saphir.Openapi.Attributes.{
  Case, get_serde_field, find_macro_attribute_flag, find_macro_attribute_named_value,
}
use saphir.Openapi.Schema.{any_mime, top}
use saphir.Openapi.Schema
use saphir.Openapi.Schemas.{Gen}
use saphir.Openapi.TypeInfo.{TypeInfo, Definition, type_info}
use saphir.Openapi.Types.{SynField, TypeItem, struct_item, schema_of}
use saphir.Openapi.Types.References.{Closed}
use saphir.Openapi.Types.Closed.{Falls}
use saphir.Openapi.Types.Recursive.{schema_of-eq-none}
use saphir.Openapi.Responses.{ResponseInfo}
use saphir.Openapi.Controllers.{ControllerInfo}
use saphir.Openapi.Document.{Doc}
use saphir.Openapi.Fill.{fill_controllers}
use saphir.Openapi.Fill.Leads.{Fills}
use saphir.Openapi.Fill.Whole.{search_in, fill_controllers-DocLeads}

abbrev same_case : Str → Case → Str
same_case name case = name

abbrev no_number : Str → Option ℕ
no_number s = none

abbrev user : Str
user = codes "User"

abbrev plain_path : Str → SynType
plain_path name = path_type (segment name no_arguments end)

abbrev field : Str → SynType → SynField
field name ty = record { ident = some name; ty = ty; attrs = [] }

abbrev info_for : Str → TypeInfo
info_for name = record {
  name = name;
  type_path = some (codes "app");
  is_type_serializable = true;
  is_type_deserializable = true;
  is_array = false;
  is_optional = false;
  is_dictionary = false;
  min_array_len = none;
  max_array_len = none;
  mime = none;
  rename = none;
}

-- `struct User { id: u64 }`
abbrev flat_fields : List SynField
flat_fields = field (codes "id") (plain_path (codes "u64")) ∷ []

abbrev no_definition : Str → Str → Option Definition
no_definition scope path = none

abbrev flat_item_at : Str → Str → Str → Option TypeItem
flat_item_at scope path name =
    if str_eq name user then some (struct_item (codes "app") flat_fields []) else none

abbrev rank : Str → TypeInfo → ℕ
rank scope info = if str_eq info.name user then 1 else 0

u64_below :
    (scope at : Str) (info i : TypeInfo)
    → str_eq info.name user ≡ true
    → type_info (no_definition at) no_number (plain_path (codes "u64")) ≡ some i
    → rank at i < rank scope info
unfolding type_info str_eq
u64_below scope at info i same t =
    let name_eq : codes "u64" ≡ i.name = cc in rw (same, ← name_eq) (omega arith)

flat-Falls : Falls same_case no_definition flat_item_at no_number top rank
flat-Falls scope path info at fields attrs e = elim (Bool-cases (str_eq info.name user)) [
  | inl same ↦
      let found = rw same at e in
      let fields_eq : flat_fields ≡ fields = cc in
      rw (← fields_eq) ((λ i t. u64_below scope at info i same t), tt)
  | inr other ↦ let found = rw other at e in absurd (cc)
]

rank_below : (scope : Str) (info : TypeInfo) → rank scope info < 2
rank_below scope info = ground arith

abbrev empty_gen : Gen
empty_gen = record { schemas = []; generated_schema_names = [] }

empty-Closed : Closed empty_gen
unfolding get
empty-Closed r t e = absurd (cc)

-- `GET /users` answers with a `User`.
abbrev users : ControllerInfo ResponseInfo
users = record {
  controller_name = codes "UsersController";
  name = codes "users";
  version = some (codes "1");
  prefix = none;
  handlers =
      record {
        use_cookies = false;
        parameters = [];
        body_info = none;
        routes =
            record {
              method = Schema.get;
              uri = codes "/users";
              uri_params = [];
              operation_id = codes "list";
              operation_name = codes "list";
            }
            ∷ [];
        responses =
            record {
              code = 200;
              info = some (info_for user);
              mime = any_mime;
              anonymous_type = none;
            }
            ∷ [];
      }
      ∷ [];
}

abbrev no_reason : ℕ → Option Str
no_reason code = none

abbrev no_doc : Doc
no_doc = record { tags = []; paths = [] }

fill_controllers-DocLeads_example : Fills empty_gen (
    fill_controllers
      (search_in same_case no_definition flat_item_at no_number top [] 2)
      top
      no_reason
      (users ∷ [])
      no_doc
      empty_gen)
fill_controllers-DocLeads_example =
    fill_controllers-DocLeads same_case no_definition flat_item_at no_number top rank flat-Falls []
      2 (rank_below []) no_reason (users ∷ []) no_doc empty_gen empty-Closed
      (((tt, (tt, tt)), tt), tt) tt

-- `struct User { friends: Vec<User> }`
abbrev friends : SynField
friends = field (codes "friends") (
    path_type
      (segment (codes "Vec") (angle_bracketed (type_argument (plain_path user) closed)) end))

abbrev app_definition : Str → Str → Option Definition
app_definition scope path = some (record { scope_path = codes "app"; attrs = [] })

abbrev own_item_at : Str → Str → Str → Option TypeItem
own_item_at scope path name =
    if str_eq name user then some (struct_item (codes "app") (friends ∷ []) []) else none

abbrev friends_info : TypeInfo
friends_info = record (info_for user) {
  is_type_serializable = false;
  is_type_deserializable = false;
  is_array = true;
}

schema_of-eq-none_example :
    schema_of same_case app_definition own_item_at no_number top 100 []
      (info_for user)
      true
      empty_gen
    ≡ none
unfolding type_info str_eq get_serde_field find_macro_attribute_flag
    find_macro_attribute_named_value
schema_of-eq-none_example =
    schema_of-eq-none same_case app_definition own_item_at no_number top (codes "app")
      (friends ∷ []) []
      ([], [], friends, codes "friends", friends_info, refl, refl, refl, (codes "app", refl, refl))
      100 [] (info_for user) true empty_gen (codes "app", refl, refl)
