-- ===== src/Openapi/Crate.antt =====
-- saphir_cli/src/openapi/generate/mod.rs, `load_controllers`: the controllers of all items of a crate. The search of the
-- crate for its items is an argument.
pub mod Ids
use saphir.Base.{ℕ, List, [], ◌∷◌, Option, none, some}
use saphir.Text.{Str}
use saphir.Openapi.Syn.{Attribute, SynType}
use saphir.Openapi.TypeInfo.{Definition}
use saphir.Openapi.Controllers.{ControllerInfo, Method, extract_controller_info}

-- An implementation block, and the path of its module
pub record Impl : Type 0 where
  pub scope_path : Str
  pub attrs : List Attribute
  pub self_ty : SynType
  pub methods : List Method

-- An item of the crate; those that are no implementation blocks are not told apart.
pub data Item : Type 0 where
  impl_item : Impl → Item
  other_item : Item

module _ {Response : Type 0} (to_case : Str → Str) (scope : Str)
    (definition_in : Str → Str → Option Definition) (parse_u32 : Str → Option ℕ)
    (responses_of : Str → Method → List Response) where
  abbrev pub extract_item : Item → List Str → Option (Option (ControllerInfo Response) × List Str)
  extract_item other_item ids = some (none, ids)
  extract_item (impl_item im) ids =
      extract_controller_info to_case scope (definition_in im.scope_path) parse_u32
        (responses_of im.scope_path) im.attrs im.self_ty im.methods ids

  abbrev pub with_controller :
      Option (ControllerInfo Response)
      → List (ControllerInfo Response)
      → List (ControllerInfo Response)
  with_controller none controllers = controllers
  with_controller (some c) controllers = c ∷ controllers

  -- The controllers, and the operation ids in use after them
  unfoldable pub load_controllers :
      List Item → List Str → Option (List (ControllerInfo Response) × List Str)
  unfolding extract_controller_info
  load_controllers [] ids = some ([], ids)
  load_controllers (item ∷ items) ids = elim (extract_item item ids) [
    | none ↦ none
    | some (controller, ids') ↦ elim (load_controllers items ids') [
      | none ↦ none
      | some (controllers, ids'') ↦ some (with_controller controller controllers, ids'')
    ]
  ]
