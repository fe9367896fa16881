-- ===== src/Openapi/Crate/Ids.antt =====
-- The operation ids of all controllers of a crate.
use saphir.Base.{
  ℕ, ◌+◌, ◌≤◌, ◌<◌, ◌^◌, ◌≡◌, refl, ap, ◌∙◌, List, [], ◌∷◌, Option, none, some, length,
  Option-cases, Bool-cases, inl, inr, arith,
}
use saphir.Text.{Str}
use saphir.Openapi.Syn.{Attribute, SynType}
use saphir.Openapi.Operations.Fresh.{Distinct}
use saphir.Openapi.TypeInfo.{Definition}
use saphir.Openapi.Controllers.{
  ControllerInfo, Method, controller_of, extract_controller_info, set_from, base_path, short_name,
  self_ident, is_controller,
}
use saphir.Openapi.Controllers.Ids.{handler_ids_onto, route_count, extract_handlers-Distinct}
use saphir.Openapi.Crate.{
  Item, impl_item, other_item, extract_item, with_controller, load_controllers,
}

-- The ids of an item's controller, before those in use
abbrev pub item_ids_onto :
    {Response : Type 0} → Option (ControllerInfo Response) → List Str → List Str
item_ids_onto none ids = ids
item_ids_onto (some c) ids = handler_ids_onto c.handlers ids

abbrev pub all_ids_onto : {Response : Type 0} → List (ControllerInfo Response) → List Str → List Str
all_ids_onto [] ids = ids
all_ids_onto (c ∷ controllers) ids = all_ids_onto controllers (handler_ids_onto c.handlers ids)

abbrev pub item_count : Item → ℕ
item_count other_item = 0
item_count (impl_item im) = route_count im.methods

abbrev pub crate_count : List Item → ℕ
crate_count [] = 0
crate_count (item ∷ items) = item_count item + crate_count items

-- A step gives a value and ids of which none stands twice.
abbrev pub Gives :
    {A : Type 0} → (A → List Str → List Str) → Option (A × List Str) → List Str → ℕ → Type 0
Gives {A = A} onto outcome ids count =
    (a : A) × (ids' : List Str) × (outcome ≡ some (a, ids'))
    × (ids' ≡ onto a ids)
    × Distinct ids'
    × (length ids' ≤ count + length ids)

module _ {Response : Type 0} (to_case : Str → Str) (scope : Str) (parse_u32 : Str → Option ℕ) where
  module _ (definition : Str → Option Definition) (responses_of : Method → List Response)
      (self_ty : SynType) (methods : List Method) (ids : List Str)
      (small : route_count methods + length ids + 2 < 2 ^ 31) (d : Distinct ids) where
    controller_of-Gives :
        (controller_name : Str) (attr : Attribute)
        → Gives
            (λ c. handler_ids_onto c.handlers)
            (controller_of to_case scope definition parse_u32 responses_of controller_name attr
              methods ids)
            ids
            (route_count methods)
    unfolding controller_of
    controller_of-Gives controller_name attr =
        let c : ControllerInfo Response = set_from attr.parsed (record {
          controller_name = controller_name;
          name = short_name controller_name;
          version = none;
          prefix = none;
          handlers = [];
        }) in
        let (handlers, ids', e, onto, d', few) =
          extract_handlers-Distinct to_case scope definition parse_u32 responses_of (base_path c)
            methods ids small d in
        (record c { handlers = handlers }, ids', rw (e, controller_of), onto, d', few)

    extract_controller_info-Gives :
        (attrs : List Attribute)
        → Gives item_ids_onto
            (extract_controller_info to_case scope definition parse_u32 responses_of attrs self_ty
              methods ids)
            ids
            (route_count methods)
    unfolding extract_controller_info
    extract_controller_info-Gives [] = (none, ids, refl, refl, d, omega arith)
    extract_controller_info-Gives (attr ∷ attrs) =
        elim (Option-cases (self_ident to_case scope definition parse_u32 responses_of self_ty)) [
          | inl s ↦ rw (s, extract_controller_info) (extract_controller_info-Gives attrs)
          | inr (controller_name, s) ↦
              elim (Bool-cases
                (is_controller to_case scope definition parse_u32 responses_of attr.path)) [
                  | inr other ↦
                      rw (s, other, extract_controller_info) (extract_controller_info-Gives attrs)
                  | inl own ↦
                      let (c, ids', e, onto, d', few) = controller_of-Gives controller_name attr in
                      (some c, ids', rw (s, own, extract_controller_info, e), onto, d', few)
                ]
        ]

  module _ (definition_in : Str → Str → Option Definition)
      (responses_of : Str → Method → List Response) where
    extract_item-Gives :
        (item : Item) (ids : List Str)
        → item_count item + length ids + 2 < 2 ^ 31
        → Distinct ids
        → Gives item_ids_onto
            (extract_item to_case scope definition_in parse_u32 responses_of item ids)
            ids
            (item_count item)
    extract_item-Gives other_item ids small d = (none, ids, refl, refl, d, omega arith)
    extract_item-Gives (impl_item im) ids small d =
        extract_controller_info-Gives (definition_in im.scope_path) (responses_of im.scope_path)
          im.self_ty im.methods ids small d im.attrs

    onto_with :
        (controller : Option (ControllerInfo Response))
        (controllers : List (ControllerInfo Response)) (ids : List Str)
        → all_ids_onto controllers (item_ids_onto controller ids)
          ≡ all_ids_onto
              (with_controller to_case scope definition_in parse_u32 responses_of controller
                controllers)
              ids
    onto_with none controllers ids = refl
    onto_with (some c) controllers ids = refl

    -- The controllers of a crate are found, and the operations of all of them have ids that differ from one another and
    -- from those in use before, where those differ and all are fewer than 2^31 - 2.
    pub load_controllers-Gives :
        (items : List Item) (ids : List Str)
        → crate_count items + length ids + 2 < 2 ^ 31
        → Distinct ids
        → Gives all_ids_onto
            (load_controllers to_case scope definition_in parse_u32 responses_of items ids)
            ids
            (crate_count items)
    unfolding load_controllers
    load_controllers-Gives [] ids small d = ([], ids, refl, refl, d, omega arith)
    load_controllers-Gives (item ∷ items) ids small d =
        let (controller, ids', e, onto, d', few) =
          extract_item-Gives item ids (omega (arith, small)) d in
        let (controllers, ids'', e', onto', d'', fewer) =
          load_controllers-Gives items ids' (omega (arith, small, few)) d' in
        (
          with_controller to_case scope definition_in parse_u32 responses_of controller controllers,
          ids'',
          rw (e, load_controllers, e'),
          onto' ∙ ap (all_ids_onto controllers) onto ∙ onto_with controller controllers ids,
          d'',
          omega (arith, few, fewer),
        )
