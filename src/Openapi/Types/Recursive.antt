-- ===== src/Openapi/Types/Recursive.antt =====
-- Structures that contain themselves.
use saphir.Base.{
  ℕ, zero, suc, ◌≡◌, refl, Bool, ◌&&◌, List, [], ◌∷◌, ◌++◌, Option, none, some, Option-cases, inl,
  inr,
}
use saphir.Text.{Str}
use saphir.Openapi.Syn.{Attribute}
use saphir.Openapi.Attributes.{Case}
use saphir.Openapi.Schema.{Properties, nil, insert_property, SchemaGranularity, is_all}
use saphir.Openapi.Schemas.{Gen}
use saphir.Openapi.TypeInfo.{TypeInfo, Definition, type_info}
use saphir.Openapi.Types.{
  SynField, TypeItem, struct_item, Outcome, field_name_of, field_schema, fields_of, struct_schema,
  schema_of, is_required, with_required,
}

module _ (to_case : Str → Case → Str) (definition_in : Str → Str → Option Definition)
    (item_at : Str → Str → Str → Option TypeItem) (parse_u32 : Str → Option ℕ)
    (g : SchemaGranularity) where
  -- The type stands for this item.
  abbrev pub Names : Str → TypeInfo → TypeItem → Type 0
  Names scope info item =
      (path : Str) × (info.type_path ≡ some path) × (item_at scope path info.name ≡ some item)

  -- Some field of a structure has a type that stands for this item.
  abbrev pub Contains : Str → List SynField → List Attribute → TypeItem → Type 0
  Contains at fields attrs item =
      (before after : List SynField) × (f : SynField) × (name : Str) × (info : TypeInfo) × (fields
        ≡ before ++ (f ∷ after))
      × (field_name_of to_case attrs f ≡ some name)
      × (type_info (definition_in at) parse_u32 f.ty ≡ some info)
      × Names at info item

  fields_of-eq-none :
      (look : TypeInfo → Gen → Outcome) (at : Str) (attrs : List Attribute) (before : List SynField)
      (f : SynField) (after : List SynField) {name : Str} {info : TypeInfo}
      → field_name_of to_case attrs f ≡ some name
      → type_info (definition_in at) parse_u32 f.ty ≡ some info
      → ((gen : Gen) → look info gen ≡ none)
      → (ps : Properties) (required : List Str) (gen : Gen)
      → fields_of to_case definition_in item_at parse_u32 g look at attrs
          (before ++ (f ∷ after))
          ps
          required
          gen
        ≡ none
  unfolding fields_of
  fields_of-eq-none look at attrs [] f after e t loops ps required gen =
      rw (e, t, loops gen, fields_of)
  fields_of-eq-none look at attrs (b ∷ before) f after e t loops ps required gen =
      elim (Option-cases (field_name_of to_case attrs b)) [
        | inl n ↦
            rw (n, fields_of)
              (fields_of-eq-none look at attrs before f after e t loops ps required gen)
        | inr (name, n) ↦ elim (Option-cases (type_info (definition_in at) parse_u32 b.ty)) [
          | inl i ↦
              rw (n, i, fields_of)
                (fields_of-eq-none look at attrs before f after e t loops ps required gen)
          | inr (info, i) ↦ elim (Option-cases (look info gen)) [
            | inl l ↦ rw (n, i, l, fields_of)
            | inr ((found, gen'), l) ↦
                rw (n, i, l, fields_of)
                  (fields_of-eq-none look at attrs before f after e t loops
                    (insert_property name (field_schema info found) ps)
                    (with_required (is_required b info) name required) gen')
          ]
        ]
      ]

  -- The search for the schema of a structure with a field of its own type, also of its type in a list or an option, never
  -- ends, whatever fuel it is given.
  pub schema_of-eq-none :
      (at : Str) (fields : List SynField) (attrs : List Attribute)
      → Contains at fields attrs (struct_item at fields attrs)
      → (fuel : ℕ) (scope : Str) (info : TypeInfo) (as_ref : Bool) (gen : Gen)
      → Names scope info (struct_item at fields attrs)
      → schema_of to_case definition_in item_at parse_u32 g fuel scope info as_ref gen ≡ none
  unfolding schema_of struct_schema
  schema_of-eq-none at fields attrs own zero scope info as_ref gen names = refl
  schema_of-eq-none at fields attrs own (suc fuel) scope info as_ref gen (path, p, i) =
      let (before, after, f, name, inner, split, e, t, names) = own in
      let loops : (gen' : Gen)
          → schema_of to_case definition_in item_at parse_u32 g fuel at inner (is_all g && as_ref)
              gen'
            ≡ none =
        λ gen'.
          schema_of-eq-none at fields attrs own fuel at inner (is_all g && as_ref) gen' names in
      let stuck : fields_of to_case definition_in item_at parse_u32 g
            (λ t.
              schema_of to_case definition_in item_at parse_u32 g fuel at t (is_all g && as_ref))
            at attrs fields nil [] gen
          ≡ none =
        rw split (fields_of-eq-none _ at attrs before f after e t loops nil [] gen) in
      rw (p, i, schema_of, stuck)
