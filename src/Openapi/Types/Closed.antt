-- ===== src/Openapi/Types/Closed.antt =====
-- The schemas of structures and enumerations: their references lead to components, and the look ends where no type
-- contains itself.
use saphir.Base.{
  ℕ, zero, suc, ◌<◌, ◌≡◌, refl, Bool, true, false, ◌&&◌, List, [], ◌∷◌, Option, none, some,
  if◌then◌else◌, unwrap_or, Bool-cases, Option-cases, All, inl, inr, arith,
}
use saphir.Text.{Str}
use saphir.Openapi.Syn.{Attribute}
use saphir.Openapi.Attributes.{Case}
use saphir.Openapi.Schema.{
  string_of, integer, number, boolean, Schema, inline, OpenApiType, array, object_of, Properties,
  nil, property, insert_property, enums, anonymous_input_object, from_rust_type_str,
  SchemaGranularity, is_all,
}
use saphir.Openapi.Schemas.{Gen}
use saphir.Openapi.Schemas.Leads.{Keeps-trans}
use saphir.Openapi.TypeInfo.{TypeInfo, Definition, type_info}
use saphir.Openapi.Types.{
  SynField, TypeItem, struct_item, enum_item, wrapped, raw_type, all_unit, Outcome, field_name_of,
  field_schema, fields_of, struct_type, struct_schema, values_of, enum_schema, schema_of,
  is_required, with_required,
}
use saphir.Openapi.Types.References.{
  Leads, TypeLeads, AllLead, Closed, AllLead-kept, insert_property-AllLead, Sound, Answers,
  get_schema-Answers, Sound-refl,
}

pub wrapped-Leads :
    (info : TypeInfo) (schema : Schema) (gen : Gen)
    → Leads gen schema
    → Leads gen (wrapped info schema)
unfolding Leads
wrapped-Leads info schema gen h = elim (Bool-cases info.is_array) [
  | inl a ↦ rw a h
  | inr a ↦ elim (Bool-cases info.is_dictionary) [ inl d ↦ rw (a, d) (tt, h) | inr d ↦ rw (a, d) h ]
]

-- A type of the language has no reference.
abbrev is_flat : OpenApiType → Bool
is_flat (array _ _ _) = false
is_flat (object_of _) = false
is_flat (string_of _) = true
is_flat (number _) = true
is_flat (integer _) = true
is_flat boolean = true

is_flat-raw_type : (name : Str) → is_flat (raw_type name) ≡ true
unfolding from_rust_type_str
is_flat-raw_type name = ground arith

is_flat-TypeLeads : (t : OpenApiType) (gen : Gen) → is_flat t ≡ true → TypeLeads gen t
unfolding Leads
is_flat-TypeLeads (array _ _ _) gen e = cc
is_flat-TypeLeads (object_of _) gen e = cc
is_flat-TypeLeads (string_of _) gen e = tt
is_flat-TypeLeads (number _) gen e = tt
is_flat-TypeLeads (integer _) gen e = tt
is_flat-TypeLeads boolean gen e = tt

pub raw_type-TypeLeads : (name : Str) (gen : Gen) → TypeLeads gen (raw_type name)
raw_type-TypeLeads name gen = is_flat-TypeLeads (raw_type name) gen (is_flat-raw_type name)

abbrev pub FoundLeads : Gen → Option Schema → Type 0
FoundLeads gen none = Unit
FoundLeads gen (some schema) = Leads gen schema

-- A look ends, keeps what leads and all components sound, and its schema leads.
abbrev pub Finds : Gen → Outcome → Type 0
Finds before outcome =
    (schema : Option Schema) × (after : Gen) × (outcome ≡ some (schema, after))
    × Sound before after
    × FoundLeads after schema

field_schema-Leads :
    (info : TypeInfo) (found : Option Schema) (gen : Gen)
    → FoundLeads gen found
    → Leads gen (field_schema info found)
unfolding Leads
field_schema-Leads info (some schema) gen h = h
field_schema-Leads info none gen h =
    wrapped-Leads info (inline (raw_type (unwrap_or info.rename info.name))) gen
      (raw_type-TypeLeads (unwrap_or info.rename info.name) gen)

struct_type-TypeLeads :
    (ps : Properties) (required : List Str) (gen : Gen)
    → AllLead gen ps
    → TypeLeads gen (struct_type ps required)
unfolding Leads
struct_type-TypeLeads nil required gen h = tt
struct_type-TypeLeads (property n s ps) required gen h = h

enum-TypeLeads :
    (b : Bool) (values : List Str) (gen : Gen)
    → TypeLeads gen (if b then enums values else anonymous_input_object)
unfolding Leads
enum-TypeLeads true values gen = tt
enum-TypeLeads false values gen = tt

no_property : (gen : Gen) → AllLead gen nil
unfolding Leads
no_property gen = tt

pub Sound-trans : {a b c : Gen} → Sound a b → Sound b c → Sound a c
Sound-trans f g = record { keeps = Keeps-trans f.keeps g.keeps; closed = g.closed }

module _ (to_case : Str → Case → Str) (definition_in : Str → Str → Option Definition)
    (item_at : Str → Str → Str → Option TypeItem) (parse_u32 : Str → Option ℕ)
    (g : SchemaGranularity) (rank : Str → TypeInfo → ℕ) where
  -- The types of the fields have a rank below a bound.
  abbrev pub Below : ℕ → Str → List SynField → Type 0
  Below n at fields =
      All
        (λ (f : SynField).
          (i : TypeInfo) → type_info (definition_in at) parse_u32 f.ty ≡ some i → rank at i < n)
        fields

  -- The loop ends where the searches of types below the bound do.
  fields_of-ends :
      (n : ℕ) (look : TypeInfo → Gen → Outcome) (at : Str) (attrs : List Attribute)
      → ((i : TypeInfo) → rank at i < n → (gen : Gen) → Closed gen → Finds gen (look i gen))
      → (fields : List SynField) (ps : Properties) (required : List Str) (gen : Gen)
      → Below n at fields
      → Closed gen
      → AllLead gen ps
      → (ps' : Properties) × (required' : List Str) × (gen' : Gen) × (fields_of to_case
            definition_in item_at parse_u32 g look at attrs fields ps required gen
          ≡ some ((ps', required'), gen'))
        × Sound gen gen'
        × AllLead gen' ps'
  unfolding fields_of
  fields_of-ends n look at attrs finds [] ps required gen below closed leads =
      (ps, required, gen, refl, Sound-refl gen closed, leads)
  fields_of-ends n look at attrs finds (f ∷ fields) ps required gen (h, hs) closed leads =
      elim (Option-cases (field_name_of to_case attrs f)) [
        | inl e ↦
            rw (e, fields_of)
              (fields_of-ends n look at attrs finds fields ps required gen hs closed leads)
        | inr (name, e) ↦ elim (Option-cases (type_info (definition_in at) parse_u32 f.ty)) [
          | inl t ↦
              rw (e, t, fields_of)
                (fields_of-ends n look at attrs finds fields ps required gen hs closed leads)
          | inr (info, t) ↦
              let (found, gen', s, sound, found_leads) = finds info (h info t) gen closed in
              let leads' = AllLead-kept gen gen' sound.keeps.resolved ps leads in
              let (ps', required', last, r, sound', leads'') =
                fields_of-ends n look at attrs finds fields
                  (insert_property name (field_schema info found) ps)
                  (with_required (is_required f info) name required) gen' hs sound.closed
                  (insert_property-AllLead gen' name (field_schema info found) ps
                    (field_schema-Leads info found gen' found_leads) leads') in
              (ps', required', last, rw (e, t, s, fields_of) r, Sound-trans sound sound', leads'')
        ]
      ]

  -- The types of the fields of a structure have a lower rank than a type that stands for it.
  abbrev pub Falls : Type 0
  Falls =
      (scope path : Str) (info : TypeInfo) (at : Str) (fields : List SynField)
      (attrs : List Attribute)
      → item_at scope path info.name ≡ some (struct_item at fields attrs)
      → Below (rank scope info) at fields

  found_by :
      (info : TypeInfo) (gen : Gen) (schema : Schema) (after : Gen)
      → Answers gen schema after
      → Finds gen (some (some (wrapped info schema), after))
  found_by info gen schema after (sound, leads) =
      (some (wrapped info schema), after, refl, sound, wrapped-Leads info schema after leads)

  -- Where the rank falls from a structure to its fields, the search with more fuel than the rank of its type ends; all
  -- references in its schema and in the components lead to components, if those in the components did before.
  pub schema_of-Finds :
      Falls
      → (fuel : ℕ) (scope : Str) (info : TypeInfo) (as_ref : Bool) (gen : Gen)
      → rank scope info < fuel
      → Closed gen
      → Finds gen (schema_of to_case definition_in item_at parse_u32 g fuel scope info as_ref gen)
  unfolding schema_of struct_schema enum_schema
  schema_of-Finds falls zero scope info as_ref gen enough closed = absurd (omega (arith, enough))
  schema_of-Finds falls (suc fuel) scope info as_ref gen enough closed =
      elim (Option-cases info.type_path) [
        | inl p ↦ rw (p, schema_of) (none, gen, refl, Sound-refl gen closed, tt)
        | inr (path, p) ↦ elim (Option-cases (item_at scope path info.name)) [
          | inl i ↦ rw (p, i, schema_of) (none, gen, refl, Sound-refl gen closed, tt)
          | inr (struct_item at fields attrs, i) ↦
              let look : TypeInfo → Gen → Outcome = λ t.
                schema_of to_case definition_in item_at parse_u32 g fuel at t
                  (is_all g && as_ref) in
              let finds : (t : TypeInfo)
                  → rank at t < rank scope info
                  → (gen' : Gen) → Closed gen'
                  → Finds gen' (look t gen') =
                λ t below gen' c.
                  schema_of-Finds falls fuel at t (is_all g && as_ref) gen'
                    (omega (arith, below, enough)) c in
              let (ps, required, gen', r, sound, leads) =
                fields_of-ends (rank scope info) look at attrs finds fields nil [] gen
                  (falls scope path info at fields attrs i) closed (no_property gen) in
              let (sound', leads') =
                get_schema-Answers g info.name (some at) (struct_type ps required) as_ref gen'
                  sound.closed (struct_type-TypeLeads ps required gen' leads) in
              rw (p, i, schema_of, r) (found_by info gen _ _ (Sound-trans sound sound', leads'))
          | inr (enum_item at variants attrs, i) ↦
              rw (p, i, schema_of)
                (found_by info gen _ _ (
                  get_schema-Answers g info.name (some at) _ as_ref gen closed
                    (enum-TypeLeads (all_unit variants) (values_of to_case attrs variants) gen)))
        ]
      ]
