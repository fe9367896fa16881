-- ===== src/Openapi/Types/References.antt =====
-- All references that stand in a schema, however deep.
use saphir.Base.{◌≡◌, refl, Bool, true, false, Option, some, Bool-cases, inl, inr, arith}
use saphir.Base.Dict.{get, insert, get-insert, get-insert_self}
use saphir.Text.{Str, str_eq}
use saphir.Text.Laws.{str_key}
use saphir.Openapi.Schema.{
  Schema, ref, inline, OpenApiType, string_of, number, integer, boolean, array, object_of,
  properties_of, dictionary, ref_object, anonymous_input, anonymous_output, Properties, nil,
  property, insert_property, str_ltb, SchemaGranularity, is_primitive,
}
use saphir.Openapi.Schemas.{path_key, Gen, ref_name_of, component, get_schema_ref, get_schema}
use saphir.Openapi.Schemas.Leads.{
  Resolves, Keeps, Keeps-refl, insert-Resolves, ref_name_of-schemas, component-Keeps,
}

unfoldable mutual
  -- Every reference in a schema leads to a component.
  pub Leads : Gen → Schema → Type 0
  Leads gen (ref s) = Resolves gen s
  Leads gen (inline t) = TypeLeads gen t

  pub TypeLeads : Gen → OpenApiType → Type 0
  TypeLeads gen (string_of _) = Unit
  TypeLeads gen (number _) = Unit
  TypeLeads gen (integer _) = Unit
  TypeLeads gen boolean = Unit
  TypeLeads gen (array items _ _) = Leads gen items
  TypeLeads gen (object_of (properties_of ps _ _)) = AllLead gen ps
  TypeLeads gen (object_of (dictionary ps values)) = AllLead gen ps × Leads gen values
  TypeLeads gen (object_of (ref_object s)) = Resolves gen s
  TypeLeads gen (object_of (anonymous_input _)) = Unit
  TypeLeads gen (object_of anonymous_output) = Unit

  pub AllLead : Gen → Properties → Type 0
  AllLead gen nil = Unit
  AllLead gen (property _ schema ps) = Leads gen schema × AllLead gen ps

-- So does every reference in a component.
abbrev pub Closed : Gen → Type 0
Closed gen = (r : Str) (t : Schema) → get r gen.schemas ≡ some t → Leads gen t

module _ (a b : Gen) (kept : (s : Str) → Resolves a s → Resolves b s) where
  mutual
    unfolding Leads

    pub Leads-kept : (schema : Schema) → Leads a schema → Leads b schema
    Leads-kept (ref s) h = kept s h
    Leads-kept (inline t) h = TypeLeads-kept t h

    pub TypeLeads-kept : (t : OpenApiType) → TypeLeads a t → TypeLeads b t
    TypeLeads-kept (string_of _) h = tt
    TypeLeads-kept (number _) h = tt
    TypeLeads-kept (integer _) h = tt
    TypeLeads-kept boolean h = tt
    TypeLeads-kept (array items _ _) h = Leads-kept items h
    TypeLeads-kept (object_of (properties_of ps _ _)) h = AllLead-kept ps h
    TypeLeads-kept (object_of (dictionary ps values)) h =
        (AllLead-kept ps h.0, Leads-kept values h.1)
    TypeLeads-kept (object_of (ref_object s)) h = kept s h
    TypeLeads-kept (object_of (anonymous_input _)) h = tt
    TypeLeads-kept (object_of anonymous_output) h = tt

    pub AllLead-kept : (ps : Properties) → AllLead a ps → AllLead b ps
    AllLead-kept nil h = tt
    AllLead-kept (property _ schema ps) h = (Leads-kept schema h.0, AllLead-kept ps h.1)

pub insert_property-AllLead :
    (gen : Gen) (name : Str) (schema : Schema) (ps : Properties)
    → Leads gen schema
    → AllLead gen ps
    → AllLead gen (insert_property name schema ps)
unfolding insert_property AllLead
insert_property-AllLead gen name schema nil h hs = (h, tt)
insert_property-AllLead gen name schema (property n s rest) h hs =
    elim (Bool-cases (str_eq n name)) [
      | inl same ↦ rw (same, insert_property) (h, hs.1)
      | inr differs ↦ elim (Bool-cases (str_ltb name n)) [
        | inl before ↦ rw (differs, before, insert_property) (h, hs)
        | inr later ↦
            rw (differs, later, insert_property)
              (hs.0, insert_property-AllLead gen name schema rest h hs.1)
      ]
    ]

-- What a step that may give components promises: what led still leads, and all components lead.
pub record Sound (before after : Gen) : Type 0 where
  pub keeps : Keeps before after
  pub closed : Closed after

insert-Closed :
    (gen : Gen) (r : Str) (ty : OpenApiType)
    → Closed gen
    → TypeLeads gen ty
    → Closed (record gen { schemas = insert r (inline ty) gen.schemas })
unfolding Leads
insert-Closed gen r ty closed leads s t known = elim (Bool-cases (str_eq r s)) [
  | inl same ↦
      let read : get s (insert r (inline ty) gen.schemas) ≡ some (inline ty) =
        rw (get-insert, same) in
      let is_new : t ≡ inline ty = cc in rw is_new (TypeLeads-kept gen after kept ty leads)
  | inr differs ↦
      Leads-kept gen after kept t
        (closed s t (ground (arith, known, get-insert r s (inline ty) gen.schemas)))
]
  where
    after : Gen
    after = record gen { schemas = insert r (inline ty) gen.schemas }

    kept : (s : Str) → Resolves gen s → Resolves after s
    kept = insert-Resolves gen r (inline ty)

named_only :
    (name : Str) (p : Option Str) (gen : Gen) (s : Str)
    → Resolves gen s
    → Resolves (ref_name_of name p gen).1 s
named_only name p gen s h = rw (ref_name_of-schemas name p gen) h

component-Closed :
    (g : SchemaGranularity) (name : Str) (p : Option Str) (ty : OpenApiType) (gen : Gen)
    → Closed gen
    → TypeLeads gen ty
    → Closed (component g name p ty gen).1
      × Leads (component g name p ty gen).1 (component g name p ty gen).0
unfolding component Leads
component-Closed g name p ty gen closed leads = elim (Bool-cases (is_primitive ty g)) [
  | inl primitive ↦ rw (primitive, component) (closed, leads)
  | inr composite ↦
      let (r, gen') = ref_name_of name p gen in
      rw (composite, component)
        (
          insert-Closed gen' r ty closed_named
              (TypeLeads-kept gen gen' (named_only name p gen) ty leads),
          (r, inline ty, refl, get-insert_self r (inline ty) gen'.schemas),
        )
]
  where
    closed_named : Closed (ref_name_of name p gen).1
    closed_named s t known =
        Leads-kept gen (ref_name_of name p gen).1 (named_only name p gen) t
          (closed s t (rw (ref_name_of-schemas name p gen) at known))

-- `get_schema` promises this of what leads, and its answer leads.
abbrev pub Answers : Gen → Schema → Gen → Type 0
Answers before schema after = Sound before after × Leads after schema

component-Answers :
    (g : SchemaGranularity) (name : Str) (p : Option Str) (ty : OpenApiType) (gen : Gen)
    → Closed gen
    → TypeLeads gen ty
    → Answers gen (component g name p ty gen).0 (component g name p ty gen).1
component-Answers g name p ty gen closed leads =
    let (closed', leads') = component-Closed g name p ty gen closed leads in
    (record { keeps = component-Keeps g name p ty gen; closed = closed' }, leads')

pub Sound-refl : (gen : Gen) → Closed gen → Sound gen gen
Sound-refl gen closed = record { keeps = Keeps-refl gen; closed = closed }

pub get_schema-Answers :
    (g : SchemaGranularity) (name : Str) (p : Option Str) (ty : OpenApiType) (as_ref : Bool)
    (gen : Gen)
    → Closed gen
    → TypeLeads gen ty
    → Answers gen (get_schema g name p ty as_ref gen).0 (get_schema g name p ty as_ref gen).1
unfolding get_schema get_schema_ref Leads
get_schema-Answers g name p ty false gen closed leads = (Sound-refl gen closed, leads)
get_schema-Answers g name p (array (inline t) min max) true gen closed leads =
    component-Answers g name p t gen closed leads
get_schema-Answers g name p (array (ref s) min max) true gen closed leads =
    (Sound-refl gen closed, leads)
get_schema-Answers g name p (string_of v) true gen closed leads =
    component-Answers g name p (string_of v) gen closed leads
get_schema-Answers g name p (number f) true gen closed leads =
    component-Answers g name p (number f) gen closed leads
get_schema-Answers g name p (integer f) true gen closed leads =
    component-Answers g name p (integer f) gen closed leads
get_schema-Answers g name p boolean true gen closed leads =
    component-Answers g name p boolean gen closed leads
get_schema-Answers g name p (object_of o) true gen closed leads =
    component-Answers g name p (object_of o) gen closed leads
