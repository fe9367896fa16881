-- ===== src/Openapi/Schemas/Leads.antt =====
-- Where the references lead that `get_schema` gives: to components, which stay.
use saphir.Base.{◌≡◌, Bool, true, false, ◌++◌, Option, none, some, Bool-cases, inl, inr, arith}
use saphir.Base.Dict.{get, insert, get-insert, get-insert_self}
use saphir.Text.{Str, codes, str_eq}
use saphir.Text.Laws.{str_key}
use saphir.Openapi.Schema.{
  Schema, ref, inline, OpenApiType, string_of, number, integer, boolean, array, object_of,
  SchemaGranularity, is_primitive,
}
use saphir.Openapi.Schemas.{path_key, Gen, ref_name_of, component, get_schema_ref, get_schema}
use saphir.Openapi.Schemas.Refs.{IsNumbered, Named, ref_name_of-keeps, ref_name_of-IsNumbered}

-- The text of a reference leads to a component.
abbrev pub Resolves : Gen → Str → Type 0
Resolves gen s =
    (r : Str) × (t : Schema) × (s ≡ codes "#/components/schemas/" ++ r)
    × (get r gen.schemas ≡ some t)

-- The reference that a schema is, or that the items of its arrays are in the end
abbrev pub reference : Schema → Option Str
reference (ref s) = some s
reference (inline (array items _ _)) = reference items
reference (inline (string_of _)) = none
reference (inline (number _)) = none
reference (inline (integer _)) = none
reference (inline boolean) = none
reference (inline (object_of _)) = none

-- What a step that may give a name and a component keeps
pub record Keeps (before after : Gen) : Type 0 where
  pub numbered : IsNumbered before → IsNumbered after
  pub named :
      (other : Str) (q : Option Str) (r : Str) → Named before other q r → Named after other q r
  pub resolved : (s : Str) → Resolves before s → Resolves after s

pub Keeps-refl : (gen : Gen) → Keeps gen gen
Keeps-refl gen = record { numbered = λ n. n; named = λ o q r h. h; resolved = λ s h. h }

pub Keeps-trans : {a b c : Gen} → Keeps a b → Keeps b c → Keeps a c
Keeps-trans f g = record {
  numbered = λ n. g.numbered (f.numbered n);
  named = λ o q r h. g.named o q r (f.named o q r h);
  resolved = λ s h. g.resolved s (f.resolved s h);
}

pub ref_name_of-schemas :
    (name : Str) (p : Option Str) (gen : Gen) → (ref_name_of name p gen).1.schemas ≡ gen.schemas
unfolding ref_name_of
ref_name_of-schemas name p gen = ground arith

pub insert-Resolves :
    (gen : Gen) (r : Str) (t : Schema) (s : Str)
    → Resolves gen s
    → Resolves (record gen { schemas = insert r t gen.schemas }) s
insert-Resolves gen r t s (r', t', e, known) = elim (Bool-cases (str_eq r r')) [
  | inl same ↦ (r', t, e, rw (get-insert, same))
  | inr differs ↦ (r', t', e, rw (get-insert, differs) known)
]

pub component-Keeps :
    (g : SchemaGranularity) (name : Str) (p : Option Str) (ty : OpenApiType) (gen : Gen)
    → Keeps gen (component g name p ty gen).1
unfolding component
component-Keeps g name p ty gen = elim (Bool-cases (is_primitive ty g)) [
  | inl primitive ↦ rw (primitive, component) (Keeps-refl gen)
  | inr composite ↦
      rw (composite, component)
        (record {
          numbered = λ n. ref_name_of-IsNumbered name p gen n;
          named = λ o q r h. ref_name_of-keeps name p gen o q r h;
          resolved = λ s h.
              insert-Resolves (ref_name_of name p gen).1 (ref_name_of name p gen).0 (inline ty) s
                (rw (ref_name_of-schemas name p gen) h);
        })
]

pub get_schema-Keeps :
    (g : SchemaGranularity) (name : Str) (p : Option Str) (ty : OpenApiType) (as_ref : Bool)
    (gen : Gen)
    → Keeps gen (get_schema g name p ty as_ref gen).1
unfolding get_schema get_schema_ref
get_schema-Keeps g name p ty false gen = Keeps-refl gen
get_schema-Keeps g name p (array (inline t) min max) true gen = component-Keeps g name p t gen
get_schema-Keeps g name p (array (ref s) min max) true gen = Keeps-refl gen
get_schema-Keeps g name p (string_of v) true gen = component-Keeps g name p (string_of v) gen
get_schema-Keeps g name p (number f) true gen = component-Keeps g name p (number f) gen
get_schema-Keeps g name p (integer f) true gen = component-Keeps g name p (integer f) gen
get_schema-Keeps g name p boolean true gen = component-Keeps g name p boolean gen
get_schema-Keeps g name p (object_of o) true gen = component-Keeps g name p (object_of o) gen

component-Resolves :
    (g : SchemaGranularity) (name : Str) (p : Option Str) (ty : OpenApiType) (gen : Gen) {s : Str}
    → ((s : Str) → reference (inline ty) ≡ some s → Resolves gen s)
    → reference (component g name p ty gen).0 ≡ some s
    → Resolves (component g name p ty gen).1 s
unfolding component
component-Resolves g name p ty gen {s} given e = elim (Bool-cases (is_primitive ty g)) [
  | inl primitive ↦ rw (primitive, component) (given s (rw (primitive, component) at e))
  | inr composite ↦
      let (ref_name, gen') = ref_name_of name p gen in
      rw (composite, component)
        (
          ref_name,
          inline ty,
          text (rw (composite, component) at e),
          get-insert_self ref_name (inline ty) gen'.schemas,
        )
]
  where
    text :
        some (codes "#/components/schemas/" ++ (ref_name_of name p gen).0) ≡ some s
        → s ≡ codes "#/components/schemas/" ++ (ref_name_of name p gen).0
    text h = cc

answer-Resolves :
    (g : SchemaGranularity) (name : Str) (p : Option Str) (ty : OpenApiType) (as_ref : Bool)
    (gen : Gen)
    → ((s : Str) → reference (inline ty) ≡ some s → Resolves gen s)
    → (s : Str) → reference (get_schema g name p ty as_ref gen).0 ≡ some s
    → Resolves (get_schema g name p ty as_ref gen).1 s
unfolding get_schema get_schema_ref
answer-Resolves g name p ty false gen given s e = given s e
answer-Resolves g name p (array (inline t) min max) true gen given s e =
    component-Resolves g name p t gen given e
answer-Resolves g name p (array (ref t) min max) true gen given s e = given s e
answer-Resolves g name p (string_of v) true gen given s e =
    component-Resolves g name p (string_of v) gen given e
answer-Resolves g name p (number f) true gen given s e =
    component-Resolves g name p (number f) gen given e
answer-Resolves g name p (integer f) true gen given s e =
    component-Resolves g name p (integer f) gen given e
answer-Resolves g name p boolean true gen given s e =
    component-Resolves g name p boolean gen given e
answer-Resolves g name p (object_of o) true gen given s e =
    component-Resolves g name p (object_of o) gen given e

-- A reference that `get_schema` gives leads to a component, where those that it was given do; and references
-- that led to components before still do.
pub get_schema-Resolves :
    (g : SchemaGranularity) (name : Str) (p : Option Str) (ty : OpenApiType) (as_ref : Bool)
    (gen : Gen) {s t : Str}
    → ((r : Str) → reference (inline ty) ≡ some r → Resolves gen r)
    → reference (get_schema g name p ty as_ref gen).0 ≡ some s
    → Resolves gen t
    → Resolves (get_schema g name p ty as_ref gen).1 s
      × Resolves (get_schema g name p ty as_ref gen).1 t
get_schema-Resolves g name p ty as_ref gen {s} {t} given e known = (
  answer-Resolves g name p ty as_ref gen given s e,
  (get_schema-Keeps g name p ty as_ref gen).resolved t known,
)
