-- ===== src/Openapi/Schemas/Distinct.antt =====
-- Two paths of one name have two components.
use saphir.Base.{
  ◌<◌, ◌^◌, ◌≡◌, ◌≢◌, sym, ◌∙◌, Bool, false, List, [], ◌∷◌, ◌++◌, Option, some, length, arith,
}
use mathlib.Core.List.{append_cancel_left}
use saphir.Base.Dict.{get}
use saphir.Text.{Str, codes}
use saphir.Text.Laws.{str_key}
use saphir.Openapi.Schema.{ref, OpenApiType, SchemaGranularity, is_primitive}
use saphir.Openapi.Schemas.{path_key, Gen, ref_name_of, component, get_schema}
use saphir.Openapi.Schemas.Numbering.{Paths, get-injective}
use saphir.Openapi.Schemas.Refs.{IsNumbered, Named, ref_name_of-Named}
use saphir.Openapi.Schemas.Leads.{Keeps, Keeps-refl, Keeps-trans, component-Keeps, get_schema-Keeps}

-- The names and schemas after some calls of `get_schema`
pub record Call : Type 0 where
  pub name : Str
  pub full_path : Option Str
  pub ty : OpenApiType
  pub as_ref : Bool

abbrev pub after : SchemaGranularity → List Call → Gen → Gen
after g [] gen = gen
after g (c ∷ calls) gen = after g calls (get_schema g c.name c.full_path c.ty c.as_ref gen).1

after-Keeps :
    (g : SchemaGranularity) (calls : List Call) (gen : Gen) → Keeps gen (after g calls gen)
after-Keeps g [] gen = Keeps-refl gen
after-Keeps g (c ∷ calls) gen =
    Keeps-trans (get_schema-Keeps g c.name c.full_path c.ty c.as_ref gen) (after-Keeps g calls _)

-- The names stay in their order, whatever is asked for.
pub after-IsNumbered :
    (g : SchemaGranularity) (calls : List Call) (gen : Gen)
    → IsNumbered gen
    → IsNumbered (after g calls gen)
after-IsNumbered g calls gen = (after-Keeps g calls gen).numbered

component-Named :
    (g : SchemaGranularity) (name : Str) (p : Option Str) (ty : OpenApiType) (gen : Gen)
    → is_primitive ty g ≡ false
    → (r : Str) × ((component g name p ty gen).0 ≡ ref (codes "#/components/schemas/" ++ r))
      × Named (component g name p ty gen).1 name p r
unfolding component
component-Named g name p ty gen composite = (
  (ref_name_of name p gen).0,
  rw (composite, component),
  rw (composite, component) (ref_name_of-Named name p gen),
)

same_text :
    (r r' : Str)
    → ref (codes "#/components/schemas/" ++ r) ≡ ref (codes "#/components/schemas/" ++ r')
    → r ≡ r'
same_text r r' e = append_cancel_left (codes "#/components/schemas/") r r' (cc)

Named-injective :
    (gen : Gen) (name : Str) (p q : Option Str) (r : Str)
    → IsNumbered gen
    → ((paths : Paths) → get name gen.generated_schema_names ≡ some paths → length paths < 2 ^ 64)
    → Named gen name p r
    → Named gen name q r
    → p ≡ q
Named-injective gen name p q r n small (paths, known, at_p) (paths', known', at_q) =
    let same : paths' ≡ paths = cc in
    get-injective name 0 p q paths (omega (arith, small paths known)) (n name paths known).0 at_p
      (rw same at at_q)

-- Two schemas of one name that are not primitive have two references where their paths differ, whatever was asked for
-- in between, while the name has fewer than 2^64 paths.
pub component-injective :
    (g : SchemaGranularity) (name : Str) (p q : Option Str) (t u : OpenApiType) (calls : List Call)
    (gen : Gen)
    → IsNumbered gen
    → is_primitive t g ≡ false
    → is_primitive u g ≡ false
    → ((paths : Paths)
        → get name
            (component g name q u
              (after g calls (component g name p t gen).1)).1.generated_schema_names
          ≡ some paths
        → length paths < 2 ^ 64)
    → p ≢ q
    → (component g name p t gen).0
      ≢ (component g name q u (after g calls (component g name p t gen).1)).0
component-injective g name p q t u calls gen n ct cu small differ same =
    let first = (component g name p t gen).1 in
    let between = after g calls first in
    let steps = Keeps-trans (after-Keeps g calls first) (component-Keeps g name q u between) in
    let (r, is_r, named) = component-Named g name p t gen ct in
    let (r', is_r', named') = component-Named g name q u between cu in
    let last = (component g name q u between).1 in
    let name_eq : r ≡ r' = same_text r r' (sym is_r ∙ same ∙ is_r') in
    differ (
      Named-injective last name p q r (steps.numbered ((component-Keeps g name p t gen).numbered n))
        small (steps.named name p r named) (rw (← name_eq) at named'))
