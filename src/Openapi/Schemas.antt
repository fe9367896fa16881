-- ===== src/Openapi/Schemas.antt =====
-- saphir_cli/src/openapi/generate/mod.rs, `get_schema` and `get_schema_ref`: the schemas of the components, and the
-- names that were given to them.

pub mod Numbering
pub mod Refs
pub mod Leads
pub mod Distinct
use saphir.Base.{
  Bool, true, false, ◌+◌, ◌≡◌, ◌↔◌, List, [], ◌∷◌, ◌++◌, Option, none, some, if◌then◌else◌, length,
  arith,
}
use saphir.Base.Dict.{Key, get, insert}
use saphir.Text.{Str, codes, str_eq}
use saphir.Text.Laws.{str_key, str_eq_iff}
use saphir.Openapi.Names.{with_number}
use saphir.Openapi.Schema.{Schema, ref, inline, OpenApiType, array, SchemaGranularity, is_primitive}
use saphir.Openapi.Schema

abbrev pub path_beq : Option Str → Option Str → Bool
path_beq none none = true
path_beq (some p) (some q) = str_eq p q
path_beq none (some _) = false
path_beq (some _) none = false

pub path_beq_iff : (a b : Option Str) → (path_beq a b ≡ true) ↔ (a ≡ b)
path_beq_iff none none = ground arith
path_beq_iff (some p) (some q) = ground (arith, str_eq_iff p q)
path_beq_iff none (some _) = ground arith
path_beq_iff (some _) none = ground arith

instance abbrev pub path_key : Key (Option Str)
path_key = record { beq = path_beq; beq_iff = path_beq_iff }

-- Of `Gen`: `doc.components.schemas`, and `generated_schema_names`, by name and path
pub record Gen : Type 0 where
  pub schemas : List (Str × Schema)
  pub generated_schema_names : List (Str × List (Option Str × Str))

-- The name of the component for a name and a path, and the names after it
unfoldable pub ref_name_in :
    Str → Option Str → List (Option Str × Str) → Str × List (Option Str × Str)
unfolding get insert str_eq with_number
ref_name_in name full_path paths = elim (get full_path paths) [
  | some ref_name ↦ (ref_name, paths)
  | none ↦
      let ref_name = with_number name (length paths + 1) in
      (ref_name, insert full_path ref_name paths)
]

unfoldable pub ref_name_of : Str → Option Str → Gen → Str × Gen
unfolding ref_name_in get insert str_eq
ref_name_of name full_path gen = elim (get name gen.generated_schema_names) [
  | some paths ↦
      let (ref_name, paths') = ref_name_in name full_path paths in
      (
        ref_name,
        record gen { generated_schema_names = insert name paths' gen.generated_schema_names },
      )
  | none ↦ (
    name,
    record gen {
      generated_schema_names = insert name ((full_path, name) ∷ []) gen.generated_schema_names;
    },
  )
]

-- A schema for a type that is no array
unfoldable pub component : SchemaGranularity → Str → Option Str → OpenApiType → Gen → Schema × Gen
unfolding ref_name_of insert str_eq is_primitive
component granularity name full_path ty gen =
    if is_primitive ty granularity
    then (inline ty, gen)
    else let (ref_name, gen') = ref_name_of name full_path gen in
      (
        ref (codes "#/components/schemas/" ++ ref_name),
        record gen' { schemas = insert ref_name (inline ty) gen'.schemas },
      )

-- The items of an array that are no reference get a schema of their own.
unfoldable pub get_schema_ref :
    SchemaGranularity → Str → Option Str → OpenApiType → Gen → Schema × Gen
unfolding component
get_schema_ref granularity name full_path (array (inline t) min max) gen =
    let (schema, gen') = component granularity name full_path t gen in
    (inline (array schema min max), gen')
get_schema_ref granularity name full_path (array (ref s) min max) gen =
    (inline (array (ref s) min max), gen)
get_schema_ref granularity name full_path ty gen = component granularity name full_path ty gen

unfoldable pub get_schema :
    SchemaGranularity → Str → Option Str → OpenApiType → Bool → Gen → Schema × Gen
unfolding get_schema_ref
get_schema granularity name full_path ty as_ref gen =
    if as_ref then get_schema_ref granularity name full_path ty gen else (inline ty, gen)
