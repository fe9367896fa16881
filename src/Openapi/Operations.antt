-- ===== src/Openapi/Operations.antt =====
-- saphir_cli/src/openapi/generate/mod.rs, `handler_operation_id_from_sig`: an id for each operation.
pub mod Fresh
use saphir.Base.{
  ℕ, zero, suc, Bool, false, ◌||◌, List, [], ◌∷◌, Option, none, some, if◌then◌else◌, length,
}
use saphir.Text.{Str, str_eq}
use saphir.Openapi.Names.{with_i32, add_i32}

-- `operation_ids.contains(id)`
unfoldable pub contains_id : Str → List Str → Bool
unfolding str_eq
contains_id id [] = false
contains_id id (x ∷ ids) = str_eq x id || contains_id id ids

-- The `while` loop, with a bound of the rounds; the counter is an `i32`.
unfoldable pub next_id : ℕ → Str → Str → ℕ → List Str → Option Str
unfolding contains_id with_i32
next_id zero method_name operation_id i ids = none
next_id (suc fuel) method_name operation_id i ids =
    let rest = next_id fuel method_name (with_i32 method_name i) (add_i32 i 1) ids in
    if contains_id operation_id ids then rest else some operation_id

-- The id of an operation, and the ids in use after it: one round more than there are ids
unfoldable pub operation_id_from_sig : Str → List Str → Option (Str × List Str)
unfolding next_id
operation_id_from_sig method_name ids =
    elim (next_id (suc (length ids)) method_name method_name 2 ids) [
      | none ↦ none
      | some operation_id ↦ some (operation_id, operation_id ∷ ids)
    ]
