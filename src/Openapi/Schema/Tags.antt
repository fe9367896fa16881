-- ===== src/Openapi/Schema/Tags.antt =====
-- saphir_cli/src/openapi/schema.rs: the tags of a document and their order; `is_version` and `is_versioned` are the two
-- regular expressions.
use saphir.Base.{ℕ, Bool, Option, if◌then◌else◌, ltb, ◌==◌}
use saphir.Text.{Str}
use saphir.Openapi.Schema.{str_ltb}

pub record Tag : Type 0 where
  pub name : Str
  pub description : Option Str

module _ (is_version is_versioned : Str → Bool) where
  unfoldable pub type_ord : Tag → ℕ
  type_ord tag = if is_version tag.name then 1 else if is_versioned tag.name then 2 else 0

  -- `cmp` is less
  unfoldable pub tag_ltb : Tag → Tag → Bool
  unfolding type_ord str_ltb
  tag_ltb a b =
      if type_ord a == type_ord b then str_ltb a.name b.name else ltb (type_ord a) (type_ord b)
