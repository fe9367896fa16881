-- ===== src/Openapi/Attributes/Occurs.antt =====
-- Where a flag stands in an attribute.
use saphir.Base.{◌≡◌, refl, Bool, true, false, ◌||◌, ◌↔◌, ◌⊎◌, inl, inr, arith, Option, none, some}
use saphir.Text.{Str, str_eq}
use saphir.Text.Laws.{str_eq_iff}
use saphir.Openapi.Syn.{
  AttrPath, get_ident, Lit, Meta, path, list, name_value, NestedMetas, nil, meta, lit,
}
use saphir.Openapi.Attributes.{is_ident, flag_from_meta, flag_from_nested}

||-eq-true : (a : Bool) {b : Bool} → (a || b) ≡ true → (a ≡ true) ⊎ (b ≡ true)
||-eq-true true h = inl refl
||-eq-true false h = inr h

mutual
  -- The flag is the meta, or stands somewhere in its lists.
  pub data Occurs (name : Str) : Meta → Type 0 where
    here : {p : AttrPath} → get_ident p ≡ some name → Occurs name (path p)
    inside :
        {p : AttrPath} {nested : NestedMetas} → OccursIn name nested → Occurs name (list p nested)

  pub data OccursIn (name : Str) : NestedMetas → Type 0 where
    first : {m : Meta} {rest : NestedMetas} → Occurs name m → OccursIn name (meta m rest)
    after_meta : {m : Meta} {rest : NestedMetas} → OccursIn name rest → OccursIn name (meta m rest)
    after_lit : {l : Lit} {rest : NestedMetas} → OccursIn name rest → OccursIn name (lit l rest)

is_ident_iff : (name : Str) (p : AttrPath) → (is_ident name p ≡ true) ↔ (get_ident p ≡ some name)
is_ident_iff name p = by_ident (get_ident p)
  where
    by_ident :
        (o : Option Str)
        → ((elim o [ none ↦ false | some ident ↦ str_eq ident name ]) ≡ true) ↔ (o ≡ some name)
    by_ident none = ground arith
    by_ident (some ident) = ground (arith, str_eq_iff ident name)

mutual
  unfolding flag_from_meta

  flag_from_meta-Occurs : (m : Meta) (name : Str) → flag_from_meta m name ≡ true → Occurs name m
  flag_from_meta-Occurs (path p) name h = here ((is_ident_iff name p).0 h)
  flag_from_meta-Occurs (list p nested) name h = inside (flag_from_nested-OccursIn nested name h)
  flag_from_meta-Occurs (name_value p value) name h = cc

  flag_from_nested-OccursIn :
      (nested : NestedMetas) (name : Str)
      → flag_from_nested nested name ≡ true
      → OccursIn name nested
  flag_from_nested-OccursIn nil name h = cc
  flag_from_nested-OccursIn (meta m rest) name h = elim (||-eq-true (flag_from_meta m name) h) [
    | inl found ↦ first (flag_from_meta-Occurs m name found)
    | inr later ↦ after_meta (flag_from_nested-OccursIn rest name later)
  ]
  flag_from_nested-OccursIn (lit l rest) name h = after_lit (flag_from_nested-OccursIn rest name h)

mutual
  unfolding flag_from_meta

  Occurs-flag_from_meta : {m : Meta} (name : Str) → Occurs name m → flag_from_meta m name ≡ true
  Occurs-flag_from_meta name (here {p} e) = (is_ident_iff name p).1 e
  Occurs-flag_from_meta name (inside o) = OccursIn-flag_from_nested name o

  OccursIn-flag_from_nested :
      {nested : NestedMetas} (name : Str)
      → OccursIn name nested
      → flag_from_nested nested name ≡ true
  OccursIn-flag_from_nested name (first o) = rw (Occurs-flag_from_meta name o)
  OccursIn-flag_from_nested name (after_meta {m} o) =
      ground (arith, OccursIn-flag_from_nested name o)
  OccursIn-flag_from_nested name (after_lit o) = OccursIn-flag_from_nested name o

-- A flag is found in a meta exactly if its path stands in it, at any depth of lists.
pub flag_from_meta_iff : (m : Meta) (name : Str) → (flag_from_meta m name ≡ true) ↔ Occurs name m
flag_from_meta_iff m name = (flag_from_meta-Occurs m name, Occurs-flag_from_meta name)
