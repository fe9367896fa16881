-- ===== src/Openapi/Schemas/Refs.antt =====
-- What `get_schema` does to the names of the components, and where its references lead.
use mathlib.Core.Path.{subst}
use saphir.Base.{
  suc, ◌+◌, ◌<◌, ◌≡◌, refl, ap, ◌∙◌, true, List, [], ◌∷◌, Option, none, some, length, Bool-cases,
  Option-cases, inl, inr, arith,
}
use saphir.Base.Dict.{get, insert, get-insert, get-insert_self}
use saphir.Text.{Str, str_eq}
use saphir.Text.Laws.{str_key, str_eq_iff}
use saphir.Openapi.Names.{with_number, numbered}
use saphir.Openapi.Schemas.{path_key, path_beq_iff, Gen, ref_name_in, ref_name_of}
use saphir.Openapi.Schemas.Numbering.{Paths, Numbered, insert-Numbered}

-- The names of every name stand in their order.
abbrev pub IsNumbered : Gen → Type 0
IsNumbered gen =
    (name : Str) (paths : Paths)
    → get name gen.generated_schema_names ≡ some paths
    → Numbered name 0 paths × (0 < length paths)

-- A path has this name for its component.
abbrev pub Named : Gen → Str → Option Str → Str → Type 0
Named gen name p r =
    (paths : Paths) × (get name gen.generated_schema_names ≡ some paths) × (get p paths ≡ some r)

ref_name_in-Numbered :
    (name : Str) (p : Option Str) (paths : Paths)
    → Numbered name 0 paths
    → 0 < length paths
    → Numbered name 0 (ref_name_in name p paths).1 × (0 < length (ref_name_in name p paths).1)
unfolding ref_name_in
ref_name_in-Numbered name p paths n some_path = elim (Option-cases (get p paths)) [
  | inr (r, found) ↦ rw (found, ref_name_in) (n, some_path)
  | inl new ↦
      let kept =
        insert-Numbered name 0 p (with_number name (length paths + 1)) paths (next paths some_path)
          n new in
      rw (new, ref_name_in) (kept.0, omega (arith, kept.1))
]
  where
    next :
        (paths : Paths)
        → 0 < length paths
        → with_number name (length paths + 1) ≡ numbered name (0 + length paths)
    next [] h = elim h [ ]
    next (e ∷ paths) h =
        let number : suc (length paths) + 1 ≡ length paths + 2 = omega arith in
        let place : suc (length paths) ≡ 0 + suc (length paths) = omega arith in
        ap (with_number name) number ∙ ap (numbered name) place

ref_name_in-get :
    (name : Str) (p : Option Str) (paths : Paths)
    → get p (ref_name_in name p paths).1 ≡ some (ref_name_in name p paths).0
unfolding ref_name_in
ref_name_in-get name p paths = elim (Option-cases (get p paths)) [
  | inr (r, found) ↦ rw (found, ref_name_in) found
  | inl new ↦ rw (new, ref_name_in) (get-insert_self p _ paths)
]

-- A path that has a name keeps it.
ref_name_in-keeps :
    (name : Str) (p q : Option Str) (paths : Paths) {r : Str}
    → get q paths ≡ some r
    → get q (ref_name_in name p paths).1 ≡ some r
unfolding ref_name_in
ref_name_in-keeps name p q paths e = elim (Option-cases (get p paths)) [
  | inr (s, found) ↦ rw (found, ref_name_in) e
  | inl new ↦
      rw (new, ref_name_in)
        (ground
          (arith, get-insert p q (with_number name (length paths + 1)) paths, path_beq_iff p q))
]

module _ (name : Str) (p : Option Str) (gen : Gen) where
  abbrev with_names : List (Str × Paths) → Gen
  with_names names = record gen { generated_schema_names = names }

  ref_name_of-known :
      (paths : Paths)
      → get name gen.generated_schema_names ≡ some paths
      → ref_name_of name p gen ≡ (
        (ref_name_in name p paths).0,
        with_names (insert name (ref_name_in name p paths).1 gen.generated_schema_names),
      )
  unfolding ref_name_of
  ref_name_of-known paths e = rw (e, ref_name_of)

  ref_name_of-new :
      get name gen.generated_schema_names ≡ none
      → ref_name_of name p gen
        ≡ (name, with_names (insert name ((p, name) ∷ []) gen.generated_schema_names))
  unfolding ref_name_of
  ref_name_of-new e = rw (e, ref_name_of)

  -- The path has the name that was given to it.
  pub ref_name_of-Named : Named (ref_name_of name p gen).1 name p (ref_name_of name p gen).0
  unfolding insert
  ref_name_of-Named = elim (Option-cases (get name gen.generated_schema_names)) [
    | inr (paths, e) ↦ rw (ref_name_of-known paths e) (
      (ref_name_in name p paths).1,
      get-insert_self name _ gen.generated_schema_names,
      ref_name_in-get name p paths,
    )
    | inl e ↦ rw (ref_name_of-new e) (
      (p, name) ∷ [],
      get-insert_self name _ gen.generated_schema_names,
      get-insert_self p name [],
    )
  ]

  -- A path that has a name keeps it.
  pub ref_name_of-keeps :
      (other : Str) (q : Option Str) (r : Str)
      → Named gen other q r
      → Named (ref_name_of name p gen).1 other q r
  ref_name_of-keeps other q r (paths, known, named) =
      elim (Option-cases (get name gen.generated_schema_names)) [
        | inr (ps, e) ↦ rw (ref_name_of-known ps e) (elim (Bool-cases (str_eq name other)) [
          | inl same ↦ (
            (ref_name_in name p ps).1,
            rw (get-insert, same),
            ref_name_in-keeps name p q ps (at_name ps same e),
          )
          | inr differs ↦ (paths, rw (get-insert, differs) known, named)
        ])
        | inl e ↦ rw (ref_name_of-new e) (elim (Bool-cases (str_eq name other)) [
          | inl same ↦ absurd (not_new same e)
          | inr differs ↦ (paths, rw (get-insert, differs) known, named)
        ])
      ]
    where
      at_name :
          (ps : Paths)
          → str_eq name other ≡ true
          → get name gen.generated_schema_names ≡ some ps
          → get q ps ≡ some r
      at_name ps same e = let name_eq = (str_eq_iff name other).0 same in cc

      not_new : str_eq name other ≡ true → get name gen.generated_schema_names ≡ none → ⊥
      not_new same e = let name_eq = (str_eq_iff name other).0 same in cc

  pub ref_name_of-IsNumbered : IsNumbered gen → IsNumbered (ref_name_of name p gen).1
  ref_name_of-IsNumbered n other paths e =
      elim (Option-cases (get name gen.generated_schema_names)) [
        | inr (ps, k) ↦
            let (numbers, some_path) = n name ps k in
            inserted (ref_name_in name p ps).1 (ref_name_in-Numbered name p ps numbers some_path)
              (rw (ref_name_of-known ps k) at e)
        | inl k ↦ inserted ((p, name) ∷ []) ((refl, tt), omega arith) (rw (ref_name_of-new k) at e)
      ]
    where
      inserted :
          (ps : Paths)
          → Numbered name 0 ps × (0 < length ps)
          → get other (insert name ps gen.generated_schema_names) ≡ some paths
          → Numbered other 0 paths × (0 < length paths)
      inserted ps numbers known = elim (Bool-cases (str_eq name other)) [
        | inl same ↦
            let name_eq = (str_eq_iff name other).0 same in
            let paths_eq : ps ≡ paths = cc (rw (get-insert, same) at known) in
            subst (λ o. Numbered o 0 paths × (0 < length paths)) name_eq
              (subst (λ t. Numbered name 0 t × (0 < length t)) paths_eq numbers)
        | inr differs ↦ n other paths (rw (get-insert, differs) at known)
      ]
