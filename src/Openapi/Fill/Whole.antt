-- ===== src/Openapi/Fill/Whole.antt =====
-- The document that is filled in with the schemas of a crate's types.
use saphir.Base.{
  ℕ, zero, suc, ◌<◌, ◌≡◌, Bool, false, ◌&&◌, List, [], Option, some, All, Bool-cases, Option-cases,
  inl, inr,
}
use saphir.Text.{Str}
use saphir.Openapi.Attributes.{Case}
use saphir.Openapi.Schema.{ref, inline, OpenApiType, nil, SchemaGranularity, is_all}
use saphir.Openapi.Schemas.{Gen, get_schema}
use saphir.Openapi.TypeInfo.{TypeInfo, Definition}
use saphir.Openapi.Types.{
  Outcome, TypeItem, struct_item, enum_item, wrapped, fields_of, struct_schema, enum_schema,
  schema_of,
}
use saphir.Openapi.Types.References.{Closed}
use saphir.Openapi.Types.Closed.{Falls, schema_of-Finds}
use saphir.Openapi.Responses.{ResponseInfo}
use saphir.Openapi.Controllers.{ControllerInfo}
use saphir.Openapi.Document.{Doc}
use saphir.Openapi.Fill.{fill_controllers}
use saphir.Openapi.Fill.Kept.{ControllerLeads, DocLeads}
use saphir.Openapi.Fill.Leads.{Fills, fill_controllers-Fills}

wrapped-ne-ref :
    (info : TypeInfo) (t : OpenApiType) (s : Str) (a b : Gen)
    → ◌≡◌ {A = Outcome} (some (some (wrapped info (inline t)), a)) (some (some (ref s), b))
    → ⊥
wrapped-ne-ref info t s a b e = elim (Bool-cases info.is_array) [
  | inl array ↦ absurd_of (rw array at e)
  | inr single ↦ elim (Bool-cases info.is_dictionary) [
    | inl keyed ↦ absurd_of (rw (single, keyed) at e)
    | inr plain ↦ absurd_of (rw (single, plain) at e)
  ]
]
  where
    absurd_of :
        {t' : OpenApiType}
        → ◌≡◌ {A = Outcome} (some (some (inline t'), a)) (some (some (ref s), b))
        → ⊥
    absurd_of e' = cc

module _ (to_case : Str → Case → Str) (definition_in : Str → Str → Option Definition)
    (item_at : Str → Str → Str → Option TypeItem) (parse_u32 : Str → Option ℕ)
    (g : SchemaGranularity) where
  -- Where no reference is asked for, none is given.
  schema_of-ne-ref :
      (fuel : ℕ) (scope : Str) (info : TypeInfo) (gen after : Gen) (s : Str)
      → schema_of to_case definition_in item_at parse_u32 g fuel scope info false gen
        ≡ some (some (ref s), after)
      → ⊥
  unfolding schema_of struct_schema enum_schema get_schema
  schema_of-ne-ref zero scope info gen after s e = cc
  schema_of-ne-ref (suc fuel) scope info gen after s e = elim (Option-cases info.type_path) [
    | inl p ↦ let f = rw (p, schema_of) at e in cc
    | inr (path, p) ↦ elim (Option-cases (item_at scope path info.name)) [
      | inl i ↦ let f = rw (p, i, schema_of) at e in cc
      | inr (enum_item at variants attrs, i) ↦
          wrapped-ne-ref info _ s _ after (rw (p, i, schema_of) at e)
      | inr (struct_item at fields attrs, i) ↦
          let look : TypeInfo → Gen → Outcome = λ t.
            schema_of to_case definition_in item_at parse_u32 g fuel at t (is_all g && false) in
          elim (Option-cases
            (fields_of to_case definition_in item_at parse_u32 g look at attrs fields nil [] gen)) [
              | inl r ↦ let f = rw (p, i, schema_of, r) at e in cc
              | inr (((ps, required), gen'), r) ↦
                  wrapped-ne-ref info _ s _ after (rw (p, i, schema_of, r) at e)
            ]
    ]
  ]

  abbrev pub search_in : Str → ℕ → TypeInfo → Bool → Gen → Outcome
  search_in scope fuel info by_ref gen =
      schema_of to_case definition_in item_at parse_u32 g fuel scope info by_ref gen

  -- Where no type contains itself, filling a document with controllers ends, with more fuel than the rank of any type. Every
  -- reference of the document leads to a component then, if those of the document, of the components and of the
  -- controllers did before.
  pub fill_controllers-DocLeads :
      (rank : Str → TypeInfo → ℕ)
      → Falls to_case definition_in item_at parse_u32 g rank
      → (scope : Str) (fuel : ℕ) → ((info : TypeInfo) → rank scope info < fuel)
      → (reason : ℕ → Option Str) (controllers : List (ControllerInfo ResponseInfo)) (doc : Doc)
        (gen : Gen)
      → Closed gen
      → All (ControllerLeads gen) controllers
      → DocLeads gen doc
      → Fills gen (fill_controllers (search_in scope fuel) g reason controllers doc gen)
  fill_controllers-DocLeads rank falls scope fuel enough reason controllers doc gen closed given
        leads =
      fill_controllers-Fills (search_in scope fuel) g reason
        (record {
          finds = λ info by_ref gen' c.
              schema_of-Finds to_case definition_in item_at parse_u32 g rank falls fuel scope info
                by_ref gen' (enough info) c;
          inlines = λ info gen' after s e. schema_of-ne-ref fuel scope info gen' after s e;
        })
        controllers doc gen closed given leads
