-- ===== src/Openapi/Fill/Answers.antt =====
-- The references of responses.
use saphir.Base.{
  ℕ, ◌≡◌, refl, Bool, true, List, [], ◌∷◌, ◌++◌, Option, none, some, All, Bool-cases, Option-cases,
  inl, inr,
}
use saphir.Base.Dict.{insert}
use saphir.Text.{Str, codes}
use saphir.Text.Decimal.{print_u64}
use saphir.Text.Laws.{str_key}
use saphir.Openapi.Schema.{Schema, ref, inline, SchemaGranularity}
use saphir.Openapi.Names.{with_i32, add_i32}
use saphir.Openapi.Schemas.{Gen}
use saphir.Openapi.TypeInfo.{TypeInfo}
use saphir.Openapi.Types.{Outcome, wrapped, raw_type}
use saphir.Openapi.Types.References.{Leads, Closed, Sound, Sound-refl, get_schema-Answers}
use saphir.Openapi.Types.Closed.{FoundLeads, Sound-trans, wrapped-Leads, raw_type-TypeLeads}
use saphir.Openapi.Responses.{ResponseInfo}
use saphir.Openapi.Document.{Response, as_ref, response_schema, content_of, response_text}
use saphir.Openapi.Fill.{fill_responses}
use saphir.Openapi.Fill.Kept.{
  ContentLeads, ResponsesLead, AnonymousLeads, ResponsesLead-insert, ResponsesLead-kept,
  AnonymousLeads-kept, All-each,
}
use saphir.Openapi.Fill.Parts.{Searches, inline-Leads, Leads-inline}

module _ (find : TypeInfo → Bool → Gen → Outcome) (g : SchemaGranularity) (model : Str) where
  -- The schema of a response is found, and leads.
  abbrev pub Answered : ResponseInfo → ℕ → Gen → Type 0
  Answered r n gen =
      (schema : Option Schema) × (n' : ℕ) × (after : Gen) × (response_schema find g model r n gen
        ≡ some (schema, n', after))
      × Sound gen after
      × FoundLeads after schema

  anonymous-Answered :
      (r : ResponseInfo) (n : ℕ) (gen : Gen) (schema : Schema) (name : Option Str)
      → r.anonymous_type ≡ some (record { schema = schema; name = name })
      → Closed gen
      → Leads gen schema
      → Answered r n gen
  unfolding response_schema
  anonymous-Answered r n gen (ref s) name a closed leads =
      rw (a, response_schema) (some (ref s), n, gen, refl, Sound-refl gen closed, leads)
  anonymous-Answered r n gen (inline t) (some name) a closed leads =
      let (sound, leads') =
        get_schema-Answers g name none t (as_ref find g) gen closed (Leads-inline gen t leads) in
      rw (a, response_schema) (_, n, _, refl, sound, leads')
  anonymous-Answered r n gen (inline t) none a closed leads =
      let name = with_i32 (model ++ codes "_response") (add_i32 n 1) in
      let (sound, leads') =
        get_schema-Answers g name none t (as_ref find g) gen closed (Leads-inline gen t leads) in
      rw (a, response_schema) (_, add_i32 n 1, _, refl, sound, leads')

  found-Answered :
      (r : ResponseInfo) (n : ℕ) (t : TypeInfo) (gen gen' : Gen) (found : Option Schema)
      → r.anonymous_type ≡ none
      → r.info ≡ some t
      → t.is_type_serializable ≡ true
      → find t (as_ref find g) gen ≡ some (found, gen')
      → Sound gen gen'
      → FoundLeads gen' found
      → Answered r n gen
  unfolding response_schema
  found-Answered r n t gen gen' (some schema) a i typed e sound leads =
      rw (a, i, e, typed, response_schema) (some schema, n, gen', refl, sound, leads)
  found-Answered r n t gen gen' none a i typed e sound leads =
      rw (a, i, e, typed, response_schema)
        (
          some (wrapped t (inline (raw_type t.name))),
          n,
          gen',
          refl,
          sound,
          wrapped-Leads t (inline (raw_type t.name)) gen'
              (inline-Leads gen' _ (raw_type-TypeLeads t.name gen')),
        )

  response_schema-Answered :
      Searches find g
      → (r : ResponseInfo) (n : ℕ) (gen : Gen) → Closed gen
      → AnonymousLeads gen r.anonymous_type
      → Answered r n gen
  unfolding response_schema
  response_schema-Answered searches r n gen closed leads = elim (Option-cases r.anonymous_type) [
    | inr (anon, a) ↦ anonymous-Answered r n gen anon.schema anon.name a closed (rw a at leads)
    | inl a ↦ elim (Option-cases r.info) [
      | inl i ↦ rw (a, i, response_schema) (none, n, gen, refl, Sound-refl gen closed, tt)
      | inr (t, i) ↦ elim (Bool-cases t.is_type_serializable) [
        | inr untyped ↦
            rw (a, i, untyped, response_schema) (none, n, gen, refl, Sound-refl gen closed, tt)
        | inl typed ↦
            let (found, gen', e, sound, leads') = searches.finds t (as_ref find g) gen closed in
            found-Answered r n t gen gen' found a i typed e sound leads'
      ]
    ]
  ]

  module _ (reason : ℕ → Option Str) where
    -- The responses of a handler are filled in, and lead.
    abbrev pub Filled : List ResponseInfo → List (Str × Response) → ℕ → Gen → Type 0
    Filled responses filled n gen =
        (rs : List (Str × Response)) × (n' : ℕ) × (after : Gen) × (fill_responses find g reason
            model responses filled n gen
          ≡ some (rs, n', after))
        × Sound gen after
        × ResponsesLead after rs

    content-Leads :
        (gen : Gen) (r : ResponseInfo) (schema : Option Schema)
        → FoundLeads gen schema
        → ContentLeads gen (content_of find g r.mime schema)
    content-Leads gen r none h = tt
    content-Leads gen r (some schema) h = (h, tt)

    pub fill_responses-Filled :
        Searches find g
        → (responses : List ResponseInfo) (filled : List (Str × Response)) (n : ℕ) (gen : Gen)
        → Closed gen
        → All (λ (r : ResponseInfo). AnonymousLeads gen r.anonymous_type) responses
        → ResponsesLead gen filled
        → Filled responses filled n gen
    unfolding fill_responses
    fill_responses-Filled searches [] filled n gen closed given leads =
        (filled, n, gen, refl, Sound-refl gen closed, leads)
    fill_responses-Filled searches (r ∷ responses) filled n gen closed (h, hs) leads =
        let (schema, n', gen', e, sound, found) =
          response_schema-Answered searches r n gen closed h in
        let kept = sound.keeps.resolved in
        let (rs, n'', last, e', sound', leads') =
          fill_responses-Filled searches responses
            (insert (print_u64 r.code)
              (record {
                description = response_text find g reason r;
                content = content_of find g r.mime schema;
              })
              filled)
            n' gen' sound.closed
            (All-each _ _ responses (λ x. AnonymousLeads-kept gen gen' kept x.anonymous_type) hs)
            (ResponsesLead-insert gen' (print_u64 r.code) _ filled
              (content-Leads gen' r schema found)
              (ResponsesLead-kept gen gen' kept filled leads)) in
        (rs, n'', last, rw (e, fill_responses) e', Sound-trans sound sound', leads')
