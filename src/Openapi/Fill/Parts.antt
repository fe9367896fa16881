-- ===== src/Openapi/Fill/Parts.antt =====
-- The references of request bodies, of parameters out of bodies, and of responses.
use saphir.Base.{
  ◌≡◌, refl, Bool, true, false, List, [], Option, none, some, unwrap_or, Bool-cases, inl, inr,
}
use saphir.Text.{Str}
use saphir.Openapi.Schema.{
  Schema, ref, inline, OpenApiType, string_of, number, integer, boolean, array, object_of,
  properties_of, dictionary, ref_object, anonymous_input, anonymous_output, Properties, nil,
  property, anonymous_input_object, SchemaGranularity,
}
use saphir.Openapi.Schemas.{Gen, get_schema}
use saphir.Openapi.TypeInfo.{TypeInfo}
use saphir.Openapi.Types.{Outcome}
use saphir.Openapi.Types.References.{
  Leads, Leads-kept, TypeLeads, AllLead, AllLead-kept, Closed, Sound, Sound-refl, Answers,
  get_schema-Answers,
}
use saphir.Openapi.Types.Closed.{Finds, FoundLeads, Sound-trans}
use saphir.Openapi.Handler.{BodyParamInfo}
use saphir.Openapi.Document.{
  DocParameter, RequestBody, request_body_of, as_ref, body_param, property_schema,
  property_parameters, type_parameters, body_parameters,
}
use saphir.Openapi.Fill.Kept.{ParametersLead, RequestLeads}

anonymous-TypeLeads : (gen : Gen) → TypeLeads gen anonymous_input_object
unfolding Leads
anonymous-TypeLeads gen = tt

pub inline-Leads : (gen : Gen) (t : OpenApiType) → TypeLeads gen t → Leads gen (inline t)
unfolding Leads
inline-Leads gen t h = h

pub Leads-inline : (gen : Gen) (t : OpenApiType) → Leads gen (inline t) → TypeLeads gen t
unfolding Leads
Leads-inline gen t h = h

module _ (find : TypeInfo → Bool → Gen → Outcome) (g : SchemaGranularity) where
  -- What is asked of the search: it ends, and its schemas lead; and it gives no reference where none is asked for.
  pub record Searches : Type 0 where
    pub finds :
        (info : TypeInfo) (by_ref : Bool) (gen : Gen)
        → Closed gen
        → Finds gen (find info by_ref gen)
    pub inlines :
        (info : TypeInfo) (gen after : Gen) (s : Str)
        → find info false gen ≡ some (some (ref s), after)
        → ⊥

  property_schema-Answers :
      (info : TypeInfo) (schema : Schema) (gen : Gen)
      → Closed gen
      → Leads gen schema
      → Answers gen
          (property_schema find g info schema gen).0
          (property_schema find g info schema gen).1
  unfolding get_schema
  property_schema-Answers info (ref s) gen closed h = (Sound-refl gen closed, h)
  property_schema-Answers info (inline t) gen closed h = elim (Bool-cases (as_ref find g)) [
    | inl wanted ↦
        rw wanted
          (get_schema-Answers g info.name info.type_path t true gen closed (Leads-inline gen t h))
    | inr unwanted ↦ rw unwanted (Sound-refl gen closed, h)
  ]

  property_parameters-Lead :
      (info : TypeInfo) (required : List Str) (ps : Properties) (gen : Gen)
      → Closed gen
      → AllLead gen ps
      → Sound gen (property_parameters find g info required ps gen).1
        × ParametersLead
            (property_parameters find g info required ps gen).1
            (property_parameters find g info required ps gen).0
  unfolding property_parameters AllLead
  property_parameters-Lead info required nil gen closed h = (Sound-refl gen closed, tt)
  property_parameters-Lead info required (property name schema ps) gen closed (h, hs) =
      let (schema', gen') = property_schema find g info schema gen in
      let (sound, leads) = property_schema-Answers info schema gen closed h in
      let (sound', leads') =
        property_parameters-Lead info required ps gen' sound.closed
          (AllLead-kept gen gen' sound.keeps.resolved ps hs) in
      (Sound-trans sound sound', (Leads-kept gen' _ sound'.keeps.resolved schema' leads, leads'))

  -- The request body is made, and its schema leads.
  abbrev pub Requests : BodyParamInfo → Gen → Type 0
  Requests body gen =
      (r : RequestBody) × (after : Gen) × (body_param find g body gen ≡ some (r, after))
      × Sound gen after
      × RequestLeads after (some r)

  found-Requests :
      (body : BodyParamInfo) (gen gen' : Gen) (found : Option Schema)
      → body.info.is_type_deserializable ≡ true
      → find body.info (as_ref find g) gen ≡ some (found, gen')
      → Sound gen gen'
      → FoundLeads gen' found
      → Requests body gen
  unfolding body_param
  found-Requests body gen gen' (some schema) typed e sound leads =
      rw (e, typed, body_param) (request_body_of body schema, gen', refl, sound, (leads, tt))
  found-Requests body gen gen' none typed e sound leads =
      let name = unwrap_or body.info.rename body.info.name in
      let (sound', leads') =
        get_schema-Answers g name none anonymous_input_object (as_ref find g) gen' sound.closed
          (anonymous-TypeLeads gen') in
      rw (e, typed, body_param)
        (
          request_body_of body
              (get_schema g name none anonymous_input_object (as_ref find g) gen').0,
          _,
          refl,
          Sound-trans sound sound',
          (leads', tt),
        )

  pub body_param-Requests :
      Searches → (body : BodyParamInfo) (gen : Gen) → Closed gen → Requests body gen
  unfolding body_param
  body_param-Requests searches body gen closed =
      elim (Bool-cases body.info.is_type_deserializable) [
        | inr untyped ↦
            rw (untyped, body_param)
              (
                request_body_of body (inline anonymous_input_object),
                gen,
                refl,
                Sound-refl gen closed,
                (inline-Leads gen _ (anonymous-TypeLeads gen), tt),
              )
        | inl typed ↦
            let (found, gen', e, sound, leads) =
              searches.finds body.info (as_ref find g) gen closed in
            found-Requests body gen gen' found typed e sound leads
      ]

  -- The parameters out of a body are made, and their schemas lead.
  abbrev pub Lists : BodyParamInfo → Gen → Type 0
  Lists body gen =
      (ps : List DocParameter) × (after : Gen) × (body_parameters find g body gen
        ≡ some (ps, after))
      × Sound gen after
      × ParametersLead after ps

  type_parameters-Lead :
      (info : TypeInfo) (t : OpenApiType) (gen : Gen)
      → Closed gen
      → TypeLeads gen t
      → Sound gen (type_parameters find g info t gen).1
        × ParametersLead (type_parameters find g info t gen).1 (type_parameters find g info t gen).0
  unfolding Leads
  type_parameters-Lead info (object_of (properties_of ps required false)) gen closed h =
      property_parameters-Lead info required ps gen closed h
  type_parameters-Lead info (object_of (properties_of ps required true)) gen closed h =
      (Sound-refl gen closed, tt)
  type_parameters-Lead info (object_of (dictionary _ _)) gen closed h = (Sound-refl gen closed, tt)
  type_parameters-Lead info (object_of (ref_object _)) gen closed h = (Sound-refl gen closed, tt)
  type_parameters-Lead info (object_of (anonymous_input _)) gen closed h =
      (Sound-refl gen closed, tt)
  type_parameters-Lead info (object_of anonymous_output) gen closed h = (Sound-refl gen closed, tt)
  type_parameters-Lead info (string_of _) gen closed h = (Sound-refl gen closed, tt)
  type_parameters-Lead info (number _) gen closed h = (Sound-refl gen closed, tt)
  type_parameters-Lead info (integer _) gen closed h = (Sound-refl gen closed, tt)
  type_parameters-Lead info boolean gen closed h = (Sound-refl gen closed, tt)
  type_parameters-Lead info (array _ _ _) gen closed h = (Sound-refl gen closed, tt)

  found-Lists :
      Searches
      → (body : BodyParamInfo) (gen gen' : Gen) (found : Option Schema)
      → body.info.is_type_deserializable ≡ true
      → find body.info false gen ≡ some (found, gen')
      → Sound gen gen'
      → FoundLeads gen' found
      → Lists body gen
  unfolding body_parameters
  found-Lists searches body gen gen' none typed e sound leads =
      rw (e, typed, body_parameters) ([], gen', refl, sound, tt)
  found-Lists searches body gen gen' (some (ref s)) typed e sound leads =
      absurd (searches.inlines body.info gen gen' s e)
  found-Lists searches body gen gen' (some (inline t)) typed e sound leads =
      let (sound', leads') =
        type_parameters-Lead body.info t gen' sound.closed (Leads-inline gen' t leads) in
      rw (e, typed, body_parameters) (_, _, refl, Sound-trans sound sound', leads')

  pub body_parameters-Lists :
      Searches → (body : BodyParamInfo) (gen : Gen) → Closed gen → Lists body gen
  unfolding body_parameters
  body_parameters-Lists searches body gen closed =
      elim (Bool-cases body.info.is_type_deserializable) [
        | inr untyped ↦ rw (untyped, body_parameters) ([], gen, refl, Sound-refl gen closed, tt)
        | inl typed ↦
            let (found, gen', e, sound, leads) = searches.finds body.info false gen closed in
            found-Lists searches body gen gen' found typed e sound leads
      ]
