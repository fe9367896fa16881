-- ===== src/Openapi/Fill/Leads.antt =====
-- Every reference of the document that is filled in leads to a component.
use saphir.Base.{
  ℕ, ◌≡◌, refl, Bool, List, [], ◌∷◌, ◌++◌, map, Option, none, some, All, All-append, Bool-cases,
  inl, inr,
}
use saphir.Text.{Str}
use saphir.Openapi.Schema.{PathMethod, SchemaGranularity}
use saphir.Openapi.Schemas.{Gen}
use saphir.Openapi.TypeInfo.{TypeInfo}
use saphir.Openapi.Types.{Outcome}
use saphir.Openapi.Types.References.{TypeLeads, Closed, Sound, Sound-refl}
use saphir.Openapi.Types.Closed.{Sound-trans}
use saphir.Openapi.Handler.{Parameter, BodyParamInfo}
use saphir.Openapi.Route.{RouteInfo}
use saphir.Openapi.Responses.{ResponseInfo}
use saphir.Openapi.Controllers.{HandlerInfo, ControllerInfo}
use saphir.Openapi.Document.{DocParameter, RequestBody, Doc, given_parameter, tags_of}
use saphir.Openapi.Fill.{
  is_get, add_operation, Filling, route_body, operation_of, fill_route, fill_routes, fill_handlers,
  fill_controllers,
}
use saphir.Openapi.Fill.Kept.{
  ParametersLead, RequestLeads, OperationLeads, DocLeads, HandlerLeads, ControllerLeads,
  add_operation-DocLeads, All-each, ParametersLead-kept, RequestLeads-kept, DocLeads-kept,
  HandlerLeads-kept, ControllerLeads-kept,
}
use saphir.Openapi.Fill.Parts.{Searches, inline-Leads, body_param-Requests, body_parameters-Lists}
use saphir.Openapi.Fill.Answers.{fill_responses-Filled}

given-Lead :
    (gen : Gen) (ps : List Parameter)
    → All (λ (p : Parameter). TypeLeads gen p.schema) ps
    → ParametersLead gen (map given_parameter ps)
given-Lead gen [] h = tt
given-Lead gen (p ∷ ps) (h, hs) = (inline-Leads gen p.schema h, given-Lead gen ps hs)

-- A step ends, keeps what leads, and the references of its document lead.
abbrev pub Steps : Gen → Option Filling → Type 0
Steps gen outcome =
    (after : Filling) × (outcome ≡ some after) × Sound gen after.gen × DocLeads after.gen after.doc

-- The document after some controllers
abbrev pub Fills : Gen → Option (Doc × Gen) → Type 0
Fills gen outcome =
    (doc : Doc) × (after : Gen) × (outcome ≡ some (doc, after))
    × Sound gen after
    × DocLeads after doc

module _ (find : TypeInfo → Bool → Gen → Outcome) (g : SchemaGranularity) (reason : ℕ → Option Str)
    (searches : Searches find g) where
  route_body-Leads :
      (method : PathMethod) (body : Option BodyParamInfo) (gen : Gen)
      → Closed gen
      → (ps : List DocParameter) × (request : Option RequestBody) × (after : Gen) × (route_body find
            g reason method body gen
          ≡ some (ps, request, after))
        × Sound gen after
        × ParametersLead after ps
        × RequestLeads after request
  unfolding route_body
  route_body-Leads method none gen closed = ([], none, gen, refl, Sound-refl gen closed, tt, tt)
  route_body-Leads method (some body) gen closed = elim (Bool-cases (is_get method)) [
    | inl getting ↦
        let (ps, after, e, sound, leads) = body_parameters-Lists find g searches body gen closed in
        rw (getting, e, route_body) (ps, none, after, refl, sound, leads, tt)
    | inr writing ↦
        let (r, after, e, sound, leads) = body_param-Requests find g searches body gen closed in
        rw (writing, e, route_body) ([], some r, after, refl, sound, tt, leads)
  ]

  fill_route-Steps :
      (c : ControllerInfo ResponseInfo) (h : HandlerInfo ResponseInfo) (route : RouteInfo)
      (f : Filling)
      → Closed f.gen
      → HandlerLeads f.gen h
      → DocLeads f.gen f.doc
      → Steps f.gen (fill_route find g reason c h route f)
  unfolding fill_route
  fill_route-Steps c h route f closed given leads =
      let (ps, request, gen', e, sound, ps_lead, request_leads) =
        route_body-Leads route.method h.body_info f.gen closed in
      let given' = HandlerLeads-kept f.gen gen' sound.keeps.resolved h given in
      let (rs, n, gen'', e', sound', rs_lead) =
        fill_responses-Filled find g c.name reason searches h.responses [] f.nameless gen'
          sound.closed given'.1 tt in
      let kept = sound'.keeps.resolved in
      let both = Sound-trans sound sound' in
      let given'' = HandlerLeads-kept gen' gen'' kept h given' in
      let leads' : OperationLeads gen'' (operation_of find g reason c h route ps request rs) = (
        All-append _ (map given_parameter h.parameters) ps (given-Lead gen'' h.parameters given''.0)
            (ParametersLead-kept gen' gen'' kept ps ps_lead),
        RequestLeads-kept gen' gen'' kept request request_leads,
        rs_lead,
      ) in
      let operation = operation_of find g reason c h route ps request rs in
      let tagged = record f.doc { tags = f.doc.tags ++ tags_of c } in
      (
        record {
          doc = add_operation route.uri route.method operation tagged;
          nameless = n;
          gen = gen'';
        },
        rw (e, e', fill_route),
        both,
        add_operation-DocLeads gen'' route.uri route.method operation tagged leads'
            (DocLeads-kept f.gen gen'' both.keeps.resolved f.doc leads),
      )

  fill_routes-Steps :
      (c : ControllerInfo ResponseInfo) (h : HandlerInfo ResponseInfo) (routes : List RouteInfo)
      (f : Filling)
      → Closed f.gen
      → HandlerLeads f.gen h
      → DocLeads f.gen f.doc
      → Steps f.gen (fill_routes find g reason c h routes f)
  unfolding fill_routes
  fill_routes-Steps c h [] f closed given leads = (f, refl, Sound-refl f.gen closed, leads)
  fill_routes-Steps c h (route ∷ routes) f closed given leads =
      let (f', e, sound, leads') = fill_route-Steps c h route f closed given leads in
      let (last, e', sound', leads'') =
        fill_routes-Steps c h routes f' sound.closed
          (HandlerLeads-kept f.gen f'.gen sound.keeps.resolved h given) leads' in
      (last, rw (e, fill_routes) e', Sound-trans sound sound', leads'')

  fill_handlers-Steps :
      (c : ControllerInfo ResponseInfo) (handlers : List (HandlerInfo ResponseInfo)) (f : Filling)
      → Closed f.gen
      → All (HandlerLeads f.gen) handlers
      → DocLeads f.gen f.doc
      → Steps f.gen (fill_handlers find g reason c handlers f)
  unfolding fill_handlers
  fill_handlers-Steps c [] f closed given leads = (f, refl, Sound-refl f.gen closed, leads)
  fill_handlers-Steps c (h ∷ handlers) f closed (given, rest) leads =
      let (f', e, sound, leads') = fill_routes-Steps c h h.routes f closed given leads in
      let (last, e', sound', leads'') =
        fill_handlers-Steps c handlers f' sound.closed
          (All-each _ _ handlers (HandlerLeads-kept f.gen f'.gen sound.keeps.resolved) rest)
          leads' in
      (last, rw (e, fill_handlers) e', Sound-trans sound sound', leads'')

  pub fill_controllers-Fills :
      (controllers : List (ControllerInfo ResponseInfo)) (doc : Doc) (gen : Gen)
      → Closed gen
      → All (ControllerLeads gen) controllers
      → DocLeads gen doc
      → Fills gen (fill_controllers find g reason controllers doc gen)
  unfolding fill_controllers
  fill_controllers-Fills [] doc gen closed given leads =
      (doc, gen, refl, Sound-refl gen closed, leads)
  fill_controllers-Fills (c ∷ controllers) doc gen closed (given, rest) leads =
      let (f, e, sound, leads') =
        fill_handlers-Steps c c.handlers (record { doc = doc; nameless = 0; gen = gen }) closed
          given leads in
      let (doc', after, e', sound', leads'') =
        fill_controllers-Fills controllers f.doc f.gen sound.closed
          (All-each _ _ controllers (ControllerLeads-kept gen f.gen sound.keeps.resolved) rest)
          leads' in
      (doc', after, rw (e, fill_controllers) e', Sound-trans sound sound', leads'')
