-- ===== src/Openapi/Fill/Kept.antt =====
-- The references of a document: of its parameters, request bodies and responses.
use saphir.Base.{List, [], ◌∷◌, Option, none, some, unwrap_or, All, Bool-cases, inl, inr}
use saphir.Base.Dict.{get, insert}
use saphir.Text.{Str, str_eq}
use saphir.Text.Laws.{str_key}
use saphir.Openapi.Schema.{MimeType, Schema, PathMethod, method_to_str}
use saphir.Openapi.Schemas.{Gen}
use saphir.Openapi.Schemas.Leads.{Resolves}
use saphir.Openapi.Types.References.{Leads, Leads-kept, TypeLeads, TypeLeads-kept}
use saphir.Openapi.Handler.{Parameter}
use saphir.Openapi.Responses.{ResponseInfo, AnonymousType}
use saphir.Openapi.Controllers.{HandlerInfo, ControllerInfo}
use saphir.Openapi.Document.{DocParameter, RequestBody, Response, Operation, Doc}
use saphir.Openapi.Fill.{add_operation}

abbrev pub ParametersLead : Gen → List DocParameter → Type 0
ParametersLead gen ps = All (λ (p : DocParameter). Leads gen p.schema) ps

abbrev pub ContentLeads : Gen → List (MimeType × Schema) → Type 0
ContentLeads gen content = All (λ (c : MimeType × Schema). Leads gen c.1) content

abbrev pub RequestLeads : Gen → Option RequestBody → Type 0
RequestLeads gen none = Unit
RequestLeads gen (some r) = ContentLeads gen r.content

abbrev pub ResponsesLead : Gen → List (Str × Response) → Type 0
ResponsesLead gen rs = All (λ (r : Str × Response). ContentLeads gen r.1.content) rs

abbrev pub OperationLeads : Gen → Operation → Type 0
OperationLeads gen o =
    ParametersLead gen o.parameters
    × RequestLeads gen o.request_body
    × ResponsesLead gen o.responses

abbrev pub PathLeads : Gen → List (Str × Operation) → Type 0
PathLeads gen m = All (λ (o : Str × Operation). OperationLeads gen o.1) m

-- Every reference of a document leads to a component.
abbrev pub DocLeads : Gen → Doc → Type 0
DocLeads gen doc = All (λ (p : Str × List (Str × Operation)). PathLeads gen p.1) doc.paths

-- What controllers bring along: the types of their parameters and of their responses
abbrev pub AnonymousLeads : Gen → Option AnonymousType → Type 0
AnonymousLeads gen none = Unit
AnonymousLeads gen (some anon) = Leads gen anon.schema

abbrev pub HandlerLeads : Gen → HandlerInfo ResponseInfo → Type 0
HandlerLeads gen h =
    All (λ (p : Parameter). TypeLeads gen p.schema) h.parameters
    × All (λ (r : ResponseInfo). AnonymousLeads gen r.anonymous_type) h.responses

abbrev pub ControllerLeads : Gen → ControllerInfo ResponseInfo → Type 0
ControllerLeads gen c = All (HandlerLeads gen) c.handlers

-- What holds of all entries holds of them after one more was put in.
All-insert :
    {A : Type 0} (P : A → Type 0) (k : Str) (a : A) (m : List (Str × A))
    → P a
    → All (λ (e : Str × A). P e.1) m
    → All (λ (e : Str × A). P e.1) (insert k a m)
unfolding insert
All-insert P k a [] h hs = (h, tt)
All-insert P k a ((j, b) ∷ m) h hs = elim (Bool-cases (str_eq j k)) [
  | inl same ↦ rw (same, insert) (h, hs.1)
  | inr differs ↦ rw (differs, insert) (hs.0, All-insert P k a m h hs.1)
]

pub ResponsesLead-insert :
    (gen : Gen) (k : Str) (r : Response) (rs : List (Str × Response))
    → ContentLeads gen r.content
    → ResponsesLead gen rs
    → ResponsesLead gen (insert k r rs)
ResponsesLead-insert gen k r rs h hs =
    All-insert (λ (x : Response). ContentLeads gen x.content) k r rs h hs

unwrap_or-PathLeads :
    (gen : Gen) (k : Str) (paths : List (Str × List (Str × Operation)))
    → All (λ (p : Str × List (Str × Operation)). PathLeads gen p.1) paths
    → PathLeads gen (unwrap_or (get k paths) [])
unfolding get
unwrap_or-PathLeads gen k [] h = tt
unwrap_or-PathLeads gen k ((j, m) ∷ paths) h = elim (Bool-cases (str_eq j k)) [
  | inl same ↦ rw (same, get) h.0
  | inr differs ↦ rw (differs, get) (unwrap_or-PathLeads gen k paths h.1)
]

pub add_operation-DocLeads :
    (gen : Gen) (path : Str) (method : PathMethod) (o : Operation) (doc : Doc)
    → OperationLeads gen o
    → DocLeads gen doc
    → DocLeads gen (add_operation path method o doc)
unfolding add_operation
add_operation-DocLeads gen path method o doc h hs =
    All-insert (PathLeads gen) path _ doc.paths
      (All-insert (OperationLeads gen) (method_to_str method) o _ h
        (unwrap_or-PathLeads gen path doc.paths hs))
      hs

-- What holds of all members, where each is taken along
pub All-each :
    {A : Type 0} (P Q : A → Type 0) (xs : List A) → ((x : A) → P x → Q x) → All P xs → All Q xs
All-each P Q [] f h = tt
All-each P Q (x ∷ xs) f h = (f x h.0, All-each P Q xs f h.1)

module _ (a b : Gen) (kept : (s : Str) → Resolves a s → Resolves b s) where
  pub ParametersLead-kept : (ps : List DocParameter) → ParametersLead a ps → ParametersLead b ps
  ParametersLead-kept ps = All-each _ _ ps (λ p. Leads-kept a b kept p.schema)

  ContentLeads-kept :
      (content : List (MimeType × Schema)) → ContentLeads a content → ContentLeads b content
  ContentLeads-kept content = All-each _ _ content (λ c. Leads-kept a b kept c.1)

  pub RequestLeads-kept : (r : Option RequestBody) → RequestLeads a r → RequestLeads b r
  RequestLeads-kept none h = tt
  RequestLeads-kept (some r) h = ContentLeads-kept r.content h

  pub ResponsesLead-kept : (rs : List (Str × Response)) → ResponsesLead a rs → ResponsesLead b rs
  ResponsesLead-kept rs = All-each _ _ rs (λ r. ContentLeads-kept r.1.content)

  OperationLeads-kept : (o : Operation) → OperationLeads a o → OperationLeads b o
  OperationLeads-kept o (ps, r, rs) = (
    ParametersLead-kept o.parameters ps,
    RequestLeads-kept o.request_body r,
    ResponsesLead-kept o.responses rs,
  )

  pub DocLeads-kept : (doc : Doc) → DocLeads a doc → DocLeads b doc
  DocLeads-kept doc = All-each _ _ doc.paths (λ p. All-each _ _ p.1 (λ o. OperationLeads-kept o.1))

  pub AnonymousLeads-kept : (o : Option AnonymousType) → AnonymousLeads a o → AnonymousLeads b o
  AnonymousLeads-kept none h = tt
  AnonymousLeads-kept (some anon) h = Leads-kept a b kept anon.schema h

  pub HandlerLeads-kept : (h : HandlerInfo ResponseInfo) → HandlerLeads a h → HandlerLeads b h
  HandlerLeads-kept h (ps, rs) = (
    All-each _ _ h.parameters (λ p. TypeLeads-kept a b kept p.schema) ps,
    All-each _ _ h.responses (λ r. AnonymousLeads-kept r.anonymous_type) rs,
  )

  pub ControllerLeads-kept :
      (c : ControllerInfo ResponseInfo) → ControllerLeads a c → ControllerLeads b c
  ControllerLeads-kept c = All-each _ _ c.handlers HandlerLeads-kept
