-- ===== src/Openapi/Document.antt =====
-- saphir_cli/src/openapi/generate/mod.rs, `fill_openapi_with_controllers`: the paths and tags of a document. `find` is the
-- search for the schema of a type, and `reason` the standard text of a status.
use saphir.Base.{
  ℕ, Bool, false, not, List, [], ◌∷◌, ◌++◌, any, Option, none, some, if◌then◌else◌, unwrap_or,
}
use saphir.Text.{Str, codes, str_eq}
use saphir.Text.Laws.{str_key}
use saphir.Openapi.Schema.{
  MimeType, Schema, ref, inline, OpenApiType, object_of, properties_of, Properties, nil, property,
  anonymous_input_object, SchemaGranularity, is_none_granularity,
}
use saphir.Openapi.Schema.Tags.{Tag}
use saphir.Openapi.Names.{with_i32, add_i32}
use saphir.Openapi.Schemas.{Gen, get_schema_ref, get_schema}
use saphir.Openapi.TypeInfo.{TypeInfo}
use saphir.Openapi.Types.{Outcome, wrapped, raw_type}
use saphir.Openapi.Handler.{Location, in_query, Parameter, BodyParamInfo}
use saphir.Openapi.Responses.{ResponseInfo}
use saphir.Openapi.Controllers.{ControllerInfo}

-- `OpenApiParameter` in the document
pub record DocParameter : Type 0 where
  pub name : Str
  pub location : Location
  pub required : Bool
  pub nullable : Bool
  pub schema : Schema

pub record RequestBody : Type 0 where
  pub description : Str
  pub required : Bool
  pub nullable : Bool
  pub content : List (MimeType × Schema)

pub record Response : Type 0 where
  pub description : Str
  pub content : List (MimeType × Schema)

-- `OpenApiPath`, without its empty fields
pub record Operation : Type 0 where
  pub parameters : List DocParameter
  pub description : Option Str
  pub operation_id : Str
  pub operation_name : Str
  pub tags : List Str
  pub request_body : Option RequestBody
  pub responses : List (Str × Response)

-- `doc.tags` and `doc.paths`, by the texts of the methods
pub record Doc : Type 0 where
  pub tags : List Tag
  pub paths : List (Str × List (Str × Operation))

abbrev pub given_parameter : Parameter → DocParameter
given_parameter p = record {
  name = p.name;
  location = p.location;
  required = p.required;
  nullable = p.nullable;
  schema = inline p.schema;
}

abbrev pub request_body_of : BodyParamInfo → Schema → RequestBody
request_body_of body schema = record {
  description = body.info.name;
  required = not body.info.is_optional;
  nullable = body.info.is_optional;
  content = (body.openapi_type, schema) ∷ [];
}

-- The tags of a controller
unfoldable pub tags_of : ControllerInfo ResponseInfo → List Tag
tags_of c =
    record {
      name = c.name;
      description = some (
          codes "Endpoints under the "
          ++ (c.name ++ (codes " controller (`" ++ (c.controller_name ++ codes "`)."))));
    }
    ∷ of_version c.version
  where
    of_version : Option Str → List Tag
    of_version none = []
    of_version (some version) =
        record {
          name = b'v' ∷ version;
          description = some (codes "Endpoints under the v" ++ (version ++ codes " controllers."));
        }
        ∷ record {
          name = c.name ++ (codes "-v" ++ version);
          description = some (
              codes "Endpoints under the "
              ++ (c.name
                  ++ (codes " controller v"
                      ++ (version ++ (codes " (`" ++ (c.controller_name ++ codes "`)."))))));
        }
        ∷ []

module _ (find : TypeInfo → Bool → Gen → Outcome) (g : SchemaGranularity) where
  abbrev pub as_ref : Bool
  as_ref = not (is_none_granularity g)

  -- `get_open_api_body_param`
  unfoldable pub body_param : BodyParamInfo → Gen → Option (RequestBody × Gen)
  unfolding get_schema
  body_param body gen =
      if body.info.is_type_deserializable
      then elim (find body.info as_ref gen) [
        | none ↦ none
        | some (some schema, gen') ↦ some (request_body_of body schema, gen')
        | some (none, gen') ↦
            let (schema, gen'') =
              get_schema g (unwrap_or body.info.rename body.info.name) none anonymous_input_object
                as_ref gen' in
            some (request_body_of body schema, gen'')
      ]
      else some (request_body_of body (inline anonymous_input_object), gen)

  abbrev pub property_schema : TypeInfo → Schema → Gen → Schema × Gen
  property_schema info (inline t) gen =
      if as_ref then get_schema_ref g info.name info.type_path t gen else (inline t, gen)
  property_schema info (ref s) gen = (ref s, gen)

  -- The loop over the properties of a body
  unfoldable pub property_parameters :
      TypeInfo → List Str → Properties → Gen → List DocParameter × Gen
  unfolding get_schema_ref str_eq
  property_parameters info required nil gen = ([], gen)
  property_parameters info required (property name schema ps) gen =
      let (schema', gen') = property_schema info schema gen in
      let (parameters, last) = property_parameters info required ps gen' in
      (
        record {
          name = name;
          location = in_query;
          required = any (str_eq name) required;
          nullable = false;
          schema = schema';
        }
            ∷ parameters,
        last,
      )

  abbrev pub type_parameters : TypeInfo → OpenApiType → Gen → List DocParameter × Gen
  type_parameters info (object_of (properties_of ps required false)) gen =
      property_parameters info required ps gen
  type_parameters info _ gen = ([], gen)

  -- `get_open_api_parameters_from_body_info`; the `unreachable!` of a reference is none.
  unfoldable pub body_parameters : BodyParamInfo → Gen → Option (List DocParameter × Gen)
  unfolding property_parameters
  body_parameters body gen =
      if body.info.is_type_deserializable
      then elim (find body.info false gen) [
        | none ↦ none
        | some (none, gen') ↦ some ([], gen')
        | some (some (ref _), gen') ↦ none
        | some (some (inline t), gen') ↦ some (type_parameters body.info t gen')
      ]
      else some ([], gen)

  -- The schema of a response, with the number of responses without a name so far
  unfoldable pub response_schema : Str → ResponseInfo → ℕ → Gen → Option (Option Schema × ℕ × Gen)
  unfolding get_schema with_i32
  response_schema model r n gen = elim r.anonymous_type [
    | some anon ↦ elim anon.schema [
      | ref s ↦ some (some (ref s), n, gen)
      | inline t ↦ elim anon.name [
        | some name ↦
            let (schema, gen') = get_schema g name none t as_ref gen in some (some schema, n, gen')
        | none ↦
            let (schema, gen') =
              get_schema g (with_i32 (model ++ codes "_response") (add_i32 n 1)) none t as_ref
                gen in
            some (some schema, add_i32 n 1, gen')
      ]
    ]
    | none ↦ elim r.info [
      | none ↦ some (none, n, gen)
      | some t ↦
          if t.is_type_serializable
          then elim (find t as_ref gen) [
            | none ↦ none
            | some (some schema, gen') ↦ some (some schema, n, gen')
            | some (none, gen') ↦ some (some (wrapped t (inline (raw_type t.name))), n, gen')
          ]
          else some (none, n, gen)
    ]
  ]

  abbrev pub content_of : MimeType → Option Schema → List (MimeType × Schema)
  content_of mime none = []
  content_of mime (some schema) = (mime, schema) ∷ []

  abbrev pub response_text : (ℕ → Option Str) → ResponseInfo → Str
  response_text reason r = elim r.info [ some t ↦ t.name | none ↦ unwrap_or (reason r.code) [] ]
