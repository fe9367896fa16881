-- ===== src/Openapi.antt =====
-- saphir_cli/src/openapi: the generation of an OpenAPI document from the source of a server. The trees of the
-- crate `syn` are data types with what the code reads of them (Syn), and the crate's files are a parameter.
pub mod Syn
pub mod Attributes
pub mod Controllers
pub mod Crate
pub mod Document
pub mod Fill
pub mod Handler
pub mod Names
pub mod Operations
pub mod Responses
pub mod Route
pub mod Schema
pub mod Schemas
pub mod TypeInfo
pub mod Types
