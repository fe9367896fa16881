-- ===== src/Lib.antt =====
-- Saphir, the asynchronous web framework, as a model of what it does with a request.
--
-- A request comes to the stack of the server (saphir/src/server.rs), which resolves the metadata of
-- its endpoint, makes a context of it and hands that to the chain of middlewares. The end of the chain
-- dispatches through the router (saphir/src/router.rs): the handler of the endpoint, behind its guards,
-- makes a responder, and the context comes back with a response. An error at any place becomes a
-- response as well.
--
-- Which file is about which part:
--   Base         shared names: tests on numbers, lists, results and association lists.
--   Text         texts as lists of code points, with the functions of Rust's `str` that the code calls;
--                Text/Decimal is the printing and parsing of `u64`.
--   Path         saphir/src/utils.rs, `UriPathMatcher` and `UriPathSegmentMatcher`: parsing
--                (`new_path`, `new_segment`), Path/Match for matching and captures, Path/Order for `Ord`.
--   Endpoint     saphir/src/utils.rs, `EndpointResolver`: methods, metadata, `resolve`.
--   Http         saphir/src/http_context.rs: `State`, `HandlerMetadata`, `HttpContext`; and what of
--                saphir/src/request.rs the router reads.
--   Guard        saphir/src/guard.rs.
--   Controller   saphir/src/controller.rs: the builder of the endpoints of a controller.
--   Errors       saphir/src/error.rs: the errors and the status of each.
--   Router       saphir/src/router.rs: the builder (`route`, `controller`, `build`), the resolution
--                (`resolve_from`, `resolve_metadata_from`), and `dispatch`.
--   Middleware   saphir/src/middleware.rs: rules, the chain (`next`) and its builder (`apply`).
--   Server       saphir/src/server.rs: `invoke`, `invoke_with_timeout`, the handlers' `call`, and the
--                polls of the shutdown; Server/Shutdown has the counter of requests as a step relation on
--                what `enter`, `inner_invoke` and `invoke_with_timeout` make of it.
--                Server/Listener is the settings, Server/Start the builder, `write_into_static` and the
--                start of `run`, and Server/Ssl the certificates and keys of a configuration.
--   Redirect     saphir/src/redirect.rs: the builder of redirections, its setters and its responder.
--   Body         saphir/src/body.rs: `load`, the body as a future, and the body as an HTTP body.
--   Multipart    saphir/src/multipart/mod.rs: the fields of a multipart body and `save`.
--   Response     saphir/src/response.rs: responses and their builder.
--   Request      saphir/src/request.rs: requests, the changes of their bodies and the parsing of cookies.
--   Responder    saphir/src/responder.rs: what the types that can answer do to the builder.
--   File         saphir/src/file: Range and Content-Range, entity tags, conditional requests;
--                File/Reader is what a file is to its readers, File/Stream the chunks that `FileStream`
--                yields, File/Compression `compress_file`, File/Cache cache.rs, File/Site which file
--                answers a path, and File/Service the decisions of middleware.rs.
--   Openapi      saphir_cli/src/openapi: schema.rs in Openapi/Schema, and of the directory generate:
--                utils.rs in Attributes, type_info.rs in TypeInfo, route_info.rs in Route,
--                handler_info.rs in Handler, controller_info.rs in Controllers, response_info.rs in
--                Responses, and of mod.rs `get_schema` in Schemas, the ids in Operations,
--                `load_controllers` in Crate, the schemas of structures and enumerations in Types,
--                the bodies and responses of an operation in Document, and
--                `fill_openapi_with_controllers` in Fill.
--   Tests        the theorems at concrete inputs.
--
-- State is passed on and returned: a request comes back from `resolve` with its captures, a context
-- from each `next`, and the two counters, `ENDPOINT_ID` and `REQUEST_FUTURE_COUNT`, are arguments
-- and results, with the wrap-around of a `u64`; the counters of operation ids and of responses
-- without a name are `i32` that wrap around, as in a build without overflow checks. A future is
-- taken to its result; where a poll matters, for bodies and the shutdown, it is a function with the
-- outcome of the inner poll as an argument. A panic is an error of its own. A hash map is an
-- association list. A read of a file is a poll too: it answers with bytes, with an error, or not
-- yet; the cache is an argument of what reads it.
--
-- Code of other crates is a parameter: regular expressions (`compile`, `is_match`), the sort of the
-- resolvers, the parsing of URIs and dates, the building of hyper's responses, tokio's files, the
-- encoders of compressions, the decoding of percents, the types of contents, and jars of cookies;
-- of the command line tool, cases of names and the search of a crate for the definition of a type. The
-- syntax trees of the crate `syn` are data types with what the code reads of them (Openapi/Syn).
--
-- Recursion is on the structure of lists, but for `trim_start_matches`, `split_str` and the digits of a
-- number: these take the length of the text, and 20 digits, as fuel, which is enough for every text and
-- every `u64`.
-- The search for the variables of a path and that for the blocks between marks take the length of the
-- text, and the search for a free operation id one round more than there are ids, which is enough.
-- The search for the schema of a type takes a depth as fuel: where types do not contain themselves, one
-- more than their rank is enough.
-- The loops of `FileStream::poll_next` take two more than the bytes they wait for, and the loop of
-- `compress_file` a number of polls; none is a loop that ran out of them.
--
-- Not modelled: sockets and the handshakes of TLS, logging and tracing, the text of a cookie, forms and
-- JSON, the macros, which generate code; and of the command line tool the reading of a crate's files,
-- types out of raw text and the overriding of responses.
pub mod Base
pub mod Text
pub mod Multipart
pub mod Path
pub mod Http
pub mod Guard
pub mod Controller
pub mod Endpoint
pub mod Errors
pub mod Openapi
pub mod Response
pub mod Request
pub mod Responder
pub mod Router
pub mod File
pub mod Middleware
pub mod Server
pub mod Redirect
pub mod Body
pub mod Tests
