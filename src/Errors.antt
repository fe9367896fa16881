-- ===== src/Errors.antt =====
-- saphir/src/error.rs: `SaphirError` and the status that answers it. `X` stands for the errors of
-- other crates, and for the responder that an error may carry; the variants behind features of the
-- build (`json`, `form`, `validate-requests`) are included.
use saphir.Base.{ℕ, Bool, Option, none, some}
use saphir.Text.{Str}

pub data InternalError (X : Type 0) : Type 0 where
  http hyper to_str : X → InternalError X
  stack : InternalError X

pub data SaphirError (X : Type 0) : Type 0 where
  internal : InternalError X → SaphirError X
  io custom responder serde_json serde_url_de serde_url_ser validation_errors : X → SaphirError X
  other : Str → SaphirError X
  missing_parameter invalid_parameter : Str → Bool → SaphirError X
  body_already_taken request_moved_before_handler response_moved request_timeout : SaphirError X
  stack_already_initialized too_many_requests : SaphirError X

-- `response_builder`: a status, or `none` where the responder that the error carries answers.
unfoldable pub error_status : {X : Type 0} → SaphirError X → Option ℕ
error_status (internal _) = some 500
error_status (io _) = some 500
error_status body_already_taken = some 500
error_status (custom _) = some 500
error_status (other _) = some 500
error_status (serde_json _) = some 400
error_status (serde_url_de _) = some 400
error_status (serde_url_ser _) = some 400
error_status (missing_parameter _ _) = some 400
error_status (invalid_parameter _ _) = some 400
error_status request_moved_before_handler = some 500
error_status response_moved = some 500
error_status (responder _) = none
error_status request_timeout = some 408
error_status stack_already_initialized = some 500
error_status too_many_requests = some 429
error_status (validation_errors _) = some 400
