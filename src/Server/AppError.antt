-- ===== src/Server/AppError.antt =====
-- crates/ao2-cp-server/src/error.rs with crates/ao2-cp-schema/src/error.rs: the answer to an error,
-- and what of it goes to the log instead.
use ao2_control_plane.Base.{ℕ, ◌≡◌, String, ◌<>◌, List, [], ◌∷◌, Option, none, some, ◌↔◌, arith}

pub data AppError : Type 0 where
  unauthorized : AppError
  forbidden bad_request schema_unknown schema_invalid : String → AppError
  body_too_large not_found storage_full : AppError
  bundle_tampered : String → String → AppError
  internal : String → AppError

pub data ErrorCode : Type 0 where
  unauthorized forbidden bad_request schema_unknown schema_invalid : ErrorCode
  body_too_large not_found storage_full bundle_tampered internal : ErrorCode

-- The members of `details`; no member stands for `Null`.
pub record ControlPlaneError : Type 0 where
  pub code : ErrorCode
  pub message : String
  pub request_id : String
  pub details : List (String × String)

pub record Response : Type 0 where
  pub status : ℕ
  pub body : ControlPlaneError

-- `to_string`
unfoldable pub to_string : AppError → String
to_string AppError.unauthorized = "unauthorized"
to_string (AppError.forbidden s) = "forbidden: " <> s
to_string (AppError.bad_request s) = "bad request: " <> s
to_string (AppError.schema_unknown s) = "unknown schema: " <> s
to_string (AppError.schema_invalid s) = "schema invalid: " <> s
to_string AppError.body_too_large = "body too large"
to_string AppError.not_found = "not found"
to_string AppError.storage_full = "storage full"
to_string (AppError.bundle_tampered expected actual) =
    "bundle tampered: expected " <> expected <> ", got " <> actual
to_string (AppError.internal s) = "internal: " <> s

abbrev pub status_of : AppError → ℕ
status_of AppError.unauthorized = 401
status_of (AppError.forbidden s) = 403
status_of (AppError.bad_request s) = 400
status_of (AppError.schema_unknown s) = 422
status_of (AppError.schema_invalid s) = 422
status_of AppError.body_too_large = 413
status_of AppError.not_found = 404
status_of AppError.storage_full = 507
status_of (AppError.bundle_tampered expected actual) = 500
status_of (AppError.internal s) = 500

abbrev pub code_of : AppError → ErrorCode
code_of AppError.unauthorized = unauthorized
code_of (AppError.forbidden s) = forbidden
code_of (AppError.bad_request s) = bad_request
code_of (AppError.schema_unknown s) = schema_unknown
code_of (AppError.schema_invalid s) = schema_invalid
code_of AppError.body_too_large = body_too_large
code_of AppError.not_found = not_found
code_of AppError.storage_full = storage_full
code_of (AppError.bundle_tampered expected actual) = bundle_tampered
code_of (AppError.internal s) = internal

abbrev pub message_of : AppError → String
message_of (AppError.bundle_tampered expected actual) = "bundle digest mismatch"
message_of (AppError.internal s) = "internal server error"
message_of e = to_string e

abbrev pub details_of : AppError → List (String × String)
details_of (AppError.schema_unknown s) = ("schema_version", s) ∷ []
details_of (AppError.bundle_tampered expected actual) =
    ("expected", expected) ∷ ("actual", actual) ∷ []
details_of e = []

abbrev pub internal_detail : AppError → Option String
internal_detail (AppError.internal s) = some s
internal_detail e = none

-- `into_response`, with the id that the answer is given: the answer, and the id and the detail of
-- the line that goes to the log.
unfoldable pub into_response : String → AppError → Response × Option (String × String)
unfolding to_string
into_response request_id e = (
  record {
    status = status_of e;
    body = record {
      code = code_of e;
      message = message_of e;
      request_id = request_id;
      details = details_of e;
    };
  },
  elim (internal_detail e) [ none ↦ none | some s ↦ some (request_id, s) ],
)

-- Two answers of one code have one status, and either both their errors go to the log or neither.
code_decides_status :
    (request_id : String) (e f : AppError)
    → (into_response request_id e).0.body.code ≡ (into_response request_id f).0.body.code
    → ((into_response request_id e).0.status ≡ (into_response request_id f).0.status)
      × (((into_response request_id e).1 ≡ none) ↔ ((into_response request_id f).1 ≡ none))
unfolding into_response
code_decides_status request_id e f same = ground arith
