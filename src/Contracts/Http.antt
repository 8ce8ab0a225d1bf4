-- ===== src/Contracts/Http.antt =====
-- The error responses of the services' endpoints, and how a client reads their details.
use control_architecture.Base.{ℕ, String, Option, none, some}
use control_architecture.Contracts.Json.{Json, Fields, get_field, nullable}

-- An error response. A detail is missing where the framework makes the body, or where the detail is
-- no text.
pub record HttpError : Type 0 where
  pub status_code : ℕ
  pub detail : Option String

-- An exception that no handler takes.
abbrev pub server_error : HttpError
server_error = record { status_code = 500; detail = none }

-- An error response whose detail is any JSON value; without one the body is no JSON.
pub record DetailedError : Type 0 where
  pub status_code : ℕ
  pub detail : Option Json

abbrev pub server_failure : DetailedError
server_failure = record { status_code = 500; detail = none }

-- {"message": message, "error_class": error_class}
abbrev pub service_detail : String → Option String → Json
service_detail message error_class = Json.obj (
    Fields.field "message" (Json.str message)
      (Fields.field "error_class" (nullable error_class) Fields.end))

-- A value where it is a text.
abbrev text_of : Option Json → Option String
text_of (some (Json.str s)) = some s
text_of _ = none

-- The message and the class of a detail that is a dict.
abbrev message_of : Option String → Option String → String → String × Option String
message_of (some message) error_class fallback = (message, error_class)
message_of none error_class fallback = (fallback, none)

unfoldable pub detail_from_response : Option Json → String → String × Option String
unfolding get_field
detail_from_response (some (Json.str s)) fallback = (s, none)
detail_from_response (some (Json.obj d)) fallback =
    message_of (text_of (get_field "message" d)) (text_of (get_field "error_class" d)) fallback
detail_from_response _ fallback = (fallback, none)
