-- ===== src/Code/Agreement.antt =====
-- The three transports' codes of one entry of pkg/code/code.go.
use boilerplate_go_be.Base.{ℕ, ◌≤◌, ◌<◌, String, ◌≡◌, ◌==◌, if◌then◌else◌, All, arith}
use boilerplate_go_be.Code.Defs.{
  GrpcCode, invalid_argument, unauthenticated, permission_denied, not_found, unimplemented, aborted,
  resource_exhausted, internal, unavailable, deadline_exceeded, Code, colon, prepend_message,
  append_message, replace_message,
}
use boilerplate_go_be.Code.Catalogue.{catalogue}

-- The name by which gRPC's own documentation spells a code.
unfoldable pub kafka_name : GrpcCode → String
kafka_name invalid_argument = "INVALID_ARGUMENT"
kafka_name unauthenticated = "UNAUTHENTICATED"
kafka_name permission_denied = "PERMISSION_DENIED"
kafka_name not_found = "NOT_FOUND"
kafka_name unimplemented = "UNIMPLEMENTED"
kafka_name aborted = "ABORTED"
kafka_name resource_exhausted = "RESOURCE_EXHAUSTED"
kafka_name internal = "INTERNAL"
kafka_name unavailable = "UNAVAILABLE"
kafka_name deadline_exceeded = "DEADLINE_EXCEEDED"

-- The gRPC code for an HTTP status; the statuses that are not named are server errors.
unfoldable pub grpc_of_http : ℕ → GrpcCode
grpc_of_http h =
    if h == 400
    then invalid_argument
    else if h == 401
    then unauthenticated
    else if h == 403
    then permission_denied
    else if h == 404
    then not_found
    else if h == 405
    then unimplemented
    else if h == 409
    then aborted
    else if h == 413
    then resource_exhausted
    else if h == 415
    then invalid_argument
    else if h == 429
    then resource_exhausted
    else if h == 502
    then unavailable
    else if h == 503
    then unavailable
    else if h == 504
    then deadline_exceeded
    else internal

-- One code speaks alike on HTTP, gRPC and Kafka, and is an error on HTTP.
pub record Agrees (c : Code) : Type 0 where
  pub on_grpc : c.grpc_code ≡ grpc_of_http c.http_code
  pub on_kafka : c.kafka_code ≡ kafka_name c.grpc_code
  pub is_error : 400 ≤ c.http_code
  pub in_range : c.http_code < 600

-- Every entry of the catalogue has the gRPC code that belongs to its HTTP status, the Kafka code that
-- spells its gRPC code, and an HTTP status from 400 to 599.
pub catalogue-Agrees : All Agrees catalogue
unfolding catalogue kafka_name grpc_of_http
catalogue-Agrees = ground arith

-- The three message operations change the message alone, to the prefixed, extended or new text, so a
-- code that agrees across the transports still does.
pub messages-Agrees :
    (c : Code) (text : String)
    → Agrees c
    → Agrees (prepend_message text c)
      × Agrees (append_message text c)
      × Agrees (replace_message text c)
      × ((prepend_message text c).message ≡ colon text c.message)
      × ((append_message text c).message ≡ colon c.message text)
      × ((replace_message text c).message ≡ text)
unfolding prepend_message append_message replace_message
messages-Agrees c text h = ground arith
