-- ===== src/Code/Defs.antt =====
-- The type of a code and its message operations.
use boilerplate_go_be.Base.{ℕ, String, str_append}

-- The values of gRPC's `codes.Code` that the catalogue names.
pub data GrpcCode : Type 0 where
  invalid_argument unauthenticated permission_denied not_found unimplemented : GrpcCode
  aborted resource_exhausted internal unavailable deadline_exceeded : GrpcCode

pub record Code : Type 0 where
  pub http_code : ℕ
  pub grpc_code : GrpcCode
  pub kafka_code : String
  pub message : String

-- `fmt.Sprintf("%s: %s", a, b)`.
abbrev pub colon : String → String → String
colon a b = str_append a (str_append ": " b)

unfoldable pub prepend_message : String → Code → Code
prepend_message prefix c = record c { message = colon prefix c.message }

unfoldable pub append_message : String → Code → Code
append_message additional_msg c = record c { message = colon c.message additional_msg }

unfoldable pub replace_message : String → Code → Code
replace_message new_message c = record c { message = new_message }

abbrev pub kafka_invalid_argument : String
kafka_invalid_argument = "INVALID_ARGUMENT"

abbrev pub kafka_unauthenticated : String
kafka_unauthenticated = "UNAUTHENTICATED"

abbrev pub kafka_permission_denied : String
kafka_permission_denied = "PERMISSION_DENIED"

abbrev pub kafka_not_found : String
kafka_not_found = "NOT_FOUND"

abbrev pub kafka_unimplemented : String
kafka_unimplemented = "UNIMPLEMENTED"

abbrev pub kafka_aborted : String
kafka_aborted = "ABORTED"

abbrev pub kafka_resource_exhausted : String
kafka_resource_exhausted = "RESOURCE_EXHAUSTED"

abbrev pub kafka_internal : String
kafka_internal = "INTERNAL"

abbrev pub kafka_unavailable : String
kafka_unavailable = "UNAVAILABLE"

abbrev pub kafka_deadline_exceeded : String
kafka_deadline_exceeded = "DEADLINE_EXCEEDED"
