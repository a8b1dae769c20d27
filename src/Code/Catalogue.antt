-- ===== src/Code/Catalogue.antt =====
-- The predefined codes.
use boilerplate_go_be.Base.{List, [], ◌∷◌}
use boilerplate_go_be.Code.Defs.{
  Code, invalid_argument, unauthenticated, permission_denied, not_found, unimplemented, aborted,
  resource_exhausted, internal, unavailable, deadline_exceeded, kafka_invalid_argument,
  kafka_unauthenticated, kafka_permission_denied, kafka_not_found, kafka_unimplemented,
  kafka_aborted, kafka_resource_exhausted, kafka_internal, kafka_unavailable,
  kafka_deadline_exceeded,
}

abbrev pub err_payload_error : Code
err_payload_error = record {
  http_code = 400;
  grpc_code = invalid_argument;
  kafka_code = kafka_invalid_argument;
  message = "Payload error";
}

abbrev pub err_validation_error : Code
err_validation_error = record {
  http_code = 400;
  grpc_code = invalid_argument;
  kafka_code = kafka_invalid_argument;
  message = "Validation error";
}

abbrev pub err_bad_request : Code
err_bad_request = record {
  http_code = 400;
  grpc_code = invalid_argument;
  kafka_code = kafka_invalid_argument;
  message = "Bad request";
}

abbrev pub err_duplicate_request : Code
err_duplicate_request = record {
  http_code = 400;
  grpc_code = invalid_argument;
  kafka_code = kafka_invalid_argument;
  message = "Duplicate request";
}

abbrev pub err_unauthorized : Code
err_unauthorized = record {
  http_code = 401;
  grpc_code = unauthenticated;
  kafka_code = kafka_unauthenticated;
  message = "Unauthorized";
}

abbrev pub err_token_expired : Code
err_token_expired = record {
  http_code = 401;
  grpc_code = unauthenticated;
  kafka_code = kafka_unauthenticated;
  message = "Access token expired";
}

abbrev pub err_invalid_token : Code
err_invalid_token = record {
  http_code = 401;
  grpc_code = unauthenticated;
  kafka_code = kafka_unauthenticated;
  message = "Invalid token";
}

abbrev pub err_missing_token : Code
err_missing_token = record {
  http_code = 401;
  grpc_code = unauthenticated;
  kafka_code = kafka_unauthenticated;
  message = "Missing token";
}

abbrev pub err_invalid_credentials : Code
err_invalid_credentials = record {
  http_code = 401;
  grpc_code = unauthenticated;
  kafka_code = kafka_unauthenticated;
  message = "Invalid credentials";
}

abbrev pub err_session_expired : Code
err_session_expired = record {
  http_code = 401;
  grpc_code = unauthenticated;
  kafka_code = kafka_unauthenticated;
  message = "Session expired";
}

abbrev pub err_forbidden : Code
err_forbidden = record {
  http_code = 403;
  grpc_code = permission_denied;
  kafka_code = kafka_permission_denied;
  message = "Forbidden";
}

abbrev pub err_access_denied : Code
err_access_denied = record {
  http_code = 403;
  grpc_code = permission_denied;
  kafka_code = kafka_permission_denied;
  message = "Access denied";
}

abbrev pub err_application_forbidden : Code
err_application_forbidden = record {
  http_code = 403;
  grpc_code = permission_denied;
  kafka_code = kafka_permission_denied;
  message = "Application forbidden";
}

abbrev pub err_user_not_active : Code
err_user_not_active = record {
  http_code = 403;
  grpc_code = permission_denied;
  kafka_code = kafka_permission_denied;
  message = "User is not active";
}

abbrev pub err_not_found : Code
err_not_found = record {
  http_code = 404;
  grpc_code = not_found;
  kafka_code = kafka_not_found;
  message = "Resource not found";
}

abbrev pub err_record_not_found : Code
err_record_not_found = record {
  http_code = 404;
  grpc_code = not_found;
  kafka_code = kafka_not_found;
  message = "Record not found";
}

abbrev pub err_item_not_found : Code
err_item_not_found = record {
  http_code = 404;
  grpc_code = not_found;
  kafka_code = kafka_not_found;
  message = "Item not found";
}

abbrev pub err_method_not_allowed : Code
err_method_not_allowed = record {
  http_code = 405;
  grpc_code = unimplemented;
  kafka_code = kafka_unimplemented;
  message = "Method not allowed";
}

abbrev pub err_conflict : Code
err_conflict = record {
  http_code = 409;
  grpc_code = aborted;
  kafka_code = kafka_aborted;
  message = "Conflict";
}

abbrev pub err_constraint_violation : Code
err_constraint_violation = record {
  http_code = 409;
  grpc_code = aborted;
  kafka_code = kafka_aborted;
  message = "Constraint violation";
}

abbrev pub err_file_too_large : Code
err_file_too_large = record {
  http_code = 413;
  grpc_code = resource_exhausted;
  kafka_code = kafka_resource_exhausted;
  message = "Uploaded file too large";
}

abbrev pub err_unsupported_file_type : Code
err_unsupported_file_type = record {
  http_code = 415;
  grpc_code = invalid_argument;
  kafka_code = kafka_invalid_argument;
  message = "Unsupported file type";
}

abbrev pub err_too_many_requests : Code
err_too_many_requests = record {
  http_code = 429;
  grpc_code = resource_exhausted;
  kafka_code = kafka_resource_exhausted;
  message = "Too many requests";
}

abbrev pub err_internal_server_error : Code
err_internal_server_error = record {
  http_code = 500;
  grpc_code = internal;
  kafka_code = kafka_internal;
  message = "Internal server error";
}

abbrev pub err_transaction_failed : Code
err_transaction_failed = record {
  http_code = 500;
  grpc_code = internal;
  kafka_code = kafka_internal;
  message = "Transaction failed";
}

abbrev pub err_data_corruption : Code
err_data_corruption = record {
  http_code = 500;
  grpc_code = internal;
  kafka_code = kafka_internal;
  message = "Data corruption detected";
}

abbrev pub err_deadlock_detected : Code
err_deadlock_detected = record {
  http_code = 500;
  grpc_code = internal;
  kafka_code = kafka_internal;
  message = "Database deadlock detected";
}

abbrev pub err_dependency_failed : Code
err_dependency_failed = record {
  http_code = 502;
  grpc_code = unavailable;
  kafka_code = kafka_unavailable;
  message = "Upstream dependency failed";
}

abbrev pub err_service_unavailable : Code
err_service_unavailable = record {
  http_code = 503;
  grpc_code = unavailable;
  kafka_code = kafka_unavailable;
  message = "Service unavailable";
}

abbrev pub err_database_unavailable : Code
err_database_unavailable = record {
  http_code = 503;
  grpc_code = unavailable;
  kafka_code = kafka_unavailable;
  message = "Database unavailable";
}

abbrev pub err_operation_timed_out : Code
err_operation_timed_out = record {
  http_code = 504;
  grpc_code = deadline_exceeded;
  kafka_code = kafka_deadline_exceeded;
  message = "Operation timed out";
}

abbrev pub err_create_request_url : Code
err_create_request_url = record {
  http_code = 500;
  grpc_code = internal;
  kafka_code = kafka_internal;
  message = "Failed to generate url for external service call";
}

abbrev pub err_create_request_payload : Code
err_create_request_payload = record {
  http_code = 500;
  grpc_code = internal;
  kafka_code = kafka_internal;
  message = "Failed to generate payload for external service call";
}

abbrev pub err_create_request_headers : Code
err_create_request_headers = record {
  http_code = 500;
  grpc_code = internal;
  kafka_code = kafka_internal;
  message = "Failed to generate headers for external service call";
}

abbrev pub err_fire_external_request_failed : Code
err_fire_external_request_failed = record {
  http_code = 500;
  grpc_code = internal;
  kafka_code = kafka_internal;
  message = "External request failed";
}

abbrev pub err_read_external_request_failed : Code
err_read_external_request_failed = record {
  http_code = 500;
  grpc_code = internal;
  kafka_code = kafka_internal;
  message = "Failed to read external request response";
}

-- Every entry, in the order of the source.
unfoldable pub catalogue : List Code
catalogue =
    err_payload_error ∷ err_validation_error ∷ err_bad_request ∷ err_duplicate_request
    ∷ err_unauthorized ∷ err_token_expired ∷ err_invalid_token ∷ err_missing_token
    ∷ err_invalid_credentials ∷ err_session_expired ∷ err_forbidden ∷ err_access_denied
    ∷ err_application_forbidden ∷ err_user_not_active ∷ err_not_found ∷ err_record_not_found
    ∷ err_item_not_found ∷ err_method_not_allowed ∷ err_conflict ∷ err_constraint_violation
    ∷ err_file_too_large ∷ err_unsupported_file_type ∷ err_too_many_requests
    ∷ err_internal_server_error ∷ err_transaction_failed ∷ err_data_corruption
    ∷ err_deadlock_detected ∷ err_dependency_failed ∷ err_service_unavailable
    ∷ err_database_unavailable ∷ err_operation_timed_out ∷ err_create_request_url
    ∷ err_create_request_payload ∷ err_create_request_headers ∷ err_fire_external_request_failed
    ∷ err_read_external_request_failed ∷ []
