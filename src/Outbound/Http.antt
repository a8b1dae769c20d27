-- ===== src/Outbound/Http.antt =====
-- outbound/transport/http.go and infrastructure/dto/response's `HttpResponse`: the generic HTTP call.
-- A query parameter stands for what go-querystring makes of it, and a body for what json.Marshal does. The
-- one placeholder that the program uses is `*response.GenericResponse[any]`; nil is `none`.
use boilerplate_go_be.Base.{
  ℕ, String, str_append, true, false, ◌||◌, Option, none, some, [], ◌∷◌, Dict, insert, insert_all,
  ltb, leb, fold_is, if◌then◌else◌,
}
use boilerplate_go_be.Code.{
  Code, err_create_request_url, err_create_request_payload, err_create_request_headers,
  err_fire_external_request_failed, err_read_external_request_failed,
}
use boilerplate_go_be.Runtime.{Error, new, wrap, Result, ok, err, Prog, pure, raise, ◌>>=◌, ◌>>◌}
use boilerplate_go_be.Json.{
  Json, obj, Fields, end, field, Payload, json, Decoded, decode_string, null,
}
use boilerplate_go_be.Config.{Config}
use boilerplate_go_be.Logger.{Log, warn, error}
use boilerplate_go_be.Platform.{HttpRequest, Platform, HttpReply}
use boilerplate_go_be.World.{World, call, log_f, the_cfg}

-- `response.GenericResponse[any]`; a nil body is `null`.
pub record GenericResponse : Type 0 where
  pub status_code : String
  pub return_message : String
  pub body : Json

pub record HttpOutbound : Type 0 where
  pub path : String
  pub method : String
  pub host : String
  pub service_name : String
  pub headers : Option (Dict String)
  pub query_param : Option (Result String)
  pub body : Option (Result Json)
  pub response : Option GenericResponse

-- `response.HttpResponse`.
pub record HttpResponse : Type 0 where
  pub http_code : ℕ
  pub content_type : String
  pub headers : Option (Dict String)
  pub raw_response_payload : Option GenericResponse

unfoldable pub with_path : String → HttpOutbound → HttpOutbound
with_path path o = record o { path = path }

unfoldable pub with_method : String → HttpOutbound → HttpOutbound
with_method method o = record o { method = method }

abbrev or_empty : Option (Dict String) → Dict String
or_empty none = []
or_empty (some m) = m

unfoldable pub with_header : String → String → HttpOutbound → HttpOutbound
with_header key val o = record o { headers = some (insert key val (or_empty o.headers)) }

unfoldable pub with_headers : Dict String → HttpOutbound → HttpOutbound
with_headers [] o = o
with_headers (h ∷ hs) o = record o { headers = some (insert_all (h ∷ hs) (or_empty o.headers)) }

unfoldable pub replace_headers : Dict String → HttpOutbound → HttpOutbound
replace_headers [] o = record o { headers = none }
replace_headers (h ∷ hs) o = record o { headers = some (insert_all (h ∷ hs) []) }

unfoldable pub with_response : GenericResponse → HttpOutbound → HttpOutbound
with_response resp o = record o { response = some resp }

unfoldable pub empty_response : HttpResponse
empty_response = record {
  http_code = 0;
  content_type = "";
  headers = none;
  raw_response_payload = none;
}

unfoldable pub build_url : HttpOutbound → Result String
build_url req = elim req.query_param [
  | none ↦ ok (str_append req.host req.path)
  | some (err e) ↦ err e
  | some (ok q) ↦ ok (str_append (str_append req.host req.path) (str_append "?" q))
]

unfoldable pub marshal_request_body : Option (Result Json) → Result (Option Json)
marshal_request_body none = ok none
marshal_request_body (some (ok j)) = ok (some j)
marshal_request_body (some (err e)) = err e

-- One entry of an object into a `GenericResponse[any]`.
generic_field : String → Json → Decoded GenericResponse → Decoded GenericResponse
generic_field k v (g, bad) =
    if fold_is k "statusCode"
    then (
      record g { status_code = (decode_string v g.status_code).0 },
      bad || (decode_string v g.status_code).1,
    )
    else if fold_is k "returnMessage"
    then (
      record g { return_message = (decode_string v g.return_message).0 },
      bad || (decode_string v g.return_message).1,
    )
    else if fold_is k "body"
    then (record g { body = v }, bad)
    else (g, bad)

unfoldable pub generic_fields : Fields → Decoded GenericResponse → Decoded GenericResponse
unfolding generic_field
generic_fields end d = d
generic_fields (field k v rest) d = generic_fields rest (generic_field k v d)

-- `reflect.New`'s zero value.
abbrev pub zero_generic : GenericResponse
zero_generic = record { status_code = ""; return_message = ""; body = null }

unfoldable pub unmarshal_generic : Payload → Decoded GenericResponse
unmarshal_generic (json (obj fs)) = generic_fields fs (zero_generic, false)
unmarshal_generic (json null) = (zero_generic, false)
unmarshal_generic _ = (zero_generic, true)

module _ (P : Platform) (log : Log) where
  unfoldable pub warn_on : Option Error → String → Prog (World P) (Unit {0})
  warn_on none msg = pure tt
  warn_on (some e) msg = log_f log warn msg

  unfoldable pub decoded_response :
      HttpReply → Decoded GenericResponse → Prog (World P) (Result HttpResponse)
  decoded_response resp (g, true) = do
    log_f log error "Failed to unmarshal into %T: %v\nDump: %s"
    pure (err (wrap "unmarshal failed" (new "json")))
  decoded_response resp (g, false) = do
    (if ltb resp.status_code 200 || leb 300 resp.status_code
        then log_f log error "Non-2xx response (%d): %s"
        else pure tt)
    pure (
        ok (record {
          http_code = resp.status_code;
          content_type = resp.content_type;
          headers = none;
          raw_response_payload = some g;
        }))

  unfoldable pub handle_response : HttpReply → Prog (World P) (Result HttpResponse)
  unfolding warn_on decoded_response
  handle_response resp = elim resp.body [
    | err e ↦ pure (err (wrap "failed to read response body" e))
    | ok body ↦ do
      warn_on resp.dump_err "Failed to dump response: %v"
      decoded_response resp (unmarshal_generic body)
  ]

  -- What `SendHTTPRequest` returns for the outcome of `handleResponse`.
  unfoldable pub answer : Result HttpResponse → Prog (World P) (HttpResponse × Option Code)
  unfolding empty_response
  answer (ok result) = pure (result, none)
  answer (err e) = do
    log_f log error "Failed to handle response: %v"
    pure (empty_response, some err_read_external_request_failed)

  -- A failure before there is a response: a line and a code.
  unfoldable pub fail_with : String → Code → Prog (World P) (HttpResponse × Option Code)
  unfolding empty_response
  fail_with msg c = do log_f log error msg; pure (empty_response, some c)

  -- The request and the client of `sendHTTPRequest`.
  unfoldable pub http_request : HttpOutbound → String → Option Json → Config → HttpRequest
  http_request o url body cfg = record {
    method = o.method;
    url = url;
    headers = or_empty o.headers;
    body = body;
    skip_tls_verify = cfg.server.skip_tls_verify;
    timeout_seconds = cfg.server.timeout.server;
  }

  -- `sendHTTPRequest` and the rest, with the request built. A nil placeholder panics in `reflect`.
  unfoldable pub fire :
      HttpOutbound → String → Option Json → Prog (World P) (HttpResponse × Option Code)
  unfolding warn_on answer fail_with http_request
  fire o url body = do
    cfg ← the_cfg
    sent ← call P (P.http_do (http_request o url body cfg))
    elim sent [
      | err e ↦ fail_with "Request failed: %v" err_fire_external_request_failed
      | ok resp ↦ elim o.response [
        | none ↦ do
          warn_on resp.close_err "Failed to close response body: %v"
          raise "reflect: nil placeholder"
        | some _ ↦ do
          handled ← handle_response resp
          answered ← answer handled
          warn_on resp.close_err "Failed to close response body: %v"
          pure answered
      ]
    ]

  unfoldable pub send_http_request : HttpOutbound → Prog (World P) (HttpResponse × Option Code)
  unfolding build_url marshal_request_body fire fail_with the_cfg
  send_http_request o = elim (build_url o) [
    | err e ↦ fail_with "Failed to build URL: %v" err_create_request_url
    | ok url ↦ elim (marshal_request_body o.body) [
      | err e ↦ fail_with "Failed to marshal request body: %v" err_create_request_payload
      | ok body ↦ elim (P.new_request o.method url) [
        | some e ↦ fail_with "Failed to build HTTP request: %v" err_create_request_headers
        | none ↦ fire o url body
      ]
    ]
  ]
