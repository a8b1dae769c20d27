-- ===== src/Outbound/Contained.antt =====
-- `SendHTTPRequest` and `FetchItemByID`: no answer of the remote ends the process or changes the database
-- handle or the JWT service; a nil placeholder or a missing configuration is a panic at most.
use boilerplate_go_be.Base.{String, ℤ, true, false, leb, ltb, ◌||◌, Option, none, some}
use boilerplate_go_be.Code.{
  Code, err_read_external_request_failed, err_fire_external_request_failed, err_create_request_url,
  err_create_request_payload, err_create_request_headers,
}
use boilerplate_go_be.Runtime.{Error, Result, ok, err, new, wrap}
use boilerplate_go_be.Json.{Json, Decoded}
use boilerplate_go_be.Logger.{Log, warn, error}
use boilerplate_go_be.Platform.{Platform, HttpReply}
use boilerplate_go_be.World.{call, log_f, the_cfg}
use boilerplate_go_be.World.Ctx.{Ctx}
use boilerplate_go_be.Outbound.Http.{
  HttpOutbound, HttpResponse, GenericResponse, empty_response, build_url, marshal_request_body,
  unmarshal_generic, warn_on, decoded_response, handle_response, answer, fail_with, http_request,
  fire, send_http_request,
}
use boilerplate_go_be.Outbound.Example.{
  headers, get_transport, item_request, fetched, fetch_item_by_id,
}
use boilerplate_go_be.Contained.{
  InWorld, Contained-pure, Contained-raise, Contained-if, Contained-option, Contained-result,
  Contained-bind, Contained-call, Contained-log_f, Contained-the_cfg,
}

module _ (P : Platform) (log : Log) where
  warn_on-InWorld : (e : Option Error) (msg : String) → InWorld (warn_on P log e msg)
  unfolding warn_on
  warn_on-InWorld none msg = Contained-pure _ tt
  warn_on-InWorld (some e) msg = Contained-log_f log warn msg

  decoded_response-InWorld :
      (resp : HttpReply) (d : Decoded GenericResponse) → InWorld (decoded_response P log resp d)
  unfolding decoded_response
  decoded_response-InWorld resp (g, true) =
      Contained-bind _ (log_f log error "Failed to unmarshal into %T: %v\nDump: %s") _
        (Contained-log_f log error "Failed to unmarshal into %T: %v\nDump: %s")
        (λ _. Contained-pure _ (err (wrap "unmarshal failed" (new "json"))))
  decoded_response-InWorld resp (g, false) =
      Contained-bind _ _ _
        (Contained-if _ (ltb resp.status_code 200 || leb 300 resp.status_code)
          (Contained-log_f log error "Non-2xx response (%d): %s") (Contained-pure _ tt))
        (λ _. Contained-pure _ (
          ok (record {
            http_code = resp.status_code;
            content_type = resp.content_type;
            headers = none;
            raw_response_payload = some g;
          })))

  handle_response-InWorld : (resp : HttpReply) → InWorld (handle_response P log resp)
  unfolding handle_response
  handle_response-InWorld resp =
      Contained-result _ resp.body _ _
        (λ body.
          Contained-bind _ (warn_on P log resp.dump_err "Failed to dump response: %v") _
            (warn_on-InWorld resp.dump_err "Failed to dump response: %v")
            (λ _. decoded_response-InWorld resp (unmarshal_generic body)))
        (λ e. Contained-pure _ (err (wrap "failed to read response body" e)))

  fail_with-InWorld : (msg : String) (c : Code) → InWorld (fail_with P log msg c)
  unfolding fail_with
  fail_with-InWorld msg c =
      Contained-bind _ (log_f log error msg) _ (Contained-log_f log error msg)
        (λ _. Contained-pure _ (empty_response, some c))

  answer-InWorld : (handled : Result HttpResponse) → InWorld (answer P log handled)
  unfolding answer
  answer-InWorld (ok result) = Contained-pure _ (result, none)
  answer-InWorld (err e) =
      Contained-bind _ (log_f log error "Failed to handle response: %v") _
        (Contained-log_f log error "Failed to handle response: %v")
        (λ _. Contained-pure _ (empty_response, some err_read_external_request_failed))

  fire-InWorld :
      (o : HttpOutbound) (url : String) (body : Option Json) → InWorld (fire P log o url body)
  unfolding fire
  fire-InWorld o url body = Contained-bind _ the_cfg _ Contained-the_cfg (λ cfg.
      Contained-bind _ (call P (P.http_do (http_request P log o url body cfg))) _ (Contained-call _)
        (λ sent.
          Contained-result _ sent _ _
            (λ resp.
              Contained-option _ o.response _ _
                (Contained-bind _ (warn_on P log resp.close_err "Failed to close response body: %v")
                  _ (warn_on-InWorld resp.close_err "Failed to close response body: %v")
                  (λ _. Contained-raise _ "reflect: nil placeholder"))
                (λ _.
                  Contained-bind _ (handle_response P log resp) _ (handle_response-InWorld resp)
                    (λ handled.
                      Contained-bind _ (answer P log handled) _ (answer-InWorld handled)
                        (λ answered.
                          Contained-bind _
                            (warn_on P log resp.close_err "Failed to close response body: %v") _
                            (warn_on-InWorld resp.close_err "Failed to close response body: %v")
                            (λ _. Contained-pure _ answered)))))
            (λ e. fail_with-InWorld "Request failed: %v" err_fire_external_request_failed)))

  send_http_request-InWorld : (o : HttpOutbound) → InWorld (send_http_request P log o)
  unfolding send_http_request
  send_http_request-InWorld o =
      Contained-result _ (build_url o) _ _
        (λ url.
          Contained-result _ (marshal_request_body o.body) _ _
            (λ body.
              Contained-option _ (P.new_request o.method url) _ _ (fire-InWorld o url body) (λ e.
                fail_with-InWorld "Failed to build HTTP request: %v" err_create_request_headers))
            (λ e.
              fail_with-InWorld "Failed to marshal request body: %v" err_create_request_payload))
        (λ e. fail_with-InWorld "Failed to build URL: %v" err_create_request_url)

  get_transport-InWorld : (ctx : Ctx P) → InWorld (get_transport P log ctx)
  unfolding get_transport
  get_transport-InWorld ctx = Contained-bind _ the_cfg _ Contained-the_cfg (λ cfg.
      Contained-pure _ (record {
        path = "";
        method = "";
        host = cfg.service.example.host;
        service_name = "";
        headers = some (headers P log ctx);
        query_param = none;
        body = none;
        response = none;
      }))

  pub fetch_item_by_id-InWorld : (ctx : Ctx P) (id : ℤ) → InWorld (fetch_item_by_id P log ctx id)
  unfolding fetch_item_by_id
  fetch_item_by_id-InWorld ctx id =
      Contained-bind _ (get_transport P log ctx) _ (get_transport-InWorld ctx) (λ transport.
        Contained-bind _ (send_http_request P log (item_request P log id transport)) _
          (send_http_request-InWorld (item_request P log id transport))
          (λ sent. Contained-pure _ (fetched P sent)))
