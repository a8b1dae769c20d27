-- ===== src/Outbound/Lists.antt =====
-- `FetchItemByFilter` of outbound/service/example/http.go against the list endpoint of server/rest.
use boilerplate_go_be.Base.{
  All, ℤ, pos, negsuc, [], ◌∷◌, ◌≤◌, ◌<◌, ◌^◌, ap, ◌∙◌, fold_is, ℕ, ◌≡◌, refl, arith, String,
  str_append, false, none, some, List,
}
use boilerplate_go_be.Runtime.{ok, ret}
use boilerplate_go_be.Config.{Config}
use boilerplate_go_be.Dto.{Item}
use boilerplate_go_be.Json.{
  null, Fields, decode_items, Json, str, obj, field, end, json, marshal_items,
}
use boilerplate_go_be.Json.Items.{decode-marshal_items}
use boilerplate_go_be.Logger.{Log}
use boilerplate_go_be.Platform.{Platform, HttpReply, HttpRequest}
use boilerplate_go_be.World.{World, log_f}
use boilerplate_go_be.World.Ctx.{Ctx}
use boilerplate_go_be.Outbound.Http.{
  GenericResponse, unmarshal_generic, generic_fields, send_http_request, handle_response,
}
use boilerplate_go_be.Outbound.Example.{
  items_of, headers, fetch_item_by_filter, fetched_list, filter_path,
}
use boilerplate_go_be.Rest.{Envelope, success_envelope}

-- The body by its tag, which leaves an empty one out.
unfoldable pub body_field : List Item → Fields
body_field [] = end
body_field (it ∷ its) = field "body" (marshal_items (it ∷ its)) end

-- `json.Marshal` of an envelope around items, by its tags.
unfoldable pub marshal_list_envelope : Envelope (List Item) → Json
unfolding body_field
marshal_list_envelope e = obj (
    field "statusCode" (str e.status_code)
      (field "returnMessage" (str e.return_message) (body_field e.body)))

-- An identifier that a float64 holds exactly.
abbrev pub IsExact : ℤ → Type 0
IsExact (pos n) = n ≤ 2 ^ 53
IsExact (negsuc n) = n < 2 ^ 53

-- Through an `interface{}` go nil and a slice of items whose identifiers a float64 holds exactly.
pub record ExactJson (P : Platform) : Type 0 where
  pub null_kept : P.remarshal null ≡ null
  pub items_kept :
      (its : List Item)
      → All (λ it. IsExact it.id) its
      → P.remarshal (marshal_items its) ≡ marshal_items its

module _ (P : Platform) (log : Log) (ctx : Ctx P) (escape : String → String) (filter : String)
    (w : World P) (cfg : Config) (reply : HttpReply) where
  -- The request that `FetchItemByFilter` sends.
  abbrev pub list_request : HttpRequest
  list_request = record {
    method = "GET";
    url = str_append cfg.service.example.host (filter_path escape filter);
    headers = headers P log ctx;
    body = none;
    skip_tls_verify = cfg.server.skip_tls_verify;
    timeout_seconds = cfg.server.timeout.server;
  }

  fetched_list_body :
      (j : Json) (g : GenericResponse)
      → w.cfg ≡ some cfg
      → P.new_request "GET" list_request.url ≡ none
      → (P.http_do list_request w.outside).0 ≡ ok reply
      → reply.body ≡ ok (json j)
      → unmarshal_generic (json j) ≡ (g, false)
      → (fetch_item_by_filter P log escape ctx filter w).0
        ≡ ret (
            fetched_list P (
              (record {
                http_code = reply.status_code;
                content_type = reply.content_type;
                headers = none;
                raw_response_payload = some g;
              }),
              none,
            ))
  unfolding fetch_item_by_filter send_http_request handle_response log_f
  fetched_list_body j g loaded made sent body decoded = ground arith

  -- Where the configuration is loaded, the request can be made and the remote answers with the success
  -- envelope of items whose identifiers are at most 2^53 in size, as the REST server writes it,
  -- `FetchItemByFilter` returns those items, in their order.
  pub fetch-list_envelope :
      (exact : ExactJson P) (app_name : String) (status : ℕ) (items : List Item)
      → All (λ it. IsExact it.id) items
      → w.cfg ≡ some cfg
      → P.new_request "GET" list_request.url ≡ none
      → (P.http_do list_request w.outside).0 ≡ ok reply
      → reply.body ≡ ok (json (marshal_list_envelope (success_envelope app_name status items)))
      → (fetch_item_by_filter P log escape ctx filter w).0 ≡ ret (ok items)
  unfolding marshal_list_envelope marshal_items success_envelope unmarshal_generic generic_fields
      fetched_list fold_is
  fetch-list_envelope exact app_name status [] small loaded made sent body =
      fetched_list_body (marshal_list_envelope (success_envelope app_name status [])) _ loaded made
        sent body refl
      ∙ ap (λ j. ret (items_of (decode_items j))) exact.null_kept
      ∙ ap (λ d. ret (items_of d)) (decode-marshal_items [])
  fetch-list_envelope exact app_name status (it ∷ its) small loaded made sent body =
      fetched_list_body (marshal_list_envelope (success_envelope app_name status (it ∷ its))) _
        loaded made sent body refl
      ∙ ap (λ j. ret (items_of (decode_items j))) (exact.items_kept (it ∷ its) small)
      ∙ ap (λ d. ret (items_of d)) (decode-marshal_items (it ∷ its))
