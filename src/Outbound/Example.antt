-- ===== src/Outbound/Example.antt =====
-- outbound/service/example/http.go and kafka.go: the clients of the Example service. What the process
-- prints with `%d` is `show_int`.
use boilerplate_go_be.Base.{
  ℤ, show_int, String, str_append, Bool, true, false, ◌&&◌, Option, none, some, List, [], ◌∷◌, Dict,
  str_eq, if◌then◌else◌,
}
use boilerplate_go_be.Code.{Code}
use boilerplate_go_be.Runtime.{Error, new, wrap, Result, ok, err, Prog, pure, ◌>>=◌, ◌>>◌}
use boilerplate_go_be.Dto.{Item}
use boilerplate_go_be.Json.{decode_items, json, Decoded, unmarshal_item, marshal_item}
use boilerplate_go_be.Logger.{Log, error}
use boilerplate_go_be.Platform.{Platform, KafkaMessage}
use boilerplate_go_be.World.{log_f, World, call, the_cfg, unique_id_by_time}
use boilerplate_go_be.World.Ctx.{Ctx, get_token_ctx}
use boilerplate_go_be.Outbound.Http.{
  GenericResponse, zero_generic, HttpOutbound, HttpResponse, with_path, with_method, with_response,
  send_http_request,
}

-- `tok, _ := utils.GetTokenCtx(ctx)`.
unfoldable pub token_of : {P : Platform} → Ctx P → String
token_of ctx = elim (get_token_ctx ctx) [ none ↦ "" | some tok ↦ tok ]

-- `string(…)` of a found item: what `FetchItemByID` makes of the transport's answer.
item_of : Decoded Item → Result Item
item_of (it, false) = ok it
item_of (it, true) = err (new "json: cannot unmarshal")

generic_item : Platform → Option GenericResponse → Result Item
unfolding item_of
generic_item P none = err (new "unexpected response type")
generic_item P (some g) = item_of (unmarshal_item (json (P.remarshal g.body)))

unfoldable pub fetched : Platform → HttpResponse × Option Code → Result Item
unfolding generic_item
fetched P (resp, some c) = err (new (str_append "external request failed: " c.message))
fetched P (resp, none) = generic_item P resp.raw_response_payload

-- What `FetchItemByFilter` makes of the transport's answer.
unfoldable pub items_of : Decoded (List Item) → Result (List Item)
items_of (items, false) = ok items
items_of (items, true) = err (new "json: cannot unmarshal")

unfoldable pub generic_items : Platform → Option GenericResponse → Result (List Item)
unfolding items_of
generic_items P none = err (new "unexpected response type")
generic_items P (some g) = items_of (decode_items (P.remarshal g.body))

unfoldable pub fetched_list : Platform → HttpResponse × Option Code → Result (List Item)
unfolding generic_items
fetched_list P (resp, some c) = err (new (str_append "external request failed: " c.message))
fetched_list P (resp, none) = generic_items P resp.raw_response_payload

-- The path of a filter; `escape` is `url.QueryEscape`.
unfoldable pub filter_path : (String → String) → String → String
filter_path escape filter =
    if str_eq filter ""
    then "/items"
    else str_append "/items" (str_append "?filter=" (escape filter))

module _ (P : Platform) (log : Log) where
  unfoldable pub headers : Ctx P → Dict String
  unfolding token_of
  headers ctx =
      ("Authorization", str_append "Bearer " (token_of ctx)) ∷ ("Parent-Id", log.parent_id) ∷ []

  unfoldable pub get_transport : Ctx P → Prog (World P) HttpOutbound
  unfolding headers
  get_transport ctx = do
    cfg ← the_cfg
    pure (record {
      path = "";
      method = "";
      host = cfg.service.example.host;
      service_name = "";
      headers = some (headers ctx);
      query_param = none;
      body = none;
      response = none;
    })

  unfoldable pub item_request : ℤ → HttpOutbound → HttpOutbound
  unfolding with_path with_method with_response
  item_request id o =
      with_response zero_generic
        (with_method "GET" (with_path (str_append "/items/" (show_int id)) o))

  unfoldable pub fetch_item_by_id : Ctx P → ℤ → Prog (World P) (Result Item)
  unfolding get_transport item_request
  fetch_item_by_id ctx id = do
    transport ← get_transport ctx
    sent ← send_http_request P log (item_request id transport)
    pure (fetched P sent)

  unfoldable pub fetch_item_by_filter :
      (String → String) → Ctx P → String → Prog (World P) (Result (List Item))
  unfolding get_transport with_path with_method with_response filter_path
  fetch_item_by_filter escape ctx filter = do
    transport ← get_transport ctx
    sent ← send_http_request P log (
        with_response zero_generic
          (with_method "GET" (with_path (filter_path escape filter) transport)))
    pure (fetched_list P sent)

  -- The message of `PublishItem`.
  unfoldable pub item_message : Ctx P → Item → KafkaMessage
  unfolding token_of
  item_message ctx it = record {
    key = show_int it.id;
    value = json (marshal_item it);
    headers = ("parent-id", log.parent_id) ∷ ("authorization", token_of ctx) ∷ [];
  }

  -- The writer is to the configured topic.
  unfoldable pub publish_item : String → Ctx P → Item → Prog (World P) (Option Error)
  unfolding item_message
  publish_item topic ctx it = call P (P.kafka_write topic (item_message ctx it))

  -- The request of `PublishItemAndWait`, for a correlation id.
  unfoldable pub request_message : Ctx P → Item → String → KafkaMessage
  unfolding token_of
  request_message ctx it corr_id = record {
    key = show_int it.id;
    value = json (marshal_item it);
    headers =
        ("parent-id", log.parent_id)
        ∷ ("authorization", token_of ctx)
        ∷ ("correlation-id", corr_id)
        ∷ ("reply-to", str_append "items-reply-" corr_id)
        ∷ [];
  }

-- The inner loop: a header named "correlation-id" with the id for its value.
unfoldable pub matches : String → Dict String → Bool
matches corr_id [] = false
matches corr_id ((k, v) ∷ hs) =
    if str_eq k "correlation-id" && str_eq v corr_id then true else matches corr_id hs

-- The outer loop over what `ReadMessage` returns, message by message. `none` means that the reader still
-- waits; its deadline is one of the errors that it returns.
unfoldable pub await_reply : String → List (Result KafkaMessage) → Option (Result Item)
unfolding matches item_of
await_reply corr_id [] = none
await_reply corr_id (err e ∷ rest) = some (err e)
await_reply corr_id (ok m ∷ rest) =
    if matches corr_id m.headers
    then some (item_of (unmarshal_item m.value))
    else await_reply corr_id rest

-- What `PublishItemAndWait` does, where `replies` is what its reader on the reply topic will return
-- and `close_err` what the reader's close returns.
module _ (P : Platform) (log : Log) where
  -- The deferred close of the reader, once the loop has ended.
  close_reader : Option (Result Item) → Option Error → Prog (World P) (Unit {0})
  close_reader (some _) (some e) = log_f log error "failed to close Kafka reader: %v"
  close_reader _ _ = pure tt

  await_sent :
      String
      → List (Result KafkaMessage)
      → Option Error
      → Option Error
      → Prog (World P) (Option (Result Item))
  unfolding close_reader
  await_sent corr_id replies close_err (some e) = pure (some (err e))
  await_sent corr_id replies close_err none = do
    _ ← the_cfg
    let got = await_reply corr_id replies
    close_reader got close_err
    pure got

  unfoldable pub publish_item_and_wait :
      String
      → Ctx P
      → Item
      → (String → List (Result KafkaMessage))
      → Option Error
      → Prog (World P) (Option (Result Item))
  unfolding await_sent
  publish_item_and_wait topic ctx it replies close_err = do
    generated ← unique_id_by_time
    elim generated [
      | err e ↦ pure (some (err (wrap "failed to generate correlation ID" e)))
      | ok corr_id ↦ do
        sent ← call P (P.kafka_write topic (request_message P log ctx it corr_id))
        await_sent corr_id (replies (str_append "items-reply-" corr_id)) close_err sent
    ]
