-- ===== src/Outbound/Replies.antt =====
-- outbound/service/example against the servers: replies, request headers and envelopes.
use boilerplate_go_be.Base.{
  All, Dict, ◌≢◌, Bool-cases, inl, inr, str_eq, ◌&&◌, ℤ, ◌≡◌, refl, arith, str_eq_iff, String,
  str_append, show_int, false, none, some, List, [], ◌∷◌,
}
use boilerplate_go_be.Runtime.{Result, ok, ret}
use boilerplate_go_be.Config.{Config}
use boilerplate_go_be.Dto.{Item, zero_item}
use boilerplate_go_be.Json.{Json, null, json, marshal_item, unmarshal_item}
use boilerplate_go_be.Logger.{Log}
use boilerplate_go_be.Platform.{Platform, HttpReply, HttpRequest, KafkaMessage}
use boilerplate_go_be.World.{World, log_f}
use boilerplate_go_be.World.Ctx.{Ctx}
use boilerplate_go_be.Outbound.Http.{
  GenericResponse, unmarshal_generic, send_http_request, handle_response,
}
use boilerplate_go_be.Outbound.Example.{
  token_of, headers, fetch_item_by_id, fetched, await_reply, matches, request_message,
}
use boilerplate_go_be.Kafka.{ItemEvent, Headers, no_headers, read_headers, reply_message}

-- No header of any of the messages is a correlation id with this value.
unfoldable pub Others : String → List KafkaMessage → Type 0
Others corr_id ms = All (λ m. All (λ (k, v). k ≡ "correlation-id" → v ≢ corr_id) m.headers) ms

matches-other :
    (corr_id : String) (hs : Dict String)
    → All (λ (k, v). k ≡ "correlation-id" → v ≢ corr_id) hs
    → matches corr_id hs ≡ false
unfolding matches
matches-other corr_id [] other = refl
matches-other corr_id ((k, v) ∷ hs) other =
    elim (Bool-cases (str_eq k "correlation-id" && str_eq v corr_id)) [
      | inr differs ↦ ground (arith, matches-other corr_id hs other.1)
      | inl same ↦ absurd (
          other.0 ((str_eq_iff k "correlation-id").0 (ground arith))
            ((str_eq_iff v corr_id).0 (ground arith)))
    ]

abbrev pub delivered : List KafkaMessage → List (Result KafkaMessage) → List (Result KafkaMessage)
delivered [] rest = rest
delivered (m ∷ ms) rest = ok m ∷ delivered ms rest

-- The waiting client of `PublishItemAndWait` passes over any messages that have no correlation-id header
-- with its identifier, and takes the first one that has: where that is the consumer's reply to it and carries
-- an item, it returns that item.
pub await-reply_message :
    (P : Platform) (corr_id : String) (others : List KafkaMessage)
    (rest : List (Result KafkaMessage)) (ev : ItemEvent) (h : Headers) (it : Item)
    → Others corr_id others
    → h.corr_id ≡ corr_id
    → await_reply corr_id (delivered others (ok (reply_message P ev h (marshal_item it)) ∷ rest))
      ≡ some (ok it)
unfolding await_reply Others unmarshal_item marshal_item
await-reply_message P corr_id [] rest ev h it others_only same =
    ground (arith, str_eq_iff h.corr_id corr_id)
await-reply_message P corr_id (m ∷ ms) rest ev h it others_only same = ground (
  arith,
  await-reply_message P corr_id ms rest ev h it others_only.1 same,
  matches-other corr_id m.headers others_only.0,
)

-- The consumer reads from a request of `PublishItemAndWait` exactly what the client put there: its parent
-- id, its token, the correlation id and the reply topic made of it.
pub read-request_message :
    (P : Platform) (log : Log) (ctx : Ctx P) (it : Item) (corr_id : String)
    → read_headers (request_message P log ctx it corr_id).headers no_headers ≡ record {
      parent_id = log.parent_id;
      token = token_of ctx;
      reply_to = str_append "items-reply-" corr_id;
      corr_id = corr_id;
    }
unfolding read_headers request_message
read-request_message P log ctx it corr_id = refl

module _ (P : Platform) (log : Log) (ctx : Ctx P) (id : ℤ) (w : World P) (cfg : Config)
    (reply : HttpReply) where
  -- The request that `FetchItemByID` sends.
  abbrev pub request : HttpRequest
  request = record {
    method = "GET";
    url = str_append cfg.service.example.host (str_append "/items/" (show_int id));
    headers = headers P log ctx;
    body = none;
    skip_tls_verify = cfg.server.skip_tls_verify;
    timeout_seconds = cfg.server.timeout.server;
  }

  fetched_body :
      (j : Json) (g : GenericResponse)
      → w.cfg ≡ some cfg
      → P.new_request "GET" request.url ≡ none
      → (P.http_do request w.outside).0 ≡ ok reply
      → reply.body ≡ ok (json j)
      → unmarshal_generic (json j) ≡ (g, false)
      → (fetch_item_by_id P log ctx id w).0
        ≡ ret (
            fetched P (
              (record {
                http_code = reply.status_code;
                content_type = reply.content_type;
                headers = none;
                raw_response_payload = some g;
              }),
              none,
            ))
  unfolding fetch_item_by_id send_http_request handle_response log_f
  fetched_body j g loaded made sent body decoded = ground arith

  -- Where the configuration is loaded, the request can be made, and the remote answers with any status and a
  -- JSON document that decodes into `GenericResponse` without an error and leaves its body nil, such as the
  -- problem document of a refusal, `FetchItemByID` returns the zero item and no error. A nil body is marshalled
  -- as null.
  pub fetch-no_body :
      (j : Json) (g : GenericResponse)
      → w.cfg ≡ some cfg
      → P.new_request "GET" request.url ≡ none
      → (P.http_do request w.outside).0 ≡ ok reply
      → reply.body ≡ ok (json j)
      → unmarshal_generic (json j) ≡ (g, false)
      → g.body ≡ null
      → P.remarshal null ≡ null
      → (fetch_item_by_id P log ctx id w).0 ≡ ret (ok zero_item)
  unfolding fetched unmarshal_item
  fetch-no_body j g loaded made sent body decoded bare nil =
      ground (arith, fetched_body j g loaded made sent body decoded)
