-- ===== src/Kafka.antt =====
-- server/kafka/consumer.go: the consumer of item events.
pub mod Events
pub mod Reader
use boilerplate_go_be.Base.{
  ℤ, pos, String, str_append, Bool, true, false, ◌||◌, ◌&&◌, not, Option, none, some, List, [], ◌∷◌,
  str_eq, lower_is, fold_is, show_int, if◌then◌else◌,
}
use boilerplate_go_be.Code.{Code}
use boilerplate_go_be.Runtime.{
  Error, new, wrap, Result, ok, err, Prog, pure, raise, recover_with, ◌>>=◌, ◌>>◌,
}
use boilerplate_go_be.Dto.{Item, zero_item}
use boilerplate_go_be.Json.{
  Json, null, bool, obj, field, end, Fields, Payload, json, malformed, Decoded, decode_int,
  decode_string, decode_item_into, unmarshal_item, marshal_item, marshal_items,
}
use boilerplate_go_be.Logger.{Log, info, warn, error}
use boilerplate_go_be.Aggregators.{new_repository, get_item_repository, new_outbound, example, http}
use boilerplate_go_be.Platform.{Platform, KafkaMessage}
use boilerplate_go_be.World.{World, call, log_f, the_cfg, unique_id_by_time}
use boilerplate_go_be.World.Ctx.{Ctx, get_logger_from_context, set_token_ctx}
use boilerplate_go_be.Logging.{new_logger}
use boilerplate_go_be.Database.{get_db}
use boilerplate_go_be.Supervisor.{request_restart}
use boilerplate_go_be.Items.Service

pub record ItemEvent : Type 0 where
  pub action : String
  pub item : Item
  pub id : ℤ

abbrev pub zero_event : ItemEvent
zero_event = record { action = ""; item = zero_item; id = pos 0 }

-- encoding/json into an `ItemEvent`.
event_field : String → Json → Decoded ItemEvent → Decoded ItemEvent
event_field k v (ev, bad) =
    if fold_is k "action"
    then (
      record ev { action = (decode_string v ev.action).0 },
      bad || (decode_string v ev.action).1,
    )
    else if fold_is k "item"
    then (
      record ev { item = (decode_item_into v ev.item).0 },
      bad || (decode_item_into v ev.item).1,
    )
    else if fold_is k "id"
    then (record ev { id = (decode_int v ev.id).0 }, bad || (decode_int v ev.id).1)
    else (ev, bad)

event_fields : Fields → Decoded ItemEvent → Decoded ItemEvent
unfolding event_field
event_fields end d = d
event_fields (field k v rest) d = event_fields rest (event_field k v d)

unfoldable pub unmarshal_event : Payload → Decoded ItemEvent
unfolding event_fields event_field decode_int decode_string decode_item_into fold_is
unmarshal_event (json (obj fs)) = event_fields fs (zero_event, false)
unmarshal_event (json null) = (zero_event, false)
unmarshal_event _ = (zero_event, true)

-- The event, or an item in the old format where the event's decoding fails; what the failed decoding has
-- filled stays.
unfoldable pub decode_message : Payload → Option ItemEvent
unfolding unmarshal_event unmarshal_item
decode_message value =
    let (ev, bad) = unmarshal_event value in
    let (itm, worse) = unmarshal_item value in
    if bad
    then (if worse then none else some (record ev { action = "create"; item = itm }))
    else some ev

pub record Headers : Type 0 where
  pub parent_id : String
  pub token : String
  pub reply_to : String
  pub corr_id : String

-- The loop over the message's headers: the last one of a name counts.
unfoldable pub read_headers : List (String × String) → Headers → Headers
unfolding lower_is
read_headers [] h = h
read_headers ((k, v) ∷ rest) h = read_headers rest (
    if lower_is k "parent-id"
    then record h { parent_id = v }
    else if lower_is k "authorization"
    then record h { token = v }
    else if lower_is k "reply-to"
    then record h { reply_to = v }
    else if lower_is k "correlation-id"
    then record h { corr_id = v }
    else h)

abbrev pub no_headers : Headers
no_headers = record { parent_id = ""; token = ""; reply_to = ""; corr_id = "" }

module _ (P : Platform) where
  log_code : Log → Option Code → Prog (World P) (Unit {0})
  log_code log none = pure tt
  log_code log (some c) = log_f log error "service error: %v"

  -- The switch on the action: the value to reply with.
  unfoldable pub dispatch : Ctx P → Service.Service → Log → ItemEvent → Prog (World P) Json
  unfolding log_code lower_is
  dispatch ctx svc log ev =
      if lower_is ev.action "create"
      then (do
        created ← Service.create_item P svc ctx ev.item
        log_code log created.1
        pure (marshal_item created.0))
      else if lower_is ev.action "update"
      then (do
        updated ← Service.update_item P svc ctx ev.item
        log_code log updated.1
        pure (marshal_item updated.0))
      else if lower_is ev.action "get"
      then (do
        got ← Service.get_item P svc ctx ev.id
        log_code log got.1
        pure (marshal_item got.0))
      else if lower_is ev.action "list"
      then (do
        listed ← Service.list_items P svc ctx
        log_code log listed.1
        pure (marshal_items listed.0))
      else if lower_is ev.action "delete"
      then (do
        deleted ← Service.delete_item P svc ctx ev.id
        log_code log deleted
        pure (obj (field "deleted" (bool true) end)))
      else if lower_is ev.action "crash"
      then raise "intentional crash"
      else (do log_f log warn "unknown action: %s"; pure null)

  close_writer : Log → String → Prog (World P) (Unit {0})
  close_writer log topic = do
    closed ← call P (P.kafka_close topic)
    elim closed [ some e ↦ log_f log error "close reply writer: %v" | none ↦ pure tt ]

  -- The message of the reply, by the event's id.
  abbrev pub reply_message : ItemEvent → Headers → Json → KafkaMessage
  reply_message ev h payload = record {
    key = show_int ev.id;
    value = json payload;
    headers = ("correlation-id", h.corr_id) ∷ [];
  }

  unfoldable pub send_reply : Log → ItemEvent → Headers → Json → Prog (World P) (Option Error)
  unfolding close_writer
  send_reply log ev h payload =
      if str_eq h.reply_to "" || str_eq h.corr_id "" then pure none else (do
        cfg ← the_cfg
        written ← call P (P.kafka_write h.reply_to (reply_message ev h payload))
        elim written [
          | some e ↦ do
            log_f log error "send reply: %v"
            close_writer log h.reply_to
            pure (some (wrap "send reply" e))
          | none ↦ do close_writer log h.reply_to; pure none
        ])

  -- From the request's logger on.
  unfoldable pub process : Ctx P → Log → ItemEvent → Headers → Prog (World P) (Option Error)
  unfolding dispatch send_reply
  process ctx log ev h = do
    svc ←
        Service.new_service (some (get_item_repository (new_repository log)).0)
          (http (example (new_outbound log)).0).0 (some log)
    log_f log info "consuming action %s"
    payload ← dispatch (set_token_ctx ctx h.token) svc log ev
    send_reply log ev h payload

  unfoldable pub with_parent : Ctx P → ItemEvent → Headers → String → Prog (World P) (Option Error)
  unfolding process
  with_parent ctx ev h parent_id = elim (get_logger_from_context ctx) [
    | some log ↦ process ctx log ev h
    | none ↦ do
      child ← unique_id_by_time
      elim child [
        | err e ↦ pure (some (wrap "failed to generate child ID" e))
        | ok child_id ↦ do
          cfg ← the_cfg
          made ← new_logger P cfg.log_target parent_id child_id
          elim made [
            | err e ↦ pure (some (wrap "failed to create logger" e))
            | ok log ↦ process ctx log ev h
          ]
      ]
  ]

  unfoldable pub handle_decoded : Ctx P → ItemEvent → Headers → Prog (World P) (Option Error)
  unfolding with_parent
  handle_decoded ctx ev h =
      if str_eq h.parent_id ""
      then (do
        made ← unique_id_by_time
        elim made [
          | err e ↦ pure (some (wrap "failed to generate parent ID" e))
          | ok id ↦ with_parent ctx ev h (str_append "-" id)
        ])
      else with_parent ctx ev h h.parent_id

  -- The body under the deferred recovery.
  unfoldable pub handle_body : Log → Ctx P → KafkaMessage → Prog (World P) (Option Error)
  unfolding handle_decoded
  handle_body log ctx m = elim (decode_message m.value) [
    | none ↦ do log_f log error "failed to decode message: %v"; pure none
    | some ev ↦ handle_decoded ctx ev (read_headers m.headers no_headers)
  ]

  report : Log → Option Error → Prog (World P) (Unit {0})
  report log none = pure tt
  report log (some e) = log_f log error "restart request failed: %v"

  -- The goroutine of the deferred function runs to its end at once.
  unfoldable pub handle_message : Log → Ctx P → KafkaMessage → Prog (World P) (Option Error)
  unfolding report
  handle_message log ctx m = recover_with (handle_body log ctx m) (λ p. do
    log_f log error "Recovered panic: %v\n%s"
    asked ← request_restart P
    report log asked
    pure (some (new (str_append "panic: " p))))

  log_processed : Log → Option Error → Prog (World P) (Unit {0})
  log_processed log none = pure tt
  log_processed log (some e) = log_f log error "message processing failed: %v"

  -- `Start` over the messages that the reader hands out until it fails with `stop`. The field `handler`,
  -- which tests alone set, is nil.
  unfoldable pub start : Log → Ctx P → List KafkaMessage → Error → Prog (World P) Error
  unfolding log_processed
  start log ctx [] stop = pure stop
  start log ctx (m ∷ rest) stop = do
    result ← handle_message log ctx m
    log_processed log result
    start log ctx rest stop
