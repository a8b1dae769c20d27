-- ===== src/Tests/Endpoints.antt =====
-- Witnesses for the endpoints and the outbound clients.
use boilerplate_go_be.Base.{
  arith, str_eq_iff, lookup, fold_is, pos, refl, ◌≡◌, ◌++◌, str_append, show_int, none, some, [],
  ◌∷◌,
}
use boilerplate_go_be.Runtime.{ret, ok}
use boilerplate_go_be.Dto.{zero_item}
use boilerplate_go_be.Json.{marshal_item, Payload}
use boilerplate_go_be.Jwt.{zero_user}
use boilerplate_go_be.Platform.{KafkaMessage}
use boilerplate_go_be.World.Ctx.{
  Ctx, set_user_ctx, set_token_ctx, set_outbound_ctx, set_repo_ctx, set_logger_to_context,
  get_logger_from_context, get_repo_ctx, get_outbound_ctx, get_tx_ctx, set_tx_ctx,
}
use boilerplate_go_be.Aggregators.{
  new_repository, new_outbound, get_item_repository, http, get_or_create, example,
}
use boilerplate_go_be.Database.{with_transaction, run_tx, exec_context}
use boilerplate_go_be.Items.Store.{find, named}
use boilerplate_go_be.Items.Repo.{create, create_in_tx}
use boilerplate_go_be.Items.Service
use boilerplate_go_be.Kafka.{ItemEvent, Headers, reply_message}
use boilerplate_go_be.Outbound.Http.{zero_generic, unmarshal_generic, generic_fields}
use boilerplate_go_be.Outbound.Example.{await_reply, fetch_item_by_id}
use boilerplate_go_be.Outbound.Replies.{Others, delivered, await-reply_message, fetch-no_body}
use boilerplate_go_be.Rest.{success_envelope}
use boilerplate_go_be.Rest.Handlers.{ItemOutput, service_from_context, create_item_handler}
use boilerplate_go_be.Rest.Endpoints.{
  service_of, service_from_context-wired, create_item_handler-refines,
}
use boilerplate_go_be.Tests.Memory.{
  Memory, log, context, world, memory_store, empty_config, refusal,
}

abbrev request_context : Ctx Memory
request_context =
    set_user_ctx
      (set_token_ctx
        (set_outbound_ctx (set_repo_ctx (set_logger_to_context context log) (new_repository log))
          (new_outbound log))
        "t")
      zero_user

wired :
    service_from_context Memory "shop" request_context world ≡ (ret (some (service_of log)), world)
wired = service_from_context-wired Memory "shop" context log "t" zero_user world

abbrev pub cup_output : ItemOutput
cup_output = record {
  status = 200;
  location = "";
  body = success_envelope "shop" 200 (named (pos 2) "cup");
}

abbrev ink_output : ItemOutput
ink_output = record {
  status = 201;
  location = str_append "/items/" (show_int (pos 3));
  body = success_envelope "shop" 201 (named (pos 3) "ink");
}

create_item_handler-refines_example :
    (ink_output.status ≡ 201)
    × (ink_output.location ≡ str_append "/items/" (show_int (pos 3)))
    × (ink_output.body.body.name ≡ "ink")
    × (find (pos 3) (memory_store.table world.outside) ≡ none)
    × (memory_store.table
          (create_item_handler Memory "shop" request_context
            (record { body = named (pos 0) "ink" })
            world).1.outside
        ≡ memory_store.table world.outside ++ named (pos 3) "ink" ∷ [])
unfolding create_item_handler Service.create_item create create_in_tx with_transaction run_tx
    exec_context success_envelope find get_tx_ctx set_tx_ctx get_item_repository new_repository
    service_from_context get_repo_ctx set_user_ctx set_token_ctx set_outbound_ctx set_repo_ctx
    get_outbound_ctx get_logger_from_context set_logger_to_context Service.new_service http
    get_or_create lookup example new_outbound
create_item_handler-refines_example =
    create_item_handler-refines Memory "shop" memory_store request_context world refl
      (service_of log) wired (record { body = named (pos 0) "ink" }) ink_output refl

abbrev other_message : KafkaMessage
other_message = record {
  key = "0";
  value = Payload.malformed;
  headers = ("correlation-id", "other") ∷ [];
}

abbrev event : ItemEvent
event = record { action = "get"; item = zero_item; id = pos 2 }

abbrev reply_headers : Headers
reply_headers = record {
  parent_id = "";
  token = "";
  reply_to = "items-reply-00ff";
  corr_id = "00ff";
}

await-reply_message_example :
    await_reply "00ff" (
      delivered
        (other_message ∷ [])
        (ok (reply_message Memory event reply_headers (marshal_item (named (pos 2) "cup"))) ∷ []))
    ≡ some (ok (named (pos 2) "cup"))
unfolding Others await_reply
await-reply_message_example =
    await-reply_message Memory "00ff" (other_message ∷ []) [] event reply_headers
      (named (pos 2) "cup")
      (((λ _ h. absurd (ground (arith, (str_eq_iff "other" "00ff").1 h))), tt), tt) refl

fetch-no_body_example : (fetch_item_by_id Memory log context (pos 2) world).0 ≡ ret (ok zero_item)
unfolding unmarshal_generic generic_fields fold_is
fetch-no_body_example =
    fetch-no_body Memory log context (pos 2) world empty_config refusal _ zero_generic refl refl
      refl refl refl refl refl
