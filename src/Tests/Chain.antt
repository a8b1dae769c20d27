-- ===== src/Tests/Chain.antt =====
-- Witnesses for the handler that the REST server gives to net/http, with a router of three paths.
use mathlib.Core.List.{Memᴰ}
use boilerplate_go_be.Startup.{with_logger, new_db, run_migrations}
use boilerplate_go_be.Rest.Recovery.{chi_answer}
use boilerplate_go_be.Rest.Routes.{registrations}
use boilerplate_go_be.Code.{err_method_not_allowed}
use boilerplate_go_be.Base.{
  lookup, pos, refl, ◌≡◌, ◌⊎◌, inl, inr, String, str_append, str_eq, true, false, none, some, List,
  [], ◌∷◌, if◌then◌else◌,
}
use boilerplate_go_be.Runtime.{Result, ok, err, ret, new}
use boilerplate_go_be.Jwt.{key_func, new_jwt_service, initialize_jwt_service, parse_jwt, zero_user}
use boilerplate_go_be.World.{the_cfg, unique_id_by_time}
use boilerplate_go_be.Items.Store.{find}
use boilerplate_go_be.Rest.{Reply, problem, plain_text, error_envelope}
use boilerplate_go_be.Rest.Middleware.{
  dashed, parent_of, Exchange, Request, parent_of, dashed, request_logger, http_error, write,
  write_header, push_layer, pop_layer,
}
use boilerplate_go_be.Rest.Auth.{IsFresh, all_open, status_sent}
use boilerplate_go_be.Rest.Handlers.{service_from_context, get_item_handler}
use boilerplate_go_be.Rest.Files.{Files}
use boilerplate_go_be.Rest.Routes.{
  Endpoint, Input, Output, Registration, Routed, registered, elsewhere, Framework, get_item_route,
  get_item_operation, handler_chain, rest_handler,
}
use boilerplate_go_be.Contained.{Same}
use boilerplate_go_be.Rest.Chain.{rest_handler-returns}
use boilerplate_go_be.Rest.Answers.{secured-refused}
use boilerplate_go_be.Rest.Outcomes.{rest_handler-crash, rest_handler-unknown}
use boilerplate_go_be.Rest.Authorized.{user_request, get_item_request-answers}
use boilerplate_go_be.Logging.{
  new_logger, fresh_logger, init_logger_core, directory_made, default_opened, level_files_opened,
  core_of, open_level_files,
}
use boilerplate_go_be.Logging.Watchers.{
  start_watchers, watch_path, watch_paths, made_watcher, added_watcher,
}
use boilerplate_go_be.World.Ctx.{
  get_repo_ctx, set_user_ctx, set_token_ctx, set_outbound_ctx, set_repo_ctx, get_outbound_ctx,
  get_logger_from_context, set_logger_to_context,
}
use boilerplate_go_be.Aggregators.{http, get_or_create, example, new_outbound}
use boilerplate_go_be.Items.Service
use boilerplate_go_be.Items.Repo.{get}
use boilerplate_go_be.Database.{get_db}
use boilerplate_go_be.Tests.Memory.{Memory, log, world, memory_store}
use boilerplate_go_be.Logger.{Log, parse_log_level}
use boilerplate_go_be.Rest.Chain.{request_of}
use boilerplate_go_be.Tests.Endpoints.{cup_output}
use boilerplate_go_be.Tests.Servers.{request, exchange, starting, started, crashing}

abbrev no_files : Files Memory
no_files = record {
  Data = String;
  read_data = λ _ s. (err (new "not found"), s);
  not_exist = λ _. true;
  quoted = λ name. str_append "\"" (str_append name "\"");
  type_by_extension = λ _. "";
  detect_content_type = λ _. "text/plain";
  drain = λ s. s;
  sleep_for = λ _ s. s;
  getpid = pos 7;
}

abbrev unknown : Reply → Reply
unknown = chi_answer Memory true "404 page not found" ("GET" ∷ [])

abbrev further : {reg : Registration} {regs : List Registration} → Routed regs → Routed (reg ∷ regs)
further (registered reg found) = registered reg (Memᴰ.tail found)
further (elsewhere answer) = elsewhere answer

abbrev by_id : String → (regs : List Registration) → Routed regs
by_id id [] = elsewhere unknown
by_id id (reg ∷ regs) =
    let rest = by_id id regs in
    if str_eq reg.operation.operation_id id then registered reg (Memᴰ.head refl) else further rest

abbrev route_of_path : (regs : List Registration) → Request Memory → Routed regs
route_of_path regs r =
    if str_eq r.path "/items/2"
    then by_id "getItem" regs
    else if str_eq r.path "/system/crash"
    then by_id "crash" regs
    else elsewhere unknown

abbrev decode_for : (e : Endpoint) → Input e ⊎ (Reply → Reply)
decode_for Endpoint.get_item = inl (record { id = pos 2 })
decode_for Endpoint.crash = inl tt
decode_for Endpoint.echo = inl tt
decode_for Endpoint.long = inl (pos 0)
decode_for Endpoint.upload_file = inl false
decode_for Endpoint.download_file = inl "a"
decode_for Endpoint.form_with_file = inl (false, "a")
decode_for Endpoint.delete_item = inl (record { id = pos 2 })
decode_for Endpoint.list_items = inr (http_error "not decoded" 422)
decode_for Endpoint.create_item = inr (http_error "not decoded" 422)
decode_for Endpoint.update_item = inr (http_error "not decoded" 422)

abbrev encode_for : (e : Endpoint) → Result (Output no_files "shop" e) → Reply → Reply
encode_for Endpoint.get_item (ok out) b =
    write (plain_text out.body.body.name) (write_header out.status b)
encode_for e out b = write_header 500 b

abbrev framework : Framework no_files "shop"
framework = record {
  route = route_of_path;
  decode = λ op r. decode_for op.handler;
  encode = λ op. encode_for op.handler;
}

abbrev item_request : Request Memory
item_request = record request { path = "/items/2" }

abbrev crash_request : Request Memory
crash_request = record request { path = "/system/crash" }

abbrev unknown_request : Request Memory
unknown_request = record request { path = "/nowhere" }

rest_handler-returns_example :
    ((rest_handler no_files "shop" framework log crash_request exchange).0 ≡ ret tt)
    × Same world (rest_handler no_files "shop" framework log crash_request exchange).1.world
rest_handler-returns_example =
    rest_handler-returns no_files "shop" framework log crash_request exchange refl

abbrev started_exchange : Exchange Memory
started_exchange = record exchange { world = started }

secured-refused_example :
    ((rest_handler no_files "shop" framework log item_request started_exchange).0 ≡ ret tt)
    × ((status_sent
            (rest_handler no_files "shop" framework log item_request started_exchange).1.reply
          ≡ some 401)
        ⊎ (status_sent
              (rest_handler no_files "shop" framework log item_request started_exchange).1.reply
            ≡ some 500))
    × (rest_handler no_files "shop" framework log item_request started_exchange
        ≡ handler_chain no_files "shop" framework (λ _. crashing) log item_request started_exchange)
unfolding IsFresh all_open registrations with_logger new_db run_migrations initialize_jwt_service
    new_jwt_service
secured-refused_example =
    secured-refused no_files "shop" framework log item_request started_exchange (λ _. crashing)
      starting log log get_item_route refl refl refl refl (refl, refl, refl) (λ ctx. (_, refl)) refl

rest_handler-crash_example :
    ((rest_handler no_files "shop" framework log crash_request exchange).0 ≡ ret tt)
    × (status_sent (rest_handler no_files "shop" framework log crash_request exchange).1.reply
        ≡ some 500)
unfolding IsFresh all_open registrations
rest_handler-crash_example =
    rest_handler-crash no_files "shop" framework log crash_request exchange refl (refl, refl, refl)
      (λ ctx. (_, refl)) (λ ctx. (tt, refl))

rest_handler-unknown_example :
    ((rest_handler no_files "shop" framework log unknown_request exchange).0 ≡ ret tt)
    × (((status_sent (rest_handler no_files "shop" framework log unknown_request exchange).1.reply
            ≡ some 405)
          × ((rest_handler no_files "shop" framework log unknown_request exchange).1.reply.body
              ≡ problem (error_envelope 405 err_method_not_allowed.message) ∷ []))
        ⊎ (status_sent (rest_handler no_files "shop" framework log unknown_request exchange).1.reply
            ≡ some 500))
rest_handler-unknown_example =
    rest_handler-unknown no_files "shop" framework log unknown_request exchange true
      "404 page not found" ("GET" ∷ []) refl refl (λ ctx. refl)

abbrev item_log : Log
item_log = record { level = pos 0; parent_id = "-00ff"; child_id = "00ff" }

-- After the logger's stage.
abbrev logged : Exchange Memory
logged = (request_logger Memory item_request exchange).1

get_item_request-answers_example :
    let written =
      framework.encode get_item_operation (ok cup_output) (push_layer Memory logged.reply) in
    ((rest_handler no_files "shop" framework log item_request exchange).0 ≡ ret tt)
    × ((rest_handler no_files "shop" framework log item_request exchange).1.reply
        ≡ pop_layer Memory written.layers written)
    × (cup_output.status ≡ 200)
    × (find (pos 2) (memory_store.table logged.world.outside) ≡ some cup_output.body.body)
unfolding registrations request_logger unique_id_by_time parent_of dashed the_cfg new_logger
    fresh_logger init_logger_core directory_made default_opened level_files_opened core_of
    open_level_files start_watchers watch_path watch_paths made_watcher added_watcher parse_jwt
    user_request request_of get_item_handler Service.get_item get get_db find service_from_context
    get_repo_ctx set_user_ctx set_token_ctx set_outbound_ctx set_repo_ctx get_outbound_ctx
    get_logger_from_context set_logger_to_context Service.new_service http get_or_create lookup
    example new_outbound parse_log_level key_func
get_item_request-answers_example =
    get_item_request-answers no_files "shop" framework log item_request exchange memory_store
      item_log logged (record { private_key = none; public_key = some tt }) zero_user
      (record { id = pos 2 }) cup_output refl (λ ctx. (_, refl)) refl refl refl refl refl refl
