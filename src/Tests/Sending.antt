-- ===== src/Tests/Sending.antt =====
-- Witnesses for what the clients send and what a secret shows.
use boilerplate_go_be.Items.Service
use boilerplate_go_be.Aggregators.{
  http, get_or_create, example, new_outbound, get_item_repository, new_repository,
}
use boilerplate_go_be.Logging.Watchers.{
  start_watchers, watch_path, watch_paths, made_watcher, added_watcher,
}
use boilerplate_go_be.Logging.{
  new_logger, fresh_logger, init_logger_core, directory_made, default_opened, level_files_opened,
  core_of, open_level_files,
}
use boilerplate_go_be.Logger.{Log, parse_log_level}
use boilerplate_go_be.Jwt.{zero_user, parse_jwt, key_func, get_jwt_service}
use boilerplate_go_be.Base.{
  false, some, [], pos, refl, arith, ◌≡◌, ◌≢◌, String, str_eq, if◌then◌else◌, none, ◌++◌, codes,
  lookup,
}
use boilerplate_go_be.Runtime.{ret, ok}
use boilerplate_go_be.Grpc.{
  get_header, Incoming, build_service, parent_of, request_log, authenticated,
}
use boilerplate_go_be.Outbound.Example.{token_of}
use boilerplate_go_be.Outbound.Rpc.{Client, metadata_new, rpc_headers}
use boilerplate_go_be.Outbound.Tokens.{read-rpc_headers}
use boilerplate_go_be.Json.{json}
use boilerplate_go_be.Platform.{Platform, HttpReply}
use boilerplate_go_be.World.{World, unique_id_by_time, the_cfg}
use boilerplate_go_be.Rest.{success_envelope}
use boilerplate_go_be.Outbound.Example.{fetch_item_by_filter}
use boilerplate_go_be.Outbound.Lists.{marshal_list_envelope, fetch-list_envelope, ExactJson}
use boilerplate_go_be.Items.Store.{named}
use boilerplate_go_be.Secrets.{masked, masked-long}
use boilerplate_go_be.World.Ctx.{
  background, set_token_ctx, Ctx, get_token_ctx, set_user_ctx, get_logger_from_context,
}
use boilerplate_go_be.Tests.Memory.{empty_config, two_items, Memory, context, log, world}

abbrev lowered : String → String
lowered key =
    if str_eq key "Authorization"
    then "authorization"
    else if str_eq key "Parent-Id"
    then "parent-id"
    else key

abbrev Near : Client Memory
Near = record {
  new_client = λ _. none;
  invoke = λ _ _ _ _ s. (ok (named (pos 1) "pen"), s);
  close = λ s. (none, s);
  lower = lowered;
}

abbrev sending : Ctx Memory
sending = set_token_ctx context "good"

-- The call as the server gets it.
abbrev arrived : Incoming Memory
arrived = record { ctx = context; metadata = metadata_new Near (rpc_headers Near log sending) }

abbrev served_log : Log
served_log = record { level = pos 0; parent_id = "p"; child_id = "00ff" }

abbrev served_ctx : Ctx Memory
served_ctx = set_token_ctx (set_user_ctx context zero_user) "good"

read-rpc_headers_example :
    (get_token_ctx served_ctx ≡ some (token_of sending)) × (served_log.parent_id ≡ log.parent_id)
unfolding build_service parent_of request_log authenticated get_header metadata_new rpc_headers
    token_of get_token_ctx set_token_ctx set_user_ctx get_logger_from_context unique_id_by_time
    the_cfg new_logger fresh_logger init_logger_core directory_made default_opened
    level_files_opened core_of open_level_files start_watchers watch_path watch_paths made_watcher
    added_watcher parse_jwt key_func get_jwt_service Service.new_service get_or_create lookup http
    example new_outbound parse_log_level get_item_repository new_repository
read-rpc_headers_example =
    read-rpc_headers Near log sending arrived world served_ctx
      (record { item_repo = record { log = served_log }; external = served_log; log = served_log })
      refl refl refl refl refl refl

masked-long_example :
    (masked (codes "abcd" ++ codes "12345678" ++ codes "wxyz")
      ≡ masked (codes "abcd" ++ codes "........" ++ codes "wxyz"))
    × (masked (codes "abcd" ++ codes "12345678" ++ codes "wxyz") ≢ none)
masked-long_example =
    masked-long (codes "abcd") (codes "12345678") (codes "........") (codes "wxyz") refl refl
      (ground arith) refl

abbrev listed : HttpReply
listed = record {
  status_code = 200;
  content_type = "application/json";
  body = ok (json (marshal_list_envelope (success_envelope "shop" 200 two_items)));
  dump_err = none;
  close_err = none;
}

abbrev Listing : Platform
Listing = record Memory { http_do = λ _ s. (ok listed, s) }

abbrev listing_world : World Listing
listing_world = record {
  outside = record { next = 3; rows = []; work = []; opened = 0 };
  lines = [];
  cfg = some empty_config;
  jwt = record { once_done = false; instance_ = none };
  db = record { connected = false; once_done = false; logger = none };
  core = none;
}

listing_exact : ExactJson Listing
listing_exact = record { null_kept = refl; items_kept = λ its small. refl }

fetch-list_envelope_example :
    (fetch_item_by_filter Listing log (λ s. s) background "pen" listing_world).0
    ≡ ret (ok two_items)
fetch-list_envelope_example =
    fetch-list_envelope Listing log background (λ s. s) "pen" listing_world empty_config listed
      listing_exact "shop" 200 two_items (ground arith, (ground arith, tt)) refl refl refl refl
