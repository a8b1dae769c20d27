-- ===== src/Tests/Starting.antt =====
-- Witnesses for the server starts and the paths, on a network where every call works.
use boilerplate_go_be.Base.{
  seconds, some, pos, refl, ◌≡◌, String, true, false, none, [], ◌∷◌, codes,
}
use boilerplate_go_be.Runtime.{foreign, ret, ok}
use boilerplate_go_be.Config.{Config}
use boilerplate_go_be.Paths.{trim_right_slashes, slash, normalize_base_path, api_base}
use boilerplate_go_be.Servers.{RestServer, rest_build, Network, App, open_channel, closed_channel}
use boilerplate_go_be.Servers.Http.{rest_start, get_rest_server}
use boilerplate_go_be.Servers.Lifecycle.{signalled, run}
use boilerplate_go_be.Servers.Signals.{after_shutdown, run-stops}
use boilerplate_go_be.Servers.Ends.{ChannelAfter}
use boilerplate_go_be.Servers.Starts.{rest_start-closes}
use boilerplate_go_be.Tests.Memory.{Memory, world, log, empty_config}

abbrev Local : Network Memory
Local = record {
  Listener = Unit {0};
  flags = record { show_version = false; show_short = false; file_path = "config.yaml" };
  print_version = λ s. s;
  lookup_env = λ _. none;
  listen = λ _ s. (ok tt, s);
  systemd_listeners = λ s. (ok [], s);
  close_listener = λ _ s. (none, s);
  sd_notify = λ s. (none, s);
  walk = ok (("GET", "/items") ∷ ("POST", "/items") ∷ []);
  serve_http = λ _ w. (foreign 9, w);
  serve_grpc = λ _ w. (none, w);
  shutdown_http = λ _ s. (none, s);
  graceful_stop = λ s. s;
  server_closed = λ _. true;
  server_stopped = λ _. true;
  canceled = λ _. true;
  messages = λ s. ([], foreign 8);
}

abbrev app : App Local
app = record {
  world = world;
  done = open_channel;
  rest = record { instance_ = none; create_once = false; shutdown_once = false };
  grpc = record { instance_ = none; create_once = false; shutdown_once = false };
  kafka = record { instance_ = none; create_once = false; shutdown_once = false };
  close_fn = none;
  shutdown_fn = none;
}

rest_start-closes_example :
    ChannelAfter Local (λ _. closed_channel) (rest_start Local app).0 (rest_start Local app).1.done
rest_start-closes_example = rest_start-closes Local app refl

abbrev on_port : String → Config
on_port port = record empty_config { rest = record { host = ""; port = port } }

abbrev started : App Local
started = (get_rest_server Local (on_port "80") log app).1

bases :
    (api_base (codes "v1/") ≡ codes "/v1")
    × (api_base (codes "") ≡ codes "/")
    × (normalize_base_path (codes "//") ≡ codes "/")
unfolding api_base normalize_base_path trim_right_slashes
bases = (refl, refl, refl)

abbrev rest_server : RestServer Local
rest_server = record {
  addr = ":80";
  base = slash;
  public_server = none;
  open_api_version = none;
  docs_path = none;
  internal_docs = none;
  read_timeout = pos 0;
  write_timeout = pos 0;
  idle_timeout = pos 0;
  listener = some tt;
  logger = log;
}

abbrev listening : App Local
listening = record app {
  rest = record { instance_ = some rest_server; create_once = true; shutdown_once = false };
  close_fn = some rest_build;
  shutdown_fn = some rest_build;
}

run-stops_example :
    ((run Local signalled listening).0 ≡ ret tt)
    × ((run Local signalled listening).1.rest.instance_
        ≡ some (record rest_server { listener = none }))
    × ((run Local signalled listening).1.rest.shutdown_once ≡ true)
    × ((run Local signalled listening).1.world.outside
        ≡ after_shutdown Local (
            Local.shutdown_http
              (seconds empty_config.server.timeout.write)
              (Local.close_listener tt
                (Memory.std_log "Received signal:" listening.world.outside)).1))
run-stops_example =
    run-stops Local listening rest_server tt empty_config refl refl refl refl refl refl
