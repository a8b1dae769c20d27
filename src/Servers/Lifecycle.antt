-- ===== src/Servers/Lifecycle.antt =====
-- pkg/lifecycle: shutdown.go and run_default.go, with main.go.
use boilerplate_go_be.Base.{Option, none, some}
use boilerplate_go_be.Runtime.{Error, Prog, pure, gets, ◌>>=◌, ◌>>◌}
use boilerplate_go_be.Platform.{Platform}
use boilerplate_go_be.Servers.{Network, App, Build, rest_build, grpc_build, kafka_build, std_log}
use boilerplate_go_be.Servers.Http.{close_rest_listener, shutdown_rest}
use boilerplate_go_be.Servers.Rpc.{close_grpc_listener, shutdown_grpc}
use boilerplate_go_be.Servers.Consumer.{close_kafka_listener, shutdown_kafka}

-- What ends the `select` of `Run`.
pub data Wake : Type 0 where
  signalled finished : Wake

module _ {P : Platform} (N : Network P) where
  abbrev close_registered : Option Build → Prog (App N) (Unit {0})
  close_registered none = pure tt
  close_registered (some rest_build) = close_rest_listener N
  close_registered (some grpc_build) = close_grpc_listener N
  close_registered (some kafka_build) = close_kafka_listener N

  unfoldable pub close_server_listener : Prog (App N) (Unit {0})
  close_server_listener = do fn ← gets (λ a. a.close_fn); close_registered fn

  abbrev shutdown_registered : Option Build → Prog (App N) (Option Error)
  shutdown_registered none = pure none
  shutdown_registered (some rest_build) = shutdown_rest N
  shutdown_registered (some grpc_build) = shutdown_grpc N
  shutdown_registered (some kafka_build) = shutdown_kafka N

  unfoldable pub shutdown_server : Prog (App N) (Option Error)
  shutdown_server = do fn ← gets (λ a. a.shutdown_fn); shutdown_registered fn

  unfoldable pub log_shutdown : Option Error → Prog (App N) (Unit {0})
  log_shutdown none = pure tt
  log_shutdown (some e) = std_log N "Error shutting down server:"

  -- `Run` once the start function is under way: on a signal, or when `doneChan` is closed.
  unfoldable pub run : Wake → Prog (App N) (Unit {0})
  unfolding log_shutdown
  run signalled = do
    std_log N "Received signal:"
    close_server_listener
    failed ← shutdown_server
    log_shutdown failed
    std_log N "Application stopped gracefully."
  run finished = do
    std_log N "cmd finished execution (e.g., version flag)."
    std_log N "Application stopped gracefully."
