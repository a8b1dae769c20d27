-- ===== src/Servers.antt =====
-- cmd and pkg/lifecycle: the start of a server, in the three builds, and its end.
pub mod Http
pub mod Rpc
pub mod Consumer
pub mod Lifecycle
pub mod Ends
pub mod Once
pub mod Signals
pub mod Starts
use boilerplate_go_be.Base.{
  ℕ, ◌&&◌, ℤ, String, Bool, true, false, ◌||◌, not, Option, none, some, List, str_eq, if◌then◌else◌,
}
use boilerplate_go_be.Runtime.{
  Error, Result, ok, err, Outcome, ret, panic, exit, Prog, pure, raise, modify, gets, ◌>>=◌, ◌>>◌,
}
use boilerplate_go_be.Logger.{Log, Level, info}
use boilerplate_go_be.Platform.{Platform, KafkaMessage}
use boilerplate_go_be.World.{World, call, log_f}
use boilerplate_go_be.Supervisor.{on_start_up}
use boilerplate_go_be.Startup.{init_dependencies}
use boilerplate_go_be.Logging.{close_log_file}

-- What `flag.Parse` sets.
pub record Flags : Type 0 where
  pub show_version : Bool
  pub show_short : Bool
  pub file_path : String

-- The listeners and servers of the libraries, and systemd.
pub record Network (P : Platform) : Type 1 where
  pub Listener : Type 0
  pub flags : Flags
  pub print_version : P.State → P.State
  pub lookup_env : String → Option String
  pub listen : String → P.State → Result Listener × P.State
  pub systemd_listeners : P.State → Result (List Listener) × P.State
  pub close_listener : Listener → P.State → Option Error × P.State
  pub sd_notify : P.State → Option Error × P.State
  -- `chi.Walk` over the router: the method and the path of each route
  pub walk : Result (List (String × String))
  -- `Serve`, with all that is served until the server stops; Go's `http.Serve` always ends with an error
  pub serve_http : Listener → World P → Error × World P
  pub serve_grpc : Listener → World P → Option Error × World P
  pub shutdown_http : ℤ → P.State → Option Error × P.State
  pub graceful_stop : P.State → P.State
  -- `errors.Is` with `http.ErrServerClosed`, `grpc.ErrServerStopped` and `context.Canceled`
  pub server_closed : Error → Bool
  pub server_stopped : Error → Bool
  pub canceled : Error → Bool
  -- what the Kafka reader hands out, and the error that it ends with
  pub messages : P.State → List KafkaMessage × Error

-- Which functions are registered with pkg/lifecycle.
pub data Build : Type 0 where
  rest_build grpc_build kafka_build : Build

pub record KafkaServer : Type 0 where
  pub logger : Log
  pub canceled : Bool

-- `doneChan`.
pub data Done : Type 0 where
  no_channel open_channel closed_channel : Done

-- A package's instance with its `sync.Once` for the creation and for the shutdown.
pub record Single (S : Type 0) : Type 0 where
  pub instance_ : Option S
  pub create_once : Bool
  pub shutdown_once : Bool

module _ {P : Platform} (N : Network P) where
  pub record RestServer : Type 0 where
    pub addr : String
    pub base : List ℕ
    pub public_server : Option (List ℕ)
    pub open_api_version : Option String
    pub docs_path : Option String
    pub internal_docs : Option (String × String)
    pub read_timeout : ℤ
    pub write_timeout : ℤ
    pub idle_timeout : ℤ
    pub listener : Option N.Listener
    pub logger : Log

  pub record GrpcServer : Type 0 where
    pub listener : Option N.Listener
    pub logger : Log
    pub addr : String

  pub record App : Type 0 where
    pub world : World P
    pub done : Done
    pub rest : Single RestServer
    pub grpc : Single GrpcServer
    pub kafka : Single KafkaServer
    -- `closeFn` and `shutdownFn`
    pub close_fn : Option Build
    pub shutdown_fn : Option Build

  -- A call on the world alone.
  abbrev pub in_world : {A : Type 0} → Prog (World P) A → Prog App A
  in_world m a = ((m a.world).0, record a { world = (m a.world).1 })

  abbrev pub std_log : String → Prog App (Unit {0})
  std_log msg =
      modify
        (λ a. record a { world = record (a.world) { outside = P.std_log msg a.world.outside } })

  abbrev pub info_f : Log → String → Prog App (Unit {0})
  info_f l msg = in_world (log_f l info msg)

  -- `if doneChan != nil { close(doneChan) }`
  unfoldable pub close_done : Prog App (Unit {0})
  close_done a = elim a.done [
    | no_channel ↦ (ret tt, a)
    | open_channel ↦ (ret tt, record a { done = closed_channel })
    | closed_channel ↦ (panic "close of closed channel", a)
  ]

  -- The path of the configuration, or none where the program only prints its version.
  unfoldable pub parse_flags : Prog App (Option String)
  unfolding close_done
  parse_flags =
      if N.flags.show_version || N.flags.show_short
      then (do
        modify (λ a. record a {
          world = record (a.world) { outside = N.print_version a.world.outside };
        })
        close_done
        pure none)
      else pure (some N.flags.file_path)

  unfoldable pub notify_ready : Prog App (Unit {0})
  notify_ready = do
    started ← in_world (on_start_up P)
    (elim started [ some e ↦ std_log "startup:" | none ↦ pure tt ])
    if P.systemd && not (str_eq (P.getenv "NOTIFY_SOCKET") "")
        then (do
          notified ← in_world (call P N.sd_notify)
          elim notified [ some e ↦ std_log "systemd notify failed: %v" | none ↦ pure tt ])
        else pure tt

  -- `lifecycle.RegisterClose` and `RegisterShutdown`: the last registration wins.
  unfoldable pub register : Build → Prog App (Unit {0})
  register b = modify (λ a. record a { close_fn = some b; shutdown_fn = some b })

  -- A body with a deferred call.
  abbrev pub deferring : Prog App (Unit {0}) → Prog App (Unit {0}) → Prog App (Unit {0})
  deferring cleanup body a = elim (body a).0 [
    | ret _ ↦ cleanup (body a).1
    | panic p ↦ ((cleanup >> raise p) (body a).1)
    | exit ↦ (exit, (body a).1)
  ]

  unfoldable pub log_end : Log → Bool → Prog App (Unit {0})
  log_end l closed =
      if closed then info_f l "server closed" else info_f l "Failed to start the server: %v"

  -- How `Start` ends after `StartServer`, given which errors mean that the server was closed.
  unfoldable pub finish : (Error → Bool) → Log → Option Error → Prog App (Unit {0})
  unfolding log_end close_done
  finish is_closed l none = close_done
  finish is_closed l (some e) = do log_end l (is_closed e); close_done

  unfoldable pub after_init : (Log → Prog App (Unit {0})) → Result Log → Prog App (Unit {0})
  after_init serve (err e) = do std_log "Initialization failed: %v"; close_done
  after_init serve (ok l) = deferring (in_world (close_log_file P)) (serve l)

  unfoldable pub after_flags : (Log → Prog App (Unit {0})) → Option String → Prog App (Unit {0})
  unfolding after_init
  after_flags serve none = pure tt
  after_flags serve (some path) = do
    made ← in_world (init_dependencies P path)
    after_init serve made

  -- `Start` of the three builds, which differ in what they do with the logger.
  unfoldable pub start_with : (Log → Prog App (Unit {0})) → Prog App (Unit {0})
  unfolding after_flags
  start_with serve = do path ← parse_flags; after_flags serve path
