-- ===== src/Servers/Rpc.antt =====
-- cmd/start_grpc.go: the gRPC server.
use boilerplate_go_be.Base.{true, str_append, Option, none, some, if◌then◌else◌}
use boilerplate_go_be.Runtime.{
  Error, ret, ok, err, Prog, pure, lift, raise, modify, gets, ◌>>=◌, ◌>>◌,
}
use boilerplate_go_be.Config.{Config}
use boilerplate_go_be.Logger.{Log}
use boilerplate_go_be.Platform.{Platform}
use boilerplate_go_be.World.{call, the_cfg}
use boilerplate_go_be.Servers.{
  Network, App, GrpcServer, grpc_build, in_world, info_f, notify_ready, register, finish,
  start_with,
}

module _ {P : Platform} (N : Network P) where
  abbrev pub set_instance : GrpcServer N → Prog (App N) (Unit {0})
  set_instance s = modify (λ a. record a { grpc = record (a.grpc) { instance_ = some s } })

  -- `GetGRPCServer`; the address is the one that `StartServer` reads from the configuration.
  unfoldable pub get_grpc_server : Config → Log → Prog (App N) (Option (GrpcServer N))
  get_grpc_server cfg log = do
    spent ← gets (λ a. a.grpc.create_once)
    (if spent then pure tt else (do
      modify (λ a. record a { grpc = record (a.grpc) { create_once = true } })
      set_instance (record {
        listener = none;
        logger = log;
        addr = str_append cfg.grpc.host (str_append ":" cfg.grpc.port);
      })))
    gets (λ a. a.grpc.instance_)

  -- `StartServer`; it ends when the server does.
  unfoldable pub start_grpc_server : GrpcServer N → Prog (App N) (Option Error)
  start_grpc_server s = do
    listening ← in_world N (call P (N.listen s.addr))
    elim listening [
      | err e ↦ pure (some e)
      | ok ln ↦ do
        set_instance (record s { listener = some ln })
        info_f N s.logger "Starting gRPC server at "
        notify_ready N
        in_world N (lift (N.serve_grpc ln))
    ]

  unfoldable pub serve_grpc_build : Log → Prog (App N) (Unit {0})
  serve_grpc_build log = do
    cfg ← in_world N the_cfg
    server ← get_grpc_server cfg log
    register N grpc_build
    elim server [
      | none ↦ raise "nil pointer dereference"
      | some s ↦ do ended ← start_grpc_server s; finish N N.server_stopped log ended
    ]

  unfoldable pub grpc_start : Prog (App N) (Unit {0})
  unfolding serve_grpc_build
  grpc_start = start_with N serve_grpc_build

  unfoldable pub close_grpc_listener : Prog (App N) (Unit {0})
  close_grpc_listener a = elim a.grpc.instance_ [
    | none ↦ (ret tt, a)
    | some s ↦ (elim s.listener [
      | none ↦ (ret tt, a)
      | some ln ↦
          ((do
            _ ← in_world N (call P (N.close_listener ln))
            set_instance (record s { listener = none }))
            a)
    ])
  ]

  -- `GRPCShutdownServer`, whose error is always nil.
  unfoldable pub shutdown_grpc : Prog (App N) (Option Error)
  unfolding close_grpc_listener
  shutdown_grpc a = elim a.grpc.instance_ [
    | none ↦ (ret none, a)
    | some s ↦
        ((if a.grpc.shutdown_once then pure none else (do
          modify (λ a. record a { grpc = record (a.grpc) { shutdown_once = true } })
          info_f N s.logger "Shutting down the gRPC server"
          close_grpc_listener
          modify (λ a. record a {
            world = record (a.world) { outside = N.graceful_stop a.world.outside };
          })
          pure none))
          a)
  ]
