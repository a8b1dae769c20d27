-- ===== src/Servers/Starts.antt =====
-- `doneChan` over `Start` of each build.
use boilerplate_go_be.Base.{
  ◌≡◌, refl, Bool, true, false, String, List, [], ◌∷◌, Option, none, some, if◌then◌else◌,
}
use boilerplate_go_be.Runtime.{Prog, pure, lift, raise, modify, gets, ◌>>=◌, ◌>>◌}
use boilerplate_go_be.Config.{Config}
use boilerplate_go_be.Logger.{Log, error}
use boilerplate_go_be.Platform.{Platform}
use boilerplate_go_be.World.{call, log_f, the_cfg}
use boilerplate_go_be.Servers.{
  Build, Network, App, open_channel, closed_channel, rest_build, grpc_build, kafka_build,
  RestServer, GrpcServer, KafkaServer, in_world, info_f, close_done, notify_ready, register, finish,
}
use boilerplate_go_be.World.Ctx.{background}
use boilerplate_go_be.Kafka.{start}
use boilerplate_go_be.Servers.Http
use boilerplate_go_be.Servers.Rpc
use boilerplate_go_be.Servers.Consumer
use boilerplate_go_be.Servers.Ends.{
  ChannelAfter, Leaves, Keeps, Leaves-pure, Leaves-if, Leaves-in_world, Leaves-close, Leaves-bind,
  Leaves-option, Leaves-result, Leaves-modify, Leaves-gets, Leaves-info_f, Leaves-notify_ready,
  Leaves-finish, Leaves-start_with,
}

module _ {P : Platform} (N : Network P) where
  quiet : Keeps N (pure tt)
  quiet = Leaves-pure N {Q = λ _. open_channel} tt

  registered :
      (b : Build) (rest : Prog (App N) (Unit {0}))
      → Leaves N open_channel (λ _. closed_channel) rest
      → Leaves N open_channel (λ _. closed_channel) (register N b >> rest)
  unfolding register
  registered b rest h =
      Leaves-bind N (register N b) (λ _. rest) (Leaves-modify N _ (λ a. refl)) (λ _. h)

  log_each-Keeps :
      (log : Log) (routes : List (String × List String)) → Keeps N (Http.log_each N log routes)
  unfolding Http.log_each
  log_each-Keeps log [] = quiet
  log_each-Keeps log (r ∷ rest) =
      Leaves-bind N (info_f N log "%s %s") (λ _. Http.log_each N log rest)
        (Leaves-info_f N log "%s %s") (λ _. log_each-Keeps log rest)

  log_routes-Keeps : (log : Log) → Keeps N (Http.log_routes N log)
  unfolding Http.log_routes
  log_routes-Keeps log =
      Leaves-result N N.walk _ (λ e. pure (some e))
        (λ routes.
          Leaves-bind N (Http.log_each N log (Http.route_map routes [])) (λ _. pure none)
            (log_each-Keeps log (Http.route_map routes []))
            (λ _. Leaves-pure N {Q = λ _. open_channel} none))
        (λ e. Leaves-pure N {Q = λ _. open_channel} (some e))

  create_rest-Keeps : (cfg : Config) (log : Log) → Keeps N (Http.create_rest N cfg log)
  unfolding Http.create_rest
  create_rest-Keeps cfg log =
      Leaves-if N (Http.port_is_valid cfg.rest.port)
        (Leaves-bind N (info_f N log "Registered routes:") _
          (Leaves-info_f N log "Registered routes:")
          (λ _. Leaves-bind N (Http.log_routes N log) _ (log_routes-Keeps log) (λ walked.
            Leaves-option N walked (Http.set_instance N (Http.rest_server_of N cfg log))
              (λ e. in_world N (log_f log error "walk error")) (Leaves-modify N _ (λ a. refl))
              (λ e. Leaves-in_world N (log_f log error "walk error")))))
        (Leaves-in_world N (log_f log error "invalid REST port %q: %v"))

  get_rest_server-Keeps : (cfg : Config) (log : Log) → Keeps N (Http.get_rest_server N cfg log)
  unfolding Http.get_rest_server
  get_rest_server-Keeps cfg log =
      Leaves-bind N (gets (λ a. a.rest.create_once)) _ (Leaves-gets N _) (λ spent.
        Leaves-bind N _ (λ _. gets (λ a. a.rest.instance_))
          (Leaves-if N spent quiet (
            Leaves-bind N (modify _) (λ _. Http.create_rest N cfg log)
              (Leaves-modify N _ (λ a. refl)) (λ _. create_rest-Keeps cfg log)))
          (λ _. Leaves-gets N _))

  choose_listener-Keeps :
      (s : RestServer N) (socket : Option Bool) → Keeps N (Http.choose_listener N s socket)
  unfolding Http.choose_listener
  choose_listener-Keeps s none = Leaves-pure N {Q = λ _. open_channel} _
  choose_listener-Keeps s (some true) =
      Leaves-bind N (in_world N (call P N.systemd_listeners)) _
        (Leaves-in_world N (call P N.systemd_listeners))
        (λ listeners. Leaves-pure N {Q = λ _. open_channel} (Http.first_listener N listeners))
  choose_listener-Keeps s (some false) = Leaves-in_world N (call P (N.listen s.addr))

  -- What a server does on a listener, then the end of it.
  serving :
      {S : Type 0} (set : Prog (App N) (Unit {0})) (l : Log) (msg : String) (serve : Prog (App N) S)
      → Keeps N set
      → Keeps N serve
      → Keeps N (set >> (info_f N l msg >> (notify_ready N >> serve)))
  serving set l msg serve hs hm = Leaves-bind N set _ hs (λ _.
      Leaves-bind N (info_f N l msg) _ (Leaves-info_f N l msg)
        (λ _. Leaves-bind N (notify_ready N) (λ _. serve) (Leaves-notify_ready N) (λ _. hm)))

  start_rest_server-Keeps : (s : RestServer N) → Keeps N (Http.start_rest_server N s)
  unfolding Http.start_rest_server
  start_rest_server-Keeps s =
      Leaves-bind N (Http.choose_listener N s (Http.use_socket N)) _
        (choose_listener-Keeps s (Http.use_socket N))
        (λ listening.
          Leaves-result N listening _ (λ e. pure (some e))
            (λ ln.
              serving (Http.set_instance N (record s { listener = some ln })) s.logger
                "Starting server at " _ (Leaves-modify N _ (λ a. refl))
                (Leaves-bind N (in_world N (lift (N.serve_http ln)))
                  (λ stopped. pure (some stopped)) (Leaves-in_world N (lift (N.serve_http ln)))
                  (λ stopped. Leaves-pure N {Q = λ _. open_channel} (some stopped))))
            (λ e. Leaves-pure N {Q = λ _. open_channel} (some e)))

  Leaves-serve_rest :
      (log : Log) → Leaves N open_channel (λ _. closed_channel) (Http.serve_rest N log)
  unfolding Http.serve_rest
  Leaves-serve_rest log = Leaves-bind N (in_world N the_cfg) _ (Leaves-in_world N the_cfg) (λ cfg.
      Leaves-bind N (Http.get_rest_server N cfg log) _ (get_rest_server-Keeps cfg log) (λ server.
        Leaves-option N server _ _
          (Leaves-bind N (info_f N log "Failed to initialize REST server") (λ _. close_done N)
            (Leaves-info_f N log "Failed to initialize REST server") (λ _. Leaves-close N))
          (λ s. registered rest_build _ (
            Leaves-bind N (Http.start_rest_server N s) (finish N N.server_closed log)
              (start_rest_server-Keeps s) (Leaves-finish N N.server_closed log)))))

  -- The REST server's `Start` that found `doneChan` open has closed it when it returns, on every path:
  -- the version was asked for, the initialization failed, no server could be made, or the server ended.
  -- Where it panics, the channel is still open, so it is never closed twice.
  pub rest_start-closes :
      (a : App N)
      → a.done ≡ open_channel
      → ChannelAfter N (λ _. closed_channel) (Http.rest_start N a).0 (Http.rest_start N a).1.done
  unfolding Http.rest_start
  rest_start-closes a opened =
      (Leaves-start_with N (Http.serve_rest N) Leaves-serve_rest).run a opened

  Leaves-create :
      {S : Type 0} (once : Prog (App N) Bool) (create : Prog (App N) (Unit {0}))
      (instance_of : Prog (App N) S)
      → Keeps N once
      → Keeps N create
      → Keeps N instance_of
      → Keeps N (once >>= λ spent. (if spent then pure tt else create) >> instance_of)
  Leaves-create once create instance_of ho hc hi =
      Leaves-bind N once _ ho
        (λ spent. Leaves-bind N _ (λ _. instance_of) (Leaves-if N spent quiet hc) (λ _. hi))

  start_grpc_server-Keeps : (s : GrpcServer N) → Keeps N (Rpc.start_grpc_server N s)
  unfolding Rpc.start_grpc_server
  start_grpc_server-Keeps s =
      Leaves-bind N (in_world N (call P (N.listen s.addr))) _
        (Leaves-in_world N (call P (N.listen s.addr)))
        (λ listening.
          Leaves-result N listening _ (λ e. pure (some e))
            (λ ln.
              serving (Rpc.set_instance N (record s { listener = some ln })) s.logger
                "Starting gRPC server at " _ (Leaves-modify N _ (λ a. refl))
                (Leaves-in_world N (lift (N.serve_grpc ln))))
            (λ e. Leaves-pure N {Q = λ _. open_channel} (some e)))

  panics :
      Leaves N {A = Unit {0}} open_channel (λ _. closed_channel) (raise "nil pointer dereference")
  panics = record { run = λ a h. h }

  Leaves-serve_grpc :
      (log : Log) → Leaves N open_channel (λ _. closed_channel) (Rpc.serve_grpc_build N log)
  unfolding Rpc.serve_grpc_build Rpc.get_grpc_server
  Leaves-serve_grpc log = Leaves-bind N (in_world N the_cfg) _ (Leaves-in_world N the_cfg) (λ cfg.
      Leaves-bind N (Rpc.get_grpc_server N cfg log) _
        (Leaves-create (gets (λ a. a.grpc.create_once)) _ (gets (λ a. a.grpc.instance_))
          (Leaves-gets N _) (Leaves-modify N _ (λ a. refl)) (Leaves-gets N _))
        (λ server. registered grpc_build _ (
          Leaves-option N server _ _ panics (λ s.
            Leaves-bind N (Rpc.start_grpc_server N s) (finish N N.server_stopped log)
              (start_grpc_server-Keeps s) (Leaves-finish N N.server_stopped log)))))

  -- The gRPC server's `Start` that found `doneChan` open has closed it when it returns, and has left it
  -- open where it panics.
  pub grpc_start-closes :
      (a : App N)
      → a.done ≡ open_channel
      → ChannelAfter N (λ _. closed_channel) (Rpc.grpc_start N a).0 (Rpc.grpc_start N a).1.done
  unfolding Rpc.grpc_start
  grpc_start-closes a opened =
      (Leaves-start_with N (Rpc.serve_grpc_build N) Leaves-serve_grpc).run a opened

  start_kafka_server-Keeps : (s : KafkaServer) → Keeps N (Consumer.start_kafka_server N s)
  unfolding Consumer.start_kafka_server
  start_kafka_server-Keeps s =
      Leaves-bind N (info_f N s.logger "Starting Kafka consumer") _
        (Leaves-info_f N s.logger "Starting Kafka consumer")
        (λ _. Leaves-bind N (notify_ready N) _ (Leaves-notify_ready N) (λ _.
          Leaves-bind N (gets (λ a. N.messages a.world.outside)) _ (Leaves-gets N _) (λ got.
            Leaves-bind N (in_world N (start P s.logger background got.0 got.1))
              (λ stopped. pure (some stopped))
              (Leaves-in_world N (start P s.logger background got.0 got.1))
              (λ stopped. Leaves-pure N {Q = λ _. open_channel} (some stopped)))))

  Leaves-serve_kafka :
      (log : Log) → Leaves N open_channel (λ _. closed_channel) (Consumer.serve_kafka_build N log)
  unfolding Consumer.serve_kafka_build Consumer.get_kafka_consumer
  Leaves-serve_kafka log =
      Leaves-bind N (Consumer.get_kafka_consumer N log) _
        (Leaves-create (gets (λ a. a.kafka.create_once)) _ (gets (λ a. a.kafka.instance_))
          (Leaves-gets N _) (Leaves-modify N _ (λ a. refl)) (Leaves-gets N _))
        (λ server. registered kafka_build _ (
          Leaves-option N server _ _ panics (λ s.
            Leaves-bind N (Consumer.start_kafka_server N s) (finish N N.canceled log)
              (start_kafka_server-Keeps s) (Leaves-finish N N.canceled log))))

  -- The Kafka consumer's `Start` that found `doneChan` open has closed it when it returns, and has left it
  -- open where it panics.
  pub kafka_start-closes :
      (a : App N)
      → a.done ≡ open_channel
      → ChannelAfter N
          (λ _. closed_channel)
          (Consumer.kafka_start N a).0
          (Consumer.kafka_start N a).1.done
  unfolding Consumer.kafka_start
  kafka_start-closes a opened =
      (Leaves-start_with N (Consumer.serve_kafka_build N) Leaves-serve_kafka).run a opened
