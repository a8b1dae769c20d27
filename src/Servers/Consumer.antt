-- ===== src/Servers/Consumer.antt =====
-- cmd/start_kafka.go: the Kafka consumer as a server.
use boilerplate_go_be.Base.{false, true, Option, none, some, if◌then◌else◌}
use boilerplate_go_be.Runtime.{Error, ret, Prog, pure, raise, modify, gets, ◌>>=◌, ◌>>◌}
use boilerplate_go_be.Logger.{Log}
use boilerplate_go_be.Platform.{Platform}
use boilerplate_go_be.World.Ctx.{background}
use boilerplate_go_be.Kafka.{start}
use boilerplate_go_be.Servers.{
  Network, App, KafkaServer, kafka_build, in_world, info_f, notify_ready, register, finish,
  start_with,
}

module _ {P : Platform} (N : Network P) where
  abbrev pub set_instance : KafkaServer → Prog (App N) (Unit {0})
  set_instance s = modify (λ a. record a { kafka = record (a.kafka) { instance_ = some s } })

  unfoldable pub get_kafka_consumer : Log → Prog (App N) (Option KafkaServer)
  get_kafka_consumer log = do
    spent ← gets (λ a. a.kafka.create_once)
    (if spent then pure tt else (do
      modify (λ a. record a { kafka = record (a.kafka) { create_once = true } })
      set_instance (record { logger = log; canceled = false })))
    gets (λ a. a.kafka.instance_)

  -- `StartServer`, over the messages that the reader hands out.
  unfoldable pub start_kafka_server : KafkaServer → Prog (App N) (Option Error)
  start_kafka_server s = do
    info_f N s.logger "Starting Kafka consumer"
    notify_ready N
    got ← gets (λ a. N.messages a.world.outside)
    stopped ← in_world N (start P s.logger background got.0 got.1)
    pure (some stopped)

  unfoldable pub serve_kafka_build : Log → Prog (App N) (Unit {0})
  serve_kafka_build log = do
    server ← get_kafka_consumer log
    register N kafka_build
    elim server [
      | none ↦ raise "nil pointer dereference"
      | some s ↦ do ended ← start_kafka_server s; finish N N.canceled log ended
    ]

  unfoldable pub kafka_start : Prog (App N) (Unit {0})
  unfolding serve_kafka_build
  kafka_start = start_with N serve_kafka_build

  -- The cancel function, which may be called more than once.
  unfoldable pub close_kafka_listener : Prog (App N) (Unit {0})
  close_kafka_listener a = elim a.kafka.instance_ [
    | none ↦ (ret tt, a)
    | some s ↦ (set_instance (record s { canceled = true }) a)
  ]

  -- `KafkaShutdownServer`, whose error is always nil.
  unfoldable pub shutdown_kafka : Prog (App N) (Option Error)
  unfolding close_kafka_listener
  shutdown_kafka a = elim a.kafka.instance_ [
    | none ↦ (ret none, a)
    | some s ↦
        ((if a.kafka.shutdown_once then pure none else (do
          modify (λ a. record a { kafka = record (a.kafka) { shutdown_once = true } })
          info_f N s.logger "Stopping Kafka consumer"
          close_kafka_listener
          pure none))
          a)
  ]
