-- ===== src/Aggregators/Caching.antt =====
-- The caches of the aggregators, over sequences of calls.
use boilerplate_go_be.Base.{
  lookup, insert, lookup-insert, ◌⊎◌, String, Option, none, some, List, [], ◌∷◌, str_eq,
  if◌then◌else◌, ◌≡◌, refl, arith, inl,
}
use boilerplate_go_be.Logger.{Log}
use boilerplate_go_be.Aggregators.{
  Cache, Client, http_client, grpc_client, kafka_client, ExampleService, new_service, get_or_create,
  http, grpc, kafka, new_repository, get_item_repository,
}

-- A key is unused, or holds this client.
abbrev Entry : Option Client → Client → Type 0
Entry o c = (o ≡ none) ⊎ (o ≡ some c)

-- Each key's cached value is of the key's own interface, with the aggregator's logger and the brokers
-- and topic of the configuration.
pub record IsWellTyped (log : Log) (brokers : List String) (topic : String) (s : ExampleService)
    : Type 0 where
  pub logger : s.log ≡ log
  pub http_entry : Entry (lookup "example.Outbound" s.cache) (http_client log)
  pub grpc_entry : Entry (lookup "example.GrpcOutbound" s.cache) (grpc_client log)
  pub kafka_entry : Entry (lookup "example.KafkaOutbound" s.cache) (kafka_client log brokers topic)

-- One call of an accessor.
pub data Ask : Type 0 where
  ask_http ask_grpc ask_kafka : Ask

pub ask : List String → String → Ask → ExampleService → ExampleService
ask brokers topic ask_http s = (http s).1
ask brokers topic ask_grpc s = (grpc s).1
ask brokers topic ask_kafka s = (kafka brokers topic s).1

pub ask_all : List String → String → List Ask → ExampleService → ExampleService
ask_all brokers topic [] s = s
ask_all brokers topic (a ∷ rest) s = ask_all brokers topic rest (ask brokers topic a s)

module _ (log : Log) (brokers : List String) (topic : String) where
  insert-lookups :
      (k : String) (c : Client) (m : Cache Client)
      → (lookup "example.Outbound" (insert k c m)
          ≡ (if str_eq k "example.Outbound" then some c else lookup "example.Outbound" m))
        × (lookup "example.GrpcOutbound" (insert k c m)
            ≡ (if str_eq k "example.GrpcOutbound" then some c else lookup "example.GrpcOutbound" m))
        × (lookup "example.KafkaOutbound" (insert k c m) ≡ (
            if str_eq k "example.KafkaOutbound" then some c else lookup "example.KafkaOutbound" m))
  insert-lookups k c m = (
    lookup-insert k "example.Outbound" c m,
    lookup-insert k "example.GrpcOutbound" c m,
    lookup-insert k "example.KafkaOutbound" c m,
  )

  http-IsWellTyped :
      (s : ExampleService)
      → IsWellTyped log brokers topic s
      → IsWellTyped log brokers topic (http s).1 × ((http s).0 ≡ some log)
  unfolding http get_or_create
  http-IsWellTyped s w =
      ground (arith, insert-lookups "example.Outbound" (http_client s.log) s.cache)

  grpc-IsWellTyped :
      (s : ExampleService)
      → IsWellTyped log brokers topic s
      → IsWellTyped log brokers topic (grpc s).1 × ((grpc s).0 ≡ some log)
  unfolding grpc get_or_create
  grpc-IsWellTyped s w =
      ground (arith, insert-lookups "example.GrpcOutbound" (grpc_client s.log) s.cache)

  kafka-IsWellTyped :
      (s : ExampleService)
      → IsWellTyped log brokers topic s
      → IsWellTyped log brokers topic (kafka brokers topic s).1
        × ((kafka brokers topic s).0 ≡ some (log, brokers, topic))
  unfolding kafka get_or_create
  kafka-IsWellTyped s w =
      ground
        (arith, insert-lookups "example.KafkaOutbound" (kafka_client s.log brokers topic) s.cache)

  ask_all-IsWellTyped :
      (asked : List Ask) (s : ExampleService)
      → IsWellTyped log brokers topic s
      → IsWellTyped log brokers topic (ask_all brokers topic asked s)
  unfolding ask_all ask
  ask_all-IsWellTyped [] s w = w
  ask_all-IsWellTyped (ask_http ∷ rest) s w = ask_all-IsWellTyped rest _ (http-IsWellTyped s w).0
  ask_all-IsWellTyped (ask_grpc ∷ rest) s w = ask_all-IsWellTyped rest _ (grpc-IsWellTyped s w).0
  ask_all-IsWellTyped (ask_kafka ∷ rest) s w = ask_all-IsWellTyped rest _ (kafka-IsWellTyped s w).0

  -- From a new aggregator, after any sequence of calls of the three accessors, each of them hands out a
  -- client of its own interface, never nil, with the aggregator's logger and, for Kafka, the brokers and
  -- topic of the configuration.
  pub clients_after :
      (asked : List Ask)
      → let s = ask_all brokers topic asked (new_service log) in
        ((http s).0 ≡ some log)
        × ((grpc s).0 ≡ some log)
        × ((kafka brokers topic s).0 ≡ some (log, brokers, topic))
  unfolding new_service lookup
  clients_after asked =
      let w = ask_all-IsWellTyped asked (new_service log) (record {
        logger = refl;
        http_entry = inl refl;
        grpc_entry = inl refl;
        kafka_entry = inl refl;
      }) in
      let s = ask_all brokers topic asked (new_service log) in
      ((http-IsWellTyped s w).1, (grpc-IsWellTyped s w).1, (kafka-IsWellTyped s w).1)

-- A repository aggregator hands out the repository with its own logger, from the first call on and
-- again after any call.
pub get_item_repository_again :
    (log : Log)
    → let (first, r) = get_item_repository (new_repository log) in
      let (second, _) = get_item_repository r in (first ≡ record { log = log }) × (second ≡ first)
unfolding get_item_repository new_repository lookup insert
get_item_repository_again log = (refl, refl)
