-- ===== src/Aggregators.antt =====
-- repositories/aggregator.go, outbound/aggregator.go and outbound/service/example/aggregator.go: the
-- lazily built and cached repositories and clients. A `reflect.Type` key is the type's name; each call
-- runs under the aggregator's mutex, so it is one step. The database handle is the process's singleton
-- and is left out of the records.
pub mod Caching
use boilerplate_go_be.Base.{String, Option, none, some, List, [], Dict, lookup, insert}
use boilerplate_go_be.Logger.{Log}

-- `map[reflect.Type]interface{}`.
abbrev pub Cache : Type 0 → Type 0
Cache V = Dict V

-- `itemRepository`.
pub record ItemRepository : Type 0 where
  pub log : Log

-- `repositories.Repository`.
pub record Repository : Type 0 where
  pub log : Log
  pub cache : Cache ItemRepository

unfoldable pub new_repository : Log → Repository
new_repository log = record { log = log; cache = [] }

cached_repository : Repository → Option ItemRepository → ItemRepository × Repository
cached_repository r (some repo) = (repo, r)
cached_repository r none =
    let new_repo : ItemRepository = record { log = r.log } in
    (new_repo, record r { cache = insert "item.Repository" new_repo r.cache })

unfoldable pub get_item_repository : Repository → ItemRepository × Repository
unfolding cached_repository
get_item_repository r = cached_repository r (lookup "item.Repository" r.cache)

-- The clients of the Example service, by the interface that each implements. A Kafka client keeps the
-- writer's brokers and topic.
pub data Client : Type 0 where
  http_client : Log → Client
  grpc_client : Log → Client
  kafka_client : Log → List String → String → Client

-- `serviceAggregator`.
pub record ExampleService : Type 0 where
  pub log : Log
  pub cache : Cache Client

unfoldable pub new_service : Log → ExampleService
new_service log = record { log = log; cache = [] }

cached_client : ExampleService → String → Client → Option Client → Client × ExampleService
cached_client s key new_svc (some svc) = (svc, s)
cached_client s key new_svc none = (new_svc, record s { cache = insert key new_svc s.cache })

-- `create` has no effect of its own, so its value is passed.
unfoldable pub get_or_create : ExampleService → String → Client → Client × ExampleService
unfolding cached_client
get_or_create s key created = cached_client s key created (lookup key s.cache)

-- The type assertions of `HTTP`, `GRPC` and `Kafka`: nil where the cached value is of another type.
abbrev as_http : Client → Option Log
as_http (http_client l) = some l
as_http _ = none

abbrev as_grpc : Client → Option Log
as_grpc (grpc_client l) = some l
as_grpc _ = none

abbrev as_kafka : Client → Option (Log × List String × String)
as_kafka (kafka_client l brokers topic) = some (l, brokers, topic)
as_kafka _ = none

unfoldable pub http : ExampleService → Option Log × ExampleService
http s = let (svc, s') = get_or_create s "example.Outbound" (http_client s.log) in (as_http svc, s')

unfoldable pub grpc : ExampleService → Option Log × ExampleService
grpc s =
    let (svc, s') = get_or_create s "example.GrpcOutbound" (grpc_client s.log) in (as_grpc svc, s')

-- With the brokers and the topic of the configuration.
unfoldable pub kafka :
    List String → String → ExampleService → Option (Log × List String × String) × ExampleService
kafka brokers topic s =
    let (svc, s') = get_or_create s "example.KafkaOutbound" (kafka_client s.log brokers topic) in
    (as_kafka svc, s')

-- `outbound.Outbound`.
pub record Outbound : Type 0 where
  pub log : Log
  pub cache : Cache ExampleService

unfoldable pub new_outbound : Log → Outbound
new_outbound log = record { log = log; cache = [] }

cached_service : Outbound → Option ExampleService → ExampleService × Outbound
cached_service o (some svc) = (svc, o)
cached_service o none =
    let new_svc = new_service o.log in
    (new_svc, record o { cache = insert "example.Service" new_svc o.cache })

unfoldable pub example : Outbound → ExampleService × Outbound
unfolding cached_service new_service
example o = cached_service o (lookup "example.Service" o.cache)
