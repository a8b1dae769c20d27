-- ===== src/Config.antt =====
-- infrastructure/config/config.go and infrastructure/enums/migration.go: the configuration records and
-- their loading. The YAML library and the file system are parameters: a decoder works on the zero
-- configuration and returns what it has filled in, with an error or none.
use boilerplate_go_be.Base.{ℤ, String, Bool, List}

pub record ServiceDetail : Type 0 where
  pub host : String

pub record Service : Type 0 where
  pub example : ServiceDetail

pub record GeoLocation : Type 0 where
  pub maximum_radius : ℤ

pub record JwtConfig : Type 0 where
  pub private_key : String
  pub public_key : String

pub record EndpointConfig : Type 0 where
  pub based : String

pub record TimeoutConfig : Type 0 where
  pub server : ℤ
  pub read : ℤ
  pub write : ℤ
  pub idle : ℤ

pub record ServerConfig : Type 0 where
  pub host : String
  pub port : String
  pub environment : String
  pub skip_tls_verify : Bool
  pub timeout : TimeoutConfig
  pub duration : ℤ
  pub endpoint : EndpointConfig
  pub jwt : JwtConfig

pub record ListenerConfig : Type 0 where
  pub host : String
  pub port : String

pub record KafkaConfig : Type 0 where
  pub brokers : List String
  pub group_id : String
  pub topic : String

-- `enums.DirtyStrategy` is a string type.
abbrev pub DirtyStrategy : Type 0
DirtyStrategy = String

abbrev pub dirty_strategy_retry : DirtyStrategy
dirty_strategy_retry = "retry"

abbrev pub dirty_strategy_skip : DirtyStrategy
dirty_strategy_skip = "skip"

pub record DatabaseConfig : Type 0 where
  pub host : String
  pub port : String
  pub user : String
  pub password : String
  pub db_name : String
  pub migration_path : String
  pub dirty_strategy : DirtyStrategy

-- `PerLevelFiles` is a map, as the list of its entries.
pub record LogConfig : Type 0 where
  pub path : String
  pub file_name : String
  pub per_level_files : List (String × String)
  pub verbose_level : String
  pub also_log_to_stdout : Bool

pub record DocConfig : Type 0 where
  pub url : String
  pub schema : String

pub record DocsConfig : Type 0 where
  pub public_docs : DocConfig
  pub internal_docs : DocConfig
  pub renderer : String

pub record ServersConfig : Type 0 where
  pub public_url : String
  pub internal_url : String

pub record OpenApiConfig : Type 0 where
  pub version : String
  pub output_dir : String
  pub docs : DocsConfig
  pub servers : ServersConfig

pub record Config : Type 0 where
  pub app_name : String
  pub version : String
  pub service : Service
  pub server : ServerConfig
  pub rest : ListenerConfig
  pub grpc : ListenerConfig
  pub kafka : KafkaConfig
  pub database : DatabaseConfig
  pub log_target : LogConfig
  pub open_api : OpenApiConfig
