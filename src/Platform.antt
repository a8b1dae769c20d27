-- ===== src/Platform.antt =====
-- What the program runs on and does not implement: the SQL builder, the MySQL driver behind database/sql,
-- golang-jwt, the HTTP client, the Kafka client, the file system, the environment and the random source.
-- `State` is everything outside the process, as these calls see and change it.
use boilerplate_go_be.Base.{ℕ, ℤ, String, Bool, Option, List}
use boilerplate_go_be.Runtime.{Error, Result}
use boilerplate_go_be.Dto.{Item, JwtUser}
use boilerplate_go_be.Config.{Config}
use boilerplate_go_be.Json.{Json, Payload}

-- The statements that the repository builds with goqu, over the table `items`.
pub data Statement : Type 0 where
  insert_name : (name : String) → Statement
  select_all : Statement
  select_where_id : (id : ℤ) → Statement
  set_name_where_id : (name : String) (id : ℤ) → Statement
  delete_where_id : (id : ℤ) → Statement

-- `sql.Result`, of which the program asks for the last insert id alone.
pub record SqlResult : Type 0 where
  pub last_insert_id : Result ℤ

-- `*sql.Rows` at the columns id and name: each row with its scan's outcome, then `rows.Err()` and
-- `rows.Close()`.
pub record Rows : Type 0 where
  pub scans : List (Result Item)
  pub rows_err : Option Error
  pub close_err : Option Error

-- `http.Request` and `http.Response`. The response's body is what `io.ReadAll` returns.
pub record HttpRequest : Type 0 where
  pub method : String
  pub url : String
  pub headers : List (String × String)
  pub body : Option Json
  pub skip_tls_verify : Bool
  pub timeout_seconds : ℤ

pub record HttpReply : Type 0 where
  pub status_code : ℕ
  pub content_type : String
  pub body : Result Payload
  pub dump_err : Option Error
  pub close_err : Option Error

pub record KafkaMessage : Type 0 where
  pub key : String
  pub value : Payload
  pub headers : List (String × String)

-- What golang-migrate's `Up` returns: no error, `ErrNoChange`, `ErrDirty` with its version, or another.
pub data MigrateResult : Type 0 where
  up_ok no_change : MigrateResult
  dirty : ℤ → MigrateResult
  up_failed : Error → MigrateResult

pub record Platform : Type 1 where
  pub State : Type 0
  pub Tx : Type 0
  pub Query : Type 0
  pub File : Type 0
  pub Watcher : Type 0
  pub PrivateKey : Type 0
  pub PublicKey : Type 0
  -- goqu's `ToSQL`
  pub to_sql : Statement → Result Query
  -- database/sql
  pub begin_tx : State → Result Tx × State
  pub tx_exec : Tx → Query → State → Result SqlResult × State
  pub db_exec : Query → State → Result SqlResult × State
  pub commit : Tx → State → Option Error × State
  pub rollback : Tx → State → Option Error × State
  pub query : Query → State → Result Rows × State
  pub query_row : Query → State → Result Item × State
  -- 16 bytes of the random source in hexadecimal
  pub rand_hex : State → Result String × State
  -- `jwt.ParseWithClaims`: the key function is asked with whether the token's method is RSA, and the
  -- algorithm's name; it fills the claims and returns the token's `Valid`
  pub parse_with_claims :
      String → (Bool → String → Result PublicKey) → State → JwtUser × Result Bool
  pub read_file : String → State → Result String × State
  pub parse_private_key : String → Result PrivateKey
  pub parse_public_key : String → Result PublicKey
  -- `http.NewRequest`'s verdict on a method and a URL, and `client.Do`
  pub new_request : String → String → Option Error
  pub http_do : HttpRequest → State → Result HttpReply × State
  -- what `json.Marshal` writes for what `json.Unmarshal` has read from a value into an `interface{}`, where
  -- the numbers are float64 and the objects maps; numbers beyond a float64, which it refuses, are left out
  pub remarshal : Json → Json
  -- a Kafka writer to a topic
  pub kafka_write : String → KafkaMessage → State → Option Error × State
  pub kafka_close : String → State → Option Error × State
  -- the configuration file: open, decode into the zero configuration, close
  pub open_config : String → State → Option Error × State
  pub decode_config : State → Config × Option Error
  pub close_config : State → Option Error × State
  -- log files: `filepath`'s Join, Clean and Dir, and a file opened to append, which is made if need be
  pub path_join : String → String → String
  pub path_clean : String → String
  pub path_dir : String → String
  pub mkdir_all : String → State → Option Error × State
  pub open_append : String → State → Result File × State
  -- `==` on two `*os.File`
  pub same_file : File → File → Bool
  pub close_file : File → State → Option Error × State
  -- fsnotify's watchers: a new one, one more directory, `Close`
  pub new_watcher : State → Result Watcher × State
  pub watch_dir : Watcher → String → State → Option Error × State
  pub close_watcher : Watcher → State → Option Error × State
  -- `time.Sleep`, in milliseconds, and a line of Go's own logger
  pub sleep : ℕ → State → State
  pub std_log : String → State → State
  -- `sql.Open` with a data source name, `Ping` and `Close` of the handle
  pub sql_open : String → State → Option Error × State
  pub ping : State → Option Error × State
  pub close_db : State → Option Error × State
  -- golang-migrate over the handle: the driver, the instance for a path, and its operations
  pub migrate_driver : State → Option Error × State
  pub migrate_new : String → State → Option Error × State
  pub migrate_up : State → MigrateResult × State
  pub migrate_force : ℤ → State → Option Error × State
  pub migrate_steps : ℤ → State → Option Error × State
  -- the environment, and one message to the supervisor's socket
  pub getenv : String → String
  pub dial_and_write : String → String → State → Option Error × State
  -- whether the program is built with the tag `systemd`
  pub systemd : Bool
