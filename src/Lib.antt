-- ===== src/Lib.antt =====
-- A verification library for project-template, the Go back end of this repository: an item service over
-- REST, gRPC and Kafka, with a MySQL repository, JWT authentication, outbound clients and a logger.
--
-- How the parts interact. A process is a `World`: the platform's state outside it, the log lines written,
-- the configuration, the JWT singleton, the database handle and the logger's core. A Go call is a `Prog`,
-- a function from a world to an outcome (it returns, panics, or ends the process) and the world after it.
-- Requests enter through a server, which puts a logger, a repository, outbound clients, a token and a user
-- into a context and asks the item service, which asks the repository, which runs a transaction.
--
-- Files, with the code that each models:
--   Base, Runtime      shared helpers; Go's outcomes, errors, errors.As, errors.Is and recover; Returns
--                      and Contained have lemmas on calls in sequence
--   Code               pkg/code/code.go and infrastructure/enums/kafka_code.go (the JSON of a code: Json/Codes)
--   Config, Startup    infrastructure/config/config.go, infrastructure/db/db.init.go and migrate.go, and
--                      initDependencies of cmd/cmd.init.go
--   Dto, Json          infrastructure/dto, and encoding/json as far as the program uses it
--   Logger, Logging    pkg/logger: levels and thresholds; the shared core and its files (Watchers: the
--                      watchers of log.watchers.go; Lines: the text of a line and its destinations)
--   Aggregators        repositories/aggregator.go, outbound/aggregator.go and
--                      outbound/service/example/aggregator.go
--   Platform           what is outside: goqu, database/sql with MySQL, golang-jwt, the HTTP and Kafka
--                      clients, golang-migrate, files, the environment and the random source
--   World, World/Ctx   the globals and log emission; infrastructure/utils/context.go and utils.go
--   Jwt                infrastructure/utils/jwt.go: the singleton, ParseJWT and signing
--   Database           infrastructure/db/db.method.go; Transactions has the theorems
--   Items              repositories/item/item.go (Repo), services/item/service.go (Service); Store is the
--                      specification, a table of items with the laws of a SQL store, and Runs its steps
--   Validator          pkg/validator; Setup has its registrations
--   Outbound           outbound/transport (Http, Rpc) and outbound/service/example; Secrets is
--                      infrastructure/utils/secure.go
--   Supervisor, Daemon infrastructure/supervisor; examples/systemd/supervisor, which it talks to
--   Servers            cmd (Http, Rpc, Consumer: the three builds) and pkg/lifecycle (Lifecycle); Paths is
--                      infrastructure/utils/path.go
--   Rest               server/rest: envelope.go, middleware (Middleware), handlers/items.go (Handlers),
--                      the other handlers and services/system (Files), routes with the handler that
--                      GetRESTServer puts together (Routes); Chain, Answers, Outcomes and Authorized
--                      are about that handler as a whole
--   Grpc, Kafka        server/grpc and server/kafka
--   Tests              a platform in memory, and each theorem with hypotheses applied to it
--
-- Conventions. The platform is a record of functions and a parameter everywhere, as are the host of
-- the daemon, the network of the servers and what else is outside. What a theorem relies on of them is
-- a record of laws: `TxCount` (begin opens one transaction, commit and rollback end one that is open),
-- `SqlStore` (what the statements do to the rows), `CommitLaw` (a failed commit is all or nothing),
-- `Clock` (how time passes), `Asked` (a count of openings and sleeps), `ExactJson` (what float64
-- keeps). Nearly every function is total without fuel: the loops recurse on a list of rows, messages,
-- headers, files or events. The wait of the daemon for a unit has no bound of its own and takes fuel,
-- of which 9223372038 rounds of a second are enough for any timeout of an int64; the retries of the
-- logger are the 50 of the source. A Go int is an unbounded integer, except where the source converts
-- to int32 and where a number of seconds becomes a duration, which wraps around as an int64. A string
-- that is only compared is kept as a string, one that is walked as its code points; a text of JSON is
-- kept as the value that it parses to. A line that the process has logged keeps its format string;
-- Logging/Lines has the text of a line whose message is formatted.
--
-- Left out: cancellation and deadlines of contexts, the mutexes (each call is one step), goroutines of
-- the recovery functions and of the daemon's connections (run at once), connection pool settings, the
-- neoma and chi routers (what they decide, decode and encode is a parameter), and generated code. Watch loops and
-- server shutdowns are calls of their own.
pub mod Base
pub mod Code
pub mod Runtime
pub mod Config
pub mod Dto
pub mod Json
pub mod Logger
pub mod Aggregators
pub mod Platform
pub mod World
pub mod Logging
pub mod Jwt
pub mod Database
pub mod Outbound
pub mod Supervisor
pub mod Startup
pub mod Items
pub mod Rest
pub mod Grpc
pub mod Kafka
pub mod Tests
pub mod Daemon
pub mod Returns
pub mod Contained
pub mod Paths
pub mod Servers
pub mod Secrets
pub mod Validator
