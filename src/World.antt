-- ===== src/World.antt =====
-- The process: its globals beside the platform's state, the request context of
-- infrastructure/utils/context.go, and the emission of log lines.
-- A log line keeps the format string of the call; the arguments are left out.
pub mod Ctx
use boilerplate_go_be.Base.{ℤ, String, Bool, Option, none, some, List, [], ◌∷◌, ◌++◌, if◌then◌else◌}
use boilerplate_go_be.Runtime.{
  Error, Result, Outcome, ret, panic, exit, Prog, pure, raise, gets, modify, ◌>>=◌, ◌>>◌,
}
use boilerplate_go_be.Config.{Config}
use boilerplate_go_be.Logger.{
  Level, debug, info, warn, error, fatal, to_slog, label_from_slog, enabled, Log,
}
use boilerplate_go_be.Platform.{Platform}

pub record Line : Type 0 where
  pub label : String
  pub parent_id : String
  pub child_id : String
  pub message : String

-- `jwtService`, and the singleton behind `jwtOnce`.
pub record JwtService (P : Platform) : Type 0 where
  pub private_key : Option P.PrivateKey
  pub public_key : Option P.PublicKey

pub record JwtState (P : Platform) : Type 0 where
  pub once_done : Bool
  pub instance_ : Option (JwtService P)

-- `dbImpl`: whether its `*sql.DB` is set, and its logger.
pub record DbImpl : Type 0 where
  pub connected : Bool
  pub once_done : Bool
  pub logger : Option Log

-- `pipeHandler`'s destinations: the default writer, and for a level with a file of its own the pair that
-- `io.MultiWriter` writes to, a map by level.
pub record Handler (P : Platform) : Type 0 where
  pub default_writer : P.File
  pub writers : List (Level × (P.File × P.File))

-- `loggerCore`: `level_file` and `level_file_path` are maps by level.
pub record LoggerCore (P : Platform) : Type 0 where
  pub level : Level
  pub to_stdout : Bool
  pub log_file : P.File
  pub log_file_path : String
  pub level_file : List (Level × P.File)
  pub level_file_path : List (Level × String)
  pub watchers : List P.Watcher
  pub handler : Handler P

pub record World (P : Platform) : Type 0 where
  pub outside : P.State
  pub lines : List Line
  pub cfg : Option Config
  pub jwt : JwtState P
  pub db : DbImpl
  -- `sharedCore`, once it is made
  pub core : Option (LoggerCore P)

abbrev line : Log → Level → String → Line
line l lvl msg = record {
  label = label_from_slog (to_slog lvl);
  parent_id = l.parent_id;
  child_id = l.child_id;
  message = msg;
}

-- A call of the platform.
abbrev pub call : (P : Platform) {A : Type 0} → (P.State → A × P.State) → Prog (World P) A
call P f w = (ret (f w.outside).0, record w { outside = (f w.outside).1 })

module _ {P : Platform} where
  -- `DebugF` to `FatalF` and `emit`: the line is written if the handler's level lets it through. A fatal
  -- line does not end the process.
  unfoldable pub log_f : Log → Level → String → Prog (World P) (Unit {0})
  unfolding enabled to_slog label_from_slog
  log_f l lvl msg w = (
    ret tt,
    record w {
      lines = if enabled l.level (to_slog lvl) then w.lines ++ line l lvl msg ∷ [] else w.lines;
    },
  )

  -- `config.Cfg`, read through: a nil pointer is a panic.
  unfoldable pub the_cfg : Prog (World P) Config
  the_cfg w = elim w.cfg [ some c ↦ (ret c, w) | none ↦ (panic "nil pointer dereference", w) ]

  -- `utils.UniqueIdByTime`.
  unfoldable pub unique_id_by_time : Prog (World P) (Result String)
  unique_id_by_time = call P P.rand_hex
