-- ===== src/Logging.antt =====
-- pkg/logger/log.init.go and log.handler.go: the shared logger core, its files and where a line goes.
pub mod Maps
pub mod Watchers
pub mod Consistency
pub mod Initial
pub mod Closing
pub mod Reopening
pub mod Lines
pub mod Columns
pub mod Contained
use boilerplate_go_be.Base.{
  str_append, String, Option, none, some, List, [], ◌∷◌, str_eq, if◌then◌else◌,
}
use boilerplate_go_be.Runtime.{Error, wrap, Result, ok, err, Prog, pure, modify, ◌>>=◌, ◌>>◌}
use boilerplate_go_be.Config.{LogConfig}
use boilerplate_go_be.Logger.{Level, to_slog, parse_log_level, Log}
use boilerplate_go_be.Platform.{Platform}
use boilerplate_go_be.World.{Handler, LoggerCore, World, call}
use boilerplate_go_be.Logging.Maps.{set_level, of_level}
use boilerplate_go_be.Logging.Watchers.{start_watchers}

module _ (P : Platform) where
  -- `levelFiles`, `levelPaths` and `writers`, as far as they are filled.
  pub record LevelFiles : Type 0 where
    pub files : List (Level × P.File)
    pub paths : List (Level × String)
    pub writers : List (Level × (P.File × P.File))

  unfoldable pub close_level_files : List (Level × P.File) → Prog (World P) (Unit {0})
  close_level_files [] = pure tt
  close_level_files ((_, f) ∷ m) = do _ ← call P (P.close_file f); close_level_files m

  unfoldable pub add_level_file : P.File → Level → String → P.File → LevelFiles → LevelFiles
  add_level_file default_file lvl full_path f opened = record {
    files = set_level lvl f opened.files;
    paths = set_level lvl full_path opened.paths;
    writers = set_level lvl (default_file, f) opened.writers;
  }

  -- The loop over `PerLevelFiles`.
  unfoldable pub open_level_files :
      String → P.File → List (String × String) → LevelFiles → Prog (World P) (Result LevelFiles)
  unfolding close_level_files add_level_file
  open_level_files dir default_file [] opened = pure (ok opened)
  open_level_files dir default_file ((str_level, file_name) ∷ rest) opened =
      if str_eq file_name "" then open_level_files dir default_file rest opened else (do
        let full_path = P.path_join dir file_name
        file ← call P (P.open_append full_path)
        elim file [
          | ok f ↦
              open_level_files dir default_file rest
                (add_level_file default_file (parse_log_level str_level) full_path f opened)
          | err e ↦ do
            _ ← call P (P.close_file default_file)
            close_level_files opened.files
            pure (err (wrap (str_append "failed to open " (str_append str_level " log file")) e))
        ])

  -- The core that `initLoggerCore` builds before it starts the watchers.
  unfoldable pub core_of : LogConfig → P.File → LevelFiles → LoggerCore P
  core_of c default_file opened = record {
    level = parse_log_level c.verbose_level;
    to_stdout = c.also_log_to_stdout;
    log_file = default_file;
    log_file_path = P.path_join c.path c.file_name;
    level_file = opened.files;
    level_file_path = opened.paths;
    watchers = [];
    handler = record { default_writer = default_file; writers = opened.writers };
  }

  unfoldable pub level_files_opened :
      LogConfig → P.File → Result LevelFiles → Prog (World P) (Result (LoggerCore P))
  unfolding core_of
  level_files_opened c default_file (err e) = pure (err e)
  level_files_opened c default_file (ok opened) = do
    core ← start_watchers P (core_of c default_file opened)
    pure (ok core)

  unfoldable pub default_opened : LogConfig → Result P.File → Prog (World P) (Result (LoggerCore P))
  unfolding level_files_opened
  default_opened c (err e) = pure (err (wrap "failed to open default log file" e))
  default_opened c (ok default_file) = do
    opened ←
        open_level_files c.path default_file c.per_level_files
          (record { files = []; paths = []; writers = [] })
    level_files_opened c default_file opened

  unfoldable pub directory_made : LogConfig → Option Error → Prog (World P) (Result (LoggerCore P))
  unfolding default_opened
  directory_made c (some e) = pure (err (wrap "failed to create log directory" e))
  directory_made c none = do
    opened ← call P (P.open_append (P.path_join c.path c.file_name))
    default_opened c opened

  -- In stages, after the directory, the default file and the files of the levels.
  unfoldable pub init_logger_core : LogConfig → Prog (World P) (Result (LoggerCore P))
  unfolding directory_made
  init_logger_core c = do made ← call P (P.mkdir_all c.path); directory_made c made

  abbrev pub logger_on : LoggerCore P → String → String → Log
  logger_on core parent_id child_id = record {
    level = to_slog core.level;
    parent_id = parent_id;
    child_id = child_id;
  }

  -- Where there is no core yet.
  unfoldable pub fresh_logger : LogConfig → String → String → Prog (World P) (Result Log)
  unfolding to_slog
  fresh_logger c parent_id child_id = do
    made ← init_logger_core c
    elim made [
      | err e ↦ pure (err e)
      | ok core ↦ do
        modify (λ w. record w { core = some core })
        pure (ok (logger_on core parent_id child_id))
    ]

  unfoldable pub new_logger : LogConfig → String → String → Prog (World P) (Result Log)
  unfolding fresh_logger to_slog
  new_logger c parent_id child_id w = elim w.core [
    | some core ↦ (pure (ok (logger_on core parent_id child_id)) w)
    | none ↦ fresh_logger c parent_id child_id w
  ]

  unfoldable pub close_watchers : List P.Watcher → Prog (World P) (Unit {0})
  close_watchers [] = pure tt
  close_watchers (w ∷ ws) = do _ ← call P (P.close_watcher w); close_watchers ws

  -- `CloseLogFile`: the default file, the watchers, then the files of the levels.
  unfoldable pub close_log_file : Prog (World P) (Unit {0})
  unfolding close_level_files close_watchers
  close_log_file w = elim w.core [
    | none ↦ (pure tt w)
    | some core ↦
        ((do
          modify (λ w'. record w' { core = none })
          _ ← call P (P.close_file core.log_file)
          close_watchers core.watchers
          close_level_files core.level_file)
          w)
  ]

  -- `writerForLevel`, with the files that the writer writes to.
  unfoldable pub writer_for_level : Handler P → Level → List P.File
  writer_for_level h l = elim (of_level l h.writers) [
    | none ↦ h.default_writer ∷ []
    | some w ↦ w.0 ∷ w.1 ∷ []
  ]
