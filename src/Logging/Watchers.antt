-- ===== src/Logging/Watchers.antt =====
-- pkg/logger/log.watchers.go: log files that are reopened when they are removed or renamed. A watch loop
-- runs on the core that it shares, which the mutex of the core guards.
use boilerplate_go_be.Base.{
  ◌&&◌, ℕ, zero, suc, ◌*◌, String, Bool, Option, none, some, List, [], ◌∷◌, ◌++◌, str_eq, ltb,
  if◌then◌else◌,
}
use boilerplate_go_be.Runtime.{Error, Result, ok, err, Prog, pure, modify, ◌>>=◌, ◌>>◌}
use boilerplate_go_be.Logger.{Level}
use boilerplate_go_be.Platform.{Platform}
use boilerplate_go_be.World.{LoggerCore, World, call}
use boilerplate_go_be.Logging.Maps.{set_level, of_level}

abbrev pub max_reopen_retries : ℕ
max_reopen_retries = 50

-- In milliseconds.
abbrev pub initial_retry_delay : ℕ
initial_retry_delay = 100

abbrev pub max_retry_delay : ℕ
max_retry_delay = 5000

unfoldable pub next_delay : ℕ → ℕ
next_delay delay = if ltb max_retry_delay (delay * 2) then max_retry_delay else delay * 2

-- What a watcher delivers: an event with the operation's bits for Remove or Rename, and its name;
-- an error.
pub data Event : Type 0 where
  file_event : Bool → String → Event
  watch_error : Event

module _ (P : Platform) where
  abbrev pub std_log : String → Prog (World P) (Unit {0})
  std_log msg = modify (λ w. record w { outside = P.std_log msg w.outside })

  abbrev pub sleep : ℕ → Prog (World P) (Unit {0})
  sleep ms = modify (λ w. record w { outside = P.sleep ms w.outside })

  abbrev pub log_error : String → Option Error → Prog (World P) (Unit {0})
  log_error msg none = pure tt
  log_error msg (some e) = std_log msg

  -- The writers that `rebuildHandler` makes.
  unfoldable pub writers_of : P.File → List (Level × P.File) → List (Level × (P.File × P.File))
  writers_of log_file [] = []
  writers_of log_file ((l, f) ∷ m) = set_level l (log_file, f) (writers_of log_file m)

  unfoldable pub rebuild_handler : LoggerCore P → LoggerCore P
  rebuild_handler c = record c {
    handler = record { default_writer = c.log_file; writers = writers_of c.log_file c.level_file };
  }

  abbrev pub or_else :
      Result P.File → Prog (World P) (Option P.File) → Prog (World P) (Option P.File)
  or_else (ok f) rest = pure (some f)
  or_else (err e) rest = rest

  -- The attempts that are left, up to the first that opens the file.
  unfoldable pub try_open : ℕ → ℕ → String → Prog (World P) (Option P.File)
  unfolding next_delay
  try_open zero delay path = pure none
  try_open (suc zero) delay path = do
    opened ← call P (P.open_append path)
    or_else opened (pure none)
  try_open (suc (suc n)) delay path = do
    opened ← call P (P.open_append path)
    or_else opened (do sleep delay; try_open (suc n) (next_delay delay) path)

  unfoldable pub close_old : String → Option P.File → Prog (World P) (Unit {0})
  close_old msg none = pure tt
  close_old msg (some f) = do closed ← call P (P.close_file f); log_error msg closed

  -- `lf != nil && lf != c.logFile`.
  unfoldable pub not_log_file : P.File → Option P.File → Option P.File
  not_log_file log_file none = none
  not_log_file log_file (some lf) = if P.same_file lf log_file then none else some lf

  -- The loop over `levelFilePath`, up to the first level of the path.
  unfoldable pub replace_level :
      String
      → P.File
      → List (Level × String)
      → P.File
      → List (Level × P.File)
      → Prog (World P) (List (Level × P.File))
  unfolding close_old not_log_file
  replace_level clean f [] log_file files = pure files
  replace_level clean f ((l, p) ∷ paths) log_file files =
      if str_eq (P.path_clean p) clean
      then (do
        close_old "logger: failed to close old level file: %v"
            (not_log_file log_file (of_level l files))
        pure (set_level l f files))
      else replace_level clean f paths log_file files

  -- The part of `reopenFile` for a file that was opened.
  unfoldable pub replace_file : String → P.File → LoggerCore P → Prog (World P) (LoggerCore P)
  unfolding close_old
  replace_file path f c =
      if str_eq (P.path_clean path) (P.path_clean c.log_file_path)
      then (do
        close_old "logger: failed to close old log file: %v" (some c.log_file)
        pure (rebuild_handler (record c { log_file = f })))
      else (do
        files ← replace_level (P.path_clean path) f c.level_file_path c.log_file c.level_file
        pure (rebuild_handler (record c { level_file = files })))

  unfoldable pub reopened : String → LoggerCore P → Option P.File → Prog (World P) (LoggerCore P)
  reopened path c (some f) = replace_file path f c
  reopened path c none = do std_log "logger: failed to reopen %s after %d retries"; pure c

  unfoldable pub reopen_file : String → LoggerCore P → Prog (World P) (LoggerCore P)
  unfolding reopened
  reopen_file path c = do
    opened ← try_open max_reopen_retries initial_retry_delay path
    reopened path c opened

  -- `watchLoop` over the events that a watcher delivers up to its end.
  unfoldable pub watch_loop : String → List Event → LoggerCore P → Prog (World P) (LoggerCore P)
  watch_loop path [] c = pure c
  watch_loop path (watch_error ∷ events) c = watch_loop path events c
  watch_loop path (file_event gone name ∷ events) c = do
    c' ←
        (if gone && str_eq (P.path_clean name) (P.path_clean path)
          then reopen_file path c
          else pure c)
    watch_loop path events c'

  unfoldable pub added_watcher :
      LoggerCore P → P.Watcher → Option Error → Prog (World P) (LoggerCore P)
  added_watcher c w none = pure (record c { watchers = c.watchers ++ w ∷ [] })
  added_watcher c w (some e) = do
    std_log "logger: failed to watch directory for %s: %v"
    closed ← call P (P.close_watcher w)
    log_error "logger: failed to close watcher: %v" closed
    pure c

  unfoldable pub made_watcher :
      String → LoggerCore P → Result P.Watcher → Prog (World P) (LoggerCore P)
  unfolding added_watcher
  made_watcher path c (err e) = do std_log "logger: failed to create watcher for %s: %v"; pure c
  made_watcher path c (ok w) = do
    added ← call P (P.watch_dir w (P.path_dir path))
    added_watcher c w added

  -- The watcher of one path, if it can be made.
  unfoldable pub watch_path : String → LoggerCore P → Prog (World P) (LoggerCore P)
  unfolding made_watcher
  watch_path path c = do made ← call P P.new_watcher; made_watcher path c made

  unfoldable pub watch_paths : List (Level × String) → LoggerCore P → Prog (World P) (LoggerCore P)
  unfolding watch_path
  watch_paths [] c = pure c
  watch_paths ((l, path) ∷ paths) c = do c' ← watch_path path c; watch_paths paths c'

  -- `startWatchers`; each watcher's loop is a run of `watch_loop` of its own.
  unfoldable pub start_watchers : LoggerCore P → Prog (World P) (LoggerCore P)
  unfolding watch_path watch_paths
  start_watchers c = do c' ← watch_path c.log_file_path c; watch_paths c.level_file_path c'
