-- ===== src/Logging/Contained.antt =====
-- `NewLogger` of pkg/logger leaves the database handle and the JWT service alone, and never ends the process.
use boilerplate_go_be.Base.{str_append, String, List, [], ◌∷◌, refl, Option, none, some, str_eq}
use boilerplate_go_be.Runtime.{Error, Result, ok, err}
use boilerplate_go_be.Config.{LogConfig}
use boilerplate_go_be.Logger.{parse_log_level, Level}
use boilerplate_go_be.Platform.{Platform}
use boilerplate_go_be.World.{LoggerCore, call}
use boilerplate_go_be.Logging.{
  wrap, modify, logger_on, fresh_logger, LevelFiles, close_level_files, open_level_files,
  add_level_file, level_files_opened, default_opened, directory_made, init_logger_core, new_logger,
  core_of,
}
use boilerplate_go_be.Logging.Watchers.{
  std_log, log_error, added_watcher, made_watcher, watch_path, watch_paths, start_watchers,
}
use boilerplate_go_be.Contained.{
  Contained-reads, InWorld, Contained-pure, Contained-if, Contained-result, Contained-modify,
  Contained-bind, Contained-call,
}

module _ (P : Platform) where
  close_level_files-InWorld : (m : List (Level × P.File)) → InWorld (close_level_files P m)
  unfolding close_level_files
  close_level_files-InWorld [] = Contained-pure _ tt
  close_level_files-InWorld ((_, f) ∷ m) =
      Contained-bind _ (call P (P.close_file f)) (λ _. close_level_files P m) (Contained-call _)
        (λ _. close_level_files-InWorld m)

  open_level_files-InWorld :
      (dir : String) (default_file : P.File) (files : List (String × String))
      (opened : LevelFiles P)
      → InWorld (open_level_files P dir default_file files opened)
  unfolding open_level_files
  open_level_files-InWorld dir default_file [] opened = Contained-pure _ _
  open_level_files-InWorld dir default_file ((level, name) ∷ rest) opened =
      Contained-if _ (str_eq name "") (open_level_files-InWorld dir default_file rest opened) (
        Contained-bind _ (call P (P.open_append (P.path_join dir name))) _ (Contained-call _)
          (λ file.
            Contained-result _ file _ _
              (λ f. open_level_files-InWorld dir default_file rest (
                add_level_file P default_file (parse_log_level level) (P.path_join dir name) f
                  opened))
              (λ e. Contained-bind _ (call P (P.close_file default_file)) _ (Contained-call _) (λ _.
                Contained-bind _ (close_level_files P opened.files) _
                  (close_level_files-InWorld opened.files)
                  (λ _. Contained-pure _ (
                    err (wrap (str_append "failed to open " (str_append level " log file")) e)))))))

  std_log-InWorld : (msg : String) → InWorld (std_log P msg)
  std_log-InWorld msg = Contained-modify _ _ (λ w. (refl, refl))

  log_error-InWorld : (msg : String) (closed : Option Error) → InWorld (log_error P msg closed)
  log_error-InWorld msg none = Contained-pure _ tt
  log_error-InWorld msg (some e) = std_log-InWorld msg

  added_watcher-InWorld :
      (c : LoggerCore P) (w : P.Watcher) (added : Option Error)
      → InWorld (added_watcher P c w added)
  unfolding added_watcher
  added_watcher-InWorld c w none = Contained-pure _ _
  added_watcher-InWorld c w (some e) =
      Contained-bind _ (std_log P "logger: failed to watch directory for %s: %v") _
        (std_log-InWorld "logger: failed to watch directory for %s: %v")
        (λ _. Contained-bind _ (call P (P.close_watcher w)) _ (Contained-call _) (λ closed.
          Contained-bind _ (log_error P "logger: failed to close watcher: %v" closed) _
            (log_error-InWorld "logger: failed to close watcher: %v" closed)
            (λ _. Contained-pure _ c)))

  made_watcher-InWorld :
      (path : String) (c : LoggerCore P) (made : Result P.Watcher)
      → InWorld (made_watcher P path c made)
  unfolding made_watcher
  made_watcher-InWorld path c (err e) =
      Contained-bind _ (std_log P "logger: failed to create watcher for %s: %v") _
        (std_log-InWorld "logger: failed to create watcher for %s: %v") (λ _. Contained-pure _ c)
  made_watcher-InWorld path c (ok w) =
      Contained-bind _ (call P (P.watch_dir w (P.path_dir path))) _ (Contained-call _)
        (λ added. added_watcher-InWorld c w added)

  watch_path-InWorld : (path : String) (c : LoggerCore P) → InWorld (watch_path P path c)
  unfolding watch_path
  watch_path-InWorld path c =
      Contained-bind _ (call P P.new_watcher) _ (Contained-call _)
        (λ made. made_watcher-InWorld path c made)

  watch_paths-InWorld :
      (paths : List (Level × String)) (c : LoggerCore P) → InWorld (watch_paths P paths c)
  unfolding watch_paths
  watch_paths-InWorld [] c = Contained-pure _ c
  watch_paths-InWorld ((_, path) ∷ rest) c =
      Contained-bind _ (watch_path P path c) _ (watch_path-InWorld path c)
        (λ c'. watch_paths-InWorld rest c')

  start_watchers-InWorld : (c : LoggerCore P) → InWorld (start_watchers P c)
  unfolding start_watchers
  start_watchers-InWorld c =
      Contained-bind _ (watch_path P c.log_file_path c) _ (watch_path-InWorld c.log_file_path c)
        (λ c'. watch_paths-InWorld c.level_file_path c')

  level_files_opened-InWorld :
      (c : LogConfig) (f : P.File) (opened : Result (LevelFiles P))
      → InWorld (level_files_opened P c f opened)
  unfolding level_files_opened
  level_files_opened-InWorld c f (err e) = Contained-pure _ _
  level_files_opened-InWorld c f (ok opened) =
      Contained-bind _ (start_watchers P (core_of P c f opened)) _ (start_watchers-InWorld _)
        (λ core. Contained-pure _ _)

  default_opened-InWorld :
      (c : LogConfig) (opened : Result P.File) → InWorld (default_opened P c opened)
  unfolding default_opened
  default_opened-InWorld c (err e) = Contained-pure _ _
  default_opened-InWorld c (ok f) =
      Contained-bind _ (open_level_files P c.path f c.per_level_files _) _
        (open_level_files-InWorld c.path f c.per_level_files _)
        (λ opened. level_files_opened-InWorld c f opened)

  directory_made-InWorld : (c : LogConfig) (made : Option Error) → InWorld (directory_made P c made)
  unfolding directory_made
  directory_made-InWorld c (some e) = Contained-pure _ _
  directory_made-InWorld c none =
      Contained-bind _ (call P (P.open_append (P.path_join c.path c.file_name))) _
        (Contained-call _) (λ opened. default_opened-InWorld c opened)

  init_logger_core-InWorld : (c : LogConfig) → InWorld (init_logger_core P c)
  unfolding init_logger_core
  init_logger_core-InWorld c =
      Contained-bind _ (call P (P.mkdir_all c.path)) _ (Contained-call _)
        (λ made. directory_made-InWorld c made)

  fresh_logger-InWorld :
      (c : LogConfig) (parent_id child_id : String) → InWorld (fresh_logger P c parent_id child_id)
  unfolding fresh_logger
  fresh_logger-InWorld c parent_id child_id =
      Contained-bind _ (init_logger_core P c) _ (init_logger_core-InWorld c) (λ made.
        Contained-result _ made _ _
          (λ core.
            Contained-bind _ (modify (λ w'. record w' { core = some core })) _
              (Contained-modify _ _ (λ w. (refl, refl)))
              (λ _. Contained-pure _ (ok (logger_on P core parent_id child_id))))
          (λ e. Contained-pure _ (err e)))

  pub new_logger-InWorld :
      (c : LogConfig) (parent_id child_id : String) → InWorld (new_logger P c parent_id child_id)
  unfolding new_logger
  new_logger-InWorld c parent_id child_id =
      Contained-reads (λ w. w) (λ w. w.core) (fresh_logger P c parent_id child_id) _
        (fresh_logger-InWorld c parent_id child_id)
        (λ core. Contained-pure _ (ok (logger_on P core parent_id child_id)))
