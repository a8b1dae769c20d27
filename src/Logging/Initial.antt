-- ===== src/Logging/Initial.antt =====
-- The start of pkg/logger's core, in log.init.go and log.watchers.go.
use boilerplate_go_be.Base.{
  str_append, ◌++◌, str_eq, str_eq, ◌≡◌, refl, arith, String, Option, none, some, List, [], ◌∷◌,
}
use boilerplate_go_be.Runtime.{wrap, Error, Result, ok, err, pure}
use boilerplate_go_be.Returns.{
  Ends, Returns, Returns-pure, Returns-if, Returns-then, Returns-bind, Returns-result,
}
use boilerplate_go_be.Config.{LogConfig}
use boilerplate_go_be.Logger.{Level, parse_log_level}
use boilerplate_go_be.Platform.{Platform}
use boilerplate_go_be.World.{call, LoggerCore}
use boilerplate_go_be.Logging.{
  close_level_files, level_files_opened, default_opened, directory_made, add_level_file, LevelFiles,
  writer_for_level, open_level_files, core_of, init_logger_core,
}
use boilerplate_go_be.Logging.Maps.{of_level, of_level-set_level}
use boilerplate_go_be.Logging.Watchers.{
  log_error, added_watcher, made_watcher, watch_path, watch_paths, std_log, start_watchers,
}
use boilerplate_go_be.Logging.Consistency.{log_error-Ends, Consistent, pairs_with}

module _ (P : Platform) where
  added_watcher-Consistent :
      (c : LoggerCore P) (w : P.Watcher) (added : Option Error)
      → Consistent P c
      → Returns (Consistent P) (added_watcher P c w added)
  unfolding added_watcher
  added_watcher-Consistent c w none h =
      Returns-pure {a = record c { watchers = c.watchers ++ w ∷ [] }} h
  added_watcher-Consistent c w (some e) h =
      Returns-bind (std_log P "logger: failed to watch directory for %s: %v") _
        (record { run = λ _. tt })
        (λ _.
          Returns-bind (call P (P.close_watcher w)) _ (record { run = λ _. tt })
            (λ closed.
              Returns-bind (log_error P "logger: failed to close watcher: %v" closed) (λ _. pure c)
                (log_error-Ends P "logger: failed to close watcher: %v" closed)
                (λ _. Returns-pure {a = c} h)))

  made_watcher-Consistent :
      (path : String) (c : LoggerCore P) (made : Result P.Watcher)
      → Consistent P c
      → Returns (Consistent P) (made_watcher P path c made)
  unfolding made_watcher
  made_watcher-Consistent path c (err e) h =
      Returns-bind (std_log P "logger: failed to create watcher for %s: %v") (λ _. pure c)
        (record { run = λ _. tt }) (λ _. Returns-pure {a = c} h)
  made_watcher-Consistent path c (ok w) h =
      Returns-bind (call P (P.watch_dir w (P.path_dir path))) (added_watcher P c w)
        (record { run = λ _. tt }) (λ added. added_watcher-Consistent c w added h)

  watch_path-Consistent :
      (path : String) (c : LoggerCore P)
      → Consistent P c
      → Returns (Consistent P) (watch_path P path c)
  unfolding watch_path
  watch_path-Consistent path c h =
      Returns-bind (call P P.new_watcher) (made_watcher P path c) (record { run = λ _. tt })
        (λ made. made_watcher-Consistent path c made h)

  watch_paths-Consistent :
      (paths : List (Level × String)) (c : LoggerCore P)
      → Consistent P c
      → Returns (Consistent P) (watch_paths P paths c)
  unfolding watch_paths
  watch_paths-Consistent [] c h = Returns-pure {a = c} h
  watch_paths-Consistent ((l, path) ∷ paths) c h =
      Returns-then (Consistent P) (watch_path P path c) (watch_paths P paths)
        (watch_path-Consistent path c h) (λ c' h'. watch_paths-Consistent paths c' h')

  start_watchers-Consistent :
      (c : LoggerCore P) → Consistent P c → Returns (Consistent P) (start_watchers P c)
  unfolding start_watchers
  start_watchers-Consistent c h =
      Returns-then (Consistent P) (watch_path P c.log_file_path c) (watch_paths P c.level_file_path)
        (watch_path-Consistent c.log_file_path c h)
        (λ c' h'. watch_paths-Consistent c.level_file_path c' h')

  abbrev pub OnOk : {A : Type 0} → (A → Type 0) → Result A → Type 0
  OnOk Q (ok a) = Q a
  OnOk Q (err e) = Unit {0}

  Paired : P.File → LevelFiles P → Type 0
  Paired default_file opened =
      (l : Level) → of_level l opened.writers ≡ pairs_with P default_file (of_level l opened.files)

  add_level_file-Paired :
      (default_file f : P.File) (l : Level) (path : String) (opened : LevelFiles P)
      → Paired default_file opened
      → Paired default_file (add_level_file P default_file l path f opened)
  unfolding add_level_file Paired pairs_with
  add_level_file-Paired default_file f l path opened h j = ground (
    arith,
    of_level-set_level j l (default_file, f) opened.writers,
    of_level-set_level j l f opened.files,
    h j,
  )

  close_level_files-Ends : (files : List (Level × P.File)) → Ends (close_level_files P files)
  unfolding close_level_files
  close_level_files-Ends [] = (record { run = λ _. tt })
  close_level_files-Ends ((l, f) ∷ files) =
      Returns-bind (call P (P.close_file f)) (λ _. close_level_files P files)
        (record { run = λ _. tt }) (λ _. close_level_files-Ends files)

  open_level_files-Paired :
      (dir : String) (default_file : P.File) (rest : List (String × String)) (opened : LevelFiles P)
      → Paired default_file opened
      → Returns (OnOk (Paired default_file)) (open_level_files P dir default_file rest opened)
  unfolding open_level_files
  open_level_files-Paired dir default_file [] opened h = Returns-pure {a = ok opened} h
  open_level_files-Paired dir default_file ((str_level, file_name) ∷ rest) opened h =
      Returns-if (str_eq file_name "") (open_level_files-Paired dir default_file rest opened h) (
        Returns-bind (call P (P.open_append (P.path_join dir file_name))) _
          (record { run = λ _. tt })
          (λ file.
            Returns-result file _ _
              (λ f. open_level_files-Paired dir default_file rest _ (
                add_level_file-Paired default_file f (parse_log_level str_level)
                  (P.path_join dir file_name) opened h))
              (λ e.
                Returns-bind (call P (P.close_file default_file)) _ (record { run = λ _. tt })
                  (λ _.
                    Returns-bind (close_level_files P opened.files) _
                      (close_level_files-Ends opened.files)
                      (λ _.
                        Returns-pure
                          {a = err (
                            wrap (str_append "failed to open " (str_append str_level " log file"))
                              e)}
                          tt)))))

  level_files_opened-Consistent :
      (c : LogConfig) (default_file : P.File) (opened : Result (LevelFiles P))
      → OnOk (Paired default_file) opened
      → Returns (OnOk (Consistent P)) (level_files_opened P c default_file opened)
  unfolding level_files_opened core_of Paired writer_for_level pairs_with
  level_files_opened-Consistent c default_file (err e) h = Returns-pure {a = err e} tt
  level_files_opened-Consistent c default_file (ok opened) h =
      Returns-then (Consistent P) (start_watchers P (core_of P c default_file opened)) _
        (start_watchers-Consistent (core_of P c default_file opened) (λ l. ground (arith, h l)))
        (λ core good. Returns-pure {a = ok core} good)

  default_opened-Consistent :
      (c : LogConfig) (opened : Result P.File)
      → Returns (OnOk (Consistent P)) (default_opened P c opened)
  unfolding default_opened Paired pairs_with of_level
  default_opened-Consistent c (err e) =
      Returns-pure {a = err (wrap "failed to open default log file" e)} tt
  default_opened-Consistent c (ok f) =
      Returns-then (OnOk (Paired f))
        (open_level_files P c.path f c.per_level_files
          (record { files = []; paths = []; writers = [] }))
        (level_files_opened P c f)
        (open_level_files-Paired c.path f c.per_level_files _ (λ l. refl))
        (λ opened good. level_files_opened-Consistent c f opened good)

  directory_made-Consistent :
      (c : LogConfig) (made : Option Error)
      → Returns (OnOk (Consistent P)) (directory_made P c made)
  unfolding directory_made
  directory_made-Consistent c (some e) =
      Returns-pure {a = err (wrap "failed to create log directory" e)} tt
  directory_made-Consistent c none =
      Returns-bind (call P (P.open_append (P.path_join c.path c.file_name))) (default_opened P c)
        (record { run = λ _. tt }) (default_opened-Consistent c)

  -- A core that the start of the logger returns has a handler that writes to the core's files: each level
  -- to the log file, and to its own file if the configuration gives it one, also where two names of the
  -- configuration mean the same level.
  pub init_logger_core-Consistent :
      (c : LogConfig) → Returns (OnOk (Consistent P)) (init_logger_core P c)
  unfolding init_logger_core
  init_logger_core-Consistent c =
      Returns-bind (call P (P.mkdir_all c.path)) (directory_made P c) (record { run = λ _. tt })
        (directory_made-Consistent c)
