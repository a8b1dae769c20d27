-- ===== src/Logging/Consistency.antt =====
-- The writers of pkg/logger's handler and the files of its core.
use boilerplate_go_be.Base.{
  zero, suc, ℕ, str_eq, ◌&&◌, if◌then◌else◌, ◌≡◌, refl, arith, String, Option, none, some, List, [],
  ◌∷◌,
}
use boilerplate_go_be.Runtime.{◌>>◌, Error, pure}
use boilerplate_go_be.Returns.{
  Ends, OnReturn, Returns, Returns-pure, Returns-if, Returns-then, Returns-bind,
}
use boilerplate_go_be.Logger.{Level}
use boilerplate_go_be.Platform.{Platform}
use boilerplate_go_be.World.{call, LoggerCore}
use boilerplate_go_be.Logging.{err, ok, Prog, World, Result, set_level, writer_for_level}
use boilerplate_go_be.Logging.Maps.{of_level, of_level-set_level}
use boilerplate_go_be.Logging.Watchers.{
  not_log_file, log_error, or_else, sleep, next_delay, close_old, std_log, replace_level, try_open,
  max_reopen_retries, initial_retry_delay, Event, watch_error, file_event, writers_of,
  rebuild_handler, replace_file, reopen_file, reopened, watch_loop,
}

module _ (P : Platform) where
  -- The files of a level's lines: the log file, and the level's own if it has one.
  abbrev pub with_file : P.File → Option P.File → List P.File
  with_file log_file none = log_file ∷ []
  with_file log_file (some f) = log_file ∷ f ∷ []

  abbrev pub files_for_level : LoggerCore P → Level → List P.File
  files_for_level c l = with_file c.log_file (of_level l c.level_file)

  -- The handler writes to the files that the core holds.
  abbrev pub Consistent : LoggerCore P → Type 0
  Consistent c = (l : Level) → writer_for_level P c.handler l ≡ files_for_level c l

  unfoldable pub pairs_with : P.File → Option P.File → Option (P.File × P.File)
  pairs_with log_file none = none
  pairs_with log_file (some f) = some (log_file, f)

  of_level-writers_of :
      (log_file : P.File) (l : Level) (m : List (Level × P.File))
      → of_level l (writers_of P log_file m) ≡ pairs_with log_file (of_level l m)
  unfolding writers_of of_level pairs_with
  of_level-writers_of log_file l [] = refl
  of_level-writers_of log_file l ((k, f) ∷ m) = ground (
    arith,
    of_level-set_level l k (log_file, f) (writers_of P log_file m),
    of_level-writers_of log_file l m,
  )

  rebuild_handler-Consistent : (c : LoggerCore P) → Consistent (rebuild_handler P c)
  unfolding rebuild_handler writer_for_level pairs_with
  rebuild_handler-Consistent c l = ground (arith, of_level-writers_of c.log_file l c.level_file)

  pub log_error-Ends : (msg : String) (e : Option Error) → Ends (log_error P msg e)
  log_error-Ends msg none = (record { run = λ _. tt })
  log_error-Ends msg (some e) = (record { run = λ _. tt })

  close_old-Ends : (msg : String) (old : Option P.File) → Ends (close_old P msg old)
  unfolding close_old
  close_old-Ends msg none = (record { run = λ _. tt })
  close_old-Ends msg (some f) =
      Returns-bind (call P (P.close_file f)) (log_error P msg) (record { run = λ _. tt })
        (log_error-Ends msg)

  replace_level-Ends :
      (clean : String) (f : P.File) (paths : List (Level × String)) (log_file : P.File)
      (files : List (Level × P.File))
      → Ends (replace_level P clean f paths log_file files)
  unfolding replace_level
  replace_level-Ends clean f [] log_file files = (record { run = λ _. tt })
  replace_level-Ends clean f ((l, p) ∷ paths) log_file files =
      Returns-if (str_eq (P.path_clean p) clean)
        (Returns-bind
          (close_old P "logger: failed to close old level file: %v"
            (not_log_file P log_file (of_level l files)))
          (λ _. pure (set_level l f files))
          (close_old-Ends "logger: failed to close old level file: %v"
            (not_log_file P log_file (of_level l files)))
          (λ _. (record { run = λ _. tt })))
        (replace_level-Ends clean f paths log_file files)

  or_else-Ends :
      (opened : Result P.File) (rest : Prog (World P) (Option P.File))
      → Ends rest
      → Ends (or_else P opened rest)
  or_else-Ends (ok f) rest h = (record { run = λ _. tt })
  or_else-Ends (err e) rest h = h

  try_open-Ends : (n delay : ℕ) (path : String) → Ends (try_open P n delay path)
  unfolding try_open
  try_open-Ends zero delay path = (record { run = λ _. tt })
  try_open-Ends (suc zero) delay path =
      Returns-bind (call P (P.open_append path)) (λ opened. or_else P opened (pure none))
        (record { run = λ _. tt })
        (λ opened. or_else-Ends opened (pure none) (record { run = λ _. tt }))
  try_open-Ends (suc (suc n)) delay path =
      let rest = try_open P (suc n) (next_delay delay) path in
      Returns-bind (call P (P.open_append path))
        (λ opened. or_else P opened (sleep P delay >> rest)) (record { run = λ _. tt })
        (λ opened. or_else-Ends opened (sleep P delay >> rest) (
          Returns-bind (sleep P delay) (λ _. rest) (record { run = λ _. tt })
            (λ _. try_open-Ends (suc n) (next_delay delay) path)))

  replace_file-Consistent :
      (path : String) (f : P.File) (c : LoggerCore P) → Returns Consistent (replace_file P path f c)
  unfolding replace_file
  replace_file-Consistent path f c =
      Returns-if (str_eq (P.path_clean path) (P.path_clean c.log_file_path))
        (Returns-bind (close_old P "logger: failed to close old log file: %v" (some c.log_file)) _
          (close_old-Ends "logger: failed to close old log file: %v" (some c.log_file))
          (λ _. Returns-pure (rebuild_handler-Consistent (record c { log_file = f }))))
        (Returns-bind
          (replace_level P (P.path_clean path) f c.level_file_path c.log_file c.level_file) _
          (replace_level-Ends (P.path_clean path) f c.level_file_path c.log_file c.level_file)
          (λ files. Returns-pure (rebuild_handler-Consistent (record c { level_file = files }))))

  reopened-Consistent :
      (path : String) (c : LoggerCore P) (opened : Option P.File)
      → Consistent c
      → Returns Consistent (reopened P path c opened)
  unfolding reopened
  reopened-Consistent path c (some f) h = replace_file-Consistent path f c
  reopened-Consistent path c none h =
      Returns-bind (std_log P "logger: failed to reopen %s after %d retries") (λ _. pure c)
        (record { run = λ _. tt }) (λ _. Returns-pure {a = c} h)

  reopen_file-Consistent :
      (path : String) (c : LoggerCore P) → Consistent c → Returns Consistent (reopen_file P path c)
  unfolding reopen_file
  reopen_file-Consistent path c h =
      Returns-bind (try_open P max_reopen_retries initial_retry_delay path) (reopened P path c)
        (try_open-Ends max_reopen_retries initial_retry_delay path)
        (λ opened. reopened-Consistent path c opened h)

  watch_loop-Returns :
      (path : String) (events : List Event) (c : LoggerCore P)
      → Consistent c
      → Returns Consistent (watch_loop P path events c)
  unfolding watch_loop
  watch_loop-Returns path [] c h = Returns-pure h
  watch_loop-Returns path (watch_error ∷ events) c h = watch_loop-Returns path events c h
  watch_loop-Returns path (file_event gone name ∷ events) c h =
      Returns-then Consistent
        (if gone && str_eq (P.path_clean name) (P.path_clean path)
          then reopen_file P path c
          else pure c)
        (watch_loop P path events)
        (Returns-if (gone && str_eq (P.path_clean name) (P.path_clean path))
          (reopen_file-Consistent path c h) (Returns-pure h))
        (λ c' h'. watch_loop-Returns path events c' h')

  -- Whatever events a watch loop gets, and whether or not the file opens again, the loop ends with a core
  -- whose handler writes to the files that the core holds, if it did before: each level to the log file,
  -- and to its own file if it has one.
  pub watch_loop-Consistent :
      (path : String) (events : List Event) (c : LoggerCore P) (w : World P)
      → Consistent c
      → OnReturn Consistent (watch_loop P path events c w).0
  watch_loop-Consistent path events c w h = (watch_loop-Returns path events c h).run w
