-- ===== src/Tests/Logs.antt =====
-- Witnesses for the logger's files.
use boilerplate_go_be.Base.{
  suc, false, ℕ, ◌-◌, ◌+◌, pos, codes, map, List, Runes, show_nat, refl, arith, ◌≡◌, ◌==◌, true,
  none, [], ◌∷◌, if◌then◌else◌,
}
use boilerplate_go_be.Runtime.{foreign, ret, ok, err}
use boilerplate_go_be.Returns.{OnReturn}
use boilerplate_go_be.Config.{LogConfig}
use boilerplate_go_be.Logger.{info, error, Log, label_from_slog, to_slog, enabled}
use boilerplate_go_be.Platform.{Platform}
use boilerplate_go_be.World.{LoggerCore, World}
use boilerplate_go_be.Logging.{writer_for_level}
use boilerplate_go_be.Logging.Lines.{Sink, sinks, emit, caller}
use boilerplate_go_be.Logging.Columns.{columns, emit-columns}
use boilerplate_go_be.Logging.Maps.{of_level}
use boilerplate_go_be.Logging.Watchers.{
  next_delay, file_event, watch_error, rebuild_handler, reopen_file, watch_loop,
}
use boilerplate_go_be.Logging.Consistency.{Consistent, watch_loop-Consistent}
use boilerplate_go_be.Logging.Reopening.{opens_now, opens_later, reopen_file-log_file}
use boilerplate_go_be.Tests.Memory.{Memory}

-- A file opens once the milliseconds of `next` are over.
abbrev Rotating : Platform
Rotating = record Memory {
  open_append = λ _ s. (if s.next == 0 then ok tt else err (foreign 7), s);
  sleep = λ ms s. record s { next = s.next - ms };
}

abbrev rotating : ℕ → World Rotating
rotating ms = record {
  outside = record { next = ms; rows = []; work = []; opened = 0 };
  lines = [];
  cfg = none;
  jwt = record { once_done = false; instance_ = none };
  db = record { connected = false; once_done = false; logger = none };
  core = none;
}

abbrev core : LoggerCore Rotating
core = record {
  level = info;
  to_stdout = false;
  log_file = tt;
  log_file_path = "logs/app.log";
  level_file = (error, tt) ∷ [];
  level_file_path = (error, "logs/error.log") ∷ [];
  watchers = [];
  handler = record { default_writer = tt; writers = (error, (tt, tt)) ∷ [] };
}

core-Consistent : Consistent Rotating core
unfolding writer_for_level of_level
core-Consistent l = ground arith

watch_loop-Consistent_example :
    OnReturn
      (Consistent Rotating)
      (watch_loop Rotating "logs/error.log"
        (watch_error ∷ file_event true "logs/error.log" ∷ [])
        core
        (rotating 250)).0
watch_loop-Consistent_example =
    watch_loop-Consistent Rotating "logs/error.log"
      (watch_error ∷ file_event true "logs/error.log" ∷ []) core (rotating 250) core-Consistent

abbrev log_config : LogConfig
log_config = record {
  verbose_level = "info";
  path = "logs";
  file_name = "app.log";
  also_log_to_stdout = false;
  per_level_files = ("ERROR", "error.log") ∷ ("error", "error2.log") ∷ [];
}

reopen_file-log_file_example :
    (reopen_file Rotating "logs/app.log" core (rotating 250)).0
    ≡ ret (rebuild_handler Rotating (record core { log_file = tt }))
unfolding next_delay
reopen_file-log_file_example =
    reopen_file-log_file Rotating "logs/app.log" 2 core (rotating 250) (rotating 0) tt refl
      (ground arith) (opens_later refl (opens_later refl (opens_now refl)))

-- No file opens; the store counts the attempts and the milliseconds.
abbrev Timed : Platform
Timed = record Memory {
  open_append = λ _ s. (err (foreign 7), record s { opened = suc s.opened });
  sleep = λ ms s. record s { next = s.next + ms };
}

abbrev running_late : World Timed
running_late = record {
  outside = record { next = 7; rows = []; work = []; opened = 0 };
  lines = [];
  cfg = none;
  jwt = record { once_done = false; instance_ = none };
  db = record { connected = false; once_done = false; logger = none };
  core = none;
}

abbrev request_log : Log
request_log = record { level = pos 0; parent_id = "9f"; child_id = "c1" }

-- A message with pipes of its own, at a level that has a file to itself.
emit-columns_example :
    map
      (λ (s, text). (s, columns text))
      (emit {P = Rotating} core.handler true request_log error (codes "a|b") (codes "12:00") none)
    ≡ map {B = Sink Rotating × List Runes}
        (λ s. (
          s,
          codes "12:00"
              ∷ codes "9f"
              ∷ codes "c1"
              ∷ codes "ERROR"
              ∷ codes "unknown"
              ∷ codes "0"
              ∷ codes "a|b"
              ∷ [],
        ))
        (sinks core.handler true error)
unfolding caller label_from_slog to_slog enabled show_nat
emit-columns_example =
    emit-columns core.handler true request_log error (codes "a|b") (codes "12:00") none
      (refl, (refl, (refl, (refl, (refl, tt))))) (refl, (refl, tt)) (refl, (refl, tt))
      (refl, (refl, (refl, (refl, (refl, (refl, (refl, tt)))))))
