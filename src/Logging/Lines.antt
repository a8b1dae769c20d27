-- ===== src/Logging/Lines.antt =====
-- `Handle` of pkg/logger/log.handler.go and `emit` of log.methods.go: the text of a line and where it goes.
use boilerplate_go_be.Base.{
  ℕ, String, Bool, Option, none, some, List, [], ◌∷◌, ◌++◌, map, Runes, codes, str_eq, is_empty,
  show_nat, if◌then◌else◌,
}
use boilerplate_go_be.Logger.{Level, Log, to_slog, label_from_slog, enabled}
use boilerplate_go_be.Platform.{Platform}
use boilerplate_go_be.World.{Handler}
use boilerplate_go_be.Logging.{writer_for_level}

-- The parts of a `slog.Record` that the handler reads. The time is formatted; `frame` is what the runtime
-- says of the program counter, where it is not 0.
pub record LogRecord : Type 0 where
  pub time : Runes
  pub level : Level
  pub message : Runes
  pub attrs : List (String × Runes)
  pub frame : Option (Runes × ℕ)

-- The walk over the attributes: the parent and the child identifier.
unfoldable pub request_ids : List (String × Runes) → Runes × Runes → Runes × Runes
request_ids [] ids = ids
request_ids ((key, value) ∷ rest) ids = request_ids rest (
    if str_eq key "parentID"
    then (value, ids.1)
    else if str_eq key "childID"
    then (ids.0, value)
    else ids)

-- The file and the line of the caller.
unfoldable pub caller : Option (Runes × ℕ) → Runes × ℕ
caller none = (codes "unknown", 0)
caller (some (file, line)) = if is_empty file then (codes "unknown", 0) else (file, line)

abbrev pub pipe : ℕ
pipe = b'|'

unfoldable pub log_line : LogRecord → Runes
unfolding request_ids caller
log_line r =
    let ids = request_ids r.attrs ([], []) in
    let at = caller r.frame in
    r.time
    ++ pipe
      ∷ (ids.0
          ++ pipe
            ∷ (ids.1
                ++ pipe
                  ∷ (codes (label_from_slog (to_slog r.level))
                      ++ pipe ∷ (at.0 ++ pipe ∷ (codes (show_nat at.1) ++ pipe ∷ r.message)))))

-- The record that `emit` builds.
abbrev pub emitted : Log → Level → Runes → Runes → Option (Runes × ℕ) → LogRecord
emitted l level message time frame = record {
  time = time;
  level = level;
  message = message;
  attrs = ("parentID", codes l.parent_id) ∷ ("childID", codes l.child_id) ∷ [];
  frame = frame;
}

pub data Sink (P : Platform) : Type 0 where
  to_file : P.File → Sink P
  to_stdout : Sink P

module _ {P : Platform} where
  -- The destinations of a level.
  unfoldable pub sinks : Handler P → Bool → Level → List (Sink P)
  sinks h also_stdout level =
      map to_file (writer_for_level P h level) ++ (if also_stdout then to_stdout ∷ [] else [])

  -- `Handle`: `Fprintln` ends the line.
  unfoldable pub handle_record : Handler P → Bool → LogRecord → List (Sink P × Runes)
  unfolding log_line sinks
  handle_record h also_stdout r =
      map (λ s. (s, log_line r ++ b'\n' ∷ [])) (sinks h also_stdout r.level)

  -- `emit` behind the check of the level.
  unfoldable pub emit :
      Handler P → Bool → Log → Level → Runes → Runes → Option (Runes × ℕ) → List (Sink P × Runes)
  unfolding handle_record
  emit h also_stdout l level message time frame =
      if enabled l.level (to_slog level)
      then handle_record h also_stdout (emitted l level message time frame)
      else []
