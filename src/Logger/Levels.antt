-- ===== src/Logger/Levels.antt =====
-- The levels' order, labels and names.
use boilerplate_go_be.Base.{ℕ, String, ◌≡◌, refl, arith, leb}
use boilerplate_go_be.Logger.{
  Level, debug, info, warn, error, fatal, to_slog, label_from_slog, parse_log_level, enabled,
}

-- The order of the constants, DEBUG = 0 to FATAL = 4.
pub rank : Level → ℕ
rank debug = 0
rank info = 1
rank warn = 2
rank error = 3
rank fatal = 4

pub label : Level → String
label debug = "DEBUG"
label info = "INFO"
label warn = "WARN"
label error = "ERROR"
label fatal = "FATAL"

-- A level's name parses to the level, its slog level has that name for its label, and a handler at one
-- level lets another through exactly when that is not below it in the order DEBUG, INFO, WARN, ERROR,
-- FATAL.
pub levels_agree :
    (a b : Level)
    → (parse_log_level (label a) ≡ a)
      × (label_from_slog (to_slog a) ≡ label a)
      × (enabled (to_slog a) (to_slog b) ≡ leb (rank a) (rank b))
unfolding parse_log_level label_from_slog to_slog enabled rank label
levels_agree a b = (names a, labels a, order a b)
  where
    names : (a : Level) → parse_log_level (label a) ≡ a
    names debug = refl
    names info = refl
    names warn = refl
    names error = refl
    names fatal = refl

    labels : (a : Level) → label_from_slog (to_slog a) ≡ label a
    labels debug = refl
    labels info = refl
    labels warn = refl
    labels error = refl
    labels fatal = refl

    order : (a b : Level) → enabled (to_slog a) (to_slog b) ≡ leb (rank a) (rank b)
    order a b = ground arith
