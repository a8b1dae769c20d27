-- ===== src/Logging/Reopening.antt =====
-- The retries of `reopenFile` in pkg/logger/log.watchers.go.
use boilerplate_go_be.Base.{
  ap, ◌∙◌, ℕ, zero, suc, ◌+◌, ◌<◌, ◌≡◌, refl, arith, String, true, Option, none, some, str_eq,
}
use boilerplate_go_be.Runtime.{Error, ret, ok, err, pure, ◌>>◌}
use boilerplate_go_be.Returns.{bind-at}
use boilerplate_go_be.Platform.{Platform}
use boilerplate_go_be.World.{call, LoggerCore, World}
use boilerplate_go_be.Logging.Watchers.{
  rebuild_handler, close_old, or_else, sleep, max_reopen_retries, initial_retry_delay, next_delay,
  try_open, replace_file, reopened, reopen_file,
}

module _ (P : Platform) where
  abbrev slept : ℕ → World P → World P
  slept delay w = record w { outside = P.sleep delay w.outside }

  -- The file opens at last, after a number of failures, with a wait after each of them.
  pub data Opens (path : String) : ℕ → ℕ → World P → P.File → World P → Type 0 where
    opens_now :
        {delay : ℕ} {w w' : World P} {f : P.File}
        → call P (P.open_append path) w ≡ (ret (ok f), w')
        → Opens path zero delay w f w'
    opens_later :
        {n delay : ℕ} {w w1 w' : World P} {f : P.File} {e : Error}
        → call P (P.open_append path) w ≡ (ret (err e), w1)
        → Opens path n (next_delay delay) (slept delay w1) f w'
        → Opens path (suc n) delay w f w'

  try_open-now :
      (path : String) (n delay : ℕ) (w w' : World P) (f : P.File)
      → call P (P.open_append path) w ≡ (ret (ok f), w')
      → try_open P (suc n) delay path w ≡ (ret (some f), w')
  unfolding try_open
  try_open-now path zero delay w w' f now =
      bind-at (call P (P.open_append path)) (pure (ok f)) (λ r. or_else P r (pure none)) w w' now
  try_open-now path (suc n) delay w w' f now =
      bind-at (call P (P.open_append path)) (pure (ok f))
        (λ r. or_else P r (sleep P delay >> try_open P (suc n) (next_delay delay) path)) w w' now

  try_open-later :
      (path : String) (n delay : ℕ) (w w1 : World P) (e : Error)
      → call P (P.open_append path) w ≡ (ret (err e), w1)
      → try_open P (suc (suc n)) delay path w
        ≡ try_open P (suc n) (next_delay delay) path (slept delay w1)
  unfolding try_open
  try_open-later path n delay w w1 e failed =
      bind-at (call P (P.open_append path)) (pure (err e))
        (λ r. or_else P r (sleep P delay >> try_open P (suc n) (next_delay delay) path)) w w1 failed

  try_open-Opens :
      (path : String) (attempts n delay : ℕ) (w w' : World P) (f : P.File)
      → n < attempts
      → Opens path n delay w f w'
      → try_open P attempts delay path w ≡ (ret (some f), w')
  try_open-Opens path zero n delay w w' f few opens = ground arith
  try_open-Opens path (suc m) n delay w w' f few (opens_now now) =
      try_open-now path m delay w w' f now
  try_open-Opens path (suc zero) n delay w w' f few (opens_later failed later) = ground arith
  try_open-Opens path (suc (suc m)) n delay w w' f few
        (opens_later {n = k} {w1 = w1} {e = e} failed later) =
      try_open-later path m delay w w1 e failed
      ∙ try_open-Opens path (suc m) k (next_delay delay) (slept delay w1) w' f (ground arith) later

  reopen_file-opened :
      (path : String) (n : ℕ) (c : LoggerCore P) (w w' : World P) (f : P.File)
      → n < max_reopen_retries
      → Opens path n initial_retry_delay w f w'
      → reopen_file P path c w ≡ replace_file P path f c w'
  unfolding reopen_file reopened
  reopen_file-opened path n c w w' f few opens =
      bind-at (try_open P max_reopen_retries initial_retry_delay path) (pure (some f))
        (reopened P path c) w w'
        (try_open-Opens path max_reopen_retries n initial_retry_delay w w' f few opens)

  close_old_lem :
      (msg : String) (old : Option P.File) (w : World P) → (close_old P msg old w).0 ≡ ret tt
  unfolding close_old
  close_old_lem msg none w = refl
  close_old_lem msg (some f) w = ground arith

  -- If opening the log file's path fails fewer than 50 times, with a wait after each failure that begins
  -- with 100 milliseconds and doubles up to 5 seconds, and then gives a file, the core goes on with that
  -- file in place of the old one and a handler on it, also where the old file cannot be closed.
  pub reopen_file-log_file :
      (path : String) (n : ℕ) (c : LoggerCore P) (w w' : World P) (f : P.File)
      → str_eq (P.path_clean path) (P.path_clean c.log_file_path) ≡ true
      → n < max_reopen_retries
      → Opens path n initial_retry_delay w f w'
      → (reopen_file P path c w).0 ≡ ret (rebuild_handler P (record c { log_file = f }))
  unfolding replace_file
  reopen_file-log_file path n c w w' f same few opens =
      ap (λ r. r.0) (reopen_file-opened path n c w w' f few opens)
      ∙ ground
          (arith, close_old_lem "logger: failed to close old log file: %v" (some c.log_file) w')

  -- The milliseconds of a number of attempts that all fail.
  abbrev total_delay : ℕ → ℕ → ℕ
  total_delay zero delay = 0
  total_delay (suc zero) delay = 0
  total_delay (suc (suc n)) delay = delay + total_delay (suc n) (next_delay delay)

  -- A record of what is asked of the platform: how often a file was opened, and for how many milliseconds in
  -- all a sleep was asked.
  pub record Asked : Type 0 where
    pub openings : P.State → ℕ
    pub delays : P.State → ℕ
    pub opening :
        (path : String) (s : P.State)
        → (openings (P.open_append path s).1 ≡ suc (openings s))
          × (delays (P.open_append path s).1 ≡ delays s)
    pub sleeping :
        (ms : ℕ) (s : P.State)
        → (openings (P.sleep ms s) ≡ openings s) × (delays (P.sleep ms s) ≡ delays s + ms)
