-- ===== src/Daemon.antt =====
-- examples/systemd/supervisor: the daemon that the service's client talks to over a Unix socket. `Host` is
-- what it runs on; a command's output and a line are lists of code points, times are nanoseconds.
pub mod Waiting
pub mod Calls
pub mod Protocol
use boilerplate_go_be.Base.{
  seconds, second, ℕ, zero, suc, ◌+◌, ◌-◌, ◌*◌, ◌^◌, ◌%◌, ◌≤◌, ℤ, pos, negsuc, ltb, leb, ◌==◌,
  int_eq, str_append, Bool, true, false, ◌&&◌, String, Option, none, some, List, [], ◌∷◌, str_eq,
  if◌then◌else◌, Runes, codes, is_empty, trim_space, fields, split_on, trim_prefix_text, atoi,
  codes_eq,
}
use boilerplate_go_be.Runtime.{Error, new, wrap, Prog, pure, lift, gets, modify, ◌>>=◌, ◌>>◌}

pub record Host : Type 1 where
  pub State : Type 0
  -- the connection: `ReadString('\n')` and `Close`
  pub read_line : State → (Runes × Option Error) × State
  pub close_conn : State → Option Error × State
  -- `systemctl VERB UNIT`, and the output and error of `systemctl is-active UNIT`
  pub systemctl : String → Runes → State → Option Error × State
  pub is_active : Runes → State → (Runes × Option Error) × State
  pub now : State → ℕ
  pub sleep : ℕ → State → State
  pub getenv : String → Runes
  pub log_printf : String → State → State
  -- the listener
  pub remove_all : String → State → Option Error × State
  pub listen : String → State → Option Error × State
  pub chmod : String → ℕ → State → Option Error × State
  pub accept : State → Option Error × State
  pub close_listener : State → Option Error × State

-- Whether `now` is after `from` plus a duration.
unfoldable pub is_after : ℕ → ℕ → ℤ → Bool
is_after now from (pos d) = ltb (from + d) now
is_after now from (negsuc d) = ltb from (now + suc d)

-- How the wait for the temporary unit ends; `waiting` where the fuel has run out.
pub data Wait : Type 0 where
  ended waiting : Wait

module _ (H : Host) where
  abbrev log_printf : String → Prog H.State (Unit {0})
  log_printf msg = modify (H.log_printf msg)

  abbrev log_error : String → Option Error → Prog H.State (Unit {0})
  log_error msg none = pure tt
  log_error msg (some e) = log_printf msg

  active_output : Runes × Option Error → Bool
  active_output (out, none) = codes_eq (trim_space out) (codes "active")
  active_output (out, some e) = false

  -- The loop that waits for a started unit, from the time `from` on for a duration.
  unfoldable pub wait_active : ℕ → ℕ → ℤ → Runes → Prog H.State Wait
  unfolding active_output
  wait_active zero from d tmp = pure waiting
  wait_active (suc fuel) from d tmp = do
    answered ← lift (H.is_active tmp)
    elim (active_output answered) [
      | true ↦ pure ended
      | false ↦ do
        now ← gets H.now
        elim (is_after now from d) [
          | true ↦ do log_printf "temporary service not active: %v %s"; pure ended
          | false ↦ do modify (H.sleep second); wait_active fuel from d tmp
        ]
    ]

  -- The temporary unit, if the message names one.
  unfoldable pub start_temporary : ℕ → ℤ → List Runes → Prog H.State Wait
  start_temporary fuel timeout [] = pure ended
  start_temporary fuel timeout (tmp_part ∷ _) =
      let tmp = trim_space tmp_part in
      if is_empty tmp then pure ended else (do
        started ← lift (H.systemctl "start" tmp)
        elim started [
          | some e ↦ do log_printf "systemctl start %s failed: %v"; pure ended
          | none ↦ do from ← gets H.now; wait_active fuel from (seconds timeout) tmp
        ])

  abbrev or_zero : Option ℤ → ℤ
  or_zero none = pos 0
  or_zero (some z) = z

  abbrev given_timeout : List Runes → ℤ
  given_timeout [] = pos 0
  given_timeout (t ∷ _) = or_zero (atoi t)

  -- From the message, else the environment, else 30.
  unfoldable pub timeout_of : List Runes → ℤ
  timeout_of rest =
      let given = given_timeout rest in
      let env = or_zero (atoi (H.getenv "TEMP_SERVICE_ACTIVE_TIMEOUT")) in
      if int_eq given (pos 0) then (if int_eq env (pos 0) then pos 30 else env) else given

  unfoldable pub restart_main : Runes → Wait → Prog H.State Wait
  restart_main main_svc waiting = pure waiting
  restart_main main_svc ended = do
    restarted ← lift (H.systemctl "restart" main_svc)
    log_error "systemctl restart %s failed: %v" restarted
    pure ended

  -- The units that the first word of the argument names.
  unfoldable pub restart_parts : ℕ → ℤ → List Runes → Prog H.State Wait
  unfolding restart_main
  restart_parts fuel timeout [] = pure ended
  restart_parts fuel timeout (main_part ∷ parts) =
      let main_svc = trim_space main_part in
      if is_empty main_svc
      then pure ended
      else (do waited ← start_temporary fuel timeout parts; restart_main main_svc waited)

  unfoldable pub restart_words : ℕ → List Runes → Prog H.State Wait
  unfolding restart_parts
  restart_words fuel [] = pure ended
  restart_words fuel (units ∷ rest) = restart_parts fuel (timeout_of rest) (split_on b',' units)

  unfoldable pub stop_unit : Runes → Prog H.State Wait
  stop_unit svc = if is_empty svc then pure ended else (do
    stopped ← lift (H.systemctl "stop" svc)
    log_error "systemctl stop %s failed: %v" stopped
    pure ended)

  -- The switch on the command of a trimmed line.
  unfoldable pub command : ℕ → Runes → List Runes → Prog H.State Wait
  unfolding restart_words stop_unit
  command fuel line [] = pure ended
  command fuel line (cmd_name ∷ _) =
      let arg = trim_space (trim_prefix_text line cmd_name) in
      if codes_eq cmd_name (codes "stop")
      then stop_unit (trim_space arg)
      else if codes_eq cmd_name (codes "restart")
      then restart_words fuel (fields arg)
      else pure ended

  -- What is done with a line that was read.
  unfoldable pub serve_line : ℕ → Runes × Option Error → Prog H.State Wait
  unfolding command
  serve_line fuel (got, some e) = do log_printf "read error: %v"; pure ended
  serve_line fuel (got, none) =
      let line = trim_space got in
      if is_empty line then pure ended else command fuel line (fields line)

  -- `handle` without its deferred close.
  unfoldable pub serve : ℕ → Prog H.State Wait
  unfolding serve_line
  serve fuel = do got ← lift H.read_line; serve_line fuel got

  unfoldable pub close_after : Wait → Prog H.State Wait
  close_after waiting = pure waiting
  close_after ended = do
    closed ← lift H.close_conn
    log_error "Failed to close connection: %v" closed
    pure ended

  unfoldable pub handle : ℕ → Prog H.State Wait
  unfolding close_after
  handle fuel = do served ← serve fuel; close_after served

  -- The accept loop of `Listen`, which has no end: after `n` rounds. A connection is handled in a
  -- goroutine of its own; here that runs to its end at once.
  unfoldable pub accept_rounds : ℕ → ℕ → Prog H.State (Unit {0})
  accept_rounds fuel zero = pure tt
  accept_rounds fuel (suc n) = do
    accepted ← lift H.accept
    (elim accepted [ some e ↦ log_printf "accept error: %v" | none ↦ do _ ← handle fuel; pure tt ])
    accept_rounds fuel n

  -- `Listen` up to `n` rounds of its loop; `none` while it listens.
  unfoldable pub listen_for : ℕ → ℕ → String → Prog H.State (Option Error)
  unfolding accept_rounds
  listen_for fuel n socket =
      if str_eq socket "" then pure (some (new "no socket specified")) else (do
        removed ← lift (H.remove_all socket)
        elim removed [
          | some e ↦ pure (some (wrap "failed to remove old socket" e))
          | none ↦ do
            listening ← lift (H.listen socket)
            elim listening [
              | some e ↦ pure (some (wrap "listen error" e))
              | none ↦ do
                changed ← lift (H.chmod socket 432)
                log_error "Failed to chmod socket: %v" changed
                accept_rounds fuel n
                pure none
            ]
        ])
