-- ===== src/Supervisor.antt =====
-- infrastructure/supervisor: the client of the supervisor's socket, in both builds.
use boilerplate_go_be.Base.{
  inr, arith, inl, Bool-cases, ◌≡◌, String, str_append, not, ◌&&◌, ◌||◌, Option, none, some, str_eq,
  lower_is, if◌then◌else◌,
}
use boilerplate_go_be.Runtime.{ret, Error, new, Prog, pure}
use boilerplate_go_be.Platform.{Platform}
use boilerplate_go_be.World.{World, call}

module _ (P : Platform) where
  -- `dial_and_write` dials, writes and closes; what it returns is the error of the dial or the write: the
  -- deferred function sets a local variable after the result is set, so a close error is lost.
  unfoldable pub send_to_supervisor : String → Prog (World P) (Option Error)
  send_to_supervisor msg =
      if str_eq (P.getenv "SUPERVISOR_SOCKET") ""
      then pure (some (new "no suitable socket found"))
      else call P (P.dial_and_write (P.getenv "SUPERVISOR_SOCKET") (str_append msg "\n"))

  -- The message for a main and a temporary unit.
  unfoldable pub restart_message : String → String → String
  restart_message main_unit temp =
      if str_eq temp ""
      then str_append "restart " main_unit
      else str_append (str_append "restart " main_unit) (str_append "," temp)

  -- client_systemd.go under the build tag, else client_default.go.
  unfoldable pub request_restart : Prog (World P) (Option Error)
  unfolding send_to_supervisor restart_message
  request_restart =
      if not P.systemd || lower_is (P.getenv "TEMP_SERVICE") "true"
      then pure none
      else if str_eq (P.getenv "SELF_SERVICE_UNIT") ""
      then pure none
      else send_to_supervisor
          (restart_message (P.getenv "SELF_SERVICE_UNIT") (P.getenv "TEMP_SERVICE_UNIT"))

  unfoldable pub on_start_up : Prog (World P) (Option Error)
  unfolding send_to_supervisor
  on_start_up =
      if not P.systemd
        || (not (str_eq (P.getenv "TEMP_SERVICE") "")
            && not (lower_is (P.getenv "TEMP_SERVICE") "false"))
      then pure none
      else if str_eq (P.getenv "TEMP_SERVICE_UNIT") ""
      then pure none
      else send_to_supervisor (str_append "stop " (P.getenv "TEMP_SERVICE_UNIT"))

  -- The call never panics and never ends the process.
  pub request_restart-returns : (w : World P) → (e : Option Error) × ((request_restart w).0 ≡ ret e)
  unfolding request_restart send_to_supervisor
  request_restart-returns w =
      elim (Bool-cases (not P.systemd || lower_is (P.getenv "TEMP_SERVICE") "true")) [
        | inl off ↦ (none, ground arith)
        | inr on ↦ elim (Bool-cases (str_eq (P.getenv "SELF_SERVICE_UNIT") "")) [
          | inl unset ↦ (none, ground arith)
          | inr set ↦ elim (Bool-cases (str_eq (P.getenv "SUPERVISOR_SOCKET") "")) [
            | inl missing ↦ (some (new "no suitable socket found"), ground arith)
            | inr there ↦ (
              (P.dial_and_write (P.getenv "SUPERVISOR_SOCKET")
                  (str_append
                    (restart_message (P.getenv "SELF_SERVICE_UNIT") (P.getenv "TEMP_SERVICE_UNIT"))
                    "\n")
                  w.outside).0,
              ground arith,
            )
          ]
        ]
      ]
