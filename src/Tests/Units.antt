-- ===== src/Tests/Units.antt =====
-- Witnesses for the supervisor daemon, on a host with a clock and a list of the commands it ran.
use boilerplate_go_be.Base.{
  seconds, atoi, split_on, trim_prefix_text, fields, trim_space, is_space, ltb, ℕ, ◌+◌, arith, refl,
  ◌≡◌, String, str_append, if◌then◌else◌, none, List, [], ◌∷◌, Runes, codes,
}
use boilerplate_go_be.Runtime.{ret, ◌>>=◌}
use boilerplate_go_be.Supervisor.{restart_message}
use boilerplate_go_be.Daemon.{
  is_after, wait_active, timeout_of, close_after, start_temporary, stop_unit, serve, Host, ended,
  handle,
}
use boilerplate_go_be.Daemon.Waiting.{Clock, handle-ended}
use boilerplate_go_be.Daemon.Calls.{start_and_wait, restart_and_close}
use boilerplate_go_be.Daemon.Protocol.{handle-restart_message, handle-stop_message}
use boilerplate_go_be.Tests.Memory.{Memory}

record Machine : Type 0 where
  clock : ℕ
  commands : List (String × Runes)

abbrev ran : String → Runes → Machine → Machine
ran verb unit m = record m { commands = (verb, unit) ∷ m.commands }

-- The line is read once; a unit is active once the time given is over.
abbrev machine : Runes → ℕ → Host
machine line ready = record {
  State = Machine;
  read_line = λ m. ((line, none), m);
  close_conn = λ m. (none, m);
  systemctl = λ verb unit m. (none, ran verb unit m);
  is_active =
      λ unit m. ((if ltb m.clock ready then codes "inactive\n" else codes "active\n", none), m);
  now = λ m. m.clock;
  sleep = λ n m. record m { clock = m.clock + n };
  getenv = λ _. [];
  log_printf = λ _ m. m;
  remove_all = λ _ m. (none, m);
  listen = λ _ m. (none, m);
  chmod = λ _ _ m. (none, m);
  accept = λ m. (none, m);
  close_listener = λ m. (none, m);
}

abbrev restart_line : Runes
restart_line = codes (str_append (restart_message Memory "shop" "shop-temp") "\n")

abbrev stop_line : Runes
stop_line = codes (str_append (str_append "stop " "shop-temp") "\n")

abbrev booted : Machine
booted = record { clock = 0; commands = [] }

machine-Clock : (line : Runes) (ready : ℕ) → Clock (machine line ready)
machine-Clock line ready = record { asked = λ _ m. ground arith; slept = λ n m. ground arith }

-- A word of ASCII letters and dashes has no blank.
handle-ended_example : (handle (machine restart_line 3) 9223372038 booted).0 ≡ ret ended
handle-ended_example =
    handle-ended (machine restart_line 3) (machine-Clock restart_line 3) 9223372037 booted
      (ground arith)

handle-stop_message_example :
    handle (machine stop_line 0) 1 booted
    ≡ (do
      stopped ← stop_unit (machine stop_line 0) (codes "shop-temp")
      close_after (machine stop_line 0) stopped)
        booted
unfolding is_space
handle-stop_message_example =
    handle-stop_message (machine stop_line 0) 1 "shop-temp" booted booted refl (ground arith) refl

handle-restart_message_example :
    handle (machine restart_line 3) 1 booted
    ≡ (do
      waited ← start_and_wait (machine restart_line 3) 1 (codes "shop-temp")
      restart_and_close (machine restart_line 3) (codes "shop") waited)
        booted
unfolding is_space restart_message
handle-restart_message_example =
    handle-restart_message (machine restart_line 3) Memory 1 "shop" "shop-temp" booted booted refl
      (ground arith) (ground arith) refl

-- The commands of a whole exchange, the last one first.
ran_restart :
    (handle (machine restart_line 3) 9 booted).1.commands
    ≡ ("restart", codes "shop") ∷ ("start", codes "shop-temp") ∷ []
unfolding handle restart_message serve trim_space is_space fields trim_prefix_text split_on
    start_temporary wait_active is_after seconds timeout_of atoi
ran_restart = refl
