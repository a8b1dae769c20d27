-- ===== src/Servers/Once.antt =====
-- The `sync.Once` values of cmd: one server, one shutdown.
use boilerplate_go_be.Base.{◌≡◌, refl, arith, inl, inr, true, false, Option, Option-cases, none}
use boilerplate_go_be.Runtime.{Error, ret}
use boilerplate_go_be.Config.{Config}
use boilerplate_go_be.Logger.{Log}
use boilerplate_go_be.Platform.{Platform}
use boilerplate_go_be.World.{log_f}
use boilerplate_go_be.Servers.{Network, App}
use boilerplate_go_be.Servers.Http.{create_rest, get_rest_server, shutdown_rest, port_is_valid}

module _ {P : Platform} (N : Network P) where
  -- A call of `GetRESTServer` after the first one changes nothing, whatever configuration and logger it
  -- gets, and returns the server that is there, or none where the first call made none.
  pub get_rest_server_again :
      (cfg : Config) (log : Log) (a : App N)
      → a.rest.create_once ≡ true
      → get_rest_server N cfg log a ≡ (ret a.rest.instance_, a)
  unfolding get_rest_server
  get_rest_server_again cfg log a spent = rw spent refl

  -- After a first call with a port that is not empty, not 0 and no number, there is no server, and no later
  -- call makes one, even with a valid configuration.
  pub get_rest_server-invalid :
      (cfg cfg' : Config) (log log' : Log) (a : App N)
      → a.rest.create_once ≡ false
      → a.rest.instance_ ≡ none
      → port_is_valid cfg.rest.port ≡ false
      → ((get_rest_server N cfg log a).0 ≡ ret none)
        × ((get_rest_server N cfg' log' (get_rest_server N cfg log a).1).0 ≡ ret none)
  unfolding get_rest_server create_rest log_f
  get_rest_server-invalid cfg cfg' log log' a fresh missing invalid = (ground arith, ground arith)

  -- A shutdown of the REST server that returns is the only one: another call changes nothing and reports
  -- no error.
  pub shutdown_rest-once :
      (a : App N) (e : Option Error)
      → (shutdown_rest N a).0 ≡ ret e
      → shutdown_rest N (shutdown_rest N a).1 ≡ (ret none, (shutdown_rest N a).1)
  unfolding shutdown_rest log_f
  shutdown_rest-once a e returned = elim (Option-cases a.rest.instance_) [
    | inl missing ↦ ground arith
    | inr (s, there) ↦ ground (arith, there)
  ]
