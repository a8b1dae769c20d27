-- ===== src/Servers/Signals.antt =====
-- `Run` of pkg/lifecycle on a signal, with the REST build.
use boilerplate_go_be.Base.{
  seconds, Option, Option-cases, inl, inr, ◌≡◌, arith, true, false, none, some,
}
use boilerplate_go_be.Runtime.{ret, Error}
use boilerplate_go_be.Config.{Config}
use boilerplate_go_be.Platform.{Platform}
use boilerplate_go_be.World.{log_f, the_cfg}
use boilerplate_go_be.Servers.{Network, App, RestServer, rest_build}
use boilerplate_go_be.Servers.Http.{close_rest_listener, shutdown_rest}
use boilerplate_go_be.Servers.Lifecycle.{
  log_shutdown, signalled, run, close_server_listener, shutdown_server,
}

module _ {P : Platform} (N : Network P) where
  -- The lines that `Run` writes after the shutdown.
  abbrev pub after_shutdown : Option Error × P.State → P.State
  after_shutdown (none, s) = P.std_log "Application stopped gracefully." s
  after_shutdown (some _, s) =
      P.std_log "Application stopped gracefully." (P.std_log "Error shutting down server:" s)

  -- On a signal, with the REST server registered, listening and not shut down yet, `Run` returns after it
  -- has closed the listener and then shut the HTTP server down with the write timeout, and done nothing else
  -- outside but log, also where closing or the shutdown fails; the listener is gone and the one shutdown is spent.
  pub run-stops :
      (a : App N) (s : RestServer N) (ln : N.Listener) (cfg : Config)
      → a.close_fn ≡ some rest_build
      → a.shutdown_fn ≡ some rest_build
      → a.rest.instance_ ≡ some s
      → s.listener ≡ some ln
      → a.rest.shutdown_once ≡ false
      → a.world.cfg ≡ some cfg
      → ((run N signalled a).0 ≡ ret tt)
        × ((run N signalled a).1.rest.instance_ ≡ some (record s { listener = none }))
        × ((run N signalled a).1.rest.shutdown_once ≡ true)
        × ((run N signalled a).1.world.outside
            ≡ after_shutdown (
                N.shutdown_http
                  (seconds cfg.server.timeout.write)
                  (N.close_listener ln (P.std_log "Received signal:" a.world.outside)).1))
  unfolding run close_server_listener shutdown_server close_rest_listener shutdown_rest log_f
      the_cfg log_shutdown
  run-stops a s ln cfg close shutdown there listening open_ loaded =
      let closed = (N.close_listener ln (P.std_log "Received signal:" a.world.outside)).1 in
      let stopped = N.shutdown_http (seconds cfg.server.timeout.write) closed in
      (
        ground arith,
        ground arith,
        ground arith,
        elim (Option-cases stopped.0) [ inl fine ↦ ground arith | inr (e, broken) ↦ ground arith ],
      )
