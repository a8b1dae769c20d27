-- ===== src/Servers/Http.antt =====
-- cmd/start_rest.go: the REST server. The routes and the handler are registrations with the routers.
use boilerplate_go_be.Base.{
  String, str_append, Bool, true, false, ◌&&◌, not, Option, none, some, List, [], ◌∷◌, ◌++◌, str_eq,
  ◌==◌, is_empty, codes, atoi, seconds, if◌then◌else◌, Runes,
}
use boilerplate_go_be.Runtime.{
  ret, Error, new, wrap, Result, ok, err, Prog, pure, lift, modify, gets, ◌>>=◌, ◌>>◌,
}
use boilerplate_go_be.Config.{Config}
use boilerplate_go_be.Logger.{Log, error}
use boilerplate_go_be.Paths.{api_base}
use boilerplate_go_be.Platform.{Platform}
use boilerplate_go_be.World.{call, log_f, the_cfg}
use boilerplate_go_be.Servers.{
  Network, App, RestServer, rest_build, in_world, info_f, close_done, notify_ready, register,
  finish, start_with,
}

-- `strings.TrimSuffix(s, "/")`.
unfoldable pub trim_last_slash : Runes → Runes
trim_last_slash [] = []
trim_last_slash (c ∷ s) =
    let rest = trim_last_slash s in if is_empty s && (c == b'/') then [] else c ∷ rest

-- Whether `GetRESTServer` takes the port: empty, 0, or a number.
unfoldable pub port_is_valid : String → Bool
port_is_valid port =
    if not (str_eq port "") && not (str_eq port "0")
    then (elim (atoi (codes port)) [ some _ ↦ true | none ↦ false ])
    else true

abbrev if_set : String → Option String
if_set s = if str_eq s "" then none else some s

-- The routes of `logRoutes`, each with its methods.
unfoldable pub add_route :
    String → String → List (String × List String) → List (String × List String)
add_route method route [] = (route, method ∷ []) ∷ []
add_route method route ((r, ms) ∷ rest) =
    if str_eq r route then (r, ms ++ method ∷ []) ∷ rest else (r, ms) ∷ add_route method route rest

unfoldable pub route_map :
    List (String × String) → List (String × List String) → List (String × List String)
unfolding add_route
route_map [] m = m
route_map ((method, route) ∷ rest) m = route_map rest (add_route method route m)

module _ {P : Platform} (N : Network P) where
  -- What the server's configuration says of the API and its address.
  unfoldable pub rest_server_of : Config → Log → RestServer N
  unfolding seconds
  rest_server_of cfg log =
      let base = api_base (codes cfg.server.endpoint.based) in
      record {
        addr = str_append cfg.rest.host (str_append ":" cfg.rest.port);
        base = base;
        public_server =
            if str_eq cfg.open_api.servers.public_url ""
            then none
            else some (trim_last_slash (codes cfg.open_api.servers.public_url) ++ base);
        open_api_version = if_set cfg.open_api.version;
        docs_path = if_set cfg.open_api.docs.public_docs.url;
        internal_docs =
            if str_eq cfg.open_api.docs.internal_docs.url ""
            then none
            else some (
              cfg.open_api.docs.internal_docs.url,
              str_append cfg.open_api.docs.internal_docs.url "/openapi",
            );
        read_timeout = seconds cfg.server.timeout.read;
        write_timeout = seconds cfg.server.timeout.write;
        idle_timeout = seconds cfg.server.timeout.idle;
        listener = none;
        logger = log;
      }

  -- A line for each route.
  unfoldable pub log_each : Log → List (String × List String) → Prog (App N) (Unit {0})
  log_each log [] = pure tt
  log_each log (r ∷ rest) = do info_f N log "%s %s"; log_each log rest

  unfoldable pub log_routes : Log → Prog (App N) (Option Error)
  unfolding log_each
  log_routes log = elim N.walk [
    | err e ↦ pure (some e)
    | ok routes ↦ (do log_each log (route_map routes []); pure none)
  ]

  abbrev pub set_instance : RestServer N → Prog (App N) (Unit {0})
  set_instance s = modify (λ a. record a { rest = record (a.rest) { instance_ = some s } })

  -- The body of `restCreateOnce`.
  unfoldable pub create_rest : Config → Log → Prog (App N) (Unit {0})
  create_rest cfg log =
      if port_is_valid cfg.rest.port
      then (do
        info_f N log "Registered routes:"
        walked ← log_routes log
        elim walked [
          | some e ↦ in_world N (log_f log error "walk error")
          | none ↦ set_instance (rest_server_of cfg log)
        ])
      else in_world N (log_f log error "invalid REST port %q: %v")

  unfoldable pub get_rest_server : Config → Log → Prog (App N) (Option (RestServer N))
  unfolding create_rest
  get_rest_server cfg log = do
    spent ← gets (λ a. a.rest.create_once)
    (if spent then pure tt else (do
      modify (λ a. record a { rest = record (a.rest) { create_once = true } })
      create_rest cfg log))
    gets (λ a. a.rest.instance_)

  -- `strconv.ParseBool`.
  unfoldable pub parse_bool : String → Option Bool
  parse_bool s =
      if str_eq s "1"
      then some true
      else if str_eq s "t"
      then some true
      else if str_eq s "T"
      then some true
      else if str_eq s "true"
      then some true
      else if str_eq s "TRUE"
      then some true
      else if str_eq s "True"
      then some true
      else if str_eq s "0"
      then some false
      else if str_eq s "f"
      then some false
      else if str_eq s "F"
      then some false
      else if str_eq s "false"
      then some false
      else if str_eq s "FALSE"
      then some false
      else if str_eq s "False"
      then some false
      else none

  -- Whether to take the socket of systemd; none for a value that is no Boolean.
  unfoldable pub use_socket : Option Bool
  unfolding parse_bool
  use_socket = elim (N.lookup_env "SYSTEMD_SOCKET_ACTIVATION") [
    | none ↦ some false
    | some v ↦ parse_bool v
  ]

  unfoldable pub first_listener : Result (List N.Listener) → Result N.Listener
  first_listener (err e) = err e
  first_listener (ok []) = err (new "no systemd listeners found")
  first_listener (ok (ln ∷ _)) = ok ln

  -- The listener of systemd or one of its own.
  unfoldable pub choose_listener : RestServer N → Option Bool → Prog (App N) (Result N.Listener)
  unfolding first_listener
  choose_listener s none =
      pure (err (wrap "invalid value for SYSTEMD_SOCKET_ACTIVATION" (new "invalid syntax")))
  choose_listener s (some true) = do
    listeners ← in_world N (call P N.systemd_listeners)
    pure (first_listener listeners)
  choose_listener s (some false) = in_world N (call P (N.listen s.addr))

  -- `StartServer`; it ends when the server does.
  unfoldable pub start_rest_server : RestServer N → Prog (App N) (Option Error)
  unfolding use_socket
  start_rest_server s = do
    listening ← choose_listener s use_socket
    elim listening [
      | err e ↦ pure (some e)
      | ok ln ↦ do
        set_instance (record s { listener = some ln })
        info_f N s.logger "Starting server at "
        notify_ready N
        stopped ← in_world N (lift (N.serve_http ln))
        pure (some stopped)
    ]

  unfoldable pub serve_rest : Log → Prog (App N) (Unit {0})
  serve_rest log = do
    cfg ← in_world N the_cfg
    server ← get_rest_server cfg log
    elim server [
      | none ↦ do info_f N log "Failed to initialize REST server"; close_done N
      | some s ↦ do
        register N rest_build
        ended ← start_rest_server s
        finish N N.server_closed log ended
    ]

  unfoldable pub rest_start : Prog (App N) (Unit {0})
  unfolding serve_rest
  rest_start = start_with N serve_rest

  unfoldable pub close_rest_listener : Prog (App N) (Unit {0})
  close_rest_listener a = elim a.rest.instance_ [
    | none ↦ (ret tt, a)
    | some s ↦ (elim s.listener [
      | none ↦ (ret tt, a)
      | some ln ↦
          ((do
            _ ← in_world N (call P (N.close_listener ln))
            set_instance (record s { listener = none }))
            a)
    ])
  ]

  unfoldable pub shutdown_rest : Prog (App N) (Option Error)
  unfolding the_cfg
  shutdown_rest a = elim a.rest.instance_ [
    | none ↦ (ret none, a)
    | some s ↦
        ((if a.rest.shutdown_once then pure none else (do
          modify (λ a. record a { rest = record (a.rest) { shutdown_once = true } })
          info_f N s.logger "Shutting down the server (via panic or signal)"
          cfg ← in_world N the_cfg
          in_world N (call P (N.shutdown_http (seconds cfg.server.timeout.write)))))
          a)
  ]
