-- ===== src/Rest/Middleware.antt =====
-- server/rest/middleware: the chain around every endpoint. A handler changes an exchange, which is the
-- process together with the response; it gets the request with its context.
use boilerplate_go_be.Base.{
  ℕ, String, str_append, true, false, ◌||◌, Option, none, some, List, [], ◌∷◌, ◌++◌, ◌==◌, str_eq,
  trim_prefix, contains, if◌then◌else◌,
}
use boilerplate_go_be.Code.{
  Code, err_missing_token, err_token_expired, err_invalid_token, err_internal_server_error,
  err_not_found, err_method_not_allowed,
}
use boilerplate_go_be.Runtime.{
  Result, Error, as_validation, ok, err, ret, Prog, pure, recover_with, ◌>>=◌, ◌>>◌,
}
use boilerplate_go_be.Logger.{Log, error}
use boilerplate_go_be.Aggregators.{new_repository, new_outbound}
use boilerplate_go_be.Platform.{Platform}
use boilerplate_go_be.World.{World, log_f, the_cfg, unique_id_by_time}
use boilerplate_go_be.World.Ctx.{
  Ctx, set_user_ctx, get_logger_from_context, set_logger_to_context, set_repo_ctx, set_outbound_ctx,
  set_token_ctx,
}
use boilerplate_go_be.Logging.{new_logger}
use boilerplate_go_be.Jwt.{get_jwt_service, parse_jwt}
use boilerplate_go_be.Supervisor.{request_restart}
use boilerplate_go_be.Rest.{
  Chunk, plain_text, problem, Layer, Reply, header_set, header_add, header_get, error_envelope,
}

pub record Exchange (P : Platform) : Type 0 where
  pub world : World P
  pub reply : Reply

-- Of a request, the headers that the middlewares read, the context, and what routing and decoding read.
pub record Request (P : Platform) : Type 0 where
  pub ctx : Ctx P
  pub method : String
  pub path : String
  pub content : String
  pub authorization : String
  pub parent_id : String

abbrev pub Handler : Platform → Type 0
Handler P = Request P → Prog (Exchange P) (Unit {0})

-- `WriteHeader` on the response itself: a second call has no effect.
abbrev send_header : ℕ → Reply → Reply
send_header code r = elim r.sent [ none ↦ record r { sent = some (code, r.header) } | some _ ↦ r ]

-- `WriteHeader` through the intercepting writers.
unfoldable pub write_header_at : List Layer → ℕ → Reply → List Layer × Reply
write_header_at [] code r = ([], send_header code r)
write_header_at (l ∷ outer) code r =
    let (outer', r') = write_header_at outer code r in
    if (code == 404 || code == 405)
    then (if contains (header_get "Content-Type" r.header) "json"
        then (record l { status = code } ∷ outer', r')
        else (record { status = code; intercepted = true } ∷ outer, r))
    else (record l { status = code } ∷ outer', r')

unfoldable pub write_header : ℕ → Reply → Reply
unfolding write_header_at
write_header code r =
    let (layers, r') = write_header_at r.layers code r in record r' { layers = layers }

-- `Write`: the first one sends status 200.
unfoldable pub write_at : List Layer → Chunk → Reply → Reply
write_at [] c r = record (send_header 200 r) { body = r.body ++ c ∷ [] }
write_at (l ∷ outer) c r = let written = write_at outer c r in if l.intercepted then r else written

unfoldable pub write : Chunk → Reply → Reply
unfolding write_at
write c r = write_at r.layers c r

-- `http.Error`.
unfoldable pub http_error : String → ℕ → Reply → Reply
unfolding write write_header
http_error msg code r = write (plain_text msg) (
    write_header code (record r {
      header =
          header_set "X-Content-Type-Options" "nosniff"
            (header_set "Content-Type" "text/plain; charset=utf-8" r.header);
    }))

add_all : List (String × String) → List (String × String) → List (String × String)
add_all [] h = h
add_all ((k, v) ∷ rest) h = add_all rest (header_add k v h)

unfoldable pub write_error : Code → List (String × String) → Reply → Reply
unfolding add_all write write_header
write_error c headers r = write (problem (error_envelope c.http_code c.message)) (
    write_header c.http_code (record r {
      header = header_set "Content-Type" "application/problem+json" (add_all headers r.header);
    }))

module _ (P : Platform) where
  -- A step of the process, and a step of the response.
  abbrev pub in_world : {A : Type 0} → Prog (World P) A → Prog (Exchange P) A
  in_world m x = let (o, w) = m x.world in (o, record x { world = w })

  abbrev pub respond : (Reply → Reply) → Prog (Exchange P) (Unit {0})
  respond f x = (ret tt, record x { reply = f x.reply })

  abbrev pub realm_of : World P → String
  realm_of w = elim w.cfg [
    | none ↦ "example"
    | some cfg ↦ if str_eq cfg.app_name "" then "example" else cfg.app_name
  ]

  abbrev pub challenge : String → String → String
  challenge realm rest = str_append "Bearer realm=\"" (str_append realm (str_append "\"" rest))

  abbrev invalid : String → Reply → Reply
  invalid realm = write_error err_invalid_token (
      (
        "WWW-Authenticate",
        challenge realm ", error=\"invalid_token\", error_description=\"The token is invalid\"",
      )
      ∷ [])

  unfoldable pub refuse : String → Error → Reply → Reply
  refuse realm e = elim (as_validation e) [
    | some true ↦ write_error err_token_expired (
        (
          "WWW-Authenticate",
          challenge realm
              ", error=\"invalid_token\", error_description=\"The access token expired\"",
        )
        ∷ [])
    | some false ↦ invalid realm
    | none ↦ invalid realm
  ]

  -- The token of the `Authorization` header.
  abbrev pub bearer : Request P → String
  bearer r = trim_prefix r.authorization "Bearer "

  unfoldable pub authenticate : Handler P → Request P → Log → String → Prog (Exchange P) (Unit {0})
  unfolding refuse
  authenticate next r log realm = do
    svc ← in_world (get_jwt_service P)
    parsed ← in_world (parse_jwt P svc (bearer r))
    elim parsed.1 [
      | none ↦ next (record r { ctx = set_user_ctx r.ctx parsed.0 })
      | some e ↦ do
        in_world (log_f log error "This token invalid because: %v")
        respond (refuse realm e)
    ]

  unfoldable pub auth_middleware : Handler P → Handler P
  unfolding authenticate
  auth_middleware next r x = elim (get_logger_from_context r.ctx) [
    | none ↦ respond (http_error "logger missing" 500) x
    | some log ↦
        if str_eq (bearer r) ""
        then respond
            (write_error err_missing_token
              (("WWW-Authenticate", challenge (realm_of x.world) "") ∷ []))
            x
        else authenticate next r log (realm_of x.world) x
  ]

  -- `WrapHTTPMiddleware`: what follows sees the request as the middleware passes it on.
  unfoldable pub wrap_http_middleware : (Handler P → Handler P) → Handler P → Handler P
  wrap_http_middleware mw next r x = mw (λ passed. next passed) r x

  unfoldable pub push_layer : Reply → Reply
  push_layer r = record r { layers = record { status = 0; intercepted = false } ∷ r.layers }

  -- The innermost writer goes, and what it has intercepted is answered.
  unfoldable pub pop_layer : List Layer → Reply → Reply
  pop_layer [] r = r
  pop_layer (l ∷ outer) r =
      if l.intercepted
      then write_error (if l.status == 404 then err_not_found else err_method_not_allowed) []
          (record r { layers = outer })
      else record r { layers = outer }

  unfoldable pub error_format_middleware : Handler P → Handler P
  unfolding push_layer pop_layer
  error_format_middleware next r = do
    respond push_layer
    next r
    respond (λ reply. pop_layer reply.layers reply)

  -- An answer with status 500, after which there is no logger.
  unfoldable pub failed : String → Prog (Exchange P) (Option Log)
  failed msg = do respond (http_error msg 500); pure none

  -- With a dash before an identifier that is made here.
  unfoldable pub dashed : Result String → Result String
  dashed (ok id) = ok (str_append "-" id)
  dashed (err e) = err e

  -- The identifier of the caller, or a fresh one.
  unfoldable pub parent_of : Request P → Prog (Exchange P) (Result String)
  unfolding dashed
  parent_of r =
      if str_eq r.parent_id ""
      then (do made ← in_world unique_id_by_time; pure (dashed made))
      else pure (ok r.parent_id)

  -- The first part of `LoggerMiddleware`: none where it answers with an error and returns.
  unfoldable pub request_logger : Request P → Prog (Exchange P) (Option Log)
  unfolding parent_of failed
  request_logger r = do
    parent ← parent_of r
    elim parent [
      | err e ↦ failed "ID generation failed"
      | ok parent_id ↦ do
        child ← in_world unique_id_by_time
        elim child [
          | err e ↦ failed "ID generation failed"
          | ok child_id ↦ do
            cfg ← in_world the_cfg
            made ← in_world (new_logger P cfg.log_target parent_id child_id)
            elim made [ err e ↦ failed "Logger init failed" | ok log ↦ pure (some log) ]
        ]
    ]

  unfoldable pub logger_middleware : Handler P → Handler P
  unfolding request_logger
  logger_middleware next r = do
    made ← request_logger r
    elim made [
      | none ↦ pure tt
      | some log ↦ next (record r { ctx = set_logger_to_context r.ctx log })
    ]

  unfoldable pub service_middleware : Handler P → Handler P
  service_middleware next r x = elim (get_logger_from_context r.ctx) [
    | none ↦ respond (http_error "logger missing" 500) x
    | some log ↦
        next
          (record r {
            ctx =
                set_token_ctx
                  (set_outbound_ctx (set_repo_ctx r.ctx (new_repository log)) (new_outbound log))
                  (bearer r);
          })
          x
  ]

  unfoldable pub restore : List Layer → Reply → Reply
  restore layers r = record r { layers = layers }

  unfoldable pub report : Log → Option Error → Prog (World P) (Unit {0})
  report log none = pure tt
  report log (some e) = log_f log error "restart request failed: %v"

  -- The deferred function of `RecoverMiddleware`, which writes to its own writer, not to those that
  -- inner middlewares have wrapped around it.
  unfoldable pub on_panic : Log → List Layer → Prog (Exchange P) (Unit {0})
  unfolding report restore
  on_panic log layers = do
    in_world (log_f log error "Recovered panic: %v\nStack trace:\n%s")
    respond (restore layers)
    respond (λ r. record r { header = header_set "X-Recovered-By" "RecoverMiddleware" r.header })
    respond (write_error err_internal_server_error [])
    asked ← in_world (request_restart P)
    in_world (report log asked)

  unfoldable pub recover_middleware : Log → Handler P → Handler P
  unfolding on_panic
  recover_middleware global next r x =
      recover_with (next r)
        (λ _.
          on_panic (elim (get_logger_from_context r.ctx) [ some l ↦ l | none ↦ global ])
            x.reply.layers)
        x
