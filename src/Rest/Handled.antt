-- ===== src/Rest/Handled.antt =====
-- The middlewares and the router, each over handlers that neither end the process nor change its database
-- handle or JWT service.
use boilerplate_go_be.Base.{
  lower_is, ◌||◌, not, List, String, Bool, true, false, str_eq, refl, [], ◌∷◌, Option, none, some,
  if◌then◌else◌,
}
use boilerplate_go_be.Runtime.{new, recover_with, Error, ok, Prog}
use boilerplate_go_be.Code.{err_internal_server_error, err_missing_token}
use boilerplate_go_be.Logger.{Log, error}
use boilerplate_go_be.Platform.{Platform}
use boilerplate_go_be.World.{World, log_f, unique_id_by_time, the_cfg}
use boilerplate_go_be.World.Ctx.{get_logger_from_context, set_logger_to_context, set_user_ctx}
use boilerplate_go_be.Logging.{new_logger}
use boilerplate_go_be.Logging.Contained.{new_logger-InWorld}
use boilerplate_go_be.Jwt.{get_jwt_service, parse_jwt}
use boilerplate_go_be.Jwt.Contained.{get_jwt_service-InWorld, parse_jwt-InWorld}
use boilerplate_go_be.Supervisor.{send_to_supervisor, request_restart}
use boilerplate_go_be.Rest.{header_set, Reply, Layer}
use boilerplate_go_be.Rest.Middleware.{
  Exchange, Request, Handler, failed, dashed, parent_of, request_logger, in_world, respond,
  http_error, bearer, realm_of, write_error, challenge, refuse, authenticate, auth_middleware,
  push_layer, pop_layer, error_format_middleware, logger_middleware, service_middleware, on_panic,
  recover_middleware, wrap_http_middleware, report, restore,
}
use boilerplate_go_be.Rest.Files.{Files}
use boilerplate_go_be.Rest.Routes.{
  routed, Framework, Operation, Routed, registered, elsewhere, registrations, run_endpoint, serve,
  root, handler_chain,
}
use boilerplate_go_be.Rest.Contained.{run_endpoint-InWorld}
use boilerplate_go_be.Contained.{
  Contained-either, Contained, InWorld, Contained-pure, Contained-if, Contained-option,
  Contained-result, Contained-reads, Contained-at, Contained-bind, Contained-recover,
  Contained-call, Contained-log_f, Contained-the_cfg, Contained-unique_id_by_time,
}

module _ (P : Platform) where
  -- Over an exchange.
  abbrev pub InExchange : {A : Type 0} → Prog (Exchange P) A → Type 0
  InExchange = Contained (λ x. x.world)

  abbrev pub Handled : Handler P → Type 0
  Handled next = (r : Request P) → InExchange (next r)

  InExchange-in_world : {A : Type 0} (m : Prog (World P) A) → InWorld m → InExchange (in_world P m)
  InExchange-in_world m h = record { run = λ x opened. h.run x.world opened }

  InExchange-respond : (f : Reply → Reply) → InExchange (respond P f)
  InExchange-respond f = record { run = λ x h. (tt, (refl, refl)) }

  either :
      {A : Type 0} (b : Bool) {m k : Prog (Exchange P) A}
      → InExchange m
      → InExchange k
      → InExchange {A = A} (λ x. if b then m x else k x)
  either true hm hk = hm
  either false hm hk = hk

  authenticate-Handled :
      (next : Handler P) (log : Log) (realm : String)
      → Handled next
      → Handled (λ r. authenticate P next r log realm)
  unfolding authenticate
  authenticate-Handled next log realm h r =
      Contained-bind _ (in_world P (get_jwt_service P)) _
        (InExchange-in_world (get_jwt_service P) (get_jwt_service-InWorld P))
        (λ svc.
          Contained-bind _ (in_world P (parse_jwt P svc (bearer P r))) _
            (InExchange-in_world (parse_jwt P svc (bearer P r))
              (parse_jwt-InWorld P svc (bearer P r)))
            (λ parsed.
              Contained-option _ parsed.1 _ _ (h (record r { ctx = set_user_ctx r.ctx parsed.0 }))
                (λ e.
                  Contained-bind _ (in_world P (log_f log error "This token invalid because: %v")) _
                    (InExchange-in_world (log_f log error "This token invalid because: %v")
                      (Contained-log_f log error "This token invalid because: %v"))
                    (λ _. InExchange-respond (refuse P realm e)))))

  pub auth_middleware-Handled : (next : Handler P) → Handled next → Handled (auth_middleware P next)
  unfolding auth_middleware
  auth_middleware-Handled next h r =
      Contained-reads _ (λ _. get_logger_from_context r.ctx)
        (respond P (http_error "logger missing" 500)) _
        (InExchange-respond (http_error "logger missing" 500))
        (λ log.
          either (str_eq (bearer P r) "")
            (Contained-at _ (λ x. respond P (missing_token x))
              (λ x. InExchange-respond (missing_token x)))
            (Contained-at _ (λ x. authenticate P next r log (realm_of P x.world))
              (λ x. authenticate-Handled next log (realm_of P x.world) h r)))
    where
      missing_token : Exchange P → Reply → Reply
      missing_token x =
          write_error err_missing_token
            (("WWW-Authenticate", challenge P (realm_of P x.world) "") ∷ [])

  error_format_middleware-Handled :
      (next : Handler P) → Handled next → Handled (error_format_middleware P next)
  unfolding error_format_middleware
  error_format_middleware-Handled next h r =
      Contained-bind _ (respond P (push_layer P)) _ (InExchange-respond (push_layer P)) (λ _.
        Contained-bind _ (next r) _ (h r)
          (λ _. InExchange-respond (λ reply. pop_layer P reply.layers reply)))

  service_middleware-Handled :
      (next : Handler P) → Handled next → Handled (service_middleware P next)
  unfolding service_middleware
  service_middleware-Handled next h r =
      Contained-reads _ (λ _. get_logger_from_context r.ctx)
        (respond P (http_error "logger missing" 500)) _
        (InExchange-respond (http_error "logger missing" 500)) (λ log. h _)

  failed-InExchange : (msg : String) → InExchange (failed P msg)
  unfolding failed
  failed-InExchange msg =
      Contained-bind _ (respond P (http_error msg 500)) _ (InExchange-respond (http_error msg 500))
        (λ _. Contained-pure _ none)

  fresh_id : InExchange (in_world P unique_id_by_time)
  fresh_id = InExchange-in_world unique_id_by_time Contained-unique_id_by_time

  parent_of-InExchange : (r : Request P) → InExchange (parent_of P r)
  unfolding parent_of
  parent_of-InExchange r =
      Contained-if _ (str_eq r.parent_id "")
        (Contained-bind _ (in_world P unique_id_by_time) _ fresh_id
          (λ made. Contained-pure _ (dashed P made)))
        (Contained-pure _ (ok r.parent_id))

  pub request_logger-InExchange : (r : Request P) → InExchange (request_logger P r)
  unfolding request_logger
  request_logger-InExchange r =
      Contained-bind _ (parent_of P r) _ (parent_of-InExchange r) (λ parent.
        Contained-result _ parent _ _
          (λ parent_id. Contained-bind _ (in_world P unique_id_by_time) _ fresh_id (λ child.
            Contained-result _ child _ _
              (λ child_id.
                Contained-bind _ (in_world P the_cfg) _
                  (InExchange-in_world the_cfg Contained-the_cfg)
                  (λ cfg.
                    Contained-bind _ (in_world P (new_logger P cfg.log_target parent_id child_id)) _
                      (InExchange-in_world (new_logger P cfg.log_target parent_id child_id)
                        (new_logger-InWorld P cfg.log_target parent_id child_id))
                      (λ made.
                        Contained-result _ made _ _ (λ log. Contained-pure _ (some log))
                          (λ e. failed-InExchange "Logger init failed"))))
              (λ e. failed-InExchange "ID generation failed")))
          (λ e. failed-InExchange "ID generation failed"))

  logger_middleware-Handled : (next : Handler P) → Handled next → Handled (logger_middleware P next)
  unfolding logger_middleware
  logger_middleware-Handled next h r =
      Contained-bind _ (request_logger P r) _ (request_logger-InExchange r) (λ made.
        Contained-option _ made _ _ (Contained-pure _ tt)
          (λ log. h (record r { ctx = set_logger_to_context r.ctx log })))

  request_restart-InWorld : InWorld (request_restart P)
  unfolding request_restart send_to_supervisor
  request_restart-InWorld =
      Contained-if _ (not P.systemd || lower_is (P.getenv "TEMP_SERVICE") "true")
        (Contained-pure _ none)
        (Contained-if _ (str_eq (P.getenv "SELF_SERVICE_UNIT") "") (Contained-pure _ none) (
          Contained-if _ (str_eq (P.getenv "SUPERVISOR_SOCKET") "")
            (Contained-pure _ (some (new "no suitable socket found"))) (Contained-call _)))

  report-InWorld : (log : Log) (asked : Option Error) → InWorld (report P log asked)
  unfolding report
  report-InWorld log none = Contained-pure _ tt
  report-InWorld log (some e) = Contained-log_f log error "restart request failed: %v"

  on_panic-InExchange : (log : Log) (layers : List Layer) → InExchange (on_panic P log layers)
  unfolding on_panic
  on_panic-InExchange log layers =
      Contained-bind _ (in_world P (log_f log error "Recovered panic: %v\nStack trace:\n%s")) _
        (InExchange-in_world (log_f log error "Recovered panic: %v\nStack trace:\n%s")
          (Contained-log_f log error "Recovered panic: %v\nStack trace:\n%s"))
        (λ _.
          Contained-bind _ (respond P (restore P layers)) _ (InExchange-respond (restore P layers))
            (λ _.
              Contained-bind _ _ _
                (InExchange-respond (λ r. record r {
                  header = header_set "X-Recovered-By" "RecoverMiddleware" r.header;
                }))
                (λ _.
                  Contained-bind _ (respond P (write_error err_internal_server_error [])) _
                    (InExchange-respond (write_error err_internal_server_error []))
                    (λ _.
                      Contained-bind _ (in_world P (request_restart P)) _
                        (InExchange-in_world (request_restart P) request_restart-InWorld)
                        (λ asked.
                          InExchange-in_world (report P log asked) (report-InWorld log asked))))))

  pub recover_middleware-Handled :
      (global : Log) (next : Handler P) → Handled next → Handled (recover_middleware P global next)
  unfolding recover_middleware
  recover_middleware-Handled global next h r =
      Contained-at _ (λ x. recover_with (next r) (λ _. on_panic P (log_of r) x.reply.layers))
        (λ x.
          Contained-recover _ (next r) (λ _. on_panic P (log_of r) x.reply.layers) (h r)
            (λ _. on_panic-InExchange (log_of r) x.reply.layers))
    where
      log_of : Request P → Log
      log_of r = elim (get_logger_from_context r.ctx) [ some l ↦ l | none ↦ global ]

module _ {P : Platform} (F : Files P) (app_name : String) (T : Framework F app_name) where
  pub serve-Handled : (op : Operation) → Handled P (serve F app_name T op)
  unfolding serve
  serve-Handled op r =
      Contained-either _ (T.decode op r) _ _
        (λ input.
          Contained-bind _ (in_world P (run_endpoint F app_name op.handler r.ctx input)) _
            (InExchange-in_world P (run_endpoint F app_name op.handler r.ctx input)
              (run_endpoint-InWorld P app_name F op.handler r.ctx input))
            (λ out. InExchange-respond P (T.encode op out)))
        (λ refusal. InExchange-respond P refusal)

  routed-Handled :
      (act : Operation → Handler P)
      → ((op : Operation) → Handled P (act op))
      → (to : Routed registrations) → Handled P (λ r. routed F app_name T act to r)
  unfolding routed wrap_http_middleware
  routed-Handled act h (elsewhere answer) r = InExchange-respond P answer
  routed-Handled act h (registered reg found) r =
      Contained-if _ reg.secured (auth_middleware-Handled P (act reg.operation) (h reg.operation) r)
        (h reg.operation r)

  root-Handled :
      (act : Operation → Handler P)
      → ((op : Operation) → Handled P (act op))
      → Handled P (root F app_name T act)
  unfolding root
  root-Handled act h r = routed-Handled act h (T.route registrations r) r

  pub handler_chain-Handled :
      (act : Operation → Handler P) (log : Log)
      → ((op : Operation) → Handled P (act op))
      → Handled P (handler_chain F app_name T act log)
  unfolding handler_chain
  handler_chain-Handled act log h = recover_middleware-Handled P log _ (
      logger_middleware-Handled P _
        (service_middleware-Handled P _ (error_format_middleware-Handled P _ (root-Handled act h))))
