-- ===== src/Rest/Chain.antt =====
-- The handler that `GetRESTServer` of cmd/start_rest.go gives to net/http, from the outside: what a client
-- gets, whatever the stages on the way do.
use boilerplate_go_be.Base.{subst, String, true, ◌≡◌, refl, sym, ◌∙◌, ap, arith, Option, none, some}
use boilerplate_go_be.Runtime.{Outcome, ret, panic, exit}
use boilerplate_go_be.Logger.{Log}
use boilerplate_go_be.Aggregators.{new_repository, new_outbound}
use boilerplate_go_be.Platform.{Platform}
use boilerplate_go_be.World.Ctx.{
  get_logger_from_context, set_logger_to_context, set_repo_ctx, set_outbound_ctx, set_token_ctx,
}
use boilerplate_go_be.Supervisor.{request_restart-returns}
use boilerplate_go_be.Rest.Auth.{IsFresh, status_sent}
use boilerplate_go_be.Rest.Middleware.{
  Exchange, Request, Handler, bearer, request_logger, error_format_middleware, logger_middleware,
  service_middleware, recover_middleware,
}
use boilerplate_go_be.Rest.Recovery.{logged, runs, on_panic-writes, recover_middleware-answers}
use boilerplate_go_be.Rest.Files.{Files}
use boilerplate_go_be.Rest.Routes.{Framework, Operation, root, serve, handler_chain, rest_handler}
use boilerplate_go_be.Contained.{Holds, Alive, Same}
use boilerplate_go_be.Rest.Handled.{request_logger-InExchange, serve-Handled, handler_chain-Handled}
use boilerplate_go_be.Rest.Stages.{StageAfter, request_logger_lem}

module _ (P : Platform) where
  -- The request as it reaches the router, with a logger.
  unfoldable pub request_of : Log → Request P → Request P
  request_of l r = record r {
    ctx =
        set_token_ctx
          (set_outbound_ctx (set_repo_ctx (set_logger_to_context r.ctx l) (new_repository l))
            (new_outbound l))
          (bearer P r);
  }

  no_panic :
      (global : Log) (next : Handler P) (r : Request P) (x : Exchange P)
      (o : Outcome (Unit {0}) × Exchange P)
      → next r x ≡ o
      → Alive (recover_middleware P global next r x).0
      → (recover_middleware P global next r x).0 ≡ ret tt
  unfolding recover_middleware
  no_panic global next r x (ret tt, x') e alive = ground arith
  no_panic global next r x (exit, x') e alive = absurd (ground arith)
  no_panic global next r x (panic p, x') e alive =
      let log : Log = elim (get_logger_from_context r.ctx) [ some l ↦ l | none ↦ global ] in
      let (asked, returned) = request_restart-returns P (logged P log x') in
      rw (runs P global next r x x' p e) (on_panic-writes P log x.reply.layers x' asked returned).0

module _ {P : Platform} (F : Files P) (app_name : String) (T : Framework F app_name)
    (act : Operation → Handler P) (r : Request P) where
  -- Behind the logger.
  unfoldable pub inner : Log → Exchange P → Outcome (Unit {0}) × Exchange P
  inner l x1 = error_format_middleware P (root F app_name T act) (request_of P l r) x1

module _ {P : Platform} (F : Files P) (app_name : String) (T : Framework F app_name)
    (act : Operation → Handler P) (log : Log) (r : Request P) (x : Exchange P) where
  -- The chain after each outcome of the logger's stage.
  pub passed :
      (l : Log) (x1 : Exchange P)
      → request_logger P r x ≡ (ret (some l), x1)
      → handler_chain F app_name T act log r x
        ≡ recover_middleware P log (λ _ _. inner F app_name T act r l x1) r x
  unfolding handler_chain recover_middleware logger_middleware service_middleware inner request_of
      get_logger_from_context set_logger_to_context
  passed l x1 e = ground arith

  pub stopped :
      (x1 : Exchange P)
      → request_logger P r x ≡ (ret none, x1)
      → handler_chain F app_name T act log r x ≡ (ret tt, x1)
  unfolding handler_chain recover_middleware logger_middleware
  stopped x1 e = ground arith

  pub broken :
      (p : String) (x1 : Exchange P)
      → request_logger P r x ≡ (panic p, x1)
      → handler_chain F app_name T act log r x ≡ recover_middleware P log (λ _ _. (panic p, x1)) r x
  unfolding handler_chain recover_middleware logger_middleware
  broken p x1 e = ground arith

  staged :
      IsFresh x.reply
      → (o : Outcome (Option Log) × Exchange P) → request_logger P r x ≡ o
      → StageAfter P x.reply o
  staged fresh o e = subst (StageAfter P x.reply) e (request_logger_lem P r x fresh)

  pub held :
      x.world.db.connected ≡ true
      → (o : Outcome (Option Log) × Exchange P) → request_logger P r x ≡ o
      → Holds (λ x. x.world) x.world o
  held opened o e =
      subst (Holds (λ x. x.world) x.world) e ((request_logger-InExchange P r).run x opened)

  -- What holds of every answer 500 and of what the router gives behind a logger holds of the chain.
  pub by_stage :
      (Q : Outcome (Unit {0}) × Exchange P → Type 0)
      → IsFresh x.reply
      → x.world.db.connected ≡ true
      → ((d : Outcome (Unit {0}) × Exchange P)
          → d.0 ≡ ret tt
          → status_sent d.1.reply ≡ some 500
          → Q d)
      → ((l : Log) (x1 : Exchange P)
          → x1.reply ≡ x.reply
          → Same x.world x1.world
          → Q (recover_middleware P log (λ _ _. inner F app_name T act r l x1) r x))
      → (o : Outcome (Option Log) × Exchange P) → request_logger P r x ≡ o
      → Q (handler_chain F app_name T act log r x)
  unfolding StageAfter IsFresh
  by_stage Q fresh opened failing going (ret none, x1) e =
      subst Q (sym (stopped x1 e)) (failing (ret tt, x1) refl (staged fresh (ret none, x1) e))
  by_stage Q fresh opened failing going (ret (some l), x1) e =
      subst Q (sym (passed l x1 e))
        (going l x1 (staged fresh (ret (some l), x1) e) (held opened (ret (some l), x1) e).1)
  by_stage Q fresh opened failing going (panic p, x1) e =
      let kept : x1.reply ≡ x.reply = staged fresh (panic p, x1) e in
      let (done, sent, _) =
        recover_middleware-answers P log (λ _ _. (panic p, x1)) r x x1 p refl
          (ap (λ b. b.sent) kept ∙ fresh.0) (ap (λ b. b.body) kept ∙ fresh.1) fresh.2 in
      subst Q (sym (broken p x1 e))
        (failing (recover_middleware P log (λ _ _. (panic p, x1)) r x) done sent)
  by_stage Q fresh opened failing going (exit, x1) e = elim (held opened (exit, x1) e).0 [ ]

module _ {P : Platform} (F : Files P) (app_name : String) (T : Framework F app_name) (log : Log)
    (r : Request P) (x : Exchange P) where
  -- Over an open database handle, the handler returns to net/http whatever the request, its decoding, the driver, the
  -- remote and the endpoint do, with the database handle and the JWT service as they were.
  pub rest_handler-returns :
      x.world.db.connected ≡ true
      → ((rest_handler F app_name T log r x).0 ≡ ret tt)
        × Same x.world (rest_handler F app_name T log r x).1.world
  unfolding rest_handler handler_chain
  rest_handler-returns opened =
      let (alive, same) =
        (handler_chain-Handled F app_name T (serve F app_name T) log (serve-Handled F app_name T)
            r).run
          x opened in
      (no_panic P log _ r x _ refl alive, same)
