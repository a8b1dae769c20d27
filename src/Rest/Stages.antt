-- ===== src/Rest/Stages.antt =====
-- `LoggerMiddleware` before the endpoints: what it leaves of a fresh response.
use boilerplate_go_be.Base.{
  String, str_eq, Bool, true, false, ◌≡◌, refl, sym, ◌∙◌, subst, Option, none, some, if◌then◌else◌,
}
use boilerplate_go_be.Runtime.{Error, Result, ok, err, Outcome, ret, panic, exit, Prog, pure, ◌>>=◌}
use boilerplate_go_be.Logger.{Log}
use boilerplate_go_be.Platform.{Platform}
use boilerplate_go_be.World.{World, unique_id_by_time, the_cfg}
use boilerplate_go_be.Logging.{new_logger}
use boilerplate_go_be.Returns.{go_on}
use boilerplate_go_be.Rest.{Reply}
use boilerplate_go_be.Rest.Auth.{IsFresh, status_sent, http_error-IsFresh}
use boilerplate_go_be.Rest.Middleware.{
  Exchange, Request, in_world, failed, dashed, parent_of, request_logger,
}

module _ (P : Platform) where
  -- With a logger the response is untouched, without one status 500 is sent; a panic leaves it untouched.
  unfoldable pub StageAfter : Reply → Outcome (Option Log) × Exchange P → Type 0
  StageAfter b (ret none, x) = status_sent x.reply ≡ some 500
  StageAfter b (ret (some l), x) = x.reply ≡ b
  StageAfter b (panic p, x) = x.reply ≡ b
  StageAfter b (exit, x) = Unit {0}

  record Stage (m : Prog (Exchange P) (Option Log)) : Type 0 where
    run : (x : Exchange P) → IsFresh x.reply → StageAfter x.reply (m x)

  record Quiet {A : Type 0} (m : Prog (Exchange P) A) : Type 0 where
    same : (x : Exchange P) → (m x).1.reply ≡ x.reply

  Quiet-pure : {A : Type 0} (a : A) → Quiet (pure a)
  Quiet-pure a = record { same = λ x. refl }

  Quiet-in_world : {A : Type 0} (m : Prog (World P) A) → Quiet (in_world P m)
  Quiet-in_world m = record { same = λ x. refl }

  Quiet-if :
      {A : Type 0} (b : Bool) {m k : Prog (Exchange P) A}
      → Quiet m
      → Quiet k
      → Quiet (if b then m else k)
  Quiet-if true hm hk = hm
  Quiet-if false hm hk = hk

  Quiet-go_on :
      {A B : Type 0} (b : Reply) (r : Outcome A × Exchange P) (k : A → Prog (Exchange P) B)
      → r.1.reply ≡ b
      → ((a : A) → Quiet (k a))
      → (go_on r k).1.reply ≡ b
  Quiet-go_on b (ret a, x) k h hk = (hk a).same x ∙ h
  Quiet-go_on b (panic p, x) k h hk = h
  Quiet-go_on b (exit, x) k h hk = h

  Quiet-bind :
      {A B : Type 0} (m : Prog (Exchange P) A) (k : A → Prog (Exchange P) B)
      → Quiet m
      → ((a : A) → Quiet (k a))
      → Quiet (m >>= k)
  Quiet-bind m k hm hk = record { same = λ x. Quiet-go_on x.reply (m x) k (hm.same x) hk }

  Stage-go_on :
      {A : Type 0} (b : Reply) (r : Outcome A × Exchange P) (k : A → Prog (Exchange P) (Option Log))
      → IsFresh b
      → r.1.reply ≡ b
      → ((a : A) → Stage (k a))
      → StageAfter b (go_on r k)
  unfolding StageAfter
  Stage-go_on b (ret a, x) k fresh h hk =
      subst (λ c. StageAfter c (k a x)) h ((hk a).run x (subst IsFresh (sym h) fresh))
  Stage-go_on b (panic p, x) k fresh h hk = h
  Stage-go_on b (exit, x) k fresh h hk = tt

  Stage-bind :
      {A : Type 0} (m : Prog (Exchange P) A) (k : A → Prog (Exchange P) (Option Log))
      → Quiet m
      → ((a : A) → Stage (k a))
      → Stage (m >>= k)
  Stage-bind m k hm hk = record { run = λ x h. Stage-go_on x.reply (m x) k h (hm.same x) hk }

  Stage-result :
      {A : Type 0} (r : Result A) (m : A → Prog (Exchange P) (Option Log))
      (k : Error → Prog (Exchange P) (Option Log))
      → ((a : A) → Stage (m a))
      → ((e : Error) → Stage (k e))
      → Stage (elim r [ ok a ↦ m a | err e ↦ k e ])
  Stage-result (ok a) m k hm hk = hm a
  Stage-result (err e) m k hm hk = hk e

  failed-Stage : (msg : String) → Stage (failed P msg)
  unfolding failed StageAfter
  failed-Stage msg = record { run = λ x h. (http_error-IsFresh msg 500 x.reply h refl refl).0 }

  parent_of-Quiet : (r : Request P) → Quiet (parent_of P r)
  unfolding parent_of
  parent_of-Quiet r =
      Quiet-if (str_eq r.parent_id "")
        (Quiet-bind (in_world P unique_id_by_time) _ (Quiet-in_world unique_id_by_time)
          (λ made. Quiet-pure (dashed P made)))
        (Quiet-pure (ok r.parent_id))

  request_logger-Stage : (r : Request P) → Stage (request_logger P r)
  unfolding request_logger StageAfter
  request_logger-Stage r = Stage-bind (parent_of P r) _ (parent_of-Quiet r) (λ parent.
      Stage-result parent _ _
        (λ parent_id.
          Stage-bind (in_world P unique_id_by_time) _ (Quiet-in_world unique_id_by_time) (λ child.
            Stage-result child _ _
              (λ child_id. Stage-bind (in_world P the_cfg) _ (Quiet-in_world the_cfg) (λ cfg.
                Stage-bind (in_world P (new_logger P cfg.log_target parent_id child_id)) _
                  (Quiet-in_world (new_logger P cfg.log_target parent_id child_id))
                  (λ made.
                    Stage-result made _ _ (λ log. record { run = λ x h. refl })
                      (λ e. failed-Stage "Logger init failed"))))
              (λ e. failed-Stage "ID generation failed")))
        (λ e. failed-Stage "ID generation failed"))

  -- The stage on a fresh response.
  pub request_logger_lem :
      (r : Request P) (x : Exchange P) → IsFresh x.reply → StageAfter x.reply (request_logger P r x)
  request_logger_lem r x h = (request_logger-Stage r).run x h
