-- ===== src/Database/Contained.antt =====
-- The handle and `WithTransaction` of infrastructure/db: over an open handle no call ends the process or
-- changes the handle, if the function that the transaction runs does neither.
use boilerplate_go_be.Base.{String, str_append, Option, none, some, arith, if◌then◌else◌}
use boilerplate_go_be.Runtime.{Error, new, wrap, join, Prog, pure, raise, ◌>>=◌}
use boilerplate_go_be.Logger.{error}
use boilerplate_go_be.Platform.{Platform}
use boilerplate_go_be.World.{World, call, log_f}
use boilerplate_go_be.World.Ctx.{Ctx, get_tx_ctx, set_tx_ctx, with_cancel}
use boilerplate_go_be.Database.{
  get_db, exec_context, settle, after_panic, log_error, run_tx, with_transaction,
}
use boilerplate_go_be.Contained.{
  InWorld, Contained-pure, Contained-raise, Contained-if, Contained-option, Contained-result,
  Contained-bind, Contained-call, Contained-reads, Contained-recover, Contained-log_f,
}

abbrev after_rollback : Error → Option Error → Error
after_rollback e rolled_back = elim rolled_back [
  | some rb_err ↦ join (wrap "rollback failed" rb_err) (wrap "original error" e)
  | none ↦ e
]

module _ (P : Platform) where
  get_db-InWorld : InWorld (get_db P)
  unfolding get_db
  get_db-InWorld = record { run = λ w h. ground (arith, h) }

  -- A call through the handle.
  pub through_db-InWorld :
      {A : Type 0} (f : P.State → A × P.State)
      → InWorld (get_db P >>= λ conn. if conn then call P f else raise "nil pointer dereference")
  through_db-InWorld f =
      Contained-bind _ (get_db P) _ get_db-InWorld (λ conn.
        Contained-if _ conn (Contained-call f) (Contained-raise _ "nil pointer dereference"))

  pub exec_context-InWorld : (ctx : Ctx P) (q : P.Query) → InWorld (exec_context P ctx q)
  unfolding exec_context
  exec_context-InWorld ctx q =
      Contained-option _ (get_tx_ctx ctx) _ (λ tx. call P (P.tx_exec tx q))
        (through_db-InWorld (P.db_exec q)) (λ tx. Contained-call (P.tx_exec tx q))

  log_error-InWorld : (msg : String) → InWorld (log_error P msg)
  unfolding log_error
  log_error-InWorld msg =
      Contained-reads _ (λ w. w.db.logger) (pure tt) (λ l. log_f l error msg) (Contained-pure _ tt)
        (λ l. Contained-log_f l error msg)

  module _ {A : Type 0} where
    settle-InWorld : (tx : P.Tx) (r : A × Option Error) → InWorld (settle P tx r)
    unfolding settle
    settle-InWorld tx (a, none) =
        Contained-bind _ (call P (P.commit tx)) _ (Contained-call (P.commit tx))
          (λ committed. Contained-pure _ (a, committed))
    settle-InWorld tx (a, some e) =
        Contained-bind _ (call P (P.rollback tx)) _ (Contained-call (P.rollback tx))
          (λ rolled_back. Contained-pure _ (a, some (after_rollback e rolled_back)))

    after_panic-InWorld : (tx : P.Tx) (a : A) (p : String) → InWorld (after_panic P tx a p)
    unfolding after_panic
    after_panic-InWorld tx a p =
        Contained-bind _ (call P (P.rollback tx)) _ (Contained-call (P.rollback tx)) (λ rolled_back.
          Contained-bind _
            (elim rolled_back [
              | none ↦ pure tt
              | some e ↦ log_error P "rollback after panic failed: %v"
            ])
            _
            (Contained-option _ rolled_back (pure tt)
              (λ e. log_error P "rollback after panic failed: %v") (Contained-pure _ tt)
              (λ e. log_error-InWorld "rollback after panic failed: %v"))
            (λ _. Contained-pure _ (a, some (new (str_append "panic in transaction: " p)))))

    run_tx-InWorld :
        (a : A) (tx : P.Tx) (ctx : Ctx P) (fn : Ctx P → Prog (World P) (A × Option Error))
        → ((c : Ctx P) → InWorld (fn c))
        → InWorld (run_tx P a tx ctx fn)
    unfolding run_tx
    run_tx-InWorld a tx ctx fn h =
        Contained-recover _ (fn (set_tx_ctx P (with_cancel ctx) tx) >>= settle P tx)
          (after_panic P tx a)
          (Contained-bind _ (fn (set_tx_ctx P (with_cancel ctx) tx)) (settle P tx)
            (h (set_tx_ctx P (with_cancel ctx) tx)) (settle-InWorld tx))
          (after_panic-InWorld tx a)

    pub with_transaction-InWorld :
        (a : A) (ctx : Ctx P) (fn : Ctx P → Prog (World P) (A × Option Error))
        → ((c : Ctx P) → InWorld (fn c))
        → InWorld (with_transaction P a ctx fn)
    unfolding with_transaction
    with_transaction-InWorld a ctx fn h =
        Contained-bind _ _ _ (through_db-InWorld P.begin_tx) (λ begun.
          Contained-result _ begun _ _ (λ tx. run_tx-InWorld a tx ctx fn h)
            (λ e. Contained-pure _ (a, some e)))
