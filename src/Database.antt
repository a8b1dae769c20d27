-- ===== src/Database.antt =====
-- infrastructure/db/db.method.go: the process's database handle and transactions. `World.db` holds
-- whether the `*sql.DB` is set; a call through a nil handle panics, as it does in database/sql.
pub mod Transactions
pub mod Contained
use boilerplate_go_be.Base.{
  String, str_append, Bool, true, false, Option, none, some, if◌then◌else◌,
}
use boilerplate_go_be.Runtime.{
  Error, new, wrap, join, Result, ok, err, Prog, pure, raise, gets, exit_process, recover_with,
  ◌>>=◌, ◌>>◌,
}
use boilerplate_go_be.Logger.{Log, info, error, fatal}
use boilerplate_go_be.Platform.{Platform, SqlResult}
use boilerplate_go_be.World.{World, call, log_f}
use boilerplate_go_be.World.Ctx.{Ctx, with_cancel, set_tx_ctx, get_tx_ctx}

module _ (P : Platform) where
  -- With no logger, `log.Fatalf` ends the process; `FatalF` of the program's logger does not.
  unfoldable pub log_fatal : String → Prog (World P) (Unit {0})
  log_fatal msg w = elim w.db.logger [ some l ↦ log_f l fatal msg w | none ↦ exit_process w ]

  unfoldable pub log_info : String → Prog (World P) (Unit {0})
  log_info msg w = elim w.db.logger [ some l ↦ log_f l info msg w | none ↦ pure tt w ]

  unfoldable pub log_error : String → Prog (World P) (Unit {0})
  log_error msg w = elim w.db.logger [ some l ↦ log_f l error msg w | none ↦ pure tt w ]

  -- Whether the handle that is returned is not nil.
  unfoldable pub get_db : Prog (World P) Bool
  unfolding log_fatal
  get_db w =
      if w.db.connected
      then (pure true w)
      else ((do log_fatal "Database connection is not initialized. Call Connect first."; pure false)
          w)

  -- A call through the handle that `get_db` returns.
  abbrev through_db : {A : Type 0} → (P.State → A × P.State) → Prog (World P) A
  through_db f = do conn ← get_db; if conn then call P f else raise "nil pointer dereference"

  unfoldable pub exec_context : Ctx P → P.Query → Prog (World P) (Result SqlResult)
  exec_context ctx q = elim (get_tx_ctx ctx) [
    | some tx ↦ call P (P.tx_exec tx q)
    | none ↦ through_db (P.db_exec q)
  ]

  -- `BeginTx`
  unfoldable pub begin_tx : Prog (World P) (Result P.Tx)
  unfolding get_db
  begin_tx = through_db P.begin_tx

  -- The rest of `WithTransaction` once `fn` has returned `(a, e)`.
  unfoldable pub settle : {A : Type 0} → P.Tx → A × Option Error → Prog (World P) (A × Option Error)
  settle tx (a, none) = do committed ← call P (P.commit tx); pure (a, committed)
  settle tx (a, some e) = do
    rolled_back ← call P (P.rollback tx)
    pure (
      a,
      some (elim rolled_back [
        | some rb_err ↦ join (wrap "rollback failed" rb_err) (wrap "original error" e)
        | none ↦ e
      ]),
    )

  -- The deferred function when `fn` has panicked.
  after_panic : {A : Type 0} → P.Tx → A → String → Prog (World P) (A × Option Error)
  unfolding log_error
  after_panic tx a p = do
    rolled_back ← call P (P.rollback tx)
    elim rolled_back [ some _ ↦ log_error "rollback after panic failed: %v" | none ↦ pure tt ]
    pure (a, some (new (str_append "panic in transaction: " p)))

  -- What follows a successful `BeginTx`.
  unfoldable pub run_tx :
      {A : Type 0}
      → A
      → P.Tx
      → Ctx P
      → (Ctx P → Prog (World P) (A × Option Error))
      → Prog (World P) (A × Option Error)
  unfolding settle after_panic
  run_tx a tx ctx fn =
      recover_with (fn (set_tx_ctx P (with_cancel ctx) tx) >>= settle tx) (after_panic tx a)

  -- `fn` returns the values of the variables that it captures and assigns, with its error; `a` is what
  -- they hold before. The caller reads them only where no error is returned.
  unfoldable pub with_transaction :
      {A : Type 0}
      → A
      → Ctx P
      → (Ctx P → Prog (World P) (A × Option Error))
      → Prog (World P) (A × Option Error)
  unfolding get_db
  with_transaction a ctx fn = do
    begun ← through_db P.begin_tx
    elim begun [ err e ↦ pure (a, some e) | ok tx ↦ run_tx a tx ctx fn ]

  -- `Close` and `Ping`, which do without `GetDB`.
  unfoldable pub close : Prog (World P) (Option Error)
  close w = elim w.db.connected [ true ↦ call P P.close_db w | false ↦ (pure none w) ]

  unfoldable pub ping : Prog (World P) (Option Error)
  ping w = elim w.db.connected [
    | true ↦ call P P.ping w
    | false ↦ (pure (some (new "database connection is not initialized")) w)
  ]
