-- ===== src/Database/Transactions.antt =====
-- `WithTransaction` of infrastructure/db/db.method.go, with the laws of database/sql on open transactions.
use boilerplate_go_be.Base.{
  Bool, ◌⊎◌, inr, inl, Option-cases, String, str_append, ℕ, suc, ◌-◌, true, Option, none, some, ◌≡◌,
  ◌≢◌, refl, arith, ◌∙◌,
}
use boilerplate_go_be.Runtime.{Within, Error, new, Result, ok, err, Outcome, ret, panic, exit, Prog}
use boilerplate_go_be.Platform.{Platform}
use boilerplate_go_be.World.{World, log_f}
use boilerplate_go_be.World.Ctx.{Ctx, with_cancel, set_tx_ctx}
use boilerplate_go_be.Database.{
  wrap, join, log_f, with_transaction, settle, after_panic, run_tx, log_error,
}

-- The number of transactions that are open, as database/sql counts them: `BeginTx` opens one if it
-- succeeds, and `Commit` and `Rollback` of one that is still open end it also where they return an error.
-- One that is done already is answered with `ErrTxDone`, of which nothing is said here.
pub record TxCount (P : Platform) : Type 0 where
  pub active : P.State → ℕ
  pub is_open : P.Tx → P.State → Bool
  pub begin_ok :
      (s : P.State) (tx : P.Tx)
      → (P.begin_tx s).0 ≡ ok tx
      → (active (P.begin_tx s).1 ≡ suc (active s)) × (is_open tx (P.begin_tx s).1 ≡ true)
  pub begin_err :
      (s : P.State) (e : Error) → (P.begin_tx s).0 ≡ err e → active (P.begin_tx s).1 ≡ active s
  pub commit_ends :
      (tx : P.Tx) (s : P.State) → is_open tx s ≡ true → active (P.commit tx s).1 ≡ active s - 1
  pub rollback_ends :
      (tx : P.Tx) (s : P.State) → is_open tx s ≡ true → active (P.rollback tx s).1 ≡ active s - 1

module _ (P : Platform) where
  log_error-outside : (msg : String) (w : World P) → (log_error P msg w).1.outside ≡ w.outside
  unfolding log_error log_f
  log_error-outside msg w = ground arith

  log_error-ret : (msg : String) (w : World P) → (log_error P msg w).0 ≡ ret tt
  unfolding log_error log_f
  log_error-ret msg w = ground arith

module _ (P : Platform) {A : Type 0} (a : A) where
  settle-active :
      (c : TxCount P) (n : ℕ) (tx : P.Tx) (r : A × Option Error) (w : World P)
      → c.active w.outside ≡ suc n
      → c.is_open tx w.outside ≡ true
      → c.active (settle P tx r w).1.outside ≡ n
  unfolding settle
  settle-active c n tx (b, none) w h still = omega (arith, c.commit_ends tx w.outside still)
  settle-active c n tx (b, some e) w h still = omega (arith, c.rollback_ends tx w.outside still)

  after_panic-outside :
      (tx : P.Tx) (p : String) (w : World P)
      → (after_panic P tx a p w).1.outside ≡ (P.rollback tx w.outside).1
  unfolding after_panic log_f
  after_panic-outside tx p w = ground arith

  after_panic-outcome :
      (tx : P.Tx) (p : String) (w : World P)
      → (after_panic P tx a p w).0 ≡ ret (a, some (new (str_append "panic in transaction: " p)))
  unfolding after_panic log_f
  after_panic-outcome tx p w = ground arith

  run_tx-active :
      (c : TxCount P) (n : ℕ) (tx : P.Tx) (ctx : Ctx P)
      (fn : Ctx P → Prog (World P) (A × Option Error)) (w : World P)
      → c.active w.outside ≡ suc n
      → c.active (fn (set_tx_ctx P (with_cancel ctx) tx) w).1.outside ≡ suc n
      → c.is_open tx (fn (set_tx_ctx P (with_cancel ctx) tx) w).1.outside ≡ true
      → (run_tx P a tx ctx fn w).0 ≢ exit
      → c.active (run_tx P a tx ctx fn w).1.outside ≡ n
  unfolding run_tx
  run_tx-active c n tx ctx fn w h k still live =
      go (fn (set_tx_ctx P (with_cancel ctx) tx) w).0 refl
    where
      w' : World P
      w' = (fn (set_tx_ctx P (with_cancel ctx) tx) w).1

      go :
          (o : Outcome (A × Option Error))
          → (fn (set_tx_ctx P (with_cancel ctx) tx) w).0 ≡ o
          → c.active (run_tx P a tx ctx fn w).1.outside ≡ n
      go (ret (b, none)) e = ground (arith, settle-active c n tx (b, none) w' k still)
      go (ret (b, some x)) e = ground (arith, settle-active c n tx (b, some x) w' k still)
      go (panic p) e =
          ground (arith, after_panic-outside tx p w', c.rollback_ends tx w'.outside still)
      go exit e = ground arith

  committed :
      (tx : P.Tx) (ctx : Ctx P) (fn : Ctx P → Prog (World P) (A × Option Error)) (w : World P)
      (b : A)
      → (run_tx P a tx ctx fn w).0 ≡ ret (b, none)
      → let r = fn (set_tx_ctx P (with_cancel ctx) tx) w in
        (r.0 ≡ ret (b, none))
        × ((P.commit tx r.1.outside).0 ≡ none)
        × ((run_tx P a tx ctx fn w).1.outside ≡ (P.commit tx r.1.outside).1)
  unfolding run_tx settle after_panic log_f
  committed tx ctx fn w b h = ground arith

-- The state and the context that `fn` is given when a transaction has begun.
abbrev pub begun : (P : Platform) → World P → World P
begun P w = record w { outside = (P.begin_tx w.outside).1 }

abbrev pub tx_ctx : (P : Platform) → Ctx P → P.Tx → Ctx P
tx_ctx P ctx tx = set_tx_ctx P (with_cancel ctx) tx

module _ (P : Platform) {A : Type 0} (a : A) (ctx : Ctx P)
    (fn : Ctx P → Prog (World P) (A × Option Error)) (w : World P)
    (open_db : w.db.connected ≡ true) where
  -- Over an open handle, if `fn` itself leaves the number of open transactions as it was on every call, and
  -- its own transaction open, then `WithTransaction` leaves the number as it was: on success, error and
  -- panic, whether or not begin, commit and rollback succeed. Only the exit of the process is left out.
  pub with_transaction-active :
      (c : TxCount P)
      → ((ctx' : Ctx P) (w' : World P) → c.active (fn ctx' w').1.outside ≡ c.active w'.outside)
      → ((tx : P.Tx) (w' : World P)
          → c.is_open tx w'.outside ≡ true
          → c.is_open tx (fn (tx_ctx P ctx tx) w').1.outside ≡ true)
      → (with_transaction P a ctx fn w).0 ≢ exit
      → c.active (with_transaction P a ctx fn w).1.outside ≡ c.active w.outside
  unfolding with_transaction
  with_transaction-active c keep open_ live = go (P.begin_tx w.outside).0 refl
    where
      go :
          (b : Result P.Tx)
          → (P.begin_tx w.outside).0 ≡ b
          → c.active (with_transaction P a ctx fn w).1.outside ≡ c.active w.outside
      go (err e) h = ground (arith, c.begin_err w.outside e h)
      go (ok tx) h =
          let (more, opened) = c.begin_ok w.outside tx h in
          ground (
            arith,
            keep (tx_ctx P ctx tx) (begun P w),
            run_tx-active P a c (c.active w.outside) tx ctx fn (begun P w) more
                (keep (tx_ctx P ctx tx) (begun P w) ∙ more) (open_ tx (begun P w) opened),
          )

  -- Over an open handle, `WithTransaction` returns no error only if a transaction began, `fn` ran in it
  -- and returned no error, and the commit succeeded; the final outside state is the commit's, and the
  -- captured variables are what `fn` left.
  pub with_transaction-committed :
      (b : A)
      → (with_transaction P a ctx fn w).0 ≡ ret (b, none)
      → (tx : P.Tx) × ((P.begin_tx w.outside).0 ≡ ok tx)
        × ((fn (tx_ctx P ctx tx) (begun P w)).0 ≡ ret (b, none))
        × ((P.commit tx (fn (tx_ctx P ctx tx) (begun P w)).1.outside).0 ≡ none)
        × ((with_transaction P a ctx fn w).1.outside
            ≡ (P.commit tx (fn (tx_ctx P ctx tx) (begun P w)).1.outside).1)
  unfolding with_transaction
  with_transaction-committed b done = go (P.begin_tx w.outside).0 refl
    where
      go :
          (r : Result P.Tx)
          → (P.begin_tx w.outside).0 ≡ r
          → (tx : P.Tx) × ((P.begin_tx w.outside).0 ≡ ok tx)
            × ((fn (tx_ctx P ctx tx) (begun P w)).0 ≡ ret (b, none))
            × ((P.commit tx (fn (tx_ctx P ctx tx) (begun P w)).1.outside).0 ≡ none)
            × ((with_transaction P a ctx fn w).1.outside
                ≡ (P.commit tx (fn (tx_ctx P ctx tx) (begun P w)).1.outside).1)
      go (err e) h = absurd (ground arith)
      go (ok tx) h =
          let f = committed P a tx ctx fn (begun P w) b (ground arith) in
          (tx, h, f.0, f.1, ground (arith, f.2))

  -- Over an open handle, when a transaction has begun and `fn` returns an error in it, the transaction is
  -- rolled back, and the error that comes out contains that of `fn`, also where the rollback fails.
  pub with_transaction-rolled_back :
      (tx : P.Tx) (b : A) (e : Error)
      → (P.begin_tx w.outside).0 ≡ ok tx
      → (fn (tx_ctx P ctx tx) (begun P w)).0 ≡ ret (b, some e)
      → (e' : Error) × ((with_transaction P a ctx fn w).0 ≡ ret (b, some e'))
        × Within e e'
        × ((with_transaction P a ctx fn w).1.outside
            ≡ (P.rollback tx (fn (tx_ctx P ctx tx) (begun P w)).1.outside).1)
  unfolding with_transaction run_tx settle
  with_transaction-rolled_back tx b e h failed =
      elim (Option-cases (P.rollback tx (fn (tx_ctx P ctx tx) (begun P w)).1.outside).0) [
        | inl clean ↦ (e, ground arith, Within.itself, ground arith)
        | inr (rb_err, broken) ↦ (
          join (wrap "rollback failed" rb_err) (wrap "original error" e),
          ground arith,
          Within.joined_right (Within.wrapped Within.itself),
          ground arith,
        )
      ]

  -- Over an open handle, when a transaction has begun and `fn` panics in it, `WithTransaction` does not
  -- panic: the transaction is rolled back and the panic's value comes out as an error.
  pub with_transaction-recovered :
      (tx : P.Tx) (p : String)
      → (P.begin_tx w.outside).0 ≡ ok tx
      → (fn (tx_ctx P ctx tx) (begun P w)).0 ≡ panic p
      → ((with_transaction P a ctx fn w).0
          ≡ ret (a, some (new (str_append "panic in transaction: " p))))
        × ((with_transaction P a ctx fn w).1.outside
            ≡ (P.rollback tx (fn (tx_ctx P ctx tx) (begun P w)).1.outside).1)
  unfolding with_transaction run_tx
  with_transaction-recovered tx p h failed =
      let w' = (fn (tx_ctx P ctx tx) (begun P w)).1 in
      (
        ground (arith, after_panic-outcome P a tx p w'),
        ground (arith, after_panic-outside P a tx p w'),
      )

  -- Over an open handle, how `WithTransaction` can return an error: no transaction began; or it was rolled
  -- back; or `fn` returned none in it and the commit that followed failed, with the commit's error.
  pub with_transaction-failed :
      (b : A) (e : Error)
      → (with_transaction P a ctx fn w).0 ≡ ret (b, some e)
      → let final = (with_transaction P a ctx fn w).1.outside in
        (((P.begin_tx w.outside).0 ≡ err e) × (final ≡ (P.begin_tx w.outside).1))
        ⊎ ((tx : P.Tx) × ((P.begin_tx w.outside).0 ≡ ok tx)
            × ((final ≡ (P.rollback tx (fn (tx_ctx P ctx tx) (begun P w)).1.outside).1)
                ⊎ (((fn (tx_ctx P ctx tx) (begun P w)).0 ≡ ret (b, none))
                    × ((P.commit tx (fn (tx_ctx P ctx tx) (begun P w)).1.outside).0 ≡ some e))))
  unfolding with_transaction run_tx
  with_transaction-failed b e failed = go (P.begin_tx w.outside).0 refl
    where
      f : P.Tx → Outcome (A × Option Error) × World P
      f tx = fn (tx_ctx P ctx tx) (begun P w)

      ran :
          (tx : P.Tx) (o : Outcome (A × Option Error))
          → (P.begin_tx w.outside).0 ≡ ok tx
          → (f tx).0 ≡ o
          → ((with_transaction P a ctx fn w).1.outside ≡ (P.rollback tx (f tx).1.outside).1)
            ⊎ (((f tx).0 ≡ ret (b, none)) × ((P.commit tx (f tx).1.outside).0 ≡ some e))
      ran tx (ret (c, none)) h k = inr (unfold settle in (ground arith, ground arith))
      ran tx (ret (c, some x)) h k = inl (unfold settle in ground arith)
      ran tx (panic p) h k = inl (with_transaction-recovered tx p h k).1
      ran tx exit h k = absurd (ground arith)

      go :
          (r : Result P.Tx)
          → (P.begin_tx w.outside).0 ≡ r
          → (((P.begin_tx w.outside).0 ≡ err e)
              × ((with_transaction P a ctx fn w).1.outside ≡ (P.begin_tx w.outside).1))
            ⊎ ((tx : P.Tx) × ((P.begin_tx w.outside).0 ≡ ok tx)
                × (((with_transaction P a ctx fn w).1.outside ≡ (P.rollback tx (f tx).1.outside).1)
                    ⊎ (((f tx).0 ≡ ret (b, none)) × ((P.commit tx (f tx).1.outside).0 ≡ some e))))
      go (err x) h = inl (ground arith)
      go (ok tx) h = inr (tx, h, ran tx (f tx).0 h refl)
