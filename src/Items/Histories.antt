-- ===== src/Items/Histories.antt =====
-- Every history of calls of the repository is one of the table.
use boilerplate_go_be.Base.{
  pos, String, true, Option, List, [], ◌∷◌, ◌≡◌, refl, ◌⊎◌, inl, inr, arith, ap, ◌∙◌,
}
use boilerplate_go_be.Runtime.{Result-cases, Error, ok, Prog}
use boilerplate_go_be.Dto.{Item}
use boilerplate_go_be.Platform.{
  SqlResult, Platform, insert_name, SqlResult, set_name_where_id, delete_where_id,
}
use boilerplate_go_be.World.{World, log_f}
use boilerplate_go_be.World.Ctx.{Ctx}
use boilerplate_go_be.Database.{with_transaction}
use boilerplate_go_be.Database.Transactions.{tx_ctx, begun}
use boilerplate_go_be.Aggregators.{ItemRepository}
use boilerplate_go_be.Items.Store.{Table, rename, remove, SqlStore}
use boilerplate_go_be.Items.Repo.{create_in_tx, create, change_in_tx, update, delete, list, get}
use boilerplate_go_be.Items.Kept.{get-table, list-table}
use boilerplate_go_be.Items.Runs.{
  Call, listing, getting, changing, Step, stays, creates, renames, removes, Steps, done, next,
  CommitLaw, after_call, after_calls, calls_of, Published, published,
}
use boilerplate_go_be.Contained.{InWorld, Contained-pure, Contained-bind}
use boilerplate_go_be.Items.Contained.{
  create-InWorld, update-InWorld, delete-InWorld, get-InWorld, list-InWorld,
}
use boilerplate_go_be.Items.Atomic.{Change, creating, updating, deleting, run_change}
use boilerplate_go_be.Items.Refinement.{
  create_in_tx-ok, create_in_tx-outside, change_in_tx-ok, change_in_tx-outside,
}

module _ {P : Platform} (c : SqlStore P) (r : ItemRepository) (ctx : Ctx P) where
  abbrev Keeps : {A : Type 0} → (Ctx P → Prog (World P) (A × Option Error)) → Type 0
  Keeps fn =
      (tx : P.Tx) (w' : World P) → c.table (fn (tx_ctx P ctx tx) w').1.outside ≡ c.table w'.outside

  Keeps-create_in_tx : (q : P.Query) → Keeps (create_in_tx P r q)
  Keeps-create_in_tx q tx w' =
      ground (arith, create_in_tx-outside P r ctx tx q w', c.exec_table tx q w'.outside)

  Keeps-change_in_tx : (what : String) (q : P.Query) → Keeps (change_in_tx P r what q)
  Keeps-change_in_tx what q tx w' =
      ground (arith, change_in_tx-outside P r ctx tx q w' what, c.exec_table tx q w'.outside)

module _ {P : Platform} (c : SqlStore P) (law : CommitLaw c) (r : ItemRepository) (ctx : Ctx P)
    (w : World P) (open_db : w.db.connected ≡ true) where
  abbrev Stepped : Call → Type 0
  Stepped k = Step (c.table w.outside) (c.table (after_call P r ctx k w).outside) k

  created_step :
      (it : Item) (q : P.Query)
      → P.to_sql (insert_name it.name) ≡ ok q
      → Published c law r ctx w open_db (pos 0) (create_in_tx P r q) (Keeps-create_in_tx c r ctx q)
      → Stepped (changing (creating it))
  unfolding after_call run_change create Published
  created_step it q built (inl same) = stays (ground arith)
  created_step it q built (inr (tx, began, id, ran, seen)) =
      let (res, executed, last, after) = create_in_tx-ok P r ctx tx q (begun P w) id ran in
      let (fresh, grown) =
        c.insert_seen tx it.name q (begun P w).outside res id built executed last in
      let started = c.begin_seen w.outside tx began in
      creates (record it { id = id }) refl (ground arith) (ground arith)

  changed_seen :
      (what : String) (q : P.Query) (f : Table → Table)
      → ((tx : P.Tx) (s : P.State) (res : SqlResult)
          → (P.tx_exec tx q s).0 ≡ ok res
          → c.seen tx (P.tx_exec tx q s).1 ≡ f (c.seen tx s))
      → (c.table (with_transaction P tt ctx (change_in_tx P r what q) w).1.outside
          ≡ c.table w.outside)
        ⊎ (c.table (with_transaction P tt ctx (change_in_tx P r what q) w).1.outside
            ≡ f (c.table w.outside))
  unfolding Published
  changed_seen what q f means =
      elim (published c law r ctx w open_db tt (change_in_tx P r what q)
        (Keeps-change_in_tx c r ctx what q)) [
          | inl same ↦ inl same
          | inr (tx, began, tt, ran, seen) ↦
              let (res, executed) = change_in_tx-ok P r ctx tx q (begun P w) what ran in
              let meant = means tx (begun P w).outside res executed in
              let after = change_in_tx-outside P r ctx tx q (begun P w) what in
              let started = c.begin_seen w.outside tx began in inr (ground arith)
        ]

  change_step : (ch : Change) → Stepped (changing ch)
  unfolding after_call run_change create update delete log_f
  change_step (creating it) = elim (Result-cases (P.to_sql (insert_name it.name))) [
    | inr (e, refused) ↦ stays (ground arith)
    | inl (q, built) ↦ created_step it q built (
        published c law r ctx w open_db (pos 0) (create_in_tx P r q) (Keeps-create_in_tx c r ctx q))
  ]
  change_step (updating it) = elim (Result-cases (P.to_sql (set_name_where_id it.name it.id))) [
    | inr (e, refused) ↦ stays (ground arith)
    | inl (q, built) ↦
        elim (changed_seen "Failed to execute update: %v" q (rename it.name it.id)
          (λ tx s res. c.update_seen tx it.name it.id q s res built)) [
            | inl same ↦ stays (ground arith)
            | inr renamed ↦ renames (ground arith)
          ]
  ]
  change_step (deleting id) = elim (Result-cases (P.to_sql (delete_where_id id))) [
    | inr (e, refused) ↦ stays (ground arith)
    | inl (q, built) ↦
        elim (changed_seen "Failed to execute delete: %v" q (remove id)
          (λ tx s res. c.delete_seen tx id q s res built)) [
            | inl same ↦ stays (ground arith)
            | inr removed ↦ removes (ground arith)
          ]
  ]

  call_step : (k : Call) → Stepped k
  unfolding after_call
  call_step listing = stays (list-table c r ctx w open_db)
  call_step (getting id) = stays (get-table c r ctx w open_db id)
  call_step (changing ch) = change_step ch

  run_change-InWorld : (ch : Change) → InWorld (run_change P r ctx ch)
  unfolding run_change
  run_change-InWorld (creating it) =
      Contained-bind _ (create P r ctx it) _ (create-InWorld P r ctx it)
        (λ (_, e). Contained-pure _ e)
  run_change-InWorld (updating it) = update-InWorld P r ctx it
  run_change-InWorld (deleting id) = delete-InWorld P r ctx id

  connected_after : {A : Type 0} (m : Prog (World P) A) → InWorld m → (m w).1.db.connected ≡ true
  connected_after m kept = ap (λ d. d.connected) (kept.run w open_db).1.0 ∙ open_db

  call-connected : (k : Call) → (after_call P r ctx k w).db.connected ≡ true
  unfolding after_call
  call-connected listing = connected_after (list P r ctx) (list-InWorld P r ctx)
  call-connected (getting id) = connected_after (get P r ctx id) (get-InWorld P r ctx id)
  call-connected (changing ch) = connected_after (run_change P r ctx ch) (run_change-InWorld ch)

module _ {P : Platform} (c : SqlStore P) (law : CommitLaw c) (r : ItemRepository) where
  -- Over an open handle, and if a commit that fails has published all of its transaction or nothing, a
  -- sequence of calls of the repository takes the committed table from step to step of the
  -- specification, whatever else the driver answers and however each call ends: each call leaves the
  -- table alone or does to it what its one statement means.
  pub after_calls-refines :
      (calls : List (Ctx P × Call)) (w : World P)
      → w.db.connected ≡ true
      → Steps (c.table w.outside) (calls_of P r calls) (c.table (after_calls P r calls w).outside)
  unfolding after_calls
  after_calls-refines [] w open_db = done
  after_calls-refines ((ctx, k) ∷ rest) w open_db =
      next (call_step c law r ctx w open_db k)
        (after_calls-refines rest (after_call P r ctx k w) (call-connected c law r ctx w open_db k))
