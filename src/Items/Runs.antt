-- ===== src/Items/Runs.antt =====
-- Histories of calls of repositories/item/item.go, whatever each of them ends with, against the table.
use boilerplate_go_be.Base.{
  ℤ, true, Option, Option-cases, none, some, List, [], ◌∷◌, ◌++◌, ◌≡◌, refl, ◌⊎◌, inl, inr, arith,
}
use boilerplate_go_be.Runtime.{Result-cases, Error, ok, Outcome, ret, panic, exit, Prog}
use boilerplate_go_be.Dto.{Item}
use boilerplate_go_be.Platform.{Platform}
use boilerplate_go_be.World.{World}
use boilerplate_go_be.World.Ctx.{Ctx}
use boilerplate_go_be.Database.{run_tx, settle, with_transaction}
use boilerplate_go_be.Database.Transactions.{tx_ctx, begun, with_transaction-recovered}
use boilerplate_go_be.Aggregators.{ItemRepository}
use boilerplate_go_be.Items.Store.{Table, find, rename, remove, SqlStore}
use boilerplate_go_be.Items.Repo.{list, get}
use boilerplate_go_be.Items.Atomic.{Change, creating, updating, deleting, run_change}

pub data Call : Type 0 where
  listing : Call
  getting : ℤ → Call
  changing : Change → Call

-- What a call may do to the table: nothing, or what its statement means.
pub data Step (t u : Table) : Call → Type 0 where
  stays : {k : Call} → u ≡ t → Step t u k
  creates :
      {it : Item} (it' : Item)
      → it'.name ≡ it.name
      → find it'.id t ≡ none
      → u ≡ t ++ it' ∷ []
      → Step t u (changing (creating it))
  renames : {it : Item} → u ≡ rename it.name it.id t → Step t u (changing (updating it))
  removes : {id : ℤ} → u ≡ remove id t → Step t u (changing (deleting id))

pub data Steps : Table → List Call → Table → Type 0 where
  done : {t : Table} → Steps t [] t
  next :
      {t u v : Table} {k : Call} {ks : List Call} → Step t u k → Steps u ks v → Steps t (k ∷ ks) v

-- A commit that fails has published all of the transaction or nothing.
pub record CommitLaw {P : Platform} (c : SqlStore P) : Type 0 where
  pub all_or_nothing :
      (tx : P.Tx) (s : P.State) (e : Error)
      → (P.commit tx s).0 ≡ some e
      → (c.table (P.commit tx s).1 ≡ c.table s) ⊎ (c.table (P.commit tx s).1 ≡ c.seen tx s)

module _ (P : Platform) (r : ItemRepository) where
  -- The process after one call, returned or not.
  unfoldable pub after_call : Ctx P → Call → World P → World P
  after_call ctx listing w = (list P r ctx w).1
  after_call ctx (getting id) w = (get P r ctx id w).1
  after_call ctx (changing ch) w = (run_change P r ctx ch w).1

  -- Calls one after the other, each in a context of its own.
  unfoldable pub after_calls : List (Ctx P × Call) → World P → World P
  unfolding after_call
  after_calls [] w = w
  after_calls ((ctx, k) ∷ rest) w = after_calls rest (after_call ctx k w)

  abbrev pub calls_of : List (Ctx P × Call) → List Call
  calls_of [] = []
  calls_of ((_, k) ∷ rest) = k ∷ calls_of rest

module _ {P : Platform} (c : SqlStore P) (law : CommitLaw c) (r : ItemRepository) (ctx : Ctx P)
    (w : World P) (open_db : w.db.connected ≡ true) where
  module _ {A : Type 0} (a : A) (fn : Ctx P → Prog (World P) (A × Option Error))
      (keep : (tx : P.Tx) (w' : World P)
        → c.table (fn (tx_ctx P ctx tx) w').1.outside ≡ c.table w'.outside) where
    -- The table after a transaction: as before, or what the transaction saw where its function succeeded.
    unfoldable pub Published : Type 0
    Published =
        (c.table (with_transaction P a ctx fn w).1.outside ≡ c.table w.outside)
        ⊎ ((tx : P.Tx) × ((P.begin_tx w.outside).0 ≡ ok tx)
            × (b : A) × ((fn (tx_ctx P ctx tx) (begun P w)).0 ≡ ret (b, none))
            × (c.table (with_transaction P a ctx fn w).1.outside
                ≡ c.seen tx (fn (tx_ctx P ctx tx) (begun P w)).1.outside))

    published_by :
        (tx : P.Tx)
        → (P.begin_tx w.outside).0 ≡ ok tx
        → (o : Outcome (A × Option Error)) → (fn (tx_ctx P ctx tx) (begun P w)).0 ≡ o
        → Published
    unfolding Published with_transaction run_tx settle
    published_by tx began (ret (b, none)) e =
        let s' = (fn (tx_ctx P ctx tx) (begun P w)).1.outside in
        let before = keep tx (begun P w) in
        let started = c.begin_table w.outside in
        elim (Option-cases (P.commit tx s').0) [
          | inl fine ↦ inr (tx, began, b, e, ground (arith, c.commit_table tx s' fine))
          | inr (x, failed) ↦ elim (law.all_or_nothing tx s' x failed) [
            | inl nothing ↦ inl (ground arith)
            | inr all ↦ inr (tx, began, b, e, ground arith)
          ]
        ]
    published_by tx began (ret (b, some x)) e =
        let s' = (fn (tx_ctx P ctx tx) (begun P w)).1.outside in
        inl (ground (arith, keep tx (begun P w), c.begin_table w.outside, c.rollback_table tx s'))
    published_by tx began (panic p) e =
        let s' = (fn (tx_ctx P ctx tx) (begun P w)).1.outside in
        let rolled = (with_transaction-recovered P a ctx fn w open_db tx p began e).1 in
        inl (ground (arith, keep tx (begun P w), c.begin_table w.outside, c.rollback_table tx s'))
    published_by tx began exit e =
        inl (ground (arith, keep tx (begun P w), c.begin_table w.outside))

    pub published : Published
    unfolding Published with_transaction
    published = elim (Result-cases (P.begin_tx w.outside).0) [
      | inl (tx, began) ↦ published_by tx began (fn (tx_ctx P ctx tx) (begun P w)).0 refl
      | inr (e, failed) ↦ inl (ground (arith, c.begin_table w.outside))
    ]
