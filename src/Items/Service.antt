-- ===== src/Items/Service.antt =====
-- services/item/service.go: the item service over its three dependencies. It returns each item with a code,
-- as the source does, since a caller may read the item although there is a code.
use boilerplate_go_be.Base.{ℤ, Option, none, some, List, []}
use boilerplate_go_be.Code.{Code, err_internal_server_error}
use boilerplate_go_be.Runtime.{Error, as_code, Result, ok, err, Prog, pure, raise, ◌>>=◌, ◌>>◌}
use boilerplate_go_be.Dto.{Item, zero_item}
use boilerplate_go_be.Logger.{Log, info, warn}
use boilerplate_go_be.Platform.{Platform}
use boilerplate_go_be.World.{World, log_f}
use boilerplate_go_be.World.Ctx.{Ctx}
use boilerplate_go_be.Aggregators.{ItemRepository}
use boilerplate_go_be.Outbound.Example.{fetch_item_by_id}
use boilerplate_go_be.Items.Repo

pub record Service : Type 0 where
  pub item_repo : ItemRepository
  pub external : Log
  pub log : Log

-- `NewService` on dependencies that may be nil: the external client is its logger.
unfoldable pub new_service :
    {P : Platform} → Option ItemRepository → Option Log → Option Log → Prog (World P) Service
new_service (some repo) (some external) (some log) =
    pure (record { item_repo = repo; external = external; log = log })
new_service _ _ _ = raise "missing dependencies"

-- `errors.As` to a code, else the internal error.
unfoldable pub code_of : Error → Code
code_of e = elim (as_code e) [ some c ↦ c | none ↦ err_internal_server_error ]

module _ (P : Platform) (s : Service) where
  pub after_create : Item × Option Error → Item × Option Code
  after_create (it, none) = (it, none)
  after_create (it, some e) = (zero_item, some err_internal_server_error)

  unfoldable pub create_item : Ctx P → Item → Prog (World P) (Item × Option Code)
  unfolding after_create
  create_item ctx it = do created ← Repo.create P s.item_repo ctx it; pure (after_create created)

  pub after_list : Result (List Item) → List Item × Option Code
  after_list (ok items) = (items, none)
  after_list (err e) = ([], some err_internal_server_error)

  unfoldable pub list_items : Ctx P → Prog (World P) (List Item × Option Code)
  unfolding after_list
  list_items ctx = do listed ← Repo.list P s.item_repo ctx; pure (after_list listed)

  pub after_get : Result Item → Item × Option Code
  after_get (ok it) = (it, none)
  after_get (err e) = (zero_item, some (code_of e))

  unfoldable pub get_item : Ctx P → ℤ → Prog (World P) (Item × Option Code)
  unfolding after_get code_of
  get_item ctx id = do got ← Repo.get P s.item_repo ctx id; pure (after_get got)

  unfoldable pub log_fetched : Result Item → Prog (World P) (Unit {0})
  log_fetched (ok it) = log_f s.log info "Fetched item from external service: %+v"
  log_fetched (err e) = log_f s.log warn "Failed to fetch item from external service: %v"

  pub after_update : Item → Option Error → Item × Option Code
  after_update it none = (it, none)
  after_update it (some e) = (zero_item, some (code_of e))

  unfoldable pub update_item : Ctx P → Item → Prog (World P) (Item × Option Code)
  unfolding log_fetched after_update code_of
  update_item ctx it = do
    fetched ← fetch_item_by_id P s.external ctx it.id
    log_fetched fetched
    updated ← Repo.update P s.item_repo ctx it
    pure (after_update it updated)

  pub after_delete : Option Error → Option Code
  after_delete none = none
  after_delete (some e) = some (code_of e)

  unfoldable pub delete_item : Ctx P → ℤ → Prog (World P) (Option Code)
  unfolding after_delete code_of
  delete_item ctx id = do deleted ← Repo.delete P s.item_repo ctx id; pure (after_delete deleted)
