-- ===== src/Rest/Handlers.antt =====
-- server/rest/handlers/items.go: the item endpoints, on the request's context. The repository that the
-- context holds is reached through a pointer; its cache is not read again in the request, so its change
-- is left out.
use boilerplate_go_be.Base.{ℕ, String, str_append, Option, none, some, List, show_int}
use boilerplate_go_be.Code.{Code, err_internal_server_error}
use boilerplate_go_be.Runtime.{code_error, Result, ok, err, Prog, pure, ◌>>=◌}
use boilerplate_go_be.Dto.{Item, CreateItemInput, IdPath, ListItemsInput, UpdateItemInput}
use boilerplate_go_be.Aggregators.{Repository, Outbound, get_item_repository, example, http}
use boilerplate_go_be.Logger.{Log}
use boilerplate_go_be.Platform.{Platform}
use boilerplate_go_be.World.{World}
use boilerplate_go_be.World.Ctx.{Ctx, get_logger_from_context, get_repo_ctx, get_outbound_ctx}
use boilerplate_go_be.Items.Service.{
  Service, new_service, create_item, list_items, get_item, update_item, delete_item,
}
use boilerplate_go_be.Rest.{Envelope, success_envelope}

pub record ItemsOutput : Type 0 where
  pub status : ℕ
  pub body : Envelope (List Item)

pub record ItemOutput : Type 0 where
  pub status : ℕ
  pub location : String
  pub body : Envelope Item

module _ (P : Platform) (app_name : String) where
  unfoldable pub with_all :
      Option Repository → Option Outbound → Option Log → Prog (World P) (Option Service)
  with_all (some r) (some out) (some log) = do
    svc ← new_service {P = P} (some (get_item_repository r).0) (http (example out).0).0 (some log)
    pure (some svc)
  with_all _ _ _ = pure none

  unfoldable pub service_from_context : Ctx P → Prog (World P) (Option Service)
  unfolding with_all
  service_from_context ctx =
      with_all (get_repo_ctx ctx) (get_outbound_ctx ctx) (get_logger_from_context ctx)

  -- The handlers' common start: without a service, the internal error.
  abbrev pub on_service :
      {A : Type 0} → Ctx P → (Service → Prog (World P) (Result A)) → Prog (World P) (Result A)
  on_service ctx f = do
    svc ← service_from_context ctx
    elim svc [ none ↦ pure (err (code_error err_internal_server_error)) | some s ↦ f s ]

  abbrev pub item_output : ℕ → String → Item × Option Code → Result ItemOutput
  item_output status location (it, some c) = err (code_error c)
  item_output status location (it, none) =
      ok (record {
        status = status;
        location = location;
        body = success_envelope app_name status it;
      })

  abbrev pub items_output : List Item × Option Code → Result ItemsOutput
  items_output (its, some c) = err (code_error c)
  items_output (its, none) = ok (record { status = 200; body = success_envelope app_name 200 its })

  unfoldable pub list_items_handler : Ctx P → ListItemsInput → Prog (World P) (Result ItemsOutput)
  list_items_handler ctx _ =
      on_service ctx (λ svc. do listed ← list_items P svc ctx; pure (items_output listed))

  unfoldable pub create_item_handler : Ctx P → CreateItemInput → Prog (World P) (Result ItemOutput)
  create_item_handler ctx input = on_service ctx (λ svc. do
    created ← create_item P svc ctx input.body
    pure (item_output 201 (str_append "/items/" (show_int created.0.id)) created))

  unfoldable pub get_item_handler : Ctx P → IdPath → Prog (World P) (Result ItemOutput)
  get_item_handler ctx input =
      on_service ctx (λ svc. do got ← get_item P svc ctx input.id; pure (item_output 200 "" got))

  -- The path's id replaces the body's.
  unfoldable pub update_item_handler : Ctx P → UpdateItemInput → Prog (World P) (Result ItemOutput)
  update_item_handler ctx input = on_service ctx (λ svc. do
    updated ← update_item P svc ctx (record (input.body) { id = input.id })
    pure (item_output 200 "" updated))

  abbrev pub empty_output : Option Code → Result (Unit {0})
  empty_output (some c) = err (code_error c)
  empty_output none = ok tt

  unfoldable pub delete_item_handler : Ctx P → IdPath → Prog (World P) (Result (Unit {0}))
  delete_item_handler ctx input =
      on_service ctx
        (λ svc. do deleted ← delete_item P svc ctx input.id; pure (empty_output deleted))
