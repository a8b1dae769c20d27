-- ===== src/Rest/Endpoints.antt =====
-- The item endpoints of server/rest/handlers/items.go over the service and the table.
use boilerplate_go_be.Base.{
  lookup, insert, ◌≡◌, refl, arith, String, str_append, show_int, true, Option, none, some, [], ◌∷◌,
  ◌++◌,
}
use boilerplate_go_be.Code.{err_item_not_found}
use boilerplate_go_be.Runtime.{
  Error, code_error, is_no_rows, Result, ok, err, Outcome, ret, panic, exit, as_code,
}
use boilerplate_go_be.Dto.{Item, IdPath, CreateItemInput}
use boilerplate_go_be.Logger.{Log}
use boilerplate_go_be.Platform.{Platform, select_where_id}
use boilerplate_go_be.World.{World}
use boilerplate_go_be.World.Ctx.{
  Ctx, get_logger_from_context, get_repo_ctx, get_outbound_ctx, set_user_ctx, set_token_ctx,
  set_outbound_ctx, set_repo_ctx, set_logger_to_context,
}
use boilerplate_go_be.Aggregators.{
  new_repository, get_item_repository, new_outbound, example, http, get_or_create,
}
use boilerplate_go_be.Dto.{JwtUser}
use boilerplate_go_be.Items.Store.{find, SqlStore}
use boilerplate_go_be.Items.Repo
use boilerplate_go_be.Items.Refinement.{create-refines}
use boilerplate_go_be.Items.Reads.{get-found, get-missing}
use boilerplate_go_be.Items.Service
use boilerplate_go_be.Rest.{success_envelope}
use boilerplate_go_be.Rest.Handlers.{
  ItemOutput, service_from_context, get_item_handler, create_item_handler,
}

-- The service of a request's logger: the repository and the outbound client log there too.
abbrev pub service_of : Log → Service.Service
service_of log = record { item_repo = record { log = log }; external = log; log = log }

module _ (P : Platform) (app_name : String) where
  -- In the context that the logger, service and authentication middlewares build, a handler finds its
  -- service, whose three parts all log to the request's logger.
  pub service_from_context-wired :
      (ctx : Ctx P) (log : Log) (token : String) (user : JwtUser) (w : World P)
      → service_from_context P app_name
          (set_user_ctx
            (set_token_ctx
              (set_outbound_ctx
                (set_repo_ctx (set_logger_to_context ctx log) (new_repository log))
                (new_outbound log))
              token)
            user)
          w
        ≡ (ret (some (service_of log)), w)
  unfolding service_from_context set_user_ctx set_token_ctx set_outbound_ctx set_repo_ctx
      set_logger_to_context get_logger_from_context get_repo_ctx get_outbound_ctx
      Service.new_service get_item_repository example http new_repository new_outbound get_or_create
      lookup insert
  service_from_context-wired ctx log token user w = refl

module _ (P : Platform) (app_name : String) (c : SqlStore P) (ctx : Ctx P) (w : World P)
    (open_db : w.db.connected ≡ true) (svc : Service.Service)
    (wired : service_from_context P app_name ctx w ≡ (ret (some svc), w)) where
  found_by :
      (input : IdPath) (out : ItemOutput)
      → (get_item_handler P app_name ctx input w).0 ≡ ret (ok out)
      → (o : Outcome (Result Item)) → (Repo.get P svc.item_repo ctx input.id w).0 ≡ o
      → (out.status ≡ 200) × (find input.id (c.table w.outside) ≡ some out.body.body)
  unfolding get_item_handler Service.get_item success_envelope
  found_by input out h (ret (ok it)) e =
      let (row, _) = get-found P c svc.item_repo ctx w open_db input.id it e in ground arith
  found_by input out h (ret (err x)) e = absurd (ground arith)
  found_by input out h (panic p) e = absurd (ground arith)
  found_by input out h exit e = absurd (ground arith)

  created_by :
      (input : CreateItemInput) (out : ItemOutput)
      → (create_item_handler P app_name ctx input w).0 ≡ ret (ok out)
      → (o : Outcome (Item × Option Error)) → (Repo.create P svc.item_repo ctx input.body w).0 ≡ o
      → (out.status ≡ 201)
        × (out.location ≡ str_append "/items/" (show_int out.body.body.id))
        × (out.body.body.name ≡ input.body.name)
        × (find out.body.body.id (c.table w.outside) ≡ none)
        × (c.table (create_item_handler P app_name ctx input w).1.outside
            ≡ c.table w.outside ++ out.body.body ∷ [])
  unfolding create_item_handler Service.create_item success_envelope
  created_by input out h (ret (it, none)) e =
      let (fresh, named, grown) = create-refines P c svc.item_repo ctx w open_db input.body it e in
      ground arith
  created_by input out h (ret (it, some x)) e = absurd (ground arith)
  created_by input out h (panic p) e = absurd (ground arith)
  created_by input out h exit e = absurd (ground arith)

  -- Over an open handle, an answer of `GetItem` has status 200, no location, and the committed row of the id
  -- for its body.
  pub get_item_handler-found :
      (input : IdPath) (out : ItemOutput)
      → (get_item_handler P app_name ctx input w).0 ≡ ret (ok out)
      → (out.status ≡ 200) × (find input.id (c.table w.outside) ≡ some out.body.body)
  get_item_handler-found input out h =
      found_by input out h (Repo.get P svc.item_repo ctx input.id w).0 refl

  -- Over an open handle, where the driver reports that no row was found, `GetItem` fails with the code
  -- "Item not found", which is status 404.
  pub get_item_handler-missing :
      (input : IdPath) (q : P.Query) (e : Error)
      → P.to_sql (select_where_id input.id) ≡ ok q
      → (P.query_row q w.outside).0 ≡ err e
      → is_no_rows e ≡ true
      → (get_item_handler P app_name ctx input w).0 ≡ ret (err (code_error err_item_not_found))
  unfolding get_item_handler Service.get_item as_code
  get_item_handler-missing input q e built failed absent =
      ground (arith, get-missing P c svc.item_repo ctx w open_db input.id q e built failed absent)

  -- Over an open handle, an answer of `CreateItem` has status 201, its body is one new row at the end of the
  -- committed table, under the name of the input and an id that no row had, and its location has that
  -- id.
  pub create_item_handler-refines :
      (input : CreateItemInput) (out : ItemOutput)
      → (create_item_handler P app_name ctx input w).0 ≡ ret (ok out)
      → (out.status ≡ 201)
        × (out.location ≡ str_append "/items/" (show_int out.body.body.id))
        × (out.body.body.name ≡ input.body.name)
        × (find out.body.body.id (c.table w.outside) ≡ none)
        × (c.table (create_item_handler P app_name ctx input w).1.outside
            ≡ c.table w.outside ++ out.body.body ∷ [])
  create_item_handler-refines input out h =
      created_by input out h (Repo.create P svc.item_repo ctx input.body w).0 refl
