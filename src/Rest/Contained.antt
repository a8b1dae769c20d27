-- ===== src/Rest/Contained.antt =====
-- What can come out of server/rest: the endpoints and the middlewares neither end the process nor change its
-- database handle or JWT service, and the whole chain returns to net/http.
use boilerplate_go_be.Base.{
  show_int, String, ℤ, Bool, true, false, is_positive, seconds, Option, none, some, refl,
  if◌then◌else◌,
}
use boilerplate_go_be.Code.{err_internal_server_error, err_not_found}
use boilerplate_go_be.Runtime.{code_error, Result, ok, err, Prog, pure, ◌>>=◌}
use boilerplate_go_be.Aggregators.{
  ItemRepository, Repository, Outbound, get_item_repository, example, http,
}
use boilerplate_go_be.Logger.{Log}
use boilerplate_go_be.Platform.{Platform}
use boilerplate_go_be.World.{World}
use boilerplate_go_be.World.Ctx.{Ctx, get_logger_from_context, get_repo_ctx, get_outbound_ctx}
use boilerplate_go_be.Items.Service
use boilerplate_go_be.Items.Contained.{
  create_item-InWorld, list_items-InWorld, get_item-InWorld, update_item-InWorld,
  delete_item-InWorld,
}
use boilerplate_go_be.Rest.Handlers.{
  with_all, service_from_context, on_service, list_items_handler, create_item_handler,
  get_item_handler, update_item_handler, delete_item_handler,
}
use boilerplate_go_be.Rest.Files
use boilerplate_go_be.Rest.Files.{Files}
use boilerplate_go_be.Rest.Routes.{Endpoint, Input, run_endpoint}
use boilerplate_go_be.Contained.{
  InWorld, Contained-pure, Contained-raise, Contained-if, Contained-option, Contained-result,
  Contained-modify, Contained-bind, Contained-call,
}

module _ (P : Platform) (app_name : String) where
  new_service-InWorld :
      (repo : Option ItemRepository) (external log : Option Log)
      → InWorld (Service.new_service {P = P} repo external log)
  unfolding Service.new_service
  new_service-InWorld (some repo) (some external) (some log) = Contained-pure _ _
  new_service-InWorld none external log = Contained-raise _ "missing dependencies"
  new_service-InWorld (some repo) none log = Contained-raise _ "missing dependencies"
  new_service-InWorld (some repo) (some external) none = Contained-raise _ "missing dependencies"

  with_all-InWorld :
      (repo : Option Repository) (out : Option Outbound) (log : Option Log)
      → InWorld (with_all P app_name repo out log)
  unfolding with_all
  with_all-InWorld (some r) (some out) (some log) =
      Contained-bind _ _ _
        (new_service-InWorld (some (get_item_repository r).0) (http (example out).0).0 (some log))
        (λ svc. Contained-pure _ (some svc))
  with_all-InWorld none out log = Contained-pure _ none
  with_all-InWorld (some r) none log = Contained-pure _ none
  with_all-InWorld (some r) (some out) none = Contained-pure _ none

  on_service-InWorld :
      {A : Type 0} (ctx : Ctx P) (f : Service.Service → Prog (World P) (Result A))
      → ((s : Service.Service) → InWorld (f s))
      → InWorld (on_service P app_name ctx f)
  unfolding service_from_context
  on_service-InWorld ctx f h =
      Contained-bind _ (service_from_context P app_name ctx) _
        (with_all-InWorld (get_repo_ctx ctx) (get_outbound_ctx ctx) (get_logger_from_context ctx))
        (λ svc.
          Contained-option _ svc _ f (Contained-pure _ (err (code_error err_internal_server_error)))
            h)

  -- An answer that is made of what the service returns.
  answered :
      {A B : Type 0} (m : Prog (World P) A) (f : A → B)
      → InWorld m
      → InWorld (m >>= λ a. pure (f a))
  answered m f h = Contained-bind _ m _ h (λ a. Contained-pure _ (f a))

  module _ (F : Files P) where
    accept_file-InWorld :
        (has_file : Bool) (msg : String) → InWorld (Files.accept_file F app_name has_file msg)
    unfolding Files.accept_file
    accept_file-InWorld false msg = Contained-pure _ _
    accept_file-InWorld true msg =
        Contained-bind _ _ _ (Contained-modify _ _ (λ w. (refl, refl)))
          (λ _. Contained-pure _ (ok (Files.message_output F app_name msg)))

    download_file-InWorld : (name : String) → InWorld (Files.download_file F app_name name)
    unfolding Files.download_file
    download_file-InWorld name =
        Contained-bind _ _ _ (Contained-call (F.read_data (P.path_join "public" name))) (λ got.
          Contained-result _ got _ _
            (λ data_. Contained-pure _ (ok (Files.download_output F app_name name data_)))
            (λ e. Contained-pure _ (
              err
                (code_error (if F.not_exist e then err_not_found else err_internal_server_error)))))

    long-InWorld : (sleep_seconds : ℤ) → InWorld (Files.long F app_name sleep_seconds)
    unfolding Files.long Files.system_long
    long-InWorld sleep_seconds =
        Contained-bind _ (Files.system_long F app_name sleep_seconds) _
          (Contained-bind _ _ _
            (Contained-if _ (is_positive sleep_seconds)
              (Contained-modify _
                (λ w. record w { outside = F.sleep_for (seconds sleep_seconds) w.outside })
                (λ w. (refl, refl)))
              (Contained-pure _ tt))
            (λ _. Contained-pure _ (show_int F.getpid)))
          (λ pid. Contained-pure _ (ok (Files.message_output F app_name pid)))

    pub run_endpoint-InWorld :
        (e : Endpoint) (ctx : Ctx P) (input : Input e)
        → InWorld (run_endpoint F app_name e ctx input)
    unfolding run_endpoint list_items_handler create_item_handler get_item_handler
        update_item_handler delete_item_handler Files.echo Files.crash Files.system_echo
        Files.system_crash Files.upload_file Files.form_with_file
    run_endpoint-InWorld Endpoint.list_items ctx input =
        on_service-InWorld ctx _
          (λ svc. answered (Service.list_items P svc ctx) _ (list_items-InWorld P svc ctx))
    run_endpoint-InWorld Endpoint.create_item ctx input = on_service-InWorld ctx _ (λ svc.
        answered (Service.create_item P svc ctx input.body) _
          (create_item-InWorld P svc ctx input.body))
    run_endpoint-InWorld Endpoint.get_item ctx input = on_service-InWorld ctx _ (λ svc.
        answered (Service.get_item P svc ctx input.id) _ (get_item-InWorld P svc ctx input.id))
    run_endpoint-InWorld Endpoint.update_item ctx input = on_service-InWorld ctx _ (λ svc.
        answered (Service.update_item P svc ctx (record (input.body) { id = input.id })) _
          (update_item-InWorld P svc ctx (record (input.body) { id = input.id })))
    run_endpoint-InWorld Endpoint.delete_item ctx input = on_service-InWorld ctx _ (λ svc.
        answered (Service.delete_item P svc ctx input.id) _
          (delete_item-InWorld P svc ctx input.id))
    run_endpoint-InWorld Endpoint.echo ctx input =
        answered (Files.system_echo F app_name) (λ resp. ok (Files.message_output F app_name resp))
          (Contained-pure _ "echo")
    run_endpoint-InWorld Endpoint.crash ctx input =
        Contained-bind _ (Files.system_crash F app_name) _ (Contained-raise _ "intentional crash")
          (λ _. Contained-pure _ (ok (Files.message_output F app_name "")))
    run_endpoint-InWorld Endpoint.long ctx input = long-InWorld input
    run_endpoint-InWorld Endpoint.upload_file ctx input = accept_file-InWorld input "uploaded"
    run_endpoint-InWorld Endpoint.download_file ctx input = download_file-InWorld input
    run_endpoint-InWorld Endpoint.form_with_file ctx input = accept_file-InWorld input.0 input.1
