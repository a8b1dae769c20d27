-- ===== src/Rest/Routes.antt =====
-- server/rest/routes and the part of `GetRESTServer` in cmd/start_rest.go that puts the routes and the
-- middlewares together: the operations of each router, the groups that they are registered in, and the
-- handler that net/http is given.
use boilerplate_go_be.Base.{
  ℕ, ℤ, String, str_append, Bool, true, false, ◌⊎◌, inl, inr, List, [], ◌∷◌, ◌++◌, map,
  if◌then◌else◌,
}
use mathlib.Core.List.{Memᴰ}
use boilerplate_go_be.Runtime.{Result, Prog, ◌>>=◌}
use boilerplate_go_be.Dto.{CreateItemInput, IdPath, ListItemsInput, UpdateItemInput}
use boilerplate_go_be.Logger.{Log}
use boilerplate_go_be.Platform.{Platform}
use boilerplate_go_be.World.{World}
use boilerplate_go_be.World.Ctx.{Ctx}
use boilerplate_go_be.Rest.{Reply}
use boilerplate_go_be.Rest.Middleware.{
  Request, Handler, in_world, respond, auth_middleware, error_format_middleware, logger_middleware,
  service_middleware, recover_middleware, wrap_http_middleware,
}
use boilerplate_go_be.Rest.Handlers.{
  ItemsOutput, ItemOutput, list_items_handler, create_item_handler, get_item_handler,
  update_item_handler, delete_item_handler,
}
use boilerplate_go_be.Rest.Files
use boilerplate_go_be.Rest.Files.{Files, MessageOutput, DownloadOutput}

-- The functions of server/rest/handlers.
pub data Endpoint : Type 0 where
  list_items create_item get_item update_item delete_item : Endpoint
  echo crash long : Endpoint
  upload_file download_file form_with_file : Endpoint

-- `core.Operation`, with the handler that is registered for it.
pub record Operation : Type 0 where
  pub operation_id : String
  pub method : String
  pub path : String
  pub summary : String
  pub hidden : Bool
  pub description : String
  pub default_status : ℕ
  pub handler : Endpoint

abbrev operation : String → String → String → String → Bool → String → ℕ → Endpoint → Operation
operation id method path summary hidden description status handler = record {
  operation_id = id;
  method = method;
  path = path;
  summary = summary;
  hidden = hidden;
  description = description;
  default_status = status;
  handler = handler;
}

abbrev pub get_item_operation : Operation
get_item_operation = operation "getItem" "GET" "/{id}" "Get item" false "" 200 get_item

unfoldable pub items_router : List Operation
items_router =
    operation "listItems" "GET" "" "List items" false "" 200 list_items
    ∷ operation "createItem" "POST" "" "Create item" false "" 201 create_item
    ∷ get_item_operation
    ∷ operation "updateItem" "PUT" "/{id}" "Update item" false "" 200 update_item
    ∷ operation "deleteItem" "DELETE" "/{id}" "Delete item" true "" 204 delete_item
    ∷ []

abbrev pub crash_operation : Operation
crash_operation =
    operation "crash" "GET" "/crash" "Crash" true
      "Intentionally crashes the application to trigger a restart." 500 crash

unfoldable pub system_router : List Operation
system_router =
    operation "echo" "GET" "/echo" "Echo" true "" 200 echo
    ∷ crash_operation
    ∷ operation "long" "GET" "/long" "Long" true "" 200 long
    ∷ []

unfoldable pub files_router : List Operation
files_router =
    operation "uploadFile" "POST" "/upload" "Upload file" false "" 200 upload_file
    ∷ operation "downloadFile" "GET" "/download/{name}" "Download file" false "" 200 download_file
    ∷ operation "formWithFile" "POST" "/form" "Multipart form" false "" 200 form_with_file
    ∷ []

-- An operation in its group: the prefix, which is also the tag with its slash, and whether
-- `WithSecurity` puts the authentication before it.
pub record Registration : Type 0 where
  pub prefix : String
  pub secured : Bool
  pub operation : Operation

unfoldable pub group : String → Bool → List Operation → List Registration
group prefix secured ops =
    map (λ op. record { prefix = prefix; secured = secured; operation = op }) ops

-- Two of the registrations, by name: a router that finds one shows that it is among `registrations`.
abbrev pub get_item_route : Registration
get_item_route = record { prefix = "/items"; secured = true; operation = get_item_operation }

abbrev pub crash_route : Registration
crash_route = record { prefix = "/system"; secured = false; operation = crash_operation }

-- The three groups of `GetRESTServer`.
unfoldable pub registrations : List Registration
unfolding group items_router system_router files_router
registrations =
    group "/items" true items_router
    ++ group "/system" false system_router
    ++ group "/files" false files_router

-- The method and the pattern that a registration is found under, below the base path.
unfoldable pub route_of : Registration → String × String
route_of reg = (reg.operation.method, str_append reg.prefix reg.operation.path)

abbrev pub Input : Endpoint → Type 0
Input list_items = ListItemsInput
Input create_item = CreateItemInput
Input get_item = IdPath
Input update_item = UpdateItemInput
Input delete_item = IdPath
Input echo = Unit {0}
Input crash = Unit {0}
Input long = ℤ
Input upload_file = Bool
Input download_file = String
Input form_with_file = Bool × String

-- How chi and neoma dispose of a request: one of the registrations, or an answer of their own, such as
-- that to an unknown path or a page of the documentation.
pub data Routed (regs : List Registration) : Type 0 where
  registered : (reg : Registration) → Memᴰ reg regs → Routed regs
  elsewhere : (Reply → Reply) → Routed regs

module _ {P : Platform} (F : Files P) (app_name : String) where
  abbrev pub Output : Endpoint → Type 0
  Output list_items = ItemsOutput
  Output create_item = ItemOutput
  Output get_item = ItemOutput
  Output update_item = ItemOutput
  Output delete_item = Unit {0}
  Output echo = MessageOutput
  Output crash = MessageOutput
  Output long = MessageOutput
  Output upload_file = MessageOutput
  Output download_file = DownloadOutput F app_name
  Output form_with_file = MessageOutput

  -- chi and neoma: the routing over the registrations, the decoding and validation of a request into an
  -- input, which may answer by itself, and the writing of an output or an error.
  pub record Framework : Type 0 where
    pub route : (regs : List Registration) → Request P → Routed regs
    pub decode : (op : Operation) → Request P → Input op.handler ⊎ (Reply → Reply)
    pub encode : (op : Operation) → Result (Output op.handler) → Reply → Reply

  -- The handler that is registered under a name.
  unfoldable pub run_endpoint :
      (e : Endpoint) → Ctx P → Input e → Prog (World P) (Result (Output e))
  run_endpoint list_items ctx input = list_items_handler P app_name ctx input
  run_endpoint create_item ctx input = create_item_handler P app_name ctx input
  run_endpoint get_item ctx input = get_item_handler P app_name ctx input
  run_endpoint update_item ctx input = update_item_handler P app_name ctx input
  run_endpoint delete_item ctx input = delete_item_handler P app_name ctx input
  run_endpoint echo ctx input = Files.echo F app_name
  run_endpoint crash ctx input = Files.crash F app_name
  run_endpoint long ctx input = Files.long F app_name input
  run_endpoint upload_file ctx input = Files.upload_file F app_name input
  run_endpoint download_file ctx input = Files.download_file F app_name input
  run_endpoint form_with_file ctx input = Files.form_with_file F app_name input.0 input.1

  module _ (T : Framework) where
    -- An operation as neoma runs it.
    unfoldable pub serve : Operation → Handler P
    unfolding run_endpoint
    serve op r = elim (T.decode op r) [
      | inl input ↦ do
        out ← in_world P (run_endpoint op.handler r.ctx input)
        respond P (T.encode op out)
      | inr refusal ↦ respond P refusal
    ]

    -- What follows the routing, over what runs for each operation.
    unfoldable pub routed :
        {regs : List Registration} → (Operation → Handler P) → Routed regs → Handler P
    routed act (elsewhere answer) r = respond P answer
    routed act (registered reg found) r =
        if reg.secured
        then wrap_http_middleware P (auth_middleware P) (act reg.operation) r
        else act reg.operation r

    unfoldable pub root : (Operation → Handler P) → Handler P
    unfolding routed registrations
    root act r = routed act (T.route registrations r) r

    -- The middlewares around the router, the outermost first.
    unfoldable pub handler_chain : (Operation → Handler P) → Log → Handler P
    unfolding root
    handler_chain act log =
        recover_middleware P log
          (logger_middleware P (service_middleware P (error_format_middleware P (root act))))

    -- What `GetRESTServer` gives to net/http.
    unfoldable pub rest_handler : Log → Handler P
    unfolding handler_chain serve
    rest_handler log = handler_chain serve log
