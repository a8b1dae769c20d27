-- ===== src/Rest/Authorized.antt =====
-- The handler of cmd/start_rest.go for a request with a token that is accepted.
use boilerplate_go_be.Base.{str_eq, String, true, false, ◌≡◌, refl, ◌∙◌, ap, arith, inl, none, some}
use boilerplate_go_be.Runtime.{ok, Result, ret}
use boilerplate_go_be.Dto.{JwtUser, IdPath}
use boilerplate_go_be.Logger.{Log}
use boilerplate_go_be.Platform.{Platform}
use boilerplate_go_be.World.{World, JwtService}
use boilerplate_go_be.World.Ctx.{set_user_ctx, get_logger_from_context}
use boilerplate_go_be.Jwt.{parse_jwt, get_jwt_service}
use boilerplate_go_be.Jwt.Contained.{parse_jwt-same}
use boilerplate_go_be.Rest.Middleware.{
  Exchange, Request, Handler, bearer, push_layer, pop_layer, auth_middleware, request_logger,
}
use boilerplate_go_be.Rest.Files.{Files}
use boilerplate_go_be.Rest.Routes.{
  get_item_operation, get_item_route, Output, Input, run_endpoint, Framework, Operation,
  Registration, serve, rest_handler,
}
use boilerplate_go_be.Items.Store.{find, SqlStore}
use boilerplate_go_be.Rest.Handlers.{ItemOutput, get_item_handler}
use boilerplate_go_be.Rest.Endpoints.{
  service_of, service_from_context-wired, get_item_handler-found,
}
use boilerplate_go_be.Rest.Answers.{
  pushed, Finds, recovered_ret, request_of-logger, inner-ret, secured_root,
}
use boilerplate_go_be.Rest.Chain.{request_of, inner, passed}

module _ (P : Platform) where
  authenticated :
      (next : Handler P) (r : Request P) (y : Exchange P) (l : Log) (svc : JwtService P)
      (user : JwtUser)
      → get_logger_from_context r.ctx ≡ some l
      → y.world.jwt.instance_ ≡ some svc
      → str_eq (bearer P r) "" ≡ false
      → (parse_jwt P svc (bearer P r) y.world).0 ≡ ret (user, none)
      → auth_middleware P next r y
        ≡ next
            (record r { ctx = set_user_ctx r.ctx user })
            (record y { world = (parse_jwt P svc (bearer P r) y.world).1 })
  unfolding auth_middleware get_jwt_service
  authenticated next r y l svc user there set given accepted = ground arith

  -- The request as an endpoint behind the authentication gets it.
  unfoldable pub user_request : Log → JwtUser → Request P → Request P
  unfolding request_of
  user_request l user r = record (request_of P l r) {
    ctx = set_user_ctx (request_of P l r).ctx user;
  }

module _ {P : Platform} (F : Files P) (app_name : String) (T : Framework F app_name) (log : Log)
    (r : Request P) (x : Exchange P) where
  served :
      (op : Operation) (r' : Request P) (y : Exchange P) (input : Input op.handler)
      (out : Result (Output F app_name op.handler)) (w : World P)
      → T.decode op r' ≡ inl input
      → run_endpoint F app_name op.handler r'.ctx input y.world ≡ (ret out, w)
      → serve F app_name T op r' y ≡ (ret tt, record { world = w; reply = T.encode op out y.reply })
  unfolding serve
  served op r' y input out w decoded ran = ground arith

  -- Where the request gets a logger, is routed to a secured operation, has a token that `ParseJWT` accepts, is
  -- decoded for the operation, and the operation's endpoint returns in the context of that logger and that user,
  -- the outcome of the whole handler is a return, the endpoint's world, and the endpoint's result as the
  -- framework writes it, within the writer of the error formatter.
  pub rest_handler-answers :
      (reg : Registration) (l : Log) (x1 : Exchange P) (svc : JwtService P) (user : JwtUser)
      (input : Input reg.operation.handler) (out : Result (Output F app_name reg.operation.handler))
      (w : World P)
      → request_logger P r x ≡ (ret (some l), x1)
      → Finds P T r reg
      → reg.secured ≡ true
      → x1.world.jwt.instance_ ≡ some svc
      → str_eq (bearer P r) "" ≡ false
      → (parse_jwt P svc (bearer P r) x1.world).0 ≡ ret (user, none)
      → T.decode reg.operation (user_request P l user r) ≡ inl input
      → run_endpoint F app_name reg.operation.handler
          (user_request P l user r).ctx
          input
          (parse_jwt P svc (bearer P r) x1.world).1
        ≡ (ret out, w)
      → let written = T.encode reg.operation out (push_layer P x1.reply) in
        rest_handler F app_name T log r x
        ≡ (ret tt, record { world = w; reply = pop_layer P written.layers written })
  unfolding rest_handler request_of user_request
  rest_handler-answers reg l x1 svc user input out w logged goes secured set given accepted decoded
        ran =
      let act = serve F app_name T in
      let y = pushed P x1 in
      let routed_to =
        secured_root F app_name T act r l y reg goes secured
        ∙ authenticated P (act reg.operation) (request_of P l r) y l svc user
            (request_of-logger P l r) set given accepted
        ∙ served reg.operation (user_request P l user r) _ input out w decoded ran in
      let through = inner-ret F app_name T act r l x1 _ routed_to refl in
      passed F app_name T act log r x l x1 logged
      ∙ recovered_ret P log r x (inner F app_name T act r l x1) (ap (λ d. d.0) through)
      ∙ through

  -- Over an open database handle, where a request gets a logger, is routed to `GetItem`, has a token that
  -- is not empty and that `ParseJWT` accepts, is decoded to an id, and the endpoint answers with an item in the
  -- context of that logger and that user: the whole handler returns, the client gets that answer as the
  -- framework writes it, its status is 200, and the item is the committed row of the id.
  pub get_item_request-answers :
      (c : SqlStore P) (l : Log) (x1 : Exchange P) (svc : JwtService P) (user : JwtUser)
      (input : IdPath) (out : ItemOutput)
      → request_logger P r x ≡ (ret (some l), x1)
      → Finds P T r get_item_route
      → x1.world.jwt.instance_ ≡ some svc
      → x1.world.db.connected ≡ true
      → str_eq (bearer P r) "" ≡ false
      → (parse_jwt P svc (bearer P r) x1.world).0 ≡ ret (user, none)
      → T.decode get_item_operation (user_request P l user r) ≡ inl input
      → (get_item_handler P app_name (user_request P l user r).ctx input x1.world).0 ≡ ret (ok out)
      → let written = T.encode get_item_operation (ok out) (push_layer P x1.reply) in
        ((rest_handler F app_name T log r x).0 ≡ ret tt)
        × ((rest_handler F app_name T log r x).1.reply ≡ pop_layer P written.layers written)
        × (out.status ≡ 200)
        × (find input.id (c.table x1.world.outside) ≡ some out.body.body)
  unfolding run_endpoint user_request request_of
  get_item_request-answers c l x1 svc user input out logged goes set opened given accepted decoded
        ran =
      let ctx = (user_request P l user r).ctx in
      let same = parse_jwt-same P svc (bearer P r) x1.world in
      let all =
        rest_handler-answers get_item_route l x1 svc user input (ok out)
          (get_item_handler P app_name ctx input x1.world).1 logged goes refl set given accepted
          decoded (ground (arith, same, ran)) in
      let (ok_status, row) =
        get_item_handler-found P app_name c ctx x1.world opened (service_of l)
          (service_from_context-wired P app_name r.ctx l (bearer P r) user x1.world) input out
          ran in
      (ap (λ d. d.0) all, ap (λ d. d.1.reply) all, ok_status, row)
