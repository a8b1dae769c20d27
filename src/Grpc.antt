-- ===== src/Grpc.antt =====
-- server/grpc: the item service over gRPC, and its interceptors. An incoming call is its context with its
-- metadata, whose keys are lower case; a pb message keeps int32 ids.
pub mod Calls
use boilerplate_go_be.Base.{
  ℤ, String, str_append, Bool, Option, none, some, List, [], ◌∷◌, map, str_eq, trim_prefix, int32,
  if◌then◌else◌,
}
use boilerplate_go_be.Code.{Code, GrpcCode, internal, unauthenticated}
use boilerplate_go_be.Runtime.{
  Error, Outcome, ret, Result, ok, err, Prog, pure, modify, recover_with, ◌>>=◌, ◌>>◌,
}
use boilerplate_go_be.Dto.{Item}
use boilerplate_go_be.Logger.{Log, info, error}
use boilerplate_go_be.Aggregators.{new_repository, get_item_repository, new_outbound, example, http}
use boilerplate_go_be.Platform.{Platform}
use boilerplate_go_be.World.{World, log_f, the_cfg, unique_id_by_time}
use boilerplate_go_be.World.Ctx.{Ctx, get_logger_from_context, set_user_ctx, set_token_ctx}
use boilerplate_go_be.Logging.{new_logger}
use boilerplate_go_be.Jwt.{get_jwt_service, parse_jwt}
use boilerplate_go_be.Database.{get_db}
use boilerplate_go_be.Supervisor.{request_restart}
use boilerplate_go_be.Items.Service

-- `status.Error`.
pub record Status : Type 0 where
  pub code : GrpcCode
  pub message : String

pub data Answer (A : Type 0) : Type 0 where
  answer : A → Answer A
  failed : Status → Answer A

pub record Incoming (P : Platform) : Type 0 where
  pub ctx : Ctx P
  pub metadata : List (String × String)

-- The first value of a key, or the empty string.
unfoldable pub get_header : List (String × String) → String → String
get_header [] key = ""
get_header ((k, v) ∷ rest) key = if str_eq k key then v else get_header rest key

-- `int(in.Id)` of a wire id and `int32(id)` of a service's.
abbrev pub to_pb : Item → Item
to_pb it = record it { id = int32 it.id }

unfoldable pub status_of : Code → Status
status_of c = record { code = c.grpc_code; message = c.message }

module _ (P : Platform) where
  abbrev internal_error : {A : Type 0} → String → Prog (World P) (Answer A)
  internal_error msg = pure (failed (record { code = internal; message = msg }))

  -- The logger of the context, or a new one under the caller's parent id.
  unfoldable pub request_log : Option Log → String → Prog (World P) (Answer Log)
  request_log (some log) parent_id = pure (answer log)
  request_log none parent_id = do
    child ← unique_id_by_time
    elim child [
      | err e ↦ internal_error "failed to generate child ID: %v"
      | ok child_id ↦ do
        cfg ← the_cfg
        made ← new_logger P cfg.log_target parent_id child_id
        elim made [
          | err e ↦ internal_error "failed to create logger: %v"
          | ok log ↦ pure (answer log)
        ]
    ]

  unfoldable pub parent_of : String → Prog (World P) (Result String)
  parent_of given =
      if str_eq given ""
      then (do
        made ← unique_id_by_time
        pure (elim made [ ok id ↦ ok (str_append "-" id) | err e ↦ err e ]))
      else pure (ok given)

  -- The token is checked, then the service is built on it.
  unfoldable pub authenticated :
      Incoming P → Log → Prog (World P) (Answer (Ctx P × Service.Service))
  authenticated call log = do
    let token = trim_prefix (get_header call.metadata "authorization") "Bearer "
    jwt ← get_jwt_service P
    parsed ← parse_jwt P jwt token
    elim parsed.1 [
      | some e ↦ do
        log_f log error "invalid token: %v"
        pure (failed (record { code = unauthenticated; message = "invalid token" }))
      | none ↦ do
        svc ←
            Service.new_service (some (get_item_repository (new_repository log)).0)
              (http (example (new_outbound log)).0).0 (some log)
        pure (answer (set_token_ctx (set_user_ctx call.ctx parsed.0) token, svc))
    ]

  unfoldable pub build_service : Incoming P → Prog (World P) (Answer (Ctx P × Service.Service))
  unfolding request_log parent_of authenticated
  build_service call = do
    parent ← parent_of (get_header call.metadata "parent-id")
    elim parent [
      | err e ↦ internal_error "failed to generate request ID: %v"
      | ok parent_id ↦ do
        log ← request_log (get_logger_from_context call.ctx) parent_id
        elim log [ failed s ↦ pure (failed s) | answer l ↦ authenticated call l ]
    ]

  -- A method: the service is built, then asked.
  abbrev pub on_built :
      {A : Type 0}
      → Incoming P
      → (Ctx P → Service.Service → Prog (World P) (Answer A))
      → Prog (World P) (Answer A)
  on_built call f = do
    built ← build_service call
    elim built [ failed s ↦ pure (failed s) | answer b ↦ f b.0 b.1 ]

  abbrev pub pb_item : Item × Option Code → Answer Item
  pb_item (it, some c) = failed (status_of c)
  pb_item (it, none) = answer (to_pb it)

  abbrev pb_items : List Item × Option Code → Answer (List Item)
  pb_items (its, some c) = failed (status_of c)
  pb_items (its, none) = answer (map to_pb its)

  unfoldable pub create_item : Incoming P → Item → Prog (World P) (Answer Item)
  create_item call it =
      on_built call
        (λ ctx svc. do created ← Service.create_item P svc ctx it; pure (pb_item created))

  unfoldable pub list_items : Incoming P → Prog (World P) (Answer (List Item))
  list_items call =
      on_built call (λ ctx svc. do listed ← Service.list_items P svc ctx; pure (pb_items listed))

  unfoldable pub get_item : Incoming P → ℤ → Prog (World P) (Answer Item)
  get_item call id =
      on_built call (λ ctx svc. do got ← Service.get_item P svc ctx id; pure (pb_item got))

  unfoldable pub update_item : Incoming P → Item → Prog (World P) (Answer Item)
  update_item call it =
      on_built call
        (λ ctx svc. do updated ← Service.update_item P svc ctx it; pure (pb_item updated))

  unfoldable pub delete_item : Incoming P → ℤ → Prog (World P) (Answer (Unit {0}))
  delete_item call id = on_built call (λ ctx svc. do
    deleted ← Service.delete_item P svc ctx id
    pure (elim deleted [ some c ↦ failed (status_of c) | none ↦ answer tt ]))

  report : Log → Option Error → Prog (World P) (Unit {0})
  report log none = pure tt
  report log (some e) = log_f log error "restart request failed: %v"

  -- The restart is asked for in a goroutine of its own; here it runs to its end at once.
  unfoldable pub recover_interceptor :
      {A : Type 0} → Log → Prog (World P) (Answer A) → Prog (World P) (Answer A)
  unfolding report
  recover_interceptor log handler = recover_with handler (λ _. do
    log_f log error "Recovered panic in %s: %v\n%s"
    asked ← request_restart P
    report log asked
    internal_error "internal server error")

  log_failure : {A : Type 0} → Log → Answer A → Prog (World P) (Unit {0})
  log_failure log (answer a) = pure tt
  log_failure log (failed s) = log_f log error "gRPC error: %v"

  unfoldable pub logging_interceptor :
      {A : Type 0} → Log → Prog (World P) (Answer A) → Prog (World P) (Answer A)
  unfolding log_failure
  logging_interceptor log handler = do
    log_f log info "gRPC call: %s"
    result ← handler
    log_failure log result
    pure result

  -- The chain of `NewServer` around a method.
  unfoldable pub served : {A : Type 0} → Log → Prog (World P) (Answer A) → Prog (World P) (Answer A)
  served log handler = recover_interceptor log (logging_interceptor log handler)
