-- ===== src/Grpc/Calls.antt =====
-- server/grpc from the client: panics, tokens and ids.
use boilerplate_go_be.Base.{
  subst, refl, ap, ◌↔◌, ◌≡◌, arith, false, String, Option, none, some, str_eq, trim_prefix,
  FitsInt32, int32-eq_of_FitsInt32, int32-FitsInt32,
}
use boilerplate_go_be.Code.{internal, unauthenticated}
use boilerplate_go_be.Runtime.{Error, Outcome, ret, panic, exit, Prog}
use boilerplate_go_be.Dto.{Item, JwtUser}
use boilerplate_go_be.Logger.{Log, info, error}
use boilerplate_go_be.Platform.{Platform}
use boilerplate_go_be.World.{World, JwtService, log_f}
use boilerplate_go_be.World.Ctx.{Ctx, get_logger_from_context}
use boilerplate_go_be.Jwt.{parse_jwt, get_jwt_service}
use boilerplate_go_be.Supervisor.{request_restart, request_restart-returns}
use boilerplate_go_be.Items.Service
use boilerplate_go_be.Grpc.{
  Answer, answer, failed, Incoming, get_header, to_pb, build_service, on_built, recover_interceptor,
  logging_interceptor, served,
}

-- What the caller gets of what the method does.
unfoldable pub shielded : {A : Type 0} → Outcome (Answer A) → Outcome (Answer A)
shielded (ret a) = ret a
shielded (panic p) = ret (failed (record { code = internal; message = "internal server error" }))
shielded exit = exit

-- An item goes through the wire message unchanged exactly if its id is an int32.
pub to_pb_iff : (it : Item) → (to_pb it ≡ it) ↔ FitsInt32 it.id
to_pb_iff it = (
  λ e. subst FitsInt32 (ap (λ i. i.id) e) (int32-FitsInt32 it.id),
  λ fits. ap (λ i. record it { id = i }) (int32-eq_of_FitsInt32 it.id fits),
)

module _ (P : Platform) where
  abbrev called : Log → World P → World P
  called log w = (log_f {P = P} log info "gRPC call: %s" w).1

  abbrev caught : Log → World P → World P
  caught log w = (log_f {P = P} log error "Recovered panic in %s: %v\n%s" w).1

  returned :
      {A : Type 0} (log : Log) (method : Prog (World P) (Answer A)) (w : World P) (a : Answer A)
      → (method (called log w)).0 ≡ ret a
      → (served P log method w).0 ≡ ret a
  unfolding served recover_interceptor logging_interceptor log_f
  returned log method w (answer a) e = ground arith
  returned log method w (failed s) e = ground arith

  panicked :
      {A : Type 0} (log : Log) (method : Prog (World P) (Answer A)) (w : World P) (p : String)
      (asked : Option Error)
      → (method (called log w)).0 ≡ panic p
      → (request_restart P (caught log (method (called log w)).1)).0 ≡ ret asked
      → (served P log method w).0
        ≡ ret (failed (record { code = internal; message = "internal server error" }))
  unfolding served recover_interceptor logging_interceptor log_f
  panicked log method w p none e asked = ground arith
  panicked log method w p (some r) e asked = ground arith

  by_outcome :
      {A : Type 0} (log : Log) (method : Prog (World P) (Answer A)) (w : World P)
      (o : Outcome (Answer A))
      → (method (called log w)).0 ≡ o
      → (served P log method w).0 ≡ shielded o
  unfolding served recover_interceptor logging_interceptor shielded log_f
  by_outcome log method w (ret a) e = returned log method w a e
  by_outcome log method w (panic p) e =
      let (asked, there) = request_restart-returns P (caught log (method (called log w)).1) in
      panicked log method w p asked e there
  by_outcome log method w exit e = ground arith

  -- Around any method, the interceptors return what it returns, and a panic becomes the status Internal:
  -- the call itself never panics.
  pub served-shielded :
      {A : Type 0} (log : Log) (method : Prog (World P) (Answer A)) (w : World P)
      → (served P log method w).0 ≡ shielded (method (log_f {P = P} log info "gRPC call: %s" w).1).0
  served-shielded log method w = by_outcome log method w (method (called log w)).0 refl

  -- A call whose token `ParseJWT` refuses is answered Unauthenticated, whatever the method, and nothing
  -- outside has changed but by the check of the token itself.
  pub unauthenticated_call :
      {A : Type 0} (call : Incoming P) (f : Ctx P → Service.Service → Prog (World P) (Answer A))
      (log : Log) (svc : JwtService P) (user : JwtUser) (e : Error) (w w' : World P)
      → get_logger_from_context call.ctx ≡ some log
      → str_eq (get_header call.metadata "parent-id") "" ≡ false
      → w.jwt.instance_ ≡ some svc
      → parse_jwt P svc (trim_prefix (get_header call.metadata "authorization") "Bearer ") w
        ≡ (ret (user, some e), w')
      → ((on_built P call f w).0
          ≡ ret (failed (record { code = unauthenticated; message = "invalid token" })))
        × ((on_built P call f w).1.outside ≡ w'.outside)
  unfolding build_service get_jwt_service log_f
  unauthenticated_call call f log svc user e w w' there parent set refused =
      (ground arith, ground arith)
