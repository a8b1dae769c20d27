-- ===== src/Outbound/Tokens.antt =====
-- The token and the identifier that the gRPC client of the Example service sends, as server/grpc reads them.
use Prim.Native.String.{slice, len}
use text.Mathlib.TextPositions.{starts_with-append, slice-append_right, len-append}
use boilerplate_go_be.Base.{
  sym, some, none, str_eq, false, arith, refl, ◌≡◌, ap, ◌∙◌, String, str_append, trim_prefix,
}
use boilerplate_go_be.Returns.{bind-ret}
use boilerplate_go_be.Config.{LogConfig}
use boilerplate_go_be.Runtime.{Prog, pure, ret, ok, ◌>>=◌}
use boilerplate_go_be.World.{unique_id_by_time, the_cfg, World, log_f}
use boilerplate_go_be.Logging.{new_logger, fresh_logger}
use boilerplate_go_be.Items.Service
use boilerplate_go_be.Logger.{Log}
use boilerplate_go_be.Platform.{Platform}
use boilerplate_go_be.World.Ctx.{
  Ctx, get_token_ctx, set_token_ctx, set_user_ctx, get_logger_from_context,
}
use boilerplate_go_be.Grpc.{
  request_log, parent_of, Answer, failed, get_header, Incoming, answer, authenticated,
  build_service,
}
use boilerplate_go_be.Outbound.Example.{token_of}
use boilerplate_go_be.Outbound.Rpc.{Client, metadata_new, rpc_headers}

trim_prefix-append : (p t : String) → trim_prefix (str_append p t) p ≡ t
trim_prefix-append p t =
    rw (starts_with-append p t)
      (ap (λ k. slice (str_append p t) (len p) k) (len-append p t) ∙ slice-append_right p t)

module _ {P : Platform} (call : Incoming P) where
  authenticated-token :
      (l : Log) (w : World P) (c : Ctx P) (svc : Service.Service)
      → (authenticated P call l w).0 ≡ ret (answer (c, svc))
      → (get_token_ctx c ≡ some (trim_prefix (get_header call.metadata "authorization") "Bearer "))
        × (svc.log ≡ l)
  unfolding authenticated get_token_ctx set_token_ctx set_user_ctx log_f Service.new_service
  authenticated-token l w c svc built = ground arith

  new_logger-parent_id :
      (t : LogConfig) (parent child : String) (w : World P) (l : Log)
      → (new_logger P t parent child w).0 ≡ ret (ok l)
      → l.parent_id ≡ parent
  unfolding new_logger fresh_logger
  new_logger-parent_id t parent child w l made = ground arith

  request_log-parent_id :
      (parent : String) (w : World P) (l : Log)
      → (request_log P none parent w).0 ≡ ret (answer l)
      → l.parent_id ≡ parent
  unfolding request_log unique_id_by_time the_cfg new_logger fresh_logger
  request_log-parent_id parent w l made = ground arith

  -- What follows the logger.
  abbrev on_log : Answer Log → Prog (World P) (Answer (Ctx P × Service.Service))
  on_log made = elim made [ failed s ↦ pure (failed s) | answer l ↦ authenticated P call l ]

  build_service-log :
      (w : World P) (c : Ctx P) (svc : Service.Service)
      → get_logger_from_context call.ctx ≡ none
      → str_eq (get_header call.metadata "parent-id") "" ≡ false
      → (build_service P call w).0 ≡ ret (answer (c, svc))
      → (l : Log) × (w' : World P) × ((authenticated P call l w').0 ≡ ret (answer (c, svc)))
        × (l.parent_id ≡ get_header call.metadata "parent-id")
  unfolding build_service parent_of
  build_service-log w c svc fresh given built =
      let parent = get_header call.metadata "parent-id" in
      let first : build_service P call w ≡ (request_log P none parent >>= on_log) w =
        rw (given, fresh) refl in
      let (made, ran, second) =
        bind-ret (request_log P none parent) on_log w (answer (c, svc))
          (sym (ap (λ r. r.0) first) ∙ built) in
      by_answer made ran (sym (ap (λ r. r.0) (first ∙ second)) ∙ built)
    where
      by_answer :
          (made : Answer Log)
          → (request_log P none (get_header call.metadata "parent-id") w).0 ≡ ret made
          → (on_log made (request_log P none (get_header call.metadata "parent-id") w).1).0
            ≡ ret (answer (c, svc))
          → (l : Log) × (w' : World P) × ((authenticated P call l w').0 ≡ ret (answer (c, svc)))
            × (l.parent_id ≡ get_header call.metadata "parent-id")
      by_answer (failed s) ran asked = absurd (ground arith)
      by_answer (answer l) ran asked = (l, _, asked, request_log-parent_id _ w l ran)

-- Where `strings.ToLower` makes the two keys what gRPC keeps, and the metadata of an incoming call are what the
-- client of the Example service sent under a parent identifier that is not empty: if `buildService` succeeds
-- without a logger in its context, the token in the context that it makes is the token of the client's context,
-- and the logger of the service has the client's parent identifier.
pub read-rpc_headers :
    {P : Platform} (C : Client P) (log : Log) (ctx : Ctx P) (call : Incoming P) (w : World P)
    (c : Ctx P) (svc : Service.Service)
    → C.lower "Authorization" ≡ "authorization"
    → C.lower "Parent-Id" ≡ "parent-id"
    → call.metadata ≡ metadata_new C (rpc_headers C log ctx)
    → get_logger_from_context call.ctx ≡ none
    → str_eq log.parent_id "" ≡ false
    → (build_service P call w).0 ≡ ret (answer (c, svc))
    → (get_token_ctx c ≡ some (token_of ctx)) × (svc.log.parent_id ≡ log.parent_id)
unfolding metadata_new rpc_headers get_header
read-rpc_headers {P} C log ctx call w c svc authorization parent sent fresh given built =
    let token_sent : trim_prefix (get_header call.metadata "authorization") "Bearer "
        ≡ token_of ctx =
      ap (λ m. trim_prefix (get_header m "authorization") "Bearer ") sent
      ∙ rw (authorization) (trim_prefix-append "Bearer " (token_of ctx)) in
    let parent_sent : get_header call.metadata "parent-id" ≡ log.parent_id =
      ap (λ m. get_header m "parent-id") sent ∙ rw (authorization, parent) refl in
    let (l, w', asked, under) =
      build_service-log call w c svc fresh (ap (λ p. str_eq p "") parent_sent ∙ given) built in
    let (token, own) = authenticated-token call l w' c svc asked in
    (token ∙ ap some token_sent, ap (λ l. l.parent_id) own ∙ under ∙ parent_sent)
