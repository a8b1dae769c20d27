-- ===== src/Rest/Outcomes.antt =====
-- The handler of cmd/start_rest.go for the crash endpoint, an unknown path, and an item that is asked for.
use boilerplate_go_be.Base.{
  List, ℕ, String, Bool, true, ◌≡◌, refl, sym, ◌∙◌, ap, subst, arith, ◌⊎◌, inl, inr, [], ◌∷◌, none,
  some, if◌then◌else◌,
}
use boilerplate_go_be.Runtime.{ret, panic}
use boilerplate_go_be.Code.{Code, err_not_found, err_method_not_allowed}
use boilerplate_go_be.Logger.{Log}
use boilerplate_go_be.Platform.{Platform}
use boilerplate_go_be.Rest.{problem, error_envelope}
use boilerplate_go_be.Rest.Auth.{IsFresh, status_sent, all_open}
use boilerplate_go_be.Rest.Middleware.{
  Exchange, Request, push_layer, error_format_middleware, request_logger,
}
use boilerplate_go_be.Rest.Recovery.{recover_middleware-answers, chi_answer, plain_errors_formatted}
use boilerplate_go_be.Rest.Files
use boilerplate_go_be.Rest.Files.{Files}
use boilerplate_go_be.Rest.Routes.{
  crash_operation, crash_route, run_endpoint, Framework, elsewhere, routed, root, serve,
  rest_handler,
}
use boilerplate_go_be.Rest.Answers.{
  Goes-request_of, after_router, pushed, Finds, Goes, Decodes, recovered_ret, inner-panic,
  open_root,
}
use boilerplate_go_be.Rest.Chain.{request_of, inner, by_stage}

module _ {P : Platform} (F : Files P) (app_name : String) (T : Framework F app_name) (log : Log)
    (r : Request P) (x : Exchange P) where
  crashed :
      (l : Log) (y : Exchange P)
      → Decodes P T r crash_operation
      → serve F app_name T crash_operation (request_of P l r) y ≡ (panic "intentional crash", y)
  unfolding serve run_endpoint Files.crash Files.system_crash request_of
  crashed l y decoded = let (input, e) = decoded (request_of P l r).ctx in ground (arith, e)

  -- Over an open database handle, a request that is routed to the crash operation, and whose decoding
  -- succeeds, is answered with status 500, and the handler returns.
  pub rest_handler-crash :
      x.world.db.connected ≡ true
      → IsFresh x.reply
      → Finds P T r crash_route
      → Decodes P T r crash_operation
      → ((rest_handler F app_name T log r x).0 ≡ ret tt)
        × (status_sent (rest_handler F app_name T log r x).1.reply ≡ some 500)
  unfolding rest_handler IsFresh push_layer
  rest_handler-crash opened fresh goes decoded =
      let act = serve F app_name T in
      by_stage F app_name T act log r x (λ d. (d.0 ≡ ret tt) × (status_sent d.1.reply ≡ some 500))
        fresh opened (λ d done sent. (done, sent))
        (λ l x1 kept same.
          let y = pushed P x1 in
          let panicked =
            inner-panic F app_name T act r l x1 y "intentional crash"
              (open_root F app_name T act r l y crash_route goes refl ∙ crashed l y decoded) in
          let (done, sent, _) =
            recover_middleware-answers P log (λ _ _. inner F app_name T act r l x1) r x y
              "intentional crash" panicked (ap (λ b. b.sent) kept ∙ fresh.0)
              (ap (λ b. b.body) kept ∙ fresh.1) fresh.2 in
          (done, sent))
        (request_logger P r x) refl

  -- chi's own answer behind the error formatter.
  unknown_answer :
      (method : Bool) (msg : String) (allowed : List String) (l : Log) (x1 : Exchange P)
      → x1.reply.sent ≡ none
      → x1.reply.body ≡ []
      → x1.reply.layers ≡ []
      → x1.reply.header ≡ []
      → Goes P T r (elsewhere (chi_answer P method msg allowed))
      → let c : Code = if method then err_method_not_allowed else err_not_found in
        let d = inner F app_name T (serve F app_name T) r l x1 in
        (d.0 ≡ ret tt)
        × (status_sent d.1.reply ≡ some (if method then 405 else 404))
        × (d.1.reply.body ≡ problem (error_envelope (if method then 405 else 404) c.message) ∷ [])
  unfolding inner root error_format_middleware routed
  unknown_answer method msg allowed l x1 unsent empty bare clean goes =
      let same =
        ap
          (λ to.
            after_router P
              (routed F app_name T (serve F app_name T) to (request_of P l r) (pushed P x1)))
          (Goes-request_of T r _ l goes) in
      let (sent, whole, _) =
        plain_errors_formatted P method msg allowed (request_of P l r) x1 unsent empty bare clean in
      (
        ap (λ d. d.0) same,
        ap (λ d. status_sent d.1.reply) same ∙ sent,
        ap (λ d. d.1.reply.body) same ∙ whole,
      )

  -- Over an open database handle and on an untouched response, a request for which chi answers that the path or
  -- the method is unknown gets status 404 or 405 with its problem document as the whole body, or 500 where
  -- its logger could not be made; and the handler returns.
  pub rest_handler-unknown :
      (method : Bool) (msg : String) (allowed : List String)
      → x.world.db.connected ≡ true
      → x.reply ≡ record { header = []; sent = none; body = []; layers = [] }
      → Goes P T r (elsewhere (chi_answer P method msg allowed))
      → let c : Code = if method then err_method_not_allowed else err_not_found in
        let d = rest_handler F app_name T log r x in
        (d.0 ≡ ret tt)
        × (((status_sent d.1.reply ≡ some (if method then 405 else 404))
              × (d.1.reply.body
                  ≡ problem (error_envelope (if method then 405 else 404) c.message) ∷ []))
            ⊎ (status_sent d.1.reply ≡ some 500))
  unfolding rest_handler IsFresh all_open
  rest_handler-unknown method msg allowed opened untouched goes =
      let act = serve F app_name T in
      let status : ℕ = if method then 405 else 404 in
      let c : Code = if method then err_method_not_allowed else err_not_found in
      by_stage F app_name T act log r x
        (λ d.
          (d.0 ≡ ret tt)
          × (((status_sent d.1.reply ≡ some status)
                × (d.1.reply.body ≡ problem (error_envelope status c.message) ∷ []))
              ⊎ (status_sent d.1.reply ≡ some 500)))
        (subst IsFresh (sym untouched) (refl, refl, refl)) opened (λ d done sent. (done, inr sent))
        (λ l x1 kept same.
          let empty = kept ∙ untouched in
          let (done, sent, whole) =
            unknown_answer method msg allowed l x1 (ap (λ b. b.sent) empty) (ap (λ b. b.body) empty)
              (ap (λ b. b.layers) empty) (ap (λ b. b.header) empty) goes in
          let same_end = recovered_ret P log r x (inner F app_name T act r l x1) done in
          (
            ap (λ d. d.0) same_end ∙ done,
            inl (
              ap (λ d. status_sent d.1.reply) same_end ∙ sent,
              ap (λ d. d.1.reply.body) same_end ∙ whole,
            ),
          ))
        (request_logger P r x) refl
