-- ===== src/Rest/Recovery.antt =====
-- `RecoverMiddleware` and `ErrorFormatMiddleware` of server/rest/middleware: panics inside, and the
-- router's plain answers.
use boilerplate_go_be.Base.{
  ◌++◌, str_eq, ◌∙◌, ap, ℕ, ◌≡◌, refl, arith, String, Bool, true, false, Option, none, some, List,
  [], ◌∷◌, if◌then◌else◌,
}
use boilerplate_go_be.Code.{Code, err_internal_server_error, err_not_found, err_method_not_allowed}
use boilerplate_go_be.Runtime.{Error, Outcome, ret, panic}
use boilerplate_go_be.Logger.{Log, error}
use boilerplate_go_be.Platform.{Platform}
use boilerplate_go_be.World.{World, log_f}
use boilerplate_go_be.World.Ctx.{get_logger_from_context}
use boilerplate_go_be.Supervisor.{request_restart, request_restart-returns}
use boilerplate_go_be.Rest.{Reply, problem, Layer, error_envelope, header_get, header_set}
use boilerplate_go_be.Rest.Middleware.{
  Exchange, Request, Handler, respond, on_panic, recover_middleware, error_format_middleware,
  write_error, http_error, write_header, write,
}
use boilerplate_go_be.Rest.Auth.{IsFresh, status_sent, all_open, write_error-IsFresh}

-- The methods that chi allows, in headers named Allow.
unfoldable pub allow_all : List String → List (String × String) → List (String × String)
allow_all [] h = h
allow_all (m ∷ ms) h = allow_all ms (h ++ ("Allow", m) ∷ [])

header_get-append :
    (k : String) (h : List (String × String)) (j v : String)
    → str_eq j k ≡ false
    → header_get k (h ++ (j, v) ∷ []) ≡ header_get k h
unfolding header_get
header_get-append k [] j v other = rw other refl
header_get-append k ((i, w) ∷ h) j v other =
    ap (λ t. if str_eq i k then w else t) (header_get-append k h j v other)

allow_all-header_get :
    (ms : List String) (h : List (String × String))
    → header_get "Content-Type" (allow_all ms h) ≡ header_get "Content-Type" h
unfolding allow_all
allow_all-header_get [] h = refl
allow_all-header_get (m ∷ ms) h =
    allow_all-header_get ms (h ++ ("Allow", m) ∷ [])
    ∙ header_get-append "Content-Type" h "Allow" m refl

allow_all-content_type : (ms : List String) → header_get "Content-Type" (allow_all ms []) ≡ ""
unfolding header_get
allow_all-content_type ms = allow_all-header_get ms []

module _ (P : Platform) where
  -- The world when the restart is asked for.
  abbrev pub logged : Log → Exchange P → World P
  logged log x = (log_f {P = P} log error "Recovered panic: %v\nStack trace:\n%s" x.world).1

  abbrev pub Answered : Outcome (Unit {0}) × Exchange P → Type 0
  Answered done =
      (done.0 ≡ ret tt)
      × (status_sent done.1.reply ≡ some 500)
      × (done.1.reply.body ≡ problem (error_envelope 500 "Internal server error") ∷ [])

  pub on_panic-writes :
      (log : Log) (layers : List Layer) (x : Exchange P) (asked : Option Error)
      → (request_restart P (logged log x)).0 ≡ ret asked
      → ((on_panic P log layers x).0 ≡ ret tt)
        × ((on_panic P log layers x).1.reply
            ≡ write_error err_internal_server_error [] (record x.reply {
              layers = layers;
              header = header_set "X-Recovered-By" "RecoverMiddleware" x.reply.header;
            }))
  unfolding on_panic log_f
  on_panic-writes log layers x none asked = (ground arith, ground arith)
  on_panic-writes log layers x (some e) asked = (ground arith, ground arith)

  on_panic-Answered :
      (log : Log) (layers : List Layer) (x : Exchange P)
      → x.reply.sent ≡ none
      → x.reply.body ≡ []
      → all_open layers ≡ true
      → (asked : Option Error) → (request_restart P (logged log x)).0 ≡ ret asked
      → Answered (on_panic P log layers x)
  unfolding IsFresh
  on_panic-Answered log layers x unsent empty opened asked returned =
      let (done, wrote) = on_panic-writes log layers x asked returned in
      let (sent, body) =
        write_error-IsFresh err_internal_server_error []
          (record x.reply {
            layers = layers;
            header = header_set "X-Recovered-By" "RecoverMiddleware" x.reply.header;
          })
          (unsent, empty, opened) refl refl in
      (done, ap status_sent wrote ∙ sent, ap (λ r. r.body) wrote ∙ body)

  pub runs :
      (global : Log) (next : Handler P) (r : Request P) (x x' : Exchange P) (p : String)
      → next r x ≡ (panic p, x')
      → recover_middleware P global next r x
        ≡ on_panic P
            (elim (get_logger_from_context r.ctx) [ some l ↦ l | none ↦ global ])
            x.reply.layers
            x'
  unfolding recover_middleware
  runs global next r x x' p e = ground arith

  -- If the handler panics before anything was sent, the middleware returns normally and the client gets
  -- status 500 with the internal error's problem document as the whole body, whatever the writers were
  -- that inner middlewares had put around the response.
  pub recover_middleware-answers :
      (global : Log) (next : Handler P) (r : Request P) (x x' : Exchange P) (p : String)
      → next r x ≡ (panic p, x')
      → x'.reply.sent ≡ none
      → x'.reply.body ≡ []
      → all_open x.reply.layers ≡ true
      → Answered (recover_middleware P global next r x)
  recover_middleware-answers global next r x x' p e unsent empty opened =
      let log : Log = elim (get_logger_from_context r.ctx) [ some l ↦ l | none ↦ global ] in
      let (asked, returned) = request_restart-returns P (logged log x') in
      rw (runs global next r x x' p e)
        (on_panic-Answered log x.reply.layers x' unsent empty opened asked returned)

  -- chi's own answer: to an unknown path `http.Error`, to an unknown method the allowed ones and the status,
  -- without a body.
  unfoldable pub chi_answer : Bool → String → List String → Reply → Reply
  chi_answer false msg allowed r = http_error msg 404 r
  chi_answer true msg allowed r =
      write_header 405 (record r { header = allow_all allowed r.header })

  -- On a fresh response, through the middleware the client gets the problem document alone, with the same
  -- status; the allowed methods stay in the header.
  pub plain_errors_formatted :
      (method : Bool) (msg : String) (allowed : List String) (r : Request P) (x : Exchange P)
      → x.reply.sent ≡ none
      → x.reply.body ≡ []
      → x.reply.layers ≡ []
      → x.reply.header ≡ []
      → let status : ℕ = if method then 405 else 404 in
        let c : Code = if method then err_method_not_allowed else err_not_found in
        let done =
          (error_format_middleware P
            (λ r. respond P (chi_answer method msg allowed))
            r
            x).1.reply in
        (status_sent done ≡ some status)
        × (done.body ≡ problem (error_envelope status c.message) ∷ [])
        × (done.layers ≡ [])
  unfolding error_format_middleware chi_answer http_error write_header write write_error header_get
      header_set
  plain_errors_formatted true msg allowed r x unsent empty bare clean =
      rw (unsent, empty, bare, clean, allow_all-content_type allowed) (refl, refl, refl)
  plain_errors_formatted false msg allowed r x unsent empty bare clean =
      rw (unsent, empty, bare, clean) (refl, refl, refl)
