-- ===== src/Rest/Auth.antt =====
-- `AuthMiddleware` of server/rest/middleware/auth.go: which requests reach the next handler.
use boilerplate_go_be.Base.{
  ◌∙◌, ap, ◌==◌, ℕ, inl, inr, ◌⊎◌, ◌≡◌, refl, arith, Bool-cases, Option-cases, String, Bool, true,
  false, Option, none, some, List, [], ◌∷◌, ◌++◌, str_eq, if◌then◌else◌,
}
use boilerplate_go_be.Code.{Code, err_missing_token, err_invalid_token}
use boilerplate_go_be.Runtime.{as_validation, Error, new, Outcome, ret, panic, exit}
use boilerplate_go_be.Dto.{JwtUser}
use boilerplate_go_be.Logger.{Log}
use boilerplate_go_be.Platform.{Platform}
use boilerplate_go_be.World.{World, JwtService, log_f}
use boilerplate_go_be.World.Ctx.{set_user_ctx, get_logger_from_context}
use boilerplate_go_be.Jwt.{
  zero_user, initialize_jwt_service, new_jwt_service, get_jwt_service, parse_jwt,
}
use boilerplate_go_be.Rest.{plain_text, Chunk, problem, Layer, Reply, error_envelope}
use boilerplate_go_be.Rest.Middleware.{
  http_error, write_at, write_header_at, Exchange, Request, Handler, bearer, auth_middleware,
  write_error,
}

-- No writer around the response has intercepted it.
unfoldable pub all_open : List Layer → Bool
all_open [] = true
all_open (l ∷ outer) = let rest = all_open outer in if l.intercepted then false else rest

-- Nothing is sent yet, and what is written will arrive.
unfoldable pub IsFresh : Reply → Type 0
IsFresh r = (r.sent ≡ none) × (r.body ≡ []) × (all_open r.layers ≡ true)

-- What the client has got: the status, and the body.
abbrev pub status_sent : Reply → Option ℕ
status_sent r = elim r.sent [ none ↦ none | some s ↦ some s.0 ]

module _ (P : Platform) where
  pub Guarded : Handler P → Handler P → Request P → Exchange P → Type 0
  Guarded next other r x =
      ((svc : JwtService P) × (user : JwtUser) × (x.world.jwt.instance_ ≡ some svc)
        × (str_eq (bearer P r) "" ≡ false)
        × ((parse_jwt P svc (bearer P r) x.world).0 ≡ ret (user, none))
        × (auth_middleware P next r x
            ≡ next (record r { ctx = set_user_ctx r.ctx user })
                (record x { world = (parse_jwt P svc (bearer P r) x.world).1 })))
      ⊎ (auth_middleware P next r x ≡ auth_middleware P other r x)

  Guarded-by_outcome :
      (next other : Handler P) (r : Request P) (x : Exchange P) (svc : JwtService P) (log : Log)
      → get_logger_from_context r.ctx ≡ some log
      → str_eq (bearer P r) "" ≡ false
      → x.world.jwt.instance_ ≡ some svc
      → (o : Outcome (JwtUser × Option Error)) → (parse_jwt P svc (bearer P r) x.world).0 ≡ o
      → Guarded next other r x
  unfolding Guarded auth_middleware get_jwt_service
  Guarded-by_outcome next other r x svc log there given set (ret (user, none)) e =
      inl (svc, user, set, given, e, ground arith)
  Guarded-by_outcome next other r x svc log there given set (ret (user, some bad)) e =
      inr (ground arith)
  Guarded-by_outcome next other r x svc log there given set (panic p) e = inr (ground arith)
  Guarded-by_outcome next other r x svc log there given set exit e = inr (ground arith)

  -- `Guarded`: either the singleton is there and `ParseJWT` accepts the request's non-empty token, and the next handler
  -- runs with exactly that user in the context; or what happens does not depend on the next handler at
  -- all.
  pub auth_middleware-guards :
      (next other : Handler P) (r : Request P) (x : Exchange P) → Guarded next other r x
  unfolding Guarded auth_middleware get_jwt_service
  auth_middleware-guards next other r x = elim (Option-cases (get_logger_from_context r.ctx)) [
    | inl none_there ↦ inr (ground arith)
    | inr (log, there) ↦ elim (Bool-cases (str_eq (bearer P r) "")) [
      | inl empty ↦ inr (ground arith)
      | inr given ↦ elim (Option-cases x.world.jwt.instance_) [
        | inl unset ↦ inr (ground arith)
        | inr (svc, set) ↦
            Guarded-by_outcome next other r x svc log there given set
              (parse_jwt P svc (bearer P r) x.world).0 refl
      ]
    ]
  ]

  -- The counterpart for the start: `initDependencies` asks for no key, so from then on no token passes.
  pub initialized_without_keys :
      (w : World P)
      → w.jwt.once_done ≡ false
      → initialize_jwt_service P false false w ≡ (
        ret none,
        record w {
          jwt = record {
            once_done = true;
            instance_ = some (record { private_key = none; public_key = none });
          };
        },
      )
  unfolding initialize_jwt_service new_jwt_service
  initialized_without_keys w fresh = rw fresh

  refused_without_key :
      (svc : JwtService P) (token : String) (w : World P)
      → svc.public_key ≡ none
      → parse_jwt P svc token w ≡ (ret (zero_user, some (new "public key not initialized")), w)
  unfolding parse_jwt
  refused_without_key svc token w missing = rw missing

write_header-open :
    (ls : List Layer) (code : ℕ) (r : Reply)
    → (code == 404) ≡ false
    → (code == 405) ≡ false
    → ((write_header_at ls code r).1
        ≡ record r { sent = elim r.sent [ none ↦ some (code, r.header) | some s ↦ some s ] })
      × (all_open (write_header_at ls code r).0 ≡ all_open ls)
unfolding write_header_at all_open
write_header-open [] code r p q = ground arith
write_header-open (l ∷ ls) code r p q = ground (arith, write_header-open ls code r p q)

write-open :
    (ls : List Layer) (c : Chunk) (r : Reply) (s : ℕ × List (String × String))
    → all_open ls ≡ true
    → r.sent ≡ some s
    → write_at ls c r ≡ record r { body = r.body ++ c ∷ [] }
unfolding write_at all_open
write-open [] c r s opened e = rw e
write-open (l ∷ ls) c r s opened e = ground (arith, write-open ls c r s)

answered :
    (ls : List Layer) (code : ℕ) (c : Chunk) (r : Reply)
    → r.sent ≡ none
    → r.body ≡ []
    → all_open ls ≡ true
    → (code == 404) ≡ false
    → (code == 405) ≡ false
    → (a : List Layer × Reply) → write_header_at ls code r ≡ a
    → (status_sent (write_at a.0 c (record (a.1) { layers = a.0 })) ≡ some code)
      × ((write_at a.0 c (record (a.1) { layers = a.0 })).body ≡ c ∷ [])
      × (all_open (write_at a.0 c (record (a.1) { layers = a.0 })).layers ≡ true)
answered ls code c r unsent empty opened p q a e = ground (
  arith,
  write_header-open ls code r p q,
  write-open a.0 c (record (a.1) { layers = a.0 }) (code, r.header),
)

pub write_error-IsFresh :
    (c : Code) (headers : List (String × String)) (r : Reply)
    → IsFresh r
    → (c.http_code == 404) ≡ false
    → (c.http_code == 405) ≡ false
    → (status_sent (write_error c headers r) ≡ some c.http_code)
      × ((write_error c headers r).body ≡ problem (error_envelope c.http_code c.message) ∷ [])
unfolding write_error IsFresh
write_error-IsFresh c headers r (unsent, empty, opened) p q =
    let (sent, whole, _) =
      answered r.layers c.http_code (problem (error_envelope c.http_code c.message)) _ unsent empty
        opened p q _ refl in
    (sent, whole)

pub http_error-IsFresh :
    (msg : String) (code : ℕ) (r : Reply)
    → IsFresh r
    → (code == 404) ≡ false
    → (code == 405) ≡ false
    → (status_sent (http_error msg code r) ≡ some code)
      × ((http_error msg code r).body ≡ plain_text msg ∷ [])
unfolding http_error IsFresh
http_error-IsFresh msg code r (unsent, empty, opened) p q =
    let (sent, whole, _) =
      answered r.layers code (plain_text msg) _ unsent empty opened p q _ refl in
    (sent, whole)

-- The writers stay open.
pub write_error-open :
    (c : Code) (headers : List (String × String)) (r : Reply)
    → IsFresh r
    → (c.http_code == 404) ≡ false
    → (c.http_code == 405) ≡ false
    → all_open (write_error c headers r).layers ≡ true
unfolding write_error IsFresh
write_error-open c headers r (unsent, empty, opened) p q =
    let (_, _, still) =
      answered r.layers c.http_code (problem (error_envelope c.http_code c.message)) _ unsent empty
        opened p q _ refl in
    still

module _ (P : Platform) where
  pub refused_without_keys :
      (next : Handler P) (r : Request P) (log : Log) (x : Exchange P)
      → get_logger_from_context r.ctx ≡ some log
      → x.world.jwt.instance_ ≡ some (record { private_key = none; public_key = none })
      → IsFresh x.reply
      → ((auth_middleware P next r x).0 ≡ ret tt)
        × (status_sent (auth_middleware P next r x).1.reply ≡ some 401)
        × (all_open (auth_middleware P next r x).1.reply.layers ≡ true)
  unfolding auth_middleware get_jwt_service parse_jwt log_f as_validation
  refused_without_keys next r log x there set fresh = elim (Bool-cases (str_eq (bearer P r) "")) [
    | inl empty ↦ (
      ground arith,
      rw (there, empty, auth_middleware)
          (write_error-IsFresh err_missing_token _ x.reply fresh refl refl).0,
      rw (there, empty, auth_middleware)
          (write_error-open err_missing_token _ x.reply fresh refl refl),
    )
    | inr given ↦ (
      ground arith,
      rw (there, given, set, auth_middleware)
          (write_error-IsFresh err_invalid_token _ x.reply fresh refl refl).0,
      rw (there, given, set, auth_middleware)
          (write_error-open err_invalid_token _ x.reply fresh refl refl),
    )
  ]

  -- What would have followed makes no difference.
  pub same_without_keys :
      (next other : Handler P) (r : Request P) (log : Log) (x : Exchange P)
      → get_logger_from_context r.ctx ≡ some log
      → x.world.jwt.instance_ ≡ some (record { private_key = none; public_key = none })
      → auth_middleware P next r x ≡ auth_middleware P other r x
  unfolding auth_middleware get_jwt_service parse_jwt
  same_without_keys next other r log x there set = elim (Bool-cases (str_eq (bearer P r) "")) [
    | inl empty ↦ ground arith
    | inr given ↦ ground arith
  ]

  -- After the JWT service was initialised the way `initDependencies` does it, every request with a logger
  -- whatever its token is answered with status 401.
  pub no_token_passes :
      (started : World P)
      → started.jwt.once_done ≡ false
      → (next : Handler P) (r : Request P) (log : Log) (x : Exchange P)
      → get_logger_from_context r.ctx ≡ some log
      → x.world.jwt ≡ (initialize_jwt_service P false false started).1.jwt
      → IsFresh x.reply
      → ((auth_middleware P next r x).0 ≡ ret tt)
        × (status_sent (auth_middleware P next r x).1.reply ≡ some 401)
  no_token_passes started unspent next r log x there same fresh =
      let keyless =
        ap (λ j. j.instance_)
          (same ∙ ap (λ p. p.1.jwt) (initialized_without_keys P started unspent)) in
      let (done, sent, _) = refused_without_keys next r log x there keyless fresh in (done, sent)
