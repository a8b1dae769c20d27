-- ===== src/Jwt.antt =====
-- infrastructure/utils/jwt.go: the JWT singleton and the validation of a token into a `JWTUser`, whose
-- `GetEnvironment` spares the reflection branch.
pub mod Singleton
pub mod Signing
pub mod Contained
use boilerplate_go_be.Base.{
  String, Bool, true, false, Option, none, some, str_eq, if◌then◌else◌, [],
}
use boilerplate_go_be.Runtime.{
  Error, new, wrap, Result, ok, err, Prog, pure, raise, modify, ◌>>=◌, ◌>>◌,
}
use boilerplate_go_be.Dto.{JwtUser, get_environment}
use boilerplate_go_be.Platform.{Platform}
use boilerplate_go_be.World.{JwtService, JwtState, World, call, the_cfg}

-- `var user dto.JWTUser`.
abbrev pub zero_user : JwtUser
zero_user = record {
  environment = "";
  user_data = record {
    user_id = "";
    permission = record { item_management = record { action = [] } };
  };
  issuer = "";
  expires_at = none;
}

-- The key function that `ParseJWT` hands to the library.
unfoldable pub key_func : {K : Type 0} → K → Bool → String → Result K
key_func k true alg = ok k
key_func k false alg = err (new "unexpected signing method")

module _ (P : Platform) where
  read_key :
      {K : Type 0} → String → String → (String → Result K) → String → Prog (World P) (Result K)
  read_key unreadable unparsable parse path = do
    data_read ← call P (P.read_file path)
    elim data_read [
      | err e ↦ pure (err (wrap unreadable e))
      | ok pem ↦ elim (parse pem) [ err e ↦ pure (err (wrap unparsable e)) | ok k ↦ pure (ok k) ]
    ]

  load_private : Bool → Prog (World P) (Result (Option P.PrivateKey))
  unfolding read_key
  load_private false = pure (ok none)
  load_private true = do
    cfg ← the_cfg
    read ←
        read_key "could not read private key" "could not parse private key" P.parse_private_key
          cfg.server.jwt.private_key
    elim read [ err e ↦ pure (err e) | ok k ↦ pure (ok (some k)) ]

  load_public : Bool → Prog (World P) (Result (Option P.PublicKey))
  unfolding read_key
  load_public false = pure (ok none)
  load_public true = do
    cfg ← the_cfg
    read ←
        read_key "could not read public key" "could not parse public key" P.parse_public_key
          cfg.server.jwt.public_key
    elim read [ err e ↦ pure (err e) | ok k ↦ pure (ok (some k)) ]

  unfoldable pub new_jwt_service : Bool → Bool → Prog (World P) (Result (JwtService P))
  unfolding load_private load_public
  new_jwt_service want_private want_public = do
    private ← load_private want_private
    elim private [
      | err e ↦ pure (err e)
      | ok private_key ↦ do
        public ← load_public want_public
        elim public [
          | err e ↦ pure (err e)
          | ok public_key ↦
              pure (ok (record { private_key = private_key; public_key = public_key }))
        ]
    ]

  abbrev set_jwt : Option (JwtService P) → Prog (World P) (Unit {0})
  set_jwt svc = modify (λ w. record w { jwt = record { once_done = true; instance_ = svc } })

  -- `jwtOnce.Do`: a later call does nothing and returns no error. The once is spent also where the body
  -- panics.
  unfoldable pub initialize_jwt_service : Bool → Bool → Prog (World P) (Option Error)
  initialize_jwt_service want_private want_public w =
      if w.jwt.once_done
      then (pure none w)
      else ((do
        set_jwt w.jwt.instance_
        made ← new_jwt_service want_private want_public
        elim made [
          | err e ↦ do set_jwt none; pure (some e)
          | ok svc ↦ do set_jwt (some svc); pure none
        ])
          w)

  unfoldable pub get_jwt_service : Prog (World P) (JwtService P)
  get_jwt_service w = elim w.jwt.instance_ [
    | some svc ↦ (pure svc w)
    | none ↦ (raise "JWTService is not initialized. Call InitializeJWTService first." w)
  ]

  -- After the library has accepted the token and filled the claims.
  check_environment : JwtUser → Prog (World P) (JwtUser × Option Error)
  check_environment user = do
    cfg ← the_cfg
    pure (
      user,
      if str_eq (get_environment user) cfg.server.environment
          then none
          else some (new "invalid environment: got %q, want %q"),
    )

  checked : JwtUser × Result Bool → Prog (World P) (JwtUser × Option Error)
  unfolding check_environment get_environment the_cfg
  checked (user, err e) = pure (user, some e)
  checked (user, ok false) = pure (user, some (new "invalid token"))
  checked (user, ok true) = check_environment user

  -- `ParseJWT` into a fresh user: the claims as they were filled, and the error.
  unfoldable pub parse_jwt : JwtService P → String → Prog (World P) (JwtUser × Option Error)
  unfolding checked
  parse_jwt svc token w = elim svc.public_key [
    | none ↦ (pure (zero_user, some (new "public key not initialized")) w)
    | some k ↦ (checked (P.parse_with_claims token (key_func k) w.outside) w)
  ]
