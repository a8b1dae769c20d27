-- ===== src/Jwt/Singleton.antt =====
-- The singleton and the acceptance of tokens of infrastructure/utils/jwt.go.
use boilerplate_go_be.Config.{Config}
use boilerplate_go_be.Base.{
  false, inr, inl, str_eq_iff, Option-cases, String, Bool, true, none, some, ◌≡◌, refl, arith,
}
use boilerplate_go_be.Runtime.{ok, ret, err, Error, Result}
use boilerplate_go_be.Dto.{JwtUser}
use boilerplate_go_be.Platform.{Platform}
use boilerplate_go_be.World.{JwtService, World}
use boilerplate_go_be.Jwt.{key_func, initialize_jwt_service, parse_jwt}

module _ (P : Platform) (w : World P) where
  -- Once the singleton's initialisation has run, another call with any arguments changes nothing and
  -- returns no error, also where the first one failed.
  pub initialize_again :
      (private public : Bool)
      → w.jwt.once_done ≡ true
      → initialize_jwt_service P private public w ≡ (ret none, w)
  unfolding initialize_jwt_service
  initialize_again private public done = rw done

  -- A token that `ParseJWT` accepts was parsed by the library with a key function that hands out the
  -- service's own public key for RSA signing methods and an error for every other; the library called the
  -- token valid; and its environment is the configured one.
  pub parse_jwt-accepts :
      (svc : JwtService P) (token : String) (user : JwtUser)
      → (parse_jwt P svc token w).0 ≡ ret (user, none)
      → (k : P.PublicKey) × (svc.public_key ≡ some k)
        × (find_key : Bool → String → Result P.PublicKey) × ((alg : String)
            → find_key true alg ≡ ok k)
        × ((alg : String) → (e : Error) × (find_key false alg ≡ err e))
        × (P.parse_with_claims token find_key w.outside ≡ (user, ok true))
        × (cfg : Config) × (w.cfg ≡ some cfg)
        × (user.environment ≡ cfg.server.environment)
  unfolding parse_jwt key_func
  parse_jwt-accepts svc token user h = elim (Option-cases svc.public_key) [
    | inl missing ↦ absurd (ground arith)
    | inr (k, has) ↦ elim (Option-cases w.cfg) [
      | inl unset ↦ absurd (ground arith)
      | inr (cfg, loaded) ↦ (
        k,
        has,
        key_func k,
        (λ alg. refl),
        (λ alg. (_, refl)),
        ground arith,
        cfg,
        loaded,
        ground (arith, str_eq_iff user.environment cfg.server.environment),
      )
    ]
  ]
