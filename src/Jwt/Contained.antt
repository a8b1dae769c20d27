-- ===== src/Jwt/Contained.antt =====
-- Reading a token in infrastructure/utils/jwt.go: whatever the token, the process goes on and keeps its JWT
-- service. A missing service or configuration is a panic at most.
use boilerplate_go_be.Base.{
  String, str_eq, Bool, true, false, none, some, ◌≡◌, refl, arith, Option-cases, inl, inr,
  if◌then◌else◌,
}
use boilerplate_go_be.Runtime.{new, Result, ok, err, pure}
use boilerplate_go_be.Dto.{JwtUser}
use boilerplate_go_be.Platform.{Platform}
use boilerplate_go_be.World.{World, JwtService, the_cfg}
use boilerplate_go_be.Jwt.{
  zero_user, get_environment, key_func, check_environment, checked, get_jwt_service, parse_jwt,
}
use boilerplate_go_be.Contained.{
  InWorld, Contained-pure, Contained-raise, Contained-bind, Contained-reads, Contained-at,
  Contained-the_cfg,
}

module _ (P : Platform) where
  pub get_jwt_service-InWorld : InWorld (get_jwt_service P)
  unfolding get_jwt_service
  get_jwt_service-InWorld =
      Contained-reads _ (λ w. w.jwt.instance_) _ (λ svc. pure svc) (Contained-raise _ _)
        (λ svc. Contained-pure _ svc)

  checked-InWorld : (read : JwtUser × Result Bool) → InWorld (checked P read)
  unfolding checked check_environment
  checked-InWorld (user, err e) = Contained-pure _ (user, some e)
  checked-InWorld (user, ok false) = Contained-pure _ (user, some (new "invalid token"))
  checked-InWorld (user, ok true) = Contained-bind _ the_cfg _ Contained-the_cfg (λ cfg.
      Contained-pure _ (
        user,
        if str_eq (get_environment user) cfg.server.environment
            then none
            else some (new "invalid environment: got %q, want %q"),
      ))

  pub parse_jwt-InWorld : (svc : JwtService P) (token : String) → InWorld (parse_jwt P svc token)
  unfolding parse_jwt
  parse_jwt-InWorld svc token =
      Contained-reads _ (λ _. svc.public_key)
        (pure (zero_user, some (new "public key not initialized"))) _ (Contained-pure _ _)
        (λ k.
          Contained-at _ (λ w. checked P (P.parse_with_claims token (key_func k) w.outside))
            (λ w. checked-InWorld (P.parse_with_claims token (key_func k) w.outside)))

  checked-same : (read : JwtUser × Result Bool) (w : World P) → (checked P read w).1 ≡ w
  unfolding checked check_environment the_cfg
  checked-same (user, err e) w = refl
  checked-same (user, ok false) w = refl
  checked-same (user, ok true) w = elim (Option-cases w.cfg) [
    | inl missing ↦ ground arith
    | inr (cfg, there) ↦ ground arith
  ]

  -- Reading a token changes nothing.
  pub parse_jwt-same :
      (svc : JwtService P) (token : String) (w : World P) → (parse_jwt P svc token w).1 ≡ w
  unfolding parse_jwt
  parse_jwt-same svc token w = elim (Option-cases svc.public_key) [
    | inl missing ↦ ground arith
    | inr (k, there) ↦
        ground (arith, checked-same (P.parse_with_claims token (key_func k) w.outside) w)
  ]
