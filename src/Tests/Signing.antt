-- ===== src/Tests/Signing.antt =====
-- Witnesses for the signing of tokens, with a signer that accepts every claim.
use boilerplate_go_be.Base.{◌+◌, refl, ◌≡◌, pos, none, some, [], ◌∷◌, Dict, lookup}
use boilerplate_go_be.Runtime.{ret, ok}
use boilerplate_go_be.Json.{Json, str, num}
use boilerplate_go_be.World.{JwtService}
use boilerplate_go_be.Jwt.Signing.{Signer, sign_jwt, sign_jwt-claims}
use boilerplate_go_be.Tests.Memory.{Memory, world, empty_config}

abbrev Signs : Signer Memory
Signs = record {
  now_unix = λ s. s.next;
  signed_string = λ _ claims s. (ok "signed", s);
  read_random = λ n s. (ok [], s);
  encode = λ bytes. bytes;
}

abbrev signing : JwtService Memory
signing = record { private_key = some tt; public_key = none }

abbrev user_data : Dict Json
user_data = ("user", str "ann") ∷ []

sign_jwt-claims_example :
    (claims : Dict Json) × ((sign_jwt Signs signing user_data world).0
      ≡ ret (Signs.signed_string tt claims world.outside).0)
    × (lookup "environment" claims ≡ some (str empty_config.server.environment))
    × (lookup "iss" claims ≡ some (str empty_config.app_name))
    × (lookup "exp" claims ≡ some (num (pos (Signs.now_unix world.outside + 86400))))
unfolding lookup
sign_jwt-claims_example =
    sign_jwt-claims Signs signing tt user_data empty_config world refl refl refl refl refl
