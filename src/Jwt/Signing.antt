-- ===== src/Jwt/Signing.antt =====
-- infrastructure/utils/jwt.go: the JSON of claims, SignJWT and GenerateRefreshToken.
use boilerplate_go_be.Base.{
  zero, suc, ◌*◌, suc, ltb, ℕ, ℤ, pos, negsuc, ◌+◌, ◌≤◌, ◌≡◌, refl, arith, String, none, some, [],
  ◌∷◌, Dict, lookup, insert, insert_all, lookup-insert, length, take, Runes, if◌then◌else◌,
}
use boilerplate_go_be.Runtime.{new, Result, ok, err, ret, Prog, pure, raise, gets, ◌>>=◌}
use boilerplate_go_be.Config.{Config}
use boilerplate_go_be.Json.{Json, str, num}
use boilerplate_go_be.Platform.{Platform}
use boilerplate_go_be.World.{JwtService, World, call, the_cfg}

-- Seconds.
abbrev pub login_expiration_duration : ℕ
login_expiration_duration = 24 * 3600

-- `expires_at` is in Unix seconds.
pub record Claims : Type 0 where
  pub environment : String
  pub issuer : String
  pub expires_at : ℤ
  pub additional : Dict Json

-- The map that `MarshalJSON` encodes: an additional field replaces one of the same name.
unfoldable pub claims_map : Claims → Dict Json
claims_map c =
    insert_all c.additional
      (("environment", str c.environment) ∷ ("iss", str c.issuer) ∷ ("exp", num c.expires_at) ∷ [])

-- The clock, the signer for RS256, the random source and base64's URL encoding.
pub record Signer (P : Platform) : Type 0 where
  pub now_unix : P.State → ℕ
  pub signed_string : P.PrivateKey → Dict Json → P.State → Result String × P.State
  pub read_random : ℕ → P.State → Result Runes × P.State
  pub encode : Runes → Runes

module _ {P : Platform} (S : Signer P) where
  unfoldable pub sign_jwt : JwtService P → Dict Json → Prog (World P) (Result String)
  sign_jwt s data_ = elim s.private_key [
    | none ↦ pure (err (new "private key not initialized"))
    | some k ↦ (do
      cfg ← the_cfg
      now ← gets (λ w. S.now_unix w.outside)
      call P (
          S.signed_string k (
            claims_map (record {
              environment = cfg.server.environment;
              issuer = cfg.app_name;
              expires_at = pos (now + login_expiration_duration);
              additional = data_;
            }))))
  ]

  cut_token : ℕ → Runes → Prog (World P) (Result Runes)
  cut_token n token =
      if ltb (length token) n then raise "slice bounds out of range" else pure (ok (take n token))

  -- A negative length panics.
  unfoldable pub generate_refresh_token : ℤ → Prog (World P) (Result Runes)
  unfolding cut_token
  generate_refresh_token (negsuc n) = raise "makeslice: len out of range"
  generate_refresh_token (pos n) = do
    bytes ← call P (S.read_random n)
    elim bytes [ err e ↦ pure (err e) | ok b ↦ cut_token n (S.encode b) ]

lookup-insert_all :
    (j : String) (h m : Dict Json) → lookup j h ≡ none → lookup j (insert_all h m) ≡ lookup j m
unfolding lookup insert_all
lookup-insert_all j [] m missing = refl
lookup-insert_all j ((k, v) ∷ h) m missing =
    ground (arith, lookup-insert_all j h (insert k v m), lookup-insert k j v m)

length-take : (n : ℕ) (s : Runes) → n ≤ length s → length (take n s) ≡ n
length-take zero s h = refl
length-take (suc n) [] h = ground arith
length-take (suc n) (c ∷ s) h = ground (arith, length-take n s)

module _ {P : Platform} (S : Signer P) where
  -- Where the encoding of some bytes is no shorter than they are and the random source gives as many bytes
  -- as it is asked for, a refresh token has the length that was asked for.
  pub generate_refresh_token-length :
      (n : ℕ) (bytes : Runes) (w : World P)
      → (S.read_random n w.outside).0 ≡ ok bytes
      → n ≤ length (S.encode bytes)
      → (token : Runes) × ((generate_refresh_token S (pos n) w).0 ≡ ret (ok token))
        × (length token ≡ n)
  unfolding generate_refresh_token
  generate_refresh_token-length n bytes w read enough =
      (take n (S.encode bytes), ground arith, length-take n (S.encode bytes) enough)

  -- The claims of a token whose data name none of the three registered fields are those of the
  -- configuration, and it expires a day after it was signed.
  pub sign_jwt-claims :
      (s : JwtService P) (k : P.PrivateKey) (data_ : Dict Json) (cfg : Config) (w : World P)
      → s.private_key ≡ some k
      → w.cfg ≡ some cfg
      → lookup "environment" data_ ≡ none
      → lookup "iss" data_ ≡ none
      → lookup "exp" data_ ≡ none
      → (claims : Dict Json) × ((sign_jwt S s data_ w).0
          ≡ ret (S.signed_string k claims w.outside).0)
        × (lookup "environment" claims ≡ some (str cfg.server.environment))
        × (lookup "iss" claims ≡ some (str cfg.app_name))
        × (lookup "exp" claims ≡ some (num (pos (S.now_unix w.outside + 86400))))
  unfolding sign_jwt claims_map the_cfg lookup
  sign_jwt-claims s k data_ cfg w key loaded environment issuer expiry =
      let m : Dict Json =
        ("environment", str cfg.server.environment)
        ∷ ("iss", str cfg.app_name)
        ∷ ("exp", num (pos (S.now_unix w.outside + 86400)))
        ∷ [] in
      (
        claims_map (record {
          environment = cfg.server.environment;
          issuer = cfg.app_name;
          expires_at = pos (S.now_unix w.outside + 86400);
          additional = data_;
        }),
        ground arith,
        ground (arith, lookup-insert_all "environment" data_ m environment),
        ground (arith, lookup-insert_all "iss" data_ m issuer),
        ground (arith, lookup-insert_all "exp" data_ m expiry),
      )
