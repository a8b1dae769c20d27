-- ===== src/Json/Codes.antt =====
-- `MarshalJSON`, `Error` and `StatusCode` of pkg/code/code.go.
use boilerplate_go_be.Base.{arith, ℕ, pos, String, ◌≡◌, ◌↔◌, arith}
use boilerplate_go_be.Code.{Code}
use boilerplate_go_be.Json.{Json, num, str, obj, field, end}

abbrev pub error_text : Code → String
error_text c = c.message

abbrev pub status_code : Code → ℕ
status_code c = c.http_code

-- The anonymous struct that is marshalled: the gRPC and the Kafka codes stay inside.
unfoldable pub marshal_code : Code → Json
marshal_code c =
    obj (field "status" (num (pos (status_code c))) (field "message" (str (error_text c)) end))

-- Two codes print alike exactly where they have the status and the message in common.
marshal_code_iff :
    (c d : Code)
    → (marshal_code c ≡ marshal_code d)
      ↔ ((status_code c ≡ status_code d) × (error_text c ≡ error_text d))
unfolding marshal_code
marshal_code_iff c d = (λ h. (ground arith, ground arith), λ (s, m). ground arith)
