-- ===== src/Rest.antt =====
-- server/rest: one exchange between the server and a client, as net/http keeps it, and the envelopes of
-- server/rest/envelope.go and infrastructure/dto/response. The middlewares and handlers are the modules
-- below.
pub mod Files
pub mod Middleware
pub mod Handlers
pub mod Auth
pub mod Endpoints
pub mod Recovery
pub mod Routes
pub mod Contained
pub mod Handled
pub mod Stages
pub mod Chain
pub mod Answers
pub mod Outcomes
pub mod Authorized
use boilerplate_go_be.Base.{
  ℕ, ◌≡◌, String, str_append, Bool, true, false, Option, none, some, List, [], ◌∷◌, ◌++◌, ◌==◌,
  str_eq, show_nat, if◌then◌else◌,
}

-- `ErrorDetail`, without its value.
pub record ErrorDetail : Type 0 where
  pub location : String
  pub message : String

pub record ErrorResponse : Type 0 where
  pub type_ : String
  pub status : ℕ
  pub title : String
  pub detail : String
  pub instance_ : String
  pub errors : List ErrorDetail

-- `http.StatusText`: the text of a registered status, else the empty string.
abbrev status_texts : List (ℕ × String)
status_texts =
    (100, "Continue")
    ∷ (101, "Switching Protocols")
    ∷ (102, "Processing")
    ∷ (103, "Early Hints")
    ∷ (200, "OK")
    ∷ (201, "Created")
    ∷ (202, "Accepted")
    ∷ (203, "Non-Authoritative Information")
    ∷ (204, "No Content")
    ∷ (205, "Reset Content")
    ∷ (206, "Partial Content")
    ∷ (207, "Multi-Status")
    ∷ (208, "Already Reported")
    ∷ (226, "IM Used")
    ∷ (300, "Multiple Choices")
    ∷ (301, "Moved Permanently")
    ∷ (302, "Found")
    ∷ (303, "See Other")
    ∷ (304, "Not Modified")
    ∷ (305, "Use Proxy")
    ∷ (307, "Temporary Redirect")
    ∷ (308, "Permanent Redirect")
    ∷ (400, "Bad Request")
    ∷ (401, "Unauthorized")
    ∷ (402, "Payment Required")
    ∷ (403, "Forbidden")
    ∷ (404, "Not Found")
    ∷ (405, "Method Not Allowed")
    ∷ (406, "Not Acceptable")
    ∷ (407, "Proxy Authentication Required")
    ∷ (408, "Request Timeout")
    ∷ (409, "Conflict")
    ∷ (410, "Gone")
    ∷ (411, "Length Required")
    ∷ (412, "Precondition Failed")
    ∷ (413, "Request Entity Too Large")
    ∷ (414, "Request URI Too Long")
    ∷ (415, "Unsupported Media Type")
    ∷ (416, "Requested Range Not Satisfiable")
    ∷ (417, "Expectation Failed")
    ∷ (418, "I'm a teapot")
    ∷ (421, "Misdirected Request")
    ∷ (422, "Unprocessable Entity")
    ∷ (423, "Locked")
    ∷ (424, "Failed Dependency")
    ∷ (425, "Too Early")
    ∷ (426, "Upgrade Required")
    ∷ (428, "Precondition Required")
    ∷ (429, "Too Many Requests")
    ∷ (431, "Request Header Fields Too Large")
    ∷ (451, "Unavailable For Legal Reasons")
    ∷ (500, "Internal Server Error")
    ∷ (501, "Not Implemented")
    ∷ (502, "Bad Gateway")
    ∷ (503, "Service Unavailable")
    ∷ (504, "Gateway Timeout")
    ∷ (505, "HTTP Version Not Supported")
    ∷ (506, "Variant Also Negotiates")
    ∷ (507, "Insufficient Storage")
    ∷ (508, "Loop Detected")
    ∷ (510, "Not Extended")
    ∷ (511, "Network Authentication Required")
    ∷ []

text_in : ℕ → List (ℕ × String) → String
text_in s [] = ""
text_in s ((c, t) ∷ rest) = let later = text_in s rest in if s == c then t else later

unfoldable pub status_text : ℕ → String
unfolding text_in
status_text s = text_in s status_texts

unfoldable pub new_error_response : ℕ → String → ErrorResponse
new_error_response status detail = record {
  type_ = "about:blank";
  status = status;
  title = status_text status;
  detail = detail;
  instance_ = "";
  errors = [];
}

-- `GenericResponse` with its base.
pub record Envelope (A : Type 0) : Type 0 where
  pub status_code : String
  pub return_message : String
  pub body : A

-- `fmt.Sprintf("%s-%d", appName, status)`; the application's name, which `Init` sets, is an argument.
unfoldable pub status_code_of : String → ℕ → String
status_code_of app_name status = str_append app_name (str_append "-" (show_nat status))

unfoldable pub success_envelope : {A : Type 0} → String → ℕ → A → Envelope A
unfolding status_code_of
success_envelope app_name status body = record {
  status_code = status_code_of app_name (if status == 0 then 200 else status);
  return_message = "Success";
  body = body;
}

unfoldable pub error_envelope : ℕ → String → ErrorResponse
unfolding new_error_response
error_envelope status msg = new_error_response status msg

-- What `NewError` sees of an error: nil, a detailer with its detail, or another with its message.
pub data Cause : Type 0 where
  nil_error : Cause
  detailed : ErrorDetail → Cause
  plain : String → Cause

add_causes : List ErrorDetail → List Cause → List ErrorDetail
add_causes acc [] = acc
add_causes acc (nil_error ∷ rest) = add_causes acc rest
add_causes acc (detailed d ∷ rest) = add_causes (acc ++ d ∷ []) rest
add_causes acc (plain m ∷ rest) =
    add_causes (acc ++ record { location = ""; message = m } ∷ []) rest

unfoldable pub new_error : ℕ → String → List Cause → ErrorResponse
unfolding add_causes new_error_response
new_error status msg errs = record (new_error_response status msg) { errors = add_causes [] errs }

-- The context's host and path, where there is a context.
unfoldable pub new_error_with_context :
    Option (String × String) → ℕ → String → List Cause → ErrorResponse
unfolding new_error
new_error_with_context none status msg errs = new_error status msg errs
new_error_with_context (some (host, path)) status msg errs =
    if str_eq host ""
    then new_error status msg errs
    else record (new_error status msg errs) { instance_ = path }

unfoldable pub error_content_type : String → String
error_content_type ct = if str_eq ct "application/json" then "application/problem+json" else ct

-- What is written to a response: the text of `http.Error`, or an encoded problem.
pub data Chunk : Type 0 where
  plain_text : String → Chunk
  problem : ErrorResponse → Chunk

-- A `statusInterceptWriter` around the response.
pub record Layer : Type 0 where
  pub status : ℕ
  pub intercepted : Bool

-- `http.ResponseWriter`: the header map, the status line with the headers as they were sent, and the
-- body.
pub record Reply : Type 0 where
  pub header : List (String × String)
  pub sent : Option (ℕ × List (String × String))
  pub body : List Chunk
  -- the writers around it, the innermost handler's first
  pub layers : List Layer

-- `Header().Set` and `Header().Add` at canonical names.
without : String → List (String × String) → List (String × String)
without k [] = []
without k ((j, v) ∷ rest) = let kept = without k rest in if str_eq j k then kept else (j, v) ∷ kept

unfoldable pub header_set : String → String → List (String × String) → List (String × String)
unfolding without
header_set k v h = without k h ++ (k, v) ∷ []

unfoldable pub header_add : String → String → List (String × String) → List (String × String)
header_add k v h = h ++ (k, v) ∷ []

-- `Header().Get`.
unfoldable pub header_get : String → List (String × String) → String
header_get k [] = ""
header_get k ((j, v) ∷ rest) = if str_eq j k then v else header_get k rest
