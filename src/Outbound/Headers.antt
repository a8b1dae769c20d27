-- ===== src/Outbound/Headers.antt =====
-- `WithHeader` of `HttpResponse` in infrastructure/dto/response/response.go.
use boilerplate_go_be.Base.{
  String, none, some, [], Dict, insert, lookup, lookup-insert, str_eq, if◌then◌else◌, ◌≡◌,
}
use boilerplate_go_be.Outbound.Http.{HttpResponse}

abbrev response_headers : HttpResponse → Dict String
response_headers r = elim r.headers [ none ↦ [] | some m ↦ m ]

unfoldable pub add_header : String → String → HttpResponse → HttpResponse
add_header key value r = record r { headers = some (insert key value (response_headers r)) }

-- A header that was set reads back, and no other header changes.
lookup-add_header :
    (key k value : String) (r : HttpResponse)
    → lookup k (response_headers (add_header key value r))
      ≡ (if str_eq key k then some value else lookup k (response_headers r))
unfolding add_header
lookup-add_header key k value r = lookup-insert key k value (response_headers r)
