-- ===== src/Code.antt =====
-- pkg/code/code.go and infrastructure/enums/kafka_code.go: the error codes that every transport shares,
-- and the catalogue of predefined codes. `codes.Code` of gRPC is the enumeration of the values used.
mod Defs
mod Catalogue
pub mod Agreement
unfoldable pub use Defs.*
unfoldable pub use Catalogue.*
