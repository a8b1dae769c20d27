-- ===== src/Runtime/Errors.antt =====
-- Go error values: those of the program, and those that other code hands to it.
use boilerplate_go_be.Base.{ℕ, String, Bool, true, false, ◌||◌, Option, none, some}
use boilerplate_go_be.Code.{Code}

-- `validation expired` is golang-jwt's `*ValidationError`, with whether its expired bit is set.
-- `foreign` is any other error that comes from outside the program.
pub data Error : Type 0 where
  code_error : Code → Error
  no_rows : Error
  validation : Bool → Error
  new : String → Error
  wrap : String → Error → Error
  join : Error → Error → Error
  foreign : ℕ → Error

abbrev or_else {ℓ} : {A : Type ℓ} → Option A → Option A → Option A
or_else none b = b
or_else (some a) _ = some a

-- `errors.As(err, &c)` with `c` a `*code.Code`: the first in the tree, in preorder.
unfoldable pub as_code : Error → Option Code
as_code (code_error c) = some c
as_code (wrap _ e) = as_code e
as_code (join a b) = or_else (as_code a) (as_code b)
as_code _ = none

-- `errors.Is(err, sql.ErrNoRows)`.
unfoldable pub is_no_rows : Error → Bool
is_no_rows no_rows = true
is_no_rows (wrap _ e) = is_no_rows e
is_no_rows (join a b) = is_no_rows a || is_no_rows b
is_no_rows _ = false

-- `errors.As(err, &ve)` with `ve` a `*jwt.ValidationError`: its expired bit.
unfoldable pub as_validation : Error → Option Bool
as_validation (validation expired) = some expired
as_validation (wrap _ e) = as_validation e
as_validation (join a b) = or_else (as_validation a) (as_validation b)
as_validation _ = none

-- An error occurs in the tree of another: `errors.Is` at that very error finds it.
pub data Within (e : Error) : Error → Type 0 where
  itself : Within e e
  wrapped : {m : String} {a : Error} → Within e a → Within e (wrap m a)
  joined_left : {a b : Error} → Within e a → Within e (join a b)
  joined_right : {a b : Error} → Within e b → Within e (join a b)
