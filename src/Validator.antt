-- ===== src/Validator.antt =====
-- pkg/validator/validator.go: the words for the first error that the validation library reports.
pub mod Setup
use boilerplate_go_be.Base.{
  String, Option, none, some, List, [], ◌∷◌, ◌++◌, Dict, lookup, str_eq, Runes, codes, is_empty,
  if◌then◌else◌,
}

-- A `FieldError`.
pub record FieldError : Type 0 where
  pub field : Runes
  pub tag : String
  pub actual_tag : Runes
  pub param : Runes

-- What the library returns: nothing, field errors, or another error with its text.
pub data Verdict : Type 0 where
  valid : Verdict
  field_errors : List FieldError → Verdict
  other_error : Runes → Verdict

-- What `ValidateStruct` returns: nil, a `ValidationErrors` with its message, or the library's error.
pub data Report : Type 0 where
  no_error : Report
  validation_error : Runes → Report
  passed_on : Verdict → Report

extra_args : List Runes → Runes
extra_args [] = []
extra_args (a ∷ []) = codes "string=" ++ a
extra_args (a ∷ b ∷ rest) = codes "string=" ++ a ++ codes ", " ++ extra_args (b ∷ rest)

abbrev with_extra : List Runes → Runes
with_extra [] = []
with_extra (a ∷ rest) = codes "%!(EXTRA " ++ extra_args (a ∷ rest) ++ codes ")"

-- The next argument for a verb, and the arguments that are left.
abbrev next_arg : List Runes → Runes × List Runes
next_arg [] = (codes "%!s(MISSING)", [])
next_arg (a ∷ rest) = (a, rest)

-- A template in pieces, `%s` between any two.
unfoldable pub sprintf : List Runes → List Runes → Runes
unfolding extra_args
sprintf [] args = with_extra args
sprintf (piece ∷ []) args = piece ++ with_extra args
sprintf (piece ∷ next ∷ pieces) args =
    let taken = next_arg args in piece ++ taken.0 ++ sprintf (next ∷ pieces) taken.1

-- `tagMessages`, as pieces.
abbrev pub tag_messages : Dict (List Runes)
tag_messages =
    ("required", codes "" ∷ codes " is required" ∷ [])
    ∷ ("email", codes "" ∷ codes " is not a valid email" ∷ [])
    ∷ ("unique", codes "" ∷ codes " must have a unique value" ∷ [])
    ∷ ("notEmpty", codes "" ∷ codes " cannot be empty" ∷ [])
    ∷ ("max", codes "" ∷ codes " value must be lower than " ∷ codes "" ∷ [])
    ∷ ("min", codes "" ∷ codes " value must be greater than " ∷ codes "" ∷ [])
    ∷ ("oneof", codes "" ∷ codes " must be one of: " ∷ codes "" ∷ [])
    ∷ []

template_message : FieldError → Option (List Runes) → Runes
template_message fe none =
    sprintf (codes "" ∷ codes " validation error on " ∷ codes " tag" ∷ [])
      (fe.field ∷ fe.actual_tag ∷ [])
template_message fe (some tmpl) =
    if is_empty fe.param
    then sprintf tmpl (fe.field ∷ [])
    else sprintf tmpl (fe.field ∷ fe.param ∷ [])

-- On a day, as `2006-01-02`.
unfoldable pub field_message : Runes → FieldError → Runes
unfolding template_message sprintf lookup
field_message today fe =
    if str_eq fe.tag "notBeforeNow"
    then sprintf (codes "" ∷ codes " must be greater than " ∷ codes "" ∷ []) (fe.field ∷ today ∷ [])
    else if str_eq fe.tag "notAfterNow"
    then sprintf (codes "" ∷ codes " must be earlier than " ∷ codes "" ∷ []) (fe.field ∷ today ∷ [])
    else template_message fe (lookup fe.tag tag_messages)

unfoldable pub custom_error : Runes → Verdict → Report
custom_error today valid = no_error
custom_error today (field_errors []) = passed_on (field_errors [])
custom_error today (field_errors (fe ∷ _)) = validation_error (field_message today fe)
custom_error today (other_error e) = passed_on (other_error e)
