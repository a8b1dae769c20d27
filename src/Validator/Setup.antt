-- ===== src/Validator/Setup.antt =====
-- `setup`, `ValidateStruct` and the two validations of times in pkg/validator/validator.go. The validation
-- library is a parameter; the clock is read when a validation runs.
use boilerplate_go_be.Base.{
  ℤ, String, Bool, true, false, Option, none, some, ◌≡◌, ◌↔◌, refl, ◌∙◌, ◌&&◌, pos, negsuc, arith,
  leb_ℤ, str_eq, if◌then◌else◌, Runes,
}
use boilerplate_go_be.Runtime.{Error, ret, exit, Prog, raise, modify, ◌>>◌}
use boilerplate_go_be.Validator.{Verdict, Report, custom_error}

-- What a field holds: a `time.Time`, as an instant, or anything else.
pub data FieldValue : Type 0 where
  instant : ℤ → FieldValue
  other_value : FieldValue

-- A validation, from the clock and the field.
abbrev pub Validation : Type 0
Validation = ℤ → FieldValue → Bool

unfoldable pub not_after_now : Validation
not_after_now now (instant t) = leb_ℤ t now
not_after_now now other_value = false

unfoldable pub not_before_now : Validation
not_before_now now (instant t) = leb_ℤ now t
not_before_now now other_value = false

-- The library: `New`, `RegisterValidation`, and `Struct` at an instant.
pub record Library : Type 1 where
  pub Engine : Type 0
  pub Object : Type 0
  pub new_engine : Engine
  pub register_validation : Engine → String → Validation → Option Error × Engine
  pub check_struct : Engine → ℤ → Object → Verdict

-- A time passes both validations at the instant that it names and at no other.
now_alone :
    (now t : ℤ)
    → ((not_after_now now (instant t) && not_before_now now (instant t)) ≡ true) ↔ (t ≡ now)
unfolding not_after_now not_before_now
now_alone (pos a) (pos b) = (λ h. ground arith, λ e. ground arith)
now_alone (negsuc a) (negsuc b) = (λ h. ground arith, λ e. ground arith)
now_alone (pos a) (negsuc b) = (λ h. ground arith, λ e. ground arith)
now_alone (negsuc a) (pos b) = (λ h. ground arith, λ e. ground arith)

module _ (L : Library) where
  -- `validate`, nil before `setup`.
  abbrev pub Validate : Type 0
  Validate = Option L.Engine

  -- A registration, and `log.Fatalf` where it fails.
  unfoldable pub register_or_exit : String → Validation → Prog Validate (Unit {0})
  register_or_exit tag fn none = (raise "nil pointer dereference" none)
  register_or_exit tag fn (some v) =
      let registered = L.register_validation v tag fn in
      elim registered.0 [ some _ ↦ (exit, some registered.1) | none ↦ (ret tt, some registered.1) ]

  unfoldable pub setup : Prog Validate (Unit {0})
  unfolding register_or_exit
  setup = do
    modify (λ _. some L.new_engine)
    register_or_exit "notBeforeNow" not_before_now
    register_or_exit "notAfterNow" not_after_now

  -- On a day and at an instant.
  unfoldable pub validate_struct : Runes → ℤ → L.Object → Prog Validate Report
  validate_struct today now obj none = (raise "nil pointer dereference" none)
  validate_struct today now obj (some v) =
      (ret (custom_error today (L.check_struct v now obj)), some v)

-- A registration under a tag that is not empty is accepted, and the tag then means the function.
pub record Registry (L : Library) : Type 0 where
  pub meaning : L.Engine → String → Option Validation
  pub accepted :
      (v : L.Engine) (tag : String) (fn : Validation)
      → str_eq tag "" ≡ false
      → (L.register_validation v tag fn).0 ≡ none
  pub registered :
      (v : L.Engine) (tag : String) (fn : Validation) (t : String)
      → meaning (L.register_validation v tag fn).1 t
        ≡ (if str_eq t tag then some fn else meaning v t)

module _ {L : Library} (reg : Registry L) where
  -- Whatever was there before, `setup` returns, and the engine then knows both validations.
  setup-registers :
      (old : Validate L)
      → (v : L.Engine) × (setup L old ≡ (ret tt, some v))
        × (reg.meaning v "notBeforeNow" ≡ some not_before_now)
        × (reg.meaning v "notAfterNow" ≡ some not_after_now)
  unfolding setup register_or_exit
  setup-registers old =
      let first = L.register_validation L.new_engine "notBeforeNow" not_before_now in
      let second = L.register_validation first.1 "notAfterNow" not_after_now in
      let fine = reg.accepted L.new_engine "notBeforeNow" not_before_now refl in
      let fine' = reg.accepted first.1 "notAfterNow" not_after_now refl in
      (
        second.1,
        ground (arith, fine, fine'),
        reg.registered first.1 "notAfterNow" not_after_now "notBeforeNow"
            ∙ reg.registered L.new_engine "notBeforeNow" not_before_now "notBeforeNow",
        reg.registered first.1 "notAfterNow" not_after_now "notAfterNow",
      )
