-- ===== src/Base/Int.antt =====
-- Go's signed integers over the native numbers, their 32-bit conversion and `%d`.
use Prim.Native.Nat.{ℕ, zero, ◌*◌, suc, ◌+◌, ◌-◌, ◌/◌, ◌%◌, ◌^◌, ◌<◌}
use Prim.Native.String.{String, ◌++◌ as str_append}
use mathlib.Core.Path.{◌≡◌, refl}
use mathlib.Core.Logic.{◌↔◌}
use mathlib.Core.Bool.{Bool, true, false}
use native.Mathlib.Omega.{arith}
use boilerplate_go_be.Base.Tests.{ltb, leb, ◌==◌, if◌then◌else◌}

-- `negsuc n` is -(n + 1).
pub data ℤ : Type 0 where
  pos : ℕ → ℤ
  negsuc : ℕ → ℤ

abbrev pub int_eq : ℤ → ℤ → Bool
int_eq (pos a) (pos b) = a == b
int_eq (negsuc a) (negsuc b) = a == b
int_eq _ _ = false

pub int_eq_iff : (a b : ℤ) → (int_eq a b ≡ true) ↔ (a ≡ b)
int_eq_iff (pos a) (pos b) = (λ h. ground arith, λ e. ground arith)
int_eq_iff (negsuc a) (negsuc b) = (λ h. ground arith, λ e. ground arith)
int_eq_iff (pos a) (negsuc b) = (λ h. ground arith, λ e. ground arith)
int_eq_iff (negsuc a) (pos b) = (λ h. ground arith, λ e. ground arith)

-- 0 < z
abbrev pub is_positive : ℤ → Bool
is_positive (pos n) = ltb 0 n
is_positive (negsuc n) = false

abbrev pub u32_mod : ℕ
u32_mod = 2 ^ 32

-- The int32 with the bit pattern `n`.
abbrev pub of_bits : ℕ → ℤ
of_bits n = if ltb n (2 ^ 31) then pos n else negsuc (u32_mod - 1 - n)

-- The low 32 bits of an int in two's complement.
abbrev pub low_bits : ℤ → ℕ
low_bits (pos n) = n % u32_mod
low_bits (negsuc n) = u32_mod - 1 - n % u32_mod

-- `int32(z)`.
unfoldable pub int32 : ℤ → ℤ
int32 z = of_bits (low_bits z)

-- The values that an int32 holds.
abbrev pub FitsInt32 : ℤ → Type 0
FitsInt32 (pos n) = n < 2 ^ 31
FitsInt32 (negsuc n) = n < 2 ^ 31

pub int32-eq_of_FitsInt32 : (z : ℤ) → FitsInt32 z → int32 z ≡ z
unfolding int32
int32-eq_of_FitsInt32 (pos n) h = ground arith
int32-eq_of_FitsInt32 (negsuc n) h = ground arith

pub int32-FitsInt32 : (z : ℤ) → FitsInt32 (int32 z)
unfolding int32
int32-FitsInt32 (pos n) = ground arith
int32-FitsInt32 (negsuc n) = ground arith

abbrev pub digit : ℕ → String
digit d =
    if d == 0
    then "0"
    else if d == 1
    then "1"
    else if d == 2
    then "2"
    else if d == 3
    then "3"
    else if d == 4
    then "4"
    else if d == 5
    then "5"
    else if d == 6
    then "6"
    else if d == 7
    then "7"
    else if d == 8
    then "8"
    else "9"

-- The decimal digits, on fuel: the fuel `suc n` is enough, since a division by ten lowers `n`.
unfoldable pub show_fuel : ℕ → ℕ → String
show_fuel zero n = ""
show_fuel (suc f) n = elim (ltb n 10) [
  | true ↦ digit n
  | false ↦ str_append (show_fuel f (n / 10)) (digit (n % 10))
]

unfoldable pub show_nat : ℕ → String
unfolding show_fuel
show_nat n = show_fuel (suc n) n

-- `fmt.Sprintf("%d", z)`.
unfoldable pub show_int : ℤ → String
unfolding show_nat
show_int (pos n) = show_nat n
show_int (negsuc n) = str_append "-" (show_nat (suc n))

show_tests : (show_int (pos 405) ≡ "405") × (show_int (negsuc 11) ≡ "-12")
unfolding show_int
show_tests = (refl, refl)

abbrev pub pos_part : ℤ → ℕ
pos_part (pos n) = n
pos_part (negsuc n) = 0

abbrev pub neg_part : ℤ → ℕ
neg_part (pos n) = 0
neg_part (negsuc n) = suc n

-- a ≤ b
abbrev pub leb_ℤ : ℤ → ℤ → Bool
leb_ℤ a b = leb (pos_part a + neg_part b) (pos_part b + neg_part a)

-- Durations, in nanoseconds.
abbrev pub second : ℕ
second = 10 ^ 9

-- The int64 with a bit pattern.
abbrev pub signed64 : ℕ → ℤ
signed64 m = if ltb m (2 ^ 63) then pos m else negsuc (2 ^ 64 - 1 - m)

-- `time.Duration(t) * time.Second`, an int64 that wraps around.
unfoldable pub seconds : ℤ → ℤ
seconds (pos n) = signed64 (n * second % 2 ^ 64)
seconds (negsuc n) = signed64 ((2 ^ 64 - suc n * second % 2 ^ 64) % 2 ^ 64)
