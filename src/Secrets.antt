-- ===== src/Secrets.antt =====
-- infrastructure/utils/secure.go: values that hide themselves when they are printed. A value is the list of
-- its bytes; `SecureString` and `SecureBytes` have the same code.
use boilerplate_go_be.Base.{
  ◌∙◌, ◌≤◌, ◌≢◌, length, ◌≢◌, ◌≤◌, ℕ, zero, suc, ◌+◌, ◌-◌, ◌<◌, pos, ◌≡◌, refl, ap, arith, Option,
  none, some, [], ◌∷◌, ◌++◌, ltb, ◌==◌, Runes, codes, show_int, if◌then◌else◌,
}
use mathlib.Core.List.{append_assoc}

abbrev secure_prefix : ℕ
secure_prefix = 4

abbrev secure_suffix : ℕ
secure_suffix = 4

abbrev secure_max_len : ℕ
secure_max_len = 16

-- `s[:n]` and `s[n:]`; none for the panic of a bound that is out of range.
unfoldable pub slice_to : ℕ → Runes → Option Runes
slice_to zero s = some []
slice_to (suc n) [] = none
slice_to (suc n) (c ∷ s) = elim (slice_to n s) [ none ↦ none | some t ↦ some (c ∷ t) ]

unfoldable pub slice_from : ℕ → Runes → Option Runes
slice_from zero s = some s
slice_from (suc n) [] = none
slice_from (suc n) (c ∷ s) = slice_from n s

abbrev repeat_star : ℕ → Runes
repeat_star zero = []
repeat_star (suc n) = b'*' ∷ repeat_star n

both : Option Runes → ℕ → Option Runes → Option Runes
both (some p) l (some s) =
    some (p ++ codes "...(len:" ++ codes (show_int (pos l)) ++ codes ")..." ++ s)
both _ l _ = none

-- `String()`; none for a panic.
unfoldable pub masked : Runes → Option Runes
unfolding both
masked v =
    let l = length v in
    if l == 0
    then some (codes "<empty>")
    else if ltb l secure_max_len
    then some (repeat_star l)
    else both (slice_to secure_prefix v) l (slice_from (l - secure_suffix) v)

slice_to_lem : (n : ℕ) (a b : Runes) → length a ≡ n → slice_to n (a ++ b) ≡ some a
unfolding slice_to
slice_to_lem zero [] b e = refl
slice_to_lem zero (c ∷ a) b e = ground arith
slice_to_lem (suc n) [] b e = ground arith
slice_to_lem (suc n) (c ∷ a) b e = ground (arith, slice_to_lem n a b)

slice_from_lem : (n : ℕ) (a b : Runes) → length a ≡ n → slice_from n (a ++ b) ≡ some b
unfolding slice_from
slice_from_lem zero [] b e = refl
slice_from_lem zero (c ∷ a) b e = ground arith
slice_from_lem (suc n) [] b e = ground arith
slice_from_lem (suc n) (c ∷ a) b e = slice_from_lem n a b (ground arith)

length-append : (a b : Runes) → length (a ++ b) ≡ length a + length b
length-append [] b = ground arith
length-append (c ∷ a) b = ground (arith, length-append a b)

-- A value of fewer than 16 bytes shows its length alone.
pub masked-short : (v u : Runes) → length v < 16 → length u ≡ length v → masked u ≡ masked v
unfolding masked
masked-short v u short same = ground arith

length-three :
    (first middle last : Runes)
    → length first ≡ 4
    → length last ≡ 4
    → length (first ++ middle ++ last) ≡ length middle + 8
length-three first middle last f l =
    ground (arith, length-append (first ++ middle) last, length-append first middle)

slice_from-three :
    (first middle last : Runes)
    → length first ≡ 4
    → length last ≡ 4
    → slice_from (length (first ++ middle ++ last) - 4) (first ++ middle ++ last) ≡ some last
slice_from-three first middle last f l =
    slice_from_lem (length (first ++ middle ++ last) - 4) (first ++ middle) last
      (ground (arith, length-append first middle, length-three first middle last f l))

masked-three :
    (first middle last : Runes)
    → length first ≡ 4
    → length last ≡ 4
    → 8 ≤ length middle
    → masked (first ++ middle ++ last)
      ≡ some (
          first
          ++ codes "...(len:"
          ++ codes (show_int (pos (length middle + 8)))
          ++ codes ")..."
          ++ last)
unfolding masked
masked-three first middle last f l enough = ground (
  arith,
  length-three first middle last f l,
  slice_from-three first middle last f l,
  ap (slice_to 4) (append_assoc first middle last) ∙ slice_to_lem 4 first (middle ++ last) f,
)

-- A value of 16 bytes or more shows its first 4 and its last 4 bytes and its length: another value with
-- these in common is shown the same, whatever stands in the middle, and no slice is out of range.
pub masked-long :
    (first middle middle' last : Runes)
    → length first ≡ 4
    → length last ≡ 4
    → 8 ≤ length middle
    → length middle' ≡ length middle
    → (masked (first ++ middle ++ last) ≡ masked (first ++ middle' ++ last))
      × (masked (first ++ middle ++ last) ≢ none)
masked-long first middle middle' last f l enough same =
    ground (arith, masked-three first middle last f l, masked-three first middle' last f l)
