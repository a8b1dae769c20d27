-- ===== src/Base/Text.antt =====
-- Go strings. A text that the program only compares and joins is a native `String`; one that it walks
-- is the list of its code points.
use Prim.Native.Nat.{ℕ, ◌+◌, ◌-◌}
use Prim.Native.Char.{code}
use Prim.Native.String.{String, slice, len}
use mathlib.Core.Bool.{Bool, true, false, ◌&&◌}
use mathlib.Core.List.{List, [], ◌∷◌, map}
use text.Mathlib.Text.{starts_with}
use boilerplate_go_be.Base.Tests.{leb, ◌==◌, if◌then◌else◌}

abbrev pub codes : String → List ℕ
codes String.[] = []
codes (String.◌∷◌ c s) = code c ∷ codes s

-- `strings.TrimPrefix`.
abbrev pub trim_prefix : String → String → String
trim_prefix s p = if starts_with s p then slice s (len p) (len s) else s

-- `strings.Contains`.
abbrev pub contains : String → String → Bool
contains String.[] t = starts_with String.[] t
contains (String.◌∷◌ c s) t =
    let rest = contains s t in if starts_with (String.◌∷◌ c s) t then true else rest

-- `==` on lists of code points.
abbrev pub codes_eq : List ℕ → List ℕ → Bool
codes_eq [] [] = true
codes_eq (a ∷ s) (b ∷ t) = (a == b) && codes_eq s t
codes_eq _ _ = false

-- `unicode.ToLower` as far as its result can be an ASCII letter: the capitals of ASCII, the Kelvin
-- sign and the capital I with a dot. Every other code point stays, which no comparison with an ASCII
-- word can tell from its lower case.
abbrev pub lower_code : ℕ → ℕ
lower_code c =
    if leb b'A' c && leb c b'Z'
    then c + 32
    else if c == 0x212A
    then b'k'
    else if c == 0x130
    then b'i'
    else c

-- `strings.ToLower(s) == w` for an ASCII word `w`.
unfoldable pub lower_is : String → String → Bool
lower_is s w = codes_eq (map lower_code (codes s)) (codes w)

-- `unicode.ToUpper` in the same sense, with the small letters of ASCII, the dotless i and the long s.
abbrev pub upper_code : ℕ → ℕ
upper_code c =
    if leb b'a' c && leb c b'z'
    then c - 32
    else if c == 0x131
    then b'I'
    else if c == 0x17F
    then b'S'
    else c

-- `strings.ToUpper(s) == w` for an ASCII word `w`.
unfoldable pub upper_is : String → String → Bool
upper_is s w = codes_eq (map upper_code (codes s)) (codes w)

-- The fold under which encoding/json compares an object's keys with field names: ASCII letters, the
-- Kelvin sign and the long s.
abbrev pub fold_code : ℕ → ℕ
fold_code c =
    if leb b'A' c && leb c b'Z'
    then c + 32
    else if c == 0x212A
    then b'k'
    else if c == 0x17F
    then b's'
    else c

unfoldable pub fold_is : String → String → Bool
fold_is s w = codes_eq (map fold_code (codes s)) (codes w)
