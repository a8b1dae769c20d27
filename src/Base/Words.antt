-- ===== src/Base/Words.antt =====
-- Texts that are walked, as lists of code points: Go's `strings` functions on blanks and separators, and
-- `strconv.Atoi`.
use Prim.Native.Nat.{ℕ, zero, suc, ◌+◌, ◌-◌, ◌*◌, ◌^◌}
use Prim.Native.Char.{code}
use Prim.Native.String.{String, ◌++◌ as str_append}
use Prim.Native.String.append.{nil, cons}
use mathlib.Core.Path.{◌≡◌, refl, ap, ◌∙◌, sym}
use mathlib.Core.Bool.{Bool, true, false, ◌&&◌, ◌||◌}
use mathlib.Core.Option.{Option, none, some}
use mathlib.Core.List.{List, [], ◌∷◌, ◌++◌, append_assoc, append-nil}
use native.Mathlib.Omega.{arith}
use boilerplate_go_be.Base.Tests.{ltb, leb, ◌==◌, if◌then◌else◌}
use boilerplate_go_be.Base.Text.{codes}
use boilerplate_go_be.Base.Lists.{All}
use boilerplate_go_be.Base.Int.{ℤ, pos, negsuc}

abbrev pub Runes : Type 0
Runes = List ℕ

pub codes-append : (s t : String) → codes (str_append s t) ≡ codes s ++ codes t
codes-append String.[] t = ap codes (nil t)
codes-append (String.◌∷◌ c s) t = ap codes (cons c s t) ∙ ap (λ r. code c ∷ r) (codes-append s t)

-- `unicode.IsSpace`.
unfoldable pub is_space : ℕ → Bool
is_space c =
    (leb 9 c && leb c 13)
    || (c == 32)
    || (c == 0x85)
    || (c == 0xA0)
    || (c == 0x1680)
    || (leb 0x2000 c && leb c 0x200A)
    || (c == 0x2028)
    || (c == 0x2029)
    || (c == 0x202F)
    || (c == 0x205F)
    || (c == 0x3000)

abbrev pub is_empty : Runes → Bool
is_empty [] = true
is_empty (c ∷ s) = false

trim_left : Runes → Runes
trim_left [] = []
trim_left (c ∷ s) = let rest = trim_left s in if is_space c then rest else c ∷ s

trim_right : Runes → Runes
trim_right [] = []
trim_right (c ∷ s) = let rest = trim_right s in if is_empty rest && is_space c then [] else c ∷ rest

-- `strings.TrimSpace`.
unfoldable pub trim_space : Runes → Runes
unfolding trim_left trim_right
trim_space s = trim_right (trim_left s)

abbrev word_first : Runes → List Runes → List Runes
word_first [] ws = ws
word_first (c ∷ w) ws = (c ∷ w) ∷ ws

-- With the word read so far.
fields_from : Runes → Runes → List Runes
fields_from w [] = word_first w []
fields_from w (c ∷ s) =
    let apart = fields_from [] s in
    let on = fields_from (w ++ c ∷ []) s in if is_space c then word_first w apart else on

-- `strings.Fields`.
unfoldable pub fields : Runes → List Runes
unfolding fields_from
fields s = fields_from [] s

split_from : ℕ → Runes → Runes → List Runes
split_from sep w [] = w ∷ []
split_from sep w (c ∷ s) =
    let apart = split_from sep [] s in
    let on = split_from sep (w ++ c ∷ []) s in if c == sep then w ∷ apart else on

-- `strings.Split` at a separator of one code point.
unfoldable pub split_on : ℕ → Runes → List Runes
unfolding split_from
split_on sep s = split_from sep [] s

abbrev starts : Runes → Runes → Bool
starts [] s = true
starts (p ∷ ps) [] = false
starts (p ∷ ps) (c ∷ s) = (p == c) && starts ps s

abbrev cut : Runes → Runes → Runes
cut [] s = s
cut (p ∷ ps) [] = []
cut (p ∷ ps) (c ∷ s) = cut ps s

-- `strings.TrimPrefix(s, p)`.
unfoldable pub trim_prefix_text : Runes → Runes → Runes
trim_prefix_text s p = if starts p s then cut p s else s

-- The value of decimal digits, read after `n`.
digits_value : Runes → ℕ → Option ℕ
digits_value [] n = some n
digits_value (c ∷ s) n =
    let rest = digits_value s (n * 10 + (c - b'0')) in
    if leb b'0' c && leb c b'9' then rest else none

unsigned : Runes → Option ℕ
unsigned [] = none
unsigned (c ∷ s) = digits_value (c ∷ s) 0

non_negative : Option ℕ → Option ℤ
non_negative none = none
non_negative (some n) = if ltb n (2 ^ 63) then some (pos n) else none

negative : Option ℕ → Option ℤ
negative none = none
negative (some zero) = some (pos 0)
negative (some (suc n)) = if ltb n (2 ^ 63) then some (negsuc n) else none

-- `strconv.Atoi`, where an int has 64 bits; `none` for its error.
unfoldable pub atoi : Runes → Option ℤ
unfolding digits_value unsigned non_negative negative
atoi [] = none
atoi (c ∷ s) =
    if c == b'-'
    then negative (unsigned s)
    else if c == b'+'
    then non_negative (unsigned s)
    else non_negative (unsigned (c ∷ s))

atoi_tests :
    (atoi (codes "-12") ≡ some (negsuc 11))
    × (atoi (codes "") ≡ none)
    × (atoi (codes "30s") ≡ none)
    × (atoi (codes "9223372036854775808") ≡ none)
unfolding atoi
atoi_tests = (refl, refl, refl, refl)

-- No blank in it.
abbrev pub NoSpace : Runes → Type 0
NoSpace w = All (λ c. is_space c ≡ false) w

abbrev pub Lacks : ℕ → Runes → Type 0
Lacks b w = All (λ c. (c == b) ≡ false) w

trim_left-word : (c : ℕ) (s : Runes) → is_space c ≡ false → trim_left (c ∷ s) ≡ c ∷ s
unfolding trim_left
trim_left-word c s h = ground arith

trim_right-blank : (s : Runes) (c : ℕ) → is_space c ≡ true → trim_right (s ++ c ∷ []) ≡ trim_right s
unfolding trim_right
trim_right-blank [] c h = ground arith
trim_right-blank (d ∷ s) c h = ground (arith, trim_right-blank s c h)

trim_right-word :
    (s : Runes) (c : ℕ) (w : Runes) → NoSpace (c ∷ w) → trim_right (s ++ c ∷ w) ≡ s ++ c ∷ w
unfolding trim_right
trim_right-word [] c [] h = ground arith
trim_right-word [] c (d ∷ w) h = ground (arith, trim_right-word [] d w h.1)
trim_right-word (b ∷ []) c w h = ground (arith, trim_right-word [] c w h)
trim_right-word (b ∷ d ∷ s) c w h = ground (arith, trim_right-word (d ∷ s) c w h)

-- A text that begins and ends with a word, and a newline after it.
pub trim_space-line :
    (b : ℕ) (s : Runes) (c : ℕ) (w : Runes)
    → is_space b ≡ false
    → NoSpace (c ∷ w)
    → trim_space ((b ∷ s ++ c ∷ w) ++ 10 ∷ []) ≡ b ∷ s ++ c ∷ w
unfolding trim_space is_space
trim_space-line b s c w first last =
    ap trim_right (trim_left-word b ((s ++ c ∷ w) ++ 10 ∷ []) first)
    ∙ trim_right-blank (b ∷ s ++ c ∷ w) 10 refl
    ∙ trim_right-word (b ∷ s) c w last

pub trim_space-word : (c : ℕ) (w : Runes) → NoSpace (c ∷ w) → trim_space (c ∷ w) ≡ c ∷ w
unfolding trim_space
trim_space-word c w h = ap trim_right (trim_left-word c w h.0) ∙ trim_right-word [] c w h

pub trim_space-blank_word : (c : ℕ) (w : Runes) → NoSpace (c ∷ w) → trim_space (32 ∷ c ∷ w) ≡ c ∷ w
unfolding trim_space trim_left is_space
trim_space-blank_word c w h = ap trim_right (trim_left-word c w h.0) ∙ trim_right-word [] c w h

fields_from-word : (w v s : Runes) → NoSpace v → fields_from w (v ++ s) ≡ fields_from (w ++ v) s
unfolding fields_from
fields_from-word w [] s h = ap (λ u. fields_from u s) (sym (append-nil w))
fields_from-word w (c ∷ v) s h =
    ground (arith, fields_from-word (w ++ c ∷ []) v s h.1, append_assoc w (c ∷ []) v)

pub fields-word : (c : ℕ) (w : Runes) → NoSpace (c ∷ w) → fields (c ∷ w) ≡ (c ∷ w) ∷ []
unfolding fields fields_from
fields-word c w h =
    ap (fields_from []) (sym (append-nil (c ∷ w))) ∙ fields_from-word [] (c ∷ w) [] h

-- A word, a blank, a word.
pub fields-two :
    (b : ℕ) (v : Runes) (c : ℕ) (w : Runes)
    → NoSpace (b ∷ v)
    → NoSpace (c ∷ w)
    → fields (b ∷ v ++ 32 ∷ c ∷ w) ≡ (b ∷ v) ∷ (c ∷ w) ∷ []
unfolding fields fields_from is_space
fields-two b v c w first last =
    fields_from-word [] (b ∷ v) (32 ∷ c ∷ w) first ∙ ap (λ ws. (b ∷ v) ∷ ws) (fields-word c w last)

split_from-Lacks :
    (sep : ℕ) (w v s : Runes) → Lacks sep v → split_from sep w (v ++ s) ≡ split_from sep (w ++ v) s
unfolding split_from
split_from-Lacks sep w [] s h = ap (λ u. split_from sep u s) (sym (append-nil w))
split_from-Lacks sep w (c ∷ v) s h =
    ground (arith, split_from-Lacks sep (w ++ c ∷ []) v s h.1, append_assoc w (c ∷ []) v)

pub split_on-Lacks : (sep : ℕ) (v : Runes) → Lacks sep v → split_on sep v ≡ v ∷ []
unfolding split_on split_from
split_on-Lacks sep v h =
    ap (split_from sep []) (sym (append-nil v)) ∙ split_from-Lacks sep [] v [] h

pub split_on-two :
    (sep : ℕ) (v w : Runes) → Lacks sep v → Lacks sep w → split_on sep (v ++ sep ∷ w) ≡ v ∷ w ∷ []
unfolding split_on split_from
split_on-two sep v w hv hw =
    split_from-Lacks sep [] v (sep ∷ w) hv ∙ ground (arith, split_on-Lacks sep w hw)

starts-append : (p s : Runes) → starts p (p ++ s) ≡ true
starts-append [] s = refl
starts-append (c ∷ p) s = ground (arith, starts-append p s)

cut-append : (p s : Runes) → cut p (p ++ s) ≡ s
cut-append [] s = refl
cut-append (c ∷ p) s = cut-append p s

pub trim_prefix_text-append : (p s : Runes) → trim_prefix_text (p ++ s) p ≡ s
unfolding trim_prefix_text
trim_prefix_text-append p s = rw (starts-append p s) (cut-append p s)

pub NoSpace-append : (v w : Runes) → NoSpace v → NoSpace w → NoSpace (v ++ w)
NoSpace-append [] w hv hw = hw
NoSpace-append (c ∷ v) w hv hw = (hv.0, NoSpace-append v w hv.1 hw)
