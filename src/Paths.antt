-- ===== src/Paths.antt =====
-- infrastructure/utils/path.go, and the base path of the REST API in cmd/start_rest.go. A path is a list of
-- code points.
use boilerplate_go_be.Base.{
  ◌⊎◌, inr, inl, ◌&&◌, Bool-cases, ◌≡◌, refl, arith, Bool, true, false, [], ◌∷◌, ◌++◌, ◌==◌, Runes,
  is_empty, if◌then◌else◌,
}

abbrev pub slash : Runes
slash = b'/' ∷ []

-- `strings.HasPrefix(s, "/")` and `strings.HasSuffix(s, "/")`.
abbrev pub starts_with_slash : Runes → Bool
starts_with_slash [] = false
starts_with_slash (c ∷ s) = c == b'/'

abbrev pub ends_with_slash : Runes → Bool
ends_with_slash [] = false
ends_with_slash (c ∷ s) = let rest = ends_with_slash s in if is_empty s then c == b'/' else rest

abbrev or_root : Runes → Runes
or_root [] = slash
or_root (c ∷ s) = c ∷ s

abbrev with_first_slash : Runes → Runes
with_first_slash s = if starts_with_slash s then s else b'/' ∷ s

abbrev with_last_slash : Runes → Runes
with_last_slash s = if ends_with_slash s then s else s ++ slash

-- `base == "//"`.
abbrev is_double : Runes → Bool
is_double (a ∷ b ∷ []) = (a == b'/') && (b == b'/')
is_double _ = false

unfoldable pub normalize_base_path : Runes → Runes
normalize_base_path base =
    let path = with_last_slash (with_first_slash (or_root base)) in
    if is_double path then slash else path

-- `strings.TrimRight(s, "/")`.
unfoldable pub trim_right_slashes : Runes → Runes
trim_right_slashes [] = []
trim_right_slashes (c ∷ s) =
    let rest = trim_right_slashes s in if is_empty rest && (c == b'/') then [] else c ∷ rest

-- The base in `GetRESTServer`.
unfoldable pub api_base : Runes → Runes
unfolding normalize_base_path trim_right_slashes
api_base based = or_root (trim_right_slashes (normalize_base_path based))

ends_with_slash-append : (s : Runes) → ends_with_slash (s ++ slash) ≡ true
ends_with_slash-append [] = refl
ends_with_slash-append (c ∷ []) = refl
ends_with_slash-append (c ∷ d ∷ s) = ends_with_slash-append (d ∷ s)

starts_with_slash-append :
    (s : Runes) → starts_with_slash s ≡ true → starts_with_slash (s ++ slash) ≡ true
starts_with_slash-append [] h = refl
starts_with_slash-append (c ∷ s) h = h

with_first_slash_lem : (s : Runes) → starts_with_slash (with_first_slash s) ≡ true
with_first_slash_lem [] = refl
with_first_slash_lem (c ∷ s) = ground arith

with_last_slash_lem :
    (s : Runes)
    → starts_with_slash s ≡ true
    → (starts_with_slash (with_last_slash s) ≡ true) × (ends_with_slash (with_last_slash s) ≡ true)
with_last_slash_lem s h = elim (Bool-cases (ends_with_slash s)) [
  | inl e ↦ (ground arith, ground arith)
  | inr e ↦ (ground (arith, starts_with_slash-append s h), ground (arith, ends_with_slash-append s))
]

Normal : Runes → Type 0
Normal p = (starts_with_slash p ≡ true) × (ends_with_slash p ≡ true) × (is_double p ≡ false)

normalize_base_path-again : (p : Runes) → Normal p → normalize_base_path p ≡ p
unfolding normalize_base_path Normal
normalize_base_path-again [] h = ground arith
normalize_base_path-again (c ∷ s) (first, last, single) = rw (first, last, single) refl

collapsed :
    (p : Runes)
    → starts_with_slash p ≡ true
    → ends_with_slash p ≡ true
    → Normal (if is_double p then slash else p)
unfolding Normal
collapsed p first last = elim (Bool-cases (is_double p)) [
  | inl e ↦ (ground arith, ground arith, ground arith)
  | inr e ↦ (ground arith, ground arith, ground arith)
]

normalize_base_path_lem : (base : Runes) → Normal (normalize_base_path base)
unfolding normalize_base_path
normalize_base_path_lem base =
    let (first, last) =
      with_last_slash_lem (with_first_slash (or_root base)) (with_first_slash_lem (or_root base)) in
    collapsed (with_last_slash (with_first_slash (or_root base))) first last

-- The normal form of a base path begins with a slash and ends with one, and normalizing it again changes
-- nothing.
pub normalize_base_path-Normal :
    (base : Runes)
    → (starts_with_slash (normalize_base_path base) ≡ true)
      × (ends_with_slash (normalize_base_path base) ≡ true)
      × (normalize_base_path (normalize_base_path base) ≡ normalize_base_path base)
unfolding Normal
normalize_base_path-Normal base =
    let (first, last, single) = normalize_base_path_lem base in
    (first, last, normalize_base_path-again (normalize_base_path base) (first, last, single))

trim_right_slashes_lem : (s : Runes) → ends_with_slash (trim_right_slashes s) ≡ false
unfolding trim_right_slashes
trim_right_slashes_lem [] = refl
trim_right_slashes_lem (c ∷ s) = ground (arith, trim_right_slashes_lem s)

trim_right_slashes-first :
    (s : Runes)
    → starts_with_slash s ≡ true
    → starts_with_slash (or_root (trim_right_slashes s)) ≡ true
unfolding trim_right_slashes
trim_right_slashes-first [] h = refl
trim_right_slashes-first (c ∷ s) h = ground arith

ends_last :
    (p : Runes)
    → ends_with_slash p ≡ false
    → (or_root p ≡ slash) ⊎ (ends_with_slash (or_root p) ≡ false)
ends_last [] h = inl refl
ends_last (c ∷ p) h = inr h

-- The base path of the REST API begins with a slash, and it is just the slash or does not end with one.
pub api_base_lem :
    (based : Runes)
    → (starts_with_slash (api_base based) ≡ true)
      × ((api_base based ≡ slash) ⊎ (ends_with_slash (api_base based) ≡ false))
unfolding api_base
api_base_lem based =
    let p = normalize_base_path based in
    (
      trim_right_slashes-first p (normalize_base_path-Normal based).0,
      ends_last (trim_right_slashes p) (trim_right_slashes_lem p),
    )
