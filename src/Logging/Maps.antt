-- ===== src/Logging/Maps.antt =====
-- The maps of pkg/logger by level.
use boilerplate_go_be.Base.{
  ap, sym, refl, false, Bool-cases, inl, inr, int_eq_iff, ◌≡◌, ◌↔◌, true, arith, int_eq_iff, ◌↔◌,
  true, arith, ◌≡◌, int_eq, Bool, Option, none, some, List, [], ◌∷◌, if◌then◌else◌,
}
use boilerplate_go_be.Logger.{Level, to_slog}

unfoldable pub level_eq : Level → Level → Bool
unfolding to_slog
level_eq a b = int_eq (to_slog a) (to_slog b)

level_eq_iff : (a b : Level) → (level_eq a b ≡ true) ↔ (to_slog a ≡ to_slog b)
unfolding level_eq
level_eq_iff a b = int_eq_iff (to_slog a) (to_slog b)

level_eq-same : (k l j : Level) → level_eq k l ≡ true → level_eq k j ≡ level_eq l j
unfolding level_eq
level_eq-same k l j h = ap (λ z. int_eq z (to_slog j)) ((level_eq_iff k l).0 h)

level_eq_sym : (k l : Level) → level_eq k l ≡ true → level_eq l k ≡ true
level_eq_sym k l h = (level_eq_iff l k).1 (sym ((level_eq_iff k l).0 h))

level_eq-apart : (k l j : Level) → level_eq k l ≡ false → level_eq k j ≡ true → level_eq l j ≡ false
level_eq-apart k l j apart same = elim (Bool-cases (level_eq l j)) [
  | inl e ↦ ground (arith, level_eq-same k j l same, level_eq_sym l j e)
  | inr e ↦ e
]

module _ {A : Type 0} where
  -- `m[l] = a`.
  unfoldable pub set_level : Level → A → List (Level × A) → List (Level × A)
  unfolding level_eq
  set_level l a [] = (l, a) ∷ []
  set_level l a ((k, b) ∷ m) = if level_eq k l then (l, a) ∷ m else (k, b) ∷ set_level l a m

  unfoldable pub of_level : Level → List (Level × A) → Option A
  unfolding level_eq
  of_level l [] = none
  of_level l ((k, b) ∷ m) = if level_eq k l then some b else of_level l m

  pub of_level-set_level :
      (j l : Level) (a : A) (m : List (Level × A))
      → of_level j (set_level l a m) ≡ (if level_eq l j then some a else of_level j m)
  unfolding set_level of_level
  of_level-set_level j l a [] = refl
  of_level-set_level j l a ((k, b) ∷ m) = elim (Bool-cases (level_eq k l)) [
    | inl same ↦ ground (arith, level_eq-same k l j same)
    | inr other ↦ ground (arith, of_level-set_level j l a m, level_eq-apart k l j other)
  ]
