-- ===== src/Runtime.antt =====
-- What Go itself gives the program: panics, `recover`, and error values with `errors.As` and
-- `errors.Is`. A program over a state `W` is a function of it; the state comes back after a panic too,
-- since what was written stays written.
mod Errors
unfoldable pub use Errors.*
use boilerplate_go_be.Base.{refl, inr, inl, ◌⊎◌, ◌≡◌, String}

-- How a Go call ends: it returns, it panics, or the process exits (`os.Exit`, `log.Fatal`), which no
-- `recover` catches.
pub data Outcome (A : Type 0) : Type 0 where
  ret : A → Outcome A
  panic : String → Outcome A
  exit : Outcome A

abbrev pub Prog : Type 0 → Type 0 → Type 0
Prog W A = W → Outcome A × W

-- A `(T, error)` result.
pub data Result (A : Type 0) : Type 0 where
  ok : A → Result A
  err : Error → Result A

module _ {W A : Type 0} where
  abbrev pub pure : A → Prog W A
  pure a w = (ret a, w)

  abbrev pub raise : String → Prog W A
  raise p w = (panic p, w)

  abbrev pub exit_process : Prog W A
  exit_process w = (exit, w)

  abbrev pub gets : (W → A) → Prog W A
  gets f w = (ret (f w), w)

  -- A call of outside code that does not panic.
  abbrev pub lift : (W → A × W) → Prog W A
  lift f w = (ret (f w).0, (f w).1)

  -- `defer func() { if p := recover(); p != nil { … } }()` around a body: the handler's value is the
  -- named result.
  abbrev pub recover_with : Prog W A → (String → Prog W A) → Prog W A
  recover_with m handler w = elim (m w).0 [
    | ret a ↦ (ret a, (m w).1)
    | panic p ↦ handler p (m w).1
    | exit ↦ (exit, (m w).1)
  ]

abbrev pub modify : {W : Type 0} → (W → W) → Prog W (Unit {0})
modify f w = (ret tt, f w)

infixl 5 ◌>>=◌ ◌>>◌
abbrev pub ◌>>=◌ : {W A B : Type 0} → Prog W A → (A → Prog W B) → Prog W B
◌>>=◌ m f w = elim (m w).0 [
  | ret a ↦ f a (m w).1
  | panic p ↦ (panic p, (m w).1)
  | exit ↦ (exit, (m w).1)
]

abbrev pub ◌>>◌ : {W B : Type 0} → Prog W (Unit {0}) → Prog W B → Prog W B
m >> k = m >>= λ _. k

-- To split on a result and keep the equation.
pub Result-cases :
    {A : Type 0} (r : Result A) → ((a : A) × (r ≡ ok a)) ⊎ ((e : Error) × (r ≡ err e))
Result-cases (ok a) = inl (a, refl)
Result-cases (err e) = inr (e, refl)
