-- ===== src/Returns.antt =====
-- Lemmas on Go's calls in sequence.
use boilerplate_go_be.Base.{arith, refl, ◌∙◌, ap, ◌≡◌, Bool, true, false, if◌then◌else◌}
use boilerplate_go_be.Runtime.{
  lift, Error, Result, ok, err, Outcome, ret, panic, exit, Prog, pure, ◌>>=◌,
}

pub bind-at :
    {A B W : Type 0} (p q : Prog W A) (k : A → Prog W B) (s s1 : W)
    → p s ≡ q s1
    → (p >>= k) s ≡ (q >>= k) s1
bind-at p q k s s1 h = ap (λ r. ((λ _. r) >>= k) s) h

pub bind_assoc :
    {A B C W : Type 0} (m : Prog W A) (f : A → Prog W B) (g : B → Prog W C) (s : W)
    → ((m >>= f) >>= g) s ≡ (m >>= λ a. f a >>= g) s
bind_assoc {A = A} {C = C} {W = W} m f g s = by_result (m s)
  where
    by_result : (r : Outcome A × W) → (((λ _. r) >>= f) >>= g) s ≡ ((λ _. r) >>= λ a. f a >>= g) s
    by_result (ret a, w) = refl
    by_result (panic p, w) = refl
    by_result (exit, w) = refl

pub bind_cong :
    {A B W : Type 0} (m n : Prog W A) (f g : A → Prog W B) (s s' : W)
    → m s ≡ n s'
    → ((a : A) (w : W) → f a w ≡ g a w)
    → (m >>= f) s ≡ (n >>= g) s'
bind_cong {A = A} {W = W} m n f g s s' same each = bind-at m n f s s' same ∙ by_result (n s')
  where
    by_result : (r : Outcome A × W) → ((λ _. r) >>= f) s' ≡ ((λ _. r) >>= g) s'
    by_result (ret a, w) = each a w
    by_result (panic p, w) = refl
    by_result (exit, w) = refl

-- A sequence that returns has a first call that returned.
pub bind-ret :
    {W A B : Type 0} (m : Prog W A) (k : A → Prog W B) (w : W) (b : B)
    → ((m >>= k) w).0 ≡ ret b
    → (a : A) × ((m w).0 ≡ ret a) × ((m >>= k) w ≡ k a (m w).1)
bind-ret {A = A} {B = B} m k w b h = go (m w).0 refl
  where
    go : (o : Outcome A) → (m w).0 ≡ o → (a : A) × ((m w).0 ≡ ret a) × ((m >>= k) w ≡ k a (m w).1)
    go (ret a) e = (a, e, ground (arith, e))
    go (panic p) e = absurd (ground arith)
    go exit e = absurd (ground arith)

abbrev pub OnReturn : {A : Type 0} → (A → Type 0) → Outcome A → Type 0
OnReturn Q (ret a) = Q a
OnReturn Q (panic p) = ⊥
OnReturn Q exit = ⊥

-- The call returns from any world, and what it returns has a property.
pub record Returns {W A : Type 0} (Q : A → Type 0) (m : Prog W A) : Type 0 where
  pub run : (w : W) → OnReturn Q (m w).0

module _ {W A : Type 0} {Q : A → Type 0} where
  pub Returns-pure : {a : A} → Q a → Returns {W = W} Q (pure a)
  Returns-pure h = record { run = λ w. h }

  pub Returns-if :
      (b : Bool) {m k : Prog W A} → Returns Q m → Returns Q k → Returns Q (if b then m else k)
  Returns-if true hm hk = hm
  Returns-if false hm hk = hk

abbrev pub go_on : {W A B : Type 0} → Outcome A × W → (A → Prog W B) → Outcome B × W
go_on r k = elim r.0 [ ret a ↦ k a r.1 | panic p ↦ (panic p, r.1) | exit ↦ (exit, r.1) ]

-- The call returns from any world.
abbrev pub Ends : {W A : Type 0} → Prog W A → Type 0
Ends m = Returns (λ _. Unit {0}) m

pub Ends-lift : {W A : Type 0} (f : W → A × W) → Ends (lift f)
Ends-lift f = record { run = λ w. tt }

module _ {W A B : Type 0} {Q : B → Type 0} where
  OnReturn-go_on :
      (R : A → Type 0) (r : Outcome A × W) (k : A → Prog W B)
      → OnReturn R r.0
      → ((a : A) → R a → Returns Q (k a))
      → OnReturn Q (go_on r k).0
  OnReturn-go_on R (ret a, w) k hm hk = (hk a hm).run w
  OnReturn-go_on R (panic p, w) k hm hk = elim hm [ ]
  OnReturn-go_on R (exit, w) k hm hk = elim hm [ ]

  pub Returns-then :
      (R : A → Type 0) (m : Prog W A) (k : A → Prog W B)
      → Returns R m
      → ((a : A) → R a → Returns Q (k a))
      → Returns Q (m >>= k)
  Returns-then R m k hm hk = record { run = λ w. OnReturn-go_on R (m w) k (hm.run w) hk }

  pub Returns-bind :
      (m : Prog W A) (k : A → Prog W B) → Ends m → ((a : A) → Returns Q (k a)) → Returns Q (m >>= k)
  Returns-bind m k hm hk = Returns-then (λ _. Unit {0}) m k hm (λ a _. hk a)

  pub Returns-result :
      (r : Result A) (m : A → Prog W B) (k : Error → Prog W B)
      → ((a : A) → Returns Q (m a))
      → ((e : Error) → Returns Q (k e))
      → Returns Q (elim r [ ok a ↦ m a | err e ↦ k e ])
  Returns-result (ok a) m k hm hk = hm a
  Returns-result (err e) m k hm hk = hk e
