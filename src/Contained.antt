-- ===== src/Contained.antt =====
-- How far a call on a request's way can reach: over an open handle it never ends the process, and it leaves
-- the database handle and the JWT service of the process as they are. One rule for each construct.
use boilerplate_go_be.Base.{
  ◌≡◌, ◌⊎◌, inl, inr, refl, ◌∙◌, ap, String, Bool, true, false, Option, none, some, if◌then◌else◌,
}
use boilerplate_go_be.Runtime.{
  Error, Result, ok, err, Outcome, ret, panic, exit, Prog, pure, raise, modify, recover_with, ◌>>=◌,
}
use boilerplate_go_be.Logger.{Log, Level}
use boilerplate_go_be.Returns.{go_on}
use boilerplate_go_be.Platform.{Platform}
use boilerplate_go_be.World.{World, call, log_f, the_cfg, unique_id_by_time}

abbrev pub Alive : {A : Type 0} → Outcome A → Type 0
Alive (ret _) = Unit {0}
Alive (panic _) = Unit {0}
Alive exit = ⊥

module _ {P : Platform} where
  abbrev pub Same : World P → World P → Type 0
  Same w w' = (w'.db ≡ w.db) × (w'.jwt ≡ w.jwt)

  Same-trans : (u v w : World P) → Same u v → Same v w → Same u w
  Same-trans u v w (d, j) (d', j') = (d' ∙ d, j' ∙ j)

  -- Over a state that has the process for a part.
  module _ {W : Type 0} (of : W → World P) where
    abbrev pub Holds : {A : Type 0} → World P → Outcome A × W → Type 0
    Holds w r = Alive r.0 × Same w (of r.1)

    pub record Contained {A : Type 0} (m : Prog W A) : Type 0 where
      pub run : (x : W) → (of x).db.connected ≡ true → Holds (of x) (m x)

    pub Contained-pure : {A : Type 0} (a : A) → Contained (pure a)
    Contained-pure a = record { run = λ x h. (tt, (refl, refl)) }

    pub Contained-raise : {A : Type 0} (p : String) → Contained {A = A} (raise p)
    Contained-raise p = record { run = λ x h. (tt, (refl, refl)) }

    pub Contained-if :
        {A : Type 0} (b : Bool) {m k : Prog W A}
        → Contained m
        → Contained k
        → Contained (if b then m else k)
    Contained-if true hm hk = hm
    Contained-if false hm hk = hk

    pub Contained-option :
        {A B : Type 0} (o : Option A) (m : Prog W B) (k : A → Prog W B)
        → Contained m
        → ((a : A) → Contained (k a))
        → Contained (elim o [ none ↦ m | some a ↦ k a ])
    Contained-option none m k hm hk = hm
    Contained-option (some a) m k hm hk = hk a

    pub Contained-result :
        {A B : Type 0} (r : Result A) (m : A → Prog W B) (k : Error → Prog W B)
        → ((a : A) → Contained (m a))
        → ((e : Error) → Contained (k e))
        → Contained (elim r [ ok a ↦ m a | err e ↦ k e ])
    Contained-result (ok a) m k hm hk = hm a
    Contained-result (err e) m k hm hk = hk e

    pub Contained-either :
        {A B C : Type 0} (r : A ⊎ B) (m : A → Prog W C) (k : B → Prog W C)
        → ((a : A) → Contained (m a))
        → ((b : B) → Contained (k b))
        → Contained (elim r [ inl a ↦ m a | inr b ↦ k b ])
    Contained-either (inl a) m k hm hk = hm a
    Contained-either (inr b) m k hm hk = hk b

    -- A call that is made of the whole state.
    pub Contained-at :
        {A : Type 0} (m : W → Prog W A)
        → ((x : W) → Contained (m x))
        → Contained {A = A} (λ x. m x x)
    Contained-at m h = record { run = λ x opened. (h x).run x opened }

    Holds-option :
        {A B : Type 0} (w : World P) (x : W) (o : Option A) (m : Prog W B) (k : A → Prog W B)
        → Holds w (m x)
        → ((a : A) → Holds w (k a x))
        → Holds {A = B} w (elim o [ none ↦ m x | some a ↦ k a x ])
    Holds-option w x none m k hm hk = hm
    Holds-option w x (some a) m k hm hk = hk a

    -- A call that first looks at a part of the state.
    pub Contained-reads :
        {A B : Type 0} (f : W → Option A) (m : Prog W B) (k : A → Prog W B)
        → Contained m
        → ((a : A) → Contained (k a))
        → Contained {A = B} (λ x. elim (f x) [ none ↦ m x | some a ↦ k a x ])
    Contained-reads f m k hm hk = record {
      run = λ x h. Holds-option (of x) x (f x) m k (hm.run x h) (λ a. (hk a).run x h);
    }

    pub Contained-modify : (f : W → W) → ((x : W) → Same (of x) (of (f x))) → Contained (modify f)
    Contained-modify f same = record { run = λ x h. (tt, same x) }

    Holds-go_on :
        {A B : Type 0} (w : World P) (r : Outcome A × W) (k : A → Prog W B)
        → w.db.connected ≡ true
        → Holds w r
        → ((a : A) → Contained (k a))
        → Holds w (go_on r k)
    Holds-go_on w (ret a, x) k h (alive, same) hk =
        let (alive', same') = (hk a).run x (ap (λ d. d.connected) same.0 ∙ h) in
        (alive', Same-trans w (of x) (of (k a x).1) same same')
    Holds-go_on w (panic p, x) k h held hk = held
    Holds-go_on w (exit, x) k h held hk = held

    pub Contained-bind :
        {A B : Type 0} (m : Prog W A) (k : A → Prog W B)
        → Contained m
        → ((a : A) → Contained (k a))
        → Contained (m >>= k)
    Contained-bind m k hm hk = record { run = λ x h. Holds-go_on (of x) (m x) k h (hm.run x h) hk }

    Holds-recover :
        {A : Type 0} (w : World P) (r : Outcome A × W) (k : String → Prog W A)
        → w.db.connected ≡ true
        → Holds w r
        → ((p : String) → Contained (k p))
        → Holds w (recover_with (λ _. r) k r.1)
    Holds-recover w (ret a, x) k h held hk = held
    Holds-recover w (panic p, x) k h (alive, same) hk =
        let (alive', same') = (hk p).run x (ap (λ d. d.connected) same.0 ∙ h) in
        (alive', Same-trans w (of x) (of (k p x).1) same same')
    Holds-recover w (exit, x) k h held hk = held

    pub Contained-recover :
        {A : Type 0} (m : Prog W A) (k : String → Prog W A)
        → Contained m
        → ((p : String) → Contained (k p))
        → Contained (recover_with m k)
    Contained-recover m k hm hk = record {
      run = λ x h. Holds-recover (of x) (m x) k h (hm.run x h) hk;
    }

  -- On the process itself.
  abbrev pub InWorld : {A : Type 0} → Prog (World P) A → Type 0
  InWorld = Contained (λ w. w)

  pub Contained-call : {A : Type 0} (f : P.State → A × P.State) → InWorld (call P f)
  Contained-call f = record { run = λ w h. (tt, (refl, refl)) }

  pub Contained-log_f : (l : Log) (lvl : Level) (msg : String) → InWorld (log_f l lvl msg)
  unfolding log_f
  Contained-log_f l lvl msg = record { run = λ w h. (tt, (refl, refl)) }

  pub Contained-the_cfg : InWorld the_cfg
  unfolding the_cfg
  Contained-the_cfg =
      Contained-reads (λ w. w) (λ w. w.cfg) (raise "nil pointer dereference") (λ c. pure c)
        (Contained-raise (λ w. w) "nil pointer dereference") (λ c. Contained-pure (λ w. w) c)

  pub Contained-unique_id_by_time : InWorld unique_id_by_time
  unfolding unique_id_by_time
  Contained-unique_id_by_time = Contained-call P.rand_hex
