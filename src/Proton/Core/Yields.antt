-- ===== src/Proton/Core/Yields.antt =====
-- What holds of an action's value, whatever its state: an error asks for nothing.
use aerogram.Prelude.{◌≡◌, refl, sym, Option, none, some, Result, ok, err, ok_or, Text, arith}
use mathlib.Core.Path.{subst}
use aerogram.Proton.Core.{Action, ◌>>=◌, ◌>>◌, pure}

abbrev pub IfOk : {B : Type 0} → (B → Type 0) → Result Text B → Type 0
IfOk Q (ok b) = Q b
IfOk Q (err e) = Unit

-- Shut, so that a rule finds its step in the action.
pub record Yields {S B : Type 0} (Q : B → Type 0) (m : Action S B) (s : S) : Type 0 where
  pub yielded : IfOk Q (m s).0

module _ {S A B : Type 0} (f : A → Action S B) where
  abbrev then_run : Result Text A × S → Result Text B
  then_run (ok a, s) = (f a s).0
  then_run (err e, s) = err e

  then_run_lem : (m : Action S A) (s : S) → then_run (m s) ≡ ((m >>= f) s).0
  unfolding ◌>>=◌
  then_run_lem m s = ground arith

module _ {S B : Type 0} {Q : B → Type 0} where
  pub Yields-pure : {b : B} {s : S} → Q b → Yields Q (pure b) s
  Yields-pure q = record { yielded = q }

  -- An action that is followed to its end.
  pub Yields-run :
      (m : Action S B) (s : S) {r : Result Text B} → (m s).0 ≡ r → IfOk Q r → Yields Q m s
  Yields-run m s e q = record { yielded = subst (IfOk Q) (sym e) q }

  module _ {A : Type 0} {f : A → Action S B} where
    after_each :
        (out : Result Text A × S)
        → ((a : A) (s' : S) → out.0 ≡ ok a → Yields Q (f a) s')
        → IfOk Q (then_run f out)
    after_each (ok a, s') next = (next a s' refl).yielded
    after_each (err e, s') next = tt

    pub Yields-step :
        (m : Action S A) (s : S)
        → ((a : A) (s' : S) → (m s).0 ≡ ok a → Yields Q (f a) s')
        → Yields Q (m >>= f) s
    Yields-step m s next = record {
      yielded = subst (IfOk Q) (then_run_lem f m s) (after_each (m s) next);
    }

-- Two runs with one outcome.
pub Yields-same :
    {S B : Type 0} {Q : B → Type 0} (m m' : Action S B) (s s' : S)
    → (m s).0 ≡ (m' s').0
    → Yields Q m' s'
    → Yields Q m s
Yields-same {Q = Q} m m' s s' e y = record { yielded = subst (IfOk Q) (sym e) y.yielded }

-- The same for a step without a value.
pub Yields-then :
    {S B : Type 0} {Q : B → Type 0} {k : Action S B} (m : Action S (Unit {0})) (s : S)
    → ((s' : S) → Yields Q k s')
    → Yields Q (m >> k) s
unfolding ◌>>◌ ◌>>=◌
Yields-then {k = k} m s next = record {
  yielded = (Yields-step {f = λ _. k} m s (λ _ s' _. next s')).yielded;
}

pub some_of_ok : {A : Type 0} (o : Option A) (e : Text) (a : A) → ok_or o e ≡ ok a → o ≡ some a
some_of_ok none e a h = cc
some_of_ok (some b) e a h = cc
