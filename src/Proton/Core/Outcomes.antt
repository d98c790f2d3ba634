-- ===== src/Proton/Core/Outcomes.antt =====
-- What holds after an action: one condition for its value, one for its error. A rule for each of
-- the core's steps takes a `do` block apart.
use aerogram.Prelude.{
  ℕ, ◌≡◌, refl, Option, none, some, ◌++◌, arith, Text, codes, Result, ok, err, ok_or, map_err,
}
use mathlib.Core.Path.{subst}
use aerogram.Proton.Core.{Action, ◌>>=◌}
use aerogram.Proton.Core.{ProtonApi}
use aerogram.Proton.Core.{ProtonCore}
use aerogram.Proton.Core.{api, call, instant, lift, pure_call, user_ctx}
use aerogram.Proton.Core.{CoreState}
use aerogram.Proton.Core.{pure}

module _ {S A : Type 0} where
  abbrev pub Outcome : (A → S → Type 0) → (Text → S → Type 0) → Result Text A × S → Type 0
  Outcome Q E (ok a, s) = Q a s
  Outcome Q E (err e, s) = E e s

  pub Outcome-lift :
      (Q : A → S → Type 0) (E : Text → S → Type 0) (r : Result Text A) (s : S)
      → ((a : A) → r ≡ ok a → Q a s)
      → ((e : Text) → r ≡ err e → E e s)
      → Outcome Q E (r, s)
  Outcome-lift Q E (ok a) s q e = q a refl
  Outcome-lift Q E (err x) s q e = e x refl

module _ {S A B : Type 0} (Q : B → S → Type 0) (E : Text → S → Type 0) (f : A → Action S B) where
  abbrev then_run : Result Text A × S → Result Text B × S
  then_run (ok a, s) = f a s
  then_run (err e, s) = (err e, s)

  Outcome-then_run :
      (out : Result Text A × S)
      → Outcome (λ a s. Outcome Q E (f a s)) E out
      → Outcome Q E (then_run out)
  Outcome-then_run (ok a, s) h = h
  Outcome-then_run (err e, s) h = h

  then_run_lem : (m : Action S A) (s : S) → then_run (m s) ≡ (m >>= f) s
  unfolding ◌>>=◌
  then_run_lem m s = ground arith

  -- A bind: what the first action ends in is where the second begins.
  pub Outcome->>= :
      (m : Action S A) (s : S)
      → Outcome (λ a s'. Outcome Q E (f a s')) E (m s)
      → Outcome Q E ((m >>= f) s)
  Outcome->>= m s h = subst (Outcome Q E) (then_run_lem m s) (Outcome-then_run (m s) h)

-- The core's steps. Each rule is for the step and what follows it.
module _ {px : ProtonApi} {B : Type 0} (Q : B → ProtonCore px → Type 0)
    (E : Text → ProtonCore px → Type 0) where
  pub Outcome-lift_step :
      {A : Type 0} (f : A → Action (ProtonCore px) B) (r : Result Text A) (c : ProtonCore px)
      → ((a : A) → r ≡ ok a → Outcome Q E (f a c))
      → ((e : Text) → r ≡ err e → E e c)
      → Outcome Q E ((lift r >>= f) c)
  unfolding ◌>>=◌
  Outcome-lift_step f (ok a) c q e = q a refl
  Outcome-lift_step f (err x) c q e = e x refl

  -- What `call` makes of the answer.
  called :
      {A : Type 0} (f : A → Action (ProtonCore px) B) (what : Text) (c : ProtonCore px)
      (out : Result Text A × px.World)
      → ((a : A) (w : px.World) → out ≡ (ok a, w) → Outcome Q E (f a (record c { world = w })))
      → ((e : Text) (w : px.World)
          → out ≡ (err e, w)
          → E (what ++ codes ": " ++ e) (record c { world = w }))
      → Outcome
          (λ a s. Outcome Q E (f a s))
          E
          (map_err (λ e. what ++ codes ": " ++ e) out.0, record c { world = out.1 })
  called f what c (ok a, w) q e = q a w refl
  called f what c (err x, w) q e = e x w refl

  -- A call into the world: it may fail, and the state stays either way.
  pub Outcome-call_step :
      {A : Type 0} (f : A → Action (ProtonCore px) B) (what : Text) (m : Action (px.World) A)
      (c : ProtonCore px)
      → ((a : A) (w : px.World)
          → m c.world ≡ (ok a, w)
          → Outcome Q E (f a (record c { world = w })))
      → ((e : Text) (w : px.World)
          → m c.world ≡ (err e, w)
          → E (what ++ codes ": " ++ e) (record c { world = w }))
      → Outcome Q E ((call what m >>= f) c)
  unfolding call
  Outcome-call_step f what m c q e =
      Outcome->>= Q E f (call what m) c (called f what c (m c.world) q e)

  pub Outcome-pure_call_step :
      {A : Type 0} (f : A → Action (ProtonCore px) B) (what : Text) (r : Result Text A)
      (c : ProtonCore px)
      → ((a : A) → r ≡ ok a → Outcome Q E (f a c))
      → ((e : Text) → r ≡ err e → E (what ++ codes ": " ++ e) c)
      → Outcome Q E ((pure_call what r >>= f) c)
  unfolding ◌>>=◌ pure_call
  Outcome-pure_call_step f what (ok a) c q e = q a refl
  Outcome-pure_call_step f what (err x) c q e = e x refl

  pub Outcome-ok_or_step :
      {A : Type 0} (f : A → Action (ProtonCore px) B) (o : Option A) (missing : Text)
      (c : ProtonCore px)
      → ((a : A) → o ≡ some a → Outcome Q E (f a c))
      → (o ≡ none → E missing c)
      → Outcome Q E ((lift (ok_or o missing) >>= f) c)
  unfolding ◌>>=◌
  Outcome-ok_or_step f (some a) missing c q e = q a refl
  Outcome-ok_or_step f none missing c q e = e refl

  pub Outcome-api_step :
      (f : px.ApiSession → Action (ProtonCore px) B) (c : ProtonCore px)
      → ((session : px.ApiSession) → c.state.api ≡ some session → Outcome Q E (f session c))
      → (c.state.api ≡ none → E (codes "not logged in") c)
      → Outcome Q E ((api >>= f) c)
  unfolding ◌>>=◌ api
  Outcome-api_step f c q e = Outcome-ok_or_step f c.state.api _ c q e

  pub Outcome-user_ctx_step :
      (f : px.UserCtx → Action (ProtonCore px) B) (c : ProtonCore px)
      → ((user : px.UserCtx) → c.state.user_ctx ≡ some user → Outcome Q E (f user c))
      → (c.state.user_ctx ≡ none → E (codes "not logged in") c)
      → Outcome Q E ((user_ctx >>= f) c)
  unfolding ◌>>=◌ user_ctx
  Outcome-user_ctx_step f c q e = Outcome-ok_or_step f c.state.user_ctx _ c q e

  pub Outcome-instant_step :
      (f : ℕ → Action (ProtonCore px) B) (c : ProtonCore px)
      → Outcome Q E (f (px.instant c.world).0 (record c { world = (px.instant c.world).1 }))
      → Outcome Q E ((instant >>= f) c)
  unfolding ◌>>=◌ instant
  Outcome-instant_step f c q = q

-- The same for calls that only read the state `s`: every error keeps it, so that the rules ask for
-- the way on alone. The state that a step starts in is `s` with a world.
module _ {px : ProtonApi} {B : Type 0} (s : CoreState px) (Q : B → px.World → Type 0) where
  abbrev pub at_world : px.World → ProtonCore px
  at_world w = record { state = s; world = w }

  abbrev pub Kept : Result Text B × ProtonCore px → Type 0
  Kept = Outcome (λ b c. (c.state ≡ s) × Q b c.world) (λ e c. c.state ≡ s)

  -- Either way the state is kept.
  pub Kept-state : (out : Result Text B × ProtonCore px) → Kept out → out.1.state ≡ s
  Kept-state (ok b, c) k = k.0
  Kept-state (err e, c) k = k

  -- Shut, so that a rule finds its step in the action.
  pub record Keeps (m : Action (ProtonCore px) B) (w : px.World) : Type 0 where
    pub kept : Kept (m (at_world w))

module _ {px : ProtonApi} {B : Type 0} {s : CoreState px} {Q : B → px.World → Type 0} where
  pub Keeps-pure : {b : B} {w : px.World} → Q b w → Keeps s Q (pure b) w
  Keeps-pure q = record { kept = (refl, q) }

  module _ {A : Type 0} {f : A → Action (ProtonCore px) B} {w : px.World} where
    pub Keeps-lift :
        {r : Result Text A} → ((a : A) → r ≡ ok a → Keeps s Q (f a) w) → Keeps s Q (lift r >>= f) w
    Keeps-lift {r} q = record {
      kept = Outcome-lift_step _ _ f r (at_world s Q w) (λ a e. (q a e).kept) (λ e failed. refl);
    }

    pub Keeps-ok_or :
        {o : Option A} (missing : Text)
        → ((a : A) → o ≡ some a → Keeps s Q (f a) w)
        → Keeps s Q (lift (ok_or o missing) >>= f) w
    Keeps-ok_or {o} missing q = record {
      kept =
          Outcome-ok_or_step _ _ f o missing (at_world s Q w) (λ a e. (q a e).kept) (λ gone. refl);
    }

    pub Keeps-call :
        (what : Text) (m : Action (px.World) A)
        → ((a : A) (w' : px.World) → m w ≡ (ok a, w') → Keeps s Q (f a) w')
        → Keeps s Q (call what m >>= f) w
    Keeps-call what m q = record {
      kept =
          Outcome-call_step _ _ f what m (at_world s Q w) (λ a w' e. (q a w' e).kept)
            (λ e w' failed. refl);
    }

    pub Keeps-pure_call :
        (what : Text) {r : Result Text A}
        → ((a : A) → r ≡ ok a → Keeps s Q (f a) w)
        → Keeps s Q (pure_call what r >>= f) w
    Keeps-pure_call what {r} q = record {
      kept =
          Outcome-pure_call_step _ _ f what r (at_world s Q w) (λ a e. (q a e).kept)
            (λ e failed. refl);
    }

  module _ {w : px.World} where
    pub Keeps-api :
        {f : px.ApiSession → Action (ProtonCore px) B}
        → ((session : px.ApiSession) → s.api ≡ some session → Keeps s Q (f session) w)
        → Keeps s Q (api >>= f) w
    Keeps-api {f} q = record {
      kept = Outcome-api_step _ _ f (at_world s Q w) (λ a e. (q a e).kept) (λ out. refl);
    }

    pub Keeps-user_ctx :
        {f : px.UserCtx → Action (ProtonCore px) B}
        → ((user : px.UserCtx) → s.user_ctx ≡ some user → Keeps s Q (f user) w)
        → Keeps s Q (user_ctx >>= f) w
    Keeps-user_ctx {f} q = record {
      kept = Outcome-user_ctx_step _ _ f (at_world s Q w) (λ a e. (q a e).kept) (λ out. refl);
    }

    pub Keeps-instant :
        (f : ℕ → Action (ProtonCore px) B)
        → Keeps s Q (f (px.instant w).0) (px.instant w).1
        → Keeps s Q (instant >>= f) w
    Keeps-instant f q = record { kept = Outcome-instant_step _ _ f (at_world s Q w) q.kept }
