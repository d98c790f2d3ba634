-- ===== src/Probes/Shell/Chained.antt =====
-- A program over JSON values, step by step, and its calls over texts.
use aerogram.Prelude.{
  ℕ, zero, suc, ◌≡◌, refl, sym, ◌∙◌, some, inl, inr, All, arith, Option-cases, List, [], ◌∷◌, map,
  Text, codes, Result, ok,
}
use mathlib.Core.Path.{subst}
use aerogram.Json.{Value, object, end}
use aerogram.Proton.Core.{ProtonApi, ProtonCore}
use aerogram.Proton.Abi.{Texts, Outside, ContextApi, envelope}
use aerogram.Proton.Abi.Calls.{IsReadable}
use aerogram.Probes.Checks.{Run, no_outcome, aborts, ends, ◌>>=◌, ask}
use aerogram.Probes.{call}
use aerogram.Probes.Watches.{timeout_params, waits}
use aerogram.Probes.Shell.{Talk, says, says_each}
use aerogram.Probes.Shell.Strings.{IsArgument}
use aerogram.Probes.Shell.Goes.{Goes, asks, run_call}

-- A chain that ends has ended at each step.
pub record Ended {C A B : Type 0} (m : C → Run C A) (f : A → C → Run C B) (c : C) (b : B) (e : C)
    : Type 0 where
  pub value : A
  pub between : C
  pub first : m c ≡ ends value between
  pub then : f value between ≡ ends b e

abbrev onward : {C A B : Type 0} → (A → C → Run C B) → Run C A → Run C B
onward f no_outcome = no_outcome
onward f aborts = aborts
onward f (ends a d) = f a d

onward_lem :
    {C A B : Type 0} (m : C → Run C A) (f : A → C → Run C B) (c : C) → (m >>= f) c ≡ onward f (m c)
unfolding ◌>>=◌
onward_lem m f c = ground arith

pub bind_ends :
    {C A B : Type 0} (m : C → Run C A) (f : A → C → Run C B) (c : C) (b : B) (e : C)
    → (m >>= f) c ≡ ends b e
    → Ended m f c b e
bind_ends {C} {A} {B} m f c b e h = by_run (m c) refl (sym (onward_lem m f c) ∙ h)
  where
    by_run : (r : Run C A) → m c ≡ r → onward f r ≡ ends b e → Ended m f c b e
    by_run no_outcome first h = cc
    by_run aborts first h = cc
    by_run (ends a d) first h = record { value = a; between = d; first = first; then = h }

module _ {C A : Type 0} where
  pub pure_ends : (a b : A) (c d : C) → ◌≡◌ {A = Run C A} (ends a c) (ends b d) → (a ≡ b) × (c ≡ d)
  pure_ends a b c d h = (cc, cc)

-- What the programs ask with, as serde reads it.
pub record ReadsParams (texts : Texts) : Type 0 where
  pub empty : texts.from_str (codes "{}") ≡ ok (object end)
  pub long : texts.from_str (codes "{\"timeout_ms\": 15000}") ≡ ok (timeout_params 15_000)
  pub short : texts.from_str (codes "{\"timeout_ms\": 2000}") ≡ ok (timeout_params 2000)

module _ (texts : Texts) (out : Outside) (px : ProtonApi) (cx : ContextApi texts out px)
    (fuel : ℕ) where
  abbrev pub asked : Text → Value → ProtonCore px → Run (ProtonCore px) Value
  asked = ask texts out.rewriter out.html2text out.login_params px fuel

  ask_ends :
      (method : Text) (v : Value) (c : ProtonCore px) (u : Value) (d : ProtonCore px)
      → asked method v c ≡ ends u d
      → (r : Result Text Value) × (u ≡ envelope texts r)
        × (run_call texts out px cx fuel method v c ≡ some (r, d))
  unfolding ask call
  ask_ends method v c u d h = elim (Option-cases (run_call texts out px cx fuel method v c)) [
    | inl dry ↦ cc
    | inr ((r, d'), back) ↦ (r, ground arith, ground arith)
  ]

  -- A call of a program over JSON values is one over texts.
  pub asked-Goes :
      {A : Type 0} (method params : Text) (v : Value) (next : Text → Talk A) (c d e : ProtonCore px)
      (u : Value) (a : A)
      → IsArgument method
      → IsArgument params
      → texts.from_str params ≡ ok v
      → asked method v c ≡ ends u d
      → IsReadable texts u
      → Goes texts out px cx fuel (next (texts.to_string u)) d a e
      → Goes texts out px cx fuel (says method params next) c a e
  asked-Goes method params v next c d e u a named given json h readable rest =
      let (r, same, back) = ask_ends method v c u d h in
      asks method params next c d e r a
        (record {
          value = v;
          named = named;
          given = given;
          json = json;
          back = back;
          readable = subst (IsReadable texts) same readable;
        })
        (subst (λ x. Goes texts out px cx fuel (next (texts.to_string x)) d a e) same rest)

  abbrev pub printed : List Value → List Text
  printed = map texts.to_string

  pub restore-IsArgument : IsArgument (codes "restore_session")
  restore-IsArgument = record { scalar = omega arith; no_nul = refl }

  pub empty-IsArgument : IsArgument (codes "{}")
  empty-IsArgument = record { scalar = omega arith; no_nul = refl }

  pub waits-Goes :
      {A : Type 0} (n ms : ℕ) (params : Text) (next : List Text → Talk A) (c d e : ProtonCore px)
      (outs : List Value) (a : A)
      → IsArgument params
      → texts.from_str params ≡ ok (timeout_params ms)
      → waits texts out.rewriter out.html2text out.login_params px fuel n ms c ≡ ends outs d
      → All (IsReadable texts) outs
      → Goes texts out px cx fuel (next (printed outs)) d a e
      → Goes texts out px cx fuel (says_each n (codes "wait_event") params next) c a e
  unfolding waits says_each
  waits-Goes zero ms params next c d e outs a given json h readable rest =
      let (same, here) = pure_ends [] outs c d h in
      subst (λ x. Goes texts out px cx fuel (next []) x a e) (sym here)
        (subst (λ x. Goes texts out px cx fuel (next (printed x)) d a e) (sym same) rest)
  waits-Goes (suc n) ms params next c d e outs a given json h readable rest =
      let one = bind_ends _ _ c outs d h in
      let more = bind_ends _ _ one.between outs d one.then in
      let (same, here) = pure_ends (one.value ∷ more.value) outs more.between d more.then in
      let (read, reads) = subst (All (IsReadable texts)) (sym same) readable in
      asked-Goes (codes "wait_event") params (timeout_params ms) _ c one.between e one.value a
        (record { scalar = omega arith; no_nul = refl }) given json one.first read
        (waits-Goes n ms params _ one.between more.between e more.value a given json more.first
          reads
          (subst (λ x. Goes texts out px cx fuel (next (printed (one.value ∷ more.value))) x a e)
            (sym here)
            (subst (λ x. Goes texts out px cx fuel (next (printed x)) d a e) (sym same) rest)))
