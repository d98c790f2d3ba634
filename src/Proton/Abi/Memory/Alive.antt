-- ===== src/Proton/Abi/Memory/Alive.antt =====
-- A call leaves the same cores alive.
use aerogram.Prelude.{ℕ, ◌≡◌, refl, inl, inr, Option-cases, Result-cases, Text, codes}
use aerogram.Prelude.CStrings.{CStr}
use aerogram.Prelude.Heap.{Ref, null, dangling, live, as_mut}
use aerogram.Json.{Value}
use aerogram.Proton.Core.{ProtonApi, CoreState}
use aerogram.Proton.Dispatch.{dispatch}
use aerogram.Proton.Abi.{
  Texts, Outside, Sys, Ended, replied, undefined, runs_on, cstr_arg, read_params, dispatched,
  proton_call,
}
use aerogram.Proton.Abi.Calls.{
  dispatched_lem, asked, Refused, no_core, no_method, no_params, proton_call-Refused,
}
use aerogram.Proton.Abi.Memory.Books.{SameAlive, SameAlive-refl, SameAlive-put}

module _ (texts : Texts) (out : Outside) (px : ProtonApi) where
  abbrev pub IfReplied : (Sys texts out px → Type 0) → Ended texts out px → Type 0
  IfReplied P (replied bytes sys) = P sys
  IfReplied P undefined = Unit
  IfReplied P runs_on = Unit

  dispatched_alive :
      (n core : ℕ) (st : CoreState px) (m : Text) (v : Value) (sys : Sys texts out px)
      → as_mut core sys.cores ≡ live st
      → IfReplied
          (λ sys'. SameAlive sys.cores sys'.cores)
          (dispatched texts out px n core st m v sys)
  unfolding dispatched
  dispatched_alive n core st m v sys there =
      elim (Option-cases (
        dispatch out.rewriter out.html2text out.login_params px n m v
          (record { state = st; world = sys.world }))) [
            | inl dry ↦ rw (dispatched, dry) tt
            | inr ((r, c), back) ↦
                rw (dispatched_lem texts out px n core st m v sys r c back)
                  (SameAlive-put core st c.state sys.cores there)
          ]

  pub call_alive :
      (n core : ℕ) (method params : CStr) (sys : Sys texts out px)
      → IfReplied
          (λ sys'. SameAlive sys.cores sys'.cores)
          (proton_call texts out px n core method params sys)
  unfolding proton_call
  call_alive n core method params sys = by_core (as_mut core sys.cores) refl
    where
      refused :
          (e : Text)
          → Refused texts out px core method params sys e
          → IfReplied
              (λ sys'. SameAlive sys.cores sys'.cores)
              (proton_call texts out px n core method params sys)
      refused e why =
          rw (proton_call-Refused texts out px n core method params sys e why)
            (SameAlive-refl sys.cores)

      by_core :
          (ref : Ref (CoreState px))
          → as_mut core sys.cores ≡ ref
          → IfReplied
              (λ sys'. SameAlive sys.cores sys'.cores)
              (proton_call texts out px n core method params sys)
      by_core null there = refused _ (no_core there refl)
      by_core dangling there = rw (proton_call, there) tt
      by_core (live st) there = elim (Result-cases (cstr_arg texts method (codes "method"))) [
        | inl (e, bad) ↦ refused e (no_method st there bad)
        | inr (m, named) ↦ elim (Result-cases (read_params texts params)) [
          | inl (e, bad) ↦ refused e (no_params st m there named bad)
          | inr (v, given) ↦
              rw (asked texts out px n core st method params m v sys there named given)
                (dispatched_alive n core st m v sys there)
        ]
      ]
