-- ===== src/Proton/Abi/Replies.antt =====
-- The shape of what a call over the C ABI replies.
use aerogram.Prelude.{
  ℕ, ◌≡◌, refl, inl, inr, Option, none, some, Option-cases, Result-cases, Text, Bytes, codes,
  Result, ok, err,
}
use mathlib.Core.Path.{subst}
use aerogram.Prelude.CStrings.{CStr}
use aerogram.Prelude.Heap.{null, dangling, live, as_mut, Ref}
use aerogram.Json.{Value}
use aerogram.Json.Shapes.{Shape, text, record_of, needs, no_more, either, fits}
use aerogram.Proton.Core.{ProtonApi, CoreState}
use aerogram.Proton.Dispatch.{Method, method_names, first_arm, dispatch}
use aerogram.Proton.Dispatch.Frame.{IfBack}
use aerogram.Proton.Dispatch.Answers.{Fits, answer_shape}
use aerogram.Proton.Dispatch.Answers.Typed.{NamedShape, dispatch_answers}
use aerogram.Proton.Abi.{
  Texts, Outside, cstr_arg, into_c, err_value, envelope, read_params, Sys, Ended, replied,
  undefined, runs_on, dispatched, proton_call,
}
use aerogram.Proton.Abi.Calls.{Refused, no_core, no_method, no_params, proton_call-Refused, asked}

abbrev pub failed_shape : Shape
failed_shape = record_of (needs (codes "err") text no_more)

-- A method's answer or an error; for an unknown name only an error.
abbrev pub method_shape : Option Method → Shape
method_shape none = failed_shape
method_shape (some m) =
    either (record_of (needs (codes "ok") (answer_shape m) no_more)) failed_shape

-- By the name, if there is one to be read.
abbrev pub reply_shape : Result Text Text → Shape
reply_shape (err e) = failed_shape
reply_shape (ok name) = method_shape (first_arm name method_names)

module _ (texts : Texts) where
  failed-Fits : (name : Result Text Text) (e : Text) → Fits (reply_shape name) (err_value texts e)
  unfolding fits
  failed-Fits (err x) e = refl
  failed-Fits (ok name) e = by_arm (first_arm name method_names)
    where
      by_arm : (arm : Option Method) → Fits (method_shape arm) (err_value texts e)
      by_arm none = unfold fits in refl
      by_arm (some m) = unfold fits in refl

  envelope-Fits :
      (arm : Option Method) (r : Result Text Value)
      → NamedShape arm r
      → Fits (method_shape arm) (envelope texts r)
  unfolding fits
  envelope-Fits none (ok v) h = absurd h
  envelope-Fits none (err e) h = refl
  envelope-Fits (some m) (ok v) h = rw h refl
  envelope-Fits (some m) (err e) h = refl

  module _ (out : Outside) (px : ProtonApi) where
    -- A reply is the text of a value in a shape.
    abbrev Replies : Shape → Ended texts out px → Type 0
    Replies s (replied bytes sys) = (v : Value) × (bytes ≡ into_c texts v) × Fits s v
    Replies s undefined = Unit
    Replies s runs_on = Unit

    dispatched-Replies :
        (n core : ℕ) (st : CoreState px) (m : Text) (v : Value) (sys : Sys texts out px)
        → Replies
            (method_shape (first_arm m method_names))
            (dispatched texts out px n core st m v sys)
    unfolding dispatched
    dispatched-Replies n core st m v sys =
        let run =
          dispatch out.rewriter out.html2text out.login_params px n m v
            (record { state = st; world = sys.world }) in
        let arm = first_arm m method_names in
        let shaped =
          dispatch_answers out.rewriter out.html2text out.login_params px n m v
            (record { state = st; world = sys.world }) in
        elim (Option-cases run) [
          | inl dry ↦ rw (dry, dispatched) tt
          | inr ((r, c), back) ↦
              rw (back, dispatched)
                (
                  envelope texts r,
                  refl,
                  envelope-Fits arm r (subst (IfBack (λ o. NamedShape arm o.0)) back shaped),
                )
        ]

    Refused-Replies :
        (n core : ℕ) (method params : CStr) (sys : Sys texts out px) (e : Text)
        → Refused texts out px core method params sys e
        → Replies
            (reply_shape (cstr_arg texts method (codes "method")))
            (proton_call texts out px n core method params sys)
    Refused-Replies n core method params sys e why =
        rw (proton_call-Refused texts out px n core method params sys e why)
          (err_value texts e, refl, failed-Fits (cstr_arg texts method (codes "method")) e)

    call-Replies :
        (n core : ℕ) (method params : CStr) (sys : Sys texts out px)
        → Replies
            (reply_shape (cstr_arg texts method (codes "method")))
            (proton_call texts out px n core method params sys)
    unfolding proton_call
    call-Replies n core method params sys = by_core (as_mut core sys.cores) refl
      where
        by_core :
            (ref : Ref (CoreState px))
            → as_mut core sys.cores ≡ ref
            → Replies
                (reply_shape (cstr_arg texts method (codes "method")))
                (proton_call texts out px n core method params sys)
        by_core null there = Refused-Replies n core method params sys _ (no_core there refl)
        by_core dangling there = unfold proton_call in rw (there, proton_call) tt
        by_core (live st) there = elim (Result-cases (cstr_arg texts method (codes "method"))) [
          | inl (e, bad) ↦ Refused-Replies n core method params sys e (no_method st there bad)
          | inr (m, named) ↦ elim (Result-cases (read_params texts params)) [
            | inl (e, bad) ↦
                Refused-Replies n core method params sys e (no_params st m there named bad)
            | inr (v, given) ↦
                rw (asked texts out px n core st method params m v sys there named given)
                  (rw named (dispatched-Replies n core st m v sys))
          ]
        ]

    -- What a call replies, if it does, is what `into_c` makes of an object with one field: "ok"
    -- with a value in the shape of the method that is named, or "err" with a text; only the latter,
    -- if the name is no method's or cannot be read.
    pub proton_call-Fits :
        (n core : ℕ) (method params : CStr) (sys after : Sys texts out px) (bytes : Bytes)
        → proton_call texts out px n core method params sys ≡ replied bytes after
        → (v : Value) × (bytes ≡ into_c texts v)
          × Fits (reply_shape (cstr_arg texts method (codes "method"))) v
    proton_call-Fits n core method params sys after bytes e =
        subst (Replies (reply_shape (cstr_arg texts method (codes "method")))) e
          (call-Replies n core method params sys)
