-- ===== src/Proton/Dispatch/Answers/Typed.antt =====
-- `dispatch` answers each method in its shape.
use aerogram.Prelude.{
  ℕ, refl, sym, inl, inr, Option, none, some, Option-cases, Text, Bytes, Result, ok, err, ◌++◌,
  codes,
}
use mathlib.Core.Path.{subst}
use aerogram.Html.Stream.{RewriterApi}
use aerogram.Json.{Value}
use aerogram.Json.Shapes.{fits}
use aerogram.Proton.Core.{ProtonApi, ProtonCore}
use aerogram.Proton.Core.Yields.{IfOk}
use aerogram.Proton.Auth.{LoginParams}
use aerogram.Proton.Events
use aerogram.Proton.Events.Polling.{Reported, wait_event-Reported}
use aerogram.Proton.Dispatch.{Method, method_names, first_arm, run_method, dispatch}
use aerogram.Proton.Dispatch.Frame.{IfBack}
use aerogram.Proton.Dispatch.Answers.{answer_shape, Fits}
use aerogram.Proton.Dispatch.Answers.SignIn.{
  login-Yields, submit_totp-Yields, submit_mailbox_password-Yields, restore_session-Yields,
  account_info-Yields,
}
use aerogram.Proton.Dispatch.Answers.Listed.{list_labels-Yields, list_messages-Yields}
use aerogram.Proton.Dispatch.Answers.Bodily.{message_body-Yields, get_attachment-Yields}

abbrev pub InShape : Method → Result Text Value → Type 0
InShape m r = IfOk (Fits (answer_shape m)) r

-- An unknown name is never answered.
abbrev pub NamedShape : Option Method → Result Text Value → Type 0
NamedShape none r = IfOk (λ v. ⊥) r
NamedShape (some m) r = InShape m r

Reported-InShape :
    (px : ProtonApi) (c : ProtonCore px) (out : Result Text Value × ProtonCore px)
    → Reported px c.state out
    → InShape Method.wait_event out.0
unfolding fits
Reported-InShape px c (err e, d) h = tt
Reported-InShape px c (ok v, d) (_, inl (quiet, _)) =
    subst (Fits (answer_shape Method.wait_event)) (sym quiet) refl
Reported-InShape px c (ok v, d) (_, inr (moved, _)) =
    subst (Fits (answer_shape Method.wait_event)) (sym moved) refl

module _ (html : RewriterApi) (from_read : Bytes → ℕ → Result Text Text)
    (from_value : Value → Result Text LoginParams) (px : ProtonApi) where
  abbrev Answers : Method → Option (Result Text Value × ProtonCore px) → Type 0
  Answers m = IfBack (λ out. InShape m out.0)

  wait_event-Answers :
      (n : ℕ) (params : Value) (c : ProtonCore px)
      → Answers Method.wait_event (Events.wait_event px n params c)
  wait_event-Answers n params c = elim (Option-cases (Events.wait_event px n params c)) [
    | inl dry ↦ subst (Answers Method.wait_event) (sym dry) tt
    | inr (out, back) ↦
        subst (Answers Method.wait_event) (sym back)
          (Reported-InShape px c out (wait_event-Reported px n params c out back))
  ]

  run_method-Answers :
      (n : ℕ) (m : Method) (params : Value) (c : ProtonCore px)
      → Answers m (run_method html from_read from_value px n m params c)
  unfolding run_method fits
  run_method-Answers n Method.ping params c = refl
  run_method-Answers n Method.login params c = (login-Yields px from_value params c).yielded
  run_method-Answers n Method.submit_totp params c = (submit_totp-Yields px params c).yielded
  run_method-Answers n Method.submit_mailbox_password params c =
      (submit_mailbox_password-Yields px params c).yielded
  run_method-Answers n Method.restore_session params c = (restore_session-Yields px c).yielded
  run_method-Answers n Method.account_info params c = (account_info-Yields px c).yielded
  run_method-Answers n Method.list_labels params c = (list_labels-Yields px params c).yielded
  run_method-Answers n Method.list_messages params c = (list_messages-Yields px params c).yielded
  run_method-Answers n Method.message_body params c =
      (message_body-Yields html from_read px params c).yielded
  run_method-Answers n Method.get_attachment params c = (get_attachment-Yields px params c).yielded
  run_method-Answers n Method.wait_event params c = wait_event-Answers n params c

  pub dispatch_answers :
      (n : ℕ) (name : Text) (params : Value) (c : ProtonCore px)
      → IfBack
          (λ out. NamedShape (first_arm name method_names) out.0)
          (dispatch html from_read from_value px n name params c)
  unfolding dispatch
  dispatch_answers n name params c = by_arm (first_arm name method_names)
    where
      by_arm :
          (arm : Option Method)
          → IfBack
              (λ out. NamedShape arm out.0)
              (elim arm [
                | none ↦ some (err (codes "unknown method: " ++ name), c)
                | some m ↦ run_method html from_read from_value px n m params c
              ])
      by_arm none = tt
      by_arm (some m) = run_method-Answers n m params c
