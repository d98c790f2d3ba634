-- ===== src/Probes/Checks/Asked.antt =====
-- What a program gets for a call that needs no rounds of the clock.
use aerogram.Prelude.{ℕ, ◌≡◌, refl, ap, Text, Bytes, codes, Result}
use aerogram.Json.{Value, object, end}
use aerogram.Html.Stream.{RewriterApi}
use aerogram.Proton.Core.{ProtonApi, ProtonCore}
use aerogram.Proton.Auth.{LoginParams, restore_session}
use aerogram.Proton.Labels.{list_labels, list_messages}
use aerogram.Proton.Bodies
use aerogram.Proton.Dispatch.{dispatch, run_method}
use aerogram.Proton.Abi.{Texts, envelope}
use aerogram.Probes.{call}
use aerogram.Probes.Checks.{Run, no_outcome, aborts, ends, ◌>>=◌, ask}

pub after_ends :
    {C A B : Type 0} (m : C → Run C A) (f : A → C → Run C B) (a : A) (c d : C)
    → m c ≡ ends a d
    → (m >>= f) c ≡ f a d
unfolding ◌>>=◌
after_ends {C = C} {A = A} {B = B} m f a c d e =
    ap
      (λ (r : Run C A).
        let s : Run C B = elim r [ no_outcome ↦ no_outcome | aborts ↦ aborts | ends a d ↦ f a d ] in
        s)
      e

module _ (texts : Texts) (html : RewriterApi) (from_read : Bytes → ℕ → Result Text Text)
    (from_value : Value → Result Text LoginParams) (px : ProtonApi) (fuel : ℕ) where
  abbrev asked : Text → Value → ProtonCore px → Run (ProtonCore px) Value
  asked = ask texts html from_read from_value px fuel

  abbrev replied : Result Text Value × ProtonCore px → Run (ProtonCore px) Value
  replied o = ends (envelope texts o.0) o.1

  pub ask-restore_session :
      (c : ProtonCore px)
      → asked (codes "restore_session") (object end) c ≡ replied (restore_session px c)
  unfolding ask call dispatch run_method
  ask-restore_session c = refl

  pub ask-list_labels :
      (params : Value) (c : ProtonCore px)
      → asked (codes "list_labels") params c ≡ replied (list_labels px params c)
  unfolding ask call dispatch run_method
  ask-list_labels params c = refl

  pub ask-list_messages :
      (params : Value) (c : ProtonCore px)
      → asked (codes "list_messages") params c ≡ replied (list_messages px params c)
  unfolding ask call dispatch run_method
  ask-list_messages params c = refl

  pub ask-get_attachment :
      (params : Value) (c : ProtonCore px)
      → asked (codes "get_attachment") params c ≡ replied (Bodies.get_attachment px params c)
  unfolding ask call dispatch run_method
  ask-get_attachment params c = refl
