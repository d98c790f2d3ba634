-- ===== src/Proton/Dispatch/Frame.antt =====
-- Which part of the state a method may change.
use aerogram.Prelude.{
  is_some, ℕ, ◌≡◌, refl, sym, ap, ◌∙◌, inl, inr, true, Option, none, some, arith, Option-cases,
  Text, Bytes, codes, Result, ok, err,
}
use aerogram.Html.Stream.{RewriterApi}
use aerogram.Json.{Value}
use aerogram.Proton.Core.{
  ProtonApi, ProtonCore, CoreState, ◌>>=◌, call, api, user_ctx, account_email,
}
use aerogram.Proton.Auth.{LoginParams, account_info}
use aerogram.Proton.Auth.SignIn.{Stepped, Restored}
use mathlib.Core.Path.{subst}
use aerogram.Proton.Core.Outcomes.{Kept-state}
use aerogram.Proton.Labels.{list_labels, list_messages, with_counts, first_page}
use aerogram.Proton.Events
use aerogram.Proton.Events.Polling.{OnlyMarker, Reported, wait_event-Reported}
use aerogram.Proton.Bodies.{message_body}
use aerogram.Proton.Bodies.Shown.{message_body-Answered}
use aerogram.Proton.Bodies.Attached.{get_attachment_keeps}
use aerogram.Proton.Dispatch.{Method}
use aerogram.Proton.Dispatch.{run_method}
use aerogram.Proton.Auth.SignIn.{login-Stepped}
use aerogram.Proton.Auth.SignIn.{submit_totp-Stepped}
use aerogram.Proton.Auth.SignIn.{submit_mailbox_password-Stepped}
use aerogram.Proton.Auth.SignIn.{restore_session-Restored}

module _ (px : ProtonApi) where
  pub account_info_keeps : (c : ProtonCore px) → (account_info px c).1.state ≡ c.state
  unfolding account_info user_ctx account_email ◌>>=◌
  account_info_keeps c = ground arith

  pub list_labels_keeps :
      (params : Value) (c : ProtonCore px) → (list_labels px params c).1.state ≡ c.state
  unfolding list_labels api call with_counts ◌>>=◌
  list_labels_keeps params c = ground arith

  pub list_messages_keeps :
      (params : Value) (c : ProtonCore px) → (list_messages px params c).1.state ≡ c.state
  unfolding list_messages first_page api call ◌>>=◌
  list_messages_keeps params c = ground arith

  pub message_body_keeps :
      (html : RewriterApi) (from_read : Bytes → ℕ → Result Text Text) (params : Value)
      (c : ProtonCore px)
      → (message_body html from_read px params c).1.state ≡ c.state
  message_body_keeps html from_read params c =
      Kept-state c.state _ _ (message_body-Answered html from_read px params c)

module _ {px : ProtonApi} where
  -- What holds of a core at every moment: user and session come together, and a marker only with a
  -- session.
  pub record IsSound (s : CoreState px) : Type 0 where
    pub paired : is_some s.user_ctx ≡ is_some s.api
    pub marked : is_some s.last_event_id ≡ true → is_some s.api ≡ true

  -- The answer of a call that came back.
  abbrev pub IfBack :
      (Result Text Value × ProtonCore px → Type 0)
      → Option (Result Text Value × ProtonCore px)
      → Type 0
  IfBack P none = Unit
  IfBack P (some out) = P out

module _ (px : ProtonApi) where
  -- A login and its steps leave the event marker alone, `wait_event` all but the marker, and any
  -- other method the whole state.
  abbrev pub Frame : Method → CoreState px → CoreState px → Type 0
  Frame Method.login s s' = s'.last_event_id ≡ s.last_event_id
  Frame Method.submit_totp s s' = s'.last_event_id ≡ s.last_event_id
  Frame Method.submit_mailbox_password s s' = s'.last_event_id ≡ s.last_event_id
  Frame Method.restore_session s s' = s'.last_event_id ≡ s.last_event_id
  Frame Method.wait_event s s' = OnlyMarker px s s'
  Frame Method.ping s s' = s' ≡ s
  Frame Method.account_info s s' = s' ≡ s
  Frame Method.list_labels s s' = s' ≡ s
  Frame Method.list_messages s s' = s' ≡ s
  Frame Method.message_body s s' = s' ≡ s
  Frame Method.get_attachment s s' = s' ≡ s

  -- What a call did to a sound core.
  pub record Fared (F : CoreState px → CoreState px → Type 0) (s s' : CoreState px) : Type 0 where
    pub frame : F s s'
    pub sound : IsSound s'
    pub stays : is_some s.api ≡ true → is_some s'.api ≡ true

  Fared-same :
      (m : Method) (s s' : CoreState px) → Frame m s s' → IsSound s → s' ≡ s → Fared (Frame m) s s'
  Fared-same m s s' frame sound same = record {
    frame = frame;
    sound = subst IsSound (sym same) sound;
    stays = λ here. rw same here;
  }

  Stepped-Fared :
      (c : ProtonCore px) (out : Result Text Value × ProtonCore px)
      → IsSound c.state
      → Stepped px c out
      → (out.1.state.last_event_id ≡ c.state.last_event_id)
        × IsSound out.1.state
        × (is_some c.state.api ≡ true → is_some out.1.state.api ≡ true)
  Stepped-Fared c (ok v, d) sound (inl (s, gone)) = ground arith
  Stepped-Fared c (ok v, d) sound (inr w) = ground arith
  Stepped-Fared c (err e, d) sound s = ground arith

  Restored-Fared :
      (c : ProtonCore px) (out : Result Text Value × ProtonCore px)
      → IsSound c.state
      → Restored px c out
      → (out.1.state.last_event_id ≡ c.state.last_event_id)
        × IsSound out.1.state
        × (is_some c.state.api ≡ true → is_some out.1.state.api ≡ true)
  Restored-Fared c (ok v, d) sound (kept, inl s) = ground arith
  Restored-Fared c (ok v, d) sound (kept, inr s) = ground arith
  Restored-Fared c (err e, d) sound s = ground arith

  -- The same from the three facts that a step of a login gives.
  fares :
      (m : Method) {s s' : CoreState px}
      → Frame m s s' × IsSound s' × (is_some s.api ≡ true → is_some s'.api ≡ true)
      → Fared (Frame m) s s'
  fares m (frame, sound, stays) = record { frame = frame; sound = sound; stays = stays }

  wait_event_refused :
      (n : ℕ) (params : Value) (c : ProtonCore px)
      → c.state.api ≡ none
      → Events.wait_event px n params c ≡ some (err (codes "not logged in"), c)
  unfolding Events.wait_event api
  wait_event_refused n params c out = ground arith

  Reported-Fared :
      (c : ProtonCore px) (session : px.ApiSession) (out : Result Text Value × ProtonCore px)
      → c.state.api ≡ some session
      → IsSound c.state
      → Reported px c.state out
      → Fared (Frame Method.wait_event) c.state out.1.state
  Reported-Fared c session (err e, d) there sound same =
      Fared-same Method.wait_event c.state d.state
        (record {
          same_flow = ap (λ s. s.login_flow) same;
          same_user = ap (λ s. s.user_ctx) same;
          same_api = ap (λ s. s.api) same;
        })
        sound same
  Reported-Fared c session (ok v, d) there sound (only, _) = record {
    frame = only;
    sound = record {
      paired = ap is_some only.same_user ∙ sound.paired ∙ sym (ap is_some only.same_api);
      marked = λ _. ap is_some only.same_api ∙ ap is_some there;
    };
    stays = λ here. ap is_some only.same_api ∙ here;
  }

  wait_event_fares :
      (n : ℕ) (params : Value) (c : ProtonCore px)
      → IsSound c.state
      → IfBack
          (λ out. Fared (Frame Method.wait_event) c.state out.1.state)
          (Events.wait_event px n params c)
  wait_event_fares n params c sound = elim (Option-cases c.state.api) [
    | inl out ↦
        subst (IfBack (λ o. Fared (Frame Method.wait_event) c.state o.1.state))
          (sym (wait_event_refused n params c out))
          (Fared-same Method.wait_event c.state c.state
            (record { same_flow = refl; same_user = refl; same_api = refl }) sound refl)
    | inr (session, there) ↦ elim (Option-cases (Events.wait_event px n params c)) [
      | inl dry ↦
          subst (IfBack (λ o. Fared (Frame Method.wait_event) c.state o.1.state)) (sym dry) tt
      | inr (out, back) ↦
          subst (IfBack (λ o. Fared (Frame Method.wait_event) c.state o.1.state)) (sym back)
            (Reported-Fared c session out there sound (wait_event-Reported px n params c out back))
    ]
  ]

module _ (html : RewriterApi) (from_read : Bytes → ℕ → Result Text Text)
    (from_value : Value → Result Text LoginParams) (px : ProtonApi) where
  pub run_method_fares :
      (n : ℕ) (m : Method) (params : Value) (c : ProtonCore px)
      → IsSound c.state
      → IfBack
          (λ out. Fared px (Frame px m) c.state out.1.state)
          (run_method html from_read from_value px n m params c)
  unfolding run_method
  run_method_fares n Method.ping params c sound = Fared-same px Method.ping _ _ refl sound refl
  run_method_fares n Method.login params c sound =
      fares px Method.login (Stepped-Fared px c _ sound (login-Stepped px from_value params c))
  run_method_fares n Method.submit_totp params c sound =
      fares px Method.submit_totp (Stepped-Fared px c _ sound (submit_totp-Stepped px params c))
  run_method_fares n Method.submit_mailbox_password params c sound =
      fares px Method.submit_mailbox_password
        (Stepped-Fared px c _ sound (submit_mailbox_password-Stepped px params c))
  run_method_fares n Method.restore_session params c sound =
      fares px Method.restore_session (Restored-Fared px c _ sound (restore_session-Restored px c))
  run_method_fares n Method.account_info params c sound =
      let same = account_info_keeps px c in Fared-same px Method.account_info _ _ same sound same
  run_method_fares n Method.list_labels params c sound =
      let same = list_labels_keeps px params c in
      Fared-same px Method.list_labels _ _ same sound same
  run_method_fares n Method.list_messages params c sound =
      let same = list_messages_keeps px params c in
      Fared-same px Method.list_messages _ _ same sound same
  run_method_fares n Method.message_body params c sound =
      let same = message_body_keeps px html from_read params c in
      Fared-same px Method.message_body _ _ same sound same
  run_method_fares n Method.get_attachment params c sound =
      let same = get_attachment_keeps px params c in
      Fared-same px Method.get_attachment _ _ same sound same
  run_method_fares n Method.wait_event params c sound = wait_event_fares px n params c sound
