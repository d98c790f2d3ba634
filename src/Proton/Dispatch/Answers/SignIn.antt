-- ===== src/Proton/Dispatch/Answers/SignIn.antt =====
-- What the methods of a login answer.
use aerogram.Prelude.{
  ◌≡◌, refl, sym, ap, false, text_eq, ◌∙◌, inl, inr, ◌⊎◌, arith, Bool-cases, none, some,
  Option-cases, Result, Result-cases, ok, err, ◌++◌, List, [], ◌∷◌, Text, codes,
}
use mathlib.Core.Path.{subst}
use aerogram.Json.{Value}
use aerogram.Json.Shapes.{Shape, record_of, needs, no_more, either, fits}
use aerogram.Proton.Core.{Action, pure, ProtonApi, ProtonCore}
use aerogram.Proton.Core.Yields.{
  Yields, Yields-pure, Yields-run, Yields-step, Yields-then, Yields-same,
}
use aerogram.Proton.Auth.{
  LoginParams, state_only, flow_state, promote, finish_login, answer, stored_flow_state, drive,
  submit_totp, submit_mailbox_password, start_flow, store_flow, login, restore_session,
  account_info, first_session,
}
use aerogram.Proton.Dispatch.{Method}
use aerogram.Proton.Dispatch.Answers.{Fits, words, signed_shape, waiting_shape, answer_shape}

module _ (px : ProtonApi) where
  signs_in :
      (other : Shape) (session : px.Session) (c : ProtonCore px)
      → Yields (Fits (either signed_shape other)) (promote px session) c
  unfolding promote fits
  signs_in other session c =
      Yields-step _ _ λ user c₁ joined. Yields-step _ _ λ api c₂ opened. record { yielded = refl }

  ends_signed_in :
      (other : Shape) (c : ProtonCore px)
      → Yields (Fits (either signed_shape other)) (finish_login px) c
  unfolding finish_login
  ends_signed_in other c = Yields-step _ _ λ taken c₁ had. Yields-step _ _ λ flow c₂ there.
      Yields-step _ _
        λ sessions c₃ got. Yields-step _ _ λ session c₄ first. signs_in other session c₄

  flow_state_cases :
      (flow : px.LoginFlow)
      → (flow_state px flow ≡ codes "totp")
        ⊎ (flow_state px flow ≡ codes "mailbox_password")
        ⊎ (flow_state px flow ≡ codes "ok")
  unfolding flow_state
  flow_state_cases flow = elim (Bool-cases (px.is_awaiting_2fa flow)) [
    | inl first ↦ inl (rw first refl)
    | inr other ↦ elim (Bool-cases (px.is_awaiting_mailbox_password flow)) [
      | inl second ↦ inr (inl (rw (other, second) refl))
      | inr done ↦ inr (inr (rw (other, done) refl))
    ]
  ]

  abbrev Steps : Action (ProtonCore px) Value → ProtonCore px → Type 0
  Steps m c = Yields (Fits (either signed_shape waiting_shape)) m c

  answer-finish_login : (c : ProtonCore px) → answer px (codes "ok") c ≡ finish_login px c
  unfolding answer
  answer-finish_login c = refl

  waits :
      (word : Text) (c : ProtonCore px)
      → text_eq word (codes "ok") ≡ false
      → Fits (either signed_shape waiting_shape) (state_only word)
      → Steps (answer px word) c
  unfolding answer
  waits word c other fit = Yields-run _ _ {r = ok (state_only word)} (rw (other, answer) refl) fit

  answers :
      (st : Text) (flow : px.LoginFlow) (c : ProtonCore px)
      → flow_state px flow ≡ st
      → Steps (answer px st) c
  unfolding fits
  answers st flow c e = elim (flow_state_cases flow) [
    | inl totp ↦
        subst (λ w. Steps (answer px w) c) (sym totp ∙ e) (waits (codes "totp") c refl refl)
    | inr (inl password) ↦
        subst (λ w. Steps (answer px w) c) (sym password ∙ e)
          (waits (codes "mailbox_password") c refl refl)
    | inr (inr done) ↦
        subst (λ w. Steps (answer px w) c) (sym done ∙ e)
          (Yields-same _ _ c c (ap (λ r. r.0) (answer-finish_login c))
            (ends_signed_in waiting_shape c))
  ]

  stored_of :
      (c : ProtonCore px) (st : Text)
      → (stored_flow_state px c).0 ≡ ok st
      → (flow : px.LoginFlow) × (flow_state px flow ≡ st)
  unfolding stored_flow_state
  stored_of c st e = elim (Option-cases c.state.login_flow) [
    | inl gone ↦ ground arith
    | inr (flow, there) ↦ (flow, ground arith)
  ]

  drives : (what : Text) (m : _) (c : ProtonCore px) → Steps (drive px what m) c
  unfolding drive
  drives what m c = Yields-then _ _ λ c₁.
      Yields-step _ _
        λ st c₂ read. let (flow, named) = stored_of c₁ st read in answers st flow c₂ named

  pub submit_totp-Yields : (params : Value) (c : ProtonCore px) → Steps (submit_totp px params) c
  unfolding submit_totp
  submit_totp-Yields params c = Yields-step _ _ λ code c₁ given. drives _ _ c₁

  pub submit_mailbox_password-Yields :
      (params : Value) (c : ProtonCore px) → Steps (submit_mailbox_password px params) c
  unfolding submit_mailbox_password
  submit_mailbox_password-Yields params c = Yields-step _ _ λ password c₁ given. drives _ _ c₁

  starts_flow :
      (p : LoginParams) (session : px.ApiSession) (info : px.DeviceInfo) (c : ProtonCore px)
      → Steps (start_flow px p session info) c
  unfolding start_flow store_flow
  starts_flow p session info c =
      let ran =
        px.login_with_credentials p.user p.password
          (px.new_login_flow session (px.get_client_id c.world) info, c.world) in
      elim (Result-cases ran.0) [
        | inl (e, refused) ↦
            Yields-run _ _ {r = err (codes "login: " ++ e)} (rw (refused, start_flow) refl) tt
        | inr (_, fine) ↦
            let stored : ProtonCore px = record {
              state = record (c.state) { login_flow = some ran.1.0 };
              world = ran.1.1;
            } in
            Yields-same _ (answer px (flow_state px ran.1.0)) c stored (rw (fine, start_flow) refl)
              (answers _ ran.1.0 stored refl)
      ]

  pub login-Yields :
      (from_value : Value → Result Text LoginParams) (params : Value) (c : ProtonCore px)
      → Steps (login px from_value params) c
  unfolding login
  login-Yields from_value params c = Yields-step _ _ λ p c₁ read. Yields-then _ _ λ c₂.
      Yields-step _ _
        λ session c₃ opened. Yields-step _ _ λ info c₄ known. starts_flow p session info c₄

  restored :
      (sessions : List px.Session) (c : ProtonCore px)
      → Yields
          (Fits (answer_shape Method.restore_session))
          (elim (first_session sessions) [
            | none ↦ pure (state_only (codes "none"))
            | some session ↦ promote px session
          ])
          c
  unfolding fits
  restored [] c = Yields-pure refl
  restored (session ∷ rest) c =
      signs_in (record_of (needs (codes "state") (words (codes "none")) no_more)) session c

  pub restore_session-Yields :
      (c : ProtonCore px)
      → Yields (Fits (answer_shape Method.restore_session)) (restore_session px) c
  unfolding restore_session
  restore_session-Yields c = Yields-step _ _ λ sessions c₁ got. restored sessions c₁

  pub account_info-Yields :
      (c : ProtonCore px) → Yields (Fits (answer_shape Method.account_info)) (account_info px) c
  unfolding account_info fits
  account_info-Yields c = Yields-step _ _ λ ctx c₁ there. record { yielded = refl }
