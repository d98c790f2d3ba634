-- ===== src/Proton/Threads/Calls/SignIn.antt =====
-- The calls that log in, as sections.
use aerogram.Proton.Core.{◌>>◌}
use aerogram.Prelude.{
  ◌≡◌, refl, sym, inl, inr, true, false, Option, none, some, arith, Bool-cases, Text, codes,
  text_eq, Result, ok, err, Result-cases, map_err, ◌++◌,
}
use mathlib.Core.Path.{subst}
use aerogram.Json.{Value}
use aerogram.Proton.Core.{ProtonApi, ProtonCore, Action, pure}
use aerogram.Proton.Auth.{
  LoginParams, state_only, first_session, promote, take_flow, finish_login, answer, with_flow,
  stored_flow_state, drive, submit_totp, submit_mailbox_password, start_flow, flow_state,
  store_flow, login, device_info, restore_session,
}
use aerogram.Proton.Threads.{idle, stored, stores, drives, takes, awaits}
use aerogram.Proton.Threads.Calls.{
  Run, goes, leaves, Runs, Runs-pure, Runs-lift, Runs-bind, Runs-call, Runs-promote_finishing,
  Runs-promote_idle,
}

module _ (px : ProtonApi) where
  -- From the stored flow on.
  Runs-finish_login : {c : ProtonCore px} → Runs px stored c (finish_login px)
  unfolding finish_login
  Runs-finish_login = Runs-bind px (take_flow px) (takes refl) λ taken. Runs-lift px _ λ flow.
      Runs-call px (codes "get_authenticated_sessions") _
        λ sessions. Runs-lift px _ λ session. Runs-promote_finishing px session

  answer_done : (st : Text) → text_eq st (codes "ok") ≡ true → answer px st ≡ finish_login px
  unfolding answer
  answer_done st done = rw done refl

  answer_waits : (st : Text) → text_eq st (codes "ok") ≡ false → answer px st ≡ pure (state_only st)
  unfolding answer
  answer_waits st waits = rw waits refl

  Runs-answer : {c : ProtonCore px} (st : Text) → Runs px stored c (answer px st)
  Runs-answer {c} st = elim (Bool-cases (text_eq st (codes "ok"))) [
    | inl done ↦ subst (Runs px stored c) (sym (answer_done st done)) Runs-finish_login
    | inr waits ↦ subst (Runs px stored c) (sym (answer_waits st waits)) (Runs-pure px)
  ]

  Runs-drive :
      {c : ProtonCore px} (what : Text) (m : Action (px.LoginFlow × px.World) (Unit {0}))
      → Runs px idle c (drive px what m)
  unfolding drive ◌>>◌ stored_flow_state
  Runs-drive what m =
      Runs-bind px (with_flow px what m) (drives what m refl)
        λ _. Runs-bind px {q = stored} (stored_flow_state px) (awaits refl) Runs-answer

  pub Runs-submit_totp :
      {c : ProtonCore px} (params : Value) → Runs px idle c (submit_totp px params)
  unfolding submit_totp
  Runs-submit_totp params = Runs-lift px _ λ code. Runs-drive _ _

  pub Runs-submit_mailbox_password :
      {c : ProtonCore px} (params : Value) → Runs px idle c (submit_mailbox_password px params)
  unfolding submit_mailbox_password
  Runs-submit_mailbox_password params = Runs-lift px _ λ password. Runs-drive _ _

  start_flow_fails :
      (p : LoginParams) (session : px.ApiSession) (info : px.DeviceInfo) (c : ProtonCore px)
      (e : Text)
      → (px.login_with_credentials p.user p.password
          (px.new_login_flow session (px.get_client_id c.world) info, c.world)).0
        ≡ err e
      → (start_flow px p session info c).1.state ≡ c.state
  unfolding start_flow
  start_flow_fails p session info c e failed = ground arith

  start_flow_goes :
      (p : LoginParams) (session : px.ApiSession) (info : px.DeviceInfo) (c : ProtonCore px)
      (u : Unit {0})
      → let tried =
          px.login_with_credentials p.user p.password
            (px.new_login_flow session (px.get_client_id c.world) info, c.world) in
        tried.0 ≡ ok u
        → start_flow px p session info c
          ≡ answer px
              (flow_state px tried.1.0)
              (store_flow px tried.1.0 (record { state = c.state; world = tried.1.1 }))
  unfolding start_flow
  start_flow_goes p session info c u went = ground arith

  Runs-start_flow :
      {c : ProtonCore px} (p : LoginParams) (session : px.ApiSession) (info : px.DeviceInfo)
      → Runs px idle c (start_flow px p session info)
  Runs-start_flow {c} p session info =
      let flow = px.new_login_flow session (px.get_client_id c.world) info in
      let tried = px.login_with_credentials p.user p.password (flow, c.world) in
      let there : ProtonCore px = record { state = c.state; world = tried.1.1 } in
      elim (Result-cases tried.0) [
        | inl (e, failed) ↦ record {
          run = leaves px idle c _ (start_flow_fails p session info c e failed);
        }
        | inr (u, went) ↦ record {
          run = goes (awaits {d = there} refl) (
              goes (stores tried.1.0 refl) (
                subst (λ x. Run px stored (store_flow px tried.1.0 there) idle x.1)
                  (sym (start_flow_goes p session info c u went))
                  (Runs-answer (flow_state px tried.1.0)).run));
        }
      ]

  pub Runs-login :
      {c : ProtonCore px} (from_value : Value → Result Text LoginParams) (params : Value)
      → Runs px idle c (login px from_value params)
  unfolding login ◌>>◌ device_info
  Runs-login from_value params =
      Runs-lift px (map_err (λ e. codes "login params: " ++ e) (from_value params)) λ p.
        Runs-call px (codes "encryption key") px.get_encryption_key λ _.
          Runs-call px (codes "new_api_session") (px.new_api_session none) λ session.
            Runs-bind px {q = idle} (device_info px) (awaits refl)
              λ info. Runs-start_flow p session info

  pub Runs-restore_session : {c : ProtonCore px} → Runs px idle c (restore_session px)
  unfolding restore_session
  Runs-restore_session =
      Runs-call px (codes "get_authenticated_sessions") _
        λ sessions. by_first (first_session sessions)
    where
      by_first :
          {c : ProtonCore px} (first : Option px.Session)
          → Runs px idle c (elim first [
            | none ↦ pure (state_only (codes "none"))
            | some session ↦ promote px session
          ])
      by_first none = (Runs-pure px)
      by_first (some session) = Runs-promote_idle px session
