-- ===== src/Proton/Auth/SignIn.antt =====
-- What a step of a login leaves behind, on every path.
use aerogram.Proton.Core.{◌>>=◌, ◌>>◌}
use aerogram.Prelude.{
  is_some, map_some, ◌≡◌, refl, ◌≢◌, ◌⊎◌, inl, inr, true, none, some, arith, Bool-cases,
  Option-cases, Text, codes, text_eq, text_eq_refl, Result, ok, err, Result-cases,
}
use aerogram.Json.{Value, get_str}
use aerogram.Proton.Core.{ProtonApi, ProtonCore, call, account_email}
use aerogram.Proton.Auth.{first_session, flow_state, promote, take_flow, finish_login, answer}
use aerogram.Proton.Auth.{Action, submit_totp, with_flow}
use aerogram.Proton.Auth.{stored_flow_state}
use aerogram.Proton.Auth.{drive, login, restore_session, submit_mailbox_password}
use aerogram.Proton.Auth.{LoginParams, state_only}
use aerogram.Proton.Auth.{start_flow}

module _ (px : ProtonApi) where
  -- The account that is signed in, if any, and its event marker are as before.
  pub record SameAccount (c c' : ProtonCore px) : Type 0 where
    pub same_user : c'.state.user_ctx ≡ c.state.user_ctx
    pub same_api : c'.state.api ≡ c.state.api
    pub same_marker : c'.state.last_event_id ≡ c.state.last_event_id

  -- Signed in: user context and api session are both there, and the answer says so.
  pub record SignedIn (v : Value) (c c' : ProtonCore px) : Type 0 where
    pub says : get_str (codes "state") v ≡ some (codes "ok")
    pub user_there : is_some c'.state.user_ctx ≡ true
    pub api_there : is_some c'.state.api ≡ true
    pub marker_kept : c'.state.last_event_id ≡ c.state.last_event_id

  -- Waiting for another factor: the answer names the state of the flow that is stored.
  pub record Waiting (v : Value) (c c' : ProtonCore px) : Type 0 where
    pub account : SameAccount c c'
    pub names : get_str (codes "state") v ≡ map_some (flow_state px) c'.state.login_flow
    pub not_done : get_str (codes "state") v ≢ some (codes "ok")

  abbrev pub Promoted : ProtonCore px → Result Text Value × ProtonCore px → Type 0
  Promoted c (ok v, c') = SignedIn v c c' × (c'.state.login_flow ≡ c.state.login_flow)
  Promoted c (err e, c') = SameAccount c c' × (c'.state.login_flow ≡ c.state.login_flow)

  promote_lem : (s : px.Session) (c : ProtonCore px) → Promoted c (promote px s c)
  unfolding ◌>>=◌ ◌>>◌ promote call account_email
  promote_lem s c = ground arith

  abbrev pub Finished : ProtonCore px → Result Text Value × ProtonCore px → Type 0
  Finished c (ok v, c') = SignedIn v c c' × (c'.state.login_flow ≡ none)
  Finished c (err e, c') = SameAccount c c' × (c'.state.login_flow ≡ none)

  Finished-of_Promoted :
      (c c' : ProtonCore px) (out : Result Text Value × ProtonCore px)
      → SameAccount c c'
      → c'.state.login_flow ≡ none
      → Promoted c' out
      → Finished c out
  Finished-of_Promoted c c' (ok v, d) same gone p = ground arith
  Finished-of_Promoted c c' (err e, d) same gone p = ground arith

  -- The flow is gone after `finish_login`, also where the account could not be set up.
  finish_login_lem : (c : ProtonCore px) → Finished c (finish_login px c)
  unfolding ◌>>=◌ ◌>>◌ finish_login take_flow call
  finish_login_lem c = elim (Result-cases (px.get_authenticated_sessions c.world).0) [
    | inl (e, failed) ↦ ground arith
    | inr (sessions, listed) ↦ elim (Option-cases (first_session sessions)) [
      | inl empty ↦ ground arith
      | inr (session, first) ↦
          let cleared : ProtonCore px = record {
            state = record (c.state) { login_flow = none };
            world = (px.get_authenticated_sessions c.world).1;
          } in
          let promoted =
            Finished-of_Promoted c cleared (promote px session cleared)
              (record { same_user = refl; same_api = refl; same_marker = refl }) refl
              (promote_lem session cleared) in
          ground (arith, promoted)
    ]
  ]

  -- A step of a login: signed in with the flow gone, or waiting with the flow stored; after an
  -- error the account is as before.
  abbrev pub Stepped : ProtonCore px → Result Text Value × ProtonCore px → Type 0
  Stepped c (ok v, c') = (SignedIn v c c' × (c'.state.login_flow ≡ none)) ⊎ Waiting v c c'
  Stepped c (err e, c') = SameAccount c c'

  Stepped-of_Finished :
      (c : ProtonCore px) (out : Result Text Value × ProtonCore px) → Finished c out → Stepped c out
  Stepped-of_Finished c (ok v, d) f = inl f
  Stepped-of_Finished c (err e, d) f = f.0

  answer_lem :
      (c : ProtonCore px) (flow : px.LoginFlow)
      → c.state.login_flow ≡ some flow
      → Stepped c (answer px (flow_state px flow) c)
  unfolding answer
  answer_lem c flow here = elim (Bool-cases (text_eq (flow_state px flow) (codes "ok"))) [
    | inl done ↦ rw (done, answer) (Stepped-of_Finished c (finish_login px c) (finish_login_lem c))
    | inr more ↦ ground (arith, text_eq_refl (codes "ok"))
  ]

  Stepped-from :
      (c c' : ProtonCore px) (out : Result Text Value × ProtonCore px)
      → SameAccount c c'
      → Stepped c' out
      → Stepped c out
  Stepped-from c c' (ok v, d) same (inl (s, gone)) = inl (ground arith)
  Stepped-from c c' (ok v, d) same (inr w) = inr (ground arith)
  Stepped-from c c' (err e, d) same s = ground arith

  drive_lem :
      (what : Text) (m : Action (px.LoginFlow × px.World) (Unit {0})) (c : ProtonCore px)
      → Stepped c (drive px what m c)
  unfolding ◌>>=◌ ◌>>◌ drive with_flow stored_flow_state
  drive_lem what m c = elim (Option-cases c.state.login_flow) [
    | inl gone ↦ ground arith
    | inr (flow, here) ↦ elim (Result-cases (m (flow, c.world)).0) [
      | inl (e, failed) ↦ ground arith
      | inr (_, fine) ↦
          let driven : ProtonCore px = record {
            state = record (c.state) { login_flow = some (m (flow, c.world)).1.0 };
            world = (m (flow, c.world)).1.1;
          } in
          let stepped =
            Stepped-from c driven (answer px (flow_state px (m (flow, c.world)).1.0) driven)
              (record { same_user = refl; same_api = refl; same_marker = refl })
              (answer_lem driven (m (flow, c.world)).1.0 refl) in
          ground (arith, stepped)
    ]
  ]

  -- A second factor signs in, or leaves the flow waiting for the next one; after an error, a wrong
  -- code or no flow, the account is as before.
  pub submit_totp-Stepped :
      (params : Value) (c : ProtonCore px) → Stepped c (submit_totp px params c)
  unfolding ◌>>=◌ ◌>>◌ submit_totp
  submit_totp-Stepped params c = elim (Option-cases (get_str (codes "code") params)) [
    | inl missing ↦ ground arith
    | inr (code, given) ↦
        let driven = drive_lem (codes "submit_totp") (px.flow_submit_totp code) c in
        rw (given, submit_totp) driven
  ]

  -- So does the mailbox password.
  pub submit_mailbox_password-Stepped :
      (params : Value) (c : ProtonCore px) → Stepped c (submit_mailbox_password px params c)
  unfolding ◌>>=◌ ◌>>◌ submit_mailbox_password
  submit_mailbox_password-Stepped params c =
      elim (Option-cases (get_str (codes "password") params)) [
        | inl missing ↦ ground arith
        | inr (password, given) ↦
            let driven =
              drive_lem (codes "submit_mailbox_password") (px.flow_submit_mailbox_password password)
                c in
            rw (given, submit_mailbox_password) driven
      ]

  start_flow_lem :
      (p : LoginParams) (session : px.ApiSession) (info : px.DeviceInfo) (c : ProtonCore px)
      → Stepped c (start_flow px p session info c)
  unfolding start_flow
  start_flow_lem p session info c =
      let flow = px.new_login_flow session (px.get_client_id c.world) info in
      let ran = px.login_with_credentials p.user p.password (flow, c.world) in
      elim (Result-cases ran.0) [
        | inl (e, failed) ↦ ground arith
        | inr (_, fine) ↦
            let stored : ProtonCore px = record {
              state = record (c.state) { login_flow = some ran.1.0 };
              world = ran.1.1;
            } in
            let stepped =
              Stepped-from c stored (answer px (flow_state px ran.1.0) stored)
                (record { same_user = refl; same_api = refl; same_marker = refl })
                (answer_lem stored ran.1.0 refl) in
            ground (arith, stepped)
      ]

  -- A login with credentials starts a new flow; a refused one leaves the account as before.
  pub login-Stepped :
      (from_value : Value → Result Text LoginParams) (params : Value) (c : ProtonCore px)
      → Stepped c (login px from_value params c)
  unfolding ◌>>=◌ ◌>>◌ login
  login-Stepped from_value params c =
      let w₁ = (px.get_encryption_key c.world).1 in
      let w₂ = (px.new_api_session none w₁).1 in
      let ready : ProtonCore px = record { state = c.state; world = (px.get_device_info w₂).1 } in
      let same : SameAccount c ready = record {
        same_user = refl;
        same_api = refl;
        same_marker = refl;
      } in
      elim (Result-cases (from_value params)) [
        | inl (e, refused) ↦ ground arith
        | inr (p, read) ↦ elim (Result-cases (px.new_api_session none w₁).0) [
          | inl (e, failed) ↦ ground arith
          | inr (session, opened) ↦
              let info = (px.get_device_info w₂).0 in
              let started =
                Stepped-from c ready (start_flow px p session info ready) same
                  (start_flow_lem p session info ready) in
              ground (arith, started)
        ]
      ]

  -- Each of the three calls that drive a login signs in with the flow consumed, or leaves a flow
  -- that waits for the next step and names its state; after an error, whichever it is, the account
  -- is as before.
  pub sign_in_steps :
      (from_value : Value → Result Text LoginParams) (params : Value) (c : ProtonCore px)
      → Stepped c (login px from_value params c)
        × Stepped c (submit_totp px params c)
        × Stepped c (submit_mailbox_password px params c)
  sign_in_steps from_value params c = (
    login-Stepped from_value params c,
    submit_totp-Stepped params c,
    submit_mailbox_password-Stepped params c,
  )

  abbrev pub Restored : ProtonCore px → Result Text Value × ProtonCore px → Type 0
  Restored c (ok v, c') =
      (c'.state.login_flow ≡ c.state.login_flow)
      × (SignedIn v c c' ⊎ (SameAccount c c' × (v ≡ state_only (codes "none"))))
  Restored c (err e, c') = (c'.state.login_flow ≡ c.state.login_flow) × SameAccount c c'

  Restored-of_Promoted :
      (c c' : ProtonCore px) (out : Result Text Value × ProtonCore px)
      → SameAccount c c'
      → c'.state.login_flow ≡ c.state.login_flow
      → Promoted c' out
      → Restored c out
  Restored-of_Promoted c c' (ok v, d) same kept p = (ground arith, inl (ground arith))
  Restored-of_Promoted c c' (err e, d) same kept p = ground arith

  -- A stored session is restored whole; without one, or after an error, the account is as before.
  -- A login that is under way is left alone.
  pub restore_session-Restored : (c : ProtonCore px) → Restored c (restore_session px c)
  unfolding ◌>>=◌ ◌>>◌ restore_session call
  restore_session-Restored c =
      let listed = px.get_authenticated_sessions c.world in
      elim (Result-cases listed.0) [
        | inl (x, failed) ↦ ground arith
        | inr (sessions, there) ↦ elim (Option-cases (first_session sessions)) [
          | inl empty ↦ ground arith
          | inr (session, first) ↦
              let ready : ProtonCore px = record { state = c.state; world = listed.1 } in
              let restored =
                Restored-of_Promoted c ready (promote px session ready)
                  (record { same_user = refl; same_api = refl; same_marker = refl }) refl
                  (promote_lem session ready) in
              ground (arith, restored)
        ]
      ]
