-- ===== src/Proton/Auth.antt =====
-- proton-core/src/lib.rs, the calls that log in: `login`, `submit_totp`, `submit_mailbox_password`,
-- `finish_login` and `restore_session`; and `account_info`.
pub mod SignIn
pub mod Account
use aerogram.Prelude.{
  Option, none, some, List, [], ◌∷◌, ◌++◌, if◌then◌else◌, Text, codes, text_eq, Result, ok, err,
  ok_or, map_err, map_ok,
}
use aerogram.Json.{Value, string, object, field, end, get_str}
use aerogram.Proton.Core.{
  Action, ◌>>=◌, ◌>>◌, pure, lift, ProtonApi, ProtonCore, call, api, user_ctx, account_email,
}

-- `#[derive(Deserialize)]`: both fields are strings, or serde's message.
pub record LoginParams : Type 0 where
  pub user : Text
  pub password : Text

-- `json!({ "state": … })`, alone and with the address.
abbrev pub state_only : Text → Value
state_only st = object (field (codes "state") (string st) end)

abbrev pub state_addr : Text → Text → Value
state_addr st addr =
    object (field (codes "state") (string st) (field (codes "addr") (string addr) end))

-- `next()` on the sessions.
abbrev pub first_session : {S : Type 0} → List S → Option S
first_session [] = none
first_session (s ∷ ss) = some s

module _ (px : ProtonApi) where
  open px use {World, Session, LoginFlow, UserCtx, ApiSession}

  unfoldable pub flow_state : LoginFlow → Text
  flow_state flow =
      if px.is_awaiting_2fa flow
      then codes "totp"
      else if px.is_awaiting_mailbox_password flow
      then codes "mailbox_password"
      else codes "ok"

  -- The user context and the api session are set under one lock.
  unfoldable pub set_account : UserCtx → ApiSession → ProtonCore px → ProtonCore px
  set_account user api c = record c {
    state = record (c.state) { user_ctx = some user; api = some api };
  }

  -- The end that a login and a restored session share: the user context, the api session, the
  -- address, and both set at once.
  unfoldable pub promote : Session → Action (ProtonCore px) Value
  unfolding call account_email set_account
  promote session = do
    user ← call (codes "user_context_from_session") (px.user_context_from_session session)
    api ← call (codes "new_api_session") (px.new_api_session (some session))
    λ c.
        let (addr, c') = account_email user c in
        (ok (state_addr (codes "ok") addr), set_account user api c')

  -- `login_flow.take()`
  unfoldable pub take_flow : Action (ProtonCore px) (Option LoginFlow)
  take_flow c = (ok c.state.login_flow, record c { state = record (c.state) { login_flow = none } })

  unfoldable pub finish_login : Action (ProtonCore px) Value
  unfolding take_flow call
  finish_login = do
    taken ← take_flow
    flow ← lift (ok_or taken (codes "no login flow in progress"))
    sessions ← call (codes "get_authenticated_sessions") px.get_authenticated_sessions
    session ← lift (ok_or (first_session sessions) (codes "no session after login"))
    promote session

  -- What every step of a login ends with.
  unfoldable pub answer : Text → Action (ProtonCore px) Value
  answer st = if text_eq st (codes "ok") then finish_login else pure (state_only st)

  -- A flow is driven in place: what the call made of it stays, if it fails too.
  unfoldable pub with_flow :
      Text → Action (LoginFlow × World) (Unit {0}) → Action (ProtonCore px) (Unit {0})
  with_flow what m c = elim c.state.login_flow [
    | none ↦ (err (codes "no login flow in progress"), c)
    | some flow ↦
        let (r, after) = m (flow, c.world) in
        (
          map_err (λ e. what ++ codes ": " ++ e) r,
          record c { state = record (c.state) { login_flow = some after.0 }; world = after.1 },
        )
  ]

  -- The state of the stored flow, read under the lock a second time.
  unfoldable pub stored_flow_state : Action (ProtonCore px) Text
  unfolding flow_state
  stored_flow_state c = (map_ok flow_state (ok_or c.state.login_flow (codes "login flow lost")), c)

  -- What both factors do once they have their parameter.
  unfoldable pub drive : Text → Action (LoginFlow × World) (Unit {0}) → Action (ProtonCore px) Value
  unfolding with_flow stored_flow_state
  drive what m = do with_flow what m; st ← stored_flow_state; answer st

  unfoldable pub submit_totp : Value → Action (ProtonCore px) Value
  submit_totp params = do
    code ← lift (ok_or (get_str (codes "code") params) (codes "missing code"))
    drive (codes "submit_totp") (px.flow_submit_totp code)

  unfoldable pub submit_mailbox_password : Value → Action (ProtonCore px) Value
  submit_mailbox_password params = do
    password ← lift (ok_or (get_str (codes "password") params) (codes "missing password"))
    drive (codes "submit_mailbox_password") (px.flow_submit_mailbox_password password)

  unfoldable pub device_info : ProtonCore px → Result Text (px.DeviceInfo) × ProtonCore px
  device_info c = let (info, w) = px.get_device_info c.world in (ok info, record c { world = w })

  unfoldable pub store_flow : LoginFlow → ProtonCore px → ProtonCore px
  store_flow flow c = record c { state = record (c.state) { login_flow = some flow } }

  -- A new flow is driven by the credentials, and stored once they are accepted.
  unfoldable pub start_flow :
      LoginParams → ApiSession → px.DeviceInfo → Action (ProtonCore px) Value
  unfolding store_flow
  start_flow p session info c =
      let flow = px.new_login_flow session (px.get_client_id c.world) info in
      let (r, after) = px.login_with_credentials p.user p.password (flow, c.world) in
      elim r [
        | err e ↦ (err (codes "login: " ++ e), record c { world = after.1 })
        | ok _ ↦ answer (flow_state after.0) (store_flow after.0 (record c { world = after.1 }))
      ]

  -- `from_value::<LoginParams>`; serde's message is a parameter.
  unfoldable pub login : (Value → Result Text LoginParams) → Value → Action (ProtonCore px) Value
  unfolding call device_info
  login from_value params = do
    p ← lift (map_err (λ e. codes "login params: " ++ e) (from_value params))
    call (codes "encryption key") px.get_encryption_key
    session ← call (codes "new_api_session") (px.new_api_session none)
    info ← device_info
    start_flow p session info

  -- No stored session is an answer, not an error.
  unfoldable pub restore_session : Action (ProtonCore px) Value
  unfolding call
  restore_session = do
    sessions ← call (codes "get_authenticated_sessions") px.get_authenticated_sessions
    elim (first_session sessions) [
      | none ↦ pure (state_only (codes "none"))
      | some session ↦ promote session
    ]

  unfoldable pub account_info : Action (ProtonCore px) Value
  unfolding user_ctx account_email
  account_info = do
    ctx ← user_ctx
    λ c.
        let (email, c') = account_email ctx c in
        (ok (object (field (codes "email") (string email) end)), c')
