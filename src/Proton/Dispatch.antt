-- ===== src/Proton/Dispatch.antt =====
-- proton-core/src/lib.rs, `dispatch`: a method by its name. `none` means that the fuel of the one
-- loop, that of `wait_event`, ran out.
pub mod Frame
pub mod Reached
pub mod Answers
pub mod Tests
use aerogram.Prelude.{
  ℕ, Option, none, some, List, [], ◌∷◌, ◌++◌, if◌then◌else◌, Text, Bytes, codes, text_eq, Result,
  ok, err,
}
use aerogram.Html.Stream.{RewriterApi}
use aerogram.Json.{Value, string}
use aerogram.Proton.Core.{ProtonApi, ProtonCore}
use aerogram.Proton.Auth
use aerogram.Proton.Auth.{LoginParams}
use aerogram.Proton.Labels
use aerogram.Proton.Bodies
use aerogram.Proton.Events

pub data Method : Type 0 where
  ping login submit_totp submit_mailbox_password restore_session account_info : Method
  list_labels list_messages message_body get_attachment wait_event : Method

abbrev pub method_names : List (Text × Method)
method_names =
    (codes "ping", Method.ping)
    ∷ (codes "login", Method.login)
    ∷ (codes "submit_totp", Method.submit_totp)
    ∷ (codes "submit_mailbox_password", Method.submit_mailbox_password)
    ∷ (codes "restore_session", Method.restore_session)
    ∷ (codes "account_info", Method.account_info)
    ∷ (codes "list_labels", Method.list_labels)
    ∷ (codes "list_messages", Method.list_messages)
    ∷ (codes "message_body", Method.message_body)
    ∷ (codes "get_attachment", Method.get_attachment)
    ∷ (codes "wait_event", Method.wait_event)
    ∷ []

-- The arms are tried in order.
abbrev pub first_arm : Text → List (Text × Method) → Option Method
first_arm name [] = none
first_arm name ((arm, m) ∷ arms) = if text_eq name arm then some m else first_arm name arms

-- What the core needs from outside: the sanitizer's two crates, serde's reading of the login
-- parameters, and Proton's crates.
module _ (html : RewriterApi) (from_read : Bytes → ℕ → Result Text Text)
    (from_value : Value → Result Text LoginParams) (px : ProtonApi) where
  unfoldable pub run_method :
      ℕ → Method → Value → ProtonCore px → Option (Result Text Value × ProtonCore px)
  run_method fuel Method.ping params c = some (ok (string (codes "pong")), c)
  run_method fuel Method.login params c = some (Auth.login px from_value params c)
  run_method fuel Method.submit_totp params c = some (Auth.submit_totp px params c)
  run_method fuel Method.submit_mailbox_password params c =
      some (Auth.submit_mailbox_password px params c)
  run_method fuel Method.restore_session params c = some (Auth.restore_session px c)
  run_method fuel Method.account_info params c = some (Auth.account_info px c)
  run_method fuel Method.list_labels params c = some (Labels.list_labels px params c)
  run_method fuel Method.list_messages params c = some (Labels.list_messages px params c)
  run_method fuel Method.message_body params c =
      some (Bodies.message_body html from_read px params c)
  run_method fuel Method.get_attachment params c = some (Bodies.get_attachment px params c)
  run_method fuel Method.wait_event params c = Events.wait_event px fuel params c

  unfoldable pub dispatch :
      ℕ → Text → Value → ProtonCore px → Option (Result Text Value × ProtonCore px)
  unfolding run_method
  dispatch fuel name params c = elim (first_arm name method_names) [
    | none ↦ some (err (codes "unknown method: " ++ name), c)
    | some m ↦ run_method fuel m params c
  ]
