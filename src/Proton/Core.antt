-- ===== src/Proton/Core.antt =====
-- proton-core/src/lib.rs, `CoreState` and `ProtonCore`, with Proton's crates as a parameter. A call
-- runs by itself: no other call of the same core comes between its steps.
pub mod Outcomes
pub mod Yields
use aerogram.Prelude.{
  ℕ, Bool, Option, List, [], ◌++◌, Text, Bytes, codes, Result, ok, err, ok_or, map_err, unwrap_or,
}

-- A fallible action on a state; what it did to the state before an error stays.
abbrev pub Action : Type 0 → Type 0 → Type 0
Action S A = S → Result Text A × S

infixl 5 ◌>>=◌ ◌>>◌
unfoldable pub ◌>>=◌ : {S A B : Type 0} → Action S A → (A → Action S B) → Action S B
◌>>=◌ m f s = let (r, s') = m s in elim r [ ok a ↦ f a s' | err e ↦ (err e, s') ]

unfoldable pub ◌>>◌ : {S B : Type 0} → Action S (Unit {0}) → Action S B → Action S B
unfolding ◌>>=◌
m >> k = m >>= λ _. k

abbrev pub pure : {S A : Type 0} → A → Action S A
pure a s = (ok a, s)

-- A `Result` under `?`.
abbrev pub lift : {S A : Type 0} → Result Text A → Action S A
lift r s = (r, s)

pub data LabelType : Type 0 where
  label folder : LabelType

pub record Label : Type 0 where
  pub id : Text
  pub name : Text

pub record LabelCount : Type 0 where
  pub label_id : Text
  pub total : ℕ
  pub unread : ℕ

-- The fields of `GetMessagesOptions` that the crate sets.
pub record GetMessagesOptions : Type 0 where
  pub label_id : List Text
  pub page : ℕ
  pub page_size : ℕ

pub record MessageMetadata : Type 0 where
  pub id : Text
  pub address_id : Text
  pub subject : Text
  pub sender_name : Text
  pub sender_addr : Text
  pub time : ℕ
  pub unread : Bool
  pub num_attachments : ℕ
  pub label_ids : List Text

pub record MessagesResponse : Type 0 where
  pub total : ℕ
  pub messages : List MessageMetadata

pub record Attachment : Type 0 where
  pub id : Text
  pub name : Text
  pub mime_type : Text
  pub size : ℕ

-- The type of the content as `{:?}` prints it.
pub record MessageBody : Type 0 where
  pub body : Text
  pub mime_type : Text
  pub header : Text
  pub attachments : List Attachment

pub record Message : Type 0 where
  pub metadata : MessageMetadata
  pub body : MessageBody

pub record LeanMessage : Type 0 where
  pub id : Text
  pub body : Bytes
  pub is_mime : Bool

pub record LeanAttachment (KeyPackets Signature EncSignature : Type 0) : Type 0 where
  pub key_packets : KeyPackets
  pub signature : Option Signature
  pub enc_signature : Option EncSignature

pub record AttachmentMetadata (KeyPackets Signature EncSignature : Type 0) : Type 0 where
  pub address_id : Text
  pub name : Text
  pub key_packets : KeyPackets
  pub signature : Option Signature
  pub enc_signature : Option EncSignature

-- Proton's crates and the world behind them. An error is the text that `{e:?}` prints.
pub record ProtonApi : Type 1 where
  pub World : Type 0
  pub Session : Type 0
  pub UserCtx : Type 0
  pub ApiSession : Type 0
  pub DeviceInfo : Type 0
  pub LoginFlow : Type 0
  pub get_encryption_key : Action World (Unit {0})
  pub get_authenticated_sessions : Action World (List Session)
  pub user_context_from_session : Session → Action World UserCtx
  pub new_api_session : Option Session → Action World ApiSession
  pub get_device_info : World → DeviceInfo × World
  pub get_client_id : World → Text
  pub new_login_flow : ApiSession → Text → DeviceInfo → LoginFlow
  pub login_with_credentials : Text → Text → Action (LoginFlow × World) (Unit {0})
  pub flow_submit_totp : Text → Action (LoginFlow × World) (Unit {0})
  pub flow_submit_mailbox_password : Text → Action (LoginFlow × World) (Unit {0})
  pub is_awaiting_2fa : LoginFlow → Bool
  pub is_awaiting_mailbox_password : LoginFlow → Bool
  -- `get_account(uctx.user_id())`, and `name_or_addr` of the record
  pub get_account_name : UserCtx → Action World (Option Text)
  pub get_events_latest : ApiSession → Action World Text
  pub get_labels : LabelType → ApiSession → Action World (List Label)
  pub get_messages_count_for_labels : List Text → ApiSession → Action World (List LabelCount)
  pub get_messages : GetMessagesOptions → ApiSession → Action World MessagesResponse
  -- the keys of an address, and what they open
  pub Tether : Type 0
  pub AddressKeys : Type 0
  pub RawBody : Type 0
  pub KeyPackets : Type 0
  pub Signature : Type 0
  pub EncSignature : Type 0
  pub get_message : Text → ApiSession → Action World Message
  pub connection : UserCtx → Action World Tether
  pub unlocked_address_keys : UserCtx → Tether → ApiSession → Text → Action World AddressKeys
  pub decrypt : AddressKeys → LeanMessage → Result Text RawBody
  -- `processed_body`, and `into_string` of it
  pub processed_body : RawBody → Result Text Text
  pub get_attachment_metadata :
      Text → ApiSession → Action World (AttachmentMetadata KeyPackets Signature EncSignature)
  pub get_attachment : Text → ApiSession → Action World Bytes
  -- by the keys for the content, those for its signature, and the encrypted bytes
  pub decrypt_attachment :
      AddressKeys
      → AddressKeys
      → LeanAttachment KeyPackets Signature EncSignature
      → Bytes
      → Result Text Bytes
  -- a look at the clock in nanoseconds, and the world after it
  pub instant : World → ℕ × World
  -- `Instant::now()` in milliseconds, and `sleep`
  pub now : World → ℕ
  pub sleep : ℕ → World → World

module _ (px : ProtonApi) where
  open px use {World, LoginFlow, UserCtx, ApiSession}

  pub record CoreState : Type 0 where
    pub login_flow : Option LoginFlow
    pub user_ctx : Option UserCtx
    pub api : Option ApiSession
    pub last_event_id : Option Text

  -- The state behind the mutex, and the world that the context reaches.
  pub record ProtonCore : Type 0 where
    pub state : CoreState
    pub world : World

module _ {px : ProtonApi} where
  open px use {World, UserCtx, ApiSession}

  -- `.map_err(|e| format!("what: {e:?}"))?`
  unfoldable pub call : {A : Type 0} → Text → Action World A → Action (ProtonCore px) A
  call what m c =
      let (r, w) = m c.world in (map_err (λ e. what ++ codes ": " ++ e) r, record c { world = w })

  unfoldable pub api : Action (ProtonCore px) ApiSession
  api c = (ok_or c.state.api (codes "not logged in"), c)

  unfoldable pub user_ctx : Action (ProtonCore px) UserCtx
  user_ctx c = (ok_or c.state.user_ctx (codes "not logged in"), c)

  -- `.await.ok().flatten().map(…).unwrap_or_default()`: an error is an empty address.
  unfoldable pub account_email : UserCtx → ProtonCore px → Text × ProtonCore px
  account_email u c =
      let (r, w) = px.get_account_name u c.world in
      (elim r [ ok name ↦ unwrap_or name [] | err _ ↦ [] ], record c { world = w })

  -- `.map_err(…)?` on a call that touches nothing.
  unfoldable pub pure_call : {A : Type 0} → Text → Result Text A → Action (ProtonCore px) A
  pure_call what r c = (map_err (λ e. what ++ codes ": " ++ e) r, c)

  unfoldable pub instant : Action (ProtonCore px) ℕ
  instant c = let (t, w) = px.instant c.world in (ok t, record c { world = w })
