-- ===== src/Probes/Spike.antt =====
-- proton-core/src/bin/lean_spike.rs: its own keychain, which holds the directory as the crate's
-- does, and `main` from the context on.
pub mod Keys
pub mod Context
pub mod Opened
pub mod Tests
use aerogram.Prelude.{
  List, [], ◌∷◌, Text, codes, text_eq, ok_or, Option, none, some, not, if◌then◌else◌, Bytes, Result,
  ok, map_ok,
}
use aerogram.Prelude.Utf8.{as_bytes}
use aerogram.Proton.Core.{
  Action, ◌>>=◌, lift, pure, ProtonApi, Message, MessageMetadata, LeanMessage,
}
use aerogram.Proton.Auth.{first_session}
use aerogram.Probes.Attach.{head_bytes}
use aerogram.Proton.KeyChain.{
  KeyChainEntryKind, KeyChainError, FileSystem, FileKeyChain, path, exists, fs_write, remove_file,
  read_to_string,
}

-- The directory is there, so that `create_dir_all` does nothing.
unfoldable pub store_entry :
    FileKeyChain
    → KeyChainEntryKind
    → Bytes
    → FileSystem
    → Result KeyChainError (Unit {0}) × FileSystem
unfolding fs_write
store_entry chain kind key fs = fs_write (path chain kind) key fs

-- `let _ = remove_file(…)`
unfoldable pub delete_entry :
    FileKeyChain → KeyChainEntryKind → FileSystem → Result KeyChainError (Unit {0}) × FileSystem
unfolding remove_file
delete_entry chain kind fs = let (_, fs') = remove_file (path chain kind) fs in (ok tt, fs')

unfoldable pub load_entry :
    FileKeyChain → KeyChainEntryKind → FileSystem → Result KeyChainError (Option Bytes)
unfolding read_to_string
load_entry chain kind fs =
    if not (exists (path chain kind) fs)
    then ok none
    else map_ok some (read_to_string (path chain kind) fs)

unfoldable pub spike_msg : Text → Message → LeanMessage
spike_msg msg_id full = record {
  id = msg_id;
  body = as_bytes full.body.body;
  is_mime = text_eq full.body.mime_type (codes "MultipartMixed");
}

abbrev pub first_message : List MessageMetadata → Option MessageMetadata
first_message [] = none
first_message (m ∷ ms) = some m

-- What is printed: the id, the subject, and the start of the text, where none is the panic of a cut
-- character.
pub record Printout : Type 0 where
  pub msg_id : Text
  pub subject : Text
  pub start : Option Text

module _ (px : ProtonApi) {Address : Type 0}
    (find_valid_sender_address : px.UserCtx → Action px.World (Option Address)) where
  unfoldable pub lean_spike : Action px.World Printout
  lean_spike = do
    sessions ← px.get_authenticated_sessions
    session ← lift (ok_or (first_session sessions) (codes "no stored session"))
    user_ctx ← px.user_context_from_session session
    api ← px.new_api_session (some session)
    list ← px.get_messages (record { label_id = codes "0" ∷ []; page = 0; page_size = 1 }) api
    first ← lift (ok_or (first_message list.messages) (codes "inbox empty"))
    full ← px.get_message first.id api
    tether ← px.connection user_ctx
    addr ← find_valid_sender_address user_ctx
    _ ← lift (ok_or addr (codes "no sender address"))
    keys ← px.unlocked_address_keys user_ctx tether api full.metadata.address_id
    raw ← lift (px.decrypt keys (spike_msg first.id full))
    text ← lift (px.processed_body raw)
    pure
        (record { msg_id = first.id; subject = full.metadata.subject; start = head_bytes 200 text })
