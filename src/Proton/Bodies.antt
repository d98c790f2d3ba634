-- ===== src/Proton/Bodies.antt =====
-- proton-core/src/lib.rs, `message_body` and `get_attachment`, with the sanitizer of
-- html-sanitize-core that the first one calls.
pub mod Shown
pub mod Timings
pub mod Attached
pub mod Tests
use aerogram.Prelude.{
  ℕ, ◌-◌, ◌/◌, Bool, false, [], map, if◌then◌else◌, length, Text, Bytes, codes, text_eq, Result,
  ok_or,
}
use aerogram.Prelude.Utf8.{as_bytes}
use aerogram.Html.Stream.{RewriterApi, sanitize_for_display}
use aerogram.Json.{Value, bool, number, string, array, object, field, end, get_str}
use aerogram.Proton.Core.{
  Action, ◌>>=◌, ◌>>◌, lift, pure, ProtonApi, ProtonCore, call, api, user_ctx, pure_call, instant,
  Attachment, Message, LeanMessage, LeanAttachment, AttachmentMetadata,
}
use aerogram.Proton.Base64.{base64_encode}
use aerogram.Proton.Labels.{to_values}

unfoldable pub lean_message : Message → LeanMessage
lean_message m = record {
  id = m.metadata.id;
  body = as_bytes m.body.body;
  is_mime = text_eq m.body.mime_type (codes "MultipartMixed");
}

abbrev pub attachment_row : Attachment → Value
attachment_row a = object (
    field (codes "id") (string a.id) (
      field (codes "name") (string a.name)
        (field (codes "mime") (string a.mime_type) (field (codes "size") (number a.size) end))))

-- `(b - a).as_millis()` of two looks at the clock.
abbrev pub as_millis : ℕ → ℕ → ℕ
as_millis a b = (b - a) / 1_000_000

-- When the stages of a call ended.
pub record Stages : Type 0 where
  pub start : ℕ
  pub got : ℕ
  pub keys : ℕ
  pub dec : ℕ
  pub san : ℕ

unfoldable pub timings : Stages → Text → Value
timings t body_text = object (
    field (codes "get_message_ms") (number (as_millis t.start t.got)) (
      field (codes "unlock_keys_ms") (number (as_millis t.got t.keys)) (
        field (codes "decrypt_ms") (number (as_millis t.keys t.dec)) (
          field (codes "sanitize_ms") (number (as_millis t.dec t.san)) (
            field (codes "total_ms") (number (as_millis t.start t.san))
              (field (codes "raw_bytes") (number (length (as_bytes body_text))) end))))))

-- The text, the HTML, and whether remote content was blocked.
module _ (html : RewriterApi) (from_read : Bytes → ℕ → Result Text Text) where
  unfoldable pub shown : Text → Text → Text × Text × Bool
  shown mime_type body_text =
      if text_eq mime_type (codes "TextHtml")
      then (let (h, p, b) = sanitize_for_display html from_read body_text in (p, h, b))
      else (body_text, [], false)

  unfoldable pub body_answer : Message → Text → Stages → Value
  unfolding shown timings
  body_answer m body_text t =
      let (text, clean, blocked_remote) = shown m.body.mime_type body_text in
      object (
        field (codes "text") (string text) (
          field (codes "html") (string clean) (
            field (codes "blocked_remote") (bool blocked_remote) (
              field (codes "mime_type") (string m.body.mime_type) (
                field (codes "header") (string m.body.header) (
                  field (codes "attachments")
                    (array (to_values (map attachment_row m.body.attachments)))
                    (field (codes "timings") (timings t body_text) end)))))))

  module _ (px : ProtonApi) where
    -- The clock is read when the call starts and after every stage.
    unfoldable pub message_body : Value → Action (ProtonCore px) Value
    message_body params = do
      start ← instant
      id ← lift (ok_or (get_str (codes "id") params) (codes "missing id"))
      session ← api
      uctx ← user_ctx
      full ← call (codes "get_message") (px.get_message id session)
      got ← instant
      tether ← call (codes "stash connection") (px.connection uctx)
      address_keys ←
          call (codes "unlock address keys")
            (px.unlocked_address_keys uctx tether session full.metadata.address_id)
      keys ← instant
      raw ← pure_call (codes "decrypt") (px.decrypt address_keys (lean_message full))
      body_text ← pure_call (codes "processed_body") (px.processed_body raw)
      dec ← instant
      san ← instant
      pure (
          body_answer full body_text
            (record { start = start; got = got; keys = keys; dec = dec; san = san }))

module _ (px : ProtonApi) where
  open px use {KeyPackets, Signature, EncSignature}

  unfoldable pub lean_attachment :
      AttachmentMetadata KeyPackets Signature EncSignature
      → LeanAttachment KeyPackets Signature EncSignature
  lean_attachment meta = record {
    key_packets = meta.key_packets;
    signature = meta.signature;
    enc_signature = meta.enc_signature;
  }

  unfoldable pub get_attachment : Value → Action (ProtonCore px) Value
  get_attachment params = do
    id ← lift (ok_or (get_str (codes "id") params) (codes "missing attachment id"))
    session ← api
    uctx ← user_ctx
    meta ← call (codes "get_attachment_metadata") (px.get_attachment_metadata id session)
    bytes ← call (codes "get_attachment") (px.get_attachment id session)
    tether ← call (codes "stash connection") (px.connection uctx)
    keys ←
        call (codes "unlock address keys")
          (px.unlocked_address_keys uctx tether session meta.address_id)
    decrypted ←
        pure_call (codes "attachment decrypt")
          (px.decrypt_attachment keys keys (lean_attachment meta) bytes)
    pure (
        object (
          field (codes "bytes_base64") (string (base64_encode decrypted))
            (field (codes "name") (string meta.name) end)))
