-- ===== src/Proton/Dispatch/Answers.antt =====
-- proton-core/src/lib.rs, `dispatch`: what each method answers, as a caller reads it.
pub mod SignIn
pub mod Listed
pub mod Bodily
pub mod Typed
use aerogram.Prelude.{◌≡◌, true, [], ◌∷◌, Text, codes}
use aerogram.Json.Shapes.{
  Shape, text, amount, flag, one_of, list_of, either, record_of, no_more, needs, may, fits,
}
use aerogram.Json.{Value}
use aerogram.Proton.Dispatch.{Method}

abbrev pub Fits : Shape → Value → Type 0
Fits s v = fits s v ≡ true

abbrev pub words : Text → Shape
words t = one_of (t ∷ [])

-- The account is signed in, with its address.
abbrev pub signed_shape : Shape
signed_shape =
    record_of (needs (codes "state") (words (codes "ok")) (needs (codes "addr") text no_more))

-- A login waits for a factor.
abbrev pub waiting_shape : Shape
waiting_shape =
    record_of
      (needs (codes "state") (one_of (codes "totp" ∷ codes "mailbox_password" ∷ [])) no_more)

-- A label, with counters if they could be had.
abbrev pub label_shape : Shape
label_shape = record_of (
    needs (codes "id") text (
      needs (codes "name") text (may (codes "total") amount (may (codes "unread") amount no_more))))

abbrev pub message_shape : Shape
message_shape = record_of (
    needs (codes "id") text (
      needs (codes "remote_id") text (
        needs (codes "subject") text (
          needs (codes "sender_name") text (
            needs (codes "sender_addr") text (
              needs (codes "time") amount (
                needs (codes "unread") flag (
                  needs (codes "attachments") amount
                    (needs (codes "labels") (list_of text) no_more)))))))))

abbrev pub page_shape : Shape
page_shape =
    record_of
      (needs (codes "messages") (list_of message_shape) (needs (codes "total") amount no_more))

abbrev pub attachment_shape : Shape
attachment_shape = record_of (
    needs (codes "id") text
      (needs (codes "name") text (needs (codes "mime") text (needs (codes "size") amount no_more))))

abbrev pub timings_shape : Shape
timings_shape = record_of (
    needs (codes "get_message_ms") amount (
      needs (codes "unlock_keys_ms") amount (
        needs (codes "decrypt_ms") amount (
          needs (codes "sanitize_ms") amount
            (needs (codes "total_ms") amount (needs (codes "raw_bytes") amount no_more))))))

abbrev pub body_shape : Shape
body_shape = record_of (
    needs (codes "text") text (
      needs (codes "html") text (
        needs (codes "blocked_remote") flag (
          needs (codes "mime_type") text (
            needs (codes "header") text (
              needs (codes "attachments") (list_of attachment_shape)
                (needs (codes "timings") timings_shape no_more)))))))

abbrev pub bytes_shape : Shape
bytes_shape = record_of (needs (codes "bytes_base64") text (needs (codes "name") text no_more))

abbrev pub answer_shape : Method → Shape
answer_shape Method.ping = words (codes "pong")
answer_shape Method.login = either signed_shape waiting_shape
answer_shape Method.submit_totp = either signed_shape waiting_shape
answer_shape Method.submit_mailbox_password = either signed_shape waiting_shape
answer_shape Method.restore_session =
    either signed_shape (record_of (needs (codes "state") (words (codes "none")) no_more))
answer_shape Method.account_info = record_of (needs (codes "email") text no_more)
answer_shape Method.list_labels = list_of label_shape
answer_shape Method.list_messages = page_shape
answer_shape Method.message_body = body_shape
answer_shape Method.get_attachment = bytes_shape
answer_shape Method.wait_event = list_of (words (codes "messages"))
