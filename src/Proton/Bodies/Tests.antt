-- ===== src/Proton/Bodies/Tests.antt =====
-- Bodies and attachments in the small world, and their theorems there.
use aerogram.Prelude.{
  ◌*◌, ◌<◌, ◌≡◌, refl, ap, some, [], ◌∷◌, arith, All, Text, Bytes, codes, Result, ok, err,
}
use aerogram.Prelude.Utf8.{as_bytes, from_utf8_lossy}
use aerogram.Html.Stream.{new, write, finish, sanitize_for_display}
use aerogram.Html.Stream.Tests.{dropper, no_html2text}
use mathlib.Core.Path.{subst}
use aerogram.Proton.Base64.{base64_encode}
use aerogram.Json.{Value, get_str, null}
use aerogram.Proton.Core.{ProtonCore, ◌>>=◌, call, api, user_ctx, pure_call, instant}
use aerogram.Proton.Core.Outcomes.{Kept}
use aerogram.Proton.Mock.{mock, fresh, signed_in, text_param}
use aerogram.Proton.Bodies.{message_body, get_attachment, shown, body_answer, lean_message}
use aerogram.Proton.Bodies.Shown.{Answered, message_body-Answered}
use aerogram.Proton.Bodies.Timings.{IsMonotone, Timed, message_body-IsAccounted}
use aerogram.Proton.Bodies.Attached.{Attached, GivesBytes, get_attachment-Attached}

abbrev params : Value
params = text_param (codes "id") (codes "m1")

abbrev answer_of : Result Text Value × ProtonCore mock → Value
answer_of (ok v, c) = v
answer_of (err e, c) = null

abbrev opened : Result Text Value × ProtonCore mock
opened = message_body dropper no_html2text mock params signed_in

shows_clean : get_str (codes "html") (answer_of opened) ≡ some (codes "ab")
unfolding message_body ◌>>=◌ call api user_ctx pure_call instant body_answer shown
    sanitize_for_display new write finish as_bytes from_utf8_lossy lean_message
shows_clean = refl

refuses_unknown :
    message_body dropper no_html2text mock params fresh ≡ (err (codes "not logged in"), fresh)
unfolding message_body ◌>>=◌ api instant
refuses_unknown = refl

message_body-Answered_example :
    Kept signed_in.state (Answered dropper no_html2text mock params signed_in.state) opened
message_body-Answered_example = message_body-Answered dropper no_html2text mock params signed_in

forward : IsMonotone mock
forward = record {
  time = λ w. w * 1_000_000;
  before = λ w. omega arith;
  after = λ w. omega arith;
  getting = λ id s w. omega arith;
  joining = λ u w. omega arith;
  unlocking = λ u t s a w. omega arith;
}

message_body-IsAccounted_example : Kept signed_in.state (Timed dropper no_html2text mock) opened
message_body-IsAccounted_example =
    message_body-IsAccounted dropper no_html2text mock forward params signed_in

abbrev content_or_none : Result Text Bytes → Bytes
content_or_none (ok bytes) = bytes
content_or_none (err e) = []

pub gives_bytes : GivesBytes mock
gives_bytes keys a bytes content e =
    subst (All (λ b. b < 256)) (ap content_or_none e)
      (let small : All (λ b. b < 256) (1 ∷ 2 ∷ 3 ∷ 4 ∷ []) = omega arith in small)

encoded :
    get_str (codes "bytes_base64") (answer_of (get_attachment mock params signed_in))
    ≡ some (codes "AQIDBA==")
unfolding get_attachment ◌>>=◌ call api user_ctx pure_call base64_encode
encoded = refl

get_attachment-Attached_example :
    Kept signed_in.state
      (Attached mock params signed_in.state)
      (get_attachment mock params signed_in)
get_attachment-Attached_example = get_attachment-Attached mock gives_bytes params signed_in
