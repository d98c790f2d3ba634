-- ===== src/Proton/Dispatch/Answers/Bodily.antt =====
-- What a body and an attachment answer.
use aerogram.Prelude.{refl, Text, Bytes, ℕ, Result}
use aerogram.Html.Stream.{RewriterApi}
use aerogram.Json.{Value}
use aerogram.Json.Shapes.{fits}
use aerogram.Proton.Core.{ProtonApi, ProtonCore, Message}
use aerogram.Proton.Core.Yields.{Yields, Yields-step}
use aerogram.Proton.Bodies.{
  Stages, attachment_row, body_answer, timings, message_body, get_attachment,
}
use aerogram.Proton.Dispatch.{Method}
use aerogram.Proton.Dispatch.Answers.{
  answer_shape, body_shape, attachment_shape, timings_shape, Fits,
}
use aerogram.Proton.Dispatch.Answers.Listed.{maps_fit}

timings-Fits : (t : Stages) (body_text : Text) → Fits timings_shape (timings t body_text)
unfolding timings fits
timings-Fits t body_text = refl

module _ (html : RewriterApi) (from_read : Bytes → ℕ → Result Text Text) where
  body_answer-Fits :
      (m : Message) (body_text : Text) (t : Stages)
      → Fits body_shape (body_answer html from_read m body_text t)
  unfolding body_answer timings fits
  body_answer-Fits m body_text t =
      rw (maps_fit attachment_shape attachment_row (λ a. refl) m.body.attachments) refl

  pub message_body-Yields :
      (px : ProtonApi) (params : Value) (c : ProtonCore px)
      → Yields (Fits (answer_shape Method.message_body)) (message_body html from_read px params) c
  unfolding message_body
  message_body-Yields px params c = Yields-step _ _ λ start c₁ _. Yields-step _ _ λ id c₂ _.
      Yields-step _ _ λ session c₃ _. Yields-step _ _ λ uctx c₄ _. Yields-step _ _ λ full c₅ _.
        Yields-step _ _ λ got c₆ _. Yields-step _ _ λ tether c₇ _.
          Yields-step _ _ λ address_keys c₈ _. Yields-step _ _ λ keys c₉ _.
            Yields-step _ _ λ raw d _. Yields-step _ _ λ body_text d₁ _. Yields-step _ _ λ dec d₂ _.
              Yields-step _ _ λ san d₃ _. record { yielded = body_answer-Fits full body_text _ }

module _ (px : ProtonApi) where
  pub get_attachment-Yields :
      (params : Value) (c : ProtonCore px)
      → Yields (Fits (answer_shape Method.get_attachment)) (get_attachment px params) c
  unfolding get_attachment fits
  get_attachment-Yields params c = Yields-step _ _ λ id c₁ _. Yields-step _ _ λ session c₂ _.
      Yields-step _ _ λ uctx c₃ _. Yields-step _ _ λ meta c₄ _. Yields-step _ _ λ bytes c₅ _.
        Yields-step _ _ λ tether c₆ _.
          Yields-step _ _ λ keys c₇ _. Yields-step _ _ λ decrypted c₈ _. record { yielded = refl }
