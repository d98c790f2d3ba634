-- ===== src/Proton/Bodies/Shown.antt =====
-- What `message_body` answers.
use aerogram.Prelude.{
  ℕ, ◌≡◌, refl, ap, true, false, some, [], map, Text, Bytes, codes, text_eq, Result, ok,
}
use aerogram.Html.Stream.{RewriterApi, sanitize_for_display}
use aerogram.Json.{Value, bool, array, get, get_str}
use aerogram.Proton.Core.{ProtonApi, CoreState, ProtonCore, Message}
use aerogram.Proton.Core.Outcomes.{
  Kept, Keeps, Keeps-pure, Keeps-ok_or, Keeps-call, Keeps-pure_call, Keeps-api, Keeps-user_ctx,
  Keeps-instant,
}
use aerogram.Proton.Labels.{to_values}
use aerogram.Proton.Bodies.{lean_message, attachment_row, Stages, shown, body_answer, message_body}

module _ (html : RewriterApi) (from_read : Bytes → ℕ → Result Text Text) (px : ProtonApi) where
  -- The message that the server gave for an id, and what its own address's keys make of it.
  pub record Opened (session : px.ApiSession) (user : px.UserCtx) (id : Text) (m : Message)
      (body_text : Text) : Type 0 where
    pub asked : px.World
    pub given : (px.get_message id session asked).0 ≡ ok m
    pub tether : px.Tether
    pub unlocking : px.World
    pub keys : px.AddressKeys
    pub unlocked :
        (px.unlocked_address_keys user tether session m.metadata.address_id unlocking).0 ≡ ok keys
    pub raw : px.RawBody
    pub decrypted : px.decrypt keys (lean_message m) ≡ ok raw
    pub processed : px.processed_body raw ≡ ok body_text

  -- HTML is shown as the sanitizer's two versions, anything else as its text alone; the rest is the
  -- message's.
  pub record Shows (m : Message) (body_text : Text) (v : Value) : Type 0 where
    pub sanitized :
        text_eq m.body.mime_type (codes "TextHtml") ≡ true
        → (get_str (codes "html") v ≡ some (sanitize_for_display html from_read body_text).0)
          × (get_str (codes "text") v ≡ some (sanitize_for_display html from_read body_text).1)
          × (get (codes "blocked_remote") v
              ≡ some (bool (sanitize_for_display html from_read body_text).2))
    pub plain :
        text_eq m.body.mime_type (codes "TextHtml") ≡ false
        → (get_str (codes "html") v ≡ some [])
          × (get_str (codes "text") v ≡ some body_text)
          × (get (codes "blocked_remote") v ≡ some (bool false))
    pub header : get_str (codes "header") v ≡ some m.body.header
    pub attachments :
        get (codes "attachments") v
        ≡ some (array (to_values (map attachment_row m.body.attachments)))

  Shows-body_answer :
      (m : Message) (body_text : Text) (t : Stages)
      → Shows m body_text (body_answer html from_read m body_text t)
  unfolding body_answer shown
  Shows-body_answer m body_text t = record {
    sanitized = λ is. rw is (refl, refl, refl);
    plain = λ is. rw is (refl, refl, refl);
    header = refl;
    attachments = refl;
  }

  -- What a call answers, by the state that it starts in.
  abbrev pub Answered : Value → CoreState px → Value → px.World → Type 0
  Answered params st v w =
      (session : px.ApiSession) × (user : px.UserCtx) × (id : Text) × (m : Message)
      × (body_text : Text) × (st.api ≡ some session)
      × (st.user_ctx ≡ some user)
      × (get_str (codes "id") params ≡ some id)
      × Opened session user id m body_text
      × Shows m body_text v

  answered :
      (params : Value) (st : CoreState px) (w : px.World)
      → Keeps st (Answered params st) (message_body html from_read px params) w
  unfolding message_body
  answered params st w = Keeps-instant _ (
      Keeps-ok_or _ λ id named. Keeps-api λ session there. Keeps-user_ctx λ user known.
        Keeps-call _ _ λ m got given. Keeps-instant _ (
          Keeps-call _ _ λ tether joined _. Keeps-call _ _ λ keys held unlocked. Keeps-instant _ (
            Keeps-pure_call _ λ raw decrypted. Keeps-pure_call _ λ body_text processed.
              Keeps-instant _ (
                Keeps-instant _ (
                  Keeps-pure (
                    session,
                    user,
                    id,
                    m,
                    body_text,
                    there,
                    known,
                    named,
                    record {
                      asked = _;
                      given = ap (λ out. out.0) given;
                      tether = tether;
                      unlocking = joined;
                      keys = keys;
                      unlocked = ap (λ out. out.0) unlocked;
                      raw = raw;
                      decrypted = decrypted;
                      processed = processed;
                    },
                    Shows-body_answer m body_text _,
                  ))))))

  -- Whatever fails, the core's state stays. An answer is for the message that the server gave for
  -- the id, opened by the keys of its own address, and shows it sanitized exactly if it is HTML.
  pub message_body-Answered :
      (params : Value) (c : ProtonCore px)
      → Kept c.state (Answered params c.state) (message_body html from_read px params c)
  message_body-Answered params c = (answered params c.state c.world).kept
