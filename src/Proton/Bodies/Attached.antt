-- ===== src/Proton/Bodies/Attached.antt =====
-- What `get_attachment` answers: its Base64 text is the attachment.
use aerogram.Prelude.{◌<◌, ◌≡◌, refl, ap, some, All, Text, Bytes, codes, ok}
use aerogram.Json.{Value, get_str}
use aerogram.Proton.Core.{ProtonApi, CoreState, ProtonCore, AttachmentMetadata}
use aerogram.Proton.Core.Outcomes.{
  Kept, Kept-state, Keeps, Keeps-pure, Keeps-ok_or, Keeps-call, Keeps-pure_call, Keeps-api,
  Keeps-user_ctx,
}
use aerogram.Proton.Base64.{base64_encode}
use aerogram.Proton.Base64.Decoding.{decode, decode-base64_encode}
use aerogram.Proton.Bodies.{lean_attachment, get_attachment}

module _ (px : ProtonApi) where
  open px use {KeyPackets, Signature, EncSignature}

  -- What the server gave for an id, and what the keys of the attachment's own address make of it.
  pub record Decrypted (session : px.ApiSession) (user : px.UserCtx) (id : Text) (name : Text)
      (content : Bytes) : Type 0 where
    pub meta : AttachmentMetadata KeyPackets Signature EncSignature
    pub described : px.World
    pub description : (px.get_attachment_metadata id session described).0 ≡ ok meta
    pub named : meta.name ≡ name
    pub bytes : Bytes
    pub fetching : px.World
    pub fetched : (px.get_attachment id session fetching).0 ≡ ok bytes
    pub tether : px.Tether
    pub unlocking : px.World
    pub keys : px.AddressKeys
    pub unlocked :
        (px.unlocked_address_keys user tether session meta.address_id unlocking).0 ≡ ok keys
    pub decrypted : px.decrypt_attachment keys keys (lean_attachment px meta) bytes ≡ ok content

  unaffected :
      (params : Value) (st : CoreState px) (w : px.World)
      → Keeps st (λ v w'. Unit {0}) (get_attachment px params) w
  unfolding get_attachment
  unaffected params st w = Keeps-ok_or _ λ id named. Keeps-api λ session there.
      Keeps-user_ctx λ user known. Keeps-call _ _ λ meta w₁ description.
        Keeps-call _ _ λ bytes w₂ fetched. Keeps-call _ _ λ tether w₃ joined.
          Keeps-call _ _ λ keys w₄ unlocked. Keeps-pure_call _ λ content decrypted. Keeps-pure tt

  -- The text that the answer carries is Base64 of the attachment's content.
  abbrev pub Attached : Value → CoreState px → Value → px.World → Type 0
  Attached params st v w =
      (session : px.ApiSession) × (user : px.UserCtx) × (id : Text) × (name : Text)
      × (content : Bytes) × (text : Text) × (st.api ≡ some session)
      × (st.user_ctx ≡ some user)
      × (get_str (codes "id") params ≡ some id)
      × Decrypted session user id name content
      × (get_str (codes "name") v ≡ some name)
      × (get_str (codes "bytes_base64") v ≡ some text)
      × (decode text ≡ some content)
      × (text ≡ base64_encode content)

  -- Decryption gives bytes.
  abbrev pub GivesBytes : Type 0
  GivesBytes =
      (keys : px.AddressKeys) (a : _) (bytes content : Bytes)
      → px.decrypt_attachment keys keys a bytes ≡ ok content
      → All (λ b. b < 256) content

  attached :
      (bytes : GivesBytes) (params : Value) (st : CoreState px) (w : px.World)
      → Keeps st (Attached params st) (get_attachment px params) w
  unfolding get_attachment
  attached are_bytes params st w = Keeps-ok_or _ λ id named. Keeps-api λ session there.
      Keeps-user_ctx λ user known. Keeps-call _ _ λ meta w₁ description.
        Keeps-call _ _ λ bytes w₂ fetched. Keeps-call _ _ λ tether w₃ joined.
          Keeps-call _ _ λ keys w₄ unlocked. Keeps-pure_call _ λ content decrypted. Keeps-pure (
            session,
            user,
            id,
            meta.name,
            content,
            base64_encode content,
            there,
            known,
            named,
            record {
              meta = meta;
              described = _;
              description = ap (λ out. out.0) description;
              named = refl;
              bytes = bytes;
              fetching = _;
              fetched = ap (λ out. out.0) fetched;
              tether = tether;
              unlocking = _;
              keys = keys;
              unlocked = ap (λ out. out.0) unlocked;
              decrypted = decrypted;
            },
            refl,
            refl,
            decode-base64_encode content (are_bytes keys _ bytes content decrypted),
            refl,
          )

  -- Whatever fails, the core's state stays. An answer has the name and, in Base64, the content of
  -- the attachment that the server gave for the id, opened by the keys of its own address.
  pub get_attachment-Attached :
      (bytes : GivesBytes) (params : Value) (c : ProtonCore px)
      → Kept c.state (Attached params c.state) (get_attachment px params c)
  get_attachment-Attached are_bytes params c = (attached are_bytes params c.state c.world).kept

  -- The state stays in any case.
  pub get_attachment_keeps :
      (params : Value) (c : ProtonCore px) → (get_attachment px params c).1.state ≡ c.state
  get_attachment_keeps params c =
      Kept-state c.state (λ v w. Unit {0}) _ (unaffected params c.state c.world).kept
