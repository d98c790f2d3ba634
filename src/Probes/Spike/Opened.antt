-- ===== src/Probes/Spike/Opened.antt =====
-- What the spike prints: the start of a message's text, opened as the crate opens it.
use aerogram.Prelude.{◌≡◌, refl, Option, some, List, [], ◌∷◌, Text, codes, ok}
use aerogram.Proton.Core.{Action, ProtonApi, Message, MessageMetadata, MessagesResponse}
use aerogram.Proton.Core.Yields.{Yields, Yields-step, Yields-pure, some_of_ok}
use aerogram.Proton.Auth.{first_session}
use aerogram.Proton.Bodies.{lean_message}
use aerogram.Probes.Attach.Cut.{IsCut, head_bytes-IsCut}
use aerogram.Probes.Spike.{Printout, first_message, spike_msg, lean_spike}

module _ (px : ProtonApi) {Address : Type 0}
    (find_valid_sender_address : px.UserCtx → Action px.World (Option Address)) where
  -- The first message that the first stored session's account has in its inbox, as the server gave
  -- it, and what the keys of the message's own address make of the body.
  pub record Opened (out : Printout) : Type 0 where
    pub session : px.Session
    pub sessions : List px.Session
    pub stored : px.World
    pub restored : (px.get_authenticated_sessions stored).0 ≡ ok sessions
    pub first_of : first_session sessions ≡ some session
    pub user : px.UserCtx
    pub joining : px.World
    pub joined : (px.user_context_from_session session joining).0 ≡ ok user
    pub api : px.ApiSession
    pub opening : px.World
    pub opened : (px.new_api_session (some session) opening).0 ≡ ok api
    pub resp : MessagesResponse
    pub listing : px.World
    pub listed :
        (px.get_messages
          (record { label_id = codes "0" ∷ []; page = 0; page_size = 1 })
          api
          listing).0
        ≡ ok resp
    pub first : MessageMetadata
    pub top : first_message resp.messages ≡ some first
    pub full : Message
    pub getting : px.World
    pub got : (px.get_message first.id api getting).0 ≡ ok full
    pub tether : px.Tether
    pub keys : px.AddressKeys
    pub unlocking : px.World
    pub unlocked :
        (px.unlocked_address_keys user tether api full.metadata.address_id unlocking).0 ≡ ok keys
    pub raw : px.RawBody
    pub text : Text
    pub decrypted : px.decrypt keys (record (lean_message full) { id = first.id }) ≡ ok raw
    pub processed : px.processed_body raw ≡ ok text
    pub named : out.msg_id ≡ first.id
    pub titled : out.subject ≡ full.metadata.subject
    pub cut : IsCut 200 text out.start

  -- If nothing fails, lean_spike prints the id and the subject of the first message of the inbox of
  -- the first stored session, and the first 200 bytes of its text, or panics if a character lies
  -- across their end; the text is opened by the keys of the message's own address, from what
  -- message_body would decrypt, but under the id that the list gave.
  pub lean_spike-Opened : (w : px.World) → Yields Opened (lean_spike px find_valid_sender_address) w
  unfolding lean_spike spike_msg lean_message
  lean_spike-Opened w = Yields-step _ _ λ sessions w₁ restored.
      Yields-step _ _ λ session w₂ first_of. Yields-step _ _ λ user w₃ joined.
        Yields-step _ _ λ api w₄ opened. Yields-step _ _ λ resp w₅ listed.
          Yields-step _ _ λ first w₆ top. Yields-step _ _ λ full w₇ got.
            Yields-step _ _ λ tether w₈ connected. Yields-step _ _ λ addr w₉ found.
              Yields-step _ _ λ sender w₁₀ there. Yields-step _ _ λ keys w₁₁ unlocked.
                Yields-step _ _ λ raw w₁₂ decrypted. Yields-step _ _ λ text w₁₃ processed.
                  Yields-pure (record {
                    session = session;
                    sessions = sessions;
                    stored = _;
                    restored = restored;
                    first_of = some_of_ok _ _ _ first_of;
                    user = user;
                    joining = _;
                    joined = joined;
                    api = api;
                    opening = _;
                    opened = opened;
                    resp = resp;
                    listing = _;
                    listed = listed;
                    first = first;
                    top = some_of_ok _ _ _ top;
                    full = full;
                    getting = _;
                    got = got;
                    tether = tether;
                    keys = keys;
                    unlocking = _;
                    unlocked = unlocked;
                    raw = raw;
                    text = text;
                    decrypted = decrypted;
                    processed = processed;
                    named = refl;
                    titled = refl;
                    cut = head_bytes-IsCut 200 text;
                  })
