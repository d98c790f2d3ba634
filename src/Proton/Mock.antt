-- ===== src/Proton/Mock.antt =====
-- A small world for the tests: a clock in milliseconds; one stored session; a login that wants a
-- second factor; an event marker that moves every second.
pub mod Tests
use aerogram.Prelude.{
  ℕ, ◌+◌, ◌*◌, ◌/◌, true, false, none, some, [], ◌∷◌, arith, ◌==◌, if◌then◌else◌, Text, codes,
  text_eq, Result, ok, err, unwrap_or,
}
use aerogram.Prelude.{◌-◌}
use aerogram.Json.{Value, string, object, field, end}
use aerogram.Proton.Core.{ProtonApi, ProtonCore, MessageMetadata}
use aerogram.Proton.Auth.{LoginParams}
use aerogram.Proton.Events.Polling.{HasClock}

-- A message with as many attachments as its page's number says.
abbrev pub mail : Text → ℕ → MessageMetadata
mail id n = record {
  id = id;
  address_id = codes "addr";
  subject = codes "hello";
  sender_name = [];
  sender_addr = [];
  time = 0;
  unread = true;
  num_attachments = n;
  label_ids = [];
}

-- A flow is 1 while it waits for the code.
abbrev pub mock : ProtonApi
mock = record {
  World = ℕ;
  Session = ℕ;
  UserCtx = ℕ;
  ApiSession = ℕ;
  DeviceInfo = ℕ;
  LoginFlow = ℕ;
  get_encryption_key = λ w. (ok tt, w);
  get_authenticated_sessions = λ w. (ok (7 ∷ []), w);
  user_context_from_session = λ s w. (ok s, w);
  new_api_session = λ s w. (ok (unwrap_or s 0), w);
  get_device_info = λ w. (0, w);
  get_client_id = λ w. codes "linux-mail";
  new_login_flow = λ s id info. 0;
  login_with_credentials = λ user password fw.
      (if text_eq password (codes "pw") then ok tt else err (codes "Unauthorized"), (1, fw.1));
  flow_submit_totp = λ code fw.
      if text_eq code (codes "123")
      then (ok tt, (0, fw.1))
      else (err (codes "WrongCode"), (1, fw.1));
  flow_submit_mailbox_password = λ password fw. (err (codes "NotNeeded"), fw);
  is_awaiting_2fa = λ flow. flow == 1;
  is_awaiting_mailbox_password = λ flow. false;
  get_account_name = λ u w. (ok (some (codes "me@proton.me")), w);
  get_events_latest = λ s w. (ok ((w / 1000) ∷ []), w + 10);
  get_labels = λ t s w. (ok (record { id = codes "x1"; name = codes "Work" } ∷ []), w);
  get_messages_count_for_labels =
      λ ids s w. (ok (record { label_id = codes "x1"; total = 5; unread = 2 } ∷ []), w);
  get_messages = λ o s w. (ok (record { total = 51; messages = mail (codes "m") o.page ∷ [] }), w);
  Tether = ℕ;
  AddressKeys = Text;
  RawBody = Text;
  KeyPackets = ℕ;
  Signature = ℕ;
  EncSignature = ℕ;
  get_message = λ id s w. (
    ok (record {
      metadata = record {
        id = id;
        address_id = codes "addr";
        subject = codes "hello";
        sender_name = [];
        sender_addr = [];
        time = 0;
        unread = true;
        num_attachments = 1;
        label_ids = [];
      };
      body = record {
        body = codes "a<b";
        mime_type = codes "TextHtml";
        header = codes "X: y";
        attachments =
            record { id = codes "at"; name = codes "f"; mime_type = codes "m"; size = 3 } ∷ [];
      };
    }),
    w + 2,
  );
  connection = λ u w. (ok 0, w);
  unlocked_address_keys = λ u t s address w. (ok address, w + 1);
  decrypt = λ keys m. ok (m.body);
  processed_body = ok;
  get_attachment_metadata = λ id s w. (
    ok (record {
      address_id = codes "addr";
      name = codes "f";
      key_packets = 0;
      signature = none;
      enc_signature = none;
    }),
    w,
  );
  get_attachment = λ id s w. (ok (1 ∷ 2 ∷ 3 ∷ 4 ∷ []), w);
  decrypt_attachment = λ keys verifying a bytes. ok (1 ∷ 2 ∷ 3 ∷ 4 ∷ []);
  instant = λ w. (w * 1_000_000, w);
  now = λ w. w;
  sleep = λ ms w. w + ms;
}

abbrev pub fresh : ProtonCore mock
fresh = record {
  state = record { login_flow = none; user_ctx = none; api = none; last_event_id = none };
  world = 0;
}

abbrev pub signed_in : ProtonCore mock
signed_in = record {
  state = record {
    login_flow = none;
    user_ctx = some 7;
    api = some 7;
    last_event_id = some (0 ∷ []);
  };
  world = 0;
}

abbrev pub text_param : Text → Text → Value
text_param k v = object (field k (string v) end)

abbrev pub read_params : Value → Result Text LoginParams
read_params v = ok (record { user = codes "me"; password = codes "pw" })

pub mock-HasClock : HasClock mock
mock-HasClock = record { forward = λ s w. omega arith; sleeps = λ w. omega arith }
