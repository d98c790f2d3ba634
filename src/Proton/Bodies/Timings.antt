-- ===== src/Proton/Bodies/Timings.antt =====
-- The timings that `message_body` sends along.
use aerogram.Prelude.{ℕ, ◌+◌, ◌≤◌, ◌≡◌, refl, ap, some, arith, Text, Bytes, codes, Result}
use aerogram.Html.Stream.{RewriterApi}
use aerogram.Json.{Value, get, get_u64}
use aerogram.Proton.Core.{ProtonApi, CoreState, ProtonCore, Message}
use aerogram.Proton.Core.Outcomes.{
  Kept, Keeps, Keeps-pure, Keeps-ok_or, Keeps-call, Keeps-pure_call, Keeps-api, Keeps-user_ctx,
  Keeps-instant,
}
use aerogram.Proton.Bodies.{as_millis, Stages, timings, body_answer, message_body}

-- The stages follow one another.
record IsOrdered (t : Stages) : Type 0 where
  first : t.start ≤ t.got
  second : t.got ≤ t.keys
  third : t.keys ≤ t.dec
  fourth : t.dec ≤ t.san

-- The milliseconds of the four stages make up the total, but for what is rounded off.
pub record IsAccounted (ts : Value) : Type 0 where
  pub got : ℕ
  pub keys : ℕ
  pub dec : ℕ
  pub san : ℕ
  pub total : ℕ
  pub get_message_ms : get_u64 (codes "get_message_ms") ts ≡ some got
  pub unlock_keys_ms : get_u64 (codes "unlock_keys_ms") ts ≡ some keys
  pub decrypt_ms : get_u64 (codes "decrypt_ms") ts ≡ some dec
  pub sanitize_ms : get_u64 (codes "sanitize_ms") ts ≡ some san
  pub total_ms : get_u64 (codes "total_ms") ts ≡ some total
  pub at_most : got + keys + dec + san ≤ total
  pub at_least : total ≤ got + keys + dec + san + 3

as_millis_sum :
    (a b c d e : ℕ)
    → a ≤ b
    → b ≤ c
    → c ≤ d
    → d ≤ e
    → let parts = as_millis a b + as_millis b c + as_millis c d + as_millis d e in
      (parts ≤ as_millis a e) × (as_millis a e ≤ parts + 3)
as_millis_sum a b c d e p q r s = omega arith

timings-IsAccounted :
    (t : Stages) (body_text : Text) → IsOrdered t → IsAccounted (timings t body_text)
unfolding timings
timings-IsAccounted t body_text o =
    let (low, high) =
      as_millis_sum t.start t.got t.keys t.dec t.san o.first o.second o.third o.fourth in
    record {
      got = as_millis t.start t.got;
      keys = as_millis t.got t.keys;
      dec = as_millis t.keys t.dec;
      san = as_millis t.dec t.san;
      total = as_millis t.start t.san;
      get_message_ms = refl;
      unlock_keys_ms = refl;
      decrypt_ms = refl;
      sanitize_ms = refl;
      total_ms = refl;
      at_most = low;
      at_least = high;
    }

module _ (px : ProtonApi) where
  -- The clock never runs back: a look at it tells a time between those of the worlds around it,
  -- and a call takes time.
  pub record IsMonotone : Type 0 where
    pub time : px.World → ℕ
    pub before : (w : px.World) → time w ≤ (px.instant w).0
    pub after : (w : px.World) → (px.instant w).0 ≤ time (px.instant w).1
    pub getting :
        (id : Text) (session : px.ApiSession) (w : px.World)
        → time w ≤ time (px.get_message id session w).1
    pub joining : (user : px.UserCtx) (w : px.World) → time w ≤ time (px.connection user w).1
    pub unlocking :
        (user : px.UserCtx) (tether : px.Tether) (session : px.ApiSession) (address : Text)
        (w : px.World)
        → time w ≤ time (px.unlocked_address_keys user tether session address w).1

module _ (html : RewriterApi) (from_read : Bytes → ℕ → Result Text Text) (px : ProtonApi) where
  abbrev pub Timed : Value → px.World → Type 0
  Timed v w = (ts : Value) × (get (codes "timings") v ≡ some ts) × IsAccounted ts

  Timed-body_answer :
      (m : Message) (body_text : Text) (t : Stages) (w : px.World)
      → IsOrdered t
      → Timed (body_answer html from_read m body_text t) w
  unfolding body_answer
  Timed-body_answer m body_text t w o =
      (timings t body_text, refl, timings-IsAccounted t body_text o)

  abbrev next : px.World → px.World
  next w = (px.instant w).1

  looks : (law : IsMonotone px) (w : px.World) → (px.instant w).0 ≤ (px.instant (px.instant w).1).0
  looks law w = omega (arith, law.after w, law.before (px.instant w).1)

  -- A look, a call, and another look.
  stage :
      (law : IsMonotone px) {v : px.World} (w w' : px.World)
      → law.time (px.instant w).1 ≤ law.time v
      → v ≡ w'
      → (px.instant w).0 ≤ (px.instant w').0
  stage law w w' took e = omega (arith, law.after w, took, ap law.time e, law.before w')

  two_calls :
      (law : IsMonotone px) {v u : px.World} (w w' w'' : px.World)
      → law.time (px.instant w).1 ≤ law.time v
      → v ≡ w'
      → law.time w' ≤ law.time u
      → u ≡ w''
      → (px.instant w).0 ≤ (px.instant w'').0
  two_calls law w w' w'' took e took' e' =
      omega (arith, law.after w, took, ap law.time e, took', ap law.time e', law.before w'')

  timed :
      (law : IsMonotone px) (params : Value) (st : CoreState px) (w : px.World)
      → Keeps st Timed (message_body html from_read px params) w
  unfolding message_body
  timed law params st w = Keeps-instant _ (
      Keeps-ok_or _ λ id named. Keeps-api λ session there. Keeps-user_ctx λ user known.
        Keeps-call _ _ λ m w₁ given. Keeps-instant _ (
          Keeps-call _ _ λ tether w₂ joined. Keeps-call _ _ λ keys w₃ unlocked. Keeps-instant _ (
            Keeps-pure_call _ λ raw decrypted. Keeps-pure_call _ λ body_text processed.
              Keeps-instant _ (
                Keeps-instant _ (
                  Keeps-pure (
                    Timed-body_answer m body_text _ (next (next (next w₃))) (record {
                      first =
                          stage law w w₁ (law.getting id session (next w))
                            (ap (λ out. out.1) given);
                      second =
                          two_calls law w₁ w₂ w₃ (law.joining user (next w₁))
                            (ap (λ out. out.1) joined)
                            (law.unlocking user tether session m.metadata.address_id w₂)
                            (ap (λ out. out.1) unlocked);
                      third = looks law w₃;
                      fourth = looks law (next w₃);
                    })))))))

  -- With a clock that never runs back, an answer's times for the four stages add up to its total,
  -- of which each may have lost less than a millisecond.
  pub message_body-IsAccounted :
      (law : IsMonotone px) (params : Value) (c : ProtonCore px)
      → Kept c.state Timed (message_body html from_read px params c)
  message_body-IsAccounted law params c = (timed law params c.state c.world).kept
