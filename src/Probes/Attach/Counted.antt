-- ===== src/Probes/Attach/Counted.antt =====
-- What `lean_attach` counts.
use aerogram.Prelude.{
  ℕ, ◌+◌, ◌*◌, ◌/◌, ◌≤◌, ◌≡◌, refl, sym, ap, ◌∙◌, arith, Option, none, some, List, ◌∷◌, length,
  Text, Bytes, codes, Result, ok, err,
}
use aerogram.Prelude.Utf8.{as_bytes}
use mathlib.Core.Path.{subst}
use aerogram.Json.{Value, get_str}
use aerogram.Html.Stream.{RewriterApi}
use aerogram.Proton.Core.{ProtonApi, ProtonCore, CoreState}
use aerogram.Proton.Core.Outcomes.{Kept, Kept-state}
use aerogram.Proton.Auth.{LoginParams}
use aerogram.Proton.Base64.{base64_encode}
use aerogram.Proton.Base64.Ascii.{length-as_bytes-base64_encode}
use aerogram.Proton.Base64.Decoding.{length-base64_encode}
use aerogram.Proton.Bodies
use aerogram.Proton.Bodies.Attached.{Attached, Decrypted, GivesBytes, get_attachment-Attached}
use aerogram.Proton.Abi.{Texts, envelope}
use aerogram.Probes.Checks.{ends, unwrap}
use aerogram.Probes.Checks.Asked.{after_ends, ask-get_attachment}
use aerogram.Probes.Attach.{Fetched, nothing, fetched, failed, fetched_of, id_params, fetch_first}

-- The printed numbers beside the content.
abbrev pub Sizes : Bytes → ℕ → ℕ → Type 0
Sizes content chars bytes =
    (chars ≡ (length content + 2) / 3 * 4) × (length content ≤ bytes) × (bytes ≤ length content + 2)

sizes_lem :
    (content : Bytes) (n : ℕ) → n ≡ (length content + 2) / 3 * 4 → Sizes content n (n * 3 / 4)
sizes_lem content n e = (e, omega arith, omega arith)

base64_encode-Sizes :
    (content : Bytes) (text : Text)
    → text ≡ base64_encode content
    → Sizes content (length (as_bytes text)) (length (as_bytes text) * 3 / 4)
base64_encode-Sizes content text e = sizes_lem content (length (as_bytes text)) (
    ap (λ (t : Text). length (as_bytes t)) e
    ∙ length-as_bytes-base64_encode content
    ∙ length-base64_encode content)

module _ (texts : Texts) (px : ProtonApi) where
  abbrev pub Counted : CoreState px → Text → Fetched → Type 0
  Counted st id nothing = ⊥
  Counted st id (failed v) = (e : Text) × (v ≡ envelope texts (err e))
  Counted st id (fetched chars bytes) =
      (session : px.ApiSession) × (user : px.UserCtx) × (name : Text) × (content : Bytes) × (st.api
        ≡ some session)
      × (st.user_ctx ≡ some user)
      × Decrypted px session user id name content
      × Sizes content chars bytes

  fetched_of-Counted :
      (id : Text) (st : CoreState px) (out : Result Text Value × ProtonCore px)
      → Kept st (Attached px (id_params id) st) out
      → Counted st id (fetched_of (envelope texts out.0))
  unfolding fetched_of
  fetched_of-Counted id st (err e, d) same = (e, refl)
  fetched_of-Counted id st (ok v, d)
        (
          same,
          (
            session, user, id', name, content, text, api, uctx, named, opened, titled, given,
            decoded, encoded,
          ),
        ) =
      let own : id' ≡ id = cc in
      subst
        (λ (o : Option Text).
          let f : Fetched = elim o [
            | none ↦ failed (envelope texts (ok v))
            | some b64 ↦ fetched (length (as_bytes b64)) (length (as_bytes b64) * 3 / 4)
          ] in
          Counted st id f)
        (sym given)
        (
          session,
          user,
          name,
          content,
          api,
          uctx,
          subst (λ i. Decrypted px session user i name content) own opened,
          base64_encode-Sizes content text encoded,
        )

module _ (texts : Texts) (html : RewriterApi) (from_read : Bytes → ℕ → Result Text Text)
    (from_value : Value → Result Text LoginParams) (px : ProtonApi) (fuel : ℕ) where
  -- The first attachment of a message, if the list gives its id and decryption gives bytes: the
  -- core's state stays, and what is printed is either the reply with an error, or the length of the
  -- Base64 text of what the server has under that id, opened by its own address's keys, and a count
  -- of bytes that is its size or up to two more.
  pub fetch_first-Counted :
      (bytes : GivesBytes px) (first : Value) (others : List Value) (id : Text) (c : ProtonCore px)
      → get_str (codes "id") first ≡ some id
      → (f : Fetched) × (d : ProtonCore px) × (fetch_first texts html from_read from_value px fuel
            (first ∷ others)
            c
          ≡ ends f d)
        × (d.state ≡ c.state)
        × Counted texts px c.state id f
  unfolding fetch_first
  fetch_first-Counted bytes first others id c named =
      let out = Bodies.get_attachment px (id_params id) c in
      let kept = get_attachment-Attached px bytes (id_params id) c in
      (
        fetched_of (envelope texts out.0),
        out.1,
        after_ends _ _ id c c (ap (λ (o : Option Text). unwrap o c) named)
            ∙ after_ends _ _ (envelope texts out.0) c out.1
                (ask-get_attachment texts html from_read from_value px fuel (id_params id) c),
        Kept-state _ _ out kept,
        fetched_of-Counted texts px id c.state out kept,
      )
