-- ===== src/Probes/Checks.antt =====
-- proton-core/src/bin, the probe programs `cache_check`, `sanitize_check`, `inspect_html` and
-- `header_check`, from their first call to the body that they report on, with what they print of it
-- as values.
pub mod Asked
pub mod Panics
pub mod Tests
use aerogram.Prelude.{
  ℕ, ◌-◌, Bool, true, false, Option, none, some, List, [], ◌∷◌, if◌then◌else◌, Text, Bytes, codes,
  text_eq, Result, unwrap_or,
}
use aerogram.Json.{Value, number, object, field, end, null, get, get_str, get_u64}
use aerogram.Html.Stream.{RewriterApi}
use aerogram.Proton.Core.{ProtonApi, ProtonCore}
use aerogram.Proton.Auth.{LoginParams}
use aerogram.Proton.Abi.{Texts}
use aerogram.Probes.{get_array, messages_of, call, index}
use aerogram.Probes.Lines.{SafetyLine, safety_line, InspectLine, inspect_line}

-- A program's end: an `unwrap` that fails ends it at once. The first is for fuel that was not
-- enough, and for undefined behaviour.
pub data Run (C A : Type 0) : Type 0 where
  no_outcome aborts : Run C A
  ends : A → C → Run C A

infixl 5 ◌>>=◌
unfoldable pub ◌>>=◌ : {C A B : Type 0} → (C → Run C A) → (A → C → Run C B) → C → Run C B
◌>>=◌ m f c = elim (m c) [ no_outcome ↦ no_outcome | aborts ↦ aborts | ends a d ↦ f a d ]

abbrev pub pure : {C A : Type 0} → A → C → Run C A
pure a c = ends a c

abbrev pub unwrap : {C A : Type 0} → Option A → C → Run C A
unwrap none c = aborts
unwrap (some a) c = ends a c

-- `value[0]`
abbrev pub first : Option (List Value) → Option Value
first (some (v ∷ vs)) = some v
first _ = none

abbrev pub id_of : Option Value → Option ℕ
id_of o = elim o [ none ↦ none | some v ↦ get_u64 (codes "id") v ]

abbrev pub label_page : ℕ → ℕ → Value
label_page limit id =
    object (field (codes "label_id") (number id) (field (codes "limit") (number limit) end))

abbrev pub body_params : ℕ → Value
body_params mid = object (field (codes "id") (number mid) end)

-- A field of an answer's "ok", and its text, empty if it has none.
abbrev pub ok_text : Text → Value → Option Text
ok_text k b = elim (get (codes "ok") b) [ none ↦ none | some v ↦ get_str k v ]

-- `b["ok"].is_null()`, also where there is no such field.
abbrev pub ok_null : Value → Bool
ok_null b = elim (get (codes "ok") b) [ none ↦ true | some null ↦ true | some _ ↦ false ]

abbrev pub shows_html : Value → Bool
shows_html b = elim (ok_text (codes "mime_type") b) [
  | none ↦ false
  | some t ↦ text_eq t (codes "TextHtml")
]

module _ (texts : Texts) (html : RewriterApi) (from_read : Bytes → ℕ → Result Text Text)
    (from_value : Value → Result Text LoginParams) (px : ProtonApi) (fuel : ℕ) where
  abbrev pub Program : Type 0 → Type 0
  Program A = ProtonCore px → Run (ProtonCore px) A

  unfoldable pub ask : Text → Value → Program Value
  unfolding call
  ask method params c = elim (call texts html from_read from_value px fuel method params c) [
    | none ↦ no_outcome
    | some (v, d) ↦ ends v d
  ]

  -- `Instant::now()`, in nanoseconds.
  abbrev pub look : Program ℕ
  look c = let (t, w) = px.instant c.world in ends t (record c { world = w })

  -- `call` of `cache_check`, with the time that it takes.
  unfoldable pub timed : Text → Value → Program (Value × ℕ)
  timed method params = do t0 ← look; v ← ask method params; t1 ← look; pure (v, t1 - t0)

  abbrev pub untimed : Text → Value → Program Value
  untimed method params = do (v, _) ← timed method params; pure v

  -- `for m in …`: a message without a number for its id is passed over, and so is one of which
  -- `visit` makes nothing.
  unfoldable pub each_message :
      {A : Type 0} → (ℕ → Program (Option A)) → List Value → Program (Option A)
  each_message visit [] = pure none
  each_message visit (m ∷ ms) =
      let rest = each_message visit ms in
      elim (get_u64 (codes "id") m) [
        | none ↦ rest
        | some mid ↦ visit mid >>= λ o. elim o [ none ↦ rest | some a ↦ pure (some a) ]
      ]

  module _ {A : Type 0} (asks : Text → Value → Program Value) (limit : ℕ)
      (visit : ℕ → Program (Option A)) where
    unfoldable pub each_label : List Value → Program (Option A)
    each_label [] = pure none
    each_label (l ∷ ls) =
        let rest = each_label ls in
        do
          id ← unwrap (get_u64 (codes "id") l)
          msgs ← asks (codes "list_messages") (label_page limit id)
          ms ← unwrap (messages_of msgs)
          o ← each_message visit ms
          elim o [ none ↦ rest | some a ↦ pure (some a) ]

    -- The session restored, and the first message under any label of which `visit` makes something.
    unfoldable pub first_body : Program (Option A)
    first_body = do
      _ ← asks (codes "restore_session") (object end)
      labels ← asks (codes "list_labels") (object end)
      ls ← unwrap (get_array (codes "ok") labels)
      each_label ls

  -- The id, and how long the first and the second call took.
  unfoldable pub visit_twice : ℕ → Program (Option (ℕ × ℕ × ℕ))
  visit_twice mid = do
    (b1, t1) ← timed (codes "message_body") (body_params mid)
    (_, t2) ← timed (codes "message_body") (body_params mid)
    pure (if ok_null b1 then none else some (mid, t1, t2))

  unfoldable pub cache_check : Program (Option (ℕ × ℕ × ℕ))
  cache_check = first_body untimed 5 visit_twice

  -- What is printed of a message that is HTML.
  unfoldable pub visit_html : ℕ → Program (Option SafetyLine)
  unfolding safety_line
  visit_html mid = do
    b ← ask (codes "message_body") (body_params mid)
    pure (
        if shows_html b
        then some (
            safety_line mid (unwrap_or (ok_text (codes "html") b) [])
              (unwrap_or (ok_text (codes "text") b) [])
              (index (codes "blocked_remote") (index (codes "ok") b)))
        else none)

  unfoldable pub sanitize_check : Program (Option SafetyLine)
  sanitize_check = first_body ask 15 visit_html

  unfoldable pub visit_timed : ℕ → Program (Option InspectLine)
  unfolding inspect_line
  visit_timed mid = do
    (b, elapsed) ← timed (codes "message_body") (body_params mid)
    pure (
        if shows_html b
        then some (inspect_line mid elapsed (unwrap_or (ok_text (codes "html") b) []))
        else none)

  unfoldable pub inspect_html : Program (Option InspectLine)
  inspect_html = first_body ask 15 visit_timed

  -- The headers of the first message under the first label.
  unfoldable pub header_check : Program Text
  header_check = do
    _ ← ask (codes "restore_session") (object end)
    labels ← ask (codes "list_labels") (object end)
    id ← unwrap (id_of (first (get_array (codes "ok") labels)))
    msgs ← ask (codes "list_messages") (label_page 1 id)
    mid ← unwrap (id_of (first (messages_of msgs)))
    b ← ask (codes "message_body") (body_params mid)
    pure (unwrap_or (ok_text (codes "header") b) [])
