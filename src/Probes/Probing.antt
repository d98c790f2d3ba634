-- ===== src/Probes/Probing.antt =====
-- proton-core/src/bin/probe.rs, `main` from the session on, with what it prints as values.
pub mod Unlabelled
pub mod Tests
use aerogram.Prelude.{
  ℕ, Bool, ◌||◌, ◌==◌, Option, none, some, List, [], ◌∷◌, length, if◌then◌else◌, Text, Bytes, codes,
  Result, unwrap_or,
}
use aerogram.Prelude.Utf8.{as_bytes}
use aerogram.Json.{Value, object, end, get, get_str, get_u64}
use aerogram.Html.Stream.{RewriterApi}
use aerogram.Proton.Core.{ProtonApi}
use aerogram.Proton.Auth.{LoginParams}
use aerogram.Proton.Abi.{Texts}
use aerogram.Probes.{get_array, messages_of, count_of}
use aerogram.Probes.Checks.{◌>>=◌, pure, unwrap, ask, first, label_page, body_params, Program}
use aerogram.Probes.Lines.{contains}
use aerogram.Probes.{index}
use aerogram.Probes.Attach.{head_bytes}

-- A label and the number of its messages; without any, the start of the reply.
pub record CountLine : Type 0 where
  pub id : ℕ
  pub name : Value
  pub count : ℕ
  pub raw : Option Text

-- What is said of the first body under a label, or the reply that has none.
pub data BodyLine : Type 0 where
  checked : ℕ → Value → ℕ → Bool → BodyLine
  unchecked : ℕ → Value → BodyLine

unfoldable pub body_line : ℕ → Value → BodyLine
unfolding contains
body_line id body = elim (get (codes "ok") body) [
  | none ↦ unchecked id body
  | some found ↦
      let text = unwrap_or (get_str (codes "text") found) [] in
      checked id (index (codes "mime_type") found) (length (as_bytes text))
        (contains text (codes "<div") || contains text (codes "<img"))
]

module _ (texts : Texts) (html : RewriterApi) (from_read : Bytes → ℕ → Result Text Text)
    (from_value : Value → Result Text LoginParams) (px : ProtonApi) (fuel : ℕ) where
  abbrev Printing : Type 0 → Type 0
  Printing A = Program texts html from_read from_value px fuel A

  abbrev asks : Text → Value → Printing Value
  asks = ask texts html from_read from_value px fuel

  -- `for l in arr`
  unfoldable pub each : {A : Type 0} → (Value → Printing A) → List Value → Printing (List A)
  each visit [] = pure []
  each visit (l ∷ ls) = let rest = each visit ls in do a ← visit l; more ← rest; pure (a ∷ more)

  -- `&s[..s.len().min(200)]` of the reply, where a cut character panics.
  abbrev raw_start : ℕ → Value → Printing (Option Text)
  raw_start count msgs =
      if count == 0
      then (do start ← unwrap (head_bytes 200 (texts.to_string msgs)); pure (some start))
      else pure none

  unfoldable pub count_label : Value → Printing CountLine
  count_label l = do
    id ← unwrap (get_u64 (codes "id") l)
    msgs ← asks (codes "list_messages") (label_page 10 id)
    raw ← raw_start (count_of msgs) msgs
    pure (record { id = id; name = index (codes "name") l; count = count_of msgs; raw = raw })

  -- Nothing is printed for a label without messages, or with one whose id is no number.
  unfoldable pub check_label : Value → Printing (Option BodyLine)
  check_label l = do
    id ← unwrap (get_u64 (codes "id") l)
    msgs ← asks (codes "list_messages") (label_page 1 id)
    elim (first (messages_of msgs)) [
      | none ↦ pure none
      | some m ↦ elim (get_u64 (codes "id") m) [
        | none ↦ pure none
        | some mid ↦ do
          body ← asks (codes "message_body") (body_params mid)
          pure (some (body_line id body))
      ]
    ]

  abbrev pub labels_of : Value → List Value
  labels_of labels = unwrap_or (get_array (codes "ok") labels) []

  -- Both loops over the labels.
  unfoldable pub report :
      Value → Value → Printing (Value × Value × List CountLine × List (Option BodyLine))
  report restored labels = do
    counts ← each count_label (labels_of labels)
    bodies ← each check_label (labels_of labels)
    pure (restored, labels, counts, bodies)

  unfoldable pub probe : Printing (Value × Value × List CountLine × List (Option BodyLine))
  probe = do
    restored ← asks (codes "restore_session") (object end)
    labels ← asks (codes "list_labels") (object end)
    report restored labels
