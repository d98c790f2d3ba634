-- ===== src/Probes/Listings.antt =====
-- proton-core/src/bin, the probe programs `list_probe` and `names_probe`, with what they print as
-- values.
pub mod Printed
pub mod Tests
use aerogram.Prelude.{
  ℕ, ◌^◌, ltb, Option, none, some, List, [], ◌∷◌, map, take, if◌then◌else◌, Text, Bytes, codes,
  Result, unwrap_or,
}
use aerogram.Json.{Value, number, string, object, field, end, as_array, as_str, as_u64, get_str}
use aerogram.Html.Link.{join}
use aerogram.Html.Stream.{RewriterApi}
use aerogram.Proton.Core.{ProtonApi}
use aerogram.Proton.Auth.{LoginParams}
use aerogram.Proton.Abi.{Texts}
use aerogram.Probes.{get_array, messages_of, index}
use aerogram.Probes.Checks.{◌>>=◌, pure, ask, Program}

-- `as_i64`: a number that is too large is none.
abbrev pub as_i64 : Value → Option ℕ
as_i64 v = elim (as_u64 v) [ none ↦ none | some n ↦ if ltb n (2 ^ 63) then some n else none ]

abbrev pub strs : List Value → List Text
strs [] = []
strs (v ∷ vs) = elim (as_str v) [ none ↦ strs vs | some s ↦ s ∷ strs vs ]

-- A line of `list_probe`: the time, the labels and the start of the subject.
pub record MessageLine : Type 0 where
  pub time : ℕ
  pub labels : Text
  pub subject : Text

unfoldable pub message_line : Value → MessageLine
message_line m = record {
  time = unwrap_or (as_i64 (index (codes "time") m)) 0;
  labels = elim (as_array (index (codes "labels") m)) [
    | none ↦ codes "?"
    | some ls ↦ join (strs ls) b','
  ];
  subject = take 40 (unwrap_or (get_str (codes "subject") m) (codes "?"));
}

-- A line of `names_probe`.
pub record LabelLine : Type 0 where
  pub id : Text
  pub name : Text
  pub total : Value
  pub unread : Value

unfoldable pub label_line : Value → LabelLine
label_line l = record {
  id = unwrap_or (get_str (codes "id") l) (codes "?");
  name = unwrap_or (get_str (codes "name") l) (codes "?");
  total = index (codes "total") l;
  unread = index (codes "unread") l;
}

abbrev pub top_of : Text → Value
top_of label =
    object (field (codes "label_id") (string label) (field (codes "limit") (number 8) end))

abbrev pub of_type : Text → Value
of_type t = object (field (codes "label_type") (string t) end)

module _ (texts : Texts) (html : RewriterApi) (from_read : Bytes → ℕ → Result Text Text)
    (from_value : Value → Result Text LoginParams) (px : ProtonApi) (fuel : ℕ) where
  abbrev Printing : Type 0 → Type 0
  Printing A = Program texts html from_read from_value px fuel A

  abbrev asks : Text → Value → Printing Value
  asks = ask texts html from_read from_value px fuel

  -- What is printed for a label: the total and the lines.
  unfoldable pub list_top : Text → Printing (Value × List MessageLine)
  list_top label = do
    r ← asks (codes "list_messages") (top_of label)
    pure (
      index (codes "total") (index (codes "ok") r),
      map message_line (unwrap_or (messages_of r) []),
    )

  -- The reply to the restored session, and the labels "0" and "5".
  unfoldable pub list_probe :
      Printing (Value × (Value × List MessageLine) × (Value × List MessageLine))
  list_probe = do
    restored ← asks (codes "restore_session") (object end)
    inbox ← list_top (codes "0")
    all ← list_top (codes "5")
    pure (restored, inbox, all)

  unfoldable pub names_of : Text → Printing (List LabelLine)
  names_of t = do
    r ← asks (codes "list_labels") (of_type t)
    pure (map label_line (unwrap_or (get_array (codes "ok") r) []))

  unfoldable pub names_probe : Printing (Value × List LabelLine × List LabelLine)
  names_probe = do
    restored ← asks (codes "restore_session") (object end)
    folders ← names_of (codes "folder")
    labels ← names_of (codes "label")
    pure (restored, folders, labels)
