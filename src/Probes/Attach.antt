-- ===== src/Probes/Attach.antt =====
-- proton-core/src/bin/lean_attach.rs, `main` from the session to the attachment, with what it
-- prints as values.
pub mod Cut
pub mod Counted
pub mod Tests
use aerogram.Prelude.{
  ℕ, ◌-◌, ◌*◌, ◌/◌, Option, none, some, leb, List, [], ◌∷◌, map, length, if◌then◌else◌, Text, Bytes,
  codes, Result, unwrap_or,
}
use aerogram.Prelude.Utf8.{as_bytes}
use aerogram.Json.{Value, string, object, field, end, get_str}
use aerogram.Html.Stream.{RewriterApi}
use aerogram.Proton.Core.{ProtonApi}
use aerogram.Proton.Auth.{LoginParams}
use aerogram.Proton.Abi.{Texts}
use aerogram.Probes.{get_array, find_attached, panics, missing, target}
use aerogram.Probes.Checks.{no_outcome, aborts, ends, ◌>>=◌, pure, unwrap, ask, ok_text, Program}
use aerogram.Probes.{index}

-- `&s[..n.min(s.len())]`: the characters of the first bytes; a character that is cut panics.
unfoldable pub head_bytes : ℕ → Text → Option Text
head_bytes n [] = some []
head_bytes n (c ∷ s) =
    let width = length (as_bytes (c ∷ [])) in
    let rest = head_bytes (n - width) s in
    if leb n 0
    then some []
    else if leb width n
    then (elim rest [ none ↦ none | some t ↦ some (c ∷ t) ])
    else none

-- What is printed of the first attachment: nothing, how long its Base64 text and its content are,
-- or the reply that has none.
pub data Fetched : Type 0 where
  nothing : Fetched
  fetched : ℕ → ℕ → Fetched
  failed : Value → Fetched

abbrev pub id_params : Text → Value
id_params id = object (field (codes "id") (string id) end)

unfoldable pub fetched_of : Value → Fetched
fetched_of got = elim (ok_text (codes "bytes_base64") got) [
  | none ↦ failed got
  | some b64 ↦ fetched (length (as_bytes b64)) (length (as_bytes b64) * 3 / 4)
]

-- The attachments that a reply to `message_body` lists, or none.
abbrev pub attachments_of : Value → List Value
attachments_of body = unwrap_or (get_array (codes "attachments") (index (codes "ok") body)) []

pub record AttachmentLine : Type 0 where
  pub name : Value
  pub size : Value
  pub mime : Value

abbrev pub attachment_line : Value → AttachmentLine
attachment_line a = record {
  name = index (codes "name") a;
  size = index (codes "size") a;
  mime = index (codes "mime") a;
}

module _ (texts : Texts) (html : RewriterApi) (from_read : Bytes → ℕ → Result Text Text)
    (from_value : Value → Result Text LoginParams) (px : ProtonApi) (fuel : ℕ) where
  abbrev Printing : Type 0 → Type 0
  Printing A = Program texts html from_read from_value px fuel A

  abbrev asks : Text → Value → Printing Value
  asks = ask texts html from_read from_value px fuel

  -- The search, whose panic ends the program.
  unfoldable pub search_pages : Printing (Option Text)
  search_pages c = elim (find_attached texts html from_read from_value px fuel c) [
    | none ↦ no_outcome
    | some (panics, d) ↦ aborts
    | some (missing, d) ↦ ends none d
    | some (target id, d) ↦ ends (some id) d
  ]

  unfoldable pub fetch_first : List Value → Printing Fetched
  fetch_first [] = pure nothing
  fetch_first (first ∷ _) = do
    id ← unwrap (get_str (codes "id") first)
    got ← asks (codes "get_attachment") (id_params id)
    pure (fetched_of got)

  -- The start of the id, and the attachments.
  unfoldable pub open_message : Text → Printing (Text × List AttachmentLine × Fetched)
  open_message mid = do
    start ← unwrap (head_bytes 24 mid)
    body ← asks (codes "message_body") (id_params mid)
    got ← fetch_first (attachments_of body)
    pure (start, map attachment_line (attachments_of body), got)

  unfoldable pub lean_attach : Printing (Option (Text × List AttachmentLine × Fetched))
  lean_attach = do
    _ ← asks (codes "restore_session") (object end)
    found ← search_pages
    elim found [ none ↦ pure none | some mid ↦ do shown ← open_message mid; pure (some shown) ]
