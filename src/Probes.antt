-- ===== src/Probes.antt =====
-- proton-core/src/bin, the probe programs `lean_attach` and `probe`: their loops over what the core
-- answers. What they print is left out, and the texts between them and the core are the JSON values
-- that they stand for.
pub mod Answers
pub mod Lines
pub mod Checks
pub mod Spike
pub mod Attach
pub mod Listings
pub mod Watches
pub mod Shell
pub mod Headers
pub mod Probing
pub mod Tests
use aerogram.Prelude.{
  ℕ, suc, zero, ◌+◌, ltb, if◌then◌else◌, Option, none, some, List, [], ◌∷◌, length, Text, Bytes,
  codes, Result, unwrap_or,
}
use aerogram.Json.{Value, null, as_array, string, number, object, field, end, get, get_str, get_u64}
use aerogram.Html.Stream.{RewriterApi}
use aerogram.Proton.Core.{ProtonApi, ProtonCore}
use aerogram.Proton.Auth.{LoginParams}
use aerogram.Proton.Dispatch.{dispatch}
use aerogram.Proton.Abi.{Texts, envelope}

-- `value[key]`
abbrev pub index : Text → Value → Value
index k v = unwrap_or (get k v) null

-- `value["ok"]`, which is null where there is no such field, and `as_array` of it.
abbrev pub get_array : Text → Value → Option (List Value)
get_array k v = elim (get k v) [ none ↦ none | some x ↦ as_array x ]

abbrev pub messages_of : Value → Option (List Value)
messages_of r = elim (get (codes "ok") r) [ none ↦ none | some x ↦ get_array (codes "messages") x ]

-- What a search ends with; a message that has attachments and no id is unwrapped, which panics.
pub data Search : Type 0 where
  panics : Search
  missing : Search
  target : Text → Search

unfoldable pub with_attachments : List Value → Search
with_attachments [] = missing
with_attachments (m ∷ ms) =
    let rest = with_attachments ms in
    if ltb 0 (unwrap_or (get_u64 (codes "attachments") m) 0)
    then elim (get_str (codes "id") m) [ none ↦ panics | some id ↦ target id ]
    else rest

-- What the search ends with at an answer, unless it goes on to the next page.
unfoldable pub ended : Option (List Value) → Option Search
ended none = some missing
ended (some []) = some missing
ended (some (m ∷ ms)) = elim (with_attachments (m ∷ ms)) [
  | panics ↦ some panics
  | target id ↦ some (target id)
  | missing ↦ none
]

abbrev pub inbox_page : ℕ → Value
inbox_page page = object (
    field (codes "label_id") (string (codes "0"))
      (field (codes "limit") (number 50) (field (codes "page") (number page) end)))

-- The parameters of `list_messages` for a label in `probe`.
abbrev pub label_page : ℕ → Value
label_page id =
    object (field (codes "label_id") (number id) (field (codes "limit") (number 10) end))

-- How many messages `probe` counts in an answer.
abbrev pub count_of : Value → ℕ
count_of r = elim (get_array (codes "ok") r) [ none ↦ 0 | some vs ↦ length vs ]

module _ (texts : Texts) (html : RewriterApi) (from_read : Bytes → ℕ → Result Text Text)
    (from_value : Value → Result Text LoginParams) (px : ProtonApi) (fuel : ℕ) where
  -- `call`: the reply of the core to a method.
  unfoldable pub call : Text → Value → ProtonCore px → Option (Value × ProtonCore px)
  call method params c = elim (dispatch html from_read from_value px fuel method params c) [
    | none ↦ none
    | some (r, d) ↦ some (envelope texts r, d)
  ]

  -- `lean_attach`, from a page on with some pages left: an answer without messages ends the search.
  unfoldable pub scan : ℕ → ℕ → ProtonCore px → Option (Search × ProtonCore px)
  scan zero page c = some (missing, c)
  scan (suc left) page c = elim (call (codes "list_messages") (inbox_page page) c) [
    | none ↦ none
    | some (r, d) ↦ elim (ended (messages_of r)) [
      | some found ↦ some (found, d)
      | none ↦ scan left (page + 1) d
    ]
  ]

  -- The pages 0 to 4.
  unfoldable pub find_attached : ProtonCore px → Option (Search × ProtonCore px)
  find_attached c = scan 5 0 c

  -- `probe`, the loop over the labels: how many messages it counts under each, or its panic at an
  -- id that is no number.
  unfoldable pub count_each : List Value → ProtonCore px → Option (Option (List ℕ) × ProtonCore px)
  count_each [] c = some (some [], c)
  count_each (l ∷ ls) c = elim (get_u64 (codes "id") l) [
    | none ↦ some (none, c)
    | some id ↦ elim (call (codes "list_messages") (label_page id) c) [
      | none ↦ none
      | some (msgs, d) ↦ elim (count_each ls d) [
        | none ↦ none
        | some (none, e) ↦ some (none, e)
        | some (some counts, e) ↦ some (some (count_of msgs ∷ counts), e)
      ]
    ]
  ]

  unfoldable pub count_labels : ProtonCore px → Option (Option (List ℕ) × ProtonCore px)
  count_labels c = elim (call (codes "list_labels") (object end) c) [
    | none ↦ none
    | some (labels, d) ↦ elim (get_array (codes "ok") labels) [
      | none ↦ some (some [], d)
      | some ls ↦ count_each ls d
    ]
  ]
