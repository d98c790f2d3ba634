-- ===== src/Proton/Labels.antt =====
-- proton-core/src/lib.rs, `list_labels` and `list_messages`.
pub mod Asked
pub mod Listing
use aerogram.Prelude.{
  ℕ, Bool, false, Option, none, some, List, [], ◌∷◌, ◌++◌, map, if◌then◌else◌, Text, codes, text_eq,
  ok, err, ok_or, unwrap_or,
}
use aerogram.Prelude.{◌-◌}
use aerogram.Json.{
  Value, Values, Fields, bool, number, string, array, object, nil, cons, field, end, get_str,
  get_u64,
}
use aerogram.Proton.Core.{
  Action, ◌>>=◌, lift, ProtonApi, ProtonCore, call, api, LabelType, Label, LabelCount,
  MessageMetadata,
}
use aerogram.Proton.Core.{◌>>◌}

abbrev pub to_values : List Value → Values
to_values [] = nil
to_values (v ∷ vs) = cons v (to_values vs)

-- `l["key"] = v` on an object.
abbrev pub set_field : Text → Value → Fields → Fields
set_field k v end = field k v end
set_field k v (field j w fs) = if text_eq j k then field j v fs else field j w (set_field k v fs)

abbrev pub set_key : Text → Value → Value → Value
set_key k v (object fs) = object (set_field k v fs)
set_key k v other = other

abbrev pub label_row : Text → Text → Value
label_row id name = object (field (codes "id") (string id) (field (codes "name") (string name) end))

abbrev pub system_labels : List Label
system_labels =
    record { id = codes "0"; name = codes "INBOX" }
    ∷ record { id = codes "8"; name = codes "Drafts" }
    ∷ record { id = codes "7"; name = codes "Sent" }
    ∷ record { id = codes "6"; name = codes "Archive" }
    ∷ record { id = codes "4"; name = codes "Spam" }
    ∷ record { id = codes "3"; name = codes "Trash" }
    ∷ record { id = codes "5"; name = codes "All Mail" }
    ∷ []

abbrev pub is_label_type : Value → Bool
is_label_type params = elim (get_str (codes "label_type") params) [
  | none ↦ false
  | some t ↦ text_eq t (codes "label")
]

-- The fixed labels are left out where the caller asks for "label".
unfoldable pub listed_system : Value → List Label
listed_system params = if is_label_type params then [] else system_labels

-- `get("label_type")` with its default, matched.
unfoldable pub label_type : Value → LabelType
label_type params =
    let wanted = unwrap_or (get_str (codes "label_type") params) (codes "folder") in
    if text_eq wanted (codes "label") then LabelType.label else LabelType.folder

-- `filter_map` over the rows' ids.
abbrev pub row_ids : List Value → List Text
row_ids [] = []
row_ids (v ∷ vs) = elim (get_str (codes "id") v) [ none ↦ row_ids vs | some id ↦ id ∷ row_ids vs ]

abbrev pub has_id : Text → Value → Bool
has_id id v = elim (get_str (codes "id") v) [ none ↦ false | some i ↦ text_eq i id ]

abbrev pub counted : LabelCount → Value → Value
counted c l =
    set_key (codes "unread") (number c.unread) (set_key (codes "total") (number c.total) l)

-- `iter_mut().find(…)`: the first row with the counter's id gets its numbers.
unfoldable pub merge_count : LabelCount → List Value → List Value
merge_count c [] = []
merge_count c (l ∷ ls) = if has_id c.label_id l then counted c l ∷ ls else l ∷ merge_count c ls

unfoldable pub merge_counts : List LabelCount → List Value → List Value
unfolding merge_count
merge_counts [] ls = ls
merge_counts (c ∷ cs) ls = merge_counts cs (merge_count c ls)

abbrev pub rows : List Label → List Value
rows = map λ l. label_row l.id l.name

module _ (px : ProtonApi) where
  -- The rows with the counters, or as they are if the counters cannot be had.
  unfoldable pub with_counts :
      px.ApiSession → List Value → ProtonCore px → List Value × ProtonCore px
  with_counts session out c =
      let (r, w) = px.get_messages_count_for_labels (row_ids out) session c.world in
      (elim r [ ok counts ↦ merge_counts counts out | err _ ↦ out ], record c { world = w })

  unfoldable pub list_labels : Value → Action (ProtonCore px) Value
  unfolding api call
  list_labels params = do
    session ← api
    labels ← call (codes "get_labels") (px.get_labels (label_type params) session)
    λ c.
        let (out, c') = with_counts session (rows (listed_system params ++ labels)) c in
        (ok (array (to_values out)), c')

  abbrev pub message_row : MessageMetadata → Value
  message_row m = object (
      field (codes "id") (string m.id) (
        field (codes "remote_id") (string m.id) (
          field (codes "subject") (string m.subject) (
            field (codes "sender_name") (string m.sender_name) (
              field (codes "sender_addr") (string m.sender_addr) (
                field (codes "time") (number m.time) (
                  field (codes "unread") (bool m.unread) (
                    field (codes "attachments") (number m.num_attachments) (
                      field (codes "labels") (array (to_values (map string m.label_ids)))
                        end)))))))))

  -- The call with the parameters read: always the first page.
  unfoldable pub first_page : Option Text → Option ℕ → Action (ProtonCore px) Value
  unfolding api call
  first_page label limit = do
    label_id ← lift (ok_or label (codes "missing label_id"))
    session ← api
    resp ← call (codes "get_messages") (
        px.get_messages
          (record { label_id = label_id ∷ []; page = 0; page_size = unwrap_or limit 50 }) session)
    λ c. (
      ok (
          object (
            field (codes "messages") (array (to_values (map message_row resp.messages)))
              (field (codes "total") (number resp.total) end))),
      c,
    )

  unfoldable pub list_messages : Value → Action (ProtonCore px) Value
  unfolding first_page
  list_messages params =
      first_page (get_str (codes "label_id") params) (get_u64 (codes "limit") params)
