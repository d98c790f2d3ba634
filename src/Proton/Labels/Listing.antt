-- ===== src/Proton/Labels/Listing.antt =====
-- What the lists of labels and messages hold.
pub mod Tests
use aerogram.Proton.Core.{◌>>=◌, ◌>>◌}
use aerogram.Prelude.{
  unwrap_or, ℕ, ◌≡◌, refl, ap, ◌∙◌, inl, inr, false, Option, none, some, List, [], ◌∷◌, ◌++◌, map,
  arith, if◌then◌else◌, Bool-cases, All, Text, codes, text_eq, text_eq_refl, text_eq_sound, Result,
  ok, err, Result-cases,
}
use aerogram.Json.{
  Value, Fields, array, string, object, field, end, get, get_field, as_str, get_str, get_u64,
  from_values, null, bool, number,
}
use aerogram.Proton.Core.{ProtonApi, ProtonCore, call, api, Label, LabelCount, MessagesResponse}
use aerogram.Proton.Labels.{
  to_values, set_field, set_key, counted, has_id, row_ids, merge_count, merge_counts, rows,
  with_counts, listed_system, label_type, list_labels, list_messages, message_row,
}
use aerogram.Json.{as_u64}
use aerogram.Proton.Labels.{first_page}

-- The rows of an answer.
abbrev pub listed : Result Text Value → List Value
listed (ok (array vs)) = from_values vs
listed _ = []

pub from_values-to_values : (vs : List Value) → from_values (to_values vs) ≡ vs
from_values-to_values [] = refl
from_values-to_values (v ∷ vs) = ap (◌∷◌ v) (from_values-to_values vs)

-- The other fields of an object are left alone.
get_field-set_field :
    (j k : Text) (v : Value) (fs : Fields)
    → text_eq k j ≡ false
    → get_field j (set_field k v fs) ≡ get_field j fs
get_field-set_field j k v end h = rw h refl
get_field-set_field j k v (field i w fs) h = elim (Bool-cases (text_eq i k)) [
  | inl same ↦ rw (text_eq_sound i k same) (rw (text_eq_refl k) (rw h refl))
  | inr other ↦ rw other (
      ap (λ (r : Option Value). if text_eq i j then some w else r) (get_field-set_field j k v fs h))
]

-- The counters change neither ids nor names.
abbrev IsUncounted : Text → Type 0
IsUncounted j = (text_eq (codes "total") j ≡ false) × (text_eq (codes "unread") j ≡ false)

get_str-set_key :
    (j k : Text) (v l : Value) → text_eq k j ≡ false → get_str j (set_key k v l) ≡ get_str j l
get_str-set_key j k v (object fs) h =
    ap (λ (o : Option Value). let r : Option Text = elim o [ none ↦ none | some x ↦ as_str x ] in r)
      (get_field-set_field j k v fs h)
get_str-set_key j k v null h = refl
get_str-set_key j k v (bool b) h = refl
get_str-set_key j k v (number n) h = refl
get_str-set_key j k v (string s) h = refl
get_str-set_key j k v (array vs) h = refl

get_str-counted :
    (j : Text) (c : LabelCount) (l : Value) → IsUncounted j → get_str j (counted c l) ≡ get_str j l
get_str-counted j c l (t, u) =
    get_str-set_key j (codes "unread") (number c.unread)
      (set_key (codes "total") (number c.total) l) u
    ∙ get_str-set_key j (codes "total") (number c.total) l t

map-merge_count :
    (j : Text) (c : LabelCount) (ls : List Value)
    → IsUncounted j
    → map (get_str j) (merge_count c ls) ≡ map (get_str j) ls
unfolding merge_count
map-merge_count j c [] h = refl
map-merge_count j c (l ∷ ls) h = elim (Bool-cases (has_id c.label_id l)) [
  | inl hit ↦ rw hit (ap (λ (i : Option Text). i ∷ map (get_str j) ls) (get_str-counted j c l h))
  | inr miss ↦ rw miss (ap (◌∷◌ (get_str j l)) (map-merge_count j c ls h))
]

map-merge_counts :
    (j : Text) (cs : List LabelCount) (ls : List Value)
    → IsUncounted j
    → map (get_str j) (merge_counts cs ls) ≡ map (get_str j) ls
unfolding merge_counts
map-merge_counts j [] ls h = refl
map-merge_counts j (c ∷ cs) ls h =
    map-merge_counts j cs (merge_count c ls) h ∙ map-merge_count j c ls h

pub map_id-rows : (ls : List Label) → map (get_str (codes "id")) (rows ls) ≡ map (λ l. some l.id) ls
map_id-rows [] = refl
map_id-rows (l ∷ ls) = ap (◌∷◌ (some l.id)) (map_id-rows ls)

pub map_name-rows :
    (ls : List Label) → map (get_str (codes "name")) (rows ls) ≡ map (λ l. some l.name) ls
map_name-rows [] = refl
map_name-rows (l ∷ ls) = ap (◌∷◌ (some l.name)) (map_name-rows ls)

module _ (px : ProtonApi) where
  pub with_counts_lem :
      (j : Text) (session : px.ApiSession) (ls : List Value) (c : ProtonCore px)
      → IsUncounted j
      → (map (get_str j) (with_counts px session ls c).0 ≡ map (get_str j) ls)
        × ((with_counts px session ls c).1.state ≡ c.state)
  unfolding with_counts
  with_counts_lem j session ls c h =
      elim (Result-cases (px.get_messages_count_for_labels (row_ids ls) session c.world).0) [
        | inl (e, failed) ↦ rw failed (refl, refl)
        | inr (counts, there) ↦ rw there (map-merge_counts j counts ls h, refl)
      ]

  pub list_labels_answer :
      (params : Value) (c : ProtonCore px) (session : px.ApiSession) (labels : List Label)
      (w : px.World)
      → c.state.api ≡ some session
      → px.get_labels (label_type params) session c.world ≡ (ok labels, w)
      → let counted_rows =
          with_counts px session (rows (listed_system params ++ labels)) (record c { world = w }) in
        list_labels px params c ≡ (ok (array (to_values counted_rows.0)), counted_rows.1)
  unfolding ◌>>=◌ ◌>>◌ list_labels api call
  list_labels_answer params c session labels w here there = ground arith

  -- Whatever the counters say, and if they cannot be had, the rows are the fixed labels, unless
  -- the caller asked for "label", and behind them those of the server, in order, by id and name.
  pub list_labels_rows :
      (params : Value) (c : ProtonCore px) (session : px.ApiSession) (labels : List Label)
      (w : px.World)
      → c.state.api ≡ some session
      → px.get_labels (label_type params) session c.world ≡ (ok labels, w)
      → let out = list_labels px params c in
        (map (get_str (codes "id")) (listed out.0)
          ≡ map (λ l. some l.id) (listed_system params ++ labels))
        × (map (get_str (codes "name")) (listed out.0)
            ≡ map (λ l. some l.name) (listed_system params ++ labels))
        × (out.1.state ≡ c.state)
  list_labels_rows params c session labels w here there =
      let all = listed_system params ++ labels in
      let ready : ProtonCore px = record { state = c.state; world = w } in
      let ids = with_counts_lem (codes "id") session (rows all) ready (refl, refl) in
      let names = with_counts_lem (codes "name") session (rows all) ready (refl, refl) in
      rw (list_labels_answer params c session labels w here there)
        (rw from_values-to_values (ids.0 ∙ map_id-rows all, names.0 ∙ map_name-rows all, ids.1))

string_no_number : (k s : Text) (v : Value) → get_str k v ≡ some s → get_u64 k v ≡ none
string_no_number k s v e = read (get k v) e
  where
    read :
        (o : Option Value)
        → ◌≡◌ {A = Option Text} (elim o [ none ↦ none | some x ↦ as_str x ]) (some s)
        → ◌≡◌ {A = Option ℕ} (elim o [ none ↦ none | some x ↦ as_u64 x ]) none
    read none e = refl
    read (some (string t)) e = refl
    read (some null) e = refl
    read (some (bool b)) e = refl
    read (some (number n)) e = cc
    read (some (array vs)) e = refl
    read (some (object fs)) e = refl

All-no_number :
    (vs : List Value) (ls : List Label)
    → map (get_str (codes "id")) vs ≡ map (λ l. some l.id) ls
    → All (λ v. get_u64 (codes "id") v ≡ none) vs
All-no_number [] ls e = tt
All-no_number (v ∷ vs) [] e = cc
All-no_number (v ∷ vs) (l ∷ ls) e =
    (string_no_number (codes "id") l.id v (cc), All-no_number vs ls (cc))

module _ (px : ProtonApi) where
  -- No row's id reads as a number: a client that takes `as_u64` of it finds nothing, in every row.
  pub list_labels_ids :
      (params : Value) (c : ProtonCore px) (session : px.ApiSession) (labels : List Label)
      (w : px.World)
      → c.state.api ≡ some session
      → px.get_labels (label_type params) session c.world ≡ (ok labels, w)
      → All (λ v. get_u64 (codes "id") v ≡ none) (listed (list_labels px params c).0)
  list_labels_ids params c session labels w here there =
      All-no_number _ _ (list_labels_rows px params c session labels w here there).0

  pub list_messages_answer :
      (params : Value) (id : Text) (c : ProtonCore px) (session : px.ApiSession)
      (resp : MessagesResponse) (w : px.World)
      → get_str (codes "label_id") params ≡ some id
      → c.state.api ≡ some session
      → px.get_messages
          (record {
            label_id = id ∷ [];
            page = 0;
            page_size = unwrap_or (get_u64 (codes "limit") params) 50;
          })
          session
          c.world
        ≡ (ok resp, w)
      → list_messages px params c ≡ (
        ok (
            object (
              field
                (codes "messages")
                (array (to_values (map (message_row px) resp.messages)))
                (field (codes "total") (number resp.total) end))),
        record { state = c.state; world = w },
      )
  unfolding ◌>>=◌ ◌>>◌ list_messages first_page api call
  list_messages_answer params id c session resp w given here there = ground arith

  -- Without a label, and before a login, no call goes out: the state and the world stay.
  pub list_messages_refuses :
      (params : Value) (c : ProtonCore px)
      → (get_str (codes "label_id") params ≡ none
          → list_messages px params c ≡ (err (codes "missing label_id"), c))
        × ((id : Text)
            → get_str (codes "label_id") params ≡ some id
            → c.state.api ≡ none
            → list_messages px params c ≡ (err (codes "not logged in"), c))
  unfolding ◌>>=◌ ◌>>◌ list_messages api
  list_messages_refuses params c = ((λ missing. ground arith), (λ id given out. ground arith))
