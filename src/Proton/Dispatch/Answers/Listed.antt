-- ===== src/Proton/Dispatch/Answers/Listed.antt =====
-- What the lists of labels and messages answer.
use aerogram.Prelude.{
  ℕ, ◌≡◌, refl, true, inl, inr, Bool-cases, List, [], ◌∷◌, ◌++◌, map, All, Text, codes,
  Result-cases,
}
use aerogram.Json.{Value, string, number, object, field, array, end}
use aerogram.Json.Shapes.{Shape, text, list_of, every, fits}
use aerogram.Proton.Core.{ProtonApi, ProtonCore, Label, LabelCount, MessageMetadata}
use aerogram.Proton.Core.Yields.{Yields, Yields-step}
use aerogram.Proton.Labels.{
  to_values, label_row, counted, has_id, merge_count, merge_counts, rows, row_ids, with_counts,
  listed_system, message_row, list_labels, list_messages, first_page,
}
use aerogram.Proton.Labels.Listing.{from_values-to_values}
use aerogram.Proton.Dispatch.{Method}
use aerogram.Proton.Dispatch.Answers.{answer_shape, label_shape, message_shape, Fits}

pub all_fit :
    (s : Shape) (vs : List Value) → All (Fits s) vs → Fits (list_of s) (array (to_values vs))
unfolding fits
all_fit s vs h = rw from_values-to_values (each vs h)
  where
    each : (vs : List Value) → All (Fits s) vs → every (fits s) vs ≡ true
    each [] h = refl
    each (v ∷ vs) (fit, rest) = rw (fit, each vs rest) refl

pub maps_fit :
    {A : Type 0} (s : Shape) (f : A → Value)
    → ((a : A) → Fits s (f a))
    → (xs : List A) → Fits (list_of s) (array (to_values (map f xs)))
maps_fit {A} s f fit xs = all_fit s (map f xs) (each xs)
  where
    each : (xs : List A) → All (Fits s) (map f xs)
    each [] = tt
    each (a ∷ xs) = (fit a, each xs)

-- A row is a label with or without counters.
data Row : Value → Type 0 where
  plain : (id name : Text) → Row (label_row id name)
  full :
      (id name : Text) (total unread : ℕ)
      → Row (
          object (
            field (codes "id") (string id) (
              field (codes "name") (string name) (
                field
                  (codes "total")
                  (number total)
                  (field (codes "unread") (number unread) end)))))

Row-Fits : (v : Value) → Row v → Fits label_shape v
unfolding fits
Row-Fits _ (plain id name) = refl
Row-Fits _ (full id name total unread) = refl

counted-Row : (c : LabelCount) (v : Value) → Row v → Row (counted c v)
counted-Row c _ (plain id name) = full id name c.total c.unread
counted-Row c _ (full id name total unread) = full id name c.total c.unread

merge_count-Row : (c : LabelCount) (vs : List Value) → All Row vs → All Row (merge_count c vs)
unfolding merge_count
merge_count-Row c [] h = tt
merge_count-Row c (v ∷ vs) (row, rest) = elim (Bool-cases (has_id c.label_id v)) [
  | inl hit ↦ rw hit (counted-Row c v row, rest)
  | inr miss ↦ rw miss (row, merge_count-Row c vs rest)
]

merge_counts-Row :
    (cs : List LabelCount) (vs : List Value) → All Row vs → All Row (merge_counts cs vs)
unfolding merge_counts
merge_counts-Row [] vs h = h
merge_counts-Row (c ∷ cs) vs h = merge_counts-Row cs (merge_count c vs) (merge_count-Row c vs h)

rows-Row : (ls : List Label) → All Row (rows ls)
rows-Row [] = tt
rows-Row (l ∷ ls) = (plain l.id l.name, rows-Row ls)

All-Fits : (vs : List Value) → All Row vs → All (Fits label_shape) vs
All-Fits [] h = tt
All-Fits (v ∷ vs) (row, rest) = (Row-Fits v row, All-Fits vs rest)

message_row-Fits : (px : ProtonApi) (m : MessageMetadata) → Fits message_shape (message_row px m)
unfolding fits
message_row-Fits px m = rw (maps_fit text string (λ t. refl) m.label_ids) refl

module _ (px : ProtonApi) where
  with_counts-Row :
      (session : px.ApiSession) (vs : List Value) (c : ProtonCore px)
      → All Row vs
      → All Row (with_counts px session vs c).0
  unfolding with_counts
  with_counts-Row session vs c h =
      elim (Result-cases (px.get_messages_count_for_labels (row_ids vs) session c.world).0) [
        | inl (e, failed) ↦ rw failed h
        | inr (counts, had) ↦ rw had (merge_counts-Row counts vs h)
      ]

  pub list_labels-Yields :
      (params : Value) (c : ProtonCore px)
      → Yields (Fits (answer_shape Method.list_labels)) (list_labels px params) c
  unfolding list_labels
  list_labels-Yields params c = Yields-step _ _ λ session c₁ there. Yields-step _ _ λ labels c₂ had.
      let all = rows (listed_system params ++ labels) in
      record {
        yielded = all_fit label_shape _ (
            All-Fits _
              (with_counts-Row session all c₂ (rows-Row (listed_system params ++ labels))));
      }

  pub list_messages-Yields :
      (params : Value) (c : ProtonCore px)
      → Yields (Fits (answer_shape Method.list_messages)) (list_messages px params) c
  unfolding list_messages first_page fits
  list_messages-Yields params c = Yields-step _ _ λ id c₁ given. Yields-step _ _ λ session c₂ there.
      Yields-step _ _ λ resp c₃ had. record {
        yielded =
            rw (maps_fit message_shape (message_row px) (message_row-Fits px) resp.messages) refl;
      }
