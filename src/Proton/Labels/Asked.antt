-- ===== src/Proton/Labels/Asked.antt =====
-- Which labels `list_labels` asks the server for, and which fixed ones it puts in front.
use aerogram.Prelude.{
  Text, Option, none, Bool, false, if◌then◌else◌, text_eq, arith, ◌≡◌, ◌≢◌, refl, ap, ◌∙◌, inl, inr,
  some, List, [], ◌∷◌, ◌++◌, map, Bool-cases, Option-cases, codes, text_eq_sound, ok,
}
use aerogram.Json.{Value, array, get_str}
use aerogram.Proton.Core.{ProtonApi, ProtonCore, LabelType, Label}
use aerogram.Proton.Labels.{to_values, rows, with_counts, listed_system, label_type, list_labels}
use aerogram.Proton.Labels.Listing.{list_labels_answer, with_counts_lem, map_id-rows, map_name-rows}

-- Proton's own labels, by id and name, in the order of a mailbox's sidebar.
abbrev pub mailbox : List Label
mailbox =
    record { id = codes "0"; name = codes "INBOX" }
    ∷ record { id = codes "8"; name = codes "Drafts" }
    ∷ record { id = codes "7"; name = codes "Sent" }
    ∷ record { id = codes "6"; name = codes "Archive" }
    ∷ record { id = codes "4"; name = codes "Spam" }
    ∷ record { id = codes "3"; name = codes "Trash" }
    ∷ record { id = codes "5"; name = codes "All Mail" }
    ∷ []

-- A caller that asks for "label" is shown the server's labels alone; any other, one that asks for
-- nothing too, is shown the mailbox and the server's folders.
pub data Asked (params : Value) : LabelType → List Label → Type 0 where
  for_labels :
      get_str (codes "label_type") params ≡ some (codes "label") → Asked params LabelType.label []
  for_folders :
      get_str (codes "label_type") params ≢ some (codes "label")
      → Asked params LabelType.folder mailbox

abbrev is_label : Option Text → Bool
is_label none = false
is_label (some t) = text_eq t (codes "label")

listed_as :
    (params : Value) (o : Option Text)
    → get_str (codes "label_type") params ≡ o
    → listed_system params ≡ (if is_label o then [] else mailbox)
unfolding listed_system
listed_as params none e = ground (arith, e)
listed_as params (some t) e = ground (arith, e)

other_type :
    (params : Value)
    → get_str (codes "label_type") params ≢ some (codes "label")
    → (label_type params ≡ LabelType.folder) × (listed_system params ≡ mailbox)
unfolding label_type
other_type params differs = elim (Option-cases (get_str (codes "label_type") params)) [
  | inl missing ↦ (rw missing refl, listed_as params none missing)
  | inr (t, given) ↦ elim (Bool-cases (text_eq t (codes "label"))) [
    | inl same ↦ absurd (differs (given ∙ ap some (text_eq_sound t (codes "label") same)))
    | inr other ↦ (rw given (rw other refl), listed_as params (some t) given ∙ rw other refl)
  ]
]

asked_lem :
    (params : Value) (type : LabelType) (fixed : List Label)
    → Asked params type fixed
    → (label_type params ≡ type) × (listed_system params ≡ fixed)
unfolding label_type
asked_lem params type fixed (for_labels given) = (rw given refl, listed_as params _ given)
asked_lem params type fixed (for_folders differs) = other_type params differs

module _ (px : ProtonApi) where
  -- A client that is signed in, and whose labels the server gives, is answered with the mailbox's
  -- seven labels, unless it asked for "label", and behind them the server's labels of the type that
  -- it asked for, by id and name, in order, whatever becomes of the counters; the core's state is
  -- as before.
  pub list_labels-Asked :
      (params : Value) (c : ProtonCore px) (session : px.ApiSession) (type : LabelType)
      (fixed labels : List Label) (w : px.World)
      → Asked params type fixed
      → c.state.api ≡ some session
      → px.get_labels type session c.world ≡ (ok labels, w)
      → (vs : List Value) × ((list_labels px params c).0 ≡ ok (array (to_values vs)))
        × (map (get_str (codes "id")) vs ≡ map (λ l. some l.id) (fixed ++ labels))
        × (map (get_str (codes "name")) vs ≡ map (λ l. some l.name) (fixed ++ labels))
        × ((list_labels px params c).1.state ≡ c.state)
  list_labels-Asked params c session type fixed labels w asked here there =
      let (same_type, same_fixed) = asked_lem params type fixed asked in
      let all = listed_system params ++ labels in
      let ready : ProtonCore px = record { state = c.state; world = w } in
      let ids = with_counts_lem px (codes "id") session (rows all) ready (refl, refl) in
      let names = with_counts_lem px (codes "name") session (rows all) ready (refl, refl) in
      let run =
        list_labels_answer px params c session labels w here
          (ap (λ t. px.get_labels t session c.world) same_type ∙ there) in
      (
        (with_counts px session (rows all) ready).0,
        ap (λ x. x.0) run,
        ids.0 ∙ map_id-rows all ∙ ap (λ f. map (λ l. some l.id) (f ++ labels)) same_fixed,
        names.0 ∙ map_name-rows all ∙ ap (λ f. map (λ l. some l.name) (f ++ labels)) same_fixed,
        ap (λ x. x.1.state) run ∙ ids.1,
      )
