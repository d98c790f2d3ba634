-- ===== src/Proton/Labels/Listing/Tests.antt =====
-- The lists in the small world, and their theorems there.
use aerogram.Proton.Core.{◌>>=◌, ◌>>◌}
use aerogram.Prelude.{◌≡◌, refl, some, List, [], ◌∷◌, map, codes, err, ok, ◌++◌}
use aerogram.Json.{Value, string, array, object, field, end, get_str, get_u64}
use aerogram.Proton.Core.{Label, LabelType, api}
use aerogram.Proton.Labels.{
  listed_system, list_labels, list_messages, first_page, with_counts, merge_counts, merge_count,
  to_values,
}
use aerogram.Proton.Labels.Listing.{listed}
use aerogram.Proton.Labels.Asked.{mailbox, Asked, for_labels, list_labels-Asked}
use aerogram.Proton.Mock.{mock, fresh, signed_in, text_param}

abbrev only_labels : Value
only_labels = text_param (codes "label_type") (codes "label")

abbrev work : List Label
work = record { id = codes "x1"; name = codes "Work" } ∷ []

counters_ride_along :
    map (get_u64 (codes "unread")) (listed (list_labels mock only_labels signed_in).0) ≡ some 2 ∷ []
unfolding ◌>>=◌ ◌>>◌ list_labels with_counts merge_counts listed_system
counters_ride_along = refl

asks_for_labels : Asked only_labels LabelType.label []
asks_for_labels = for_labels refl

list_labels-Asked_example :
    (vs : List Value) × ((list_labels mock only_labels signed_in).0 ≡ ok (array (to_values vs)))
    × (map (get_str (codes "id")) vs ≡ some (codes "x1") ∷ [])
    × (map (get_str (codes "name")) vs ≡ some (codes "Work") ∷ [])
    × ((list_labels mock only_labels signed_in).1.state ≡ signed_in.state)
list_labels-Asked_example =
    list_labels-Asked mock only_labels signed_in 7 LabelType.label [] work 0 asks_for_labels refl
      refl

-- Without a type, the mailbox comes first.
sidebar :
    map (get_str (codes "name")) (listed (list_labels mock (object end) signed_in).0)
    ≡ map (λ l. some l.name) (mailbox ++ work)
unfolding ◌>>=◌ ◌>>◌ list_labels with_counts merge_counts merge_count listed_system
sidebar = refl

abbrev inbox : Value
inbox = object (field (codes "label_id") (string (codes "0")) end)

signed_out : list_messages mock inbox fresh ≡ (err (codes "not logged in"), fresh)
unfolding ◌>>=◌ ◌>>◌ list_messages first_page api
signed_out = refl
