-- ===== src/Html/Elements/Tests.antt =====
-- The element handlers on a small model of an element, and their theorems there.
use aerogram.Prelude.{
  ◌≡◌, refl, Bool, true, false, Option, none, some, List, [], ◌∷◌, if◌then◌else◌, Text, codes,
  text_eq, text_eq_refl, ok,
}
use aerogram.Html.Elements.{ElementApi, remove_all, remove_where, is_bad, on_any, on_image}
use aerogram.Html.Elements.Attributes.{RemovesByName, without}
use aerogram.Html.Elements.Links.{SetsByName}

record Tag : Type 0 where
  tag : Text
  pairs : List (Text × Text)
  shown : Bool
  content : Bool

abbrev find : Text → List (Text × Text) → Option Text
find n [] = none
find n ((m, v) ∷ ps) = if text_eq m n then some v else find n ps

abbrev put : Text → Text → Tag → Tag
put n v t = record t { pairs = (n, v) ∷ t.pairs }

abbrev tags : ElementApi
tags = record {
  Element = Tag;
  tag_name = λ t. t.tag;
  attributes = λ t. t.pairs;
  get_attribute = λ n t. find n t.pairs;
  set_attribute = λ n v t. ok (put n v t);
  remove_attribute = λ n t. record t { pairs = without n t.pairs };
  remove = λ t. record t { shown = false; content = false };
  remove_and_keep_content = λ t. record t { shown = false };
  set_tag_name = λ n t. ok (record t { tag = n });
}

removes : RemovesByName tags
removes = record { removes = λ n e. refl }

sets : SetsByName tags
sets = record {
  set = put;
  succeeds = λ n v e letters. refl;
  same = λ n v e. rw (text_eq_refl n) refl;
  other = λ n m v e differs. rw differs refl;
}

abbrev link : Text → Tag
link href = record {
  tag = codes "a";
  pairs = (codes "href", href) ∷ [];
  shown = true;
  content = true;
}

abbrev loud : Text
loud = codes "JavaScript:alert(1)"

-- A scheme in other letters passes the filter.
loud_stays : (on_any tags (link loud)).pairs ≡ (codes "href", loud) ∷ []
unfolding on_any remove_where remove_all is_bad
loud_stays = refl

script_gone : (on_any tags (link (codes " javascript:x"))).pairs ≡ []
unfolding on_any remove_where remove_all is_bad
script_gone = refl

remote_image :
    (on_image tags
      (record (link (codes "x")) { pairs = (codes "src", codes "https://t.example/p") ∷ [] })).1
    ≡ true
unfolding on_image
remote_image = refl
