-- ===== src/Html/Rewriting/Tests.antt =====
-- The handlers on a small model of an element, and their theorems there.
use aerogram.Prelude.{
  ◌≡◌, refl, map_some, Bool, true, false, none, some, List, [], ◌∷◌, if◌then◌else◌, All, Text,
  codes, text_eq, ok,
}
use aerogram.Html.Elements.{ElementApi, is_bad}
use aerogram.Html.Elements.Attributes.{without}
use aerogram.Html.Rewriting.{
  Rule, links, anything, handle, reader_handle, reader_handlers, matched, run,
}
use aerogram.Html.Elements.{on_reader_any}
use aerogram.Html.Rewriting.Effects.{Fate, whole, gone, unwrap, HasEffects, find_attr, put_attr}
use aerogram.Html.Rewriting.Lists.{IsClean, find_attr-put_self, find_attr-put_other, link_attr}
use aerogram.Html.Rewriting.Display.{Matching, display_policed, display_spares}
use aerogram.Html.Rewriting.Reader.{Renames, reader_calms}
use aerogram.Html.Rewriting.Links.{reader_links}
use aerogram.Html.Elements.Links.{cleaned}

record Tag : Type 0 where
  tag : Text
  pairs : List (Text × Text)
  fate : Fate

abbrev put : Text → Text → Tag → Tag
put n v t = record t { pairs = put_attr n v t.pairs }

abbrev small : ElementApi
small = record {
  Element = Tag;
  tag_name = λ t. t.tag;
  attributes = λ t. t.pairs;
  get_attribute = λ n t. find_attr n t.pairs;
  set_attribute = λ n v t. ok (put n v t);
  remove_attribute = λ n t. record t { pairs = without n t.pairs };
  remove = λ t. record t { fate = gone };
  remove_and_keep_content = λ t. record t { fate = unwrap t.fate };
  set_tag_name = λ n t. ok (record t { tag = n });
}

abbrev effects : HasEffects small
effects = record {
  removes = record { removes = λ n e. refl };
  sets = record {
    set = put;
    succeeds = λ n v e letters. refl;
    same = λ n v e. find_attr-put_self n v e.pairs;
    other = λ n m v e differs. find_attr-put_other n m v e.pairs differs;
  };
  gets = λ n e. refl;
  puts = λ n v e. refl;
  attributes_remove = λ e. refl;
  tag_set = λ n v e. refl;
  tag_remove_attribute = λ n e. refl;
  tag_remove = λ e. refl;
  fate = λ t. t.fate;
  fate_set = λ n v e. refl;
  fate_remove_attribute = λ n e. refl;
  fate_remove = λ e. refl;
}

abbrev renames : Renames small effects
renames = record {
  attributes_unwrap = λ e. refl;
  tag_unwrap = λ e. refl;
  fate_unwrap = λ e. refl;
  rename = λ n t. record t { tag = n };
  renames = λ n e letters. refl;
  attributes_rename = λ n e. refl;
  tag_rename = λ n e. refl;
  fate_rename = λ n e. refl;
}

abbrev element : Text → List (Text × Text) → Tag
element tag pairs = record { tag = tag; pairs = pairs; fate = whole }

abbrev script_link : Tag
script_link =
    element (codes "a") ((codes "onclick", codes "x()") ∷ (codes "href", codes "javascript:x") ∷ [])

-- The last handler registered may run first.
backwards : List Rule
backwards = anything ∷ links ∷ []

backwards-Matching : Matching backwards (codes "a")
unfolding backwards
backwards-Matching Rule.removing = refl
backwards-Matching Rule.images = refl
backwards-Matching Rule.links = refl
backwards-Matching Rule.anything = refl

display_policed_example :
    (out : Tag) × (flag : Bool) × (run small (handle small) backwards script_link ≡ ok (out, flag))
    × IsClean out.pairs
    × (out.fate ≡ whole)
    × (find_attr (codes "rel") out.pairs ≡ some (codes "noreferrer noopener"))
    × (find_attr (codes "target") out.pairs ≡ some (codes "_blank"))
display_policed_example = display_policed small effects backwards script_link backwards-Matching

abbrev tracked : Tag
tracked = element (codes "a") ((codes "href", codes "/a?fbclid=1&b=2") ∷ [])

display_spares_example :
    (out : Tag) × (run small (handle small) backwards tracked ≡ ok (out, false))
    × ((k : Text) → find_attr k out.pairs ≡ link_attr k (find_attr k tracked.pairs))
unfolding is_bad
display_spares_example =
    display_spares small effects backwards tracked backwards-Matching (refl, tt)

abbrev cell : Tag
cell = element (codes "td") ((codes "style", codes "padding:20px") ∷ [])

reader_calms_example :
    (out : Tag) × (run small (reader_handle small) (matched reader_handlers (codes "td")) cell
      ≡ ok (out, false))
    × (out.tag ≡ codes "p")
    × (out.fate ≡ whole)
    × All (λ a. ◌≡◌ {A = Bool} false true) out.pairs
reader_calms_example = reader_calms small effects renames cell

abbrev loaded : Tag
loaded = element (codes "body") ((codes "onload", codes "x()") ∷ [])

onload_stays :
    run small (reader_handle small) (matched reader_handlers (codes "body")) loaded
    ≡ ok (loaded, false)
unfolding run reader_handle on_reader_any
onload_stays = refl

reader_links_example :
    (out : Tag) × (run small (reader_handle small) (matched reader_handlers (codes "a")) script_link
      ≡ ok (out, false))
    × ((k : Text)
        → find_attr k out.pairs ≡ (
            if text_eq (codes "href") k
            then map_some cleaned (find_attr k script_link.pairs)
            else if text_eq (codes "rel") k
            then some (codes "noreferrer noopener")
            else if text_eq (codes "target") k
            then some (codes "_blank")
            else none))
reader_links_example = reader_links small effects renames script_link refl
