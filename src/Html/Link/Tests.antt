-- ===== src/Html/Link/Tests.antt =====
-- Runs of `clean_link`, and its theorems at concrete links.
use aerogram.Prelude.{◌≡◌, refl, none, some, codes, Text}
use aerogram.Html.Link.{clean_link, stays}
use aerogram.Html.Link.Parts.{link_base, params}
use aerogram.Html.Link.Stripping.{clean_link-keeps, clean_link-idempotent}
use aerogram.Prelude.{keep_if, length, ◌<◌}

abbrev dirty : Text
dirty = codes "https://e.com/p?utm_source=nl&id=42&fbclid=x"

abbrev clean : Text
clean = codes "https://e.com/p?id=42"

two_trackers : clean_link dirty ≡ some clean
unfolding clean_link
two_trackers = refl

upper_case : clean_link (codes "/?a=1&UTM_x=2") ≡ some (codes "/?a=1")
unfolding clean_link
upper_case = refl

lone_tracker : clean_link (codes "/?Ref=2") ≡ some (codes "/")
unfolding clean_link
lone_tracker = refl

clean_link-keeps_example :
    (link_base clean ≡ link_base dirty)
    × (params clean ≡ keep_if stays (params dirty))
    × (length (params clean) < length (params dirty))
clean_link-keeps_example = clean_link-keeps dirty clean two_trackers

-- The fragment `#top` is lost with the parameter before it.
fragment_lost : clean_link (codes "/a?fbclid=x#top") ≡ some (codes "/a")
unfolding clean_link
fragment_lost = refl

clean_link-idempotent_example : clean_link clean ≡ none
clean_link-idempotent_example = clean_link-idempotent dirty clean two_trackers
