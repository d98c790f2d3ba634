-- ===== src/Html/Link.antt =====
-- html-sanitize-core/src/lib.rs, `clean_link`: tracker parameters stripped from a link.
pub mod Parts
pub mod Stripping
pub mod Tests
use aerogram.Prelude.{
  ℕ, suc, ◌+◌, ◌≢◌, Bool, ◌&&◌, not, Option, none, some, List, [], ◌∷◌, ◌++◌, map, Text, codes,
  text_eq, starts_with, length, take, drop, any, keep_if, All, leb, ◌==◌, if◌then◌else◌, unwrap_or,
}
use mathlib.Core.Option

abbrev pub Lacks : ℕ → Text → Type 0
Lacks c = All (λ d. d ≢ c)

-- `str::find` of a character: where it first stands.
unfoldable pub find : ℕ → Text → Option ℕ
find c [] = none
find c (d ∷ s) = if d == c then some 0 else Option.map suc (find c s)

-- `str::split` at a character: the pieces between, at least one.
pub in_front : ℕ → List Text → List Text
in_front c [] = (c ∷ []) ∷ []
in_front c (p ∷ ps) = (c ∷ p) ∷ ps

unfoldable pub split : ℕ → Text → List Text
unfolding in_front
split sep [] = [] ∷ []
split sep (c ∷ s) = if c == sep then [] ∷ split sep s else in_front c (split sep s)

-- `Iterator::next` on the pieces.
unfoldable pub next : List Text → Option Text
next [] = none
next (p ∷ ps) = some p

-- `[&str]::join`.
unfoldable pub join : List Text → ℕ → Text
join [] sep = []
join (p ∷ []) sep = p
join (p ∷ q ∷ ps) sep = p ++ sep ∷ join (q ∷ ps) sep

abbrev pub to_ascii_lowercase : Text → Text
to_ascii_lowercase = map λ c. if leb b'A' c && leb c b'Z' then c + 32 else c

abbrev pub trackers : List Text
trackers =
    codes "fbclid"
    ∷ codes "gclid"
    ∷ codes "dclid"
    ∷ codes "msclkid"
    ∷ codes "mc_cid"
    ∷ codes "mc_eid"
    ∷ codes "igshid"
    ∷ codes "ref"
    ∷ []

-- The closure that `filter` is given: a pair stays unless its key is a tracker's.
unfoldable pub stays : Text → Bool
unfolding split next
stays pair =
    let key = unwrap_or (next (split b'=' pair)) [] in
    let lk = to_ascii_lowercase key in
    not (starts_with lk (codes "utm_")) && not (any (λ t. text_eq t lk) trackers)

-- `query` is the text behind the question mark.
unfoldable pub clean_query : Text → Text → Option Text
unfolding stays join split
clean_query base query =
    let kept = keep_if stays (split b'&' query) in
    if length kept == length (split b'&' query)
    then none
    else if length kept == 0
    then some base
    else some (base ++ b'?' ∷ join kept b'&')

unfoldable pub clean_link : Text → Option Text
unfolding clean_query find
clean_link href = elim (find b'?' href) [
  | none ↦ none
  | some q ↦ clean_query (take q href) (drop 1 (drop q href))
]
