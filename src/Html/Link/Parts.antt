-- ===== src/Html/Link/Parts.antt =====
-- A link cut into its base and its parameters, and put together again.
use aerogram.Prelude.{
  ℕ, ◌≡◌, ◌≢◌, refl, ap, true, false, none, some, List, [], ◌∷◌, ◌++◌, Text, All, ◌==◌, arith,
  length,
}
use native.Mathlib.Decide.{ℕ_discrete}
use aerogram.Html.Link.{Lacks, find, in_front, split, join}

-- The text before the first question mark, and the pairs behind it.
unfoldable pub link_base : Text → Text
link_base [] = []
link_base (c ∷ s) = elim (c == b'?') [ true ↦ [] | false ↦ c ∷ link_base s ]

unfoldable pub params : Text → List Text
params [] = []
params (c ∷ s) = elim (c == b'?') [ true ↦ split b'&' s | false ↦ params s ]

-- A text has no question mark, or is a base, a question mark and a query.
pub data Cut : Text → Type 0 where
  whole : (s : Text) → Lacks b'?' s → Cut s
  queried : (base query : Text) → Lacks b'?' base → Cut (base ++ b'?' ∷ query)

Cut-behind : (c : ℕ) (s : Text) → c ≢ b'?' → Cut s → Cut (c ∷ s)
Cut-behind c s h (whole _ l) = whole (c ∷ s) (h, l)
Cut-behind c _ h (queried base query l) = queried (c ∷ base) query (h, l)

-- Every text is one or the other.
pub Cut-total : (s : Text) → Cut s
Cut-total [] = whole [] tt
Cut-total (c ∷ s) = elim (ℕ_discrete c b'?') [
  | yes here ↦ rw here (queried [] s tt)
  | no elsewhere ↦ Cut-behind c s elsewhere (Cut-total s)
]

pub find-whole : (s : Text) → Lacks b'?' s → find b'?' s ≡ none
unfolding find
find-whole [] h = refl
find-whole (c ∷ s) (hc, h) = ground (arith, find-whole s h)

pub find-queried :
    (base query : Text) → Lacks b'?' base → find b'?' (base ++ b'?' ∷ query) ≡ some (length base)
unfolding find
find-queried [] query h = refl
find-queried (c ∷ base) query (hc, h) = ground (arith, find-queried base query h)

pub params-whole : (s : Text) → Lacks b'?' s → params s ≡ []
unfolding params
params-whole [] h = refl
params-whole (c ∷ s) (hc, h) = ground (arith, params-whole s h)

pub params-queried :
    (base query : Text) → Lacks b'?' base → params (base ++ b'?' ∷ query) ≡ split b'&' query
unfolding params
params-queried [] query h = refl
params-queried (c ∷ base) query (hc, h) = ground (arith, params-queried base query h)

pub link_base-whole : (s : Text) → Lacks b'?' s → link_base s ≡ s
unfolding link_base
link_base-whole [] h = refl
link_base-whole (c ∷ s) (hc, h) = ground (arith, link_base-whole s h)

pub link_base-queried :
    (base query : Text) → Lacks b'?' base → link_base (base ++ b'?' ∷ query) ≡ base
unfolding link_base
link_base-queried [] query h = refl
link_base-queried (c ∷ base) query (hc, h) = ground (arith, link_base-queried base query h)

in_front-Lacks :
    (sep c : ℕ) (ps : List Text) → c ≢ sep → All (Lacks sep) ps → All (Lacks sep) (in_front c ps)
unfolding in_front
in_front-Lacks sep c [] h hs = ((h, tt), tt)
in_front-Lacks sep c (p ∷ ps) h (hp, hs) = ((h, hp), hs)

-- No piece holds the separator.
pub split-Lacks : (sep : ℕ) (s : Text) → All (Lacks sep) (split sep s)
unfolding split
split-Lacks sep [] = (tt, tt)
split-Lacks sep (c ∷ s) = ground (arith, split-Lacks sep s, in_front-Lacks sep c (split sep s))

-- A piece without the separator is read up to the end or to the next separator.
pub split_end : (sep : ℕ) (p : Text) → Lacks sep p → split sep p ≡ p ∷ []
unfolding split
split_end sep [] h = refl
split_end sep (c ∷ p) (hc, h) = ground (arith, split_end sep p h)

pub split_piece : (sep : ℕ) (p s : Text) → Lacks sep p → split sep (p ++ sep ∷ s) ≡ p ∷ split sep s
unfolding split
split_piece sep [] s h = ground arith
split_piece sep (c ∷ p) s (hc, h) = ground (arith, split_piece sep p s h)

-- Splitting what was joined gives the pieces back.
pub split-join :
    (p : Text) (ps : List Text) (sep : ℕ)
    → All (Lacks sep) (p ∷ ps)
    → split sep (join (p ∷ ps) sep) ≡ p ∷ ps
unfolding join
split-join p [] sep (hp, _) = split_end sep p hp
split-join p (q ∷ ps) sep (hp, h) =
    rw (split_piece sep p (join (q ∷ ps) sep) hp) (ap (◌∷◌ p) (split-join q ps sep h))
