-- ===== src/Html/Link/Stripping.antt =====
-- What `clean_link` strips and what it keeps.
use aerogram.Prelude.{
  ◌<◌, ◌≡◌, ◌↔◌, refl, ◌∙◌, Bool, true, false, ◌&&◌, not, ◌⊎◌, inl, inr, none, some, List, [], ◌∷◌,
  ◌++◌, Text, codes, text_eq, starts_with, length, any, keep_if, All, ◌==◌, if◌then◌else◌, arith,
  Bool-cases, take-append, drop-append, length-keep_if-le, All-keep_if, keep_if-All, All-of_length,
}
use aerogram.Html.Link.{
  Lacks, split, join, to_ascii_lowercase, trackers, stays, clean_query, clean_link,
}
use aerogram.Html.Link.Parts.{
  link_base, params, Cut, whole, queried, Cut-total, find-whole, find-queried, params-whole,
  params-queried, link_base-whole, link_base-queried, split-Lacks, split_end, split_piece,
  split-join,
}

clean_link-whole : (s : Text) → Lacks b'?' s → clean_link s ≡ none
unfolding clean_link
clean_link-whole s h = rw (find-whole s h, clean_link) refl

clean_link-queried :
    (base query : Text)
    → Lacks b'?' base
    → clean_link (base ++ b'?' ∷ query) ≡ clean_query base query
unfolding clean_link
clean_link-queried base query h =
    rw (find-queried base query h, clean_link)
      (rw (take-append base (b'?' ∷ query), drop-append base (b'?' ∷ query)))

module _ {ℓ κ} {A : Type ℓ} (P : A → Type κ) (keep : A → Bool) where
  All-keep_if_of_All : (xs : List A) → All P xs → All P (keep_if keep xs)
  All-keep_if_of_All [] h = tt
  All-keep_if_of_All (x ∷ xs) (px, h) = ground (arith, All-keep_if_of_All xs h)

-- What `clean` is made of, if its pairs are `kept`.
MadeOf : Text → List Text → Text → Type 0
MadeOf base kept clean = (link_base clean ≡ base) × (params clean ≡ kept)

MadeOf-base : (base : Text) → Lacks b'?' base → MadeOf base [] base
unfolding MadeOf
MadeOf-base base h = (link_base-whole base h, params-whole base h)

MadeOf-join :
    (base p : Text) (ps : List Text)
    → Lacks b'?' base
    → All (Lacks b'&') (p ∷ ps)
    → MadeOf base (p ∷ ps) (base ++ b'?' ∷ join (p ∷ ps) b'&')
unfolding MadeOf
MadeOf-join base p ps h hs =
    (link_base-queried base _ h, params-queried base _ h ∙ split-join p ps b'&' hs)

-- The rebuilding at the end of `clean_link`.
rebuild_lem :
    (base : Text) (kept : List Text) (clean : Text)
    → Lacks b'?' base
    → All (Lacks b'&') kept
    → (if length kept == 0 then some base else some (base ++ b'?' ∷ join kept b'&')) ≡ some clean
    → MadeOf base kept clean
rebuild_lem base [] clean h hs e = ground (arith, MadeOf-base base h)
rebuild_lem base (p ∷ ps) clean h hs e = ground (arith, MadeOf-join base p ps h hs)

clean_query_lem :
    (base query clean : Text)
    → Lacks b'?' base
    → clean_query base query ≡ some clean
    → MadeOf base (keep_if stays (split b'&' query)) clean
      × (length (keep_if stays (split b'&' query)) < length (split b'&' query))
unfolding clean_query
clean_query_lem base query clean h e =
    let pairs = split b'&' query in
    let kept = keep_if stays pairs in
    elim (Bool-cases (length kept == length pairs)) [
      | inl same ↦ cc
      | inr fewer ↦ (
        rebuild_lem base kept clean h (All-keep_if_of_All _ stays pairs (split-Lacks b'&' query))
            (rw fewer at e),
        ground (arith, length-keep_if-le stays pairs),
      )
    ]

Cut-keeps :
    (href : Text)
    → Cut href
    → (clean : Text) → clean_link href ≡ some clean
    → (link_base clean ≡ link_base href)
      × (params clean ≡ keep_if stays (params href))
      × (length (params clean) < length (params href))
unfolding MadeOf
Cut-keeps _ (whole s h) clean e = cc (clean_link-whole s h)
Cut-keeps _ (queried base query h) clean e =
    let made = clean_query_lem base query clean h (rw (clean_link-queried base query h) at e) in
    rw (link_base-queried base query h, params-queried base query h)
      (made.0.0, made.0.1, rw made.0.1 made.1)

-- A cleaned link has the base of the link, and of its parameters those that are no trackers', in
-- their order; at least one was stripped.
pub clean_link-keeps :
    (href clean : Text)
    → clean_link href ≡ some clean
    → (link_base clean ≡ link_base href)
      × (params clean ≡ keep_if stays (params href))
      × (length (params clean) < length (params href))
clean_link-keeps href clean e = Cut-keeps href (Cut-total href) clean e

clean_query-none :
    (base query : Text)
    → clean_query base query ≡ none ↔ All (λ p. stays p ≡ true) (split b'&' query)
unfolding clean_query
clean_query-none base query = (
  λ e. ground (arith, All-of_length stays (split b'&' query)),
  λ h. rw (keep_if-All stays (split b'&' query) h) (ground arith),
)

Cut-none :
    (href : Text) → Cut href → clean_link href ≡ none ↔ All (λ p. stays p ≡ true) (params href)
Cut-none _ (whole s h) = rw (clean_link-whole s h, params-whole s h) ((λ e. tt), (λ u. refl))
Cut-none _ (queried base query h) =
    rw (clean_link-queried base query h, params-queried base query h) (clean_query-none base query)

-- `clean_link` answers `None` exactly when no parameter is a tracker's.
clean_link-none : (href : Text) → clean_link href ≡ none ↔ All (λ p. stays p ≡ true) (params href)
clean_link-none href = Cut-none href (Cut-total href)

-- A cleaned link needs no cleaning.
pub clean_link-idempotent :
    (href clean : Text) → clean_link href ≡ some clean → clean_link clean ≡ none
clean_link-idempotent href clean e =
    (clean_link-none clean).1
      (rw (clean_link-keeps href clean e).1 (All-keep_if stays (params href)))

-- A key that `clean_link` is to strip, in any case of its letters.
abbrev pub IsTracker : Text → Type 0
IsTracker key =
    (starts_with (to_ascii_lowercase key) (codes "utm_") ≡ true)
    ⊎ (any (λ t. text_eq t (to_ascii_lowercase key)) trackers ≡ true)

neither : (a b : Bool) → (a ≡ true) ⊎ (b ≡ true) → (not a && not b) ≡ false
neither a b h = ground arith

stays_key :
    (key value : Text) → Lacks b'=' key → IsTracker key → stays (key ++ b'=' ∷ value) ≡ false
unfolding stays
stays_key key value h t = rw (split_piece b'=' key value h) (neither _ _ t)

clean_query_one :
    (base query : Text)
    → Lacks b'&' query
    → stays query ≡ false
    → clean_query base query ≡ some base
unfolding clean_query
clean_query_one base query h gone = rw (split_end b'&' query h) (rw gone refl)

-- A tracker's parameter that is the only one goes with all that follows its key up to the end of
-- the link, a fragment included.
clean_link-drops_tail :
    (base key tail : Text)
    → Lacks b'?' base
    → Lacks b'=' key
    → Lacks b'&' (key ++ b'=' ∷ tail)
    → IsTracker key
    → clean_link (base ++ b'?' ∷ (key ++ b'=' ∷ tail)) ≡ some base
clean_link-drops_tail base key tail hb hk ht t =
    clean_link-queried base (key ++ b'=' ∷ tail) hb
    ∙ clean_query_one base _ ht (stays_key key tail hk t)
