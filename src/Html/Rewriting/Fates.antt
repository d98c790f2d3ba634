-- ===== src/Html/Rewriting/Fates.antt =====
-- What the Reader makes of a tag and of what is written of an element.
use aerogram.Prelude.{
  ◌≡◌, refl, ap, ◌∙◌, inl, inr, Bool, true, false, ◌||◌, [], ◌∷◌, if◌then◌else◌, Bool-cases, Text,
  codes, text_eq,
}
use aerogram.Html.Elements.{has_name, reader_removed_tags, reader_keep}
use aerogram.Html.Rewriting.{table_tags}
use aerogram.Html.Rewriting.Effects.{Fate, gone, whole, unwrapped, unwrap}

abbrev pub is_cell : Text → Bool
is_cell tag = has_name (codes "td" ∷ codes "th" ∷ []) tag

abbrev pub is_page : Text → Bool
is_page tag = text_eq tag (codes "html") || text_eq tag (codes "body")

-- The tag in the end, and what is written.
abbrev pub reader_tag : Text → Text
reader_tag tag = if has_name table_tags tag then (if is_cell tag then codes "p" else tag) else tag

abbrev pub reader_fate : Text → Fate → Fate
reader_fate tag f =
    if has_name reader_removed_tags tag
    then gone
    else if has_name table_tags tag
    then (if is_cell tag then f else unwrap f)
    else if has_name reader_keep tag || is_page tag
    then f
    else unwrap f

unwrap-unwrap : (f : Fate) → unwrap (unwrap f) ≡ unwrap f
unwrap-unwrap whole = refl
unwrap-unwrap unwrapped = refl
unwrap-unwrap gone = refl

-- The two steps of the fate that are no removal.
unfoldable pub tabled : Text → Fate → Fate
tabled tag f = if has_name table_tags tag then (if is_cell tag then f else unwrap f) else f

unfoldable pub calm : Text → Fate → Fate
calm tag f = if has_name reader_keep tag || is_page tag then f else unwrap f

calm-unwrap : (tag : Text) (f : Fate) → calm tag (unwrap f) ≡ unwrap f
unfolding calm
calm-unwrap tag f = elim (Bool-cases (has_name reader_keep tag || is_page tag)) [
  | inl kept ↦ rw kept refl
  | inr other ↦ rw other (unwrap-unwrap f)
]

calm-gone : (tag : Text) → calm tag gone ≡ gone
calm-gone tag = calm-unwrap tag gone

pub if_same {ℓ} : {A : Type ℓ} (b : Bool) (x : A) → (if b then x else x) ≡ x
if_same true x = refl
if_same false x = refl

tabled-gone : (tag : Text) → tabled tag gone ≡ gone
unfolding tabled
tabled-gone tag =
    (λ i. if has_name table_tags tag then if_same (is_cell tag) gone i else gone)
    ∙ if_same (has_name table_tags tag) gone

calm_cell : (f : Fate) → calm (codes "p") f ≡ f
unfolding calm
calm_cell f = refl

-- The row of handlers, on what is written.
pub calm-tabled :
    (tag : Text) (f : Fate)
    → calm (reader_tag tag) (tabled tag (if has_name reader_removed_tags tag then gone else f))
      ≡ reader_fate tag f
unfolding tabled calm
calm-tabled tag f = elim (Bool-cases (has_name reader_removed_tags tag)) [
  | inl removed ↦
      rw removed (ap (calm (reader_tag tag)) (tabled-gone tag) ∙ calm-gone (reader_tag tag))
  | inr stays ↦ elim (Bool-cases (has_name table_tags tag)) [
    | inl table ↦ elim (Bool-cases (is_cell tag)) [
      | inl cell ↦ rw (stays, table, cell) refl
      | inr other ↦ rw (stays, table, other) (calm-unwrap tag f)
    ]
    | inr outside ↦ rw (stays, outside) refl
  ]
]

pub if_through {ℓ κ} :
    {A : Type ℓ} {B : Type κ} (g : A → B) (b : Bool) (x y : A)
    → g (if b then x else y) ≡ (if b then g x else g y)
if_through g true x y = refl
if_through g false x y = refl
