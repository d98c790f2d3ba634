-- ===== src/Html/Rewriting.antt =====
-- html-sanitize-core/src/lib.rs, the handlers of `build_rewriter` and of `to_reader_html` with
-- their selectors, as they are registered. A handler's flag is what it does to `blocked`.
pub mod Effects
pub mod Addresses
pub mod Lists
pub mod Fates
pub mod Display
pub mod Links
pub mod Reader
pub mod Tests
use aerogram.Prelude.{
  Bool, true, false, ◌||◌, List, [], ◌∷◌, if◌then◌else◌, Text, codes, Result, ok, err,
}
use aerogram.Html.Elements.{
  ElementApi, has_name, removed_tags, reader_removed_tags, on_removed, on_image, on_link, on_any,
  on_table, on_reader_any,
}

-- A list of tags, or `*`.
pub data Selector : Type 0 where
  tags : List Text → Selector
  every : Selector

abbrev pub selects : Selector → Text → Bool
selects (tags names) tag = has_name names tag
selects every tag = true

-- The handlers of the display sanitizer.
pub data Rule : Type 0 where
  removing images links anything : Rule

abbrev pub display_handlers : List (Selector × Rule)
display_handlers =
    (tags removed_tags, removing)
    ∷ (tags (codes "img" ∷ []), images)
    ∷ (tags (codes "a" ∷ []), links)
    ∷ (every, anything)
    ∷ []

-- Those of the Reader.
pub data ReaderRule : Type 0 where
  removing tables links anything : ReaderRule

abbrev pub table_tags : List Text
table_tags =
    codes "table"
    ∷ codes "tbody"
    ∷ codes "thead"
    ∷ codes "tfoot"
    ∷ codes "tr"
    ∷ codes "td"
    ∷ codes "th"
    ∷ codes "caption"
    ∷ codes "colgroup"
    ∷ codes "col"
    ∷ []

abbrev pub reader_handlers : List (Selector × ReaderRule)
reader_handlers =
    (tags reader_removed_tags, ReaderRule.removing)
    ∷ (tags table_tags, ReaderRule.tables)
    ∷ (tags (codes "a" ∷ []), ReaderRule.links)
    ∷ (every, ReaderRule.anything)
    ∷ []

-- The handlers whose selectors match a tag, as registered.
abbrev pub matched : {R : Type 0} → List (Selector × R) → Text → List R
matched [] tag = []
matched ((s, r) ∷ hs) tag = let rest = matched hs tag in if selects s tag then r ∷ rest else rest

module _ (api : ElementApi) where
  open api use {Element}

  abbrev pub Handler : Type 0
  Handler = Element → Result Text (Element × Bool)

  abbrev pub quiet : Element → Result Text (Element × Bool)
  quiet e = ok (e, false)

  abbrev pub unflagged : Result Text Element → Result Text (Element × Bool)
  unflagged (ok e) = quiet e
  unflagged (err x) = err x

  unfoldable pub handle : Rule → Handler
  handle removing e = quiet (on_removed api e)
  handle images e = ok (on_image api e)
  handle links e = unflagged (on_link api e)
  handle anything e = quiet (on_any api e)

  unfoldable pub reader_handle : ReaderRule → Handler
  reader_handle ReaderRule.removing e = quiet (on_removed api e)
  reader_handle ReaderRule.tables e = unflagged (on_table api e)
  reader_handle ReaderRule.links e = unflagged (on_link api e)
  reader_handle ReaderRule.anything e = quiet (on_reader_any api e)

  -- Handlers one after another; an error ends the rewriting.
  unfoldable pub run : {R : Type 0} → (R → Handler) → List R → Handler
  run h [] e = quiet e
  run h (r ∷ rs) e = elim (h r e) [
    | err x ↦ err x
    | ok (e', flag) ↦ elim (run h rs e') [ err x ↦ err x | ok (out, more) ↦ ok (out, flag || more) ]
  ]
