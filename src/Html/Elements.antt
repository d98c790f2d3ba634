-- ===== src/Html/Elements.antt =====
-- html-sanitize-core/src/lib.rs, the element handlers of `build_rewriter` and of `to_reader_html`,
-- over lol_html's element API as a parameter.
pub mod Attributes
pub mod Links
pub mod Tests
use aerogram.Prelude.{
  ℕ, Bool, ◌&&◌, ◌||◌, not, Option, none, some, List, [], ◌∷◌, ◌++◌, map, leb, ◌==◌, if◌then◌else◌,
  keep_if, any, Text, codes, text_eq, starts_with, Result, ok, err, unwrap_or,
}
use aerogram.Html.Link.{clean_link}

pub record ElementApi : Type 1 where
  pub Element : Type 0
  pub tag_name : Element → Text
  -- names, in lower case, and values
  pub attributes : Element → List (Text × Text)
  pub get_attribute : Text → Element → Option Text
  pub set_attribute : Text → Text → Element → Result Text Element
  pub remove_attribute : Text → Element → Element
  pub remove : Element → Element
  pub remove_and_keep_content : Element → Element
  pub set_tag_name : Text → Element → Result Text Element

-- `contains` on a list of names.
abbrev pub has_name : List Text → Text → Bool
has_name names n = any (text_eq n) names

-- `char::is_whitespace`
abbrev pub is_whitespace : ℕ → Bool
is_whitespace c =
    (leb 9 c && leb c 13)
    || (c == 0x20)
    || (c == 0x85)
    || (c == 0xa0)
    || (c == 0x1680)
    || (leb 0x2000 c && leb c 0x200a)
    || (c == 0x2028)
    || (c == 0x2029)
    || (c == 0x202f)
    || (c == 0x205f)
    || (c == 0x3000)

abbrev pub trim_start : Text → Text
trim_start [] = []
trim_start (c ∷ s) = if is_whitespace c then trim_start s else c ∷ s

-- The filter on an element's attributes: event handlers, and script addresses.
unfoldable pub is_bad : Text × Text → Bool
is_bad (name, value) =
    starts_with name (codes "on")
    || ((text_eq name (codes "href") || text_eq name (codes "src"))
        && starts_with (trim_start value) (codes "javascript:"))

abbrev pub reader_keep : List Text
reader_keep =
    codes "p"
    ∷ codes "h1"
    ∷ codes "h2"
    ∷ codes "h3"
    ∷ codes "ul"
    ∷ codes "ol"
    ∷ codes "li"
    ∷ codes "blockquote"
    ∷ codes "pre"
    ∷ codes "code"
    ∷ codes "br"
    ∷ codes "hr"
    ∷ codes "strong"
    ∷ codes "b"
    ∷ codes "em"
    ∷ codes "i"
    ∷ codes "a"
    ∷ codes "sub"
    ∷ codes "sup"
    ∷ codes "s"
    ∷ codes "u"
    ∷ []

-- What a Reader's element may keep.
abbrev pub allowed : Text → List Text
allowed tag =
    if text_eq tag (codes "a") then codes "href" ∷ codes "rel" ∷ codes "target" ∷ [] else []

-- The elements that go with their content: those of the display sanitizer, and the Reader's.
abbrev pub removed_tags : List Text
removed_tags =
    codes "script"
    ∷ codes "form"
    ∷ codes "iframe"
    ∷ codes "object"
    ∷ codes "embed"
    ∷ codes "link"
    ∷ codes "meta"
    ∷ codes "base"
    ∷ []

abbrev pub reader_removed_tags : List Text
reader_removed_tags = removed_tags ++ codes "style" ∷ codes "head" ∷ codes "img" ∷ []

module _ (api : ElementApi) where
  open api use {Element, tag_name, attributes, get_attribute, set_attribute, remove_attribute}

  -- `for name in bad { el.remove_attribute(&name) }`
  unfoldable pub remove_all : List Text → Element → Element
  remove_all [] e = e
  remove_all (n ∷ ns) e = remove_all ns (remove_attribute n e)

  -- The names of the attributes that the filter takes are collected first, then removed.
  unfoldable pub remove_where : (Text × Text → Bool) → Element → Element
  unfolding remove_all
  remove_where bad e = remove_all (map (λ a. a.0) (keep_if bad (attributes e))) e

  -- The handler of the removed elements.
  unfoldable pub on_removed : Element → Element
  on_removed e = api.remove e

  -- `img`: the element, and whether its source was remote or inline data.
  unfoldable pub on_image : Element → Element × Bool
  on_image e =
      let src = unwrap_or (get_attribute (codes "src") e) [] in
      (api.remove e, starts_with src (codes "http") || starts_with src (codes "data:"))

  -- `a`: the last of the three settings is made only for a link that needs cleaning.
  unfoldable pub clean_href : Element → Result Text Element
  clean_href e = elim (get_attribute (codes "href") e) [
    | none ↦ ok e
    | some href ↦ elim (clean_link href) [
      | none ↦ ok e
      | some clean ↦ set_attribute (codes "href") clean e
    ]
  ]

  unfoldable pub on_link : Element → Result Text Element
  unfolding clean_href
  on_link e = elim (set_attribute (codes "rel") (codes "noreferrer noopener") e) [
    | err x ↦ err x
    | ok e₁ ↦ elim (set_attribute (codes "target") (codes "_blank") e₁) [
      | err x ↦ err x
      | ok e₂ ↦ clean_href e₂
    ]
  ]

  -- `*` of the display sanitizer.
  unfoldable pub on_any : Element → Element
  unfolding remove_where is_bad
  on_any e = remove_where is_bad e

  -- The Reader's layout tables: a cell becomes a paragraph, the rest is unwrapped.
  unfoldable pub on_table : Element → Result Text Element
  on_table e =
      if has_name (codes "td" ∷ codes "th" ∷ []) (tag_name e)
      then api.set_tag_name (codes "p") e
      else ok (api.remove_and_keep_content e)

  -- `*` of the Reader: prose tags lose their attributes, others are unwrapped.
  unfoldable pub on_reader_any : Element → Element
  unfolding remove_where
  on_reader_any e =
      if has_name reader_keep (tag_name e)
      then remove_where (λ a. not (has_name (allowed (tag_name e)) a.0)) e
      else if text_eq (tag_name e) (codes "html") || text_eq (tag_name e) (codes "body")
      then e
      else api.remove_and_keep_content e
