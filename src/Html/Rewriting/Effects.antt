-- ===== src/Html/Rewriting/Effects.antt =====
-- What lol_html documents of an element's operations, and the display handlers in these terms: what
-- they do to the list of attributes, and to what is written of the element.
use aerogram.Prelude.{
  ◌≡◌, refl, ap, ◌∙◌, inl, inr, Bool, false, ◌||◌, Option, none, some, List, [], ◌∷◌, if◌then◌else◌,
  Option-cases, Text, codes, text_eq, starts_with, ok, unwrap_or,
}
use aerogram.Html.Link.{clean_link}
use aerogram.Html.Elements.{
  ElementApi, is_bad, on_removed, on_image, clean_href, on_any, remove_all, remove_where,
}
use aerogram.Html.Elements.Attributes.{RemovesByName, without_all, named, attributes-remove_all}
use aerogram.Html.Elements.Links.{SetsByName, link_steps}
use aerogram.Html.Rewriting.{Rule, removing, images, links, anything, handle, run}

-- What is written of an element: itself, its content only, or nothing.
pub data Fate : Type 0 where
  whole unwrapped gone : Fate

-- The effect of `remove_and_keep_content`: what is gone stays gone.
abbrev pub unwrap : Fate → Fate
unwrap gone = gone
unwrap whole = unwrapped
unwrap unwrapped = unwrapped

abbrev pub find_attr : Text → List (Text × Text) → Option Text
find_attr n [] = none
find_attr n ((m, v) ∷ as') = if text_eq m n then some v else find_attr n as'

-- The value of the first attribute by the name, or a new one at the end.
abbrev pub put_attr : Text → Text → List (Text × Text) → List (Text × Text)
put_attr n v [] = (n, v) ∷ []
put_attr n v ((m, w) ∷ as') =
    let rest = put_attr n v as' in if text_eq m n then (m, v) ∷ as' else (m, w) ∷ rest

pub record HasEffects (api : ElementApi) : Type 1 where
  pub removes : RemovesByName api
  pub sets : SetsByName api
  pub gets : (n : Text) (e : api.Element) → api.get_attribute n e ≡ find_attr n (api.attributes e)
  pub puts :
      (n v : Text) (e : api.Element)
      → api.attributes (sets.set n v e) ≡ put_attr n v (api.attributes e)
  pub attributes_remove : (e : api.Element) → api.attributes (api.remove e) ≡ api.attributes e
  pub tag_set : (n v : Text) (e : api.Element) → api.tag_name (sets.set n v e) ≡ api.tag_name e
  pub tag_remove_attribute :
      (n : Text) (e : api.Element) → api.tag_name (api.remove_attribute n e) ≡ api.tag_name e
  pub tag_remove : (e : api.Element) → api.tag_name (api.remove e) ≡ api.tag_name e
  pub fate : api.Element → Fate
  pub fate_set : (n v : Text) (e : api.Element) → fate (sets.set n v e) ≡ fate e
  pub fate_remove_attribute :
      (n : Text) (e : api.Element) → fate (api.remove_attribute n e) ≡ fate e
  pub fate_remove : (e : api.Element) → fate (api.remove e) ≡ gone

-- The handlers on the attributes.
unfoldable pub strip_attrs : List (Text × Text) → List (Text × Text)
strip_attrs as' = without_all (named is_bad as') as'

unfoldable pub clean_attrs : List (Text × Text) → List (Text × Text)
clean_attrs as' = elim (find_attr (codes "href") as') [
  | none ↦ as'
  | some href ↦ elim (clean_link href) [ none ↦ as' | some c ↦ put_attr (codes "href") c as' ]
]

unfoldable pub link_attrs : List (Text × Text) → List (Text × Text)
link_attrs as' = clean_attrs (
    put_attr (codes "target") (codes "_blank")
      (put_attr (codes "rel") (codes "noreferrer noopener") as'))

abbrev pub attrs_after : Rule → List (Text × Text) → List (Text × Text)
attrs_after removing as' = as'
attrs_after images as' = as'
attrs_after links as' = link_attrs as'
attrs_after anything as' = strip_attrs as'

abbrev pub fate_after : Rule → Fate → Fate
fate_after removing f = gone
fate_after images f = gone
fate_after links f = f
fate_after anything f = f

-- A source that is remote or inline data.
abbrev pub is_remote : Text → Bool
is_remote src = starts_with src (codes "http") || starts_with src (codes "data:")

abbrev pub flag_after : Rule → List (Text × Text) → Bool
flag_after images as' = is_remote (unwrap_or (find_attr (codes "src") as') [])
flag_after _ as' = false

-- Handlers in a row, on the attributes and on what is written.
abbrev pub attrs_all : List Rule → List (Text × Text) → List (Text × Text)
attrs_all [] as' = as'
attrs_all (r ∷ rs) as' = attrs_all rs (attrs_after r as')

abbrev pub fate_all : List Rule → Fate → Fate
fate_all [] f = f
fate_all (r ∷ rs) f = fate_all rs (fate_after r f)

abbrev pub flag_all : List Rule → List (Text × Text) → Bool
flag_all [] as' = false
flag_all (r ∷ rs) as' = flag_after r as' || flag_all rs (attrs_after r as')

module _ (api : ElementApi) (law : HasEffects api) where
  open api use {Element, attributes}

  -- What a handler leaves, and its flag.
  pub record Handled (r : Rule) (e : Element) : Type 0 where
    pub out : Element
    pub went : handle api r e ≡ ok (out, flag_after r (attributes e))
    pub attrs : attributes out ≡ attrs_after r (attributes e)
    pub tag : api.tag_name out ≡ api.tag_name e
    pub fates : law.fate out ≡ fate_after r (law.fate e)

  fate-remove_all : (ns : List Text) (e : Element) → law.fate (remove_all api ns e) ≡ law.fate e
  unfolding remove_all
  fate-remove_all [] e = refl
  fate-remove_all (n ∷ ns) e =
      fate-remove_all ns (api.remove_attribute n e) ∙ law.fate_remove_attribute n e

  tag_name-remove_all :
      (ns : List Text) (e : Element) → api.tag_name (remove_all api ns e) ≡ api.tag_name e
  unfolding remove_all
  tag_name-remove_all [] e = refl
  tag_name-remove_all (n ∷ ns) e =
      tag_name-remove_all ns (api.remove_attribute n e) ∙ law.tag_remove_attribute n e

  pub tag_name-remove_where :
      (bad : Text × Text → Bool) (e : Element)
      → api.tag_name (remove_where api bad e) ≡ api.tag_name e
  unfolding remove_where named
  tag_name-remove_where bad e = tag_name-remove_all (named bad (attributes e)) e

  pub fate-remove_where :
      (bad : Text × Text → Bool) (e : Element) → law.fate (remove_where api bad e) ≡ law.fate e
  unfolding remove_where named
  fate-remove_where bad e = fate-remove_all (named bad (attributes e)) e

  clean_href_goes :
      (e : Element)
      → (out : Element) × (clean_href api e ≡ ok out)
        × (attributes out ≡ clean_attrs (attributes e))
        × (api.tag_name out ≡ api.tag_name e)
        × (law.fate out ≡ law.fate e)
  unfolding clean_href clean_attrs
  clean_href_goes e = elim (Option-cases (find_attr (codes "href") (attributes e))) [
    | inl missing ↦ (
      e,
      rw (clean_href, law.gets (codes "href") e, missing) refl,
      rw (clean_attrs, missing) refl,
      refl,
      refl,
    )
    | inr (href, is) ↦ elim (Option-cases (clean_link href)) [
      | inl fine ↦ (
        e,
        rw (clean_href, law.gets (codes "href") e, is, fine) refl,
        rw (clean_attrs, is, fine) refl,
        refl,
        refl,
      )
      | inr (c, dirty) ↦ (
        law.sets.set (codes "href") c e,
        rw (clean_href, law.gets (codes "href") e, is, dirty)
            (law.sets.succeeds (codes "href") c e (refl, (refl, (refl, (refl, tt))))),
        rw (clean_attrs, is, dirty) (law.puts (codes "href") c e),
        law.tag_set (codes "href") c e,
        law.fate_set (codes "href") c e,
      )
    ]
  ]

  pub handled : (r : Rule) (e : Element) → Handled r e
  unfolding handle on_removed on_image on_any remove_where strip_attrs link_attrs named
  handled removing e = record {
    out = api.remove e;
    went = refl;
    attrs = law.attributes_remove e;
    tag = law.tag_remove e;
    fates = law.fate_remove e;
  }
  handled images e = record {
    out = api.remove e;
    went = rw (law.gets (codes "src") e) refl;
    attrs = law.attributes_remove e;
    tag = law.tag_remove e;
    fates = law.fate_remove e;
  }
  handled links e =
      let e₁ = law.sets.set (codes "rel") (codes "noreferrer noopener") e in
      let e₂ = law.sets.set (codes "target") (codes "_blank") e₁ in
      let (out, run, attrs, tag, fates) = clean_href_goes e₂ in
      record {
        out = out;
        went = rw (handle, link_steps api law.sets e, run) refl;
        attrs = attrs ∙ ap clean_attrs (law.puts _ _ e₁ ∙ ap (put_attr _ _) (law.puts _ _ e));
        tag = tag ∙ law.tag_set _ _ e₁ ∙ law.tag_set _ _ e;
        fates = fates ∙ law.fate_set _ _ e₁ ∙ law.fate_set _ _ e;
      }
  handled anything e = record {
    out = remove_where api is_bad e;
    went = refl;
    attrs = attributes-remove_all api law.removes (named is_bad (attributes e)) e;
    tag = tag_name-remove_where is_bad e;
    fates = fate-remove_where is_bad e;
  }

  -- No row of handlers fails.
  pub run-handled :
      (rs : List Rule) (e : Element)
      → (out : Element) × (run api (handle api) rs e ≡ ok (out, flag_all rs (attributes e)))
        × (attributes out ≡ attrs_all rs (attributes e))
        × (law.fate out ≡ fate_all rs (law.fate e))
  unfolding run
  run-handled [] e = (e, refl, refl, refl)
  run-handled (r ∷ rs) e =
      let h = handled r e in
      let (out, went, attrs, fates) = run-handled rs h.out in
      (
        out,
        rw (run, h.went) (rw (run, went) (rw h.attrs refl)),
        attrs ∙ ap (attrs_all rs) h.attrs,
        fates ∙ ap (fate_all rs) h.fates,
      )
