-- ===== src/Html/Elements/Links.antt =====
-- What a link is after its handler.
use aerogram.Prelude.{
  map_some, ◌≡◌, refl, ap, ◌∙◌, inl, inr, true, false, ◌&&◌, some, leb, Option-cases, All, Text,
  codes, text_eq, ok, unwrap_or,
}
use aerogram.Html.Link.{clean_link}
use aerogram.Html.Elements.{ElementApi, clean_href, on_link}

-- The address of a link, cleaned if it needs to be.
abbrev pub cleaned : Text → Text
cleaned href = unwrap_or (clean_link href) href

module _ (api : ElementApi) where
  open api use {Element, get_attribute, set_attribute}

  -- The documented effect of `set_attribute` at a lower-case name: it succeeds, the attribute has
  -- the value, and the others are as they were.
  pub record SetsByName : Type 1 where
    pub set : Text → Text → Element → Element
    pub succeeds :
        (n v : Text) (e : Element)
        → All (λ c. (leb b'a' c && leb c b'z') ≡ true) n
        → set_attribute n v e ≡ ok (set n v e)
    pub same : (n v : Text) (e : Element) → get_attribute n (set n v e) ≡ some v
    pub other :
        (n m v : Text) (e : Element)
        → text_eq n m ≡ false
        → get_attribute m (set n v e) ≡ get_attribute m e

  -- An element whose address is cleaned, if it has one; other attributes stay.
  clean_href_lem :
      (law : SetsByName) (e : Element)
      → (e' : Element) × (clean_href api e ≡ ok e')
        × ((n : Text) → text_eq (codes "href") n ≡ false → get_attribute n e' ≡ get_attribute n e)
        × (get_attribute (codes "href") e' ≡ map_some cleaned (get_attribute (codes "href") e))
  unfolding clean_href
  clean_href_lem law e = elim (Option-cases (get_attribute (codes "href") e)) [
    | inl missing ↦ (e, rw (missing, clean_href) refl, (λ n _. refl), rw missing refl)
    | inr (href, is) ↦ elim (Option-cases (clean_link href)) [
      | inl fine ↦ (e, rw (is, fine, clean_href) refl, (λ n _. refl), rw (is, fine) refl)
      | inr (c, dirty) ↦ (
        law.set (codes "href") c e,
        rw (is, dirty, clean_href)
            (law.succeeds (codes "href") c e (refl, (refl, (refl, (refl, tt))))),
        (λ n differs. law.other (codes "href") n c e differs),
        rw (is, dirty) (law.same (codes "href") c e),
      )
    ]
  ]

  pub link_steps :
      (law : SetsByName) (e : Element)
      → on_link api e
        ≡ clean_href api (
            law.set
              (codes "target")
              (codes "_blank")
              (law.set (codes "rel") (codes "noreferrer noopener") e))
  unfolding on_link
  link_steps law e =
      let e₁ = law.set (codes "rel") (codes "noreferrer noopener") e in
      let first =
        law.succeeds (codes "rel") (codes "noreferrer noopener") e (refl, (refl, (refl, tt))) in
      let second =
        law.succeeds (codes "target") (codes "_blank") e₁
          (refl, (refl, (refl, (refl, (refl, (refl, tt)))))) in
      rw (first, second, on_link) refl

  -- No link fails: each opens in a new window, with no opener and no referrer, and its address, if
  -- it has one, is cleaned.
  pub on_link_lem :
      (law : SetsByName) (e : Element)
      → (e' : Element) × (on_link api e ≡ ok e')
        × (get_attribute (codes "rel") e' ≡ some (codes "noreferrer noopener"))
        × (get_attribute (codes "target") e' ≡ some (codes "_blank"))
        × (get_attribute (codes "href") e' ≡ map_some cleaned (get_attribute (codes "href") e))
  on_link_lem law e =
      let e₁ = law.set (codes "rel") (codes "noreferrer noopener") e in
      let e₂ = law.set (codes "target") (codes "_blank") e₁ in
      let (e', run, kept, href) = clean_href_lem law e₂ in
      (
        e',
        link_steps law e ∙ run,
        kept (codes "rel") refl ∙ law.other _ _ _ e₁ refl ∙ law.same _ _ e,
        kept (codes "target") refl ∙ law.same _ _ e₁,
        href ∙ ap (map_some cleaned) (law.other _ _ _ e₁ refl ∙ law.other _ _ _ e refl),
      )
