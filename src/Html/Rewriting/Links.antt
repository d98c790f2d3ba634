-- ===== src/Html/Rewriting/Links.antt =====
-- The Reader on a link: which attributes it has in the end.
use mathlib.Core.Bool.{false≢true}
use aerogram.Prelude.{
  text_eq_complete, ◌≡◌, refl, sym, ap, ◌∙◌, inl, inr, Bool, true, false, not, none, some, Option,
  map_some, text_eq, text_eq_sound, [], ◌∷◌, if◌then◌else◌, Bool-cases, Text, codes, ok,
}
use mathlib.Core.Path.{subst}
use aerogram.Html.Elements.{ElementApi, has_name, reader_keep, allowed, on_reader_any, remove_where}
use aerogram.Html.Elements.Attributes.{on_reader_any-allowed, attributes-remove_all, named}
use aerogram.Html.Rewriting.{Rule, ReaderRule, reader_handlers, matched, handle, reader_handle, run}
use aerogram.Html.Rewriting.Effects.{HasEffects, find_attr, handled}
use aerogram.Html.Rewriting.Lists.{
  link_attr, find_attr-link_attrs, find_attr-without_named, find_attr_absent,
}
use aerogram.Html.Rewriting.Reader.{Renames, run_maybe, reader_any_prose}
use aerogram.Html.Elements.Links.{cleaned}

-- What a link's handlers make of the value by a name, and what a link should have there.
abbrev By : Text → Option Text → Type 0
By k old = (if has_name (allowed (codes "a")) k then link_attr k old else none) ≡ (
    if text_eq (codes "href") k
    then map_some cleaned old
    else if text_eq (codes "rel") k
    then some (codes "noreferrer noopener")
    else if text_eq (codes "target") k
    then some (codes "_blank")
    else none)

text_eq_sym : (s k : Text) → text_eq s k ≡ false → text_eq k s ≡ false
text_eq_sym s k differs = elim (Bool-cases (text_eq k s)) [
  | inl same ↦
      absurd (false≢true (sym differs ∙ text_eq_complete s k (sym (text_eq_sound k s same))))
  | inr other ↦ other
]

-- The table of a link's attributes, by name.
allowed_values : (k : Text) (old : Option Text) → By k old
allowed_values k old = elim (Bool-cases (text_eq (codes "href") k)) [
  | inl href ↦ subst (λ n. By n old) (text_eq_sound (codes "href") k href) refl
  | inr no_href ↦ elim (Bool-cases (text_eq (codes "rel") k)) [
    | inl rel ↦ subst (λ n. By n old) (text_eq_sound (codes "rel") k rel) refl
    | inr no_rel ↦ elim (Bool-cases (text_eq (codes "target") k)) [
      | inl target ↦ subst (λ n. By n old) (text_eq_sound (codes "target") k target) refl
      | inr no_target ↦
          rw
            (
              no_href,
              no_rel,
              no_target,
              text_eq_sym (codes "href") k no_href,
              text_eq_sym (codes "rel") k no_rel,
              text_eq_sym (codes "target") k no_target,
            )
            refl
    ]
  ]
]

module _ (api : ElementApi) (law : HasEffects api) (names : Renames api law) where
  open api use {Element, attributes, tag_name}

  prose_attributes :
      (e : Element) (k : Text)
      → has_name reader_keep (tag_name e) ≡ true
      → api.get_attribute k (on_reader_any api e)
        ≡ (if has_name (allowed (tag_name e)) k then api.get_attribute k e else none)
  unfolding remove_where named
  prose_attributes e k prose = elim (Bool-cases (has_name (allowed (tag_name e)) k)) [
    | inl may ↦ rw may (
        law.gets k (on_reader_any api e)
        ∙ ap (λ x. find_attr k (attributes x)) (reader_any_prose api law names e prose)
        ∙ ap (find_attr k) (attributes-remove_all api law.removes (named bad (attributes e)) e)
        ∙ find_attr-without_named bad k (attributes e) (λ v. rw may refl)
        ∙ sym (law.gets k e))
    | inr may_not ↦ rw may_not (
        law.gets k (on_reader_any api e)
        ∙ find_attr_absent (allowed (tag_name e)) k _
            (on_reader_any-allowed api law.removes e prose).0 may_not)
  ]
    where
      bad : Text × Text → Bool
      bad a = not (has_name (allowed (tag_name e)) a.0)

  link_attributes :
      (e : Element)
      → tag_name e ≡ codes "a"
      → (out : Element) × (run api (reader_handle api) (matched reader_handlers (tag_name e)) e
          ≡ ok (out, false))
        × ((k : Text)
            → api.get_attribute k out ≡ (
                if has_name (allowed (codes "a")) k
                then link_attr k (api.get_attribute k e)
                else none))
  unfolding run reader_handle handle
  link_attributes e link =
      let h = handled api law Rule.links e in
      let tag = h.tag ∙ link in
      let value = λ (k : Text).
        law.gets k h.out
        ∙ ap (find_attr k) h.attrs
        ∙ find_attr-link_attrs k (attributes e)
        ∙ ap (link_attr k) (sym (law.gets k e)) in
      (
        on_reader_any api h.out,
        ap (λ t. run api (reader_handle api) (matched reader_handlers t) e) link
            ∙ run_maybe api law names (reader_handle api) true ReaderRule.links
                (ReaderRule.anything ∷ []) e h.out (on_reader_any api h.out) false h.went refl,
        λ k.
            prose_attributes h.out k (rw tag refl)
            ∙ ap (λ t. if has_name (allowed t) k then api.get_attribute k h.out else none) tag
            ∙ (λ i. if has_name (allowed (codes "a")) k then value k i else none),
      )

  -- A link loses every attribute but three: it keeps its address, if it has one, cleaned, and has
  -- the `rel` and the `target` that are set. No handler fails, and no flag is raised.
  pub reader_links :
      (e : Element)
      → tag_name e ≡ codes "a"
      → (out : Element) × (run api (reader_handle api) (matched reader_handlers (tag_name e)) e
          ≡ ok (out, false))
        × ((k : Text)
            → api.get_attribute k out ≡ (
                if text_eq (codes "href") k
                then map_some cleaned (api.get_attribute k e)
                else if text_eq (codes "rel") k
                then some (codes "noreferrer noopener")
                else if text_eq (codes "target") k
                then some (codes "_blank")
                else none))
  reader_links e link =
      let (out, went, values) = link_attributes e link in
      (out, went, λ k. values k ∙ allowed_values k (api.get_attribute k e))
