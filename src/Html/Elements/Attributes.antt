-- ===== src/Html/Elements/Attributes.antt =====
-- Which attributes are left after the handlers.
use aerogram.Prelude.{
  ◌≡◌, refl, sym, ap, ◌∙◌, inl, inr, Bool, true, false, not, List, [], ◌∷◌, map, arith, Bool-cases,
  keep_if, All, Text, codes, text_eq, text_eq_refl, starts_with,
}
use mathlib.Core.Path.{subst}
use aerogram.Html.Link.{to_ascii_lowercase}
use aerogram.Html.Elements.{
  ElementApi, has_name, trim_start, is_bad, reader_keep, remove_all, remove_where, on_any, allowed,
  on_reader_any,
}

abbrev pub Attribute : Type 0
Attribute = Text × Text

-- Taking attributes out by the name.
abbrev pub without : Text → List (Text × Text) → List (Text × Text)
without n as' = keep_if (λ a. not (text_eq a.0 n)) as'

abbrev pub without_all : List Text → List Attribute → List Attribute
without_all ns as' = keep_if (λ a. not (has_name ns a.0)) as'

without_all-step :
    (n : Text) (ns : List Text) (as' : List Attribute)
    → without_all ns (without n as') ≡ without_all (n ∷ ns) as'
without_all-step n ns [] = refl
without_all-step n ns (a ∷ as') = ground (arith, without_all-step n ns as')

pub without_none : (as' : List Attribute) → without_all [] as' ≡ as'
without_none [] = refl
without_none (a ∷ as') = ap (◌∷◌ a) (without_none as')

-- A name among those of the attributes that a filter takes is the name of one of them.
unfoldable pub named : (bad : Attribute → Bool) (as' : List Attribute) → List Text
named bad as' = map (λ a. a.0) (keep_if bad as')

has_name_self : (n : Text) (ns : List Text) → has_name (n ∷ ns) n ≡ true
has_name_self n ns = rw (text_eq_refl n) refl

-- What is left of the tail, if the names of the whole list are taken out, is not bad.
pub left_over :
    (bad : Attribute → Bool) (ns : List Text) (as' : List Attribute)
    → All (λ a. (bad a ≡ true) → has_name ns a.0 ≡ true) as'
    → All (λ a. bad a ≡ false) (without_all ns as')
left_over bad ns [] h = tt
left_over bad ns (a ∷ as') (ha, h) = elim (Bool-cases (has_name ns a.0)) [
  | inl gone ↦ rw gone (left_over bad ns as' h)
  | inr kept ↦ rw kept (not_bad kept, left_over bad ns as' h)
]
  where
    not_bad : has_name ns a.0 ≡ false → bad a ≡ false
    not_bad kept = elim (Bool-cases (bad a)) [ inl b ↦ cc (ha b) | inr good ↦ good ]

has_name-more : (n m : Text) (ns : List Text) → has_name ns n ≡ true → has_name (m ∷ ns) n ≡ true
has_name-more n m ns h = rw h (ground arith)

widen :
    (bad : Attribute → Bool) (m : Text) (ns : List Text) (as' : List Attribute)
    → All (λ a. (bad a ≡ true) → has_name ns a.0 ≡ true) as'
    → All (λ a. (bad a ≡ true) → has_name (m ∷ ns) a.0 ≡ true) as'
widen bad m ns [] h = tt
widen bad m ns (a ∷ as') (ha, h) = ((λ b. has_name-more a.0 m ns (ha b)), widen bad m ns as' h)

named_bad :
    (bad : Attribute → Bool) (a : Attribute) (as' : List Attribute)
    → bad a ≡ true
    → named bad (a ∷ as') ≡ a.0 ∷ named bad as'
unfolding named
named_bad bad a as' b = rw b refl

named_good :
    (bad : Attribute → Bool) (a : Attribute) (as' : List Attribute)
    → bad a ≡ false
    → named bad (a ∷ as') ≡ named bad as'
unfolding named
named_good bad a as' good = rw good refl

pub All-named :
    (bad : Attribute → Bool) (as' : List Attribute)
    → All (λ a. (bad a ≡ true) → has_name (named bad as') a.0 ≡ true) as'
All-named bad [] = tt
All-named bad (a ∷ as') = elim (Bool-cases (bad a)) [
  | inl b ↦
      subst (λ ns. All (λ x. (bad x ≡ true) → has_name ns x.0 ≡ true) (a ∷ as'))
        (sym (named_bad bad a as' b))
        (
          (λ _. has_name_self a.0 (named bad as')),
          widen bad a.0 (named bad as') as' (All-named bad as'),
        )
  | inr good ↦
      subst (λ ns. All (λ x. (bad x ≡ true) → has_name ns x.0 ≡ true) (a ∷ as'))
        (sym (named_good bad a as' good)) ((λ b. cc), All-named bad as')
]

pub named_none :
    (bad : Attribute → Bool) (as' : List Attribute)
    → All (λ a. bad a ≡ false) as'
    → named bad as' ≡ []
unfolding named
named_none bad [] h = refl
named_none bad (a ∷ as') (ha, h) = rw ha (named_none bad as' h)

kept_only :
    (names : List Text) (as' : List Attribute)
    → All (λ a. not (has_name names a.0) ≡ false) as'
    → All (λ a. has_name names a.0 ≡ true) as'
kept_only names [] h = tt
kept_only names (a ∷ as') (ha, h) = (ground arith, kept_only names as' h)

kept_named :
    (names : List Text) (as' : List Attribute)
    → All (λ a. has_name names a.0 ≡ true) as'
    → All (λ a. not (has_name names a.0) ≡ false) as'
kept_named names [] h = tt
kept_named names (a ∷ as') (ha, h) = (rw ha refl, kept_named names as' h)

-- The address of a script, as a browser reads the scheme: in any case of its letters.
abbrev pub IsScriptUrl : Text → Type 0
IsScriptUrl v = starts_with (to_ascii_lowercase (trim_start v)) (codes "javascript:") ≡ true

module _ (api : ElementApi) where
  open api use {Element, attributes, remove_attribute}

  -- The documented effect of `remove_attribute`.
  pub record RemovesByName : Type 0 where
    pub removes :
        (n : Text) (e : Element) → attributes (remove_attribute n e) ≡ without n (attributes e)

  pub attributes-remove_all :
      (law : RemovesByName) (ns : List Text) (e : Element)
      → attributes (remove_all api ns e) ≡ without_all ns (attributes e)
  unfolding remove_all
  attributes-remove_all law [] e = sym (without_none (attributes e))
  attributes-remove_all law (n ∷ ns) e =
      attributes-remove_all law ns (remove_attribute n e)
      ∙ ap (without_all ns) (law.removes n e)
      ∙ without_all-step n ns (attributes e)

  attributes-remove_where :
      (law : RemovesByName) (bad : Attribute → Bool) (e : Element)
      → All (λ a. bad a ≡ false) (attributes (remove_where api bad e))
        × (All (λ a. bad a ≡ false) (attributes e)
            → attributes (remove_where api bad e) ≡ attributes e)
  unfolding remove_where named
  attributes-remove_where law bad e =
      let as' = attributes e in
      rw (attributes-remove_all law (named bad as') e) (
        left_over bad (named bad as') as' (All-named bad as'),
        λ good. rw (named_none bad as' good) (without_none as'),
      )

  -- After the handler for every element no attribute is an event handler's or a script address, as
  -- the filter tells them; an element that had none keeps its attributes.
  pub on_any-strips :
      (law : RemovesByName) (e : Element)
      → All (λ a. is_bad a ≡ false) (attributes (on_any api e))
        × (All (λ a. is_bad a ≡ false) (attributes e) → attributes (on_any api e) ≡ attributes e)
  unfolding on_any
  on_any-strips law e = attributes-remove_where law is_bad e

  -- A prose element of the Reader has only the attributes that its tag is allowed, and keeps its
  -- attributes if these are all allowed, whatever their values.
  pub on_reader_any-allowed :
      (law : RemovesByName) (e : Element)
      → has_name reader_keep (api.tag_name e) ≡ true
      → All (λ a. has_name (allowed (api.tag_name e)) a.0 ≡ true) (attributes (on_reader_any api e))
        × (All (λ a. has_name (allowed (api.tag_name e)) a.0 ≡ true) (attributes e)
            → attributes (on_reader_any api e) ≡ attributes e)
  unfolding on_reader_any
  on_reader_any-allowed law e prose =
      let names = allowed (api.tag_name e) in
      let (gone, stays) = attributes-remove_where law (λ a. not (has_name names a.0)) e in
      rw prose (kept_only names _ gone, (λ fine. stays (kept_named names _ fine)))

  -- A script address whose scheme is not spelled in small letters passes the filter: it is still
  -- there after the handler.
  on_any-passes :
      (law : RemovesByName) (e : Element) (v : Text)
      → attributes e ≡ (codes "href", v) ∷ []
      → IsScriptUrl v
      → starts_with (trim_start v) (codes "javascript:") ≡ false
      → (attributes (on_any api e) ≡ (codes "href", v) ∷ []) × IsScriptUrl v
  on_any-passes law e v one script capital =
      ((on_any-strips law e).1 (rw one (unfold is_bad in (rw capital refl, tt))) ∙ one, script)
