-- ===== src/Html/Rewriting/Display.antt =====
-- The display sanitizer on one element, in whatever order its handlers run.
use aerogram.Prelude.{
  ◌≡◌, refl, sym, ap, ◌∙◌, ◌⊎◌, inl, inr, ℕ, Bool, true, false, ◌||◌, ◌&&◌, Option, some, List, [],
  ◌∷◌, arith, if◌then◌else◌, ◌==◌, any, Text, codes, text_eq, ok, unwrap_or,
}
use aerogram.Html.Elements.{ElementApi, has_name, removed_tags, is_bad}
use aerogram.Html.Rewriting.{
  Rule, removing, images, links, anything, display_handlers, matched, handle, run,
}
use aerogram.Html.Rewriting.Effects.{
  Fate, gone, HasEffects, find_attr, strip_attrs, link_attrs, attrs_all, fate_all, flag_all,
  is_remote, run-handled,
}
use aerogram.Html.Rewriting.Lists.{
  IsClean, IsClean-strip_attrs, IsClean-link_attrs, strip_attrs_clean, IsSafeName,
  find_attr-strip_attrs, find_attr-link_attrs, link_attr, link_attr-idempotent,
}

abbrev number : Rule → ℕ
number removing = 0
number images = 1
number links = 2
number anything = 3

abbrev pub has : Rule → List Rule → Bool
has r rs = any (λ s. number s == number r) rs

-- The rules that match a tag, in any order and however often.
abbrev pub Matching : List Rule → Text → Type 0
Matching rs tag = (r : Rule) → has r rs ≡ has r (matched display_handlers tag)

-- Which rules match which tags.
abbrev pub matches : Rule → Text → Bool
matches removing tag = has_name removed_tags tag
matches images tag = text_eq tag (codes "img")
matches links tag = text_eq tag (codes "a")
matches anything tag = true

has-matched : (r : Rule) (tag : Text) → has r (matched display_handlers tag) ≡ matches r tag
has-matched removing tag = ground arith
has-matched images tag = ground arith
has-matched links tag = ground arith
has-matched anything tag = ground arith

IsClean-attrs_all :
    (rs : List Rule) (as' : List (Text × Text))
    → (has anything rs ≡ true) ⊎ IsClean as'
    → IsClean (attrs_all rs as')
IsClean-attrs_all [] as' (inl h) = cc
IsClean-attrs_all [] as' (inr good) = good
IsClean-attrs_all (removing ∷ rs) as' h = IsClean-attrs_all rs as' h
IsClean-attrs_all (images ∷ rs) as' h = IsClean-attrs_all rs as' h
IsClean-attrs_all (links ∷ rs) as' (inl h) = IsClean-attrs_all rs (link_attrs as') (inl h)
IsClean-attrs_all (links ∷ rs) as' (inr good) =
    IsClean-attrs_all rs (link_attrs as') (inr (IsClean-link_attrs as' good))
IsClean-attrs_all (anything ∷ rs) as' h =
    IsClean-attrs_all rs (strip_attrs as') (inr (IsClean-strip_attrs as'))

fate_all_lem :
    (rs : List Rule) (f : Fate)
    → fate_all rs f ≡ (if has removing rs || has images rs then gone else f)
fate_all_lem [] f = refl
fate_all_lem (removing ∷ rs) f = ground (arith, fate_all_lem rs gone)
fate_all_lem (images ∷ rs) f = ground (arith, fate_all_lem rs gone)
fate_all_lem (links ∷ rs) f = fate_all_lem rs f
fate_all_lem (anything ∷ rs) f = fate_all_lem rs f

-- A value that links are given stays.
module _ (k v : Text) (safe : IsSafeName k)
    (given : (old : Option Text) → link_attr k old ≡ some v) where
  find_attr-given :
      (rs : List Rule) (as' : List (Text × Text))
      → find_attr k (attrs_all rs as') ≡ (if has links rs then some v else find_attr k as')
  find_attr-given [] as' = refl
  find_attr-given (removing ∷ rs) as' = find_attr-given rs as'
  find_attr-given (images ∷ rs) as' = find_attr-given rs as'
  find_attr-given (links ∷ rs) as' = ground (
    arith,
    find_attr-given rs (link_attrs as'),
    find_attr-link_attrs k as',
    given (find_attr k as'),
  )
  find_attr-given (anything ∷ rs) as' =
      find_attr-given rs (strip_attrs as')
      ∙ ap (λ (o : Option Text). if has links rs then some v else o)
          (find_attr-strip_attrs k as' safe)

-- Handlers on attributes that are clean already.
remote_source : List (Text × Text) → Bool
remote_source as' = is_remote (unwrap_or (find_attr (codes "src") as') [])

flag_all_clean :
    (rs : List Rule) (as' : List (Text × Text))
    → IsClean as'
    → flag_all rs as' ≡ (has images rs && remote_source as')
unfolding remote_source
flag_all_clean [] as' good = refl
flag_all_clean (removing ∷ rs) as' good = flag_all_clean rs as' good
flag_all_clean (images ∷ rs) as' good = ground (arith, flag_all_clean rs as' good)
flag_all_clean (links ∷ rs) as' good =
    flag_all_clean rs (link_attrs as') (IsClean-link_attrs as' good)
    ∙ ap (λ o. has images rs && is_remote (unwrap_or o [])) (find_attr-link_attrs (codes "src") as')
flag_all_clean (anything ∷ rs) as' good =
    rw (strip_attrs_clean as' good) (flag_all_clean rs as' good)

find_attr_clean :
    (k : Text) (rs : List Rule) (as' : List (Text × Text))
    → IsClean as'
    → find_attr k (attrs_all rs as')
      ≡ (if has links rs then link_attr k (find_attr k as') else find_attr k as')
find_attr_clean k [] as' good = refl
find_attr_clean k (removing ∷ rs) as' good = find_attr_clean k rs as' good
find_attr_clean k (images ∷ rs) as' good = find_attr_clean k rs as' good
find_attr_clean k (links ∷ rs) as' good =
    find_attr_clean k rs (link_attrs as') (IsClean-link_attrs as' good)
    ∙ ap (λ (o : Option Text). if has links rs then link_attr k o else o)
        (find_attr-link_attrs k as')
    ∙ once (has links rs)
  where
    once :
        (b : Bool)
        → (if b then link_attr k (link_attr k (find_attr k as')) else link_attr k (find_attr k as'))
          ≡ link_attr k (find_attr k as')
    once true = link_attr-idempotent k (find_attr k as')
    once false = refl
find_attr_clean k (anything ∷ rs) as' good =
    rw (strip_attrs_clean as' good) (find_attr_clean k rs as' good)

module _ (api : ElementApi) (law : HasEffects api) where
  open api use {Element, attributes, tag_name, get_attribute}

  rule_matches :
      (rs : List Rule) (tag : Text) → Matching rs tag → (r : Rule) → has r rs ≡ matches r tag
  rule_matches rs tag all r = all r ∙ has-matched r tag

  attribute_given :
      (k v : Text) (rs : List Rule) (e out : Element)
      → IsSafeName k
      → ((old : Option Text) → link_attr k old ≡ some v)
      → has links rs ≡ matches links (tag_name e)
      → attributes out ≡ attrs_all rs (attributes e)
      → get_attribute k out
        ≡ (if text_eq (tag_name e) (codes "a") then some v else get_attribute k e)
  attribute_given k v rs e out safe given link attrs =
      law.gets k out
      ∙ ap (find_attr k) attrs
      ∙ find_attr-given k v safe given rs (attributes e)
      ∙ (λ i. if link i then some v else sym (law.gets k e) i)

  -- Whatever order lol_html runs the handlers of an element in, none fails; no event handler's
  -- attribute and no script address, as the filter tells them, is left; the element is gone if its
  -- tag is an image's or one of the removed ones, and is otherwise written as before; a link has
  -- its `rel` and its `target`, and any other element has them as before.
  pub display_policed :
      (rs : List Rule) (e : Element)
      → Matching rs (tag_name e)
      → (out : Element) × (flag : Bool) × (run api (handle api) rs e ≡ ok (out, flag))
        × IsClean (attributes out)
        × (law.fate out ≡ (
            if has_name removed_tags (tag_name e) || text_eq (tag_name e) (codes "img")
            then gone
            else law.fate e))
        × (get_attribute (codes "rel") out ≡ (
            if text_eq (tag_name e) (codes "a")
            then some (codes "noreferrer noopener")
            else get_attribute (codes "rel") e))
        × (get_attribute (codes "target") out ≡ (
            if text_eq (tag_name e) (codes "a")
            then some (codes "_blank")
            else get_attribute (codes "target") e))
  unfolding is_bad
  display_policed rs e all =
      let (out, went, attrs, fates) = run-handled api law rs e in
      let rule = rule_matches rs (tag_name e) all in
      (
        out,
        flag_all rs (attributes e),
        went,
        rw attrs (IsClean-attrs_all rs (attributes e) (inl (rule anything))),
        fates
            ∙ fate_all_lem rs (law.fate e)
            ∙ (λ i. if rule removing i || rule images i then gone else law.fate e),
        attribute_given (codes "rel") (codes "noreferrer noopener") rs e out (λ v. refl)
            (λ old. refl) (rule links) attrs,
        attribute_given (codes "target") (codes "_blank") rs e out (λ v. refl) (λ old. refl)
            (rule links) attrs,
      )

  -- On an element that has no attribute to strip, the flag is raised exactly by an image whose
  -- source is remote or inline data, and no attribute changes but those of a link: its `rel`, its
  -- `target` and its address, which is cleaned.
  pub display_spares :
      (rs : List Rule) (e : Element)
      → Matching rs (tag_name e)
      → IsClean (attributes e)
      → (out : Element) × (run api (handle api) rs e
          ≡ ok (
            out,
            text_eq (tag_name e) (codes "img")
                && is_remote (unwrap_or (get_attribute (codes "src") e) []),
          ))
        × ((k : Text)
            → get_attribute k out ≡ (
                if text_eq (tag_name e) (codes "a")
                then link_attr k (get_attribute k e)
                else get_attribute k e))
  unfolding remote_source
  display_spares rs e all good =
      let (out, went, attrs, fates) = run-handled api law rs e in
      let rule = rule_matches rs (tag_name e) all in
      let flag =
        flag_all_clean rs (attributes e) good
        ∙ (λ i. rule images i && is_remote (unwrap_or (sym (law.gets (codes "src") e) i) [])) in
      (
        out,
        went ∙ ap (λ b. ok (out, b)) flag,
        λ k.
            law.gets k out
            ∙ ap (find_attr k) attrs
            ∙ find_attr_clean k rs (attributes e) good
            ∙ (λ i.
                let old = sym (law.gets k e) i in if rule links i then link_attr k old else old),
      )
