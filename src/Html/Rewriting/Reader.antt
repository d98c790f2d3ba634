-- ===== src/Html/Rewriting/Reader.antt =====
-- The Reader on one element, its handlers in the order in which they are registered.
use aerogram.Prelude.{
  ◌≡◌, refl, ap, ◌∙◌, ◌⊎◌, inl, inr, Bool, true, false, ◌||◌, ◌&&◌, not, List, [], ◌∷◌,
  if◌then◌else◌, Bool-cases, All, leb, Text, codes, ok,
}
use mathlib.Core.Path.{subst}
use aerogram.Html.Elements.{
  ElementApi, has_name, reader_removed_tags, reader_keep, allowed, on_removed, on_table,
  on_reader_any, remove_where,
}
use aerogram.Html.Elements.Attributes.{on_reader_any-allowed}
use aerogram.Html.Rewriting.{
  Rule, ReaderRule, Handler, table_tags, reader_handlers, matched, handle, reader_handle, run,
}
use aerogram.Html.Rewriting.Effects.{
  unwrap, HasEffects, handled, fate-remove_where, tag_name-remove_where,
}
use aerogram.Html.Rewriting.Fates.{
  is_cell, is_page, reader_tag, reader_fate, tabled, calm, calm-tabled, if_same, if_through,
}

-- What lol_html documents of unwrapping and renaming an element.
pub record Renames (api : ElementApi) (law : HasEffects api) : Type 0 where
  pub attributes_unwrap :
      (e : api.Element) → api.attributes (api.remove_and_keep_content e) ≡ api.attributes e
  pub tag_unwrap : (e : api.Element) → api.tag_name (api.remove_and_keep_content e) ≡ api.tag_name e
  pub fate_unwrap :
      (e : api.Element) → law.fate (api.remove_and_keep_content e) ≡ unwrap (law.fate e)
  pub rename : Text → api.Element → api.Element
  pub renames :
      (n : Text) (e : api.Element)
      → All (λ c. (leb b'a' c && leb c b'z') ≡ true) n
      → api.set_tag_name n e ≡ ok (rename n e)
  pub attributes_rename :
      (n : Text) (e : api.Element) → api.attributes (rename n e) ≡ api.attributes e
  pub tag_rename : (n : Text) (e : api.Element) → api.tag_name (rename n e) ≡ n
  pub fate_rename : (n : Text) (e : api.Element) → law.fate (rename n e) ≡ law.fate e

All-trivial : (as' : List (Text × Text)) → All (λ a. ◌≡◌ {A = Bool} true true) as'
All-trivial [] = tt
All-trivial (a ∷ as') = (refl, All-trivial as')

module _ (api : ElementApi) (law : HasEffects api) (names : Renames api law) where
  open api use {Element, attributes, tag_name}

  -- A handler's step that raises no flag, if it is made.
  pub run_maybe :
      (h : ReaderRule → Handler api) (b : Bool) (r : ReaderRule) (rs : List ReaderRule)
      (e e' out : Element) (flag : Bool)
      → h r e ≡ ok (e', false)
      → run api h rs (if b then e' else e) ≡ ok (out, flag)
      → run api h (if b then r ∷ rs else rs) e ≡ ok (out, flag)
  unfolding run
  run_maybe h true r rs e e' out flag went rest = rw (run, went) (rw (run, rest) refl)
  run_maybe h false r rs e e' out flag went rest = rest

  table_goes :
      (e : Element)
      → (out : Element) × (reader_handle api ReaderRule.tables e ≡ ok (out, false))
        × (tag_name out ≡ (if is_cell (tag_name e) then codes "p" else tag_name e))
        × (law.fate out ≡ (if is_cell (tag_name e) then law.fate e else unwrap (law.fate e)))
  unfolding reader_handle on_table
  table_goes e = elim (Bool-cases (is_cell (tag_name e))) [
    | inl cell ↦ (
      names.rename (codes "p") e,
      rw (cell, names.renames (codes "p") e (refl, tt)) refl,
      rw cell (names.tag_rename (codes "p") e),
      rw cell (names.fate_rename (codes "p") e),
    )
    | inr other ↦ (
      api.remove_and_keep_content e,
      rw other refl,
      rw other (names.tag_unwrap e),
      rw other (names.fate_unwrap e),
    )
  ]

  pub reader_any_prose :
      (e : Element)
      → has_name reader_keep (tag_name e) ≡ true
      → on_reader_any api e ≡ remove_where api (λ a. not (has_name (allowed (tag_name e)) a.0)) e
  unfolding on_reader_any
  reader_any_prose e prose = rw prose refl

  reader_any_other :
      (e : Element)
      → has_name reader_keep (tag_name e) ≡ false
      → on_reader_any api e ≡ (if is_page (tag_name e) then e else api.remove_and_keep_content e)
  unfolding on_reader_any
  reader_any_other e other = rw other refl

  any_goes :
      (e : Element)
      → (tag_name (on_reader_any api e) ≡ tag_name e)
        × (law.fate (on_reader_any api e) ≡ calm (tag_name e) (law.fate e))
        × All
            (λ a.
              (not (has_name reader_keep (tag_name e)) || has_name (allowed (tag_name e)) a.0)
              ≡ true)
            (attributes (on_reader_any api e))
  unfolding remove_where calm
  any_goes e = elim (Bool-cases (has_name reader_keep (tag_name e))) [
    | inl prose ↦ rw prose (
      ap tag_name (reader_any_prose e prose) ∙ tag_name-remove_where api law _ e,
      ap law.fate (reader_any_prose e prose) ∙ fate-remove_where api law _ e,
      (on_reader_any-allowed api law.removes e prose).0,
    )
    | inr other ↦ elim (Bool-cases (is_page (tag_name e))) [
      | inl page ↦
          let same = reader_any_other e other in
          rw (other, page)
            (
              ap tag_name same ∙ rw page refl,
              ap law.fate same ∙ rw page refl,
              All-trivial (attributes (on_reader_any api e)),
            )
      | inr unknown ↦
          let same = reader_any_other e other in
          rw (other, unknown)
            (
              ap tag_name same ∙ rw unknown (names.tag_unwrap e),
              ap law.fate same ∙ rw unknown (names.fate_unwrap e),
              All-trivial (attributes (on_reader_any api e)),
            )
    ]
  ]

  -- With the handlers in the order of their registration none fails and no flag is raised. A cell
  -- becomes a paragraph, and no other tag changes. What is written follows the tag: nothing for a
  -- removed tag; for a table's tag its content, or the whole if it is a cell; the whole of a prose
  -- tag, of `html` and of `body`; and the content of any other. An element with a prose tag has in
  -- the end only the attributes that the tag is allowed.
  pub reader_calms :
      (e : Element)
      → (out : Element) × (run api (reader_handle api) (matched reader_handlers (tag_name e)) e
          ≡ ok (out, false))
        × (tag_name out ≡ reader_tag (tag_name e))
        × (law.fate out ≡ reader_fate (tag_name e) (law.fate e))
        × All
            (λ a.
              (not (has_name reader_keep (reader_tag (tag_name e)))
                || has_name (allowed (reader_tag (tag_name e))) a.0)
              ≡ true)
            (attributes out)
  unfolding reader_handle handle run tabled on_removed
  reader_calms e =
      let tag = tag_name e in
      let e₁ = if has_name reader_removed_tags tag then api.remove e else e in
      let table = table_goes e₁ in
      let e₂ = if has_name table_tags tag then table.0 else e₁ in
      let link = handled api law Rule.links e₂ in
      let e₃ = if has_name (codes "a" ∷ []) tag then link.out else e₂ in
      let final = any_goes e₃ in
      let tag₁ =
        if_through tag_name (has_name reader_removed_tags tag) (api.remove e) e
        ∙ (λ i. if has_name reader_removed_tags tag then law.tag_remove e i else tag)
        ∙ if_same (has_name reader_removed_tags tag) tag in
      let tag₂ = if_through tag_name (has_name table_tags tag) table.0 e₁ ∙ (λ i.
        if has_name table_tags tag
        then (table.2 ∙ ap (λ t. if is_cell t then codes "p" else t) tag₁) i
        else tag₁ i) in
      let tag₃ =
        if_through tag_name (has_name (codes "a" ∷ []) tag) link.out e₂
        ∙ (λ i. if has_name (codes "a" ∷ []) tag then link.tag i else tag_name e₂)
        ∙ if_same (has_name (codes "a" ∷ []) tag) (tag_name e₂)
        ∙ tag₂ in
      let fate₁ =
        if_through law.fate (has_name reader_removed_tags tag) (api.remove e) e
        ∙ (λ i. if has_name reader_removed_tags tag then law.fate_remove e i else law.fate e) in
      let fate₂ = if_through law.fate (has_name table_tags tag) table.0 e₁ ∙ (λ i.
        if has_name table_tags tag
        then (table.3 ∙ ap (λ t. if is_cell t then law.fate e₁ else unwrap (law.fate e₁)) tag₁) i
        else law.fate e₁) in
      let fate₃ =
        if_through law.fate (has_name (codes "a" ∷ []) tag) link.out e₂
        ∙ (λ i. if has_name (codes "a" ∷ []) tag then link.fates i else law.fate e₂)
        ∙ if_same (has_name (codes "a" ∷ []) tag) (law.fate e₂)
        ∙ fate₂
        ∙ ap (tabled tag) fate₁ in
      (
        on_reader_any api e₃,
        run_maybe (reader_handle api) (has_name reader_removed_tags tag) ReaderRule.removing _ e
            (api.remove e) (on_reader_any api e₃) false refl
            (run_maybe (reader_handle api) (has_name table_tags tag) ReaderRule.tables _ e₁ table.0
              (on_reader_any api e₃) false table.1
              (run_maybe (reader_handle api) (has_name (codes "a" ∷ []) tag) ReaderRule.links _ e₂
                link.out (on_reader_any api e₃) false link.went refl)),
        final.0 ∙ tag₃,
        final.1
            ∙ ap (λ t. calm t (law.fate e₃)) tag₃
            ∙ ap (calm (reader_tag tag)) fate₃
            ∙ calm-tabled tag (law.fate e),
        subst
            (λ t.
              All (λ a. (not (has_name reader_keep t) || has_name (allowed t) a.0) ≡ true)
                (attributes (on_reader_any api e₃)))
            tag₃ final.2,
      )

  page_alone :
      (e : Element)
      → has_name reader_keep (tag_name e) ≡ false
      → is_page (tag_name e) ≡ true
      → run api (reader_handle api) (ReaderRule.anything ∷ []) e ≡ ok (e, false)
  unfolding reader_handle run
  page_alone e other page =
      ap (λ x. ok (x, false))
        (reader_any_other e other ∙ (λ i. if page i then e else api.remove_and_keep_content e))

  -- The elements of the page itself, `html` and `body`, are left as they are, with every attribute
  -- that they have.
  reader_keeps_page :
      (e : Element)
      → (tag_name e ≡ codes "html") ⊎ (tag_name e ≡ codes "body")
      → run api (reader_handle api) (matched reader_handlers (tag_name e)) e ≡ ok (e, false)
  reader_keeps_page e (inl html) =
      ap (λ t. run api (reader_handle api) (matched reader_handlers t) e) html
      ∙ page_alone e (rw html refl) (rw html refl)
  reader_keeps_page e (inr body) =
      ap (λ t. run api (reader_handle api) (matched reader_handlers t) e) body
      ∙ page_alone e (rw body refl) (rw body refl)
