-- ===== src/Probes/Checks/Panics.antt =====
-- The programs never get to a body: each takes the id of a label for a number.
use aerogram.Proton.Core.{◌>>◌}
use aerogram.Prelude.{
  ℕ, ◌-◌, ◌≡◌, refl, sym, ap, arith, ◌∙◌, inl, inr, Option, none, some, List, [], ◌∷◌, ◌++◌, map,
  All, Text, Bytes, codes, Result, Result-cases, Option-cases, ok, err,
}
use mathlib.Core.Path.{subst}
use aerogram.Json.{Value, array, object, end, get_u64, get_str}
use aerogram.Html.Stream.{RewriterApi}
use aerogram.Proton.Core.{ProtonApi, ProtonCore, Label}
use aerogram.Proton.Core.{api, call}
use aerogram.Proton.Auth.{LoginParams, restore_session}
use aerogram.Proton.Labels.{list_labels, label_type, listed_system, with_counts, rows, to_values}
use aerogram.Proton.Labels.Listing.{listed, list_labels_ids, list_labels_rows, list_labels_answer}
use aerogram.Proton.Abi.{Texts, envelope}
use aerogram.Probes.{get_array}
use aerogram.Probes.Checks.Asked.{after_ends, ask-restore_session, ask-list_labels}
use aerogram.Probes.Checks.{
  Run, aborts, ends, ◌>>=◌, unwrap, first, id_of, ask, timed, untimed, each_label, first_body,
  visit_twice, visit_html, visit_timed, cache_check, sanitize_check, inspect_html, header_check,
}

-- No array, or one whose first element has no number for its id.
abbrev pub HasNoId : Option (List Value) → Type 0
HasNoId none = Unit
HasNoId (some []) = ⊥
HasNoId (some (v ∷ vs)) = get_u64 (codes "id") v ≡ none

first_no_id :
    (vs : List Value) (x : Option Text) (xs : List (Option Text))
    → All (λ v. get_u64 (codes "id") v ≡ none) vs
    → map (get_str (codes "id")) vs ≡ x ∷ xs
    → HasNoId (some vs)
first_no_id [] x xs all same = cc
first_no_id (v ∷ vs) x xs all same = all.0

module _ (texts : Texts) (px : ProtonApi) where
  abbrev Answered : Result Text Value → Type 0
  Answered r = HasNoId (get_array (codes "ok") (envelope texts r))

  refused :
      (c : ProtonCore px)
      → c.state.api ≡ none
      → (list_labels px (object end) c).0 ≡ err (codes "not logged in")
  unfolding ◌>>=◌ ◌>>◌ list_labels api
  refused c out = ground arith

  failed :
      (c : ProtonCore px) (session : px.ApiSession) (e : Text)
      → c.state.api ≡ some session
      → (px.get_labels (label_type (object end)) session c.world).0 ≡ err e
      → (list_labels px (object end) c).0 ≡ err (codes "get_labels" ++ codes ": " ++ e)
  unfolding ◌>>=◌ ◌>>◌ list_labels api call
  failed c session e here there = ground arith

  listed_no_id :
      (c : ProtonCore px) (session : px.ApiSession) (labels : List Label) (w : px.World)
      → c.state.api ≡ some session
      → px.get_labels (label_type (object end)) session c.world ≡ (ok labels, w)
      → Answered (list_labels px (object end) c).0
  unfolding listed_system
  listed_no_id c session labels w here there =
      let all = list_labels_ids px (object end) c session labels w here there in
      let ids = (list_labels_rows px (object end) c session labels w here there).0 in
      let answered = list_labels_answer px (object end) c session labels w here there in
      let start : ProtonCore px = record { state = c.state; world = w } in
      let out = with_counts px session (rows (listed_system (object end) ++ labels)) start in
      rw answered (
        first_no_id (listed (ok (array (to_values out.0)))) _ _
          (subst
            (λ (o : Result Text Value × ProtonCore px).
              All (λ v. get_u64 (codes "id") v ≡ none) (listed o.0))
            answered all)
          (subst
            (λ (o : Result Text Value × ProtonCore px).
              map (get_str (codes "id")) (listed o.0)
              ≡ map (λ l. some l.id) (listed_system (object end) ++ labels))
            answered ids))

  pub list_labels_no_id : (c : ProtonCore px) → Answered (list_labels px (object end) c).0
  list_labels_no_id c = elim (Option-cases c.state.api) [
    | inl out ↦ subst Answered (sym (refused c out)) tt
    | inr (session, here) ↦
        let asked = px.get_labels (label_type (object end)) session c.world in
        elim (Result-cases asked.0) [
          | inl (e, wrong) ↦ subst Answered (sym (failed c session e here wrong)) tt
          | inr (labels, there) ↦
              listed_no_id c session labels asked.1 here (ap (λ r. (r, asked.1)) there)
        ]
  ]

module _ {C A : Type 0} where
  unwrap_first_no_id :
      (o : Option (List Value))
      → HasNoId o
      → (f : ℕ → C → Run C A) (c : C) → (unwrap (id_of (first o)) >>= f) c ≡ aborts
  unfolding ◌>>=◌
  unwrap_first_no_id none h f c = refl
  unwrap_first_no_id (some []) h f c = absurd h
  unwrap_first_no_id (some (v ∷ vs)) h f c = rw h refl

module _ (texts : Texts) (html : RewriterApi) (from_read : Bytes → ℕ → Result Text Text)
    (from_value : Value → Result Text LoginParams) (px : ProtonApi) (fuel : ℕ) where
  -- What the programs rely on: a call of a method that needs no rounds is answered.
  abbrev IsAnswered : (Text → Value → ProtonCore px → Run (ProtonCore px) Value) → Type 0
  IsAnswered asks =
      (c : ProtonCore px)
      → ((v : Value) × (d : ProtonCore px) × (asks (codes "restore_session") (object end) c
            ≡ ends v d))
        × ((v : Value) × (d : ProtonCore px) × (asks (codes "list_labels") (object end) c
              ≡ ends v d)
            × HasNoId (get_array (codes "ok") v))

  module _ {A : Type 0} (asks : Text → Value → ProtonCore px → Run (ProtonCore px) Value)
      (limit : ℕ) (visit : ℕ → ProtonCore px → Run (ProtonCore px) (Option A)) where
    each_label-aborts :
        (o : Option (List Value))
        → HasNoId o
        → (c : ProtonCore px)
        → (unwrap o >>= each_label texts html from_read from_value px fuel asks limit visit) c
          ≡ aborts
    unfolding each_label ◌>>=◌
    each_label-aborts none h c = refl
    each_label-aborts (some []) h c = absurd h
    each_label-aborts (some (v ∷ vs)) h c = rw h refl

    first_body-aborts :
        IsAnswered asks
        → (c : ProtonCore px)
        → first_body texts html from_read from_value px fuel asks limit visit c ≡ aborts
    unfolding first_body
    first_body-aborts answered c =
        let (v, d, restored) = (answered c).0 in
        let (labels, e, there, no_id) = (answered d).1 in
        after_ends _ _ v c d restored
        ∙ after_ends _ _ labels d e there
        ∙ each_label-aborts (get_array (codes "ok") labels) no_id e

  ask-IsAnswered : IsAnswered (ask texts html from_read from_value px fuel)
  ask-IsAnswered c = (
    (_, _, ask-restore_session texts html from_read from_value px fuel c),
    (
      _,
      _,
      ask-list_labels texts html from_read from_value px fuel (object end) c,
      list_labels_no_id texts px c,
    ),
  )

  abbrev looked : ProtonCore px → ProtonCore px
  looked c = record c { world = (px.instant c.world).1 }

  -- The clock is looked at before and after.
  untimed-ask :
      (method : Text) (params v : Value) (c e : ProtonCore px)
      → ask texts html from_read from_value px fuel method params (looked c) ≡ ends v e
      → untimed texts html from_read from_value px fuel method params c ≡ ends v (looked e)
  unfolding timed
  untimed-ask method params v c e answered =
      after_ends (timed texts html from_read from_value px fuel method params) _
        (v, (px.instant e.world).0 - (px.instant c.world).0) c (looked e)
        (after_ends _ _ (px.instant c.world).0 c (looked c) refl
          ∙ after_ends _ _ v (looked c) e answered
          ∙ after_ends _ _ (px.instant e.world).0 e (looked e) refl)

  untimed-IsAnswered : IsAnswered (untimed texts html from_read from_value px fuel)
  untimed-IsAnswered c =
      let (v, e, restored) = (ask-IsAnswered (looked c)).0 in
      let (labels, g, there, no_id) = (ask-IsAnswered (looked c)).1 in
      (
        (v, looked e, untimed-ask _ _ v c e restored),
        (labels, looked g, untimed-ask _ _ labels c g there, no_id),
      )

  -- Whatever the server and the core answer, none of the four programs gets to a body: each ends in
  -- the panic of an `unwrap`, for want of labels, or at the first label, whose id is no number.
  pub checks_abort :
      (c : ProtonCore px)
      → (cache_check texts html from_read from_value px fuel c ≡ aborts)
        × (sanitize_check texts html from_read from_value px fuel c ≡ aborts)
        × (inspect_html texts html from_read from_value px fuel c ≡ aborts)
        × (header_check texts html from_read from_value px fuel c ≡ aborts)
  unfolding cache_check sanitize_check inspect_html header_check
  checks_abort c =
      let d = (restore_session px c).1 in
      (
        first_body-aborts (untimed texts html from_read from_value px fuel) 5
            (visit_twice texts html from_read from_value px fuel) untimed-IsAnswered c,
        first_body-aborts (ask texts html from_read from_value px fuel) 15
            (visit_html texts html from_read from_value px fuel) ask-IsAnswered c,
        first_body-aborts (ask texts html from_read from_value px fuel) 15
            (visit_timed texts html from_read from_value px fuel) ask-IsAnswered c,
        after_ends _ _ _ c d (ask-restore_session texts html from_read from_value px fuel c)
            ∙ after_ends _ _ _ d _
                (ask-list_labels texts html from_read from_value px fuel (object end) d)
            ∙ unwrap_first_no_id _ (list_labels_no_id texts px d) _ _,
      )
