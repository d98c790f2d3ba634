-- ===== src/Probes/Probing/Unlabelled.antt =====
-- The programs that take the id of a label for a number never count or show anything.
use aerogram.Prelude.{
  ℕ, ◌≡◌, ◌≢◌, refl, ap, ◌∙◌, ◌⊎◌, inl, inr, Option, none, some, List, [], ◌∷◌, Text, Bytes, codes,
  Result, ok, err, Result-cases, unwrap_or,
}
use mathlib.Core.Path.{subst}
use aerogram.Json.{Value, object, end}
use aerogram.Html.Stream.{RewriterApi}
use aerogram.Proton.Core.{ProtonApi, ProtonCore}
use aerogram.Proton.Auth.{LoginParams, restore_session}
use aerogram.Proton.Labels.{list_labels}
use aerogram.Proton.Abi.{Texts, envelope}
use aerogram.Proton.Core.Yields.{IfOk}
use aerogram.Json.Shapes.{fits}
use aerogram.Proton.Dispatch.{Method}
use aerogram.Proton.Dispatch.Answers.{Fits, answer_shape}
use aerogram.Proton.Dispatch.Answers.Listed.{list_labels-Yields}
use aerogram.Probes.{get_array}
use aerogram.Probes.Checks.{
  Run, aborts, ends, ◌>>=◌, cache_check, sanitize_check, inspect_html, header_check,
}
use aerogram.Probes.Checks.Asked.{after_ends, ask-restore_session, ask-list_labels}
use aerogram.Probes.Checks.Panics.{HasNoId, list_labels_no_id, checks_abort}
use aerogram.Probes.Probing.{each, count_label, probe, report, CountLine, BodyLine}

module _ (texts : Texts) (html : RewriterApi) (from_read : Bytes → ℕ → Result Text Text)
    (from_value : Value → Result Text LoginParams) (px : ProtonApi) (fuel : ℕ) where
  -- No labels, or a first one whose id is no number, at which the loop panics.
  counts-aborts :
      {B : Type 0} (o : Option (List Value)) (f : _ → ProtonCore px → Run (ProtonCore px) B)
      (c : ProtonCore px)
      → HasNoId o
      → (o ≡ none)
        ⊎ ((each texts html from_read from_value px fuel
                  (count_label texts html from_read from_value px fuel)
                  (unwrap_or o [])
                >>= f)
              c
            ≡ aborts)
  unfolding each count_label ◌>>=◌
  counts-aborts none f c h = inl refl
  counts-aborts (some []) f c h = absurd h
  counts-aborts (some (v ∷ vs)) f c h = inr (rw h refl)

  abbrev labels_in : ProtonCore px → Result Text Value × ProtonCore px
  labels_in c = list_labels px (object end) (restore_session px c).1

  abbrev pub Unlabelled : ProtonCore px → Type 0
  Unlabelled c =
      let labels = labels_in c in
      ((e : Text) × (labels.0 ≡ err e)
        × (probe texts html from_read from_value px fuel c
            ≡ ends (envelope texts (restore_session px c).0, envelope texts (err e), [], [])
                labels.1))
      ⊎ ((v : Value) × (labels.0 ≡ ok v)
          × (probe texts html from_read from_value px fuel c ≡ aborts))

  -- A list of labels is an array.
  listed_array :
      (v : Value)
      → Fits (answer_shape Method.list_labels) v
      → get_array (codes "ok") (envelope texts (ok v)) ≢ none
  unfolding fits
  listed_array v fit gone = cc (fit, gone)

  abbrev reported :
      ProtonCore px
      → Result Text Value
      → Run (ProtonCore px) (Value × Value × List CountLine × List (Option BodyLine))
  reported c r =
      report texts html from_read from_value px fuel (envelope texts (restore_session px c).0)
        (envelope texts r) (labels_in c).1

  probe-report :
      (c : ProtonCore px)
      → probe texts html from_read from_value px fuel c ≡ reported c (labels_in c).0
  unfolding probe
  probe-report c =
      let d = (restore_session px c).1 in
      after_ends _ _ _ c d (ask-restore_session texts html from_read from_value px fuel c)
      ∙ after_ends _ _ _ d (labels_in c).1
          (ask-list_labels texts html from_read from_value px fuel (object end) d)

  refused_report :
      (c : ProtonCore px) (e : Text)
      → reported c (err e)
        ≡ ends
            (envelope texts (restore_session px c).0, envelope texts (err e), [], [])
            (labels_in c).1
  unfolding report each ◌>>=◌
  refused_report c e = refl

  listed_report :
      (c : ProtonCore px) (v : Value)
      → get_array (codes "ok") (envelope texts (ok v)) ≢ none
      → HasNoId (get_array (codes "ok") (envelope texts (ok v)))
      → reported c (ok v) ≡ aborts
  unfolding report
  listed_report c v there h =
      elim (counts-aborts (get_array (codes "ok") (envelope texts (ok v))) _ (labels_in c).1 h) [
        | inl gone ↦ absurd (there gone)
        | inr stops ↦ stops
      ]

  probe-Unlabelled : (c : ProtonCore px) → Unlabelled c
  probe-Unlabelled c = elim (Result-cases (labels_in c).0) [
    | inl (e, refused) ↦
        inl (e, refused, probe-report c ∙ ap (reported c) refused ∙ refused_report c e)
    | inr (v, listed) ↦
        let fit =
          subst (IfOk (Fits (answer_shape Method.list_labels))) listed
            (list_labels-Yields px (object end) (restore_session px c).1).yielded in
        let no_id =
          subst (λ r. HasNoId (get_array (codes "ok") (envelope texts r))) listed
            (list_labels_no_id texts px (restore_session px c).1) in
        inr (
          v,
          listed,
          probe-report c ∙ ap (reported c) listed ∙ listed_report c v (listed_array v fit) no_id,
        )
  ]

  -- Whatever the server and the core answer, cache_check, sanitize_check, inspect_html and
  -- header_check end in the panic of an `unwrap`, for want of labels or at the first one, whose id
  -- is no number; and probe ends in that panic if it has labels, and with no count and no body if
  -- they are refused.
  pub programs_stop :
      (c : ProtonCore px)
      → (cache_check texts html from_read from_value px fuel c ≡ aborts)
        × (sanitize_check texts html from_read from_value px fuel c ≡ aborts)
        × (inspect_html texts html from_read from_value px fuel c ≡ aborts)
        × (header_check texts html from_read from_value px fuel c ≡ aborts)
        × Unlabelled c
  programs_stop c =
      let (cached, sanitized, inspected, headed) =
        checks_abort texts html from_read from_value px fuel c in
      (cached, sanitized, inspected, headed, probe-Unlabelled c)
