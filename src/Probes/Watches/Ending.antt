-- ===== src/Probes/Watches/Ending.antt =====
-- How the two programs that wait for events end.
use aerogram.Prelude.{
  ℕ, zero, suc, ◌*◌, ◌≤◌, ◌≡◌, refl, ap, ◌∙◌, inl, inr, arith, Option-cases, List, [], ◌∷◌, length,
  Text, Bytes, codes, Result,
}
use aerogram.Json.{Value}
use aerogram.Html.Stream.{RewriterApi}
use aerogram.Proton.Core.{ProtonApi, ProtonCore, CoreState}
use aerogram.Proton.Auth.{LoginParams, restore_session}
use aerogram.Proton.Events.{timeout, wait_event}
use aerogram.Proton.Events.Polling.{HasClock, Reported, wait_event_returns, wait_event-Reported}
use aerogram.Proton.Dispatch.{dispatch, run_method}
use aerogram.Proton.Abi.{Texts, envelope}
use aerogram.Probes.{call}
use aerogram.Probes.Checks.{Run, ends, ask}
use aerogram.Probes.Checks.Asked.{after_ends, ask-restore_session}
use aerogram.Probes.Watches.{timeout_params, waits, marker_watch, wait_event_probe}

module _ (texts : Texts) (html : RewriterApi) (from_read : Bytes → ℕ → Result Text Text)
    (from_value : Value → Result Text LoginParams) (px : ProtonApi) where
  -- Replies one after another, and the core's state from the first to the last.
  abbrev pub Watched : CoreState px → List Value → CoreState px → Type 0
  Watched s [] s' = s' ≡ s
  Watched s (v ∷ vs) s' =
      (r : Result Text Value) × (d : ProtonCore px) × (v ≡ envelope texts r)
      × Reported px s (r, d)
      × Watched d.state vs s'

  asked_wait :
      (law : HasClock px) (n ms : ℕ) (c : ProtonCore px)
      → timeout (timeout_params ms) ≤ n * 250
      → (r : Result Text Value) × (d : ProtonCore px) × (ask texts html from_read from_value px
            (suc n)
            (codes "wait_event")
            (timeout_params ms)
            c
          ≡ ends (envelope texts r) d)
        × Reported px c.state (r, d)
  unfolding ask call dispatch run_method
  asked_wait law n ms c h = elim (Option-cases (wait_event px (suc n) (timeout_params ms) c)) [
    | inl stuck ↦ let returned = wait_event_returns px law n (timeout_params ms) c h in cc
    | inr (out, e) ↦
        (out.0, out.1, rw (e, ask) refl, wait_event-Reported px (suc n) (timeout_params ms) c out e)
  ]

  module _ (law : HasClock px) (n : ℕ) where
    abbrev Ends : ℕ → ProtonCore px → (ProtonCore px → Run (ProtonCore px) (List Value)) → Type 0
    Ends k c program =
        (outs : List Value) × (d : ProtonCore px) × (program c ≡ ends outs d)
        × (length outs ≡ k)
        × Watched c.state outs d.state

    waits-Watched :
        (k ms : ℕ) (c : ProtonCore px)
        → timeout (timeout_params ms) ≤ n * 250
        → Ends k c (waits texts html from_read from_value px (suc n) k ms)
    unfolding waits
    waits-Watched zero ms c h = ([], c, refl, refl, refl)
    waits-Watched (suc k) ms c h =
        let (r, d, asked, reported) = asked_wait law n ms c h in
        let (outs, e, waited, count, watched) = waits-Watched k ms d h in
        (
          envelope texts r ∷ outs,
          e,
          after_ends _ _ (envelope texts r) c d asked ∙ after_ends _ _ outs d e waited,
          ap suc count,
          (r, d, refl, reported, watched),
        )

    abbrev pub Watches :
        ℕ → ProtonCore px → (ProtonCore px → Run (ProtonCore px) (Value × List Value)) → Type 0
    Watches k c program =
        let restored = restore_session px c in
        (outs : List Value) × (d : ProtonCore px) × (program c
          ≡ ends (envelope texts restored.0, outs) d)
        × (length outs ≡ k)
        × Watched restored.1.state outs d.state

    -- If the clock runs and a sleep lasts, both programs end with all their replies: six of
    -- marker_watch and three of wait_event_probe; 61 looks at the feed in each wait are enough.
    -- Each reply follows the core's marker from the reply before it: "messages" if it moved, no
    -- event if it was recorded for the first time or stayed, and an error if nothing changed.
    pub every_wait_returns :
        (c : ProtonCore px)
        → 60 ≤ n
        → Watches 6 c (marker_watch texts html from_read from_value px (suc n))
          × Watches 3 c (wait_event_probe texts html from_read from_value px (suc n))
    unfolding marker_watch wait_event_probe
    every_wait_returns c enough =
        let d = (restore_session px c).1 in
        let (outs, e, waited, count, watched) = waits-Watched 6 15_000 d (omega arith) in
        let (outs', e', waited', count', watched') = waits-Watched 3 2000 d (omega arith) in
        let restored = ask-restore_session texts html from_read from_value px (suc n) c in
        (
          (outs, e, after_ends _ _ _ c d restored ∙ after_ends _ _ outs d e waited, count, watched),
          (
            outs',
            e',
            after_ends _ _ _ c d restored ∙ after_ends _ _ outs' d e' waited',
            count',
            watched',
          ),
        )
