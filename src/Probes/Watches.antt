-- ===== src/Probes/Watches.antt =====
-- proton-core/src/bin, the probe programs `marker_watch`, `wait_event_probe` and `labels_probe`,
-- with the replies that they print as values.
pub mod Ending
use aerogram.Prelude.{ℕ, zero, suc, List, [], ◌∷◌, Text, Bytes, codes, Result}
use aerogram.Json.{Value, number, object, field, end}
use aerogram.Html.Stream.{RewriterApi}
use aerogram.Proton.Core.{ProtonApi}
use aerogram.Proton.Auth.{LoginParams}
use aerogram.Proton.Abi.{Texts}
use aerogram.Probes.Checks.{◌>>=◌, pure, ask, Program}

abbrev pub timeout_params : ℕ → Value
timeout_params ms = object (field (codes "timeout_ms") (number ms) end)

module _ (texts : Texts) (html : RewriterApi) (from_read : Bytes → ℕ → Result Text Text)
    (from_value : Value → Result Text LoginParams) (px : ProtonApi) (fuel : ℕ) where
  abbrev Printing : Type 0 → Type 0
  Printing A = Program texts html from_read from_value px fuel A

  abbrev asks : Text → Value → Printing Value
  asks = ask texts html from_read from_value px fuel

  -- `for i in 0..n`
  unfoldable pub waits : ℕ → ℕ → Printing (List Value)
  waits zero ms = pure []
  waits (suc n) ms =
      let rest = waits n ms in
      do out ← asks (codes "wait_event") (timeout_params ms); outs ← rest; pure (out ∷ outs)

  unfoldable pub marker_watch : Printing (Value × List Value)
  marker_watch = do
    restored ← asks (codes "restore_session") (object end)
    outs ← waits 6 15_000
    pure (restored, outs)

  unfoldable pub wait_event_probe : Printing (Value × List Value)
  wait_event_probe = do
    restored ← asks (codes "restore_session") (object end)
    outs ← waits 3 2000
    pure (restored, outs)

  unfoldable pub labels_probe : Printing (Value × Value)
  labels_probe = do
    restored ← asks (codes "restore_session") (object end)
    labels ← asks (codes "list_labels") (object end)
    pure (restored, labels)
