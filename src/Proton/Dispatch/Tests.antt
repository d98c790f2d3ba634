-- ===== src/Proton/Dispatch/Tests.antt =====
-- The methods in the small world, and their theorems there.
use aerogram.Proton.Core.{◌>>=◌, ◌>>◌}
use aerogram.Prelude.{
  is_some, ℕ, ◌≡◌, refl, true, Option, some, arith, Text, codes, Result, ok, err,
}
use aerogram.Html.Stream.Tests.{dropper, no_html2text}
use aerogram.Json.{Value, object, end}
use aerogram.Proton.Core.{ProtonCore}
use aerogram.Proton.Auth
use aerogram.Proton.Auth.{state_addr, promote}
use aerogram.Proton.Dispatch.Frame.{IsSound, Fared}
use aerogram.Proton.Dispatch.Reached.{
  Reached, starts, calls, NamedFrame, dispatch-Fared, Reached-IsSound, dispatch_returns,
}
use aerogram.Proton.Dispatch.{method_names, first_arm}
use aerogram.Proton.Mock.{mock-HasClock, mock, fresh, read_params}
use aerogram.Proton.Dispatch.{dispatch}

abbrev call_mock : ℕ → Text → Value → ProtonCore mock → Option (Result Text Value × ProtonCore mock)
call_mock = dispatch dropper no_html2text read_params mock

unknown :
    call_mock 0 (codes "nope") (object end) fresh ≡ some (err (codes "unknown method: nope"), fresh)
unfolding dispatch
unknown = refl

abbrev restored : ProtonCore mock
restored = record fresh { state = record (fresh.state) { user_ctx = some 7; api = some 7 } }

restores :
    call_mock 0 (codes "restore_session") (object end) fresh
    ≡ some (ok (state_addr (codes "ok") (codes "me@proton.me")), restored)
unfolding ◌>>=◌ ◌>>◌ dispatch Auth.restore_session promote
restores = refl

restored-Reached : Reached dropper no_html2text read_params mock restored
restored-Reached =
    calls 0 (codes "restore_session") (object end)
      (ok (state_addr (codes "ok") (codes "me@proton.me"))) (starts {c = fresh} refl) restores

fresh-IsSound : IsSound {px = mock} fresh.state
fresh-IsSound = record { paired = refl; marked = λ never. cc }

dispatch-Fared_example :
    Fared mock
      (NamedFrame dropper no_html2text read_params mock
        (first_arm (codes "restore_session") method_names))
      fresh.state
      restored.state
dispatch-Fared_example =
    dispatch-Fared dropper no_html2text read_params mock 0 (codes "restore_session") (object end)
      fresh restored (ok (state_addr (codes "ok") (codes "me@proton.me"))) fresh-IsSound restores

Reached-IsSound_example : IsSound {px = mock} restored.state
Reached-IsSound_example =
    Reached-IsSound dropper no_html2text read_params mock restored restored-Reached

dispatch_returns_example : is_some (call_mock 9 (codes "wait_event") (object end) restored) ≡ true
dispatch_returns_example =
    dispatch_returns dropper no_html2text read_params mock mock-HasClock 8 (codes "wait_event")
      (object end) restored (omega arith)
