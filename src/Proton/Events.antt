-- ===== src/Proton/Events.antt =====
-- proton-core/src/lib.rs, `wait_event`: the events feed polled until the marker moves or the time
-- is over. The loop is given fuel: a round is one look at the feed.
pub mod Polling
use aerogram.Prelude.{
  ℕ, zero, suc, ◌+◌, max, Option, none, some, leb, if◌then◌else◌, Text, codes, text_eq, Result, ok,
  err, unwrap_or,
}
use aerogram.Json.{Value, array, string, nil, cons, get_u64}
use aerogram.Proton.Core.{ProtonApi, ProtonCore, call, api}

abbrev pub no_events : Value
no_events = array nil

abbrev pub messages_event : Value
messages_event = array (cons (string (codes "messages")) nil)

-- `timeout_ms.max(500)`, 2000 by default.
abbrev pub timeout : Value → ℕ
timeout params = max (unwrap_or (get_u64 (codes "timeout_ms") params) 2000) 500

module _ (px : ProtonApi) where
  open px use {ApiSession}

  abbrev pub set_marker : Text → ProtonCore px → ProtonCore px
  set_marker id c = record c { state = record (c.state) { last_event_id = some id } }

  -- The match on the marker: an answer ends the call.
  unfoldable pub compare_marker : Text → ProtonCore px → Option Value × ProtonCore px
  compare_marker latest c = elim c.state.last_event_id [
    | none ↦ (some no_events, set_marker latest c)
    | some last ↦
        if text_eq last latest then (none, c) else (some messages_event, set_marker latest c)
  ]

  -- The loop; `none` means that the fuel ran out.
  unfoldable pub poll :
      ℕ → ApiSession → ℕ → ProtonCore px → Option (Result Text Value × ProtonCore px)
  unfolding call compare_marker
  poll zero session deadline c = none
  poll (suc fuel) session deadline c =
      let (r, c₁) = call (codes "get_events_latest") (px.get_events_latest session) c in
      elim r [
        | err e ↦ some (err e, c₁)
        | ok latest ↦
            let (answer, c₂) = compare_marker latest c₁ in
            let rest = poll fuel session deadline (record c₂ { world = px.sleep 250 c₂.world }) in
            elim answer [
              | some v ↦ some (ok v, c₂)
              | none ↦ if leb deadline (px.now c₂.world) then some (ok no_events, c₂) else rest
            ]
      ]

  unfoldable pub wait_event : ℕ → Value → ProtonCore px → Option (Result Text Value × ProtonCore px)
  unfolding api
  wait_event fuel params c =
      let (r, c₁) = api c in
      elim r [
        | err e ↦ some (err e, c₁)
        | ok session ↦ poll fuel session (px.now c₁.world + timeout params) c₁
      ]
