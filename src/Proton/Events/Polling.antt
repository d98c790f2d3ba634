-- ===== src/Proton/Events/Polling.antt =====
-- `wait_event` answers in time, and reports a change exactly when the marker moves.
use aerogram.Prelude.{
  is_some, ℕ, zero, suc, ◌+◌, ◌*◌, ◌≤◌, ◌≡◌, ◌≢◌, ◌⊎◌, inl, inr, true, false, Option, none, some,
  arith, Bool-cases, Option-cases, Text, text_eq, text_eq_refl, Result, ok, err, Result-cases,
}
use mathlib.Core.Path.{subst}
use aerogram.Json.{Value}
use aerogram.Proton.Core.{ProtonApi, CoreState, ProtonCore, call, api}
use aerogram.Proton.Events.{no_events, messages_event, compare_marker, poll, timeout, wait_event}

module _ (px : ProtonApi) where
  -- A clock that does not go back while the server answers, and that a sleep of 250 ms moves on by
  -- at least as much.
  pub record HasClock : Type 0 where
    pub forward :
        (s : px.ApiSession) (w : px.World) → px.now w ≤ px.now (px.get_events_latest s w).1
    pub sleeps : (w : px.World) → px.now w + 250 ≤ px.now (px.sleep 250 w)

  poll_returns :
      (law : HasClock) (n : ℕ) (session : px.ApiSession) (deadline : ℕ) (c : ProtonCore px)
      → deadline ≤ px.now c.world + n * 250
      → is_some (poll px (suc n) session deadline c) ≡ true
  unfolding poll call compare_marker
  poll_returns law zero session deadline c h = ground (arith, law.forward session c.world)
  poll_returns law (suc n) session deadline c h =
      let w = (px.get_events_latest session c.world).1 in
      let later : ProtonCore px = record { state = c.state; world = px.sleep 250 w } in
      ground (
        arith,
        law.forward session c.world,
        law.sleeps w,
        poll_returns law n session deadline later,
      )

  -- The call ends: a round for every 250 ms of the timeout and one more are enough.
  pub wait_event_returns :
      (law : HasClock) (n : ℕ) (params : Value) (c : ProtonCore px)
      → timeout params ≤ n * 250
      → is_some (wait_event px (suc n) params c) ≡ true
  unfolding wait_event api
  wait_event_returns law n params c h = elim (Option-cases c.state.api) [
    | inl out ↦ ground arith
    | inr (session, there) ↦
        let returned =
          poll_returns law n session (px.now c.world + timeout params) c (omega arith) in
        ground (arith, returned)
  ]

  -- Nothing happened.
  pub record Quiet (s s' : CoreState px) : Type 0 where
    pub known : is_some s.last_event_id ≡ true
    pub unmoved : s' ≡ s

  -- The first marker was recorded.
  pub record FirstContact (s s' : CoreState px) : Type 0 where
    pub unknown : s.last_event_id ≡ none
    pub recorded : is_some s'.last_event_id ≡ true

  -- The marker is another than before.
  pub record Moved (s s' : CoreState px) : Type 0 where
    pub known : is_some s.last_event_id ≡ true
    pub recorded : is_some s'.last_event_id ≡ true
    pub differs : s'.last_event_id ≢ s.last_event_id

  pub record OnlyMarker (s s' : CoreState px) : Type 0 where
    pub same_flow : s'.login_flow ≡ s.login_flow
    pub same_user : s'.user_ctx ≡ s.user_ctx
    pub same_api : s'.api ≡ s.api

  abbrev pub Reported : CoreState px → Result Text Value × ProtonCore px → Type 0
  Reported s (err e, c') = c'.state ≡ s
  Reported s (ok v, c') =
      OnlyMarker s c'.state
      × (((v ≡ no_events) × (Quiet s c'.state ⊎ FirstContact s c'.state))
          ⊎ ((v ≡ messages_event) × Moved s c'.state))

  text_eq_differs : (s t : Text) → text_eq s t ≡ false → some t ≢ some s
  text_eq_differs s t h e = ground (arith, text_eq_refl s)

  abbrev IfAny :
      (Result Text Value × ProtonCore px → Type 0)
      → Option (Result Text Value × ProtonCore px)
      → Type 0
  IfAny P none = Unit
  IfAny P (some out) = P out

  poll-Reported :
      (n : ℕ) (session : px.ApiSession) (deadline : ℕ) (c : ProtonCore px)
      → IfAny (Reported c.state) (poll px n session deadline c)
  unfolding poll call compare_marker
  poll-Reported zero session deadline c = tt
  poll-Reported (suc n) session deadline c =
      let asked = px.get_events_latest session c.world in
      let later : ProtonCore px = record { state = c.state; world = px.sleep 250 asked.1 } in
      elim (Result-cases asked.0) [
        | inl (x, failed) ↦ ground arith
        | inr (latest, there) ↦ elim (Option-cases c.state.last_event_id) [
          | inl unknown ↦ ground arith
          | inr (last, known) ↦ elim (Bool-cases (text_eq last latest)) [
            | inl same ↦ ground (arith, poll-Reported n session deadline later)
            | inr moved ↦ ground (arith, text_eq_differs last latest moved)
          ]
        ]
      ]

  -- A call that is not logged in, or whose poll fails, changes nothing. Any other leaves all but
  -- the marker alone, and answers "messages" if the marker has moved, and with no event if it was
  -- recorded for the first time or stayed.
  pub wait_event-Reported :
      (n : ℕ) (params : Value) (c : ProtonCore px) (out : Result Text Value × ProtonCore px)
      → wait_event px n params c ≡ some out
      → Reported c.state out
  unfolding wait_event api
  wait_event-Reported n params c out e =
      subst (IfAny (Reported c.state)) e (elim (Option-cases c.state.api) [
        | inl none_yet ↦ ground arith
        | inr (session, there) ↦
            ground (arith, poll-Reported n session (px.now c.world + timeout params) c)
      ])
