-- ===== src/Proton/Threads/Calls/Waiting.antt =====
-- `wait_event`, as sections.
use aerogram.Prelude.{
  ℕ, zero, suc, ◌+◌, ◌≡◌, refl, sym, inl, inr, true, false, Option, none, some, ◌++◌, arith,
  Bool-cases, Option-cases, Result-cases, leb, Text, codes, Result, ok, err,
}
use mathlib.Core.Path.{subst}
use aerogram.Json.{Value}
use aerogram.Proton.Core.{ProtonApi, ProtonCore, call, api}
use aerogram.Proton.Events.{compare_marker, no_events, poll, wait_event, timeout}
use aerogram.Proton.Dispatch.Frame.{IfBack}
use aerogram.Proton.Threads.{Pc, idle, polling, Section, asks, compares, awaits}
use aerogram.Proton.Threads.Calls.{Run, goes, leaves}

module _ (px : ProtonApi) where
  abbrev pub Back : Pc px → ProtonCore px → Option (Result Text Value × ProtonCore px) → Type 0
  Back p c = IfBack (λ out. Run px p c idle out.1)

  Back-before :
      {p q : Pc px} {c d : ProtonCore px} (o : Option (Result Text Value × ProtonCore px))
      → Section px p c q d
      → Back q d o
      → Back p c o
  Back-before none first rest = tt
  Back-before (some out) first rest = goes first rest

  module _ (session : px.ApiSession) (deadline n : ℕ) (c : ProtonCore px) where
    abbrev seen : ProtonCore px
    seen = record { state = c.state; world = (px.get_events_latest session c.world).1 }

    poll_fails :
        (e : Text)
        → (px.get_events_latest session c.world).0 ≡ err e
        → (x : Text) × (poll px (suc n) session deadline c ≡ some (err x, seen))
    unfolding poll call
    poll_fails e failed = (codes "get_events_latest" ++ codes ": " ++ e, ground arith)

    poll_answers :
        (latest : Text) (v : Value)
        → (px.get_events_latest session c.world).0 ≡ ok latest
        → (compare_marker px latest seen).0 ≡ some v
        → poll px (suc n) session deadline c ≡ some (ok v, (compare_marker px latest seen).1)
    unfolding poll call
    poll_answers latest v there answered = ground arith

    abbrev slept : ProtonCore px → ProtonCore px
    slept c' = record { state = c'.state; world = px.sleep 250 c'.world }

    poll_ends :
        (latest : Text)
        → (px.get_events_latest session c.world).0 ≡ ok latest
        → (compare_marker px latest seen).0 ≡ none
        → leb deadline (px.now (compare_marker px latest seen).1.world) ≡ true
        → poll px (suc n) session deadline c
          ≡ some (ok no_events, (compare_marker px latest seen).1)
    unfolding poll call
    poll_ends latest there quiet late = ground arith

    poll_goes_on :
        (latest : Text)
        → (px.get_events_latest session c.world).0 ≡ ok latest
        → (compare_marker px latest seen).0 ≡ none
        → leb deadline (px.now (compare_marker px latest seen).1.world) ≡ false
        → poll px (suc n) session deadline c
          ≡ poll px n session deadline (slept (compare_marker px latest seen).1)
    unfolding poll call
    poll_goes_on latest there quiet early = ground arith

  poll_run :
      (n : ℕ) (session : px.ApiSession) (deadline : ℕ) (c : ProtonCore px)
      → Back (polling session) c (poll px n session deadline c)
  poll_run zero session deadline c = unfold poll in tt
  poll_run (suc n) session deadline c =
      let at_look = seen session deadline n c in
      elim (Result-cases (px.get_events_latest session c.world).0) [
        | inl (e, failed) ↦
            subst (Back (polling session) c) (sym (poll_fails session deadline n c e failed).1)
              (leaves px (polling session) c at_look refl)
        | inr (latest, there) ↦
            let after = (compare_marker px latest at_look).1 in
            let looks : (o : Option (Result Text Value × ProtonCore px))
                → Back (polling session) after o
                → Back (polling session) c o =
              λ o rest.
                Back-before o (awaits {d = at_look} refl)
                  (Back-before o (compares session latest refl) rest) in
            elim (Option-cases (compare_marker px latest at_look).0) [
              | inr (v, answered) ↦
                  subst (Back (polling session) c)
                    (sym (poll_answers session deadline n c latest v there answered))
                    (looks (some (ok v, after)) (leaves px (polling session) after after refl))
              | inl quiet ↦ elim (Bool-cases (leb deadline (px.now after.world))) [
                | inl late ↦
                    subst (Back (polling session) c)
                      (sym (poll_ends session deadline n c latest there quiet late))
                      (looks (some (ok no_events, after))
                        (leaves px (polling session) after after refl))
                | inr early ↦
                    let next = slept session deadline n c after in
                    subst (Back (polling session) c)
                      (sym (poll_goes_on session deadline n c latest there quiet early))
                      (looks (poll px n session deadline next) (
                        Back-before (poll px n session deadline next) (awaits {d = next} refl)
                          (poll_run n session deadline next)))
              ]
            ]
      ]

  wait_out :
      (n : ℕ) (params : Value) (c : ProtonCore px)
      → c.state.api ≡ none
      → (e : Text) × (wait_event px n params c ≡ some (err e, c))
  unfolding wait_event api
  wait_out n params c out = (codes "not logged in", ground arith)

  wait_in :
      (n : ℕ) (params : Value) (c : ProtonCore px) (session : px.ApiSession)
      → c.state.api ≡ some session
      → ((api c).0 ≡ ok session)
        × (wait_event px n params c ≡ poll px n session (px.now c.world + timeout params) c)
  unfolding wait_event api
  wait_in n params c session there = (ground arith, ground arith)

  pub wait_event_run :
      (n : ℕ) (params : Value) (c : ProtonCore px) → Back idle c (wait_event px n params c)
  wait_event_run n params c = elim (Option-cases c.state.api) [
    | inl out ↦ subst (Back idle c) (sym (wait_out n params c out).1) (leaves px idle c c refl)
    | inr (session, there) ↦
        let (has, polls) = wait_in n params c session there in
        subst (Back idle c) (sym polls) (
          Back-before (poll px n session (px.now c.world + timeout params) c) (asks session has)
            (poll_run n session (px.now c.world + timeout params) c))
  ]
