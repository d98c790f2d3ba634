-- ===== src/Proton/Dispatch/Reached.antt =====
-- What holds of a core whatever calls it has had.
use aerogram.Prelude.{
  is_some, ℕ, suc, ◌*◌, ◌≤◌, ◌≡◌, refl, sym, true, Option, none, some, ◌++◌, Text, Bytes, codes,
  Result, err,
}
use mathlib.Core.Path.{subst}
use aerogram.Html.Stream.{RewriterApi}
use aerogram.Json.{Value}
use aerogram.Proton.Core.{ProtonApi, ProtonCore, CoreState}
use aerogram.Proton.Auth.{LoginParams}
use aerogram.Proton.Events.{timeout}
use aerogram.Proton.Events.Polling.{HasClock, wait_event_returns}
use aerogram.Proton.Dispatch.{Method, method_names, first_arm, run_method, dispatch}
use aerogram.Proton.Dispatch.Frame.{Frame, Fared, IsSound, IfBack, run_method_fares}

module _ (html : RewriterApi) (from_read : Bytes → ℕ → Result Text Text)
    (from_value : Value → Result Text LoginParams) (px : ProtonApi) where
  -- `CoreState::default()`
  abbrev pub default_state : CoreState px
  default_state = record { login_flow = none; user_ctx = none; api = none; last_event_id = none }

  -- A new core; time passing, or other programs at work in the world; and a call that came back.
  pub data Reached : ProtonCore px → Type 0 where
    starts : {c : ProtonCore px} → c.state ≡ default_state → Reached c
    waits : {c d : ProtonCore px} → Reached c → d.state ≡ c.state → Reached d
    calls :
        {c d : ProtonCore px} (n : ℕ) (name : Text) (params : Value) (r : Result Text Value)
        → Reached c
        → dispatch html from_read from_value px n name params c ≡ some (r, d)
        → Reached d

  -- What a call by name may change: an unknown one nothing.
  abbrev pub NamedFrame : Option Method → CoreState px → CoreState px → Type 0
  NamedFrame none s s' = s' ≡ s
  NamedFrame (some m) s s' = Frame px m s s'

  dispatch_goes :
      (n : ℕ) (name : Text) (params : Value) (c : ProtonCore px)
      → IsSound c.state
      → IfBack
          (λ out. Fared px (NamedFrame (first_arm name method_names)) c.state out.1.state)
          (dispatch html from_read from_value px n name params c)
  unfolding dispatch
  dispatch_goes n name params c sound = by_arm (first_arm name method_names)
    where
      by_arm :
          (arm : Option Method)
          → IfBack
              (λ out. Fared px (NamedFrame arm) c.state out.1.state)
              (elim arm [
                | none ↦ some (err (codes "unknown method: " ++ name), c)
                | some m ↦ run_method html from_read from_value px n m params c
              ])
      by_arm none = record { frame = refl; sound = sound; stays = λ here. here }
      by_arm (some m) = run_method_fares html from_read from_value px n m params c sound

  -- A call by any name, on a core whose user and session are there together, with a marker only if
  -- they are: it keeps this, changes only what its method may, an unknown name nothing, and never
  -- ends a session.
  pub dispatch-Fared :
      (n : ℕ) (name : Text) (params : Value) (c d : ProtonCore px) (r : Result Text Value)
      → IsSound c.state
      → dispatch html from_read from_value px n name params c ≡ some (r, d)
      → Fared px (NamedFrame (first_arm name method_names)) c.state d.state
  dispatch-Fared n name params c d r sound back =
      subst
        (IfBack (λ out. Fared px (NamedFrame (first_arm name method_names)) c.state out.1.state))
        back (dispatch_goes n name params c sound)

  -- Whatever calls a core has had, and whatever they met, its user and its session are there
  -- together, and it has an event marker only if they are.
  pub Reached-IsSound : (c : ProtonCore px) → Reached c → IsSound c.state
  Reached-IsSound c (starts new) =
      subst IsSound (sym new) (record { paired = refl; marked = λ never. cc })
  Reached-IsSound d (waits {c} r same) = subst IsSound (sym same) (Reached-IsSound c r)
  Reached-IsSound d (calls {c} n name params answer r back) =
      (dispatch-Fared n name params c d answer (Reached-IsSound c r) back).sound

  -- A call by any name comes back: a round of the loop for every 250 ms of the timeout, and one
  -- more, are enough, if the clock runs and a sleep lasts.
  pub dispatch_returns :
      (law : HasClock px) (n : ℕ) (name : Text) (params : Value) (c : ProtonCore px)
      → timeout params ≤ n * 250
      → is_some (dispatch html from_read from_value px (suc n) name params c) ≡ true
  unfolding dispatch
  dispatch_returns law n name params c enough = by_arm (first_arm name method_names)
    where
      by_method :
          (m : Method) → is_some (run_method html from_read from_value px (suc n) m params c) ≡ true
      by_method Method.wait_event = unfold run_method in wait_event_returns px law n params c enough
      by_method Method.ping = unfold run_method in refl
      by_method Method.login = unfold run_method in refl
      by_method Method.submit_totp = unfold run_method in refl
      by_method Method.submit_mailbox_password = unfold run_method in refl
      by_method Method.restore_session = unfold run_method in refl
      by_method Method.account_info = unfold run_method in refl
      by_method Method.list_labels = unfold run_method in refl
      by_method Method.list_messages = unfold run_method in refl
      by_method Method.message_body = unfold run_method in refl
      by_method Method.get_attachment = unfold run_method in refl

      by_arm :
          (arm : Option Method)
          → is_some {A = Result Text Value × ProtonCore px} (elim arm [
            | none ↦ some (err (codes "unknown method: " ++ name), c)
            | some m ↦ run_method html from_read from_value px (suc n) m params c
          ])
            ≡ true
      by_arm none = refl
      by_arm (some m) = by_method m
