-- ===== src/Proton/Auth/Account.antt =====
-- Any history of the calls that log in.
use aerogram.Prelude.{
  is_some, ◌≡◌, refl, ◌∙◌, inl, inr, List, [], ◌∷◌, arith, Text, Result, ok, err,
}
use aerogram.Json.{Value}
use aerogram.Proton.Core.{ProtonApi, ProtonCore}
use aerogram.Proton.Auth.{LoginParams, login, submit_totp, submit_mailbox_password, restore_session}
use aerogram.Proton.Auth.SignIn.{
  Stepped, Restored, login-Stepped, submit_totp-Stepped, submit_mailbox_password-Stepped,
  restore_session-Restored,
}

pub data AuthCall : Type 0 where
  logs_in submits_totp submits_password : Value → AuthCall
  restores : AuthCall

module _ (px : ProtonApi) (from_value : Value → Result Text LoginParams) where
  unfoldable pub step : ProtonCore px → AuthCall → Result Text Value × ProtonCore px
  step c (logs_in params) = login px from_value params c
  step c (submits_totp params) = submit_totp px params c
  step c (submits_password params) = submit_mailbox_password px params c
  step c restores = restore_session px c

  unfoldable pub run : ProtonCore px → List AuthCall → ProtonCore px
  unfolding step
  run c [] = c
  run c (a ∷ as') = run (step c a).1 as'

  -- The user context and the api session come and stay together.
  abbrev pub IsPaired : ProtonCore px → Type 0
  IsPaired c = is_some c.state.user_ctx ≡ is_some c.state.api

  Stepped-IsPaired :
      (c : ProtonCore px) (out : Result Text Value × ProtonCore px)
      → IsPaired c
      → Stepped px c out
      → IsPaired out.1 × (out.1.state.last_event_id ≡ c.state.last_event_id)
  Stepped-IsPaired c (ok v, d) p (inl (s, gone)) = ground arith
  Stepped-IsPaired c (ok v, d) p (inr w) = ground arith
  Stepped-IsPaired c (err e, d) p s = ground arith

  Restored-IsPaired :
      (c : ProtonCore px) (out : Result Text Value × ProtonCore px)
      → IsPaired c
      → Restored px c out
      → IsPaired out.1 × (out.1.state.last_event_id ≡ c.state.last_event_id)
  Restored-IsPaired c (ok v, d) p (kept, inl s) = ground arith
  Restored-IsPaired c (ok v, d) p (kept, inr s) = ground arith
  Restored-IsPaired c (err e, d) p s = ground arith

  step-IsPaired :
      (c : ProtonCore px) (a : AuthCall)
      → IsPaired c
      → IsPaired (step c a).1 × ((step c a).1.state.last_event_id ≡ c.state.last_event_id)
  unfolding step
  step-IsPaired c (logs_in params) p = Stepped-IsPaired c _ p (login-Stepped px from_value params c)
  step-IsPaired c (submits_totp params) p = Stepped-IsPaired c _ p (submit_totp-Stepped px params c)
  step-IsPaired c (submits_password params) p =
      Stepped-IsPaired c _ p (submit_mailbox_password-Stepped px params c)
  step-IsPaired c restores p = Restored-IsPaired c _ p (restore_session-Restored px c)

  -- Whatever logins, second factors and restored sessions come in whatever order, with whatever
  -- errors, the user context and the api session are both there or both missing; and the event
  -- marker is never touched, also where the account is another one than before.
  pub run-IsPaired :
      (c : ProtonCore px) (calls : List AuthCall)
      → IsPaired c
      → IsPaired (run c calls) × ((run c calls).state.last_event_id ≡ c.state.last_event_id)
  unfolding run
  run-IsPaired c [] p = (p, refl)
  run-IsPaired c (a ∷ as') p =
      let (q, kept) = step-IsPaired c a p in
      let (r, kept') = run-IsPaired (step c a).1 as' q in (r, kept' ∙ kept)
