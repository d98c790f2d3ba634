-- ===== src/Proton/Mock/Tests.antt =====
-- Runs of the calls in the small world, and their theorems there.
use aerogram.Proton.Core.{◌>>=◌, ◌>>◌}
use aerogram.Prelude.{
  is_some, map_some, ◌≡◌, refl, true, some, List, [], ◌∷◌, arith, codes, ok, err,
}
use aerogram.Json.{Value, object, field, end, number, null}
use aerogram.Proton.Core.{ProtonCore}
use aerogram.Proton.Auth.{
  submit_mailbox_password, state_only, state_addr, login, submit_totp, restore_session, drive,
  start_flow, answer, finish_login, promote, flow_state,
}
use aerogram.Proton.Auth.SignIn.{Stepped, Restored, sign_in_steps, restore_session-Restored}
use aerogram.Proton.Auth.Account.{AuthCall, logs_in, submits_totp, restores}
use aerogram.Proton.Events.{messages_event, poll, wait_event}
use aerogram.Proton.Events.Polling.{wait_event_returns, Reported, wait_event-Reported}
use aerogram.Proton.Mock.{mock-HasClock, mock, fresh, signed_in, text_param, read_params}

abbrev waiting : ProtonCore mock
waiting = record fresh { state = record (fresh.state) { login_flow = some 1 } }

first_factor : login mock read_params null fresh ≡ (ok (state_only (codes "totp")), waiting)
unfolding ◌>>=◌ ◌>>◌ login start_flow answer flow_state
first_factor = refl

second_factor :
    (submit_totp mock (text_param (codes "code") (codes "123")) waiting).0
    ≡ ok (state_addr (codes "ok") (codes "me@proton.me"))
unfolding ◌>>=◌ ◌>>◌ submit_totp drive answer finish_login promote
second_factor = refl

-- A wrong code leaves the flow for another try.
wrong_code :
    submit_totp mock (text_param (codes "code") (codes "9")) waiting
    ≡ (err (codes "submit_totp: WrongCode"), waiting)
unfolding ◌>>=◌ ◌>>◌ submit_totp drive
wrong_code = refl

sign_in_steps_example :
    Stepped mock waiting (login mock read_params null waiting)
    × Stepped mock waiting (submit_totp mock null waiting)
    × Stepped mock waiting (submit_mailbox_password mock null waiting)
sign_in_steps_example = sign_in_steps mock read_params null waiting

restore_session-Restored_example : Restored mock fresh (restore_session mock fresh)
restore_session-Restored_example = restore_session-Restored mock fresh

abbrev calls : List AuthCall
calls = logs_in null ∷ submits_totp (text_param (codes "code") (codes "123")) ∷ restores ∷ []

abbrev brief : Value
brief = object (field (codes "timeout_ms") (number 1000) end)

marker_moves :
    map_some (λ out. out.0) (wait_event mock 9 (object end) signed_in) ≡ some (ok messages_event)
unfolding wait_event poll
marker_moves = refl

wait_event_returns_example : is_some (wait_event mock 5 brief signed_in) ≡ true
wait_event_returns_example = wait_event_returns mock mock-HasClock 4 brief signed_in (omega arith)

wait_event-Reported_example : Reported mock signed_in.state (
  ok messages_event,
  record signed_in {
    state = record (signed_in.state) { last_event_id = some (1 ∷ []) };
    world = 1050;
  },
)
unfolding wait_event poll
wait_event-Reported_example = wait_event-Reported mock 9 (object end) signed_in _ refl
