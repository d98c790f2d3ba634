-- ===== src/Proton/Threads.antt =====
-- proton-core/src/lib.rs, calls of one core by several threads: the steps are what a call does
-- under one lock of the state, and between two locks other threads may come.
pub mod Account
pub mod Alone
pub mod Calls
pub mod Tests
use aerogram.Prelude.{ℕ, ◌≡◌, none, some, ◌==◌, if◌then◌else◌, Text, ok}
use aerogram.Json.{Value}
use aerogram.Proton.Core.{ProtonApi, ProtonCore, Action, api}
use aerogram.Proton.Auth.{set_account, promote, store_flow, take_flow, with_flow}
use aerogram.Proton.Events.{compare_marker}

module _ (px : ProtonApi) where
  open px use {World, Session, LoginFlow, UserCtx, ApiSession}

  -- The world as a thread meets it in `promote`: before the second and the third of its calls the
  -- other threads have done something to it.
  abbrev pub among : (before_api before_name : World → World) → ProtonApi
  among before_api before_name = record px {
    new_api_session = λ session w. px.new_api_session session (before_api w);
    get_account_name = λ user w. px.get_account_name user (before_name w);
  }

  -- Where a thread is in its call.
  pub data Pc : Type 0 where
    -- before a call's first lock, or between calls
    idle : Pc
    -- a login's flow is stored or driven, and `finish_login` is next
    stored : Pc
    -- the flow is taken, and the account is being set up
    finishing : Pc
    -- the account is set up, and not stored yet
    ready : UserCtx → ApiSession → Pc
    -- `wait_event` has its session
    polling : ApiSession → Pc

  -- A run of `promote`, in a core that the thread sees, that ends with these two in it.
  pub record Promotes (user : UserCtx) (a : ApiSession) : Type 0 where
    pub before_api : World → World
    pub before_name : World → World
    pub session : Session
    pub seen : ProtonCore (among before_api before_name)
    pub left : ProtonCore (among before_api before_name)
    pub said : Value
    pub runs : promote (among before_api before_name) session seen ≡ (ok said, left)
    pub sets_user : left.state.user_ctx ≡ some user
    pub sets_api : left.state.api ≡ some a

  -- What a thread does to the core under one lock, or to the world between two.
  pub data Section : Pc → ProtonCore px → Pc → ProtonCore px → Type 0 where
    stores :
        {c d : ProtonCore px} (flow : LoginFlow)
        → d ≡ store_flow px flow c
        → Section idle c stored d
    drives :
        {c d : ProtonCore px} (what : Text) (m : Action (LoginFlow × World) (Unit {0}))
        → d ≡ (with_flow px what m c).1
        → Section idle c stored d
    takes : {c d : ProtonCore px} → d ≡ (take_flow px c).1 → Section stored c finishing d
    -- A login with its flow taken, and a call that restores a session, run `promote`, from a
    -- world of their own, up to the lock under which the account is set.
    finishes :
        {c : ProtonCore px} (user : UserCtx) (a : ApiSession)
        → Promotes user a
        → Section finishing c (ready user a) c
    restores :
        {c : ProtonCore px} (user : UserCtx) (a : ApiSession)
        → Promotes user a
        → Section idle c (ready user a) c
    sets :
        {c d : ProtonCore px} (user : UserCtx) (a : ApiSession)
        → d ≡ set_account px user a c
        → Section (ready user a) c idle d
    asks : {c : ProtonCore px} (a : ApiSession) → (api c).0 ≡ ok a → Section idle c (polling a) c
    compares :
        {c d : ProtonCore px} (a : ApiSession) (latest : Text)
        → d ≡ (compare_marker px latest c).1
        → Section (polling a) c (polling a) d
    -- an error, or the end of the call
    ends : {pc : Pc} {c : ProtonCore px} → Section pc c idle c
    -- a call into the world
    awaits : {pc : Pc} {c d : ProtonCore px} → d.state ≡ c.state → Section pc c pc d

  pub record System : Type 0 where
    pub core : ProtonCore px
    pub pc : ℕ → Pc

  abbrev pub set_pc : (ℕ → Pc) → ℕ → Pc → ℕ → Pc
  set_pc pc i p j = if j == i then p else pc j

  pub data Step : System → System → Type 0 where
    moves :
        {s : System} (i : ℕ) (p : Pc) (d : ProtonCore px)
        → Section (s.pc i) s.core p d
        → Step s (record { core = d; pc = set_pc s.pc i p })

  -- A new core, and threads that have not called it yet.
  pub data Reached : System → Type 0 where
    starts :
        {s : System}
        → s.core.state
          ≡ record { login_flow = none; user_ctx = none; api = none; last_event_id = none }
        → ((i : ℕ) → s.pc i ≡ idle)
        → Reached s
    later : {s t : System} → Reached s → Step s t → Reached t
