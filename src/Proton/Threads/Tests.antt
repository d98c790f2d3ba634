-- ===== src/Proton/Threads/Tests.antt =====
-- Two threads in the small world: one sets up a second account while the first is signed in.
use aerogram.Proton.Core.{◌>>=◌, ◌>>◌}
use aerogram.Proton.Core.{ProtonCore}
use aerogram.Prelude.{◌+◌, refl, none, some, codes}
use aerogram.Proton.Auth.{promote, set_account, state_addr}
use aerogram.Proton.Mock.{mock, fresh}
use aerogram.Proton.Threads.{
  Promotes, idle, ready, restores, sets, System, set_pc, moves, Reached, starts, later,
}
use aerogram.Proton.Threads.Account.{IsAccounted, Reached-IsAccounted}

abbrev start : System mock
start = record { core = fresh; pc = λ i. idle }

-- While the second session is set up, the other thread's calls let the clock go on.
second-Promotes : Promotes mock 8 8
unfolding ◌>>=◌ ◌>>◌ promote set_account
second-Promotes = record {
  before_api = λ w. w + 5;
  before_name = λ w. w + 9;
  session = 8;
  seen = record {
    state = record { login_flow = none; user_ctx = some 7; api = some 7; last_event_id = none };
    world = 0;
  };
  left = record {
    state = record { login_flow = none; user_ctx = some 8; api = some 8; last_event_id = none };
    world = 14;
  };
  said = state_addr (codes "ok") (codes "me@proton.me");
  runs = refl;
  sets_user = refl;
  sets_api = refl;
}

first-Promotes : Promotes mock 7 7
unfolding ◌>>=◌ ◌>>◌ promote set_account
first-Promotes = record {
  before_api = λ w. w;
  before_name = λ w. w;
  session = 7;
  seen = record {
    state = record { login_flow = none; user_ctx = none; api = none; last_event_id = none };
    world = 0;
  };
  left = record {
    state = record { login_flow = none; user_ctx = some 7; api = some 7; last_event_id = none };
    world = 0;
  };
  said = state_addr (codes "ok") (codes "me@proton.me");
  runs = refl;
  sets_user = refl;
  sets_api = refl;
}

-- Thread 1 is about to set its account, thread 0 gets ready in between, and both set theirs.
abbrev prepared : System mock
prepared = record { core = fresh; pc = set_pc mock start.pc 1 (ready 7 7) }

abbrev both_ready : System mock
both_ready = record { core = fresh; pc = set_pc mock prepared.pc 0 (ready 8 8) }

abbrev first_in : System mock
first_in = record { core = set_account mock 7 7 fresh; pc = set_pc mock both_ready.pc 1 idle }

abbrev second_in : System mock
second_in = record {
  core = set_account mock 8 8 first_in.core;
  pc = set_pc mock first_in.pc 0 idle;
}

both_ready-Reached : Reached mock both_ready
both_ready-Reached =
    later
      (later (starts refl (λ i. refl))
        (moves {s = start} 1 (ready 7 7) fresh (restores 7 7 first-Promotes)))
      (moves {s = prepared} 0 (ready 8 8) fresh (restores 8 8 second-Promotes))

second_in-Reached : Reached mock second_in
second_in-Reached =
    later (later both_ready-Reached (moves {s = both_ready} 1 idle first_in.core (sets 7 7 refl)))
      (moves {s = first_in} 0 idle second_in.core (sets 8 8 refl))

Reached-IsAccounted_example : IsAccounted mock second_in.core.state
Reached-IsAccounted_example = Reached-IsAccounted mock second_in second_in-Reached

abbrev signed : ProtonCore mock
signed = record { state = record (fresh.state) { user_ctx = some 7; api = some 7 }; world = 0 }
