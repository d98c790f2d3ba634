-- ===== src/Probes/Shell/Tests.antt =====
-- The programs over the C ABI in the small world, with names in place of JSON.
use aerogram.Prelude.{
  false, err, ℕ, ◌≡◌, refl, sym, ◌∙◌, true, none, some, All, arith, List, [], ◌∷◌, map, length,
  Text, codes, text_eq, if◌then◌else◌, ok,
}
use mathlib.Core.Path.{subst}
use aerogram.Json.{string, Value, object, field, end, array, cons, nil}
use aerogram.Proton.Core
use aerogram.Proton.Core.{ProtonCore}
use aerogram.Proton.Auth.{state_addr, restore_session, promote}
use aerogram.Proton.Events.{no_events, messages_event}
use aerogram.Proton.Mock.{mock, mock-HasClock}
use aerogram.Proton.Abi.{Texts, ContextApi, create_context, make_dirs, envelope}
use aerogram.Proton.Abi.Tests.{outside}
use aerogram.Proton.Abi.Calls.{IsReadable}
use aerogram.Probes.Checks.{aborts, ◌>>=◌, ask, ends}
use aerogram.Probes.Watches.{timeout_params, waits, marker_watch, wait_event_probe}
use aerogram.Probes.Shell.Coreless.{Hears, heard, hears, main-Hears}
use aerogram.Probes.Shell.{labels_talk, Mem, main, wait_talk, marker_watch_main}
use aerogram.Probes.{call}
use aerogram.Proton.Events.{wait_event, poll}
use aerogram.Proton.Dispatch.{dispatch, run_method}
use aerogram.Probes.Watches.Ending.{Watched}
use aerogram.Probes.Shell.Strings.{IsArgument}
use aerogram.Probes.Shell.Chained.{ReadsParams, pure_ends}
use aerogram.Probes.Shell.Cleared.{Cleared, main-Goes}
use aerogram.Probes.Shell.Programs.{wait-Goes, marker_watch_main_prints}

abbrev signed : Value
signed = object (field (codes "ok") (state_addr (codes "ok") (codes "me@proton.me")) end)

abbrev moved : Value
moved = object (field (codes "ok") messages_event end)

abbrev quiet : Value
quiet = object (field (codes "ok") no_events end)

abbrev refused : Value
refused = object (field (codes "err") (string (codes "core is null")) end)

abbrev print : Value → Text
print (object (field k (object fs) end)) = codes "signed"
print (object (field k (array nil) end)) = codes "quiet"
print (object (field k (array (cons v vs)) end)) = codes "moved"
print (object (field k (string s) end)) = codes "refused"
print v = []

abbrev names : List (Text × Value)
names =
    (codes "signed", signed)
    ∷ (codes "refused", refused)
    ∷ (codes "quiet", quiet)
    ∷ (codes "moved", moved)
    ∷ (codes "{\"timeout_ms\": 15000}", timeout_params 15_000)
    ∷ (codes "{\"timeout_ms\": 2000}", timeout_params 2000)
    ∷ []

abbrev find : Text → List (Text × Value) → Value
find s [] = object end
find s ((t, v) ∷ more) = let rest = find s more in if text_eq s t then v else rest

abbrev named_texts : Texts
named_texts = record {
  to_string = print;
  from_str = λ s. ok (find s names);
  utf8_message = λ bytes. [];
}

abbrev context : ContextApi named_texts outside mock
context = record {
  create_dir_all = λ dir w. (ok tt, w);
  cargo_pkg_version = codes "0.1.0";
  new_context = λ config w. (ok tt, w);
}

abbrev empty : (fuel : ℕ) → Mem named_texts outside mock context fuel
empty fuel = record {
  sys = record { cores = record { next = 0; cells = λ p. none }; world = 0 };
  strings = record { next = 0; cells = λ s. none };
}

abbrev started : ProtonCore mock
started = record {
  state = record { login_flow = none; user_ctx = none; api = none; last_event_id = none };
  world = 0;
}

signed-IsReadable : IsReadable named_texts signed
signed-IsReadable = record { reads = refl; scalar = omega arith; no_nul = refl }

quiet-IsReadable : IsReadable named_texts quiet
quiet-IsReadable = record { reads = refl; scalar = omega arith; no_nul = refl }

moved-IsReadable : IsReadable named_texts moved
moved-IsReadable = record { reads = refl; scalar = omega arith; no_nul = refl }

abbrev outs : List Value
outs = quiet ∷ moved ∷ moved ∷ moved ∷ moved ∷ moved ∷ []

-- The account is signed in, the marker is the second that the world is in.
abbrev at : ℕ → ℕ → ProtonCore mock
at seconds now = record {
  state = record {
    login_flow = none;
    user_ctx = some 7;
    api = some 7;
    last_event_id = some (seconds ∷ []);
  };
  world = now;
}

watched :
    marker_watch named_texts outside.rewriter outside.html2text outside.login_params mock 61 started
    ≡ ends (signed, outs) (at 5 5260)
unfolding marker_watch ◌>>=◌ waits ask call dispatch run_method wait_event poll restore_session
    Core.◌>>=◌ promote
watched = refl

waited :
    wait_event_probe named_texts outside.rewriter outside.html2text outside.login_params mock 61
      started
    ≡ ends (signed, quiet ∷ moved ∷ moved ∷ []) (at 2 2110)
unfolding wait_event_probe ◌>>=◌ waits ask call dispatch run_method wait_event poll restore_session
    Core.◌>>=◌ promote
waited = refl

outs-IsReadable : All (IsReadable named_texts) outs
outs-IsReadable = (
  quiet-IsReadable,
  (
    moved-IsReadable,
    (moved-IsReadable, (moved-IsReadable, (moved-IsReadable, (moved-IsReadable, tt)))),
  ),
)

reads : ReadsParams named_texts
reads = record { empty = refl; long = refl; short = refl }

made_context : create_context named_texts outside mock context (codes "/tmp/a") 0 ≡ (ok tt, 0)
unfolding create_context make_dirs
made_context = refl

dir-IsArgument : IsArgument (codes "/tmp/a")
dir-IsArgument = record { scalar = omega arith; no_nul = refl }

marker_watch_main_prints_example :
    let restored = restore_session mock started in
    (outs : List Value) × (e : ProtonCore mock) × (m' : Mem named_texts outside mock context 61)
    × (marker_watch_main named_texts outside mock context 61 (some (codes "/tmp/a")) (empty 61)
        ≡ ends (print (envelope named_texts restored.0), map print outs) m')
    × (length outs ≡ 6)
    × Watched named_texts outside.rewriter outside.html2text outside.login_params mock
        restored.1.state outs e.state
    × Cleared named_texts outside mock context 61 (empty 61) m'
    × (m'.sys.world ≡ e.world)
marker_watch_main_prints_example =
    marker_watch_main_prints named_texts outside mock context mock-HasClock 60 (codes "/tmp/a")
      (empty 61) 0 (omega arith) reads dir-IsArgument (λ p above. refl) (λ p above. refl)
      made_context
      (λ u vs e h.
        let (same, _) = pure_ends (signed, outs) (u, vs) (at 5 5260) e (sym watched ∙ h) in
        subst
          (λ (p : Value × List Value).
            IsReadable named_texts p.0 × All (IsReadable named_texts) p.1)
          same (signed-IsReadable, outs-IsReadable))

main-Goes_example :
    (m' : Mem named_texts outside mock context 61) × (main named_texts outside mock context 61 true
        (some (codes "/tmp/a"))
        wait_talk
        (empty 61)
      ≡ ends (codes "signed", codes "quiet" ∷ codes "moved" ∷ codes "moved" ∷ []) m')
    × Cleared named_texts outside mock context 61 (empty 61) m'
    × (m'.sys.world ≡ 2110)
main-Goes_example =
    main-Goes named_texts outside mock context 61 true (codes "/tmp/a") wait_talk (empty 61) 0 _
      (at 2 2110) dir-IsArgument (λ p above. refl) (λ p above. refl) made_context
      (wait-Goes named_texts outside mock context 61 reads started (at 2 2110) signed
        (quiet ∷ moved ∷ moved ∷ []) waited signed-IsReadable
        (quiet-IsReadable, (moved-IsReadable, (moved-IsReadable, tt))))

-- A disk that is full.
abbrev full : ContextApi named_texts outside mock
full = record context { create_dir_all = λ dir w. (err (codes "full"), w) }

unmade :
    create_context named_texts outside mock full (codes "/tmp/a") 0
    ≡ (err (codes "mkdir /tmp/a/session: full"), 0)
unfolding create_context make_dirs
unmade = refl

labels_heard : Hears (codes "refused") labels_talk (codes "refused", codes "refused")
unfolding labels_talk
labels_heard =
    hears (codes "restore_session") (codes "{}") _ _
      (record { scalar = omega arith; no_nul = refl })
      (record { scalar = omega arith; no_nul = refl })
      (hears (codes "list_labels") (codes "{}") _ _ (record { scalar = omega arith; no_nul = refl })
        (record { scalar = omega arith; no_nul = refl }) (heard _))

abbrev empty_full : Mem named_texts outside mock full 0
empty_full = record {
  sys = record { cores = record { next = 0; cells = λ p. none }; world = 0 };
  strings = record { next = 0; cells = λ s. none };
}

main-Hears_example :
    (main named_texts outside mock full 0 true (some (codes "/tmp/a")) labels_talk empty_full
      ≡ aborts)
    × ((m' : Mem named_texts outside mock full 0) × (main named_texts outside mock full 0 false
            (some (codes "/tmp/a"))
            labels_talk
            empty_full
          ≡ ends (codes "refused", codes "refused") m')
        × Cleared named_texts outside mock full 0 empty_full m'
        × (m'.sys.world ≡ 0))
main-Hears_example =
    main-Hears named_texts outside mock full 0 (codes "/tmp/a") (codes "mkdir /tmp/a/session: full")
      labels_talk (codes "refused", codes "refused") empty_full 0 dir-IsArgument (λ p above. refl)
      unmade (record { reads = refl; scalar = omega arith; no_nul = refl }) labels_heard
