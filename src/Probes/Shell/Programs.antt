-- ===== src/Probes/Shell/Programs.antt =====
-- The programs over the C ABI print what the programs over JSON values say.
use aerogram.Prelude.{
  length, ◌≤◌, ℕ, suc, ◌≡◌, refl, sym, ap, false, some, All, arith, List, map, take, Text, codes,
  ok,
}
use mathlib.Core.Path.{subst}
use aerogram.Prelude.Heap.{IsBounded}
use aerogram.Json.{Value, object, end}
use aerogram.Proton.Core.{ProtonApi, ProtonCore}
use aerogram.Proton.Abi.{Texts, Outside, ContextApi, envelope, create_context}
use aerogram.Proton.Abi.Calls.{IsReadable}
use aerogram.Probes.Checks.{Run, ends, ◌>>=◌, pure}
use aerogram.Probes.Watches.{timeout_params, waits, marker_watch, wait_event_probe, labels_probe}
use aerogram.Probes.Shell.{
  Talk, Mem, finished, says, says_each, labels_talk, watch_talk, wait_talk, marker_watch_main,
}
use aerogram.Probes.Shell.Strings.{IsArgument}
use aerogram.Probes.Shell.Goes.{Goes, done}
use aerogram.Proton.Events.Polling.{HasClock}
use aerogram.Proton.Auth.{restore_session}
use aerogram.Probes.Watches.Ending.{Watched, every_wait_returns}
use aerogram.Probes.Shell.Chained.{
  bind_ends, pure_ends, ReadsParams, asked, asked-Goes, printed, restore-IsArgument,
  empty-IsArgument, waits-Goes,
}
use aerogram.Probes.Shell.Cleared.{Cleared, new_core, main-Goes}

module _ (texts : Texts) (out : Outside) (px : ProtonApi) (cx : ContextApi texts out px)
    (fuel : ℕ) where
  -- A restored session and some waits, over values and over texts.
  abbrev rounds : ℕ → ℕ → ProtonCore px → Run (ProtonCore px) (Value × List Value)
  rounds n ms = do
    restored ← asked texts out px cx fuel (codes "restore_session") (object end)
    outs ← waits texts out.rewriter out.html2text out.login_params px fuel n ms
    pure (restored, outs)

  abbrev round_talk : ℕ → Text → (List Text → List Text) → Talk (Text × List Text)
  round_talk n params shown =
      says (codes "restore_session") (codes "{}")
        λ restored. says_each n (codes "wait_event") params λ outs. finished (restored, shown outs)

  abbrev Rounds :
      ℕ
      → Text
      → (List Text → List Text)
      → ProtonCore px
      → ProtonCore px
      → Value × List Value
      → Type 0
  Rounds n params shown c e p =
      Goes texts out px cx fuel {A = Text × List Text} (round_talk n params shown) c
        (texts.to_string p.0, shown (printed texts out px cx fuel p.1)) e

  rounds-Goes :
      (n ms : ℕ) (params : Text) (shown : List Text → List Text) (c e : ProtonCore px) (u : Value)
      (vs : List Value)
      → ReadsParams texts
      → IsArgument params
      → texts.from_str params ≡ ok (timeout_params ms)
      → rounds n ms c ≡ ends (u, vs) e
      → IsReadable texts u
      → All (IsReadable texts) vs
      → Rounds n params shown c e (u, vs)
  rounds-Goes n ms params shown c e u vs law given json h read reads =
      let one = bind_ends _ _ c (u, vs) e h in
      let more = bind_ends _ _ one.between (u, vs) e one.then in
      let (same, here) = pure_ends (one.value, more.value) (u, vs) more.between e more.then in
      let printed_all : Text × List Text =
        (texts.to_string one.value, shown (printed texts out px cx fuel more.value)) in
      subst (Rounds n params shown c e) same (
        asked-Goes texts out px cx fuel (codes "restore_session") (codes "{}") (object end) _ c
          one.between e one.value printed_all (restore-IsArgument texts out px cx fuel)
          (empty-IsArgument texts out px cx fuel) law.empty one.first
          (subst (IsReadable texts) (sym (ap (λ p. p.0) same)) read)
          (waits-Goes texts out px cx fuel n ms params _ one.between more.between e more.value
            printed_all given json more.first
            (subst (All (IsReadable texts)) (sym (ap (λ p. p.1) same)) reads)
            (subst (λ x. Goes texts out px cx fuel (finished printed_all) x printed_all e)
              (sym here) (done printed_all e))))

  watch-Goes :
      ReadsParams texts
      → (c e : ProtonCore px) (u : Value) (vs : List Value)
      → marker_watch texts out.rewriter out.html2text out.login_params px fuel c ≡ ends (u, vs) e
      → IsReadable texts u
      → All (IsReadable texts) vs
      → Goes texts out px cx fuel {A = Text × List Text} watch_talk c
          (texts.to_string u, printed texts out px cx fuel vs)
          e
  unfolding watch_talk marker_watch
  watch-Goes law c e u vs h read reads =
      rounds-Goes 6 15_000 (codes "{\"timeout_ms\": 15000}") (λ outs. outs) c e u vs law
        (record { scalar = omega arith; no_nul = refl }) law.long h read reads

  pub wait-Goes :
      ReadsParams texts
      → (c e : ProtonCore px) (u : Value) (vs : List Value)
      → wait_event_probe texts out.rewriter out.html2text out.login_params px fuel c
        ≡ ends (u, vs) e
      → IsReadable texts u
      → All (IsReadable texts) vs
      → Goes texts out px cx fuel {A = Text × List Text} wait_talk c
          (texts.to_string u, map (take 300) (printed texts out px cx fuel vs))
          e
  unfolding wait_talk wait_event_probe
  wait-Goes law c e u vs h read reads =
      rounds-Goes 3 2000 (codes "{\"timeout_ms\": 2000}") (map (take 300)) c e u vs law
        (record { scalar = omega arith; no_nul = refl }) law.short h read reads

  labels-Goes :
      ReadsParams texts
      → (c e : ProtonCore px) (u v : Value)
      → labels_probe texts out.rewriter out.html2text out.login_params px fuel c ≡ ends (u, v) e
      → IsReadable texts u
      → IsReadable texts v
      → Goes texts out px cx fuel {A = Text × Text} labels_talk c
          (texts.to_string u, texts.to_string v)
          e
  unfolding labels_talk labels_probe
  labels-Goes law c e u v h read reads =
      let one = bind_ends _ _ c (u, v) e h in
      let more = bind_ends _ _ one.between (u, v) e one.then in
      let (same, here) = pure_ends (one.value, more.value) (u, v) more.between e more.then in
      let printed_all : Text × Text = (texts.to_string one.value, texts.to_string more.value) in
      subst
        (λ (p : Value × Value).
          Goes texts out px cx fuel {A = Text × Text} labels_talk c
            (texts.to_string p.0, texts.to_string p.1) e)
        same
        (asked-Goes texts out px cx fuel (codes "restore_session") (codes "{}") (object end) _ c
          one.between e one.value printed_all (restore-IsArgument texts out px cx fuel)
          (empty-IsArgument texts out px cx fuel) law.empty one.first
          (subst (IsReadable texts) (sym (ap (λ p. p.0) same)) read)
          (asked-Goes texts out px cx fuel (codes "list_labels") (codes "{}") (object end) _
            one.between more.between e more.value printed_all
            (record { scalar = omega arith; no_nul = refl }) (empty-IsArgument texts out px cx fuel)
            law.empty more.first (subst (IsReadable texts) (sym (ap (λ p. p.1) same)) reads)
            (subst (λ x. Goes texts out px cx fuel (finished printed_all) x printed_all e)
              (sym here) (done printed_all e))))

module _ (texts : Texts) (out : Outside) (px : ProtonApi) (cx : ContextApi texts out px) where
  -- If the clock runs and a sleep lasts, 61 looks at the feed in each wait are enough, serde reads
  -- the parameters, the core's replies can be read, the directory can be handed over and its
  -- context made, and nothing is above the last addresses given out, then marker_watch over the C
  -- ABI prints the text of what restore_session answers and those of six replies of wait_event,
  -- each of which follows the core's marker from the one before it; and the same cores and strings
  -- are alive as before, with the same in them.
  pub marker_watch_main_prints :
      (law : HasClock px) (n : ℕ) (dir : Text) (m : Mem texts out px cx (suc n)) (w : px.World)
      → 60 ≤ n
      → ReadsParams texts
      → IsArgument dir
      → IsBounded m.strings
      → IsBounded m.sys.cores
      → create_context texts out px cx dir m.sys.world ≡ (ok tt, w)
      → ((u : Value) (vs : List Value) (e : ProtonCore px)
          → marker_watch texts out.rewriter out.html2text out.login_params px
              (suc n)
              (new_core texts out px cx (suc n) w)
            ≡ ends (u, vs) e
          → IsReadable texts u × All (IsReadable texts) vs)
      → let restored = restore_session px (new_core texts out px cx (suc n) w) in
        (outs : List Value) × (e : ProtonCore px) × (m' : Mem texts out px cx (suc n))
        × (marker_watch_main texts out px cx (suc n) (some dir) m
            ≡ ends (texts.to_string (envelope texts restored.0), map texts.to_string outs) m')
        × (length outs ≡ 6)
        × Watched texts out.rewriter out.html2text out.login_params px restored.1.state outs e.state
        × Cleared texts out px cx (suc n) m m'
        × (m'.sys.world ≡ e.world)
  unfolding marker_watch_main
  marker_watch_main_prints law n dir m w enough reads arg strings cores created readable =
      let restored = restore_session px (new_core texts out px cx (suc n) w) in
      let (outs, e, went, count, watched) =
        (every_wait_returns texts out.rewriter out.html2text out.login_params px law n
          (new_core texts out px cx (suc n) w) enough).0 in
      let (read, all_read) = readable (envelope texts restored.0) outs e went in
      let (m', printed_all, cleared, moved) =
        main-Goes texts out px cx (suc n) false dir watch_talk m w _ e arg strings cores created (
          watch-Goes texts out px cx (suc n) reads (new_core texts out px cx (suc n) w) e
            (envelope texts restored.0) outs went read all_read) in
      (outs, e, m', printed_all, count, watched, cleared, moved)
