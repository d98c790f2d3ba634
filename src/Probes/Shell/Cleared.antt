-- ===== src/Probes/Shell/Cleared.antt =====
-- A probe program leaves the memory as it found it.
use aerogram.Prelude.{
  ℕ, ◌==◌, ◌≡◌, refl, ap, ◌∙◌, Bool, false, true, ◌&&◌, none, some, arith, Text, codes, ok,
  if◌then◌else◌,
}
use aerogram.Prelude.Utf8.{as_bytes}
use aerogram.Prelude.Heap.{into_raw, put, IsBounded, live-as_mut}
use aerogram.Proton.Core.{ProtonApi, ProtonCore}
use aerogram.Proton.Abi.{
  Texts, Outside, Sys, ContextApi, create_context, proton_core_new, proton_core_free, default,
}
use aerogram.Proton.Abi.Calls.{cstr_arg-as_bytes}
use aerogram.Proton.Abi.Memory.{makes, frees, made, nothing, step}
use aerogram.Proton.Abi.Memory.Books.{not_null-into_raw, cells-into_raw, into_raw_fresh}
use aerogram.Probes.Checks.{ends, unwrap}
use aerogram.Probes.Checks.Asked.{after_ends}
use aerogram.Probes.Shell.{Talk, Mem, request, main}
use aerogram.Probes.Shell.Strings.{IsArgument, c_string-as_bytes}
use aerogram.Probes.Shell.Goes.{Holds, Goes, talk-Goes}

module _ (texts : Texts) (out : Outside) (px : ProtonApi) (cx : ContextApi texts out px)
    (fuel : ℕ) where
  -- The same cores and the same strings are alive, and hold the same.
  pub record Cleared (m m' : Mem texts out px cx fuel) : Type 0 where
    pub strings : (q : ℕ) → m'.strings.cells q ≡ m.strings.cells q
    pub cores : (q : ℕ) → m'.sys.cores.cells q ≡ m.sys.cores.cells q

  -- The core of `CoreState::default()` in a world.
  abbrev pub new_core : px.World → ProtonCore px
  new_core w = record { state = default texts out px; world = w }

  abbrev core_at : Mem texts out px cx fuel → ℕ
  core_at m = (into_raw (default texts out px) m.sys.cores).0

  abbrev with_core : px.World → Mem texts out px cx fuel → Mem texts out px cx fuel
  with_core w m = record m {
    sys = record { cores = (into_raw (default texts out px) m.sys.cores).1; world = w };
  }

  module _ (dir : Text) (m : Mem texts out px cx fuel) (w : px.World) where
    new_core_lem :
        IsArgument dir
        → create_context texts out px cx dir m.sys.world ≡ (ok tt, w)
        → proton_core_new texts out px cx (some (as_bytes dir)) m.sys
          ≡ (core_at m, (with_core w m).sys)
    unfolding proton_core_new
    new_core_lem a created =
        rw (proton_core_new, cstr_arg-as_bytes texts dir (codes "data_dir") a.scalar)
          (rw (ap (λ r. r.0) created) (ap (λ r. (core_at m, (with_core r.1 m).sys)) created))

    core_made :
        IsArgument dir
        → create_context texts out px cx dir m.sys.world ≡ (ok tt, w)
        → request texts out px cx fuel (makes (some (as_bytes dir))) m
          ≡ ends (made (core_at m)) (with_core w m)
    unfolding request step
    core_made a created =
        ap (λ (r : ℕ × Sys texts out px). ends (made r.0) (record m { sys = r.1 }))
          (new_core_lem a created)

    with_core-Holds :
        IsBounded m.strings → Holds texts out px cx fuel (core_at m) (new_core w) (with_core w m)
    with_core-Holds bounded = record {
      there =
          live-as_mut _ _ _ (not_null-into_raw (default texts out px) m.sys.cores)
            (cells-into_raw (default texts out px) m.sys.cores (core_at m) ∙ (ground arith));
      world = refl;
      bounded = bounded;
    }

  abbrev without_core : ℕ → Mem texts out px cx fuel → Mem texts out px cx fuel
  without_core core m = record m { sys = record (m.sys) { cores = put core none m.sys.cores } }

  core_freed :
      (core : ℕ) (c : ProtonCore px) (m : Mem texts out px cx fuel)
      → Holds texts out px cx fuel core c m
      → request texts out px cx fuel (frees core) m ≡ ends nothing (without_core core m)
  unfolding request step proton_core_free
  core_freed core c m h = rw (h.there, request) refl

  -- If the directory can be handed over and its context made, and the program's calls on a new core
  -- go to an end, their replies readable, then in a memory with nothing above the last addresses
  -- given out `main` ends as the program does; the same cores and strings are alive and hold what
  -- they held before it, and the world is the one that the program leaves.
  pub main-Goes :
      {A : Type 0} (checked : Bool) (dir : Text) (program : Talk A) (m : Mem texts out px cx fuel)
      (w : px.World) (a : A) (e : ProtonCore px)
      → IsArgument dir
      → IsBounded m.strings
      → IsBounded m.sys.cores
      → create_context texts out px cx dir m.sys.world ≡ (ok tt, w)
      → Goes texts out px cx fuel program (new_core w) a e
      → (m' : Mem texts out px cx fuel) × (main texts out px cx fuel checked (some dir) program m
          ≡ ends a m')
        × Cleared m m'
        × (m'.sys.world ≡ e.world)
  unfolding main
  main-Goes checked dir program m w a e arg strings_bounded cores_bounded created goes =
      let (m₁, went, held, same) =
        talk-Goes texts out px cx fuel (core_at m) program (new_core w) a e (with_core w m) goes
          (with_core-Holds dir m w strings_bounded) in
      (
        without_core (core_at m) m₁,
        after_ends _ _ dir m m refl
            ∙ after_ends _ _ (as_bytes dir) m m (rw (c_string-as_bytes dir arg) refl)
            ∙ after_ends _ _ (made (core_at m)) m (with_core w m) (core_made dir m w arg created)
            ∙ after_ends _ _ (made (core_at m)) (with_core w m) (with_core w m) (checks checked)
            ∙ after_ends _ _ a (with_core w m) m₁ went
            ∙ after_ends _ _ nothing m₁ (without_core (core_at m) m₁)
                (core_freed (core_at m) e m₁ held),
        record {
          strings = same.strings;
          cores = λ q. ground (
            arith,
            same.cores q,
            cells-into_raw (default texts out px) m.sys.cores q,
            into_raw_fresh (default texts out px) m.sys.cores cores_bounded,
          );
        },
        held.world,
      )
    where
      checks :
          (checked : Bool)
          → unwrap
              (if checked && (core_at m == 0) then none else some (made (core_at m)))
              (with_core w m)
            ≡ ends (made (core_at m)) (with_core w m)
      checks true = rw (not_null-into_raw (default texts out px) m.sys.cores) refl
      checks false = refl
