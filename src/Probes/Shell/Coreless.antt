-- ===== src/Probes/Shell/Coreless.antt =====
-- A probe program whose core could not be made.
use aerogram.Prelude.{ℕ, ◌≡◌, refl, ap, ◌∙◌, false, true, none, some, Text, codes, err}
use aerogram.Prelude.CStrings.{c_string}
use aerogram.Prelude.Utf8.{as_bytes}
use aerogram.Prelude.Heap.{as_mut, IsBounded}
use aerogram.Json.{Value}
use aerogram.Proton.Core.{ProtonApi}
use aerogram.Proton.Abi.{
  Texts, Outside, Sys, ContextApi, create_context, proton_core_new, proton_core_free, err_value,
}
use aerogram.Proton.Abi.Calls.{IsReadable, cstr_arg-as_bytes, no_core, proton_call-Refused}
use aerogram.Proton.Abi.Memory.{makes, frees, made, Answer, nothing, step}
use aerogram.Probes.Checks.{Run, ◌>>=◌, aborts, ends, unwrap}
use aerogram.Probes.Checks.Asked.{after_ends}
use aerogram.Probes.Shell.{Talk, finished, says, Mem, request, talk, main}
use aerogram.Probes.Shell.Strings.{
  IsArgument, c_string-as_bytes, freed, call_text_lem, freed-IsBounded, freed_cells,
}
use aerogram.Probes.Shell.Cleared.{Cleared}

-- How a program goes that hears the same text in reply to every call.
pub data Hears {A : Type 0} (reply : Text) : Talk A → A → Type 0 where
  heard : (a : A) → Hears reply (finished a) a
  hears :
      (method params : Text) (next : Text → Talk A) (a : A)
      → IsArgument method
      → IsArgument params
      → Hears reply (next reply) a
      → Hears reply (says method params next) a

module _ (texts : Texts) (out : Outside) (px : ProtonApi) (cx : ContextApi texts out px)
    (fuel : ℕ) where
  abbrev pub refusal : Value
  refusal = err_value texts (codes "core is null")

  abbrev after_call : Text → Text → Mem texts out px cx fuel → Mem texts out px cx fuel
  after_call method params m = freed texts out px cx fuel 0 method params refusal m.sys m

  talk-Hears :
      {A : Type 0} (t : Talk A) (a : A) (m : Mem texts out px cx fuel)
      → IsReadable texts refusal
      → IsBounded m.strings
      → Hears (texts.to_string refusal) t a
      → (m' : Mem texts out px cx fuel) × (talk texts out px cx fuel 0 t m ≡ ends a m')
        × ((q : ℕ) → m'.strings.cells q ≡ m.strings.cells q)
        × (m'.sys ≡ m.sys)
  unfolding talk
  talk-Hears _ a m readable bounded (heard _) = (m, refl, (λ q. refl), refl)
  talk-Hears _ a m readable bounded (hears method params next _ named given rest) =
      let m₁ = after_call method params m in
      let refused =
        proton_call-Refused texts out px fuel 0 (some (as_bytes method)) (some (as_bytes params))
          m.sys (codes "core is null") (no_core (unfold as_mut in refl) refl) in
      let (m₂, went, same, sys) =
        talk-Hears (next (texts.to_string refusal)) a m₁ readable
          (freed-IsBounded texts out px cx fuel 0 method params refusal m.sys m bounded) rest in
      (
        m₂,
        after_ends _ _ (texts.to_string refusal) m m₁ (
              call_text_lem texts out px cx fuel 0 method params refusal m.sys m refused named given
                readable)
            ∙ went,
        (λ q. same q ∙ freed_cells texts out px cx fuel 0 method params refusal m.sys m bounded q),
        sys,
      )

  abbrev moved : px.World → Mem texts out px cx fuel → Mem texts out px cx fuel
  moved w m = record m { sys = record (m.sys) { world = w } }

  module _ (dir e : Text) (m : Mem texts out px cx fuel) (w : px.World) where
    no_core_lem :
        IsArgument dir
        → create_context texts out px cx dir m.sys.world ≡ (err e, w)
        → proton_core_new texts out px cx (some (as_bytes dir)) m.sys ≡ (0, (moved w m).sys)
    unfolding proton_core_new
    no_core_lem a failed =
        rw (cstr_arg-as_bytes texts dir (codes "data_dir") a.scalar, proton_core_new)
          (rw (ap (λ r. r.0) failed, proton_core_new) (ap (λ r. (0, (moved r.1 m).sys)) failed))

    none_made :
        IsArgument dir
        → create_context texts out px cx dir m.sys.world ≡ (err e, w)
        → request texts out px cx fuel (makes (some (as_bytes dir))) m ≡ ends (made 0) (moved w m)
    unfolding request step
    none_made a failed =
        ap (λ (r : ℕ × Sys texts out px). ends (made r.0) (record m { sys = r.1 }))
          (no_core_lem a failed)

  null_freed :
      (m : Mem texts out px cx fuel) → request texts out px cx fuel (frees 0) m ≡ ends nothing m
  unfolding request step proton_core_free as_mut
  null_freed m = refl

  none_aborts :
      {A B : Type 0} (f : A → Mem texts out px cx fuel → Run (Mem texts out px cx fuel) B)
      (m : Mem texts out px cx fuel)
      → (unwrap none >>= f) m ≡ aborts
  unfolding ◌>>=◌
  none_aborts f m = refl

  begun :
      {A : Type 0} (dir e : Text) (m : Mem texts out px cx fuel) (w : px.World)
      (next : Answer → Mem texts out px cx fuel → Run (Mem texts out px cx fuel) A)
      → IsArgument dir
      → create_context texts out px cx dir m.sys.world ≡ (err e, w)
      → (unwrap (some dir) >>= λ d. unwrap (c_string d) >>= λ data_dir.
            request texts out px cx fuel (makes (some data_dir)) >>= next)
          m
        ≡ next (made 0) (moved w m)
  begun dir e m w next arg failed =
      after_ends _ _ dir m m refl
      ∙ after_ends _ _ (as_bytes dir) m m (ap (λ o. unwrap o m) (c_string-as_bytes dir arg))
      ∙ after_ends _ next (made 0) m (moved w m) (none_made dir e m w arg failed)

  -- If the directory can be handed over and its context cannot be made, a program that checks its
  -- core panics. Any other hears in reply to every call that the core is null, if this reply can be
  -- read; it ends as it does on hearing that, in a memory with no string above the last address
  -- given out, with the same cores and strings alive as before, the same in them, and the world
  -- that the attempt at the context leaves.
  pub main-Hears :
      {A : Type 0} (dir e : Text) (program : Talk A) (a : A) (m : Mem texts out px cx fuel)
      (w : px.World)
      → IsArgument dir
      → IsBounded m.strings
      → create_context texts out px cx dir m.sys.world ≡ (err e, w)
      → IsReadable texts refusal
      → Hears (texts.to_string refusal) program a
      → (main texts out px cx fuel true (some dir) program m ≡ aborts)
        × ((m' : Mem texts out px cx fuel) × (main texts out px cx fuel false (some dir) program m
              ≡ ends a m')
            × Cleared texts out px cx fuel m m'
            × (m'.sys.world ≡ w))
  unfolding main
  main-Hears dir e program a m w arg bounded failed readable hears_it =
      let (m', went, same, sys) = talk-Hears program a (moved w m) readable bounded hears_it in
      (
        begun dir e m w _ arg failed ∙ none_aborts _ (moved w m),
        (
          m',
          begun dir e m w _ arg failed
              ∙ after_ends _ _ (made 0) (moved w m) (moved w m) refl
              ∙ after_ends _ _ a (moved w m) m' went
              ∙ after_ends _ _ nothing m' m' (null_freed m'),
          record { strings = same; cores = λ q. ap (λ s. s.cores.cells q) sys },
          ap (λ s. s.world) sys,
        ),
      )
