-- ===== src/Proton/Abi/Memory/Safe.antt =====
-- One request of a client that keeps to what it owns.
use aerogram.Prelude.{
  is_some, ℕ, suc, ◌*◌, ◌≤◌, ◌≡◌, refl, sym, ap, ◌∙◌, ◌⊎◌, inl, inr, true, false, ◌||◌, not, none,
  some, arith, ◌==◌, if◌then◌else◌, Bool-cases, Option-cases, Result-cases, codes, ok,
}
use mathlib.Core.Path.{subst}
use aerogram.Prelude.CStrings.{CStr, free_string}
use aerogram.Prelude.Heap.{
  as_mut, into_raw, put, IsBounded, into_raw-IsBounded, put-IsBounded, live_low,
}
use aerogram.Json.{Value}
use aerogram.Proton.Core.{ProtonApi, CoreState}
use aerogram.Proton.Events.{timeout}
use aerogram.Proton.Events.Polling.{HasClock}
use aerogram.Proton.Abi.{
  Texts, Outside, Sys, Ended, replied, undefined, runs_on, ContextApi, cstr_arg, read_params,
  proton_call, default, create_context, proton_core_new, proton_core_free, proton_free_string,
}
use aerogram.Proton.Abi.Calls.{proton_call_returns, is_replied}
use aerogram.Proton.Abi.Memory.{
  Request, makes, frees, calls, frees_string, Answer, made, said, nothing, Owned, owns, find_string,
  has_string, after, Memory, step,
}
use aerogram.Proton.Abi.Memory.Books.{
  find_string-keep_if, SameAlive, IsBounded-SameAlive, not_dangling, not_null-into_raw,
  cells-into_raw, Books-into_raw, into_raw_fresh, Books-put-none,
}
use aerogram.Proton.Abi.Memory.Alive.{IfReplied, call_alive}

module _ (texts : Texts) (out : Outside) (px : ProtonApi) where
  module _ (cx : ContextApi texts out px) where
    -- The client's books agree with the memory: a core is owned exactly if it is alive, and a
    -- string exactly with the bytes that it holds.
    pub record Agrees (o : Owned) (m : Memory texts out px cx) : Type 0 where
      pub cores : (p : ℕ) → is_some (m.sys.cores.cells p) ≡ owns p o.cores
      pub strings : (s : ℕ) → m.strings.cells s ≡ find_string s o.strings
      pub cores_bounded : IsBounded m.sys.cores
      pub strings_bounded : IsBounded m.strings

    -- What is handed out is not owned already, and a string is not null.
    abbrev pub IsFresh : Answer → Owned → Type 0
    IsFresh (made p) o = (p == 0 || not (owns p o.cores)) ≡ true
    IsFresh (said s bytes) o = ((s == 0) ≡ false) × (find_string s o.strings ≡ none)
    IsFresh nothing o = Unit

    -- A new core is a null pointer, or a fresh one.
    new_core :
        (dir : CStr) (sys : Sys texts out px)
        → let r = proton_core_new texts out px cx dir sys in
          ((r.0 ≡ 0) × (r.1.cores ≡ sys.cores))
          ⊎ ((r.0 ≡ (into_raw (default texts out px) sys.cores).0)
              × (r.1.cores ≡ (into_raw (default texts out px) sys.cores).1))
    unfolding proton_core_new
    new_core dir sys = elim (Result-cases (cstr_arg texts dir (codes "data_dir"))) [
      | inl (e, bad) ↦ rw (proton_core_new, bad) (inl (refl, refl))
      | inr (d, read) ↦ elim (Result-cases (create_context texts out px cx d sys.world).0) [
        | inl (e, failed) ↦ rw (proton_core_new, read) (rw failed (inl (refl, refl)))
        | inr (u, there) ↦ rw (proton_core_new, read) (rw there (inr (refl, refl)))
      ]
    ]

    abbrev pub Goes : ℕ → Request → Owned → Memory texts out px cx → Type 0
    Goes n r o m =
        (a : Answer) × (m' : Memory texts out px cx) × (step texts out px cx n r m ≡ some (a, m'))
        × Agrees (after r a o) m'
        × IsFresh a o

    abbrev new_core_of : CStr → Memory texts out px cx → ℕ × Sys texts out px
    new_core_of dir m = proton_core_new texts out px cx dir m.sys

    pub makes-Goes :
        (n : ℕ) (dir : CStr) (o : Owned) (m : Memory texts out px cx)
        → Agrees o m
        → Goes n (makes dir) o m
    unfolding step into_raw
    makes-Goes n dir o m g = elim (new_core dir m.sys) [
      | inl (failed, same) ↦ (
        made (new_core_of dir m).0,
        record { sys = (new_core_of dir m).1; strings = m.strings },
        refl,
        rw failed (record {
          cores = λ p. ap (λ h. is_some (h.cells p)) same ∙ g.cores p;
          strings = g.strings;
          cores_bounded = subst IsBounded (sym same) g.cores_bounded;
          strings_bounded = g.strings_bounded;
        }),
        rw failed refl,
      )
      | inr (there, grown) ↦
          let fresh : CoreState px = default texts out px in
          let other = not_null-into_raw fresh m.sys.cores in
          let free = into_raw_fresh fresh m.sys.cores g.cores_bounded in
          (
            made (new_core_of dir m).0,
            record { sys = (new_core_of dir m).1; strings = m.strings },
            refl,
            rw there (
                rw other (record {
                  cores = λ p.
                      ap (λ h. is_some (h.cells p)) grown
                      ∙ Books-into_raw fresh m.sys.cores o.cores g.cores p;
                  strings = g.strings;
                  cores_bounded =
                      subst IsBounded (sym grown)
                        (into_raw-IsBounded fresh m.sys.cores g.cores_bounded);
                  strings_bounded = g.strings_bounded;
                })),
            rw there (rw (other, sym (g.cores (into_raw fresh m.sys.cores).0), free) refl),
          )
    ]

    pub frees-Goes :
        (n p : ℕ) (o : Owned) (m : Memory texts out px cx)
        → Agrees o m
        → (p == 0 || owns p o.cores) ≡ true
        → Goes n (frees p) o m
    unfolding step proton_core_free as_mut
    frees-Goes n p o m g allowed = elim (Bool-cases (p == 0)) [
      | inl is_null ↦
          (nothing, m, rw (step, proton_core_free, as_mut, is_null) refl, rw is_null g, tt)
      | inr other ↦ elim (Option-cases (m.sys.cores.cells p)) [
        | inl gone ↦ let no = sym (g.cores p) ∙ ap is_some gone in cc (rw (other, no) at allowed)
        | inr (st, there) ↦ (
          nothing,
          record m { sys = record (m.sys) { cores = put p none m.sys.cores } },
          rw (step, proton_core_free, as_mut, other, there) refl,
          rw other (record {
            cores = Books-put-none p m.sys.cores o.cores g.cores;
            strings = g.strings;
            cores_bounded =
                put-IsBounded p none m.sys.cores (live_low p m.sys.cores st g.cores_bounded there)
                  g.cores_bounded;
            strings_bounded = g.strings_bounded;
          }),
          tt,
        )
      ]
    ]

    pub frees_string-Goes :
        (n s : ℕ) (o : Owned) (m : Memory texts out px cx)
        → Agrees o m
        → (s == 0 || has_string s o.strings) ≡ true
        → Goes n (frees_string s) o m
    unfolding step proton_free_string free_string as_mut
    frees_string-Goes n s o m g allowed = elim (Bool-cases (s == 0)) [
      | inl is_null ↦ (
        nothing,
        m,
        rw (step, proton_free_string, free_string, as_mut, is_null) refl,
        rw is_null g,
        tt,
      )
      | inr other ↦ elim (Option-cases (m.strings.cells s)) [
        | inl gone ↦
            let no = ap is_some (sym (g.strings s) ∙ gone) in cc (rw (other, no) at allowed)
        | inr (bytes, there) ↦ (
          nothing,
          record m { strings = put s none m.strings },
          rw (step, proton_free_string, free_string, as_mut, other, there) refl,
          rw other (record {
            cores = g.cores;
            strings = λ t. ground (arith, find_string-keep_if t s o.strings, g.strings t);
            cores_bounded = g.cores_bounded;
            strings_bounded =
                put-IsBounded s none m.strings (live_low s m.strings bytes g.strings_bounded there)
                  g.strings_bounded;
          }),
          tt,
        )
      ]
    ]

    pub calls-Goes :
        (law : HasClock px) (n core : ℕ) (method params : CStr) (o : Owned)
        (m : Memory texts out px cx)
        → Agrees o m
        → (core == 0 || owns core o.cores) ≡ true
        → ((v : Value) → read_params texts params ≡ ok v → timeout v ≤ n * 250)
        → Goes (suc n) (calls core method params) o m
    unfolding step into_raw
    calls-Goes law n core method params o m g allowed enough =
        by_end (proton_call texts out px (suc n) core method params m.sys) refl
          (call_alive texts out px (suc n) core method params m.sys)
          (proton_call_returns texts out px law n core method params m.sys
            (not_dangling core m.sys.cores ((λ i. core == 0 || g.cores core i) ∙ allowed)) enough)
      where
        by_end :
            (ended : Ended texts out px)
            → proton_call texts out px (suc n) core method params m.sys ≡ ended
            → IfReplied texts out px (λ sys'. SameAlive m.sys.cores sys'.cores) ended
            → is_replied texts out px ended ≡ true
            → Goes (suc n) (calls core method params) o m
        by_end undefined e same returned = cc
        by_end runs_on e same returned = cc
        by_end (replied bytes sys') e same returned = (
          said (into_raw bytes m.strings).0 bytes,
          record { sys = sys'; strings = (into_raw bytes m.strings).1 },
          rw (step, e) refl,
          record {
            cores = λ p. same.alive p ∙ g.cores p;
            strings = λ t.
                cells-into_raw bytes m.strings t
                ∙ (λ i. if t == (into_raw bytes m.strings).0 then some bytes else g.strings t i);
            cores_bounded = IsBounded-SameAlive m.sys.cores sys'.cores same g.cores_bounded;
            strings_bounded = into_raw-IsBounded bytes m.strings g.strings_bounded;
          },
          (
            not_null-into_raw bytes m.strings,
            sym (g.strings _) ∙ into_raw_fresh bytes m.strings g.strings_bounded,
          ),
        )
