-- ===== src/Probes/Shell/Goes.antt =====
-- A program's calls over the C ABI go as the core's methods do, and leave no string behind.
use aerogram.Prelude.{
  ℕ, ◌==◌, ◌≡◌, refl, sym, ◌∙◌, false, some, arith, Option, Text, codes, Result, ok,
}
use mathlib.Core.Path.{subst}
use aerogram.Prelude.Utf8.{as_bytes}
use aerogram.Prelude.Heap.{as_mut, live, IsBounded, live-as_mut, as_mut-live}
use aerogram.Json.{Value}
use aerogram.Proton.Core.{ProtonApi, ProtonCore}
use aerogram.Proton.Dispatch.{dispatch}
use aerogram.Proton.Abi.{Texts, Outside, ContextApi, into_c, envelope, proton_call, replied}
use aerogram.Proton.Abi.Calls.{
  IsReadable, after, asked, dispatched_lem, cstr_arg-as_bytes, read_params-as_bytes,
}
use aerogram.Probes.Checks.{ends}
use aerogram.Probes.Checks.Asked.{after_ends}
use aerogram.Probes.Shell.Strings.{IsArgument, freed, call_text_lem, freed-IsBounded, freed_cells}
use aerogram.Probes.Shell.{Talk, finished, says, Mem, call_text, talk}

module _ (texts : Texts) where
  module _ (out : Outside) (px : ProtonApi) (cx : ContextApi texts out px) (fuel : ℕ) where
    -- The core at a pointer, and the world.
    pub record Holds (core : ℕ) (c : ProtonCore px) (m : Mem texts out px cx fuel) : Type 0 where
      pub there : as_mut core m.sys.cores ≡ live c.state
      pub world : m.sys.world ≡ c.world
      pub bounded : IsBounded m.strings

    -- Besides the core at a pointer, the same memory is alive and holds the same.
    pub record Same (core : ℕ) (m m' : Mem texts out px cx fuel) : Type 0 where
      pub strings : (q : ℕ) → m'.strings.cells q ≡ m.strings.cells q
      pub cores : (q : ℕ) → (q == core) ≡ false → m'.sys.cores.cells q ≡ m.sys.cores.cells q

    pub Same-refl : (core : ℕ) (m : Mem texts out px cx fuel) → Same core m m
    Same-refl core m = record { strings = λ q. refl; cores = λ q differs. refl }

    Same-trans :
        (core : ℕ) (m m' m'' : Mem texts out px cx fuel)
        → Same core m m'
        → Same core m' m''
        → Same core m m''
    Same-trans core m m' m'' s t = record {
      strings = λ q. t.strings q ∙ s.strings q;
      cores = λ q differs. t.cores q differs ∙ s.cores q differs;
    }

    abbrev pub run_call : Text → Value → ProtonCore px → Option (Result Text Value × ProtonCore px)
    run_call = dispatch out.rewriter out.html2text out.login_params px fuel

    -- A call of the core with arguments that can be handed over, and a reply that can be read.
    pub record Answered (method params : Text) (c : ProtonCore px) (r : Result Text Value)
        (d : ProtonCore px) : Type 0 where
      pub value : Value
      pub named : IsArgument method
      pub given : IsArgument params
      pub json : texts.from_str params ≡ ok value
      pub back : run_call method value c ≡ some (r, d)
      pub readable : IsReadable texts (envelope texts r)

    module _ (core : ℕ) (method params : Text) (c : ProtonCore px) (r : Result Text Value)
        (d : ProtonCore px) (m : Mem texts out px cx fuel) where
      replied_lem :
          Holds core c m
          → Answered method params c r d
          → proton_call texts out px fuel core
              (some (as_bytes method))
              (some (as_bytes params))
              m.sys
            ≡ replied (into_c texts (envelope texts r)) (after texts out px core d m.sys)
      replied_lem h a =
          let back =
            subst
              (λ (w : px.World).
                run_call method a.value (record { state = c.state; world = w }) ≡ some (r, d))
              (sym h.world) a.back in
          asked texts out px fuel core c.state _ _ method a.value m.sys h.there
            (cstr_arg-as_bytes texts method (codes "method") a.named.scalar)
            (read_params-as_bytes texts params a.value a.given.scalar a.json)
          ∙ dispatched_lem texts out px fuel core c.state method a.value m.sys r d back

      -- One call: its reply is what the method answers, and its string is freed.
      call_text-Answered :
          Holds core c m
          → Answered method params c r d
          → (m' : Mem texts out px cx fuel) × (call_text texts out px cx fuel core method params m
              ≡ ends (texts.to_string (envelope texts r)) m')
            × Holds core d m'
            × Same core m m'
      call_text-Answered h a = (
        freed texts out px cx fuel core method params (envelope texts r)
            (after texts out px core d m.sys) m,
        call_text_lem texts out px cx fuel core method params (envelope texts r) _ m
            (replied_lem h a) a.named a.given a.readable,
        record {
          there =
              live-as_mut core _ d.state (as_mut-live core m.sys.cores c.state h.there).0
                (ground arith);
          world = refl;
          bounded =
              freed-IsBounded texts out px cx fuel core method params (envelope texts r)
                (after texts out px core d m.sys) m h.bounded;
        },
        record {
          strings =
              freed_cells texts out px cx fuel core method params (envelope texts r)
                (after texts out px core d m.sys) m h.bounded;
          cores = λ q differs. rw differs refl;
        },
      )

    -- How a program's calls go on a core.
    pub data Goes {A : Type 0} : Talk A → ProtonCore px → A → ProtonCore px → Type 0 where
      done : (a : A) (c : ProtonCore px) → Goes (finished a) c a c
      asks :
          (method params : Text) (next : Text → Talk A) (c d e : ProtonCore px)
          (r : Result Text Value) (a : A)
          → Answered method params c r d
          → Goes (next (texts.to_string (envelope texts r))) d a e
          → Goes (says method params next) c a e

    pub talk-Goes :
        {A : Type 0} (core : ℕ) (t : Talk A) (c : ProtonCore px) (a : A) (e : ProtonCore px)
        (m : Mem texts out px cx fuel)
        → Goes t c a e
        → Holds core c m
        → (m' : Mem texts out px cx fuel) × (talk texts out px cx fuel core t m ≡ ends a m')
          × Holds core e m'
          × Same core m m'
    unfolding talk
    talk-Goes core _ c a _ m (done _ _) h = (m, refl, h, Same-refl core m)
    talk-Goes core _ c a e m (asks method params next _ d _ r _ answered rest) h =
        let (m₁, called, held₁, same₁) = call_text-Answered core method params c r d m h answered in
        let (m₂, went, held₂, same₂) =
          talk-Goes core (next (texts.to_string (envelope texts r))) d a e m₁ rest held₁ in
        (
          m₂,
          after_ends _ _ (texts.to_string (envelope texts r)) m m₁ called ∙ went,
          held₂,
          Same-trans core m m₁ m₂ same₁ same₂,
        )
