-- ===== src/Proton/Abi/Calls.antt =====
-- What a caller gets over the C ABI.
use aerogram.Prelude.{
  is_some, ℕ, suc, ◌*◌, ◌≤◌, ◌≡◌, refl, ◌∙◌, ◌≢◌, inl, inr, Bool, true, false, Option, some, arith,
  ◌==◌, Option-cases, All, Text, Bytes, codes, Result, ok, err, Result-cases,
}
use aerogram.Prelude.Utf8.{as_bytes, from_utf8}
use aerogram.Prelude.Utf8.Reading.{IsScalar, from_utf8-as_bytes}
use aerogram.Prelude.CStrings.{CStr, c_string, has_nul}
use aerogram.Prelude.Heap.{Heap, Ref, null, dangling, live, as_mut, put, as_mut-live, live-as_mut}
use aerogram.Json.{Value}
use aerogram.Proton.Core.{ProtonApi, CoreState, ProtonCore}
use aerogram.Proton.Events.{timeout}
use aerogram.Proton.Events.Polling.{HasClock}
use aerogram.Proton.Dispatch.{dispatch}
use aerogram.Proton.Dispatch.Reached.{dispatch_returns}
use aerogram.Proton.Abi.{
  Texts, Outside, cstr_arg, into_c, err_value, envelope, read_params, Sys, Ended, replied,
  undefined, runs_on, dispatched, proton_call,
}

module _ (texts : Texts) where
  -- What serde documents of a value's text: it reads back as the value, it is a text, and it holds
  -- no NUL, which JSON escapes.
  pub record IsReadable (v : Value) : Type 0 where
    pub reads : texts.from_str (texts.to_string v) ≡ ok v
    pub scalar : All IsScalar (texts.to_string v)
    pub no_nul : has_nul (texts.to_string v) ≡ false

  -- How a caller reads a reply.
  abbrev pub read : Bytes → Result Text Value
  read bytes = elim (from_utf8 texts.utf8_message bytes) [ ok s ↦ texts.from_str s | err e ↦ err e ]

  read-into_c : (v : Value) → IsReadable v → read (into_c texts v) ≡ ok v
  unfolding into_c c_string
  read-into_c v r =
      rw r.no_nul
        (rw (from_utf8-as_bytes texts.utf8_message (texts.to_string v) r.scalar, read) r.reads)

  pub cstr_arg-as_bytes :
      (s what : Text) → All IsScalar s → cstr_arg texts (some (as_bytes s)) what ≡ ok s
  unfolding cstr_arg
  cstr_arg-as_bytes s what h = rw (from_utf8-as_bytes texts.utf8_message s h) refl

  pub read_params-as_bytes :
      (raw : Text) (v : Value)
      → All IsScalar raw
      → texts.from_str raw ≡ ok v
      → read_params texts (some (as_bytes raw)) ≡ ok v
  unfolding read_params
  read_params-as_bytes raw v h e =
      rw (cstr_arg-as_bytes raw (codes "params") h, read_params) (rw e refl)

  module _ (out : Outside) (px : ProtonApi) where
    abbrev run_call : ℕ → Text → Value → ProtonCore px → Option (Result Text Value × ProtonCore px)
    run_call = dispatch out.rewriter out.html2text out.login_params px

    -- The core has a new state, and the world has moved on.
    abbrev pub after : ℕ → ProtonCore px → Sys texts out px → Sys texts out px
    after core c sys = record { cores = put core (some c.state) sys.cores; world = c.world }

    pub dispatched_lem :
        (n core : ℕ) (st : CoreState px) (m : Text) (v : Value) (sys : Sys texts out px)
        (r : Result Text Value) (c : ProtonCore px)
        → run_call n m v (record { state = st; world = sys.world }) ≡ some (r, c)
        → dispatched texts out px n core st m v sys
          ≡ replied (into_c texts (envelope texts r)) (after core c sys)
    unfolding dispatched
    dispatched_lem n core st m v sys r c back = rw (back, dispatched) refl

    pub asked :
        (n core : ℕ) (st : CoreState px) (method params : CStr) (m : Text) (v : Value)
        (sys : Sys texts out px)
        → as_mut core sys.cores ≡ live st
        → cstr_arg texts method (codes "method") ≡ ok m
        → read_params texts params ≡ ok v
        → proton_call texts out px n core method params sys
          ≡ dispatched texts out px n core st m v sys
    unfolding proton_call
    asked n core st method params m v sys there named given =
        rw (there, proton_call) (rw (named, given) refl)

    put_others :
        (p q : ℕ) (a : Option (CoreState px)) (h : Heap (CoreState px))
        → (q == p) ≡ false
        → as_mut q (put p a h) ≡ as_mut q h
    unfolding as_mut
    put_others p q a h differs = ground arith

    -- A call on a live core, with a method's name and with parameters that are JSON: the reply
    -- reads back as the envelope of what the method answers; the core has the method's state, and
    -- every other core the one it had.
    pub read-proton_call :
        (n core : ℕ) (st : CoreState px) (m raw : Text) (v : Value) (sys : Sys texts out px)
        (r : Result Text Value) (c : ProtonCore px)
        → as_mut core sys.cores ≡ live st
        → All IsScalar m
        → All IsScalar raw
        → texts.from_str raw ≡ ok v
        → run_call n m v (record { state = st; world = sys.world }) ≡ some (r, c)
        → IsReadable (envelope texts r)
        → (bytes : Bytes) × (proton_call texts out px n core
              (some (as_bytes m))
              (some (as_bytes raw))
              sys
            ≡ replied bytes (after core c sys))
          × (read bytes ≡ ok (envelope texts r))
          × (as_mut core (after core c sys).cores ≡ live c.state)
          × ((q : ℕ) → (q == core) ≡ false → as_mut q (after core c sys).cores ≡ as_mut q sys.cores)
    read-proton_call n core st m raw v sys r c there hm hraw json back readable = (
      into_c texts (envelope texts r),
      asked n core st _ _ m v sys there (cstr_arg-as_bytes m (codes "method") hm)
            (read_params-as_bytes raw v hraw json)
          ∙ dispatched_lem n core st m v sys r c back,
      read-into_c (envelope texts r) readable,
      live-as_mut core _ c.state (as_mut-live core sys.cores st there).0 (ground arith),
      λ q differs. put_others core q (some c.state) sys.cores differs,
    )

    -- What a call is refused for: no core, or arguments that cannot be read.
    pub data Refused (core : ℕ) (method params : CStr) (sys : Sys texts out px)
        : Text → Type 0 where
      no_core :
          {e : Text}
          → as_mut core sys.cores ≡ null
          → e ≡ codes "core is null"
          → Refused core method params sys e
      no_method :
          {e : Text} (st : CoreState px)
          → as_mut core sys.cores ≡ live st
          → cstr_arg texts method (codes "method") ≡ err e
          → Refused core method params sys e
      no_params :
          {e : Text} (st : CoreState px) (m : Text)
          → as_mut core sys.cores ≡ live st
          → cstr_arg texts method (codes "method") ≡ ok m
          → read_params texts params ≡ err e
          → Refused core method params sys e

    -- A refused call says why, and no method runs: every core and the world are as before.
    pub proton_call-Refused :
        (n core : ℕ) (method params : CStr) (sys : Sys texts out px) (e : Text)
        → Refused core method params sys e
        → proton_call texts out px n core method params sys
          ≡ replied (into_c texts (err_value texts e)) sys
    unfolding proton_call
    proton_call-Refused n core method params sys e (no_core there same) =
        rw (there, proton_call) (rw same refl)
    proton_call-Refused n core method params sys e (no_method st there bad) =
        rw (there, proton_call) (rw bad refl)
    proton_call-Refused n core method params sys e (no_params st m there named bad) =
        rw (there, proton_call) (rw (named, bad) refl)

    abbrev pub is_replied : Ended texts out px → Bool
    is_replied (replied bytes sys) = true
    is_replied undefined = false
    is_replied runs_on = false

    dispatched_replies :
        (n core : ℕ) (st : CoreState px) (m : Text) (v : Value) (sys : Sys texts out px)
        → is_some (run_call n m v (record { state = st; world = sys.world })) ≡ true
        → is_replied (dispatched texts out px n core st m v sys) ≡ true
    dispatched_replies n core st m v sys h =
        elim (Option-cases (run_call n m v (record { state = st; world = sys.world }))) [
          | inl dry ↦ cc
          | inr ((r, c), back) ↦ rw (dispatched_lem n core st m v sys r c back) refl
        ]

    -- Every call on a core that is null or alive is answered, whatever its arguments are: a round
    -- for every 250 ms of the timeout, and one more, are enough, if the clock runs and a sleep
    -- lasts.
    pub proton_call_returns :
        (law : HasClock px) (n core : ℕ) (method params : CStr) (sys : Sys texts out px)
        → as_mut core sys.cores ≢ dangling
        → ((v : Value) → read_params texts params ≡ ok v → timeout v ≤ n * 250)
        → is_replied (proton_call texts out px (suc n) core method params sys) ≡ true
    proton_call_returns law n core method params sys alive enough =
        by_core (as_mut core sys.cores) refl
      where
        by_core :
            (ref : Ref (CoreState px))
            → as_mut core sys.cores ≡ ref
            → is_replied (proton_call texts out px (suc n) core method params sys) ≡ true
        by_core null there =
            rw (proton_call-Refused (suc n) core method params sys _ (no_core there refl)) refl
        by_core dangling there = absurd (alive there)
        by_core (live st) there = elim (Result-cases (cstr_arg texts method (codes "method"))) [
          | inl (e, bad) ↦
              rw (proton_call-Refused (suc n) core method params sys e (no_method st there bad))
                refl
          | inr (m, named) ↦ elim (Result-cases (read_params texts params)) [
            | inl (e, bad) ↦
                rw
                  (proton_call-Refused (suc n) core method params sys e
                    (no_params st m there named bad))
                  refl
            | inr (v, given) ↦ rw (asked (suc n) core st method params m v sys there named given) (
                dispatched_replies (suc n) core st m v sys (
                  dispatch_returns out.rewriter out.html2text out.login_params px law n m v _
                    (enough v given)))
          ]
        ]
