-- ===== src/Probes/Shell/Strings.antt =====
-- The string of a reply, from the call that makes it to its end.
use aerogram.Prelude.{ℕ, ◌≤◌, ◌≡◌, refl, ap, ◌∙◌, false, none, some, All, arith, Text, Bytes}
use aerogram.Prelude.CStrings.{c_string, has_nul, free_string}
use aerogram.Prelude.Utf8.{as_bytes, from_utf8_lossy}
use aerogram.Prelude.Utf8.Reading.{IsScalar, from_utf8_lossy-as_bytes}
use aerogram.Prelude.Heap.{
  Heap, as_mut, live, into_raw, put, IsBounded, into_raw-IsBounded, put-IsBounded, live-as_mut,
}
use aerogram.Json.{Value}
use aerogram.Proton.Core.{ProtonApi}
use aerogram.Proton.Abi.{
  Texts, Outside, ContextApi, into_c, proton_call, replied, proton_free_string,
}
use aerogram.Proton.Abi.Calls.{IsReadable}
use aerogram.Proton.Abi.Memory.{calls, frees_string, said, nothing, step}
use aerogram.Proton.Abi.Memory.Books.{not_null-into_raw, cells-into_raw, into_raw_fresh}
use aerogram.Probes.Checks.{ends}
use aerogram.Probes.Checks.Asked.{after_ends}
use aerogram.Proton.Abi.{Sys}
use aerogram.Probes.Shell.{Mem, request, text_at, call_text}

-- A text that can be handed over.
pub record IsArgument (s : Text) : Type 0 where
  pub scalar : All IsScalar s
  pub no_nul : has_nul s ≡ false

pub c_string-as_bytes : (s : Text) → IsArgument s → c_string s ≡ some (as_bytes s)
unfolding c_string
c_string-as_bytes s a = rw a.no_nul refl

module _ (texts : Texts) where
  into_c-as_bytes : (v : Value) → IsReadable texts v → into_c texts v ≡ as_bytes (texts.to_string v)
  unfolding into_c c_string
  into_c-as_bytes v r = rw r.no_nul refl

  module _ (out : Outside) (px : ProtonApi) (cx : ContextApi texts out px) (fuel : ℕ) (core : ℕ)
      (method params : Text) (v : Value) (sys' : Sys texts out px)
      (m : Mem texts out px cx fuel) where
    -- A call that replied with a value, and left the system like this.
    abbrev Replied : Type 0
    Replied =
        proton_call texts out px fuel core (some (as_bytes method)) (some (as_bytes params)) m.sys
        ≡ replied (into_c texts v) sys'

    abbrev reply_at : ℕ
    reply_at = (into_raw (into_c texts v) m.strings).0

    abbrev held : Mem texts out px cx fuel
    held = record { sys = sys'; strings = (into_raw (into_c texts v) m.strings).1 }

    abbrev pub freed : Mem texts out px cx fuel
    freed = record {
      sys = sys';
      strings = put reply_at none (into_raw (into_c texts v) m.strings).1;
    }

    requested :
        Replied
        → request texts out px cx fuel
            (calls core (some (as_bytes method)) (some (as_bytes params)))
            m
          ≡ ends (said reply_at (into_c texts v)) held
    unfolding request step
    requested called = rw (called, request) refl

    reply_live : as_mut reply_at held.strings ≡ live (into_c texts v)
    reply_live =
        live-as_mut _ _ _ (not_null-into_raw (into_c texts v) m.strings)
          (cells-into_raw (into_c texts v) m.strings reply_at ∙ (ground arith))

    read_reply :
        IsReadable texts v
        → text_at texts out px cx fuel reply_at held ≡ ends (texts.to_string v) held
    unfolding text_at
    read_reply readable =
        rw (reply_live, text_at)
          (ap (λ s. ends s held)
            (ap from_utf8_lossy (into_c-as_bytes v readable)
              ∙ from_utf8_lossy-as_bytes (texts.to_string v) readable.scalar))

    free_reply : request texts out px cx fuel (frees_string reply_at) held ≡ ends nothing freed
    unfolding request step proton_free_string free_string
    free_reply = rw (reply_live, request) refl

    -- The text of a reply that can be read, and its string freed.
    pub call_text_lem :
        Replied
        → IsArgument method
        → IsArgument params
        → IsReadable texts v
        → call_text texts out px cx fuel core method params m ≡ ends (texts.to_string v) freed
    unfolding call_text
    call_text_lem called named given readable =
        after_ends _ _ (as_bytes method) m m (rw (c_string-as_bytes method named) refl)
        ∙ after_ends _ _ (as_bytes params) m m (rw (c_string-as_bytes params given) refl)
        ∙ after_ends _ _ _ m held (requested called)
        ∙ after_ends _ _ _ held held (read_reply readable)
        ∙ after_ends _ _ nothing held freed free_reply

    pub freed-IsBounded : IsBounded m.strings → IsBounded freed.strings
    freed-IsBounded bounded =
        put-IsBounded reply_at none _ (reply_low m.strings)
          (into_raw-IsBounded (into_c texts v) m.strings bounded)
      where
        reply_low :
            (s : Heap Bytes)
            → (into_raw (into_c texts v) s).0 ≤ (into_raw (into_c texts v) s).1.next
        reply_low s = unfold into_raw in omega arith

    pub freed_cells : IsBounded m.strings → (q : ℕ) → freed.strings.cells q ≡ m.strings.cells q
    freed_cells bounded q = ground (
      arith,
      cells-into_raw (into_c texts v) m.strings q,
      into_raw_fresh (into_c texts v) m.strings bounded,
    )
