-- ===== src/Proton/Abi/Tests.antt =====
-- Calls over the C ABI in the small world, with a notation for one-field objects in place of JSON.
use aerogram.Prelude.{
  ℕ, ◌≡◌, refl, false, none, some, [], ◌∷◌, ◌++◌, arith, ◌==◌, if◌then◌else◌, Text, Bytes, codes,
  Result, ok,
}
use aerogram.Prelude.Utf8
use aerogram.Prelude.Utf8.{as_bytes}
use aerogram.Prelude.Heap.{live, as_mut}
use aerogram.Json.{Value, object, field, end, string, array, cons, nil}
use aerogram.Json.Shapes.{fits}
use aerogram.Proton.Auth.{state_addr, state_only}
use aerogram.Proton.Dispatch.{Method}
use aerogram.Proton.Dispatch.Answers.{Fits, signed_shape, waiting_shape, answer_shape}
use aerogram.Proton.Abi.Replies.{reply_shape, proton_call-Fits}
use aerogram.Html.Stream.Tests.{dropper, no_html2text}
use aerogram.Proton.Mock.{mock, fresh}
use aerogram.Proton.Mock
use aerogram.Proton.Dispatch.{dispatch}
use aerogram.Proton.Abi.{
  Texts, Outside, cstr_arg, into_c, envelope, read_params, Sys, replied, proton_call,
}
use aerogram.Proton.Abi.Calls.{IsReadable, read, after, read-proton_call}

abbrev print : Value → Text
print (object (field k (string s) end)) = k ++ b':' ∷ s
print v = []

abbrev scan : Text → Text → Value
scan k [] = object end
scan k (c ∷ s) =
    let later = scan (k ++ c ∷ []) s in if c == b':' then object (field k (string s) end) else later

abbrev pub texts : Texts
texts = record { to_string = print; from_str = λ s. ok (scan [] s); utf8_message = λ bytes. [] }

abbrev pub outside : Outside
outside = record { rewriter = dropper; html2text = no_html2text; login_params = Mock.read_params }

abbrev sys : Sys texts outside mock
sys = record {
  cores = record { next = 1; cells = λ q. if q == 1 then some fresh.state else none };
  world = 0;
}

abbrev pong : Result Text Value
pong = ok (string (codes "pong"))

pong-IsReadable : IsReadable texts (envelope texts pong)
pong-IsReadable = record { reads = refl; scalar = omega arith; no_nul = refl }

read-proton_call_example :
    (bytes : Bytes) × (proton_call texts outside mock 0 1
        (some (codes "ping"))
        (some (codes "{}"))
        sys
      ≡ replied bytes (after texts outside mock 1 fresh sys))
    × (read texts bytes ≡ ok (envelope texts pong))
    × (as_mut 1 (after texts outside mock 1 fresh sys).cores ≡ live fresh.state)
    × ((q : ℕ)
        → (q == 1) ≡ false
        → as_mut q (after texts outside mock 1 fresh sys).cores ≡ as_mut q sys.cores)
unfolding as_bytes
read-proton_call_example =
    read-proton_call texts outside mock 0 1 fresh.state (codes "ping") (codes "{}") (object end) sys
      pong fresh (unfold as_mut in refl) (omega arith) (omega arith) refl (unfold dispatch in refl)
      pong-IsReadable

proton_call-Fits_example :
    (v : Value) × (into_c texts (envelope texts pong) ≡ into_c texts v)
    × Fits (reply_shape (ok (codes "ping"))) v
unfolding as_bytes cstr_arg as_mut Utf8.from_utf8 Utf8.from_utf8_lossy read_params dispatch
proton_call-Fits_example =
    proton_call-Fits texts outside mock 0 1 (some (codes "ping")) (some (codes "{}")) sys
      (after texts outside mock 1 fresh sys) (into_c texts (envelope texts pong))
      (unfold proton_call in refl)

-- A shape is no weaker than it looks: a field of another kind, one too many and one too few.
shapes_refuse :
    (fits signed_shape (state_addr (codes "totp") (codes "me@proton.me")) ≡ false)
    × (fits waiting_shape (state_addr (codes "totp") (codes "me@proton.me")) ≡ false)
    × (fits signed_shape (state_only (codes "ok")) ≡ false)
    × (fits (answer_shape Method.list_labels) (array (cons (state_only (codes "ok")) nil)) ≡ false)
unfolding fits
shapes_refuse = (refl, refl, refl, refl)
