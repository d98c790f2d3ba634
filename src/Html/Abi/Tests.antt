-- ===== src/Html/Abi/Tests.antt =====
-- Two streams at once, with a small rewriter and replies in plain text.
use aerogram.Prelude.{
  ℕ, ◌≡◌, refl, none, some, List, [], ◌∷◌, arith, ◌==◌, if◌then◌else◌, Text, Bytes, codes,
  unwrap_or,
}
use aerogram.Prelude.CStrings.{c_string}
use aerogram.Prelude.Utf8.{as_bytes, from_utf8, is_utf8, from_utf8_lossy}
use aerogram.Prelude.Heap.{Heap, as_mut, into_raw}
use aerogram.Json.{Value, get_str}
use aerogram.Html.Stream.{SanitizerStream, new, write}
use aerogram.Html.Stream.Tests.{dropper}
use aerogram.Html.Abi.{
  cstr_arg, into_c, written, sanitize_stream_new, sanitize_stream_write, sanitize_stream_free,
}
use aerogram.Html.Abi.Handles.{
  Call, opens, writes, frees, Reply, handle, content, nothing, run, alone, own, own_replies, Holds,
}
use aerogram.Html.Abi.Handles.Alone.{run-alone}

abbrev plain : Value → Text
plain v = unwrap_or (get_str (codes "chunk") v) (unwrap_or (get_str (codes "err") v) [])

abbrev no_message : Bytes → Text
no_message bytes = []

abbrev Streams : Type 0
Streams = Heap (SanitizerStream ℕ)

abbrev one_open : Streams
one_open = record { next = 1; cells = λ q. if q == 1 then some (new dropper) else none }

abbrev session : List Call
session =
    writes 1 (some (codes "a<b"))
    ∷ opens
    ∷ writes 2 (some (codes "other"))
    ∷ writes 0 (some (codes "x"))
    ∷ frees 2
    ∷ writes 1 (some (codes "c<"))
    ∷ []

abbrev replies : List Reply
replies =
    content (codes "ab")
    ∷ handle 2
    ∷ content (codes "other")
    ∷ content (codes "stream is null")
    ∷ nothing
    ∷ content (codes "c")
    ∷ []

abbrev last_heap : Streams
last_heap = elim (run no_message plain dropper one_open session) [
  | none ↦ one_open
  | some out ↦ out.1
]

session_runs : run no_message plain dropper one_open session ≡ some (replies, last_heap)
unfolding run sanitize_stream_new sanitize_stream_write sanitize_stream_free as_mut into_raw
    cstr_arg from_utf8 is_utf8 as_bytes from_utf8_lossy written write new into_c c_string
session_runs = refl

one_open-Holds : Holds no_message plain dropper 1 (new dropper) one_open
one_open-Holds = record { not_null = refl; here = refl; bounded = λ p above. ground arith }

run-alone_example :
    own_replies no_message plain dropper 1 session replies
    ≡ (alone no_message plain dropper (new dropper) (own no_message plain dropper 1 session)).0
run-alone_example =
    (run-alone no_message plain dropper 1 session (new dropper) one_open last_heap replies
      (refl, (refl, (refl, (refl, (refl, (refl, tt)))))) one_open-Holds session_runs).1

-- A write through a freed handle is undefined.
use_after_free : run no_message plain dropper one_open (frees 1 ∷ writes 1 (some []) ∷ []) ≡ none
unfolding run sanitize_stream_write sanitize_stream_free as_mut
use_after_free = refl
