-- ===== src/Html/Stream/Tests.antt =====
-- A streaming rewriter that drops every `<`, and the theorems on the stream at it.
use aerogram.Prelude.{
  ℕ, ◌≡◌, refl, Bool, true, false, ◌||◌, not, none, List, [], ◌∷◌, ◌++◌, append_assoc, arith, ◌==◌,
  take, keep_if, any, Text, Bytes, codes, Result, err,
}
use aerogram.Prelude.Utf8.{as_bytes, from_utf8_lossy}
use aerogram.Html.Stream.{
  SanitizerStream, RewriterApi, new, write, finish, sanitize_for_display, to_plain_text,
}
use aerogram.Html.Stream.Delivery.{
  Call, writes, finishes, run, step, run_delivers, finish_once, Completed,
}
use aerogram.Html.Stream.Chunking.{IsStreaming, collect, streaming_matches_one_shot}
use aerogram.Prelude.{keep_if-append}

abbrev pub dropper : RewriterApi
dropper = record {
  Rewriter = ℕ;
  start = 0;
  feed = λ n chunk. record {
    rewriter = n;
    sunk = keep_if (λ b. not (b == b'<')) chunk;
    flagged = any (λ b. b == b'<') chunk;
    fault = none;
  };
  close = λ n. record { sunk = []; flagged = false; fault = none };
}

any-append : (p : ℕ → Bool) (xs ys : List ℕ) → any p (xs ++ ys) ≡ (any p xs || any p ys)
any-append p [] ys = refl
any-append p (x ∷ xs) ys = ground (arith, any-append p xs ys)

dropper-IsStreaming : IsStreaming dropper
dropper-IsStreaming = record {
  parts = λ r a b. ground (
    arith,
    any-append (λ b. b == b'<') a b,
    keep_if-append (λ b. not (b == b'<')) a b,
    append_assoc (keep_if (λ b. not (b == b'<')) a) (keep_if (λ b. not (b == b'<')) b) [],
  );
  nothing = λ r. refl;
}

abbrev pub no_html2text : Bytes → ℕ → Result Text Text
no_html2text input width = err (codes "unsupported")

abbrev calls : List Call
calls = writes (codes "a<b") ∷ writes (codes "c") ∷ finishes ∷ writes (codes "d") ∷ []

calls-run : (run dropper (new dropper) calls).1 ≡ codes "abc"
unfolding run step write finish new
calls-run = refl

run_delivers_example :
    (run dropper (new dropper) calls).1
    ≡ take (run dropper (new dropper) calls).0.out_read (run dropper (new dropper) calls).0.out
run_delivers_example = (run_delivers dropper calls).0

streaming_matches_one_shot_example :
    sanitize_for_display dropper no_html2text (codes "a<b")
    ≡ (from_utf8_lossy (codes "ab"), to_plain_text dropper no_html2text (codes "a<b"), true)
unfolding collect write finish new as_bytes
streaming_matches_one_shot_example =
    streaming_matches_one_shot dropper no_html2text dropper-IsStreaming (codes "a<b")
      (codes "a" ∷ codes "<b" ∷ []) (codes "ab") true refl refl

-- One chunk is in.
abbrev half : SanitizerStream ℕ
half = (write dropper (new dropper) (codes "a<b")).0

finish_once_example :
    Completed dropper (codes "ab") (finish dropper half)
    × (write dropper (finish dropper half).0 (codes "c")
        ≡ ((finish dropper half).0, err (codes "write after finish")))
    × (finish dropper (finish dropper half).0
        ≡ ((finish dropper half).0, err (codes "finish called twice")))
unfolding write new
finish_once_example = finish_once dropper half (codes "ab") (codes "c") (refl, omega arith)
