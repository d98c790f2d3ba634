-- ===== src/Html/Abi.antt =====
-- html-sanitize-core/src/lib.rs, the C ABI: the one-shot calls, and streams behind raw pointers.
-- `none` is undefined behaviour: a pointer that is neither null nor alive.
pub mod Handles
pub mod Tests
use aerogram.Prelude.{
  ℕ, Option, none, some, ◌++◌, Text, Bytes, codes, Result, ok, err, map_err, unwrap_or,
}
use aerogram.Prelude.Utf8.{as_bytes, from_utf8, from_utf8_lossy}
use aerogram.Prelude.CStrings.{CStr, c_string, Strings, free_string}
use aerogram.Prelude.Heap.{Heap, null, dangling, live, as_mut, into_raw, put}
use aerogram.Json.{Value, string, bool, object, field, end}
use aerogram.Html.Stream.{
  RewriterApi, SanitizerStream, new, write, finish, sanitize_for_display, to_plain_text,
  to_reader_html,
}

-- The message of a `Utf8Error`, and `Value::to_string`.
module _ (message : Bytes → Text) (to_string : Value → Text) where
  unfoldable pub cstr_arg : CStr → Text → Result Text Text
  cstr_arg none what = err (what ++ codes " is null")
  cstr_arg (some bytes) what =
      map_err (λ e. what ++ codes " is not UTF-8: " ++ e) (from_utf8 message bytes)

  -- The bytes of the string that is handed out.
  unfoldable pub into_c : Value → Bytes
  into_c value = unwrap_or (c_string (to_string value)) (as_bytes (codes "{\"err\":\"nul byte\"}"))

  abbrev pub err_value : Text → Value
  err_value e = object (field (codes "err") (string e) end)

  module _ (html2text : Bytes → ℕ → Result Text Text) (api : RewriterApi) where
    unfoldable pub sanitize_html : CStr → Bytes
    unfolding cstr_arg
    sanitize_html input = elim (cstr_arg input (codes "input")) [
      | err e ↦ into_c (err_value e)
      | ok html ↦
          let (h, p, blocked) = sanitize_for_display api html2text html in
          into_c (
            object (
              field (codes "html") (string h) (
                field (codes "plain") (string p)
                  (field (codes "blocked_remote") (bool blocked) end))))
    ]

    unfoldable pub html_to_plain : CStr → Bytes
    unfolding cstr_arg
    html_to_plain input = elim (cstr_arg input (codes "input")) [
      | err e ↦ into_c (err_value e)
      | ok html ↦
          into_c (object (field (codes "plain") (string (to_plain_text api html2text html)) end))
    ]

  unfoldable pub reader_html : RewriterApi → CStr → Bytes
  unfolding cstr_arg
  reader_html reader input = elim (cstr_arg input (codes "input")) [
    | ok html ↦ into_c (object (field (codes "html") (string (to_reader_html reader html)) end))
    | err e ↦ into_c (err_value e)
  ]

  module _ (api : RewriterApi) where
    open api use {Rewriter}

    abbrev pub Stream : Type 0
    Stream = SanitizerStream Rewriter

    unfoldable pub sanitize_stream_new : Heap Stream → ℕ × Heap Stream
    sanitize_stream_new h = into_raw (new api) h

    -- What a write does to the stream itself, and its reply.
    unfoldable pub written : CStr → Stream → Bytes × Stream
    unfolding cstr_arg
    written chunk stream = elim (cstr_arg chunk (codes "chunk")) [
      | err _ ↦ (into_c (err_value (codes "chunk not UTF-8")), stream)
      | ok text ↦
          let (stream', r) = write api stream (as_bytes text) in
          (
            elim r [
              | ok fresh ↦
                  into_c (object (field (codes "chunk") (string (from_utf8_lossy fresh)) end))
              | err e ↦ into_c (err_value e)
            ],
            stream',
          )
    ]

    unfoldable pub sanitize_stream_write : ℕ → CStr → Heap Stream → Option (Bytes × Heap Stream)
    unfolding written
    sanitize_stream_write s chunk h = elim (as_mut s h) [
      | null ↦ some (into_c (err_value (codes "stream is null")), h)
      | dangling ↦ none
      | live stream ↦
          let (reply, stream') = written chunk stream in some (reply, put s (some stream') h)
    ]

    unfoldable pub finished : Stream → Bytes
    finished stream = elim (finish api stream).1 [
      | ok (rest, blocked) ↦ into_c (
          object (
            field (codes "chunk") (string (from_utf8_lossy rest))
              (field (codes "blocked_remote") (bool blocked) end)))
      | err e ↦ into_c (err_value e)
    ]

    -- The stream is freed whether it finishes well or not.
    unfoldable pub sanitize_stream_finish : ℕ → Heap Stream → Option (Bytes × Heap Stream)
    unfolding finished
    sanitize_stream_finish s h = elim (as_mut s h) [
      | null ↦ some (into_c (err_value (codes "stream is null")), h)
      | dangling ↦ none
      | live stream ↦ some (finished stream, put s none h)
    ]

    unfoldable pub sanitize_stream_free : ℕ → Heap Stream → Option (Heap Stream)
    sanitize_stream_free s h = elim (as_mut s h) [
      | null ↦ some h
      | dangling ↦ none
      | live _ ↦ some (put s none h)
    ]

unfoldable pub sanitize_free_string : ℕ → Strings → Option Strings
unfolding free_string
sanitize_free_string s strings = free_string s strings
