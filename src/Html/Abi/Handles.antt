-- ===== src/Html/Abi/Handles.antt =====
-- A client that holds several streams sees each as an object of its own.
pub mod Steps
pub mod Alone
use aerogram.Prelude.{
  map_some, ℕ, ◌≡◌, refl, Bool, false, Option, none, some, List, [], ◌∷◌, arith, ◌==◌,
  if◌then◌else◌, Text, Bytes, codes,
}
use aerogram.Prelude.CStrings.{CStr}
use aerogram.Prelude.Heap.{Heap, null, dangling, live, as_mut, into_raw, put, IsBounded}
use aerogram.Json.{Value}
use aerogram.Html.Stream.{RewriterApi, SanitizerStream, new}
use aerogram.Html.Abi.{
  sanitize_stream_new, written, sanitize_stream_write, finished, sanitize_stream_finish,
  sanitize_stream_free, into_c, err_value,
}

pub data Call : Type 0 where
  opens : Call
  writes : ℕ → CStr → Call
  finishes : ℕ → Call
  frees : ℕ → Call

pub data Reply : Type 0 where
  handle : ℕ → Reply
  content : Bytes → Reply
  nothing : Reply

module _ (message : Bytes → Text) (to_string : Value → Text) (api : RewriterApi) where
  open api use {Rewriter}

  abbrev Streams : Type 0
  Streams = Heap (SanitizerStream Rewriter)

  unfoldable pub step : Streams → Call → Option (Reply × Streams)
  unfolding sanitize_stream_new
  step h opens = let (p, h') = sanitize_stream_new message to_string api h in some (handle p, h')
  step h (writes p chunk) =
      map_some (λ out. (content out.0, out.1))
        (sanitize_stream_write message to_string api p chunk h)
  step h (finishes p) =
      map_some (λ out. (content out.0, out.1)) (sanitize_stream_finish message to_string api p h)
  step h (frees p) = map_some (λ h'. (nothing, h')) (sanitize_stream_free message to_string api p h)

  -- The replies in order, unless a call is undefined.
  unfoldable pub run : Streams → List Call → Option (List Reply × Streams)
  unfolding step
  run h [] = some ([], h)
  run h (c ∷ cs) = elim (step h c) [
    | none ↦ none
    | some (r, h') ↦ map_some (λ out. (r ∷ out.0, out.1)) (run h' cs)
  ]

  step_opens :
      (h : Streams)
      → step h opens ≡ some (handle (into_raw (new api) h).0, (into_raw (new api) h).1)
  unfolding step sanitize_stream_new
  step_opens h = refl

  -- The calls on a handle by what the handle is.
  step_writes :
      (q : ℕ) (chunk : CStr) (h : Streams)
      → step h (writes q chunk) ≡ elim (as_mut q h) [
        | null ↦ some (
          content (into_c message to_string (err_value message to_string (codes "stream is null"))),
          h,
        )
        | dangling ↦ none
        | live stream ↦ some (
          content (written message to_string api chunk stream).0,
          put q (some (written message to_string api chunk stream).1) h,
        )
      ]
  unfolding step sanitize_stream_write
  step_writes q chunk h = ground arith

  step_finishes :
      (q : ℕ) (h : Streams)
      → step h (finishes q) ≡ elim (as_mut q h) [
        | null ↦ some (
          content (into_c message to_string (err_value message to_string (codes "stream is null"))),
          h,
        )
        | dangling ↦ none
        | live stream ↦ some (content (finished message to_string api stream), put q none h)
      ]
  unfolding step sanitize_stream_finish
  step_finishes q h = ground arith

  step_frees :
      (q : ℕ) (h : Streams)
      → step h (frees q) ≡ elim (as_mut q h) [
        | null ↦ some (nothing, h)
        | dangling ↦ none
        | live stream ↦ some (nothing, put q none h)
      ]
  unfolding step sanitize_stream_free
  step_frees q h = ground arith

  -- What the calls on one handle would do to a stream of its own.
  unfoldable pub alone :
      SanitizerStream Rewriter → List CStr → List Reply × SanitizerStream Rewriter
  alone s [] = ([], s)
  alone s (chunk ∷ chunks) =
      let (reply, s') = written message to_string api chunk s in
      let (replies, s'') = alone s' chunks in (content reply ∷ replies, s'')

  module _ (p : ℕ) where
    -- The chunks that are written to the handle, and the replies to these calls.
    unfoldable pub own : List Call → List CStr
    own [] = []
    own (writes q chunk ∷ cs) = if q == p then chunk ∷ own cs else own cs
    own (opens ∷ cs) = own cs
    own (finishes q ∷ cs) = own cs
    own (frees q ∷ cs) = own cs

    unfoldable pub own_replies : List Call → List Reply → List Reply
    own_replies [] rs = []
    own_replies (c ∷ cs) [] = []
    own_replies (writes q chunk ∷ cs) (r ∷ rs) =
        if q == p then r ∷ own_replies cs rs else own_replies cs rs
    own_replies (opens ∷ cs) (r ∷ rs) = own_replies cs rs
    own_replies (finishes q ∷ cs) (r ∷ rs) = own_replies cs rs
    own_replies (frees q ∷ cs) (r ∷ rs) = own_replies cs rs

    -- No call ends the handle.
    abbrev pub ends : Call → Bool
    ends opens = false
    ends (writes q chunk) = false
    ends (finishes q) = q == p
    ends (frees q) = q == p

    -- The handle is alive, in a heap that gives out new addresses only.
    pub record Holds (s : SanitizerStream Rewriter) (h : Streams) : Type 0 where
      pub not_null : (p == 0) ≡ false
      pub here : h.cells p ≡ some s
      pub bounded : IsBounded h
