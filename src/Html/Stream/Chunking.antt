-- ===== src/Html/Stream/Chunking.antt =====
-- The stream and the one-shot call agree, however the input is cut.
use aerogram.Prelude.{
  ℕ, ◌≡◌, refl, sym, ap, ◌∙◌, inl, inr, Bool, false, ◌||◌, Option, none, some, List, [], ◌∷◌, ◌++◌,
  append-nil, arith, Option-cases, length, drop, drop-append, Text, Bytes, Result, ok, err,
}
use aerogram.Prelude.Utf8.{as_bytes, from_utf8_lossy}
use aerogram.Html.Stream.{
  RewriterApi, Fed, SanitizerStream, new, write, finish, sanitize_for_display, to_plain_text,
}

abbrev pub flatten : List Bytes → Bytes
flatten [] = []
flatten (c ∷ cs) = c ++ flatten cs

-- All bytes and the flag, or nothing if there was an error.
abbrev pub Outcome : Type 0
Outcome = Option (Bytes × Bool)

abbrev pub after : Bytes → Bool → Outcome → Outcome
after sunk flagged none = none
after sunk flagged (some (bytes, blocked)) = some (sunk ++ bytes, flagged || blocked)

abbrev pub after_write : Result Text Bytes → Outcome → Outcome
after_write (ok fresh) rest = after fresh false rest
after_write (err _) rest = none

-- The two halves of the one-shot call, if neither fails.
both_parts :
    (w : Result Text Bytes) (f : Result Text (Bytes × Bool)) (bytes : Bytes) (blocked : Bool)
    → after_write w (elim f [ ok p ↦ some p | err _ ↦ none ]) ≡ some (bytes, blocked)
    → let html : Bytes = elim w [ ok c ↦ c | err _ ↦ [] ] in
      let end : Bytes × Bool = elim f [ ok p ↦ p | err _ ↦ ([], false) ] in
      (html ++ end.0 ≡ bytes) × (end.1 ≡ blocked)
both_parts (ok c) (ok p) bytes blocked e = ground arith
both_parts (ok c) (err x) bytes blocked e = ground arith
both_parts (err x) f bytes blocked e = ground arith

module _ (api : RewriterApi) where
  open api use {Rewriter, feed, close}

  abbrev pub ending : Rewriter → Outcome
  ending r = elim (close r).fault [
    | some _ ↦ none
    | none ↦ some ((close r).sunk, (close r).flagged)
  ]

  -- What a rewriter makes of a last input.
  abbrev pub total : Rewriter → Bytes → Outcome
  total r input = elim (feed r input).fault [
    | some _ ↦ none
    | none ↦ after (feed r input).sunk (feed r input).flagged (ending (feed r input).rewriter)
  ]

  -- A streaming rewriter: an input may be fed in two parts, where an error in the first is one of
  -- the whole, and feeding nothing does nothing.
  pub record IsStreaming : Type 0 where
    pub parts :
        (r : Rewriter) (a b : Bytes)
        → total r (a ++ b) ≡ elim (feed r a).fault [
          | some _ ↦ none
          | none ↦ after (feed r a).sunk (feed r a).flagged (total (feed r a).rewriter b)
        ]
    pub nothing : (r : Rewriter) → total r [] ≡ ending r

  -- The loop of a client that reads chunks until there are none: it stops at the first error.
  unfoldable pub collect : SanitizerStream Rewriter → List Bytes → Outcome
  collect s [] = elim (finish api s).1 [ ok p ↦ some p | err _ ↦ none ]
  collect s (c ∷ cs) = let (s', r) = write api s c in let rest = collect s' cs in after_write r rest

  -- A stream between calls, and its rewriter.
  abbrev Runs : SanitizerStream Rewriter → Rewriter → Type 0
  Runs s r = (s.rewriter ≡ some r) × (s.out_read ≡ length s.out)

  fresh-sunk :
      (s : SanitizerStream Rewriter) (sunk : Bytes)
      → s.out_read ≡ length s.out
      → drop s.out_read (s.out ++ sunk) ≡ sunk
  fresh-sunk s sunk read = rw read (drop-append s.out sunk)

  collect_end :
      (s : SanitizerStream Rewriter) (r : Rewriter)
      → Runs s r
      → collect s [] ≡ after [] s.blocked (ending r)
  unfolding collect finish
  collect_end s r (here, read) = ground (arith, fresh-sunk s (close r).sunk read)

  collect_fails :
      (s : SanitizerStream Rewriter) (r : Rewriter) (c : Bytes) (cs : List Bytes) (e : Text)
      → s.rewriter ≡ some r
      → (feed r c).fault ≡ some e
      → collect s (c ∷ cs) ≡ none
  unfolding collect write
  collect_fails s r c cs e here failed = ground arith

  -- The stream after a chunk.
  fed_stream : SanitizerStream Rewriter → Fed Rewriter → SanitizerStream Rewriter
  fed_stream s f = record {
    rewriter = some f.rewriter;
    out = s.out ++ f.sunk;
    out_read = length (s.out ++ f.sunk);
    blocked = s.blocked || f.flagged;
  }

  write_fine :
      (s : SanitizerStream Rewriter) (r : Rewriter) (c : Bytes)
      → Runs s r
      → (feed r c).fault ≡ none
      → write api s c ≡ (fed_stream s (feed r c), ok (feed r c).sunk)
  unfolding write fed_stream
  write_fine s r c (here, read) fine = ground (arith, fresh-sunk s (feed r c).sunk read)

  collect_fed :
      (s : SanitizerStream Rewriter) (r : Rewriter) (c : Bytes) (cs : List Bytes)
      → Runs s r
      → (feed r c).fault ≡ none
      → collect s (c ∷ cs) ≡ after (feed r c).sunk false (collect (fed_stream s (feed r c)) cs)
  unfolding collect
  collect_fed s r c cs runs fine =
      ap (λ (w : SanitizerStream Rewriter × Result Text Bytes). after_write w.1 (collect w.0 cs))
        (write_fine s r c runs fine)

  after-after :
      (sunk : Bytes) (b f : Bool) (rest : Outcome)
      → after sunk false (after [] (b || f) rest) ≡ after [] b (after sunk f rest)
  after-after sunk b f none = refl
  after-after sunk b f (some (bytes, blocked)) = ground arith

  collect_lem :
      (law : IsStreaming) (cs : List Bytes) (s : SanitizerStream Rewriter) (r : Rewriter)
      → Runs s r
      → collect s cs ≡ after [] s.blocked (total r (flatten cs))
  collect_lem law [] s r runs = rw (law.nothing r) (collect_end s r runs)
  collect_lem law (c ∷ cs) s r runs = elim (Option-cases (feed r c).fault) [
    | inl fine ↦ rw (law.parts r c (flatten cs)) (
        rw fine (
          collect_fed s r c cs runs fine
          ∙ ap (after (feed r c).sunk false) (
              collect_lem law cs (fed_stream s (feed r c)) (feed r c).rewriter
                (unfold fed_stream in (refl, refl)))
          ∙ unfold fed_stream in
            after-after (feed r c).sunk s.blocked (feed r c).flagged
              (total (feed r c).rewriter (flatten cs))))
    | inr (e, failed) ↦
        rw (law.parts r c (flatten cs)) (rw failed (collect_fails s r c cs e runs.0 failed))
  ]

  after_plain : (rest : Outcome) → after [] false rest ≡ rest
  after_plain none = refl
  after_plain (some (bytes, blocked)) = refl

  collect-new :
      (law : IsStreaming) (cs : List Bytes) → collect (new api) cs ≡ total api.start (flatten cs)
  collect-new law cs =
      collect_lem law cs (new api) api.start (unfold new in (refl, refl))
      ∙ unfold new in after_plain (total api.start (flatten cs))

  -- What a stream yields does not depend on how its input was cut into chunks.
  pub collect_recut :
      (law : IsStreaming) (cs ds : List Bytes)
      → flatten cs ≡ flatten ds
      → collect (new api) cs ≡ collect (new api) ds
  collect_recut law cs ds e = collect-new law cs ∙ ap (total api.start) e ∙ sym (collect-new law ds)

  module _ (from_read : Bytes → ℕ → Result Text Text) where
    one_shot :
        (input : Text) (bytes : Bytes) (blocked : Bool)
        → collect (new api) (as_bytes input ∷ []) ≡ some (bytes, blocked)
        → sanitize_for_display api from_read input
          ≡ (from_utf8_lossy bytes, to_plain_text api from_read input, blocked)
    unfolding sanitize_for_display collect
    one_shot input bytes blocked e =
        let w = write api (new api) (as_bytes input) in
        let (all, flag) = both_parts w.1 (finish api w.0).1 bytes blocked e in
        λ i. (from_utf8_lossy (all i), to_plain_text api from_read input, flag i)

    -- The one-shot call returns what a client of the stream collects, from the same input in any
    -- chunks.
    pub streaming_matches_one_shot :
        (law : IsStreaming) (input : Text) (cs : List Bytes) (bytes : Bytes) (blocked : Bool)
        → flatten cs ≡ as_bytes input
        → collect (new api) cs ≡ some (bytes, blocked)
        → sanitize_for_display api from_read input
          ≡ (from_utf8_lossy bytes, to_plain_text api from_read input, blocked)
    streaming_matches_one_shot law input cs bytes blocked cut e =
        one_shot input bytes blocked
          (collect_recut law (as_bytes input ∷ []) cs (append-nil (as_bytes input) ∙ sym cut) ∙ e)
