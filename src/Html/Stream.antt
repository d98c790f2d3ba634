-- ===== src/Html/Stream.antt =====
-- html-sanitize-core/src/lib.rs, `SanitizerStream` and the one-shot calls over it. The rewriter of
-- lol_html is a parameter, with the handlers of `build_rewriter` inside; so is html2text.
pub mod Delivery
pub mod Chunking
pub mod Tests
use aerogram.Prelude.{
  ℕ, ◌-◌, Bool, false, ◌||◌, Option, none, some, [], ◌++◌, length, drop, Text, Bytes, codes, Result,
  ok, err,
}
use aerogram.Prelude.Utf8.{as_bytes, from_utf8_lossy}

-- What one call of the rewriter does: its next state, the bytes that it hands to the sink, whether
-- a handler set the blocked flag, and the error it ends with, as `{e:?}` prints it.
pub record Fed (R : Type 0) : Type 0 where
  pub rewriter : R
  pub sunk : Bytes
  pub flagged : Bool
  pub fault : Option Text

-- `end` consumes the rewriter.
pub record Closed : Type 0 where
  pub sunk : Bytes
  pub flagged : Bool
  pub fault : Option Text

pub record RewriterApi : Type 1 where
  pub Rewriter : Type 0
  pub start : Rewriter
  pub feed : Rewriter → Bytes → Fed Rewriter
  pub close : Rewriter → Closed

pub record SanitizerStream (R : Type 0) : Type 0 where
  pub rewriter : Option R
  pub out : Bytes
  pub out_read : ℕ
  pub blocked : Bool

module _ (api : RewriterApi) where
  open api use {Rewriter, start, feed, close}

  unfoldable pub new : SanitizerStream Rewriter
  new = record { rewriter = some start; out = []; out_read = 0; blocked = false }

  unfoldable pub write :
      SanitizerStream Rewriter → Bytes → SanitizerStream Rewriter × Result Text Bytes
  write s chunk = elim s.rewriter [
    | none ↦ (s, err (codes "write after finish"))
    | some r ↦
        let f = feed r chunk in
        let out' = s.out ++ f.sunk in
        let blocked' = s.blocked || f.flagged in
        elim f.fault [
          | some e ↦ (
            record s { rewriter = some f.rewriter; out = out'; blocked = blocked' },
            err (codes "sanitize stream write: " ++ e),
          )
          | none ↦ (
            record {
              rewriter = some f.rewriter;
              out = out';
              out_read = length out';
              blocked = blocked';
            },
            ok (drop s.out_read out'),
          )
        ]
  ]

  unfoldable pub finish :
      SanitizerStream Rewriter → SanitizerStream Rewriter × Result Text (Bytes × Bool)
  finish s = elim s.rewriter [
    | none ↦ (s, err (codes "finish called twice"))
    | some r ↦
        let c = close r in
        let out' = s.out ++ c.sunk in
        let blocked' = s.blocked || c.flagged in
        elim c.fault [
          | some e ↦ (
            record s { rewriter = none; out = out'; blocked = blocked' },
            err (codes "sanitize stream end: " ++ e),
          )
          | none ↦ (
            record { rewriter = none; out = out'; out_read = length out'; blocked = blocked' },
            ok (drop s.out_read out', blocked'),
          )
        ]
  ]

  -- `html2text::from_read`, by the input's bytes and a width.
  module _ (from_read : Bytes → ℕ → Result Text Text) where
    unfoldable pub to_plain_text : Text → Text
    to_plain_text input = elim (from_read (as_bytes input) 80) [ ok plain ↦ plain | err _ ↦ input ]

    unfoldable pub sanitize_for_display : Text → Text × Text × Bool
    unfolding to_plain_text
    sanitize_for_display input =
        let (s, written) = write new (as_bytes input) in
        let html : Bytes = elim written [ ok c ↦ c | err _ ↦ [] ] in
        let (_, finished) = finish s in
        let end : Bytes × Bool = elim finished [ ok p ↦ p | err _ ↦ ([], false) ] in
        (from_utf8_lossy (html ++ end.0), to_plain_text input, end.1)

  -- The Reader's call, over a rewriter with the Reader's handlers: errors are passed over.
  unfoldable pub to_reader_html : Text → Text
  to_reader_html input =
      let f = feed start (as_bytes input) in from_utf8_lossy (f.sunk ++ (close f.rewriter).sunk)
