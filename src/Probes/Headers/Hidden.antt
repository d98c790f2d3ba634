-- ===== src/Probes/Headers/Hidden.antt =====
-- Which values of a message's headers header_check keeps to itself.
use aerogram.Prelude.{◌≡◌, refl, sym, ap, ◌∙◌, false, List, [], ◌∷◌, ◌++◌, All, Text}
use aerogram.Html.Link.{Lacks, split, next, join}
use aerogram.Html.Link.Parts.{split_piece, split-join}
use aerogram.Probes.Headers.{
  is_empty, strip_cr, lines_of, is_shown, header_line, add_line, printed_of, header_lines,
}

strip_cr-piece : (name v : Text) → strip_cr (name ++ b':' ∷ v) ≡ name ++ b':' ∷ strip_cr v
unfolding strip_cr
strip_cr-piece [] [] = refl
strip_cr-piece [] (c ∷ v) = refl
strip_cr-piece (c ∷ []) v = ap (◌∷◌ c) (strip_cr-piece [] v)
strip_cr-piece (c ∷ d ∷ name) v = ap (◌∷◌ c) (strip_cr-piece (d ∷ name) v)

-- A line with a name whose value is not shown.
header_line-hides :
    (name v w : Text)
    → Lacks b':' name
    → is_shown name ≡ false
    → header_line (name ++ b':' ∷ v) ≡ header_line (name ++ b':' ∷ w)
unfolding header_line next
header_line-hides [] v w h hidden = refl
header_line-hides (c ∷ name) v w h hidden =
    rw (split_piece b':' (c ∷ name) v h) (rw (split_piece b':' (c ∷ name) w h) (rw hidden refl))

-- Two lines of which the same is printed, wherever they stand.
record SameLine (x y : Text) : Type 0 where
  plain : header_line x ≡ header_line y
  stripped : header_line (strip_cr x) ≡ header_line (strip_cr y)
  filled_x : is_empty x ≡ false
  filled_y : is_empty y ≡ false

is_empty-piece : (name v : Text) → is_empty (name ++ b':' ∷ v) ≡ false
is_empty-piece [] v = refl
is_empty-piece (c ∷ name) v = refl

piece-SameLine :
    (name v w : Text)
    → Lacks b':' name
    → is_shown name ≡ false
    → SameLine (name ++ b':' ∷ v) (name ++ b':' ∷ w)
piece-SameLine name v w h hidden = record {
  plain = header_line-hides name v w h hidden;
  stripped =
      ap header_line (strip_cr-piece name v)
      ∙ header_line-hides name (strip_cr v) (strip_cr w) h hidden
      ∙ sym (ap header_line (strip_cr-piece name w));
  filled_x = is_empty-piece name v;
  filled_y = is_empty-piece name w;
}

printed_of-lines_of :
    (ls ms : List Text) (x y : Text)
    → SameLine x y
    → printed_of (lines_of (ls ++ x ∷ ms)) ≡ printed_of (lines_of (ls ++ y ∷ ms))
unfolding lines_of
printed_of-lines_of [] [] x y same =
    rw (same.filled_x, same.filled_y) (ap (λ o. add_line o []) same.plain)
printed_of-lines_of [] (m ∷ ms) x y same =
    ap (λ o. add_line o (printed_of (lines_of (m ∷ ms)))) same.stripped
printed_of-lines_of (l ∷ []) ms x y same =
    ap (add_line (header_line (strip_cr l))) (printed_of-lines_of [] ms x y same)
printed_of-lines_of (l ∷ k ∷ ls) ms x y same =
    ap (add_line (header_line (strip_cr l))) (printed_of-lines_of (k ∷ ls) ms x y same)

split-lines :
    (ls ms : List Text) (x : Text)
    → All (Lacks b'\n') (ls ++ x ∷ ms)
    → split b'\n' (join (ls ++ x ∷ ms) b'\n') ≡ ls ++ x ∷ ms
split-lines [] ms x h = split-join x ms b'\n' h
split-lines (l ∷ ls) ms x h = split-join l (ls ++ x ∷ ms) b'\n' h

-- Of a header whose name is neither "content-type" nor "mime-version", in any case, no part of its
-- value is printed, wherever it stands among the lines: with another value in its place, the same
-- is printed.
pub header_lines-hides :
    (ls ms : List Text) (name v w : Text)
    → All (Lacks b'\n') (ls ++ (name ++ b':' ∷ v) ∷ ms)
    → All (Lacks b'\n') (ls ++ (name ++ b':' ∷ w) ∷ ms)
    → Lacks b':' name
    → is_shown name ≡ false
    → header_lines (join (ls ++ (name ++ b':' ∷ v) ∷ ms) b'\n')
      ≡ header_lines (join (ls ++ (name ++ b':' ∷ w) ∷ ms) b'\n')
unfolding header_lines
header_lines-hides ls ms name v w one other h hidden =
    rw (split-lines ls ms (name ++ b':' ∷ v) one) (
      rw (split-lines ls ms (name ++ b':' ∷ w) other)
        (printed_of-lines_of ls ms _ _ (piece-SameLine name v w h hidden)))
