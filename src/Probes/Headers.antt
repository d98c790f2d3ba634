-- ===== src/Probes/Headers.antt =====
-- proton-core/src/bin/header_check.rs, what it prints of a message's headers: their names, and the
-- values of two of them.
pub mod Hidden
use aerogram.Prelude.{
  ℕ, Bool, true, false, ◌&&◌, ◌||◌, ◌==◌, leb, Option, none, some, List, [], ◌∷◌, if◌then◌else◌,
  Text, codes, text_eq, unwrap_or, length, Bytes, Result,
}
use aerogram.Prelude.Utf8.{as_bytes}
use aerogram.Json.{Value}
use aerogram.Html.Stream.{RewriterApi}
use aerogram.Proton.Core.{ProtonApi}
use aerogram.Proton.Auth.{LoginParams}
use aerogram.Proton.Abi.{Texts}
use aerogram.Probes.Checks.{◌>>=◌, pure, header_check, Program}
use aerogram.Html.Elements.{is_whitespace, trim_start}
use aerogram.Html.Link.{split, next, to_ascii_lowercase}

abbrev pub is_empty : Text → Bool
is_empty [] = true
is_empty (c ∷ s) = false

-- A carriage return before the line's end.
unfoldable pub strip_cr : Text → Text
strip_cr [] = []
strip_cr (c ∷ []) = if c == 0x0d then [] else c ∷ []
strip_cr (c ∷ d ∷ s) = c ∷ strip_cr (d ∷ s)

-- `str::lines` from the pieces between line feeds: an empty last one is none.
unfoldable pub lines_of : List Text → List Text
unfolding strip_cr
lines_of [] = []
lines_of (s ∷ []) = if is_empty s then [] else s ∷ []
lines_of (s ∷ t ∷ ts) = strip_cr s ∷ lines_of (t ∷ ts)

unfoldable pub trim_end : Text → Text
trim_end [] = []
trim_end (c ∷ s) =
    let rest = trim_end s in if is_whitespace c && is_empty rest then [] else c ∷ rest

-- `splitn(2, c).nth(1)`
unfoldable pub behind : ℕ → Text → Option Text
behind c [] = none
behind c (d ∷ s) = if d == c then some s else behind c s

abbrev pub is_ascii_alphabetic : ℕ → Bool
is_ascii_alphabetic c = (leb b'A' c && leb c b'Z') || (leb b'a' c && leb c b'z')

abbrev pub starts_alphabetic : Text → Bool
starts_alphabetic [] = false
starts_alphabetic (c ∷ s) = is_ascii_alphabetic c

-- The two names whose values are printed, in any case.
abbrev pub is_shown : Text → Bool
is_shown name =
    text_eq (to_ascii_lowercase name) (codes "content-type")
    || text_eq (to_ascii_lowercase name) (codes "mime-version")

-- A line's name and value; "…" in place of the others.
unfoldable pub header_line : Text → Option (Text × Text)
unfolding split next trim_end behind
header_line line =
    let name = unwrap_or (next (split b':' line)) [] in
    let value =
      if is_shown name
      then trim_end (trim_start (unwrap_or (behind b':' line) []))
      else codes "…" in
    if starts_alphabetic line then some (name, value) else none

abbrev pub add_line : Option (Text × Text) → List (Text × Text) → List (Text × Text)
add_line none ls = ls
add_line (some l) ls = l ∷ ls

abbrev pub printed_of : List Text → List (Text × Text)
printed_of [] = []
printed_of (l ∷ ls) = let rest = printed_of ls in add_line (header_line l) rest

unfoldable pub header_lines : Text → List (Text × Text)
unfolding lines_of split
header_lines hdr = printed_of (lines_of (split b'\n' hdr))

module _ (texts : Texts) (html : RewriterApi) (from_read : Bytes → ℕ → Result Text Text)
    (from_value : Value → Result Text LoginParams) (px : ProtonApi) (fuel : ℕ) where
  -- How long the headers are, and their lines.
  unfoldable pub header_report :
      Program texts html from_read from_value px fuel (ℕ × List (Text × Text))
  unfolding header_lines
  header_report = do
    hdr ← header_check texts html from_read from_value px fuel
    pure (length (as_bytes hdr), header_lines hdr)
