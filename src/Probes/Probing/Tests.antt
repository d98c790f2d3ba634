-- ===== src/Probes/Probing/Tests.antt =====
-- The programs in the small world, and what is printed of headers.
use aerogram.Prelude.{true, ◌≡◌, refl, [], ◌∷◌, codes, arith}
use aerogram.Html.Link.{join, split}
use aerogram.Html.Stream.Tests.{dropper, no_html2text}
use aerogram.Proton.Mock.{mock, signed_in, read_params}
use aerogram.Proton.Abi.Tests.{texts}
use aerogram.Probes.Checks.{aborts, cache_check, sanitize_check, inspect_html, header_check}
use aerogram.Probes.Headers.{header_lines, header_line, lines_of, strip_cr}
use aerogram.Probes.Headers.Hidden.{header_lines-hides}
use aerogram.Probes.Lines.{contains}
use aerogram.Probes.Probing.Unlabelled.{Unlabelled, programs_stop}

programs_stop_example :
    (cache_check texts dropper no_html2text read_params mock 0 signed_in ≡ aborts)
    × (sanitize_check texts dropper no_html2text read_params mock 0 signed_in ≡ aborts)
    × (inspect_html texts dropper no_html2text read_params mock 0 signed_in ≡ aborts)
    × (header_check texts dropper no_html2text read_params mock 0 signed_in ≡ aborts)
    × Unlabelled texts dropper no_html2text read_params mock 0 signed_in
programs_stop_example = programs_stop texts dropper no_html2text read_params mock 0 signed_in

header_lines-hides_example :
    header_lines (join (codes "From: me" ∷ codes "Subject: a" ∷ codes "X-Y: z" ∷ []) b'\n')
    ≡ header_lines (join (codes "From: me" ∷ codes "Subject: b c" ∷ codes "X-Y: z" ∷ []) b'\n')
header_lines-hides_example =
    header_lines-hides (codes "From: me" ∷ []) (codes "X-Y: z" ∷ []) (codes "Subject") (codes " a")
      (codes " b c") (omega arith) (omega arith) (omega arith) refl

finds_tag : contains (codes "a <div>") (codes "<div") ≡ true
unfolding contains
finds_tag = refl

-- A folded line, a name in other letters, and a value between spaces.
some_headers :
    header_lines (codes "Subject: secret\r\n more\r\nContent-TYPE:\t text/html \r\n\r\n")
    ≡ (codes "Subject", codes "…") ∷ (codes "Content-TYPE", codes "text/html") ∷ []
unfolding header_lines header_line lines_of strip_cr split
some_headers = refl
