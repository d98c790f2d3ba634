-- ===== src/Probes/Attach/Tests.antt =====
-- `lean_attach` in the small world.
use aerogram.Prelude.{◌≡◌, refl, none, some, [], ◌∷◌, codes}
use aerogram.Prelude.Utf8.{as_bytes}
use aerogram.Html.Stream.Tests.{dropper, no_html2text}
use aerogram.Proton.Mock.{mock, signed_in, read_params}
use aerogram.Proton.Bodies.Tests.{gives_bytes}
use aerogram.Proton.Core.{ProtonCore}
use aerogram.Proton.Abi.Tests.{texts}
use aerogram.Probes.Checks.{ends}
use aerogram.Probes.Attach.{Fetched, head_bytes, id_params, fetch_first}
use aerogram.Probes.Attach.Counted.{Counted, fetch_first-Counted}

cuts_between : head_bytes 3 (codes "abcd") ≡ some (codes "abc")
unfolding head_bytes as_bytes
cuts_between = refl

-- A character of two bytes cannot be cut.
cuts_in : head_bytes 2 (0x61 ∷ 0xe9 ∷ []) ≡ none
unfolding head_bytes as_bytes
cuts_in = refl

fetch_first-Counted_example :
    (f : Fetched) × (d : ProtonCore mock) × (fetch_first texts dropper no_html2text read_params mock
        0
        (id_params (codes "at") ∷ [])
        signed_in
      ≡ ends f d)
    × (d.state ≡ signed_in.state)
    × Counted texts mock signed_in.state (codes "at") f
fetch_first-Counted_example =
    fetch_first-Counted texts dropper no_html2text read_params mock 0 gives_bytes
      (id_params (codes "at")) [] (codes "at") signed_in refl
