-- ===== src/Probes/Checks/Tests.antt =====
-- The four programs in the small world, and their loops on ids that are numbers.
use aerogram.Prelude.{◌≡◌, refl, some, [], ◌∷◌}
use aerogram.Html.Stream.Tests.{dropper, no_html2text}
use aerogram.Proton.Mock.{mock, signed_in, read_params}
use aerogram.Proton.Abi.Tests.{texts}
use aerogram.Probes.Checks.{◌>>=◌, ends, pure, each_message, body_params}
use aerogram.Json.{null}

passes_over :
    each_message texts dropper no_html2text read_params mock 0
      (λ mid. pure (some mid))
      (null ∷ body_params 4 ∷ [])
      signed_in
    ≡ ends (some 4) signed_in
unfolding each_message ◌>>=◌
passes_over = refl
