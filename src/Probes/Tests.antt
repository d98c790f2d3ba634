-- ===== src/Probes/Tests.antt =====
-- The probes in the small world, whose inbox has one message on each page, with attachments on all
-- pages but the first.
use aerogram.Prelude.{map_some, ℕ, ◌≡◌, refl, some, [], ◌∷◌, codes}
use aerogram.Json.{Value, object, end, field, number, string}
use aerogram.Html.Stream.Tests.{dropper, no_html2text}
use aerogram.Proton.Core.{MessagesResponse}
use aerogram.Proton.Mock.{mock, mail, signed_in, read_params}
use aerogram.Proton.Abi.Tests.{texts}
use aerogram.Probes.{missing, target, with_attachments, find_attached}
use aerogram.Probes.Answers.{find_attached-first_attached}

abbrev row : ℕ → Value
row n =
    object (field (codes "id") (string (codes "m")) (field (codes "attachments") (number n) end))

finds_one : with_attachments (row 0 ∷ row 2 ∷ []) ≡ target (codes "m")
unfolding with_attachments
finds_one = refl

abbrev first_answer : MessagesResponse
first_answer = record { total = 51; messages = mail (codes "m") 0 ∷ [] }

find_attached-first_attached_example :
    map_some (λ x. x.0) (find_attached texts dropper no_html2text read_params mock 0 signed_in)
    ≡ some missing
find_attached-first_attached_example =
    find_attached-first_attached texts dropper no_html2text read_params mock 0 7 first_answer
      (λ w. refl) signed_in refl
