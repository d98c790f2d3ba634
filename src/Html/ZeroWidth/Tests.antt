-- ===== src/Html/ZeroWidth/Tests.antt =====
-- Runs of the text handler, and its theorems at concrete texts.
use aerogram.Prelude.{◌≡◌, refl, Text, ◌∷◌, []}
use aerogram.Html.ZeroWidth.{on_text, Strips, on_text-Strips}

-- A man, a joiner, a padding character, a laptop.
abbrev emoji : Text
emoji = 0x1f468 ∷ 0x200d ∷ 0x200b ∷ 0x1f4bb ∷ []

joiner_survives : on_text emoji ≡ 0x1f468 ∷ 0x200d ∷ 0x1f4bb ∷ []
unfolding on_text
joiner_survives = refl

-- The emoji is cut behind its joiner.
on_text-Strips_example : Strips emoji (0x1f468 ∷ 0x200d ∷ 0x1f4bb ∷ [])
unfolding on_text
on_text-Strips_example = on_text-Strips ((0x1f468 ∷ 0x200d ∷ []) ∷ (0x200b ∷ 0x1f4bb ∷ []) ∷ [])
