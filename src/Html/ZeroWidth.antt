-- ===== src/Html/ZeroWidth.antt =====
-- html-sanitize-core/src/lib.rs, the `doc_text!` handler: zero-width padding stripped from text.
pub mod Tests
use mathlib.Core.Path.{subst}
use aerogram.Prelude.{
  ◌⊎◌, inl, inr, Bool-cases, sym, List, map, or_false, ℕ, ◌≡◌, refl, ap, ◌∙◌, Bool, true, false,
  ◌||◌, not, [], ◌∷◌, ◌++◌, Text, any, keep_if, keep_if-append, ◌==◌, if◌then◌else◌, arith,
}

-- U+200B, U+200C, U+034F, U+2060 and U+FEFF.
abbrev pub is_padding : ℕ → Bool
is_padding c = (c == 0x200b) || (c == 0x200c) || (c == 0x034f) || (c == 0x2060) || (c == 0xfeff)

-- What the text chunk is after the handler.
unfoldable pub on_text : Text → Text
on_text s = if any is_padding s then keep_if (λ c. not (is_padding c)) s else s

keep_if_none : (s : Text) → any is_padding s ≡ false → keep_if (λ c. not (is_padding c)) s ≡ s
keep_if_none [] h = refl
keep_if_none (c ∷ s) h =
    let (this, rest) = or_false (is_padding c) (any is_padding s) h in
    rw this (ap (◌∷◌ c) (keep_if_none s rest))

-- The test in front only saves work.
on_text-keep_if : (s : Text) → on_text s ≡ keep_if (λ c. not (is_padding c)) s
unfolding on_text
on_text-keep_if s = ground (arith, keep_if_none s)

-- The handler may be given a text in chunks, cut anywhere.
pub on_text-append : (s t : Text) → on_text (s ++ t) ≡ on_text s ++ on_text t
on_text-append s t =
    rw (on_text-keep_if (s ++ t), on_text-keep_if s, on_text-keep_if t) (keep_if-append _ s t)

-- The code points of zero-width characters that pad a preheader: the zero-width space, the
-- non-joiner, the grapheme joiner, the word joiner and the byte order mark.
abbrev pub IsZeroWidth : ℕ → Type 0
IsZeroWidth c = (c ≡ 8203) ⊎ ((c ≡ 8204) ⊎ ((c ≡ 847) ⊎ ((c ≡ 8288) ⊎ (c ≡ 65279))))

-- The second text is the first without its zero-width characters, with all others in their order.
pub data Strips : Text → Text → Type 0 where
  done : Strips [] []
  dropped : {c : ℕ} {s t : Text} → IsZeroWidth c → Strips s t → Strips (c ∷ s) t
  kept : {c : ℕ} {s t : Text} → ¬ IsZeroWidth c → Strips s t → Strips (c ∷ s) (c ∷ t)

padding-IsZeroWidth : (c : ℕ) → is_padding c ≡ true → IsZeroWidth c
padding-IsZeroWidth c h = ground arith

other-IsZeroWidth : (c : ℕ) → is_padding c ≡ false → ¬ IsZeroWidth c
other-IsZeroWidth c h z = ground arith

keep_if-Strips : (s : Text) → Strips s (keep_if (λ c. not (is_padding c)) s)
keep_if-Strips [] = done
keep_if-Strips (c ∷ s) = elim (Bool-cases (is_padding c)) [
  | inl padding ↦ rw padding (dropped (padding-IsZeroWidth c padding) (keep_if-Strips s))
  | inr other ↦ rw other (kept (other-IsZeroWidth c other) (keep_if-Strips s))
]

-- The text that the chunks make.
abbrev pub whole_text : List Text → Text
whole_text [] = []
whole_text (s ∷ chunks) = s ++ whole_text chunks

on_text-whole_text :
    (chunks : List Text) → on_text (whole_text chunks) ≡ whole_text (map on_text chunks)
unfolding on_text
on_text-whole_text [] = refl
on_text-whole_text (s ∷ chunks) =
    on_text-append s (whole_text chunks) ∙ ap (λ t. on_text s ++ t) (on_text-whole_text chunks)

-- A text that the handler is given in chunks, cut anywhere, comes out without its zero-width
-- characters and otherwise as it was: every other character, joiners and variation selectors too,
-- in its order.
pub on_text-Strips :
    (chunks : List Text) → Strips (whole_text chunks) (whole_text (map on_text chunks))
on_text-Strips chunks =
    subst (Strips (whole_text chunks))
      (sym (on_text-keep_if (whole_text chunks)) ∙ on_text-whole_text chunks)
      (keep_if-Strips (whole_text chunks))
