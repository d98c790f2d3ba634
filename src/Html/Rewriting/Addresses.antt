-- ===== src/Html/Rewriting/Addresses.antt =====
-- Cleaning does not make a script's address of a link, nor hide one.
use aerogram.Prelude.{
  ◌≡◌, refl, sym, ap, ◌∙◌, inl, inr, ◌&&◌, some, [], ◌∷◌, ℕ, arith, ◌==◌, Bool-cases, Text, codes,
  starts_with, ==_iff,
}
use aerogram.Html.Link.{Lacks, clean_link}
use aerogram.Html.Link.Parts.{link_base}
use aerogram.Html.Link.Stripping.{clean_link-keeps}
use aerogram.Html.Elements.{is_whitespace, trim_start, is_bad}

-- Whether an address is a script's shows in front of the question mark.
starts_with-link_base : (p s : Text) → Lacks b'?' p → starts_with s p ≡ starts_with (link_base s) p
unfolding link_base
starts_with-link_base [] s h = refl
starts_with-link_base (c ∷ p) [] h = refl
starts_with-link_base (c ∷ p) (d ∷ s) (hc, h) = ground (arith, starts_with-link_base p s h)

trim_start-link_base :
    (c : ℕ) (p s : Text)
    → Lacks b'?' (c ∷ p)
    → starts_with (trim_start s) (c ∷ p) ≡ starts_with (trim_start (link_base s)) (c ∷ p)
unfolding link_base
trim_start-link_base c p [] h = refl
trim_start-link_base c p (d ∷ s) (hc, h) = elim (Bool-cases (d == b'?')) [
  | inl mark ↦ rw ((==_iff d b'?').0 mark) (ground arith)
  | inr other ↦ elim (Bool-cases (is_whitespace d)) [
    | inl space ↦ rw (link_base, other, space) (trim_start-link_base c p s (hc, h))
    | inr letter ↦
        rw (link_base, other, letter) (ap (λ b. (d == c) && b) (starts_with-link_base p s h))
  ]
]

script_url-clean_link :
    (href c : Text)
    → clean_link href ≡ some c
    → starts_with (trim_start c) (codes "javascript:")
      ≡ starts_with (trim_start href) (codes "javascript:")
script_url-clean_link href c e =
    trim_start-link_base b'j' (codes "avascript:") c (omega arith)
    ∙ ap (λ s. starts_with (trim_start s) (codes "javascript:")) (clean_link-keeps href c e).0
    ∙ sym (trim_start-link_base b'j' (codes "avascript:") href (omega arith))

pub is_bad-clean_link :
    (href c : Text)
    → clean_link href ≡ some c
    → is_bad (codes "href", c) ≡ is_bad (codes "href", href)
unfolding is_bad
is_bad-clean_link href c e = script_url-clean_link href c e
