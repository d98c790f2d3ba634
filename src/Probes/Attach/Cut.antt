-- ===== src/Probes/Attach/Cut.antt =====
-- Where `head_bytes` cuts a text.
use aerogram.Prelude.{
  ℕ, ◌+◌, ◌-◌, ◌<◌, ◌≤◌, ◌≡◌, refl, ap, ◌⊎◌, inl, inr, arith, leb, Bool-cases, Option, none, some,
  [], ◌∷◌, ◌++◌, length, Text,
}
use aerogram.Prelude.Utf8.{as_bytes}
use aerogram.Prelude.Utf8.Ascii.{bytes_of_cons, bytes_of_one, bytes_of_none}
use aerogram.Probes.Attach.{head_bytes}

abbrev pub size : Text → ℕ
size s = length (as_bytes s)

-- The first n bytes, or the whole text if it is no longer; or a character that they end in.
abbrev pub IsCut : ℕ → Text → Option Text → Type 0
IsCut n t (some h) = (r : Text) × (t ≡ h ++ r) × ((size h ≡ n) ⊎ ((r ≡ []) × (size h ≤ n)))
IsCut n t none =
    (h : Text) × (c : ℕ) × (r : Text) × (t ≡ h ++ c ∷ r)
    × (size h < n)
    × (n < size h + size (c ∷ []))

later_IsCut :
    (n c : ℕ) (s : Text) (o : Option Text)
    → size (c ∷ []) ≤ n
    → IsCut (n - size (c ∷ [])) s o
    → IsCut n (c ∷ s) (let q : Option Text = elim o [ none ↦ none | some t ↦ some (c ∷ t) ] in q)
later_IsCut n c s (some h) fits (r, whole, inl full) =
    (r, ap (◌∷◌ c) whole, inl (omega (arith, bytes_of_cons c h)))
later_IsCut n c s (some h) fits (r, whole, inr (ended, below)) =
    (r, ap (◌∷◌ c) whole, inr (ended, omega (arith, bytes_of_cons c h)))
later_IsCut n c s none fits (h, d, r, whole, below, above) = (
  c ∷ h,
  d,
  r,
  ap (◌∷◌ c) whole,
  omega (arith, bytes_of_cons c h, bytes_of_one c),
  omega (arith, bytes_of_cons c h),
)

pub head_bytes-IsCut : (n : ℕ) (t : Text) → IsCut n t (head_bytes n t)
unfolding head_bytes
head_bytes-IsCut n [] = ([], refl, inr (refl, omega (arith, bytes_of_none)))
head_bytes-IsCut n (c ∷ s) = elim (Bool-cases (leb n 0)) [
  | inl over ↦
      let there : size [] ≡ n = ground (arith, bytes_of_none) in rw over (c ∷ s, refl, inl there)
  | inr more ↦ elim (Bool-cases (leb (size (c ∷ [])) n)) [
    | inl fits ↦
        let within : size (c ∷ []) ≤ n = ground arith in
        rw (more, fits)
          (later_IsCut n c s (head_bytes (n - size (c ∷ [])) s) within
            (head_bytes-IsCut (n - size (c ∷ [])) s))
    | inr cut ↦
        let below : size [] < n = ground (arith, bytes_of_none) in
        let above : n < size [] + size (c ∷ []) = ground arith in
        rw (more, cut) ([], c, s, refl, below, above)
  ]
]
