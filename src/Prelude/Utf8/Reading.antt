-- ===== src/Prelude/Utf8/Reading.antt =====
-- What `as_bytes` writes is read back: for every scalar value, and so for every text.
use Prim.Native.Nat.{ℕ, ◌+◌, ◌-◌, ◌*◌, ◌/◌, ◌%◌, ◌≤◌, ◌<◌}
use mathlib.Core.Path.{◌≡◌, refl, ◌∙◌, ap}
use mathlib.Core.Logic.{◌⊎◌, inl, inr}
use mathlib.Core.List.{[], ◌∷◌, ◌++◌}
use native.Mathlib.Omega.{arith}
use aerogram.Prelude.Tests.{◌==◌, if◌then◌else◌}
use aerogram.Prelude.Lists.{All}
use aerogram.Prelude.Results.{ok}
use aerogram.Prelude.Utf8.{is_utf8, from_utf8}
use aerogram.Prelude.Texts.{text_eq_refl, Text, Bytes}
use aerogram.Prelude.Utf8.{
  char_bytes, as_bytes, Pending, idle, want, first_byte, next_byte, lossy, from_utf8_lossy,
}

-- Unicode's scalar values: Rust's `char`.
abbrev pub IsScalar : ℕ → Type 0
IsScalar c = (c < 0xd800) ⊎ ((0xe000 ≤ c) × (c < 0x11_0000))

first_of_two : (q : ℕ) → 2 ≤ q → q < 32 → first_byte (0xc0 + q) ≡ ([], want 1 0x80 0xbf q)
unfolding first_byte
first_of_two q low high = ground arith

-- The bytes that may follow the first of three.
first_of_three :
    (q : ℕ)
    → q < 16
    → first_byte (0xe0 + q)
      ≡ ([], want 2 (if q == 0 then 0xa0 else 0x80) (if q == 13 then 0x9f else 0xbf) q)
unfolding first_byte
first_of_three q high = ground arith

first_of_four :
    (q : ℕ)
    → q < 5
    → first_byte (0xf0 + q)
      ≡ ([], want 3 (if q == 0 then 0x90 else 0x80) (if q == 4 then 0x8f else 0xbf) q)
unfolding first_byte
first_of_four q high = ground arith

last_byte :
    (low high bits d : ℕ) (rest : Bytes)
    → low ≤ 0x80 + d
    → 0x80 + d ≤ high
    → lossy (want 1 low high bits) ((0x80 + d) ∷ rest) ≡ (bits * 64 + d) ∷ lossy idle rest
unfolding lossy next_byte
last_byte low high bits d rest p q = ground arith

middle_byte :
    (left low high bits d : ℕ) (rest : Bytes)
    → 1 < left
    → low ≤ 0x80 + d
    → 0x80 + d ≤ high
    → lossy (want left low high bits) ((0x80 + d) ∷ rest)
      ≡ lossy (want (left - 1) 0x80 0xbf (bits * 64 + d)) rest
unfolding lossy next_byte
middle_byte left low high bits d rest more p q = ground arith

begin :
    (b : ℕ) (state : Pending) (rest : Bytes)
    → first_byte b ≡ ([], state)
    → lossy idle (b ∷ rest) ≡ lossy state rest
unfolding lossy next_byte
begin b state rest e = ground arith

one_byte : (c : ℕ) (rest : Bytes) → c < 0x80 → lossy idle (c ∷ rest) ≡ c ∷ lossy idle rest
unfolding lossy next_byte first_byte
one_byte c rest h = ground arith

two_bytes :
    (c : ℕ) (rest : Bytes)
    → 0x80 ≤ c
    → c < 0x800
    → lossy idle ((0xc0 + c / 64) ∷ (0x80 + c % 64) ∷ rest) ≡ c ∷ lossy idle rest
two_bytes c rest p q =
    begin _ _ _ (first_of_two (c / 64) (omega arith) (omega arith))
    ∙ last_byte 0x80 0xbf (c / 64) (c % 64) rest (omega arith) (omega arith)
    ∙ ap (λ (d : ℕ). d ∷ lossy idle rest) (let e : c / 64 * 64 + c % 64 ≡ c = omega arith in e)

three_bytes :
    (c : ℕ) (rest : Bytes)
    → IsScalar c
    → 0x800 ≤ c
    → c < 0x1_0000
    → lossy idle ((0xe0 + c / 4096) ∷ (0x80 + c / 64 % 64) ∷ (0x80 + c % 64) ∷ rest)
      ≡ c ∷ lossy idle rest
three_bytes c rest scalar p q =
    begin _ _ _ (first_of_three (c / 4096) (omega arith))
    ∙ middle_byte 2 _ _ (c / 4096) (c / 64 % 64) _ (omega arith) (ground arith) (ground arith)
    ∙ last_byte 0x80 0xbf (c / 4096 * 64 + c / 64 % 64) (c % 64) rest (omega arith) (omega arith)
    ∙ ap (λ (d : ℕ). d ∷ lossy idle rest)
        (let e : (c / 4096 * 64 + c / 64 % 64) * 64 + c % 64 ≡ c = omega arith in e)

four_bytes :
    (c : ℕ) (rest : Bytes)
    → 0x1_0000 ≤ c
    → c < 0x11_0000
    → lossy idle (
        (0xf0 + c / 262144)
        ∷ (0x80 + c / 4096 % 64)
        ∷ (0x80 + c / 64 % 64)
        ∷ (0x80 + c % 64)
        ∷ rest)
      ≡ c ∷ lossy idle rest
four_bytes c rest p q =
    begin _ _ _ (first_of_four (c / 262144) (omega arith))
    ∙ middle_byte 3 _ _ (c / 262144) (c / 4096 % 64) _ (omega arith) (ground arith) (ground arith)
    ∙ middle_byte 2 0x80 0xbf (c / 262144 * 64 + c / 4096 % 64) (c / 64 % 64) _ (omega arith)
        (omega arith) (omega arith)
    ∙ last_byte 0x80 0xbf ((c / 262144 * 64 + c / 4096 % 64) * 64 + c / 64 % 64) (c % 64) rest
        (omega arith) (omega arith)
    ∙ ap (λ (d : ℕ). d ∷ lossy idle rest)
        (let e : ((c / 262144 * 64 + c / 4096 % 64) * 64 + c / 64 % 64) * 64 + c % 64 ≡ c =
            omega arith in
          e)

scalar_bound : (c : ℕ) → IsScalar c → c < 0x11_0000
scalar_bound c (inl h) = omega arith
scalar_bound c (inr h) = omega arith

lossy-char_bytes :
    (c : ℕ) (rest : Bytes) → IsScalar c → lossy idle (char_bytes c ++ rest) ≡ c ∷ lossy idle rest
unfolding char_bytes
lossy-char_bytes c rest scalar =
    let bound = scalar_bound c scalar in
    ground (arith, one_byte c rest, two_bytes c rest, three_bytes c rest scalar, four_bytes c rest)

-- A text's bytes read as the text.
pub from_utf8_lossy-as_bytes : (s : Text) → All IsScalar s → from_utf8_lossy (as_bytes s) ≡ s
unfolding from_utf8_lossy as_bytes
from_utf8_lossy-as_bytes [] h = unfold lossy in refl
from_utf8_lossy-as_bytes (c ∷ s) (hc, h) =
    lossy-char_bytes c (as_bytes s) hc
    ∙ ap (λ (t : Text). c ∷ t) (unfold from_utf8_lossy in (from_utf8_lossy-as_bytes s h))

-- So every text is valid UTF-8, and is read as itself.
pub from_utf8-as_bytes :
    (message : Bytes → Text) (s : Text) → All IsScalar s → from_utf8 message (as_bytes s) ≡ ok s
unfolding from_utf8 is_utf8
from_utf8-as_bytes message s h =
    rw (from_utf8_lossy-as_bytes s h) (rw (text_eq_refl (as_bytes s)) refl)
