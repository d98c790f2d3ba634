-- ===== src/Prelude/Utf8/Ascii.antt =====
-- How many bytes a text is: one for each character if they are all ASCII.
use Prim.Native.Nat.{ℕ, suc, ◌+◌, ◌≤◌}
use mathlib.Core.Path.{◌≡◌, refl, ap}
use mathlib.Core.Bool.{true}
use mathlib.Core.List.{[], ◌∷◌}
use native.Mathlib.Omega.{arith}
use aerogram.Prelude.Tests.{ltb}
use aerogram.Prelude.Lists.{All, length, length-append}
use aerogram.Prelude.Texts.{Text}
use aerogram.Prelude.Utf8.{as_bytes, char_bytes}

abbrev pub IsAscii : Text → Type 0
IsAscii = All (λ c. ltb c 0x80 ≡ true)

pub length-as_bytes : (s : Text) → IsAscii s → length (as_bytes s) ≡ length s
unfolding as_bytes char_bytes
length-as_bytes [] all = refl
length-as_bytes (c ∷ s) all = rw (all.0) (ap suc (length-as_bytes s all.1))

pub bytes_of_cons :
    (c : ℕ) (s : Text)
    → length (as_bytes (c ∷ s)) ≡ length (as_bytes (c ∷ [])) + length (as_bytes s)
unfolding as_bytes
bytes_of_cons c s =
    omega (arith, length-append (char_bytes c) (as_bytes s), length-append (char_bytes c) [])

pub bytes_of_one : (c : ℕ) → 1 ≤ length (as_bytes (c ∷ []))
unfolding as_bytes char_bytes
bytes_of_one c = ground arith

pub bytes_of_none : length (as_bytes []) ≡ 0
unfolding as_bytes
bytes_of_none = refl
