-- ===== src/Prelude/Utf8.antt =====
-- `str::as_bytes` and `String::from_utf8_lossy`, of Rust's standard library.
pub mod Reading
pub mod Ascii
use Prim.Native.Nat.{ℕ, ◌+◌, ◌-◌, ◌*◌, ◌/◌, ◌%◌}
use mathlib.Core.Path.{◌≡◌, refl}
use mathlib.Core.Bool.{Bool, ◌&&◌}
use mathlib.Core.List.{[], ◌∷◌, ◌++◌}
use aerogram.Prelude.Tests.{ltb, leb, ◌==◌, if◌then◌else◌}
use aerogram.Prelude.Texts.{Text, Bytes, text_eq}
use aerogram.Prelude.Results.{Result, ok, err}

pub char_bytes : ℕ → Bytes
char_bytes c =
    if ltb c 0x80
    then c ∷ []
    else if ltb c 0x800
    then (0xc0 + c / 64) ∷ (0x80 + c % 64) ∷ []
    else if ltb c 0x1_0000
    then (0xe0 + c / 4096) ∷ (0x80 + c / 64 % 64) ∷ (0x80 + c % 64) ∷ []
    else (0xf0 + c / 262144) ∷ (0x80 + c / 4096 % 64) ∷ (0x80 + c / 64 % 64) ∷ (0x80 + c % 64) ∷ []

unfoldable pub as_bytes : Text → Bytes
unfolding char_bytes
as_bytes [] = []
as_bytes (c ∷ s) = char_bytes c ++ as_bytes s

-- Between characters, or in one: the bytes left, the range of the next, and the bits read.
pub data Pending : Type 0 where
  idle : Pending
  want : ℕ → ℕ → ℕ → ℕ → Pending

pub replacement : ℕ
replacement = 0xfffd

pub first_byte : ℕ → Text × Pending
unfolding replacement
first_byte b =
    if ltb b 0x80
    then (b ∷ [], idle)
    else if leb 0xc2 b && leb b 0xdf
    then ([], want 1 0x80 0xbf (b - 0xc0))
    else if b == 0xe0
    then ([], want 2 0xa0 0xbf 0)
    else if b == 0xed
    then ([], want 2 0x80 0x9f 13)
    else if leb 0xe1 b && leb b 0xef
    then ([], want 2 0x80 0xbf (b - 0xe0))
    else if b == 0xf0
    then ([], want 3 0x90 0xbf 0)
    else if leb 0xf1 b && leb b 0xf3
    then ([], want 3 0x80 0xbf (b - 0xf0))
    else if b == 0xf4
    then ([], want 3 0x80 0x8f 4)
    else (replacement ∷ [], idle)

-- A byte out of range ends the character as U+FFFD and begins the next.
pub next_byte : Pending → ℕ → Text × Pending
unfolding first_byte
next_byte idle b = first_byte b
next_byte (want left low high bits) b =
    let bits' = bits * 64 + (b - 0x80) in
    let (out, state) = first_byte b in
    if leb low b && leb b high
    then if left == 1 then (bits' ∷ [], idle) else ([], want (left - 1) 0x80 0xbf bits')
    else (replacement ∷ out, state)

pub lossy : Pending → Bytes → Text
unfolding next_byte
lossy idle [] = []
lossy (want left low high bits) [] = replacement ∷ []
lossy state (b ∷ bs) = let (out, state') = next_byte state b in out ++ lossy state' bs

unfoldable pub from_utf8_lossy : Bytes → Text
unfolding lossy
from_utf8_lossy bytes = lossy idle bytes

-- `str::from_utf8` accepts what reading, with its replacements, does not change.
unfoldable pub is_utf8 : Bytes → Bool
is_utf8 bytes = text_eq (as_bytes (from_utf8_lossy bytes)) bytes

-- Its error is printed as the given message.
unfoldable pub from_utf8 : (Bytes → Text) → Bytes → Result Text Text
unfolding is_utf8
from_utf8 message bytes = if is_utf8 bytes then ok (from_utf8_lossy bytes) else err (message bytes)

-- "aé€" and a laptop; then a cut character.
read_back :
    from_utf8_lossy (as_bytes (0x61 ∷ 0xe9 ∷ 0x20ac ∷ 0x1f4bb ∷ []))
    ≡ 0x61 ∷ 0xe9 ∷ 0x20ac ∷ 0x1f4bb ∷ []
unfolding from_utf8_lossy as_bytes
read_back = refl

cut_short : from_utf8_lossy (0xe2 ∷ 0x82 ∷ 0x61 ∷ []) ≡ 0xfffd ∷ 0x61 ∷ []
unfolding from_utf8_lossy
cut_short = refl
