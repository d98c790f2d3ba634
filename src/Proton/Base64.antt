-- ===== src/Proton/Base64.antt =====
-- proton-core/src/lib.rs, `base64_encode`.
pub mod Decoding
pub mod Ascii
pub mod Tests
use aerogram.Prelude.{
  ℕ, ◌*◌, ◌/◌, ◌%◌, ◌^◌, List, [], ◌∷◌, ◌++◌, Bytes, Text, codes, length, ltb, if◌then◌else◌,
  unwrap_or, bit_and, bit_or, get_elem?,
}

-- Shifts of a `u32`.
abbrev pub shl : ℕ → ℕ → ℕ
shl n k = n * 2 ^ k % 2 ^ 32

abbrev pub shr : ℕ → ℕ → ℕ
shr n k = n / 2 ^ k

abbrev pub alphabet : Text
alphabet = codes "ABCDEFGHIJKLMNOPQRSTUVWXYZabcdefghijklmnopqrstuvwxyz0123456789+/"

-- `T[n as usize & 63] as char`; the index is always in range.
unfoldable pub digit : ℕ → ℕ
digit n = unwrap_or (get_elem? alphabet (bit_and n 63)) 0

-- `chunk[i]`, read only below the chunk's length.
abbrev pub byte : Bytes → ℕ → ℕ
byte chunk i = unwrap_or (get_elem? chunk i) 0

-- The bytes of a chunk in one word.
unfoldable pub word : Bytes → ℕ
word chunk =
    let n = shl (byte chunk 0) 16 in
    let n' = if ltb 1 (length chunk) then bit_or n (shl (byte chunk 1) 8) else n in
    if ltb 2 (length chunk) then bit_or n' (byte chunk 2) else n'

-- The four characters that a chunk is written as.
unfoldable pub group : Bytes → Text
group chunk =
    let n = word chunk in
    digit (shr n 18)
    ∷ digit (shr n 12)
    ∷ (if ltb 1 (length chunk) then digit (shr n 6) else b'=')
    ∷ (if ltb 2 (length chunk) then digit n else b'=')
    ∷ []

-- `bytes.chunks(3)`.
unfoldable pub chunks : Bytes → List Bytes
chunks [] = []
chunks (a ∷ []) = (a ∷ []) ∷ []
chunks (a ∷ b ∷ []) = (a ∷ b ∷ []) ∷ []
chunks (a ∷ b ∷ c ∷ rest) = (a ∷ b ∷ c ∷ []) ∷ chunks rest

groups : List Bytes → Text → Text
groups [] out = out
groups (chunk ∷ rest) out = groups rest (out ++ group chunk)

unfoldable pub base64_encode : Bytes → Text
unfolding chunks group groups word digit
base64_encode bytes = groups (chunks bytes) []
