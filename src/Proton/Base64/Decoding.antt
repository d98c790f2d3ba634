-- ===== src/Proton/Base64/Decoding.antt =====
-- Base64 as RFC 4648 reads it, and that it reads back what `base64_encode` writes.
use aerogram.Prelude.{
  ℕ, ◌+◌, ◌-◌, ◌*◌, ◌/◌, ◌%◌, ◌^◌, ◌<◌, ◌≡◌, refl, ap, true, false, ◌&&◌, Option, none, some, [],
  ◌∷◌, ◌++◌, Bytes, Text, leb, ◌==◌, if◌then◌else◌, arith, sym, ◌∙◌, unwrap_or, get_elem?,
  every_under, every_under-lookup, ==_iff, not-true, and_true,
}
use mathlib.Core.Bool.{not}
use mathlib.Core.Option
use aerogram.Prelude.Bits.{bit_or_beside, bit_and_ones}
use aerogram.Proton.Base64.{alphabet, shl, shr, digit, word}
use aerogram.Prelude.{List}
use aerogram.Proton.Base64.{base64_encode, chunks, group, groups}
use aerogram.Prelude.{All, append-nil, length}
use aerogram.Prelude.{append_assoc}

-- The number that a character of the alphabet stands for.
unfoldable pub digit_value : ℕ → ℕ
digit_value c =
    if leb b'A' c && leb c b'Z'
    then c - b'A'
    else if leb b'a' c && leb c b'z'
    then c - b'a' + 26
    else if leb b'0' c && leb c b'9'
    then c - b'0' + 52
    else if c == b'+'
    then 62
    else 63

-- The bytes of a quantum of four characters, by its padding.
unfoldable pub quantum : ℕ → ℕ → ℕ → ℕ → Bytes
quantum c₀ c₁ c₂ c₃ =
    let first = digit_value c₀ * 4 + digit_value c₁ / 16 in
    let second = digit_value c₁ % 16 * 16 + digit_value c₂ / 4 in
    let third = digit_value c₂ % 4 * 64 + digit_value c₃ in
    if c₂ == b'='
    then first ∷ []
    else if c₃ == b'='
    then first ∷ second ∷ []
    else first ∷ second ∷ third ∷ []

unfoldable pub decode : Text → Option Bytes
unfolding quantum digit_value
decode [] = some []
decode (c₀ ∷ []) = none
decode (c₀ ∷ c₁ ∷ []) = none
decode (c₀ ∷ c₁ ∷ c₂ ∷ []) = none
decode (c₀ ∷ c₁ ∷ c₂ ∷ c₃ ∷ rest) = Option.map (λ bs. quantum c₀ c₁ c₂ c₃ ++ bs) (decode rest)

digit_table : every_under (λ n. (digit_value (digit n) == n) && (not (digit n == b'='))) 64 ≡ true
unfolding digit_value digit every_under
digit_table = refl

digit-mod : (n : ℕ) → digit n ≡ digit (n % 64)
unfolding digit
digit-mod n =
    ap (λ i. unwrap_or (get_elem? alphabet i) 0)
      (bit_and_ones 6 n ∙ omega arith ∙ sym (bit_and_ones 6 (n % 64)))

-- A character of the alphabet stands for its place there, and none is the padding.
digit_lem : (n : ℕ) → (digit_value (digit n) ≡ n % 64) × ((digit n == b'=') ≡ false)
digit_lem n =
    let (value, other) =
      and_true _ _ (every_under-lookup _ 64 digit_table (n % 64) (omega arith)) in
    rw (digit-mod n) ((==_iff _ _).0 value, not-true _ other)

shl_16 : (a : ℕ) → a < 256 → shl a 16 ≡ a * 2 ^ 16
shl_16 a h = omega arith

shl_8 : (a : ℕ) → a < 256 → shl a 8 ≡ a * 2 ^ 8
shl_8 a h = omega arith

two_bytes : (a b : ℕ) → a < 256 → b < 256 → word (a ∷ b ∷ []) ≡ a * 65536 + b * 256
unfolding word
two_bytes a b ha hb =
    rw (shl_16 a ha, shl_8 b hb, bit_or_beside 16 a (b * 2 ^ 8) (omega arith)) refl

three_bytes :
    (a b c : ℕ) → a < 256 → b < 256 → c < 256 → word (a ∷ b ∷ c ∷ []) ≡ a * 65536 + b * 256 + c
unfolding word
three_bytes a b c ha hb hc =
    rw (shl_16 a ha, shl_8 b hb, bit_or_beside 16 a (b * 2 ^ 8) (omega arith))
      (rw (high a b) (bit_or_beside 8 (a * 256 + b) c hc ∙ omega arith))
  where
    high : (a b : ℕ) → a * 2 ^ 16 + b * 2 ^ 8 ≡ (a * 256 + b) * 2 ^ 8
    high a b = omega arith

-- The characters of a word's four sextets, read back.
quantum-one :
    (n : ℕ) → n < 2 ^ 24 → quantum (digit (shr n 18)) (digit (shr n 12)) b'=' b'=' ≡ n / 65536 ∷ []
unfolding quantum
quantum-one n h = ground (arith, digit_lem (shr n 18), digit_lem (shr n 12))

quantum-two :
    (n : ℕ)
    → n < 2 ^ 24
    → quantum (digit (shr n 18)) (digit (shr n 12)) (digit (shr n 6)) b'='
      ≡ n / 65536 ∷ n / 256 % 256 ∷ []
unfolding quantum
quantum-two n h = ground (arith, digit_lem (shr n 18), digit_lem (shr n 12), digit_lem (shr n 6))

quantum-three :
    (n : ℕ)
    → n < 2 ^ 24
    → quantum (digit (shr n 18)) (digit (shr n 12)) (digit (shr n 6)) (digit n)
      ≡ n / 65536 ∷ n / 256 % 256 ∷ n % 256 ∷ []
unfolding quantum
quantum-three n h =
    ground (arith, digit_lem (shr n 18), digit_lem (shr n 12), digit_lem (shr n 6), digit_lem n)

-- One chunk written and read back, whatever characters follow.
module _ (rest : Text) where
  decode_one :
      (a : ℕ)
      → a < 256
      → decode (group (a ∷ []) ++ rest) ≡ Option.map (λ bs. (a ∷ []) ++ bs) (decode rest)
  unfolding decode group word
  decode_one a ha =
      ap (λ (q : Bytes). Option.map (λ bs. q ++ bs) (decode rest))
        (quantum-one (shl a 16) (omega arith) ∙ ap (λ (b : ℕ). b ∷ []) (omega arith))

  decode_two :
      (a b : ℕ)
      → a < 256
      → b < 256
      → decode (group (a ∷ b ∷ []) ++ rest) ≡ Option.map (λ bs. (a ∷ b ∷ []) ++ bs) (decode rest)
  unfolding decode group
  decode_two a b ha hb = rw (two_bytes a b ha hb) (
      ap (λ (q : Bytes). Option.map (λ bs. q ++ bs) (decode rest)) {y = a ∷ b ∷ []}
        (quantum-two (a * 65536 + b * 256) (omega arith) ∙ ground arith))

  decode_three :
      (a b c : ℕ)
      → a < 256
      → b < 256
      → c < 256
      → decode (group (a ∷ b ∷ c ∷ []) ++ rest)
        ≡ Option.map (λ bs. (a ∷ b ∷ c ∷ []) ++ bs) (decode rest)
  unfolding decode group
  decode_three a b c ha hb hc = rw (three_bytes a b c ha hb hc) (
      ap (λ (q : Bytes). Option.map (λ bs. q ++ bs) (decode rest)) {y = a ∷ b ∷ c ∷ []}
        (quantum-three (a * 65536 + b * 256 + c) (omega arith) ∙ ground arith))

concat : List Bytes → Text
concat [] = []
concat (chunk ∷ rest) = group chunk ++ concat rest

groups-concat : (cs : List Bytes) (out : Text) → groups cs out ≡ out ++ concat cs
unfolding groups concat
groups-concat [] out = sym (append-nil out)
groups-concat (c ∷ cs) out = simp (groups-concat cs, append_assoc)

decode-chunks :
    (bytes : Bytes) → All (λ b. b < 256) bytes → decode (concat (chunks bytes)) ≡ some bytes
unfolding chunks concat
decode-chunks [] h = unfold decode in refl
decode-chunks (a ∷ []) (ha, _) = decode_one [] a ha ∙ unfold decode in refl
decode-chunks (a ∷ b ∷ []) (ha, (hb, _)) = decode_two [] a b ha hb ∙ unfold decode in refl
decode-chunks (a ∷ b ∷ c ∷ rest) (ha, (hb, (hc, h))) =
    rw (decode_three (concat (chunks rest)) a b c ha hb hc, decode-chunks rest h) refl

-- Whatever bytes an attachment holds, its Base64 text reads back as those bytes.
pub decode-base64_encode :
    (bytes : Bytes) → All (λ b. b < 256) bytes → decode (base64_encode bytes) ≡ some bytes
unfolding base64_encode
decode-base64_encode bytes h = rw (groups-concat (chunks bytes) []) (decode-chunks bytes h)

length-concat : (bytes : Bytes) → length (concat (chunks bytes)) ≡ (length bytes + 2) / 3 * 4
unfolding chunks concat group
length-concat [] = refl
length-concat (a ∷ []) = refl
length-concat (a ∷ b ∷ []) = refl
length-concat (a ∷ b ∷ c ∷ rest) = omega (arith, length-concat rest)

-- The text has exactly the length that the code reserves.
pub length-base64_encode :
    (bytes : Bytes) → length (base64_encode bytes) ≡ (length bytes + 2) / 3 * 4
unfolding base64_encode
length-base64_encode bytes = rw (groups-concat (chunks bytes) []) (length-concat bytes)
