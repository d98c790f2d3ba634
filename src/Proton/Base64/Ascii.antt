-- ===== src/Proton/Base64/Ascii.antt =====
-- The characters of Base64 are single bytes in UTF-8.
use aerogram.Prelude.{
  ℕ, Bool, zero, suc, ◌≡◌, refl, true, false, ltb, if◌then◌else◌, List, [], ◌∷◌, ◌++◌, All-append,
  All-keep_if, length, Bytes, Text, unwrap_or, get_elem?, bit_and,
}
use aerogram.Prelude.Utf8.{as_bytes}
use aerogram.Prelude.Utf8.Ascii.{IsAscii, length-as_bytes}
use aerogram.Proton.Base64.{alphabet, word, digit, shr, group, groups, chunks, base64_encode}

IsAscii-get_elem? :
    (i : ℕ) (xs : Text) → IsAscii xs → ltb (unwrap_or (get_elem? xs i) 0) 0x80 ≡ true
IsAscii-get_elem? i [] all = refl
IsAscii-get_elem? zero (x ∷ xs) all = all.0
IsAscii-get_elem? (suc i) (x ∷ xs) all = IsAscii-get_elem? i xs all.1

alphabet-IsAscii : IsAscii alphabet
alphabet-IsAscii = All-keep_if (λ c. ltb c 0x80) alphabet

digit_lem : (n : ℕ) → ltb (digit n) 0x80 ≡ true
unfolding digit
digit_lem n = IsAscii-get_elem? (bit_and n 63) alphabet alphabet-IsAscii

-- A digit or the padding.
digit_or_padding : (b : Bool) (n : ℕ) → ltb (if b then digit n else b'=') 0x80 ≡ true
digit_or_padding true n = digit_lem n
digit_or_padding false n = refl

group-IsAscii : (chunk : Bytes) → IsAscii (group chunk)
unfolding group
group-IsAscii chunk =
    let n = word chunk in
    (
      digit_lem (shr n 18),
      (
        digit_lem (shr n 12),
        (
          digit_or_padding (ltb 1 (length chunk)) (shr n 6),
          (digit_or_padding (ltb 2 (length chunk)) n, tt),
        ),
      ),
    )

groups-IsAscii : (cs : List Bytes) (out : Text) → IsAscii out → IsAscii (groups cs out)
unfolding groups
groups-IsAscii [] out all = all
groups-IsAscii (c ∷ cs) out all =
    groups-IsAscii cs (out ++ group c)
      (All-append (λ c. ltb c 0x80 ≡ true) out (group c) all (group-IsAscii c))

pub length-as_bytes-base64_encode :
    (bytes : Bytes) → length (as_bytes (base64_encode bytes)) ≡ length (base64_encode bytes)
unfolding base64_encode
length-as_bytes-base64_encode bytes =
    length-as_bytes (base64_encode bytes) (groups-IsAscii (chunks bytes) [] tt)
