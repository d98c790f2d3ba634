-- ===== src/Proton/Base64/Tests.antt =====
-- Runs of `base64_encode`, and its theorems at a concrete text.
use aerogram.Prelude.{◌≡◌, refl, codes, some, arith}
use aerogram.Proton.Base64.{base64_encode}
use aerogram.Proton.Base64.Decoding.{decode, decode-base64_encode}

rfc_five : base64_encode (codes "fooba") ≡ codes "Zm9vYmE="
unfolding base64_encode
rfc_five = refl

rfc_four : base64_encode (codes "foob") ≡ codes "Zm9vYg=="
unfolding base64_encode
rfc_four = refl

decode-base64_encode_example : decode (base64_encode (codes "foob")) ≡ some (codes "foob")
decode-base64_encode_example = decode-base64_encode (codes "foob") (omega arith)
