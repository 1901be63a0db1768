-- ===== src/Base64/Tests.antt =====
-- Runs of base64.h on small inputs, and uses of the theorems.
use clever.Prelude.{◌+◌, ◌*◌, ◌/◌, ◌≡◌, refl, some, none, [], ◌∷◌, codes, length, arith}
use clever.Base64.{base64_encode, base64_decode}
use clever.Base64.RoundTrip.{length-base64_encode, base64_decode-encode, base64_decode-signed}

encode_man : base64_encode (codes "Man!") ≡ codes "TWFuIQ=="
unfolding base64_encode
encode_man = refl

decode_man : base64_decode (codes "TWFuIQ==") ≡ some (codes "Man!")
unfolding base64_decode
decode_man = refl

decode_bad : base64_decode (codes "TWF") ≡ none
unfolding base64_decode
decode_bad = refl

length-base64_encode_example :
    length (base64_encode (codes "Man!")) ≡ (length (codes "Man!") + 2) / 3 * 4
length-base64_encode_example = length-base64_encode (codes "Man!")

base64_decode-encode_example : base64_decode (base64_encode (codes "Man!")) ≡ some (codes "Man!")
base64_decode-encode_example =
    base64_decode-encode (codes "Man!")
      (omega arith, (omega arith, (omega arith, (omega arith, tt))))

base64_decode-signed_example :
    base64_decode (base64_encode (77 ∷ 200 ∷ 110 ∷ [])) ≡ some (76 ∷ 200 ∷ 110 ∷ [])
base64_decode-signed_example =
    base64_decode-signed 77 200 110 (omega arith) (omega arith) (omega arith) (omega arith)
      (omega arith)
