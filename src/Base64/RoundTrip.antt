-- ===== src/Base64/RoundTrip.antt =====
-- base64.h: decoding what was encoded.
use clever.Prelude.{
  ℕ, ◌+◌, ◌-◌, ◌*◌, ◌/◌, ◌%◌, ◌^◌, ◌≤◌, ◌<◌, ◌≡◌, refl, sym, ap, ◌∙◌, some, List, [], ◌∷◌, ◌++◌,
  append-nil, append_assoc, length, get_or, arith,
}
use clever.Prelude.Bits.{bit_and_byte}
use clever.Base64.{
  pad_character, widen, shl, pack, field_0, field_1, field_2, base64_encode, low_byte, scan,
  padding, is_pad, base64_decode,
}
use clever.Base64.Sextets.{
  put, IsAscii, field_0_lem, field_1_lem, field_2_lem, scan-one_pad, scan-two_pads, pack_ascii,
  put_fields, put_fields_lem, three_bytes_lem, scan-two, scan-three, scan-quantum,
}

one_byte_lem :
    (temp a : ℕ)
    → a < 128
    → let t = shl (widen a) 16 in
      low_byte (put (put temp (field_0 t)) (field_1 t) % 2 ^ 58 / 2 ^ 4) ≡ a
one_byte_lem temp a p =
    let t = shl (widen a) 16 in
    let w = put (put temp (field_0 t)) (field_1 t) % 2 ^ 58 / 2 ^ 4 in
    ground (arith, bit_and_byte w, field_0_lem t, field_1_lem t)

two_bytes_lem :
    (temp t a b : ℕ)
    → t ≡ a * 65536 + b * 256
    → a < 256
    → b < 256
    → let w = put (put (put temp (field_0 t)) (field_1 t)) (field_2 t) % 2 ^ 58 in
      low_byte (w / 2 ^ 10) ∷ low_byte (w / 2 ^ 2) ∷ [] ≡ a ∷ b ∷ []
two_bytes_lem temp t a b e p q =
    let w = put (put (put temp (field_0 t)) (field_1 t)) (field_2 t) % 2 ^ 58 in
    ground (
      arith,
      bit_and_byte (w / 2 ^ 10),
      bit_and_byte (w / 2 ^ 2),
      field_0_lem t,
      field_1_lem t,
      field_2_lem t,
    )

-- The decoder, started at a quantum with any old word, gives the encoded bytes back.
scan-base64_encode :
    (xs : List ℕ) (temp : ℕ) (decoded : List ℕ)
    → IsAscii xs
    → scan 0 temp (base64_encode xs) decoded ≡ some (decoded ++ xs)
unfolding base64_encode scan
scan-base64_encode [] temp decoded h = ap some (sym (append-nil decoded))
scan-base64_encode (a ∷ []) temp decoded (p, h) =
    let t = shl (widen a) 16 in
    scan-two temp t (pad_character ∷ pad_character ∷ []) decoded
    ∙ scan-two_pads _ decoded
    ∙ ap (λ x. some (decoded ++ x ∷ [])) (one_byte_lem temp a p)
scan-base64_encode (a ∷ b ∷ []) temp decoded (p, (q, h)) =
    let t = (shl (widen a) 16 + shl (widen b) 8) % 2 ^ 64 in
    scan-three temp t (pad_character ∷ []) decoded
    ∙ scan-one_pad _ decoded
    ∙ ap (λ x. some (decoded ++ x))
        (two_bytes_lem temp t a b (ground arith) (omega arith) (omega arith))
scan-base64_encode (a ∷ b ∷ c ∷ rest) temp decoded (p, (q, (r, h))) =
    let t = pack a b c in
    scan-quantum temp t _ decoded
    ∙ ap (λ x. scan 0 (put_fields temp t) (base64_encode rest) (decoded ++ x))
        (three_bytes_lem (put_fields temp t) a b c
          (omega (arith, put_fields_lem temp t, pack_ascii a b c p q r)) (omega arith) (omega arith)
          (omega arith))
    ∙ scan-base64_encode rest (put_fields temp t) (decoded ++ a ∷ b ∷ c ∷ []) h
    ∙ ap some (append_assoc decoded (a ∷ b ∷ c ∷ []) rest)

-- Four characters for every three bytes that were begun: what `reserve` asks for.
pub length-base64_encode : (xs : List ℕ) → length (base64_encode xs) ≡ (length xs + 2) / 3 * 4
unfolding base64_encode
length-base64_encode [] = refl
length-base64_encode (a ∷ []) = refl
length-base64_encode (a ∷ b ∷ []) = refl
length-base64_encode (a ∷ b ∷ c ∷ rest) = omega (arith, length-base64_encode rest)

is_pad-le : (c : ℕ) → is_pad c ≤ 1
unfolding is_pad
is_pad-le c = ground arith

-- An input of whole quanta gets past the two checks on its padding.
base64_decode-quanta : (ys : List ℕ) → length ys % 4 ≡ 0 → base64_decode ys ≡ scan 0 0 ys []
unfolding base64_decode padding
base64_decode-quanta ys h =
    ground (arith, is_pad-le (get_or ys (length ys - 1) 0), is_pad-le (get_or ys (length ys - 2) 0))

-- Decoding an encoded text gives the text back, if all its bytes are below 128.
pub base64_decode-encode : (xs : List ℕ) → IsAscii xs → base64_decode (base64_encode xs) ≡ some xs
base64_decode-encode xs h =
    base64_decode-quanta (base64_encode xs) (omega (arith, length-base64_encode xs))
    ∙ scan-base64_encode xs 0 [] h

-- A negative middle byte borrows from the first.
pack_signed :
    (a b c : ℕ)
    → 0 < a
    → a < 256
    → 128 ≤ b
    → b < 256
    → c < 128
    → pack a b c % 2 ^ 24 ≡ (a - 1) * 65536 + b * 256 + c
unfolding pack
pack_signed a b c p q r s u = ground arith

-- A quantum whose middle byte is 128 or more, whose first byte is not 0 and whose last byte is below 128,
-- does not come back: its first byte is one less.
pub base64_decode-signed :
    (a b c : ℕ)
    → 0 < a
    → a < 256
    → 128 ≤ b
    → b < 256
    → c < 128
    → base64_decode (base64_encode (a ∷ b ∷ c ∷ [])) ≡ some ((a - 1) ∷ b ∷ c ∷ [])
unfolding base64_encode scan
base64_decode-signed a b c p q r s u =
    base64_decode-quanta (base64_encode (a ∷ b ∷ c ∷ [])) refl
    ∙ scan-quantum 0 (pack a b c) [] []
    ∙ ap some (
        three_bytes_lem (put_fields 0 (pack a b c)) (a - 1) b c
          (omega (arith, put_fields_lem 0 (pack a b c), pack_signed a b c p q r s u)) (omega arith)
          s (omega arith))
