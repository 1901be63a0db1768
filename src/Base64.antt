-- ===== src/Base64.antt =====
-- modules/std/crypto/base64.h: `base64Encode` and `base64Decode`.
-- A byte of a `std::string` is a number below 256. `char` is signed, so a byte from 128 on is a
-- negative number when it is shifted; `long` has 64 bits and is kept as its bit pattern.
pub mod Sextets
pub mod RoundTrip
mod Tests
use clever.Prelude.{
  ℕ, zero, suc, ◌+◌, ◌-◌, ◌*◌, ◌/◌, ◌%◌, ◌^◌, bit_and, bit_or, Bool, true, ◌&&◌, Option, none, some,
  List, [], ◌∷◌, ◌++◌, length, get_or, get_elem?, codes, ltb, leb, ◌==◌, if◌then◌else◌,
}

abbrev pub encode_lookup : List ℕ
encode_lookup = codes "ABCDEFGHIJKLMNOPQRSTUVWXYZabcdefghijklmnopqrstuvwxyz0123456789+/"

abbrev pub pad_character : ℕ
pad_character = b'='

-- A `char` widened to a 64-bit pattern.
abbrev pub widen : ℕ → ℕ
widen c = if ltb c 128 then c else c + 2 ^ 64 - 256

abbrev pub shl : ℕ → ℕ → ℕ
shl x k = x * 2 ^ k % 2 ^ 64

-- `encodeLookup[i]`; every index is below 64.
unfoldable pub lookup_char : ℕ → ℕ
lookup_char i = get_or encode_lookup i 0

-- The three bytes of a quantum in one word.
unfoldable pub pack : ℕ → ℕ → ℕ → ℕ
pack a b c = ((shl (widen a) 16 + shl (widen b) 8) % 2 ^ 64 + widen c) % 2 ^ 64

unfoldable pub field_0 : ℕ → ℕ
field_0 temp = bit_and temp 0x00FC0000 / 2 ^ 18

unfoldable pub field_1 : ℕ → ℕ
field_1 temp = bit_and temp 0x0003F000 / 2 ^ 12

unfoldable pub field_2 : ℕ → ℕ
field_2 temp = bit_and temp 0x00000FC0 / 2 ^ 6

unfoldable pub field_3 : ℕ → ℕ
field_3 temp = bit_and temp 0x0000003F

-- The loop takes three bytes a round; the last one or two bytes are padded.
unfoldable pub base64_encode : List ℕ → List ℕ
unfolding lookup_char pack field_0 field_1 field_2 field_3
base64_encode [] = []
base64_encode (a ∷ []) =
    let temp = shl (widen a) 16 in
    lookup_char (field_0 temp) ∷ lookup_char (field_1 temp) ∷ pad_character ∷ pad_character ∷ []
base64_encode (a ∷ b ∷ []) =
    let temp = (shl (widen a) 16 + shl (widen b) 8) % 2 ^ 64 in
    lookup_char (field_0 temp)
    ∷ lookup_char (field_1 temp)
    ∷ lookup_char (field_2 temp)
    ∷ pad_character
    ∷ []
base64_encode (a ∷ b ∷ c ∷ rest) =
    let temp = pack a b c in
    lookup_char (field_0 temp)
    ∷ lookup_char (field_1 temp)
    ∷ lookup_char (field_2 temp)
    ∷ lookup_char (field_3 temp)
    ∷ base64_encode rest

-- The number that a character adds to `temp`; `none` for the pad and for any other character.
unfoldable pub sextet : ℕ → Option ℕ
sextet c =
    if leb 0x41 c && leb c 0x5A
    then some (c - 0x41)
    else if leb 0x61 c && leb c 0x7A
    then some (c - 0x47)
    else if leb 0x30 c && leb c 0x39
    then some (c + 0x04)
    else if c == 0x2B
    then some 0x3E
    else if c == 0x2F
    then some 0x3F
    else none

-- `temp` after one character: shifted, and the sextet put in.
unfoldable pub absorb : ℕ → ℕ → ℕ
unfolding sextet
absorb temp c = elim (sextet c) [ some v ↦ bit_or (shl temp 6) v | none ↦ shl temp 6 ]

abbrev pub low_byte : ℕ → ℕ
low_byte x = bit_and x 0x000000FF

abbrev pub three_bytes : ℕ → List ℕ
three_bytes temp = low_byte (temp / 2 ^ 16) ∷ low_byte (temp / 2 ^ 8) ∷ low_byte temp ∷ []

-- The two nested loops as one scan: `position` is `quantumPosition`, `temp` is never cleared.
-- `none` is a read past the end of the input, inside a quantum.
unfoldable pub scan : ℕ → ℕ → List ℕ → List ℕ → Option (List ℕ)
unfolding absorb
scan position temp [] decoded = if position == 0 then some decoded else none
scan position temp (c ∷ cursor) decoded =
    let temp' = absorb temp c in
    let next =
      scan (if position == 3 then 0 else position + 1) temp' cursor
        (if position == 3 then decoded ++ three_bytes temp' else decoded) in
    if c == pad_character && length cursor == 0
    then some (decoded ++ low_byte (temp' / 2 ^ 16) ∷ low_byte (temp' / 2 ^ 8) ∷ [])
    else if c == pad_character && length cursor == 1
    then some (decoded ++ low_byte (temp' / 2 ^ 10) ∷ [])
    else next

unfoldable pub is_pad : ℕ → ℕ
is_pad c = if c == pad_character then 1 else 0

-- The count of pads among the last two characters. `none` is `input[-1]`.
unfoldable pub padding : List ℕ → Option ℕ
unfolding is_pad
padding input =
    let n = length input in
    if n == 0
    then some 0
    else if n == 1
    then none
    else some (is_pad (get_or input (n - 1) 0) + is_pad (get_or input (n - 2) 0))

-- `none` is a fault: a read out of bounds, or `reserve` asked for less than nothing.
unfoldable pub base64_decode : List ℕ → Option (List ℕ)
unfolding padding scan
base64_decode input = elim (padding input) [
  | none ↦ none
  | some p ↦ if ltb (length input / 4 * 3) p then none else scan 0 0 input []
]
