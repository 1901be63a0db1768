-- ===== src/Base64/Sextets.antt =====
-- base64.h: how the decoder reads the characters of the table, and the fields of a word.
use clever.Prelude.{
  ℕ, ◌+◌, ◌*◌, ◌/◌, ◌%◌, ◌^◌, ◌<◌, ◌≡◌, refl, ap, ◌∙◌, Bool, true, false, not, Option, none, some,
  List, [], ◌∷◌, ◌++◌, All, arith, ◌==◌, ==_iff, holds_below, holds_below_sound,
}
use clever.Prelude.Bits.{bit_and-sixty_three, bit_and_byte, bit_and-shift_six, bit_or_six}
use clever.Base64.{
  pad_character, lookup_char, pack, field_0, field_1, field_2, field_3, sextet, absorb, low_byte,
  three_bytes, scan,
}

abbrev sextet_is : Option ℕ → ℕ → Bool
sextet_is none i = false
sextet_is (some v) i = v == i

lookup_table : holds_below (λ i. sextet_is (sextet (lookup_char i)) i) 64 ≡ true
unfolding holds_below sextet lookup_char
lookup_table = refl

sextet_is-true : (o : Option ℕ) (i : ℕ) → sextet_is o i ≡ true → o ≡ some i
sextet_is-true none i h = cc
sextet_is-true (some v) i h = ap some ((==_iff v i).0 h)

-- The decoder reads each character of the table as its index.
pub sextet-lookup_char : (i : ℕ) → i < 64 → sextet (lookup_char i) ≡ some i
sextet-lookup_char i h = sextet_is-true _ i (holds_below_sound _ i 64 h lookup_table)

pad_table : holds_below (λ i. not (lookup_char i == pad_character)) 64 ≡ true
unfolding holds_below lookup_char
pad_table = refl

-- No character of the table is the pad.
pub lookup_char-not_pad : (i : ℕ) → i < 64 → (lookup_char i == pad_character) ≡ false
lookup_char-not_pad i h =
    ground
      (arith, holds_below_sound (λ (i : ℕ). not (lookup_char i == pad_character)) i 64 h pad_table)

-- The word after one more sextet.
abbrev pub put : ℕ → ℕ → ℕ
put temp i = temp % 2 ^ 58 * 64 + i

pub absorb-lookup_char : (temp i : ℕ) → i < 64 → absorb temp (lookup_char i) ≡ put temp i
unfolding absorb
absorb-lookup_char temp i h = ground (arith, sextet-lookup_char i h, bit_or_six (temp % 2 ^ 58) i h)

pub field_0_lem : (t : ℕ) → field_0 t ≡ t / 2 ^ 18 % 64
unfolding field_0
field_0_lem t = ground (
  arith,
  bit_and-shift_six t (63 * 64 * 64),
  bit_and-shift_six (t / 64) (63 * 64),
  bit_and-shift_six (t / 4096) 63,
  bit_and-sixty_three (t / 2 ^ 18),
)

pub field_1_lem : (t : ℕ) → field_1 t ≡ t / 2 ^ 12 % 64
unfolding field_1
field_1_lem t = ground (
  arith,
  bit_and-shift_six t (63 * 64),
  bit_and-shift_six (t / 64) 63,
  bit_and-sixty_three (t / 2 ^ 12),
)

pub field_2_lem : (t : ℕ) → field_2 t ≡ t / 2 ^ 6 % 64
unfolding field_2
field_2_lem t = ground (arith, bit_and-shift_six t 63, bit_and-sixty_three (t / 2 ^ 6))

pub field_3_lem : (t : ℕ) → field_3 t ≡ t % 64
unfolding field_3
field_3_lem t = bit_and-sixty_three t

module _ (temp i : ℕ) (h : i < 64) (cursor decoded : List ℕ) where
  scan-inside :
      (position : ℕ)
      → position < 3
      → scan position temp (lookup_char i ∷ cursor) decoded
        ≡ scan (position + 1) (put temp i) cursor decoded
  unfolding scan
  scan-inside position p = ground (arith, lookup_char-not_pad i h, absorb-lookup_char temp i h)

  scan-last :
      scan 3 temp (lookup_char i ∷ cursor) decoded
      ≡ scan 0 (put temp i) cursor (decoded ++ three_bytes (put temp i))
  unfolding scan
  scan-last = ground (arith, lookup_char-not_pad i h, absorb-lookup_char temp i h)

pub scan-one_pad :
    (temp : ℕ) (decoded : List ℕ)
    → scan 3 temp (pad_character ∷ []) decoded
      ≡ some (decoded ++ low_byte (temp % 2 ^ 58 / 2 ^ 10) ∷ low_byte (temp % 2 ^ 58 / 2 ^ 2) ∷ [])
unfolding scan absorb sextet
scan-one_pad temp decoded = ground arith

pub scan-two_pads :
    (temp : ℕ) (decoded : List ℕ)
    → scan 2 temp (pad_character ∷ pad_character ∷ []) decoded
      ≡ some (decoded ++ low_byte (temp % 2 ^ 58 / 2 ^ 4) ∷ [])
unfolding scan absorb sextet
scan-two_pads temp decoded = ground arith

abbrev pub IsAscii : List ℕ → Type 0
IsAscii = All (λ c. c < 128)

-- The word of a quantum, and of its first byte and two bytes, when no byte is negative.
pub pack_ascii : (a b c : ℕ) → a < 128 → b < 128 → c < 128 → pack a b c ≡ a * 65536 + b * 256 + c
unfolding pack
pack_ascii a b c p q r = ground arith

-- The word after the four sextets of `t`.
abbrev pub put_fields : ℕ → ℕ → ℕ
put_fields temp t = put (put (put (put temp (field_0 t)) (field_1 t)) (field_2 t)) (field_3 t)

pub put_fields_lem : (temp t : ℕ) → put_fields temp t % 2 ^ 24 ≡ t % 2 ^ 24
put_fields_lem temp t = omega (arith, field_0_lem t, field_1_lem t, field_2_lem t, field_3_lem t)

pub three_bytes_lem :
    (w a b c : ℕ)
    → w % 2 ^ 24 ≡ a * 65536 + b * 256 + c
    → a < 256
    → b < 256
    → c < 256
    → three_bytes w ≡ a ∷ b ∷ c ∷ []
three_bytes_lem w a b c e p q r =
    ground (arith, bit_and_byte (w / 2 ^ 16), bit_and_byte (w / 2 ^ 8), bit_and_byte w)

-- Two, three and four table characters of a word, from the start of a quantum.
pub scan-two :
    (temp t : ℕ) (cursor decoded : List ℕ)
    → scan 0 temp (lookup_char (field_0 t) ∷ lookup_char (field_1 t) ∷ cursor) decoded
      ≡ scan 2 (put (put temp (field_0 t)) (field_1 t)) cursor decoded
scan-two temp t cursor decoded =
    scan-inside temp (field_0 t) (omega (arith, field_0_lem t)) _ decoded 0 (omega arith)
    ∙ scan-inside _ (field_1 t) (omega (arith, field_1_lem t)) cursor decoded 1 (omega arith)

pub scan-three :
    (temp t : ℕ) (cursor decoded : List ℕ)
    → scan 0 temp
        (lookup_char (field_0 t) ∷ lookup_char (field_1 t) ∷ lookup_char (field_2 t) ∷ cursor)
        decoded
      ≡ scan 3 (put (put (put temp (field_0 t)) (field_1 t)) (field_2 t)) cursor decoded
scan-three temp t cursor decoded =
    scan-two temp t _ decoded
    ∙ scan-inside _ (field_2 t) (omega (arith, field_2_lem t)) cursor decoded 2 (omega arith)

-- A quantum of four table characters decodes to the three bytes of its word.
pub scan-quantum :
    (temp t : ℕ) (cursor decoded : List ℕ)
    → scan 0 temp
        (lookup_char (field_0 t)
          ∷ lookup_char (field_1 t)
          ∷ lookup_char (field_2 t)
          ∷ lookup_char (field_3 t)
          ∷ cursor)
        decoded
      ≡ scan 0 (put_fields temp t) cursor (decoded ++ three_bytes (put_fields temp t))
scan-quantum temp t cursor decoded =
    scan-three temp t _ decoded
    ∙ scan-last _ (field_3 t) (omega (arith, field_3_lem t)) cursor decoded
