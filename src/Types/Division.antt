-- ===== src/Types/Division.antt =====
-- modules/std/core/int.cc, `/` and `%`: division that rounds toward zero.
use clever.Prelude.{
  ℕ, zero, suc, ◌+◌, ◌-◌, ◌*◌, ◌/◌, ◌%◌, ◌^◌, ◌≤◌, ◌<◌, ◌≡◌, ◌≢◌, sym, ap, ◌∙◌, ◌⊎◌, inl, inr, Bool,
  true, false, not, some, if◌then◌else◌, arith, Bool-cases,
}
use mathlib.Core.Path.{subst}
use native.Mathlib.Nat.{suc-mul, mod-lt, mod-add-div}
use clever.Store.{int}
use clever.Vm.Natives.{writes}
use clever.Types.Int.{
  word, is_negative, negate, magnitude, traps, quotient, remainder, with_sign, Others, int_div,
  int_mod,
}

magnitude-le : (a : ℕ) → a < word → magnitude a ≤ 2 ^ 63
unfolding magnitude is_negative negate
magnitude-le a h = ground arith

magnitude-zero : (a : ℕ) → a < word → magnitude a ≡ 0 → a ≡ 0
unfolding magnitude is_negative negate
magnitude-zero a h z = ground arith

magnitude-one : (a : ℕ) → a < word → magnitude a ≡ 1 → is_negative a ≡ true → a ≡ word - 1
unfolding magnitude is_negative negate
magnitude-one a h z n = ground arith

magnitude-min : (a : ℕ) → a < word → magnitude a ≡ 2 ^ 63 → a ≡ 2 ^ 63
unfolding magnitude is_negative negate
magnitude-min a h z = ground arith

-- A magnitude with a sign put on it keeps both, unless it is the one that has no positive pattern.
with_sign-magnitude :
    (n : Bool) (m : ℕ)
    → (m < 2 ^ 63) ⊎ ((m ≡ 2 ^ 63) × (n ≡ true))
    → (magnitude (with_sign n m) ≡ m) × ((m ≡ 0) ⊎ (is_negative (with_sign n m) ≡ n))
unfolding magnitude is_negative negate
with_sign-magnitude true m (inl h) = (ground arith, ground arith)
with_sign-magnitude true m (inr (h, _)) = (ground arith, ground arith)
with_sign-magnitude false m (inl h) = (ground arith, ground arith)
with_sign-magnitude false m (inr (h, n)) = absurd (cc n)

-- Only one quotient is as large as the largest magnitude: that by one.
quotient-le :
    (m q d r : ℕ)
    → r + d * q ≡ m
    → 0 < d
    → m ≤ 2 ^ 63
    → (q < 2 ^ 63) ⊎ ((q ≡ 2 ^ 63) × (d ≡ 1) × (m ≡ 2 ^ 63))
quotient-le m q zero r h p le = absurd (omega arith)
quotient-le m q (suc zero) r h p le = ground (arith, suc-mul 0 q)
quotient-le m q (suc (suc d)) r h p le = inl (omega (arith, suc-mul (suc d) q, suc-mul d q))

abbrev quotient_sign : ℕ → ℕ → Bool
quotient_sign a b = if is_negative a then not (is_negative b) else is_negative b

module _ (a b : ℕ) (ha : a < word) (hb : b < word) (defined : traps a b ≡ false) where
  divisor_positive : 0 < magnitude b
  unfolding traps
  divisor_positive =
      let apart : b ≢ 0 = λ z. ground (arith, z, defined) in
      ground (arith, apart, magnitude-zero b hb)

  division : magnitude a % magnitude b + magnitude b * (magnitude a / magnitude b) ≡ magnitude a
  division = mod-add-div (magnitude a) (magnitude b)

  rest_small : magnitude a % magnitude b < magnitude b
  rest_small = mod-lt (magnitude a) divisor_positive

  sign : magnitude b ≡ 1 → magnitude a ≡ 2 ^ 63 → quotient_sign a b ≡ true
  unfolding traps is_negative
  sign one min = elim (Bool-cases (is_negative b)) [
    | inl below ↦
        let last = magnitude-one b hb one below in
        let first = magnitude-min a ha min in absurd (ground (arith, last, first, defined))
    | inr above ↦ ground (arith, magnitude-min a ha min, above)
  ]

  quotient_fits :
      (magnitude a / magnitude b < 2 ^ 63)
      ⊎ ((magnitude a / magnitude b ≡ 2 ^ 63) × (quotient_sign a b ≡ true))
  quotient_fits =
      elim (quotient-le (magnitude a) (magnitude a / magnitude b) (magnitude b)
        (magnitude a % magnitude b) division divisor_positive (magnitude-le a ha)) [
          | inl small ↦ inl small
          | inr (large, one, min) ↦ inr (large, sign one min)
        ]

-- What `/` and `%` give: the magnitudes divide with a remainder below the divisor's, the remainder has
-- the sign of the dividend, and the quotient is negative when the signs differ, zeros apart.
pub record IsDivision (a b q r : ℕ) : Type 0 where
  pub divides : magnitude r + magnitude b * magnitude q ≡ magnitude a
  pub small : magnitude r < magnitude b
  pub rest_sign : (magnitude r ≡ 0) ⊎ (is_negative r ≡ is_negative a)
  pub sign_of_quotient :
      (magnitude q ≡ 0)
      ⊎ (is_negative q ≡ (if is_negative a then not (is_negative b) else is_negative b))

quotient-with_sign :
    (a b : ℕ) → quotient a b ≡ with_sign (quotient_sign a b) (magnitude a / magnitude b)
unfolding quotient
quotient-with_sign a b = ground arith

module _ (a b : ℕ) (ha : a < word) (hb : b < word) (defined : traps a b ≡ false) where
  quotient-magnitude :
      (magnitude (quotient a b) ≡ magnitude a / magnitude b)
      × ((magnitude a / magnitude b ≡ 0) ⊎ (is_negative (quotient a b) ≡ quotient_sign a b))
  quotient-magnitude =
      subst
        (λ q.
          (magnitude q ≡ magnitude a / magnitude b)
          × ((magnitude a / magnitude b ≡ 0) ⊎ (is_negative q ≡ quotient_sign a b)))
        (sym (quotient-with_sign a b))
        (with_sign-magnitude (quotient_sign a b) (magnitude a / magnitude b)
          (quotient_fits a b ha hb defined))

  remainder-magnitude :
      (magnitude (remainder a b) ≡ magnitude a % magnitude b)
      × ((magnitude a % magnitude b ≡ 0) ⊎ (is_negative (remainder a b) ≡ is_negative a))
  unfolding remainder
  remainder-magnitude =
      with_sign-magnitude (is_negative a) (magnitude a % magnitude b)
        (inl (omega (arith, rest_small a b ha hb defined, magnitude-le b hb)))

  quotient-IsDivision : IsDivision a b (quotient a b) (remainder a b)
  quotient-IsDivision =
      let (mq, sq) = quotient-magnitude in
      let (mr, sr) = remainder-magnitude in
      record {
        divides =
            ap (λ x. x + magnitude b * magnitude (quotient a b)) mr
            ∙ ap (λ x. magnitude a % magnitude b + magnitude b * x) mq
            ∙ division a b ha hb defined;
        small = subst (λ x. x < magnitude b) (sym mr) (rest_small a b ha hb defined);
        rest_sign = elim sr [ inl z ↦ inl (mr ∙ z) | inr s ↦ inr s ];
        sign_of_quotient = elim sq [ inl z ↦ inl (mq ∙ z) | inr s ↦ inr s ];
      }

-- Unless the divisor is zero, or the dividend the smallest integer and the divisor -1, `/` and `%` of
-- two integers write a quotient and a remainder, which divide with rounding toward zero.
pub int_div-IsDivision :
    (others : Others) (a b : ℕ)
    → a < word
    → b < word
    → traps a b ≡ false
    → (q : ℕ) × (r : ℕ) × (int_div others a (int b) ≡ some (writes (int q)))
      × (int_mod others a (int b) ≡ some (writes (int r)))
      × IsDivision a b q r
unfolding int_div int_mod
int_div-IsDivision others a b ha hb defined =
    (quotient a b, remainder a b, rw defined, rw defined, quotient-IsDivision a b ha hb defined)
