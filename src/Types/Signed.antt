-- ===== src/Types/Signed.antt =====
-- modules/std/core/int.cc: the operators against signed integers.
use clever.Prelude.{
  ℕ, ◌+◌, ◌-◌, ◌^◌, ◌≤◌, ◌<◌, ◌≡◌, refl, ap, ◌∙◌, Bool, true, false, not, some, ◌==◌, ltb, leb,
  if◌then◌else◌, arith,
}
use clever.Store.{bool, int}
use clever.Vm.Natives.{writes}
use clever.Types.Int.{
  word, add, sub, flip, less, Others, int_add, int_sub, int_less, int_less_equal, int_greater,
  int_greater_equal, int_equal, int_not_equal,
}

-- `negsuc n` is -(n + 1).
pub data ℤ : Type 0 where
  pos negsuc : ℕ → ℤ

-- a - b
abbrev pub difference : ℕ → ℕ → ℤ
difference a b = if leb b a then pos (a - b) else negsuc (b - a - 1)

infixl 60 ◌+ℤ◌
abbrev pub ◌+ℤ◌ : ℤ → ℤ → ℤ
pos a +ℤ pos b = pos (a + b)
pos a +ℤ negsuc b = difference a (b + 1)
negsuc a +ℤ pos b = difference b (a + 1)
negsuc a +ℤ negsuc b = negsuc (a + b + 1)

+ℤ_comm : (x y : ℤ) → x +ℤ y ≡ y +ℤ x
+ℤ_comm (pos a) (pos b) = ap pos (omega arith)
+ℤ_comm (pos a) (negsuc b) = refl
+ℤ_comm (negsuc a) (pos b) = refl
+ℤ_comm (negsuc a) (negsuc b) = ap negsuc (omega arith)

abbrev pub ltb_ℤ : ℤ → ℤ → Bool
ltb_ℤ (pos a) (pos b) = ltb a b
ltb_ℤ (pos a) (negsuc b) = false
ltb_ℤ (negsuc a) (pos b) = true
ltb_ℤ (negsuc a) (negsuc b) = ltb b a

abbrev pub eqb_ℤ : ℤ → ℤ → Bool
eqb_ℤ (pos a) (pos b) = a == b
eqb_ℤ (negsuc a) (negsuc b) = a == b
eqb_ℤ _ _ = false

-- The number that a 64-bit pattern stands for.
unfoldable pub signed : ℕ → ℤ
signed a = if ltb a (2 ^ 63) then pos a else negsuc (word - 1 - a)

signed-pos : (a : ℕ) → a < 2 ^ 63 → signed a ≡ pos a
unfolding signed
signed-pos a h = ground arith

signed-negsuc : (a : ℕ) → 2 ^ 63 ≤ a → signed a ≡ negsuc (word - 1 - a)
unfolding signed
signed-negsuc a h = ground arith

less-signed : (a b : ℕ) → a < word → b < word → less a b ≡ ltb_ℤ (signed a) (signed b)
unfolding less signed flip
less-signed a b ha hb = ground arith

equal-signed : (a b : ℕ) → a < word → b < word → (a == b) ≡ eqb_ℤ (signed a) (signed b)
unfolding signed
equal-signed a b ha hb = ground arith

add-signed :
    (a b c : ℕ) → a < word → b < word → c < word → signed a +ℤ signed b ≡ signed c → add a b ≡ c
unfolding signed add
add-signed a b c ha hb hc h = ground arith

sub-signed :
    (a b c : ℕ) → a < word → b < word → c < word → signed c +ℤ signed b ≡ signed a → sub a b ≡ c
unfolding signed sub
sub-signed a b c ha hb hc h = ground arith

-- The six comparisons of two integers are those of the numbers that they stand for.
pub int_less-signed :
    (others : Others) (a b : ℕ)
    → a < word
    → b < word
    → (int_less others a (int b) ≡ some (writes (bool (ltb_ℤ (signed a) (signed b)))))
      × (int_less_equal others a (int b) ≡ some (writes (bool (not (ltb_ℤ (signed b) (signed a))))))
      × (int_greater others a (int b) ≡ some (writes (bool (ltb_ℤ (signed b) (signed a)))))
      × (int_greater_equal others a (int b)
          ≡ some (writes (bool (not (ltb_ℤ (signed a) (signed b))))))
      × (int_equal others a (int b) ≡ some (writes (bool (eqb_ℤ (signed a) (signed b)))))
      × (int_not_equal others a (int b) ≡ some (writes (bool (not (eqb_ℤ (signed a) (signed b))))))
unfolding int_less int_less_equal int_greater int_greater_equal int_equal int_not_equal
int_less-signed others a b ha hb =
    let lt = less-signed a b ha hb in
    let gt = less-signed b a hb ha in
    let eq = equal-signed a b ha hb in
    (
      ap (λ x. some (writes (bool x))) lt,
      ap (λ x. some (writes (bool (not x)))) gt,
      ap (λ x. some (writes (bool x))) gt,
      ap (λ x. some (writes (bool (not x)))) lt,
      ap (λ x. some (writes (bool x))) eq,
      ap (λ x. some (writes (bool (not x)))) eq,
    )

-- If the sum of two integers fits in 64 bits, `+` gives it, and `-` takes either summand off it again.
int_add-signed :
    (others : Others) (a b c : ℕ)
    → a < word
    → b < word
    → c < word
    → signed a +ℤ signed b ≡ signed c
    → (int_add others a (int b) ≡ some (writes (int c)))
      × (int_sub others c (int b) ≡ some (writes (int a)))
      × (int_sub others c (int a) ≡ some (writes (int b)))
unfolding int_add int_sub
int_add-signed others a b c ha hb hc h = (
  ap (λ x. some (writes (int x))) (add-signed a b c ha hb hc h),
  ap (λ x. some (writes (int x))) (sub-signed c b a hc hb ha h),
  ap (λ x. some (writes (int x))) (sub-signed c a b hc ha hb (+ℤ_comm (signed b) (signed a) ∙ h)),
)
