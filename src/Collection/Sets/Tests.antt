-- ===== src/Collection/Sets/Tests.antt =====
-- modules/std/collection/cset.cc on sets of integers that are compared by their size.
use clever.Prelude.{
  ℕ, ◌≡◌, refl, inl, inr, Bool, false, not, ◌||◌, ◌==◌, [], ◌∷◌, some, none, arith, ltb, Bool-cases,
}
use clever.Store.{Value, bool, int, func}
use clever.Types.Args.{TypeNumbers}
use clever.Collection.Sets.{
  CSetValue, CSet, done, compare, set_add, set_div, set_insert, set_find, set_ctor,
}
use clever.Collection.Sets.Functions.{Carries, IsShared}
use clever.Collection.Sets.Operators.{IsSetOf, IsAlgebra, set_operators-IsAlgebra}

abbrev number : Value → ℕ
number (int i) = i
number v = 0

-- The functions 4 and 6 compare by size, every other one says yes to all.
abbrev is_smaller : ℕ → Bool
is_smaller f = f == 4 || f == 6

abbrev smaller : ℕ → Value → Value → Value
smaller f v w = bool (not (is_smaller f) || ltb (number v) (number w))

abbrev element : ℕ → CSetValue
element i = record { element = int i; comp = 4 }

abbrev other : ℕ → CSetValue
other i = record { element = int i; comp = 6 }

abbrev small : CSet
small = record { set = element 1 ∷ element 3 ∷ []; comp = 4 }

abbrev large : CSet
large = record { set = other 2 ∷ other 3 ∷ []; comp = 6 }

add_test : (set_add smaller small large).set ≡ element 1 ∷ other 2 ∷ element 3 ∷ []
unfolding set_add
add_test = refl

div_test : (set_div smaller small large).set ≡ element 1 ∷ other 2 ∷ []
unfolding set_div
div_test = refl

abbrev test_types : TypeNumbers
test_types = record { str_type = 2; double_type = 1; array_type = 3; map_type = 4; this_type = 5 }

insert_test : set_insert smaller test_types (int 3 ∷ []) small ≡ done small none
unfolding set_insert
insert_test = refl

find_test : set_find smaller test_types (int 2 ∷ []) small ≡ done small (some (bool false))
unfolding set_find
find_test = refl

-- A comparison with one required parameter.
ctor_test : set_ctor smaller test_types (λ f. 1) (func 4 ∷ []) ≡ none
unfolding set_ctor
ctor_test = refl

-- Elements of the two sets compare by size.
compare-size :
    (x y : CSetValue)
    → Carries small large x
    → compare smaller x y ≡ ltb (number x.element) (number y.element)
unfolding compare
compare-size x y (inl first) = ground (arith, first)
compare-size x y (inr second) = ground (arith, second)

smaller-IsShared : IsShared smaller small large
smaller-IsShared = record {
  asym = λ x y hx hy h. ground (arith, h, compare-size x y hx, compare-size y x hy);
  between = λ x y z hx hy hz h. elim (Bool-cases (compare smaller x y)) [
    | inl less ↦ inl less
    | inr not_less ↦
        inr (
          ground
            (arith, h, not_less, compare-size x y hx, compare-size y z hy, compare-size x z hx))
  ];
}

small-IsSetOf : IsSetOf smaller small large small.set
unfolding compare
small-IsSetOf = (((refl, tt), (tt, tt)), (inl refl, (inl refl, tt)))

large-IsSetOf : IsSetOf smaller small large large.set
unfolding compare
large-IsSetOf = (((refl, tt), (tt, tt)), (inr refl, (inr refl, tt)))

set_operators-IsAlgebra_example : IsAlgebra smaller small large
set_operators-IsAlgebra_example =
    set_operators-IsAlgebra smaller small large smaller-IsShared small-IsSetOf large-IsSetOf
