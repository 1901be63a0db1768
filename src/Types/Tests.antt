-- ===== src/Types/Tests.antt =====
-- int.cc at small and at extreme operands.
use clever.Prelude.{ℕ, ◌+◌, ◌-◌, ◌^◌, ◌≡◌, refl, false, true, not, some, none, arith, ◌%◌, [], ◌∷◌}
use clever.Store.{null, bool, int}
use clever.Vm.Natives.{writes, keeps}
use clever.Types.Bool.{bool_equal, bool_not_equal, bool_not_op}
use clever.Types.Int.{
  word, Others, traps, int_mul, int_div, int_mod, int_less, int_less_equal, int_greater,
  int_greater_equal, int_equal, int_not_equal, int_bw_not, int_bw_ls, int_bw_rs,
}
use clever.Types.Signed.{◌+ℤ◌, signed, ltb_ℤ, eqb_ℤ, int_less-signed}
use clever.Types.Division.{IsDivision, int_div-IsDivision}
use clever.Types.Args.{marker, TypeNumbers, check_args, an_integer, optional, a_boolean}
use clever.Types.Array.{
  Elements, thrown, array_append, array_size, array_at, array_reverse, array_shift, array_pop,
  array_erase,
}
use clever.Types.Iterator.{at_op, begin_of}
use clever.Types.Iterators.{walk, walk-all_some, InBounds, at_op-bounds}
use clever.Types.Checked.{matches, check_args-matches}
use clever.Types.Range.{finished, range_of}
use clever.Types.Ranges.{IsOver, range_of-IsOver}
use clever.Types.Slices.{range_of-take}
use clever.Types.Arrays.{IsSafe, array_append-IsSafe}

-- The object type 1 is Double, 2 is String; their results are made up.
abbrev test_others : Others
test_others = record {
  double_type = 1;
  str_type = 2;
  double_result = λ op a p. a + p;
  long_of = λ p. p % 2 ^ 64;
  text_append = λ a p. a + p;
}

abbrev minus : ℕ → ℕ
minus n = word - n

-- -7 / 2 is -3, and -7 % 2 is -1.
div_test : int_div test_others (minus 7) (int 2) ≡ some (writes (int (minus 3)))
unfolding int_div
div_test = refl

mod_test : int_mod test_others (minus 7) (int 2) ≡ some (writes (int (minus 1)))
unfolding int_mod
mod_test = refl

div_traps : int_div test_others (2 ^ 63) (int (minus 1)) ≡ none
unfolding int_div
div_traps = refl

mul_test : int_mul test_others (minus 3) (int 5) ≡ some (writes (int (minus 15)))
unfolding int_mul
mul_test = refl

shift_test : int_bw_rs test_others (minus 8) (int 1) ≡ some (writes (int (minus 4)))
unfolding int_bw_rs
shift_test = refl

shift_undefined : int_bw_ls test_others 1 (int 64) ≡ none
unfolding int_bw_ls
shift_undefined = refl

complement_test : int_bw_not 0 ≡ some (writes (int (minus 1)))
unfolding int_bw_not
complement_test = refl

int_less-signed_example :
    (int_less test_others (minus 1) (int 3)
      ≡ some (writes (bool (ltb_ℤ (signed (minus 1)) (signed 3)))))
    × (int_less_equal test_others (minus 1) (int 3)
        ≡ some (writes (bool (not (ltb_ℤ (signed 3) (signed (minus 1)))))))
    × (int_greater test_others (minus 1) (int 3)
        ≡ some (writes (bool (ltb_ℤ (signed 3) (signed (minus 1))))))
    × (int_greater_equal test_others (minus 1) (int 3)
        ≡ some (writes (bool (not (ltb_ℤ (signed (minus 1)) (signed 3))))))
    × (int_equal test_others (minus 1) (int 3)
        ≡ some (writes (bool (eqb_ℤ (signed (minus 1)) (signed 3)))))
    × (int_not_equal test_others (minus 1) (int 3)
        ≡ some (writes (bool (not (eqb_ℤ (signed (minus 1)) (signed 3))))))
int_less-signed_example = int_less-signed test_others (minus 1) 3 (omega arith) (omega arith)

minus_sum : signed (minus 5) +ℤ signed 3 ≡ signed (minus 2)
unfolding signed
minus_sum = refl

no_trap : traps (minus 7) 2 ≡ false
unfolding traps
no_trap = refl

int_div-IsDivision_example :
    (q : ℕ) × (r : ℕ) × (int_div test_others (minus 7) (int 2) ≡ some (writes (int q)))
    × (int_mod test_others (minus 7) (int 2) ≡ some (writes (int r)))
    × IsDivision (minus 7) 2 q r
int_div-IsDivision_example =
    int_div-IsDivision test_others (minus 7) 2 (omega arith) (omega arith) no_trap

abbrev test_types : TypeNumbers
test_types = record { str_type = 2; double_type = 1; array_type = 3; map_type = 4; this_type = 3 }

abbrev two : Elements
two = some (int 10) ∷ some (int 20) ∷ []

range_of_test : range_of 1 0 two ≡ finished (some (int 20) ∷ some (int 10) ∷ [])
unfolding range_of
range_of_test = refl

check_args_test :
    check_args test_types (some (an_integer ∷ optional ∷ a_boolean ∷ [])) (int 1 ∷ []) ≡ true
unfolding check_args
check_args_test = refl

wrong_argument : array_at test_types (bool true ∷ []) two ≡ thrown
unfolding array_at
wrong_argument = refl

range_of-IsOver_example : IsOver (range_of 1 0 two)
range_of-IsOver_example = range_of-IsOver 1 0 two (omega arith)

range_of-take_example : range_of 0 1 two ≡ finished two
range_of-take_example = range_of-take 0 1 two (omega arith) (omega arith) (omega arith)

array_append-IsSafe_example :
    IsSafe (array_append test_types (int 1 ∷ []) two)
    × IsSafe (array_size test_types (int 1 ∷ []) two)
    × IsSafe (array_at test_types (int 1 ∷ []) two)
    × IsSafe (array_reverse test_types (int 1 ∷ []) two)
    × IsSafe (array_shift test_types (int 1 ∷ []) two)
    × IsSafe (array_pop test_types (int 1 ∷ []) two)
    × IsSafe (array_erase test_types (int 1 ∷ []) two)
array_append-IsSafe_example = array_append-IsSafe test_types (int 1 ∷ []) two tt

walk-all_some_example : walk test_types 3 (begin_of two) two ≡ some (int 10 ∷ int 20 ∷ [])
walk-all_some_example = walk-all_some test_types (int 10 ∷ int 20 ∷ [])

at_op_test : at_op true (int 1) (some null ∷ none ∷ []) ≡ some (some null ∷ some null ∷ [], 1)
unfolding at_op
at_op_test = refl

unmarked : marker (an_integer ∷ a_boolean ∷ []) ≡ none
unfolding marker
unmarked = refl

check_args-matches_example :
    check_args test_types (some (an_integer ∷ a_boolean ∷ [])) (int 1 ∷ int 2 ∷ [])
    ≡ matches test_types (an_integer ∷ a_boolean ∷ []) (int 1 ∷ int 2 ∷ [])
check_args-matches_example =
    check_args-matches test_types (an_integer ∷ a_boolean ∷ []) (int 1 ∷ int 2 ∷ []) unmarked

bool_equal_test : bool_equal false (bool false) ≡ writes (bool true)
unfolding bool_equal
bool_equal_test = refl

bool_not_equal_test : bool_not_equal true (int 1) ≡ keeps
unfolding bool_not_equal
bool_not_equal_test = refl

bool_not_op_test : bool_not_op true ≡ writes (bool false)
unfolding bool_not_op
bool_not_op_test = refl

at_op-bounds_example : InBounds true 1 1 (some null ∷ none ∷ []) (some null ∷ some null ∷ [])
at_op-bounds_example =
    at_op-bounds true 1 1 (some null ∷ none ∷ []) (some null ∷ some null ∷ []) at_op_test
