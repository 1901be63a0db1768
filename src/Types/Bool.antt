-- ===== src/Types/Bool.antt =====
-- modules/std/core/bool.cc: the operators of Bool, which leave the result alone if the right operand
-- is no Boolean, and its constructor.
use clever.Prelude.{Bool, true, false, not, ◌≡◌, refl}
use clever.Store.{Value, bool}
use clever.Vm.Natives.{Outcome, writes, keeps}

abbrev same_bool : Bool → Bool → Bool
same_bool true b = b
same_bool false b = not b

unfoldable pub bool_equal : Bool → Value → Outcome
bool_equal a (bool b) = writes (bool (same_bool a b))
bool_equal a v = keeps

unfoldable pub bool_not_equal : Bool → Value → Outcome
bool_not_equal a (bool b) = writes (bool (not (same_bool a b)))
bool_not_equal a v = keeps

unfoldable pub bool_not_op : Bool → Outcome
bool_not_op a = writes (bool (not a))

unfoldable bool_ctor : Outcome
bool_ctor = writes (bool true)

-- Two Booleans are unequal exactly if the one equals the negation of the other.
bool_not_equal-not : (a b : Bool) → bool_not_equal a (bool b) ≡ bool_equal a (bool (not b))
unfolding bool_not_equal bool_equal
bool_not_equal-not true b = refl
bool_not_equal-not false b = refl
