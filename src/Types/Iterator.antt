-- ===== src/Types/Iterator.antt =====
-- modules/std/core/array.{h,cc}: the subscript of arrays, and their iterators. An iterator is its
-- position in the array that it belongs to.
use clever.Prelude.{
  ℕ, ◌+◌, Bool, true, false, ◌||◌, Option, none, some, List, length, get_elem?, set, leb, ltb, ◌==◌,
  if◌then◌else◌,
}
use clever.Store.{Value, null, int}
use clever.Types.Int.{is_negative}
use clever.Types.Args.{TypeNumbers, check_args}
use clever.Types.Array.{Elements, returned, Effect, done, thrown, copy_to_result}

-- `at_op`: the array, and the position whose pointer is given, which a write has made one to a value;
-- `none` is an exception.
unfoldable pub at_op : Bool → Value → Elements → Option (Elements × ℕ)
unfolding is_negative
at_op is_write (int num) es =
    if is_negative num || leb (length es) num
    then none
    else if is_write
    then elim (get_elem? es num) [
      | some none ↦ some (set es num (some null), num)
      | _ ↦ some (es, num)
    ]
    else some (es, num)
at_op is_write index es = none

-- `begin` and `end`
unfoldable pub begin_of : Elements → ℕ
begin_of es = 0

unfoldable pub end_of : Elements → ℕ
end_of es = length es

-- `ArrayIterator::get`
unfoldable pub iterator_get : TypeNumbers → List Value → ℕ → Elements → Effect
unfolding check_args copy_to_result
iterator_get ts args i es =
    if check_args ts none args
    then if i == length es then done es (returned null) else copy_to_result es (get_elem? es i)
    else thrown

-- `getNext`; C++ leaves the step behind the end undefined.
unfoldable pub get_next : ℕ → Elements → Option ℕ
get_next i es = if ltb i (length es) then some (i + 1) else none

-- `ArrayIterator::not_equal`
unfoldable pub iterator_not_equal : ℕ → ℕ → Bool
iterator_not_equal i j = if i == j then false else true
