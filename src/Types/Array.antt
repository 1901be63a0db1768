-- ===== src/Types/Array.antt =====
-- modules/std/core/array.{h,cc}: arrays. An array is the list of what its pointers point to; a null
-- pointer is `none`.
use clever.Prelude.{
  ℕ, zero, suc, ◌-◌, ◌%◌, Bool, true, false, ◌||◌, Option, none, some, List, [], ◌∷◌, ◌++◌, length,
  get_elem?, replicate, ltb, leb, if◌then◌else◌,
}
use clever.Store.{Value, null, int}
use clever.Types.Int.{word, is_negative}
use clever.Types.Args.{an_integer, rest, TypeNumbers, check_args}

abbrev pub Elements : Type 0
Elements = List (Option Value)

-- What a method puts into its result: nothing, a value, or a new array.
pub data Returned : Type 0 where
  left_alone : Returned
  returned : Value → Returned
  returned_array : Elements → Returned

-- A method ends with the array and its result, sets an exception, or does something undefined.
pub data Effect : Type 0 where
  done : Elements → Returned → Effect
  thrown undefined : Effect

-- `ArrayObject::append` of values and of null pointers.
unfoldable pub append_data : Elements → Elements → Elements
append_data es added = es ++ added

-- `append(args)`: copies of the arguments.
abbrev pub all_some : List Value → Elements
all_some [] = []
all_some (v ∷ vs) = some v ∷ all_some vs

-- `result->copy(p)`: a null pointer is undefined behaviour.
unfoldable pub copy_to_result : Elements → Option (Option Value) → Effect
copy_to_result es none = undefined
copy_to_result es (some none) = undefined
copy_to_result es (some (some v)) = done es (returned v)

abbrev pub remove : Elements → ℕ → Elements
remove [] i = []
remove (x ∷ es) zero = es
remove (x ∷ es) (suc i) = x ∷ remove es i

unfoldable pub reversed : Elements → Elements
reversed [] = []
reversed (x ∷ es) = reversed es ++ x ∷ []

-- `num < 0 || arr.size() <= size_t(num)`
unfoldable pub out_of_range : ℕ → Elements → Bool
unfolding is_negative
out_of_range num es = is_negative num || leb (length es) num

unfoldable pub at_index : ℕ → Elements → Effect
unfolding out_of_range copy_to_result
at_index num es =
    if out_of_range num es then done es (returned null) else copy_to_result es (get_elem? es num)

unfoldable pub resize_to : ℕ → Elements → Effect
unfolding is_negative
resize_to num es =
    if is_negative num || ltb num (length es)
    then done es (returned null)
    else done (es ++ replicate (num - length es) none) (returned null)

-- `result->copy(vec[i])`, `vec[i]->delRef()`, `vec.erase`.
unfoldable pub take_out : ℕ → Elements → Effect
unfolding copy_to_result
take_out i es = copy_to_result (remove es i) (get_elem? es i)

unfoldable pub erase_at : ℕ → Elements → Effect
unfolding take_out out_of_range
erase_at num es = if out_of_range num es then done es left_alone else take_out num es

module _ (ts : TypeNumbers) where
  unfoldable pub array_append : List Value → Elements → Effect
  unfolding append_data check_args
  array_append args es =
      if check_args ts (some (rest ∷ [])) args
      then done (append_data es (all_some args)) (returned null)
      else thrown

  unfoldable pub array_size : List Value → Elements → Effect
  unfolding check_args
  array_size args es =
      if check_args ts none args then done es (returned (int (length es % word))) else thrown

  -- Methods of one integer: `clever_check_args("i")`, and `args[0]->getInt()`.
  unfoldable pub with_integer : (ℕ → Effect) → List Value → Effect
  unfolding check_args
  with_integer f (int num ∷ args) =
      if check_args ts (some (an_integer ∷ [])) (int num ∷ args) then f num else thrown
  with_integer f args = thrown

  unfoldable pub array_at : List Value → Elements → Effect
  unfolding at_index with_integer
  array_at args es = with_integer (λ num. at_index num es) args

  unfoldable pub array_resize : List Value → Elements → Effect
  unfolding resize_to with_integer
  array_resize args es = with_integer (λ num. resize_to num es) args

  unfoldable pub array_reverse : List Value → Elements → Effect
  unfolding reversed check_args
  array_reverse args es =
      if check_args ts none args then done es (returned_array (reversed es)) else thrown

  unfoldable pub array_shift : List Value → Elements → Effect
  unfolding take_out check_args
  array_shift args [] = if check_args ts none args then done [] (returned null) else thrown
  array_shift args (x ∷ es) = if check_args ts none args then take_out 0 (x ∷ es) else thrown

  unfoldable pub array_pop : List Value → Elements → Effect
  unfolding take_out check_args
  array_pop args [] = if check_args ts none args then done [] (returned null) else thrown
  array_pop args (x ∷ es) =
      if check_args ts none args then take_out (length es) (x ∷ es) else thrown

  unfoldable pub array_erase : List Value → Elements → Effect
  unfolding erase_at with_integer
  array_erase args es = with_integer (λ num. erase_at num es) args

-- `ArrayType::add` of two arrays: the result's array, which is a new one unless the result is the left
-- operand; `true` is `result == lhs`.
unfoldable pub array_add : Bool → Elements → Elements → Elements × Returned
unfolding append_data
array_add true es es' = (append_data es es', left_alone)
array_add false es es' = (es, returned_array (append_data es es'))
