-- ===== src/Collection.antt =====
-- modules/std/collection/cqueue.cc and cstack.cc: queues and stacks. A queue is the list of its
-- elements, front first, a stack the list of its elements, top first.
pub mod Drained
pub mod Ordered
pub mod Sets
mod Tests
use clever.Prelude.{
  ℕ, suc, ◌%◌, Bool, true, false, Option, none, some, List, [], ◌∷◌, ◌++◌, length, if◌then◌else◌,
}
use clever.Store.{Value, null, bool, int}
use clever.Types.Int.{word}
use clever.Types.Args.{Spec, not_null, TypeNumbers, check_args}

-- A method ends with the object, and what it puts into its result (`none` leaves the result alone), or
-- sets an exception.
pub data Effect : Type 0 where
  done : List Value → Option Value → Effect
  thrown : Effect

abbrev pub is_empty : List Value → Bool
is_empty [] = true
is_empty (v ∷ vs) = false

abbrev pub tail : List Value → List Value
tail [] = []
tail (v ∷ vs) = vs

abbrev pub head_or_null : List Value → Value
head_or_null [] = null
head_or_null (v ∷ vs) = v

abbrev pub last_or_null : List Value → Value
last_or_null [] = null
last_or_null (v ∷ []) = v
last_or_null (v ∷ w ∷ vs) = last_or_null (w ∷ vs)

module _ (ts : TypeNumbers) where
  -- Methods without arguments, and `push`.
  unfoldable pub without_args : List Value → Effect → Effect
  unfolding check_args
  without_args args effect = if check_args ts none args then effect else thrown

  unfoldable pub with_element : List Value → (Value → Effect) → Effect
  unfolding check_args
  with_element [] effect = thrown
  with_element (v ∷ args) effect =
      if check_args ts (some (not_null ∷ [])) (v ∷ args) then effect v else thrown

  unfoldable pub queue_push : List Value → List Value → Effect
  unfolding with_element
  queue_push args q = with_element args (λ v. done (q ++ v ∷ []) none)

  unfoldable pub queue_pop : List Value → List Value → Effect
  unfolding without_args
  queue_pop args q = without_args args (done (tail q) none)

  unfoldable pub queue_front : List Value → List Value → Effect
  unfolding without_args
  queue_front args q = without_args args (done q (some (head_or_null q)))

  unfoldable pub queue_back : List Value → List Value → Effect
  unfolding without_args
  queue_back args q = without_args args (done q (some (last_or_null q)))

  unfoldable pub queue_size : List Value → List Value → Effect
  unfolding without_args
  queue_size args q = without_args args (done q (some (int (length q % word))))

  unfoldable pub queue_empty : List Value → List Value → Effect
  unfolding without_args
  queue_empty args q = without_args args (done q (some (bool (is_empty q))))

  unfoldable pub stack_push : List Value → List Value → Effect
  unfolding with_element
  stack_push args st = with_element args (λ v. done (v ∷ st) none)

  unfoldable pub stack_pop : List Value → List Value → Effect
  unfolding without_args
  stack_pop args st = without_args args (done (tail st) none)

  unfoldable pub stack_top : List Value → List Value → Effect
  unfolding without_args
  stack_top args st = without_args args (done st (some (head_or_null st)))

  unfoldable pub stack_size : List Value → List Value → Effect
  unfolding without_args
  stack_size args st = without_args args (done st (some (int (length st % word))))

  unfoldable pub stack_empty : List Value → List Value → Effect
  unfolding without_args
  stack_empty args st = without_args args (done st (some (bool (is_empty st))))
