-- ===== src/Collection/Sets.antt =====
-- modules/std/collection/cset.cc: sets with a comparison in the language.
pub mod Algebra
pub mod Functions
pub mod Operators
mod Tests
use clever.Prelude.{
  ℕ, ◌%◌, Bool, true, false, not, Option, none, some, List, [], ◌∷◌, length, ltb, if◌then◌else◌,
}
use clever.Store.{Value, bool, int, func, as_bool}
use clever.Types.Int.{word}
use clever.Types.Args.{a_function, not_null, TypeNumbers, check_args}
use clever.Collection.Ordered.{insert, find, is_some}

-- An element carries the function that compares it.
pub record CSetValue : Type 0 where
  pub element : Value
  pub comp : ℕ

-- `CSetObject`
pub record CSet : Type 0 where
  pub set : List CSetValue
  pub comp : ℕ

-- A method ends with the set and what it puts into its result (`none` leaves the result alone), or sets
-- an exception.
pub data Effect : Type 0 where
  done : CSet → Option Value → Effect
  thrown : Effect

abbrev pub is_empty : List CSetValue → Bool
is_empty [] = true
is_empty (x ∷ xs) = false

-- `run` is `runFunction` of a comparison on two values.
module _ (run : ℕ → Value → Value → Value) where
  -- `CSetObjectCompare`: the function of the left element decides.
  unfoldable pub compare : CSetValue → CSetValue → Bool
  unfolding as_bool
  compare a b = as_bool (run a.comp a.element b.element)

  -- `set.find(x) != set.end()`
  unfoldable pub has : List CSetValue → CSetValue → Bool
  unfolding find compare
  has s x = is_some (find compare x s)

  -- The loops of the operators: what passes the test goes into the new set.
  unfoldable pub insert_where :
      (CSetValue → Bool) → List CSetValue → List CSetValue → List CSetValue
  unfolding insert compare
  insert_where test [] c = c
  insert_where test (x ∷ xs) c = insert_where test xs (if test x then insert compare x c else c)

  -- The second loop of the union asks the set that it fills.
  unfoldable pub insert_missing : List CSetValue → List CSetValue → List CSetValue
  unfolding insert compare has
  insert_missing [] c = c
  insert_missing (x ∷ xs) c = insert_missing xs (if has c x then c else insert compare x c)

  -- `+`, `*`, `-` and `/`
  unfoldable pub set_add : CSet → CSet → CSet
  unfolding insert_where insert_missing
  set_add a b = record {
    set = insert_missing b.set (insert_where (λ x. true) a.set []);
    comp = a.comp;
  }

  unfoldable pub set_mul : CSet → CSet → CSet
  unfolding insert_where has
  set_mul a b = record { set = insert_where (has b.set) a.set []; comp = a.comp }

  unfoldable pub set_sub : CSet → CSet → CSet
  unfolding insert_where has
  set_sub a b = record { set = insert_where (λ x. not (has b.set x)) a.set []; comp = a.comp }

  unfoldable pub set_div : CSet → CSet → CSet
  unfolding insert_where has
  set_div a b = record {
    set =
        insert_where (λ x. not (has a.set x)) b.set
          (insert_where (λ x. not (has b.set x)) a.set []);
    comp = a.comp;
  }

  module _ (ts : TypeNumbers) where
    -- A function with fewer than two required parameters is refused; `none` sets an exception.
    unfoldable pub set_ctor : (ℕ → ℕ) → List Value → Option CSet
    unfolding check_args
    set_ctor num_rargs (func f ∷ args) =
        if check_args ts (some (a_function ∷ [])) (func f ∷ args)
        then (if ltb (num_rargs f) 2 then none else some (record { set = []; comp = f }))
        else none
    set_ctor num_rargs args = none

    unfoldable pub set_insert : List Value → CSet → Effect
    unfolding check_args insert compare
    set_insert [] s = thrown
    set_insert (v ∷ args) s =
        if check_args ts (some (not_null ∷ [])) (v ∷ args)
        then done (record s { set = insert compare (record { element = v; comp = s.comp }) s.set })
            none
        else thrown

    unfoldable pub set_size : List Value → CSet → Effect
    unfolding check_args
    set_size args s =
        if check_args ts none args then done s (some (int (length s.set % word))) else thrown

    unfoldable pub set_empty : List Value → CSet → Effect
    unfolding check_args
    set_empty args s =
        if check_args ts none args then done s (some (bool (is_empty s.set))) else thrown

    unfoldable pub set_find : List Value → CSet → Effect
    unfolding check_args find compare
    set_find [] s = thrown
    set_find (v ∷ args) s =
        if check_args ts (some (not_null ∷ [])) (v ∷ args)
        then done s (
            some (elim (find compare (record { element = v; comp = s.comp }) s.set) [
              | none ↦ bool false
              | some x ↦ x.element
            ]))
        else thrown
