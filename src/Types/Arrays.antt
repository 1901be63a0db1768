-- ===== src/Types/Arrays.antt =====
-- modules/std/core/array.cc: which methods of an array are safe, and what they give back.
use clever.Prelude.{
  ℕ, zero, suc, ◌%◌, ◌<◌, ◌≡◌, refl, sym, Bool, true, false, none, some, List, [], ◌∷◌, ◌++◌,
  length, get_elem?, if◌then◌else◌, arith, Bool-cases, inl, inr,
}
use mathlib.Core.Path.{subst}
use clever.Store.{Value, null, int}
use clever.Types.Int.{word}
use clever.Types.Args.{an_integer, rest, TypeNumbers, check_args}
use clever.Types.Array.{
  Elements, Returned, left_alone, returned, returned_array, Effect, done, thrown, undefined,
  append_data, all_some, copy_to_result, remove, reversed, array_append, array_size, out_of_range,
  at_index, with_integer, array_at, array_reverse, take_out, array_shift, array_pop, erase_at,
  array_erase,
}

-- No pointer of the array is null.
abbrev pub IsFull : Elements → Type 0
IsFull [] = Unit
IsFull (none ∷ es) = ⊥
IsFull (some v ∷ es) = IsFull es

abbrev pub IsFullResult : Returned → Type 0
IsFullResult left_alone = Unit
IsFullResult (returned v) = Unit
IsFullResult (returned_array es) = IsFull es

-- The method does nothing undefined, and leaves and gives no null pointer.
abbrev pub IsSafe : Effect → Type 0
IsSafe (done es out) = IsFull es × IsFullResult out
IsSafe thrown = Unit
IsSafe undefined = ⊥

IsFull-append : (es us : Elements) → IsFull es → IsFull us → IsFull (es ++ us)
IsFull-append [] us h h' = h'
IsFull-append (none ∷ es) us h h' = h
IsFull-append (some v ∷ es) us h h' = IsFull-append es us h h'

IsFull-all_some : (vs : List Value) → IsFull (all_some vs)
IsFull-all_some [] = tt
IsFull-all_some (v ∷ vs) = IsFull-all_some vs

IsFull-remove : (es : Elements) (i : ℕ) → IsFull es → IsFull (remove es i)
IsFull-remove [] i h = tt
IsFull-remove (none ∷ es) i h = absurd h
IsFull-remove (some v ∷ es) zero h = h
IsFull-remove (some v ∷ es) (suc i) h = IsFull-remove es i h

IsFull-reversed : (es : Elements) → IsFull es → IsFull (reversed es)
unfolding reversed
IsFull-reversed [] h = tt
IsFull-reversed (none ∷ es) h = absurd h
IsFull-reversed (some v ∷ es) h =
    IsFull-append (reversed es) (some v ∷ []) (IsFull-reversed es h) tt

IsFull-get_elem? :
    (es : Elements) (i : ℕ)
    → IsFull es
    → i < length es
    → (v : Value) × (get_elem? es i ≡ some (some v))
IsFull-get_elem? [] i h small = absurd (omega arith)
IsFull-get_elem? (none ∷ es) i h small = absurd h
IsFull-get_elem? (some v ∷ es) zero h small = (v, refl)
IsFull-get_elem? (some v ∷ es) (suc i) h small = IsFull-get_elem? es i h (omega arith)

guarded-IsSafe :
    (test : Bool) (effect other : Effect)
    → IsSafe effect
    → IsSafe other
    → IsSafe (if test then effect else other)
guarded-IsSafe true effect other h h' = h
guarded-IsSafe false effect other h h' = h'

copy_to_result-IsSafe :
    (es us : Elements) (i : ℕ)
    → IsFull es
    → IsFull us
    → i < length es
    → IsSafe (copy_to_result us (get_elem? es i))
unfolding copy_to_result
copy_to_result-IsSafe es us i h h' small =
    let (v, found) = IsFull-get_elem? es i h small in
    subst (λ x. IsSafe (copy_to_result us x)) (sym found) (h', tt)

out_of_range-false : (num : ℕ) (es : Elements) → out_of_range num es ≡ false → num < length es
unfolding out_of_range
out_of_range-false num es h = ground arith

module _ (ts : TypeNumbers) where
  with_integer-IsSafe :
      (f : ℕ → Effect) (args : List Value)
      → ((num : ℕ) → IsSafe (f num))
      → IsSafe (with_integer ts f args)
  unfolding with_integer
  with_integer-IsSafe f [] h = tt
  with_integer-IsSafe f (int num ∷ args) h =
      guarded-IsSafe (check_args ts (some (an_integer ∷ [])) (int num ∷ args)) (f num) thrown
        (h num) tt
  with_integer-IsSafe f (v ∷ args) h = tt

  at_index-IsSafe : (es : Elements) (num : ℕ) → IsFull es → IsSafe (at_index num es)
  unfolding at_index
  at_index-IsSafe es num h = elim (Bool-cases (out_of_range num es)) [
    | inl out ↦
        subst
          (λ b.
            IsSafe (if b then done es (returned null) else copy_to_result es (get_elem? es num)))
          (sym out) (h, tt)
    | inr within ↦
        subst
          (λ b.
            IsSafe (if b then done es (returned null) else copy_to_result es (get_elem? es num)))
          (sym within) (copy_to_result-IsSafe es es num h h (out_of_range-false num es within))
  ]

  take_out-IsSafe : (es : Elements) (i : ℕ) → IsFull es → i < length es → IsSafe (take_out i es)
  unfolding take_out
  take_out-IsSafe es i h small =
      copy_to_result-IsSafe es (remove es i) i h (IsFull-remove es i h) small

  erase_at-IsSafe : (es : Elements) (num : ℕ) → IsFull es → IsSafe (erase_at num es)
  unfolding erase_at
  erase_at-IsSafe es num h = elim (Bool-cases (out_of_range num es)) [
    | inl out ↦
        subst (λ b. IsSafe (if b then done es left_alone else take_out num es)) (sym out) (h, tt)
    | inr within ↦
        subst (λ b. IsSafe (if b then done es left_alone else take_out num es)) (sym within)
          (take_out-IsSafe es num h (out_of_range-false num es within))
  ]

  array_shift-IsSafe :
      (args : List Value) (es : Elements) → IsFull es → IsSafe (array_shift ts args es)
  unfolding array_shift
  array_shift-IsSafe args [] h =
      guarded-IsSafe (check_args ts none args) (done [] (returned null)) thrown (tt, tt) tt
  array_shift-IsSafe args (x ∷ es) h =
      guarded-IsSafe (check_args ts none args) (take_out 0 (x ∷ es)) thrown
        (take_out-IsSafe (x ∷ es) 0 h (omega arith)) tt

  array_pop-IsSafe : (args : List Value) (es : Elements) → IsFull es → IsSafe (array_pop ts args es)
  unfolding array_pop
  array_pop-IsSafe args [] h =
      guarded-IsSafe (check_args ts none args) (done [] (returned null)) thrown (tt, tt) tt
  array_pop-IsSafe args (x ∷ es) h =
      guarded-IsSafe (check_args ts none args) (take_out (length es) (x ∷ es)) thrown
        (take_out-IsSafe (x ∷ es) (length es) h (omega arith)) tt

  -- On an array without null pointers, and whatever their arguments, the methods append, size, at,
  -- reverse, shift, pop and erase do nothing undefined, and leave and give arrays without null pointers.
  pub array_append-IsSafe :
      (args : List Value) (es : Elements)
      → IsFull es
      → IsSafe (array_append ts args es)
        × IsSafe (array_size ts args es)
        × IsSafe (array_at ts args es)
        × IsSafe (array_reverse ts args es)
        × IsSafe (array_shift ts args es)
        × IsSafe (array_pop ts args es)
        × IsSafe (array_erase ts args es)
  unfolding array_append array_size array_at array_reverse array_erase append_data
  array_append-IsSafe args es h = (
    guarded-IsSafe (check_args ts (some (rest ∷ [])) args)
        (done (es ++ all_some args) (returned null)) thrown
        (IsFull-append es (all_some args) h (IsFull-all_some args), tt) tt,
    guarded-IsSafe (check_args ts none args) (done es (returned (int (length es % word)))) thrown
        (h, tt) tt,
    with_integer-IsSafe (λ num. at_index num es) args (λ num. at_index-IsSafe es num h),
    guarded-IsSafe (check_args ts none args) (done es (returned_array (reversed es))) thrown
        (h, IsFull-reversed es h) tt,
    array_shift-IsSafe args es h,
    array_pop-IsSafe args es h,
    with_integer-IsSafe (λ num. erase_at num es) args (λ num. erase_at-IsSafe es num h),
  )
