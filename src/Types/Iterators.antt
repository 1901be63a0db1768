-- ===== src/Types/Iterators.antt =====
-- modules/std/core/array.cc: the subscript of arrays, and a walk by their iterators.
use clever.Prelude.{
  ℕ, zero, suc, ◌+◌, ◌<◌, ◌≡◌, ◌≢◌, ◌⊎◌, inl, inr, Bool, set, leb, ◌||◌, length-set,
  get_elem?-set_self, Bool-cases, refl, get_elem?-some, sym, ap, ◌∙◌, true, false, Option, none,
  some, List, [], ◌∷◌, ◌++◌, length, get_elem?, ◌>>=◌, if◌then◌else◌, arith,
  get_elem?-append_length, length-append, append_assoc,
}
use clever.Store.{Value, null, int}
use clever.Types.Int.{is_negative}
use clever.Types.Args.{TypeNumbers, check_args}
use clever.Types.Array.{Elements, all_some, Effect, done, returned, copy_to_result}
use clever.Types.Iterator.{at_op, begin_of, end_of, iterator_get, get_next, iterator_not_equal}

abbrev made : Bool → ℕ → Elements → Option (Elements × ℕ)
made is_write num es =
    if is_write
    then elim (get_elem? es num) [
      | some none ↦ some (set es num (some null), num)
      | _ ↦ some (es, num)
    ]
    else some (es, num)

module _ (is_write : Bool) (num : ℕ) (es : Elements) where
  at_op_out : (is_negative num || leb (length es) num) ≡ true → at_op is_write (int num) es ≡ none
  unfolding at_op
  at_op_out h = rw h

  at_op_in :
      (is_negative num || leb (length es) num) ≡ false
      → at_op is_write (int num) es ≡ made is_write num es
  unfolding at_op
  at_op_in h = rw h

some_pair :
    (es later : Elements) (n pos : ℕ)
    → ◌≡◌ {A = Option (Elements × ℕ)} (some (es, n)) (some (later, pos))
    → (es ≡ later) × (n ≡ pos)
some_pair es later n pos h = (cc h, cc h)

made-null :
    (num : ℕ) (es : Elements)
    → get_elem? es num ≡ some none
    → made true num es ≡ some (set es num (some null), num)
made-null num es found = rw found

made_value :
    (num : ℕ) (es : Elements) (v : Value)
    → get_elem? es num ≡ some (some v)
    → made true num es ≡ some (es, num)
made_value num es v found = rw found

-- The position is the index, and in the array, whose length is kept; and it holds no null pointer where
-- the subscript is to write to.
abbrev pub InBounds : Bool → ℕ → ℕ → Elements → Elements → Type 0
InBounds is_write num pos es later =
    (pos ≡ num)
    × (pos < length es)
    × (length later ≡ length es)
    × ((is_write ≡ false) ⊎ (get_elem? later pos ≢ some none))

at_op_within :
    (is_write : Bool) (num pos : ℕ) (es later : Elements) (x : Option Value)
    → num < length es
    → get_elem? es num ≡ some x
    → made is_write num es ≡ some (later, pos)
    → InBounds is_write num pos es later
at_op_within false num pos es later x small found h =
    let (same, at) = some_pair es later num pos h in
    (sym at, omega arith, ap length (sym same), inl refl)
at_op_within true num pos es later none small found h =
    let (same, at) =
      some_pair (set es num (some null)) later num pos (sym (made-null num es found) ∙ h) in
    (
      sym at,
      omega arith,
      ap length (sym same) ∙ length-set es num (some null),
      inr (λ null_there. cc (get_elem?-set_self es num (some null) small, same, at, null_there)),
    )
at_op_within true num pos es later (some v) small found h =
    let (same, at) = some_pair es later num pos (sym (made_value num es v found) ∙ h) in
    (
      sym at,
      omega arith,
      ap length (sym same),
      inr (λ null_there. cc (found, same, at, null_there)),
    )

-- A subscript that is no exception is of the position that the index says, which is in the array. The
-- array keeps its length, and after a subscript to write to, the position holds no null pointer.
pub at_op-bounds :
    (is_write : Bool) (num pos : ℕ) (es later : Elements)
    → at_op is_write (int num) es ≡ some (later, pos)
    → InBounds is_write num pos es later
unfolding at_op is_negative
at_op-bounds is_write num pos es later h =
    elim (Bool-cases (is_negative num || leb (length es) num)) [
      | inl out ↦ cc (at_op_out is_write num es out, h)
      | inr within ↦
          let small : num < length es = ground (arith, within) in
          let (x, found) = get_elem?-some es num small in
          at_op_within is_write num pos es later x small found
            (sym (at_op_in is_write num es within) ∙ h)
    ]

abbrev pub value_of : Effect → Option Value
value_of (done es (returned v)) = some v
value_of _ = none

-- Walking an array with its methods: the iterator is read and stepped until it equals the end. The
-- values that were read; `none` is a walk that does not end within the fuel, or that does something
-- undefined.
unfoldable pub walk : TypeNumbers → ℕ → ℕ → Elements → Option (List Value)
unfolding end_of iterator_get get_next iterator_not_equal
walk ts zero i es = none
walk ts (suc fuel) i es =
    let next = λ (j : ℕ). walk ts fuel j es in
    if iterator_not_equal (end_of es) i
    then (do v ← value_of (iterator_get ts [] i es); j ← get_next i es; vs ← next j; some (v ∷ vs))
    else some []

module _ (ts : TypeNumbers) where
  value_of-iterator_get :
      (before : Elements) (v : Value) (vs : List Value)
      → value_of (iterator_get ts [] (length before) (before ++ some v ∷ all_some vs)) ≡ some v
  unfolding iterator_get check_args copy_to_result
  value_of-iterator_get before v vs = ground (
    arith,
    get_elem?-append_length before (some v) (all_some vs),
    length-append before (some v ∷ all_some vs),
  )

  get_next-inside :
      (before : Elements) (v : Value) (vs : List Value)
      → get_next (length before) (before ++ some v ∷ all_some vs)
        ≡ some (length (before ++ some v ∷ []))
  unfolding get_next
  get_next-inside before v vs =
      ground
        (arith, length-append before (some v ∷ all_some vs), length-append before (some v ∷ []))

  not_at_end :
      (before : Elements) (v : Value) (vs : List Value)
      → iterator_not_equal (end_of (before ++ some v ∷ all_some vs)) (length before) ≡ true
  unfolding iterator_not_equal end_of
  not_at_end before v vs = ground (arith, length-append before (some v ∷ all_some vs))

  at_end : (before : Elements) → iterator_not_equal (end_of (before ++ [])) (length before) ≡ false
  unfolding iterator_not_equal end_of
  at_end before = ground (arith, length-append before [])

  walk_round :
      (fuel i j : ℕ) (es : Elements) (v : Value) (vs : List Value)
      → iterator_not_equal (end_of es) i ≡ true
      → value_of (iterator_get ts [] i es) ≡ some v
      → get_next i es ≡ some j
      → walk ts fuel j es ≡ some vs
      → walk ts (suc fuel) i es ≡ some (v ∷ vs)
  unfolding walk
  walk_round fuel i j es v vs more got stepped rest = ground (arith, more, got, stepped, rest)

  walk-from :
      (vs : List Value) (before : Elements) (fuel : ℕ)
      → length vs < fuel
      → walk ts fuel (length before) (before ++ all_some vs) ≡ some vs
  unfolding walk
  walk-from vs before zero h = absurd (omega arith)
  walk-from [] before (suc fuel) h = rw (at_end before)
  walk-from (v ∷ vs) before (suc fuel) h =
      walk_round fuel (length before) (length (before ++ some v ∷ []))
        (before ++ some v ∷ all_some vs) v vs (not_at_end before v vs)
        (value_of-iterator_get before v vs) (get_next-inside before v vs)
        (ap (walk ts fuel (length (before ++ some v ∷ [])))
            (sym (append_assoc before (some v ∷ []) (all_some vs)))
          ∙ walk-from vs (before ++ some v ∷ []) fuel (omega arith))

  -- On an array without null pointers, an iterator that starts at `begin`, and is read by `get` and
  -- stepped by `getNext` until it equals `end`, comes to the end, and has read every element, in order.
  pub walk-all_some :
      (vs : List Value) → walk ts (length vs + 1) (begin_of (all_some vs)) (all_some vs) ≡ some vs
  unfolding begin_of
  walk-all_some vs = walk-from vs [] (length vs + 1) (omega arith)
