-- ===== src/Types/Pops.antt =====
-- modules/std/core/array.cc: append, pop and resize one after the other.
use clever.Prelude.{
  ℕ, suc, ◌-◌, ◌^◌, ◌≤◌, ◌<◌, ◌≡◌, refl, ap, ◌∙◌, Option, none, some, [], ◌∷◌, ◌++◌, length,
  replicate, arith, get_elem?-append_length, length-append,
}
use clever.Store.{Value, null, int}
use clever.Types.Int.{is_negative}
use clever.Types.Args.{TypeNumbers, check_args, check_each}
use clever.Types.Array.{
  Elements, done, undefined, returned, append_data, copy_to_result, remove, array_append,
  out_of_range, at_index, array_at, resize_to, array_resize, take_out, array_pop,
}

remove-append_length : (es : Elements) (x : Option Value) → remove (es ++ x ∷ []) (length es) ≡ es
remove-append_length [] x = refl
remove-append_length (y ∷ es) x = ap (λ l. y ∷ l) (remove-append_length es x)

take_out_last :
    (es : Elements) (v : Value) → take_out (length es) (es ++ some v ∷ []) ≡ done es (returned v)
unfolding take_out copy_to_result
take_out_last es v =
    ap (copy_to_result (remove (es ++ some v ∷ []) (length es)))
      (get_elem?-append_length es (some v) [])
    ∙ ap (λ l. done l (returned v)) (remove-append_length es (some v))

module _ (ts : TypeNumbers) where
  array_pop_last :
      (es : Elements) (v : Value) → array_pop ts [] (es ++ some v ∷ []) ≡ done es (returned v)
  unfolding array_pop check_args
  array_pop_last [] v = take_out_last [] v
  array_pop_last (y ∷ es) v =
      ap (λ i. take_out i (y ∷ es ++ some v ∷ [])) {y = length (y ∷ es)}
        (omega (arith, length-append es (some v ∷ [])))
      ∙ take_out_last (y ∷ es) v

  -- What is appended to an array last, `pop` gives back, and leaves the array as it was.
  pub array_pop-array_append :
      (es : Elements) (v : Value)
      → (later : Elements) × (array_append ts (v ∷ []) es ≡ done later (returned null))
        × (array_pop ts [] later ≡ done es (returned v))
  unfolding array_append append_data check_args check_each
  array_pop-array_append es v = (es ++ some v ∷ [], refl, array_pop_last es v)

  resize_to-longer :
      (num : ℕ) (es : Elements)
      → length es ≤ num
      → num < 2 ^ 63
      → resize_to num es ≡ done (es ++ replicate (num - length es) none) (returned null)
  unfolding resize_to is_negative
  resize_to-longer num es h small = ground arith

  at_index_null :
      (es : Elements) (n : ℕ)
      → length es < 2 ^ 63
      → at_index (length es) (es ++ none ∷ replicate n none) ≡ undefined
  unfolding at_index out_of_range is_negative copy_to_result
  at_index_null es n small = ground (
    arith,
    get_elem?-append_length es none (replicate n none),
    length-append es (none ∷ replicate n none),
  )

  -- After a `resize` that makes an array longer, `at` of the first position that was added copies from
  -- a null pointer.
  pub array_at-array_resize :
      (es : Elements) (num : ℕ)
      → length es < num
      → num < 2 ^ 63
      → (later : Elements) × (array_resize ts (int num ∷ []) es ≡ done later (returned null))
        × (array_at ts (int (length es) ∷ []) later ≡ undefined)
  unfolding array_resize array_at
  array_at-array_resize es num h small = (
    es ++ replicate (num - length es) none,
    resize_to-longer num es (omega arith) small,
    ap (λ n. at_index (length es) (es ++ replicate n none)) {y = suc (num - length es - 1)}
          (omega arith)
        ∙ at_index_null es (num - length es - 1) (omega arith),
  )
