-- ===== src/Collection/Drained.antt =====
-- modules/std/collection: what goes into a queue and into a stack comes out, in which order.
use clever.Prelude.{
  ℕ, zero, suc, ◌+◌, ◌≡◌, refl, sym, ap, ◌∙◌, false, Option, none, some, List, [], ◌∷◌, ◌++◌,
  length, ◌>>=◌, All, arith, append_assoc, append-nil,
}
use clever.Store.{Value, is_null, null, bool, int, func, obj}
use clever.Types.Args.{TypeNumbers, check_args, accepts, check_each}
use clever.Collection.{
  Effect, done, thrown, with_element, queue_push, queue_pop, queue_front, stack_push, stack_pop,
  stack_top,
}

abbrev pub state_of : Effect → Option (List Value)
state_of (done vs out) = some vs
state_of thrown = none

abbrev pub result_of : Effect → Option Value
result_of (done vs out) = out
result_of thrown = none

-- One push after another, and one look and one pop after another.
abbrev pub pushes : (Value → List Value → Effect) → List Value → List Value → Option (List Value)
pushes push [] vs = some vs
pushes push (v ∷ new) vs = do vs' ← state_of (push v vs); pushes push new vs'

abbrev pub drain :
    (List Value → Effect) → (List Value → Effect) → ℕ → List Value → Option (List Value)
drain look pop zero vs = some []
drain look pop (suc n) vs = do
  v ← result_of (look vs)
  vs' ← state_of (pop vs)
  rest ← drain look pop n vs'
  some (v ∷ rest)

-- The values in reverse, before the others.
abbrev pub reverse_onto : List Value → List Value → List Value
reverse_onto [] st = st
reverse_onto (v ∷ vs) st = reverse_onto vs (v ∷ st)

length-reverse_onto : (vs st : List Value) → length (reverse_onto vs st) ≡ length vs + length st
length-reverse_onto [] st = omega arith
length-reverse_onto (v ∷ vs) st = omega (arith, length-reverse_onto vs (v ∷ st))

module _ (ts : TypeNumbers) where
  with_element-value :
      (v : Value) (effect : Value → Effect)
      → is_null v ≡ false
      → with_element ts (v ∷ []) effect ≡ effect v
  unfolding with_element is_null check_args check_each accepts
  with_element-value null effect h = cc h
  with_element-value (bool b) effect h = refl
  with_element-value (int n) effect h = refl
  with_element-value (func f) effect h = refl
  with_element-value (obj t p) effect h = refl

  abbrev pub push_back : Value → List Value → Effect
  push_back v = queue_push ts (v ∷ [])

  pushes_queue :
      (vs q : List Value) → All (λ v. is_null v ≡ false) vs → pushes push_back vs q ≡ some (q ++ vs)
  unfolding queue_push
  pushes_queue [] q h = ap some (sym (append-nil q))
  pushes_queue (v ∷ vs) q (h, hs) =
      ap (λ out. state_of out >>= pushes push_back vs)
        (with_element-value v (λ w. done (q ++ w ∷ []) none) h)
      ∙ pushes_queue vs (q ++ v ∷ []) hs
      ∙ ap some (append_assoc q (v ∷ []) vs)

  drain_queue :
      (vs : List Value) → drain (queue_front ts []) (queue_pop ts []) (length vs) vs ≡ some vs
  unfolding queue_front queue_pop
  drain_queue [] = refl
  drain_queue (v ∷ vs) = ap (λ r. r >>= λ rest. some (v ∷ rest)) (drain_queue vs)

  -- Values of which none is null, pushed on an empty queue one after another, come out at its front in
  -- the same order.
  pub pushes-drain :
      (vs : List Value)
      → All (λ v. is_null v ≡ false) vs
      → (pushes push_back vs [] >>= drain (queue_front ts []) (queue_pop ts []) (length vs))
        ≡ some vs
  pushes-drain vs h =
      ap (λ r. r >>= drain (queue_front ts []) (queue_pop ts []) (length vs)) (pushes_queue vs [] h)
      ∙ drain_queue vs

  abbrev pub push_top : Value → List Value → Effect
  push_top v = stack_push ts (v ∷ [])

  pushes_stack :
      (vs st : List Value)
      → All (λ v. is_null v ≡ false) vs
      → pushes push_top vs st ≡ some (reverse_onto vs st)
  unfolding stack_push
  pushes_stack [] st h = refl
  pushes_stack (v ∷ vs) st (h, hs) =
      ap (λ out. state_of out >>= pushes push_top vs)
        (with_element-value v (λ w. done (w ∷ st) none) h)
      ∙ pushes_stack vs (v ∷ st) hs

  drain_stack :
      (vs : List Value) → drain (stack_top ts []) (stack_pop ts []) (length vs) vs ≡ some vs
  unfolding stack_top stack_pop
  drain_stack [] = refl
  drain_stack (v ∷ vs) = ap (λ r. r >>= λ rest. some (v ∷ rest)) (drain_stack vs)

  -- Values of which none is null, pushed on an empty stack one after another, come off its top in the
  -- reverse order.
  pub pushes-reverse_onto :
      (vs : List Value)
      → All (λ v. is_null v ≡ false) vs
      → (pushes push_top vs [] >>= drain (stack_top ts []) (stack_pop ts []) (length vs))
        ≡ some (reverse_onto vs [])
  pushes-reverse_onto vs h =
      ap (λ r. r >>= drain (stack_top ts []) (stack_pop ts []) (length vs)) (pushes_stack vs [] h)
      ∙ ap (λ n. drain (stack_top ts []) (stack_pop ts []) n (reverse_onto vs []))
          {y = length (reverse_onto vs [])} (omega (arith, length-reverse_onto vs []))
      ∙ drain_stack (reverse_onto vs [])
