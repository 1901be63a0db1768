-- ===== src/Types/Each.antt =====
-- modules/std/core/array.cc: the constructor of arrays, and `each`, which runs a function of the program
-- on every element. The elements of `each` are pointers, of which none is null, and the functions leave
-- the array alone.
use clever.Prelude.{
  ℕ, suc, Bool, true, false, Option, none, some, List, [], ◌∷◌, length, ◌≡◌, refl, sym, ap, ◌∙◌,
  inl, inr, ◌⊎◌,
}
use clever.Store.{Value, Store, null, read, alloc_cell}
use clever.Vm.{Function, Vm, bad_operand, Result, ok, err, ◌>>=◌, >>=-eq-ok, or_fail}
use clever.Vm.Natives.{Natives}
use clever.Vm.Nested.{run_function, nested_native, nested_frame}
use clever.Vm.Step.{run}
use clever.Vm.Exceptions.{set_exception}
use clever.Types.Array.{Returned, returned_array, append_data, all_some}

-- `ArrayType::ctor`: an array of copies.
unfoldable pub array_ctor : List Value → Returned
unfolding append_data
array_ctor args = returned_array (append_data [] (all_some args))

-- The loop, with the fuel of every call; it gives the pointers to the results.
unfoldable pub each_loop : Natives → ℕ → ℕ → Function → List ℕ → Vm → Result (Option (List ℕ × Vm))
unfolding run_function
each_loop n fuel id f [] vm = ok (some ([], vm))
each_loop n fuel id f (p ∷ ps) vm = do
  called ← run_function n fuel id f (p ∷ []) vm
  elim called [
    | none ↦ ok none
    | some (result, vm') ↦ do
      looped ← each_loop n fuel id f ps vm'
      elim looped [ none ↦ ok none | some (results, ended) ↦ ok (some (result ∷ results, ended)) ]
  ]

-- `new ArrayObject(results)`: what the results point to at the end.
unfoldable results_of : List ℕ → Store → Option (List Value)
unfolding read
results_of [] s = some []
results_of (p ∷ ps) s =
    let others = results_of ps s in
    elim (read p s) [
      | none ↦ none
      | some c ↦ elim others [ none ↦ none | some vs ↦ some (c.value ∷ vs) ]
    ]

unfoldable pub array_each :
    Natives → ℕ → ℕ → Function → List ℕ → Vm → Result (Option (Returned × Vm))
unfolding each_loop results_of array_ctor
array_each n fuel id f ps vm = do
  looped ← each_loop n fuel id f ps vm
  elim looped [
    | none ↦ ok none
    | some (results, ended) ↦ do
      vs ← or_fail (results_of results ended.store) bad_operand
      ok (some (array_ctor vs, ended))
  ]

>>=-some {κ ℓ} :
    {A : Type κ} {B : Type ℓ} (first : Result (Option A)) (next : A → Result (Option B)) {b : B}
    → (first >>= (λ o. elim o [ none ↦ ok none | some a ↦ next a ])) ≡ ok (some b)
    → (a : A) × (first ≡ ok (some a)) × (next a ≡ ok (some b))
>>=-some (err e) next h = cc
>>=-some (ok none) next h = cc
>>=-some (ok (some a)) next h = (a, refl, h)

abbrev pc_of : {A : Type 0} → Result (Option (A × Vm)) → ℕ
pc_of (ok (some (a, vm))) = vm.pc
pc_of r = 0

abbrev count_of : Result (Option (List ℕ × Vm)) → ℕ
count_of (ok (some (ps, vm))) = length ps
count_of r = 0

chosen :
    {A : Type 0} (b : Bool) (first second : A) {a : A}
    → elim b [ true ↦ first | false ↦ second ] ≡ a
    → (first ≡ a) ⊎ (second ≡ a)
chosen true first second h = inl h
chosen false first second h = inr h

found_pc :
    {A : Type 0} (o : Option A) (nothing : Vm) (just : A → Vm) (at : ℕ)
    → nothing.pc ≡ at
    → ((a : A) → (just a).pc ≡ at)
    → (let found : Vm = elim o [ none ↦ nothing | some a ↦ just a ] in found.pc ≡ at)
found_pc none nothing just at h h' = h
found_pc (some a) nothing just at h h' = h' a

set_exception-pc : (v : Value) (vm : Vm) → (set_exception v vm).pc ≡ vm.pc
unfolding set_exception
set_exception-pc v vm = found_pc vm.exception _ _ vm.pc refl (λ p. refl)

nested_native-pc :
    (n : Natives) (f : Function) (args : List ℕ) (result : ℕ) (vm : Vm)
    → (nested_native n f args result vm).pc ≡ vm.pc
unfolding nested_native
nested_native-pc n f args result vm =
    found_pc (n.call f.native result args vm.store).1 _ _ vm.pc refl (λ v. set_exception-pc v _)

-- The machine is back where it was.
run_function-pc :
    (n : Natives) (fuel id : ℕ) (f : Function) (args : List ℕ) (vm : Vm) {result : ℕ} {vm' : Vm}
    → run_function n fuel id f args vm ≡ ok (some (result, vm'))
    → vm'.pc ≡ vm.pc
unfolding run_function
run_function-pc n fuel id f args vm h =
    let (result, s) = alloc_cell (record { value = null; is_const = false }) vm.store in
    let ready = record vm { store = s } in
    elim (chosen f.is_internal _ _ h) [
      | inl native ↦ sym (ap pc_of native) ∙ nested_native-pc n f args result ready
      | inr framed ↦
          let (entered, h₁, h₂) = >>=-eq-ok (nested_frame n id f args result ready) _ framed in
          let (back, h₃, h₄) = >>=-some (run n fuel entered) _ h₂ in sym (ap pc_of h₄)
    ]

pub each_loop-length :
    (n : Natives) (fuel id : ℕ) (f : Function) (ps : List ℕ) (vm : Vm) {qs : List ℕ} {ended : Vm}
    → each_loop n fuel id f ps vm ≡ ok (some (qs, ended))
    → (length qs ≡ length ps) × (ended.pc ≡ vm.pc)
unfolding each_loop
each_loop-length n fuel id f [] vm h = (cc, cc)
each_loop-length n fuel id f (p ∷ ps) vm h =
    let ((result, vm'), called, h₁) = >>=-some (run_function n fuel id f (p ∷ []) vm) _ h in
    let ((results, last), looped, h₂) = >>=-some (each_loop n fuel id f ps vm') _ h₁ in
    let (same_length, same_pc) = each_loop-length n fuel id f ps vm' looped in
    let back = run_function-pc n fuel id f (p ∷ []) vm called in
    (sym (ap count_of h₂) ∙ ap suc same_length, sym (ap pc_of h₂) ∙ same_pc ∙ back)
