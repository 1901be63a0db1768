-- ===== src/Vm/Nested.antt =====
-- vm.cc: `runFunction`, which runs a function from within native code.
use clever.Prelude.{ℕ, ◌-◌, true, false, Option, none, some, List, [], ◌∷◌, length, get_elem?, set}
use clever.Store.{null, alloc_cell, activate}
use clever.Vm.{Function, Vm, bad_operand, Result, ok, ◌>>=◌, or_fail}
use clever.Vm.Natives.{Natives}
use clever.Vm.Call.{param_binding}
use clever.Vm.Exceptions.{set_exception}
use clever.Vm.Step.{run}

-- The frame returns to the last instruction, which halts the run; there is no lock and no check of the
-- number of arguments.
unfoldable pub nested_frame : Natives → ℕ → Function → List ℕ → ℕ → Vm → Result Vm
unfolding activate param_binding
nested_frame n id f args result vm = do
  (fenv, s) ← or_fail (activate f.environment none vm.store) bad_operand
  env ← or_fail (get_elem? s.envs fenv) bad_operand
  let framed = record env { ret_addr = length vm.inst - 1; ret_val = some result }
  s₁ ← param_binding n f fenv args (record s { envs = set s.envs fenv framed })
  ok (record vm {
    store = s₁;
    call_stack = record { env = fenv; func = some id } ∷ vm.call_stack;
    call_args = [];
    pc = f.addr;
  })

-- An internal function is called; what it throws is left to the instruction that called this.
unfoldable pub nested_native : Natives → Function → List ℕ → ℕ → Vm → Vm
unfolding set_exception
nested_native n f args result vm =
    let (s, thrown) = n.call f.native result args vm.store in
    let called = record vm { store = s } in
    elim thrown [ none ↦ called | some v ↦ set_exception v called ]

-- The pointer of the result, and the machine, which is where it was; `none` is a run that has not
-- ended within the fuel.
unfoldable pub run_function : Natives → ℕ → ℕ → Function → List ℕ → Vm → Result (Option (ℕ × Vm))
unfolding alloc_cell nested_frame nested_native run
run_function n fuel id f args vm = do
  let (result, s) = alloc_cell (record { value = null; is_const = false }) vm.store
  let ready = record vm { store = s }
  elim f.is_internal [
    | true ↦ ok (some (result, nested_native n f args result ready))
    | false ↦ do
      entered ← nested_frame n id f args result ready
      ended ← run n fuel entered
      elim ended [ none ↦ ok none | some back ↦ ok (some (result, record back { pc = vm.pc })) ]
  ]
