-- ===== src/Vm/Call.antt =====
-- vm.cc: parameter binding, calls and returns.
use clever.Prelude.{
  ℕ, ◌+◌, true, false, not, ◌&&◌, ◌||◌, Option, none, some, List, [], ◌∷◌, ◌++◌, length, get_elem?,
  set, take, drop, ltb, ◌==◌, if◌then◌else◌,
}
use mathlib.Core.List.{tail}
use clever.Ir.{Operand, Ir}
use clever.Store.{Value, func, Env, Store, read, write, get_value, activate, set_outer}
use clever.Vm.{
  Function, CallStackEntry, Vm, bad_operand, wrong_parameters, Result, ok, err, ◌>>=◌, or_fail,
  lock, unlock, current, env_at, get_pointer, operand_cell, is_used, advance, put,
}
use clever.Vm.Natives.{Natives}

abbrev pub function_at : ℕ → Vm → Result Function
function_at f vm = or_fail (get_elem? vm.functions f) bad_operand

unfoldable pub function_of : Value → Vm → Result Function
function_of (func f) vm = function_at f vm
function_of _ vm = err bad_operand

-- The loop of `paramBinding`: `fenv->getValue(argoff)->copy(args[i])` for consecutive offsets.
unfoldable pub bind_args : ℕ → ℕ → List ℕ → Store → Result Store
unfolding read write get_value
bind_args fenv i [] s = ok s
bind_args fenv i (arg ∷ args) s = do
  p ← or_fail (get_value fenv (0, i) s) bad_operand
  c ← or_fail (read arg s) bad_operand
  bind_args fenv (i + 1) args (write p c.value s)

-- How many arguments have a parameter of their own.
unfoldable pub bound_count : Function → ℕ → ℕ
bound_count f args_count =
    if ltb 0 f.num_args && ltb 0 args_count
    then (if ltb f.num_args args_count then f.num_args else args_count)
    else 0

module _ (n : Natives) where
  -- The array of the arguments that are left, for a variadic function.
  unfoldable pub bind_rest : Function → ℕ → List ℕ → Store → Result Store
  unfolding write get_value
  bind_rest f fenv rest s = elim f.is_variadic [
    | true ↦ do
      vararg ← or_fail (get_value fenv (0, f.num_args) s) bad_operand
      ok (write vararg (n.make_array rest s) s)
    | false ↦ ok s
  ]

  -- `paramBinding`
  unfoldable pub param_binding : Function → ℕ → List ℕ → Store → Result Store
  unfolding bind_args bind_rest bound_count
  param_binding f fenv args s = do
    let nargs = bound_count f (length args)
    s₁ ← bind_args fenv 0 (take nargs args) s
    bind_rest f fenv (drop nargs args) s₁

-- The frame of a call: the activated environment, with the address and the pointer to return to.
unfoldable pub enter_frame : Function → ℕ → Option ℕ → Operand → Vm → Result (ℕ × Vm)
unfolding activate get_pointer
enter_frame f id outer result vm = do
  (fenv, s) ← or_fail (activate f.environment outer vm.store) bad_operand
  env ← or_fail (get_elem? s.envs fenv) bad_operand
  ret_val ← get_pointer result (record vm { store = s })
  let framed = record env { ret_addr = vm.pc + 1; ret_val = some ret_val }
  ok (
    fenv,
    record vm {
      store = record s { envs = set s.envs fenv framed };
      call_stack = record { env = fenv; func = some id } ∷ vm.call_stack;
    },
  )

unfoldable pub check_arity : Function → ℕ → Result (Unit {0})
check_arity f args_count =
    if ltb args_count f.num_rargs || (ltb f.num_args args_count && not f.is_variadic)
    then err wrong_parameters
    else ok tt

module _ (n : Natives) where
  -- `prepareCall`, up to the jump.
  unfoldable pub prepare_call : ℕ → Function → Option ℕ → Ir → Vm → Result Vm
  unfolding enter_frame param_binding lock check_arity
  prepare_call id f outer ir vm = do
    locked ← lock vm
    (fenv, vm₁) ← enter_frame f id outer ir.result locked
    _ ← check_arity f (length vm.call_args)
    s ← param_binding n f fenv vm.call_args vm₁.store
    ok (unlock (record vm₁ { store = s; call_args = [] }))

-- A function object of its own for a closure, its environment activated below the frame left.
unfoldable pub close : Function → ℕ → CallStackEntry → Vm → Result (Value × Vm)
unfolding activate
close f id entry vm = elim f.is_closure [
  | true ↦ do
    (e, s) ← or_fail (activate f.environment (some entry.env) vm.store) bad_operand
    let closure = record f { environment = e; context = none }
    let made = func (length vm.functions)
    ok (made, record vm { functions = vm.functions ++ closure ∷ []; store = s })
  | false ↦ ok (func id, vm)
]

-- The value that `OP_RET` leaves in the caller.
unfoldable pub return_value : Value → CallStackEntry → Vm → Result (Value × Vm)
unfolding close
return_value (func id) entry vm = do f ← function_at id vm; close f id entry vm
return_value v entry vm = ok (v, vm)

-- Leaving the frame: `pop`, and the jump to the return address.
abbrev pub leave_frame : Env → Vm → Vm
leave_frame env vm = record vm { call_stack = tail vm.call_stack; pc = env.ret_addr }

-- Copying the operand of `OP_RET`, if it has one, into the cell that the caller waits for.
unfoldable pub return_to : Ir → CallStackEntry → Env → Vm → Result Vm
unfolding operand_cell return_value
return_to ir entry env vm = elim (is_used ir.op1) [
  | true ↦ do
    c ← operand_cell ir.op1 vm
    (v, vm₁) ← return_value c.value entry vm
    ret_val ← or_fail env.ret_val bad_operand
    ok (put ret_val v vm₁)
  | false ↦ ok vm
]

-- `OP_RET`. In the outermost frame it ends the run: `none`.
unfoldable pub exec_ret : Ir → Vm → Result (Option Vm)
unfolding current env_at return_to
exec_ret ir vm = do
  entry ← current vm
  env ← env_at entry.env vm
  if entry.env == vm.global_env
      then ok none
      else do vm₁ ← return_to ir entry env vm; ok (some (leave_frame env vm₁))

-- `OP_LEAVE`
unfoldable pub exec_leave : Vm → Result Vm
unfolding current env_at
exec_leave vm = do entry ← current vm; env ← env_at entry.env vm; ok (leave_frame env vm)

-- `OP_SEND_VAL`
unfoldable pub exec_send_val : Ir → Vm → Result Vm
unfolding get_pointer
exec_send_val ir vm = do
  p ← get_pointer ir.op1 vm
  ok (advance (record vm { call_args = vm.call_args ++ p ∷ [] }))

-- `OP_BIND`
unfoldable pub exec_bind : Ir → Vm → Result Vm
unfolding current operand_cell set_outer
exec_bind ir vm = do
  c ← operand_cell ir.op1 vm
  f ← function_of c.value vm
  fenv ← env_at f.environment vm
  entry ← current vm
  elim fenv.outer [
    | none ↦ ok (advance vm)
    | some _ ↦ do
      s ← or_fail (set_outer f.environment (some entry.env) vm.store) bad_operand
      ok (advance (record vm { store = s }))
  ]
