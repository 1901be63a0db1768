-- ===== src/Vm/Step.antt =====
-- vm.cc: `VM::run`, one instruction at a time.
use clever.Prelude.{ℕ, zero, suc, true, false, Option, none, some, [], get_elem?}
use clever.Ir
use clever.Ir.{Opcode, Operand, Ir, IrVector}
use clever.Store.{func}
use clever.Vm.{
  Function, Vm, bad_pc, not_callable, null_increment, null_decrement, Result, ok, err, ◌>>=◌,
  or_fail, lock, unlock, get_pointer, operand_cell, advance,
}
use clever.Vm.Natives.{Natives}
use clever.Vm.Call.{function_at, prepare_call, exec_ret, exec_leave, exec_send_val, exec_bind}
use clever.Vm.Operators.{
  exec_jump_if, exec_and, exec_or, exec_assign, bin_op, logic_op, pre_step, post_step,
}
use clever.Vm.Objects.{exec_prop_r, exec_prop_w, exec_sprop_r, exec_sprop_w}
use clever.Vm.Instances.{exec_new, exec_mcall, exec_smcall, exec_subscript}
use clever.Vm.Exceptions.{go_on, exec_throw, exec_try, exec_catch, exec_etry}

-- A machine that runs on, or one that has left its loop.
pub data Next : Type 0 where
  running : Vm → Next
  stopped : Vm → Next

abbrev pub running_with : Result Vm → Result Next
running_with (ok vm) = ok (running vm)
running_with (err e) = err e

module _ (n : Natives) where
  -- The call of an internal function.
  unfoldable pub call_native : Function → Ir → Vm → Result Vm
  unfolding get_pointer go_on
  call_native f ir vm = do
    p ← get_pointer ir.result vm
    let (s, thrown) = n.call f.native p vm.call_args vm.store
    go_on (record vm { store = s; call_args = [] }, thrown)

  unfoldable pub call_function : ℕ → Function → Ir → Vm → Result Vm
  unfolding prepare_call call_native
  call_function id f ir vm = elim f.is_internal [
    | true ↦ call_native f ir vm
    | false ↦ do vm₁ ← prepare_call n id f none ir vm; ok (record vm₁ { pc = f.addr })
  ]

  -- `OP_FCALL`
  unfoldable pub exec_fcall : Ir → Vm → Result Vm
  unfolding operand_cell call_function
  exec_fcall ir vm = do
    c ← operand_cell ir.op1 vm
    elim c.value [
      | func id ↦ do f ← function_at id vm; call_function id f ir vm
      | _ ↦ err not_callable
    ]

  -- An operator, and its exception.
  unfoldable pub exec_bin_op : Ir → Vm → Result Vm
  unfolding bin_op go_on
  exec_bin_op ir vm = bin_op n ir vm >>= go_on

  unfoldable pub exec_logic_op : Ir → Vm → Result Vm
  unfolding logic_op go_on
  exec_logic_op ir vm = logic_op n ir vm >>= go_on

  -- The dispatch on the opcode.
  unfoldable pub dispatch : Opcode → Ir → Vm → Result Next
  unfolding exec_ret exec_leave exec_send_val exec_bind exec_jump_if exec_and exec_or exec_assign
      exec_bin_op exec_logic_op pre_step post_step exec_fcall exec_throw exec_try exec_catch
      exec_etry lock exec_new exec_mcall exec_smcall exec_prop_r exec_prop_w exec_sprop_r
      exec_sprop_w exec_subscript
  dispatch Ir.op_ret ir vm = do
    left ← exec_ret ir vm
    elim left [ none ↦ ok (stopped vm) | some vm' ↦ ok (running vm') ]
  dispatch Ir.op_assign ir vm = running_with (exec_assign n ir vm)
  dispatch Ir.op_add ir vm = running_with (exec_bin_op ir vm)
  dispatch Ir.op_sub ir vm = running_with (exec_bin_op ir vm)
  dispatch Ir.op_mul ir vm = running_with (exec_bin_op ir vm)
  dispatch Ir.op_div ir vm = running_with (exec_bin_op ir vm)
  dispatch Ir.op_mod ir vm = running_with (exec_bin_op ir vm)
  dispatch Ir.op_not ir vm = running_with (exec_bin_op ir vm)
  dispatch Ir.op_bw_and ir vm = running_with (exec_bin_op ir vm)
  dispatch Ir.op_bw_or ir vm = running_with (exec_bin_op ir vm)
  dispatch Ir.op_bw_xor ir vm = running_with (exec_bin_op ir vm)
  dispatch Ir.op_bw_not ir vm = running_with (exec_bin_op ir vm)
  dispatch Ir.op_bw_ls ir vm = running_with (exec_bin_op ir vm)
  dispatch Ir.op_bw_rs ir vm = running_with (exec_bin_op ir vm)
  dispatch Ir.op_jmp ir vm = ok (running (record vm { pc = ir.op1.jmp_addr }))
  dispatch Ir.op_fcall ir vm = running_with (exec_fcall ir vm)
  dispatch Ir.op_leave ir vm = running_with (exec_leave vm)
  dispatch Ir.op_send_val ir vm = running_with (exec_send_val ir vm)
  dispatch Ir.op_jmpz ir vm = running_with (exec_jump_if false ir vm)
  dispatch Ir.op_jmpnz ir vm = running_with (exec_jump_if true ir vm)
  dispatch Ir.op_pre_inc ir vm =
      running_with (pre_step n n.increment null_increment ir vm >>= go_on)
  dispatch Ir.op_pre_dec ir vm =
      running_with (pre_step n n.decrement null_decrement ir vm >>= go_on)
  dispatch Ir.op_pos_inc ir vm =
      running_with (post_step n n.increment null_increment ir vm >>= go_on)
  dispatch Ir.op_pos_dec ir vm =
      running_with (post_step n n.decrement null_decrement ir vm >>= go_on)
  dispatch Ir.op_and ir vm = running_with (exec_and ir vm)
  dispatch Ir.op_or ir vm = running_with (exec_or ir vm)
  dispatch Ir.op_equal ir vm = running_with (exec_logic_op ir vm)
  dispatch Ir.op_nequal ir vm = running_with (exec_logic_op ir vm)
  dispatch Ir.op_greater ir vm = running_with (exec_logic_op ir vm)
  dispatch Ir.op_gequal ir vm = running_with (exec_logic_op ir vm)
  dispatch Ir.op_less ir vm = running_with (exec_logic_op ir vm)
  dispatch Ir.op_lequal ir vm = running_with (exec_logic_op ir vm)
  dispatch Ir.op_lock ir vm = do locked ← lock vm; ok (running (advance locked))
  dispatch Ir.op_unlock ir vm = ok (running (advance (unlock vm)))
  dispatch Ir.op_try ir vm = ok (running (exec_try ir vm))
  dispatch Ir.op_catch ir vm = running_with (exec_catch vm)
  dispatch Ir.op_throw ir vm = running_with (exec_throw ir vm)
  dispatch Ir.op_etry ir vm = running_with (exec_etry vm)
  dispatch Ir.op_bind ir vm = running_with (exec_bind ir vm)
  dispatch Ir.op_bscope ir vm = ok (running (advance vm))
  dispatch Ir.op_escope ir vm = ok (running (advance vm))
  dispatch Ir.op_halt ir vm = ok (stopped vm)
  dispatch Ir.op_new ir vm = running_with (exec_new n ir vm)
  dispatch Ir.op_mcall ir vm = running_with (exec_mcall n ir vm)
  dispatch Ir.op_smcall ir vm = running_with (exec_smcall n ir vm)
  dispatch Ir.op_prop_r ir vm = running_with (exec_prop_r n ir vm)
  dispatch Ir.op_prop_w ir vm = running_with (exec_prop_w n ir vm)
  dispatch Ir.op_sprop_r ir vm = running_with (exec_sprop_r n ir vm)
  dispatch Ir.op_sprop_w ir vm = running_with (exec_sprop_w n ir vm)
  dispatch Ir.op_subscript_r ir vm = running_with (exec_subscript n false ir vm)
  dispatch Ir.op_subscript_w ir vm = running_with (exec_subscript n true ir vm)

  unfoldable pub step : Vm → Result Next
  unfolding dispatch
  step vm = do ir ← or_fail (get_elem? vm.inst vm.pc) bad_pc; dispatch ir.opcode ir vm

  -- The loop of `run`, at most `fuel` instructions; a machine that is still running is `none`.
  unfoldable pub run : ℕ → Vm → Result (Option Vm)
  unfolding step
  run zero vm = ok none
  run (suc fuel) vm = do
    let continue = run fuel
    next ← step vm
    elim next [ running vm' ↦ continue vm' | stopped vm' ↦ ok (some vm') ]
