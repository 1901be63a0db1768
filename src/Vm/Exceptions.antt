-- ===== src/Vm/Exceptions.antt =====
-- vm.cc and cexception.h: throwing, and the stack of try blocks.
use clever.Prelude.{ℕ, true, false, Option, none, some, List, [], ◌∷◌, get_elem?, ltb}
use clever.Ir.{Ir}
use clever.Store.{Value, alloc_cell}
use clever.Vm.{
  Vm, bad_operand, bad_pc, uncaught, Result, ok, err, ◌>>=◌, or_fail, get_pointer, cell_at,
  operand_cell, put, advance,
}

-- `CException::setException`: the exception's cell is made when there is none.
unfoldable pub set_exception : Value → Vm → Vm
unfolding alloc_cell
set_exception v vm = elim vm.exception [
  | some p ↦ put p v vm
  | none ↦
      let (p, s) = alloc_cell (record { value = v; is_const = false }) vm.store in
      record vm { exception = some p; store = s }
]

-- The handler of a throw, and the stack that is left: a throw inside a catch gives that try up and
-- goes to the next one, whatever that one's state.
unfoldable pub handler : List (ℕ × ℕ) → Option (ℕ × List (ℕ × ℕ))
handler [] = none
handler ((addr, state) ∷ []) = elim (ltb 1 state) [
  | true ↦ none
  | false ↦ some (addr, (addr, state) ∷ [])
]
handler ((addr, state) ∷ (next, outer) ∷ rest) = elim (ltb 1 state) [
  | true ↦ some (next, (next, outer) ∷ rest)
  | false ↦ some (addr, (addr, state) ∷ (next, outer) ∷ rest)
]

-- The jump to a handler: its variable gets the exception, in the frame that is current.
unfoldable pub enter_handler : ℕ → List (ℕ × ℕ) → Vm → Result Vm
unfolding get_pointer cell_at
enter_handler addr stack vm = do
  exception ← or_fail vm.exception bad_operand
  c ← cell_at exception vm
  catch_start ← or_fail (get_elem? vm.inst addr) bad_pc
  p ← get_pointer catch_start.op1 vm
  let caught = put p c.value vm
  ok (record caught { exception = none; try_stack = stack; pc = addr })

-- `throw_exception`
unfoldable pub throw_exception : Vm → Result Vm
unfolding handler enter_handler
throw_exception vm = elim (handler vm.try_stack) [
  | none ↦ err (uncaught vm.exception)
  | some (addr, stack) ↦ enter_handler addr stack vm
]

-- After an instruction: go on, or throw.
unfoldable pub go_on : Vm × Option Value → Result Vm
unfolding set_exception throw_exception
go_on (vm, none) = ok (advance vm)
go_on (vm, some v) = throw_exception (set_exception v vm)

-- `OP_THROW`
unfoldable pub exec_throw : Ir → Vm → Result Vm
unfolding operand_cell set_exception throw_exception
exec_throw ir vm = do c ← operand_cell ir.op1 vm; throw_exception (set_exception c.value vm)

-- `OP_TRY`, `OP_CATCH` and `OP_ETRY`
unfoldable pub exec_try : Ir → Vm → Vm
exec_try ir vm = advance (record vm { try_stack = (ir.op1.jmp_addr, 1) ∷ vm.try_stack })

unfoldable pub exec_catch : Vm → Result Vm
exec_catch vm = elim vm.try_stack [
  | [] ↦ err bad_operand
  | (addr, state) ∷ rest ↦ ok (advance (record vm { try_stack = (addr, 2) ∷ rest }))
]

unfoldable pub exec_etry : Vm → Result Vm
exec_etry vm = elim vm.try_stack [
  | [] ↦ err bad_operand
  | top ∷ rest ↦ ok (advance (record vm { try_stack = rest }))
]
