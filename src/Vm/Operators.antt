-- ===== src/Vm/Operators.antt =====
-- vm.cc: assignment, jumps, and the operators.
use clever.Prelude.{ℕ, Bool, true, false, not, ◌||◌, Option, none, some, if◌then◌else◌}
use clever.Ir.{Opcode, op_equal, op_nequal, fetch_tmp, Operand, Ir}
use clever.Store.{Value, null, bool, obj, is_null, as_bool, is_assignable}
use clever.Vm.{
  Vm, Error, null_operand, const_assignment, Result, ok, err, ◌>>=◌, get_pointer, cell_at,
  operand_cell, put, is_used, put_result, put_result_if_used, advance,
}
use clever.Vm.Natives.{Natives, Outcome, writes, keeps, throws}

-- What an instruction that may throw leaves behind: the thrown value, if there is one.
abbrev pub Thrown : Type 0
Thrown = Option Value

-- The result of an operator goes into the cell `p`.
unfoldable pub settle : ℕ → Outcome → Vm → Vm × Thrown
settle p (writes v) vm = (put p v vm, none)
settle p keeps vm = (vm, none)
settle p (throws v) vm = (vm, some v)

abbrev pub fail_if : Bool → Error → Result (Unit {0})
fail_if b e = if b then err e else ok tt

-- The target of a jump is taken, or else the next instruction.
abbrev pub branch : Bool → ℕ → Vm → Vm
branch b target vm = if b then record vm { pc = target } else advance vm

bool_equal : Bool → Bool → Bool
bool_equal true b = b
bool_equal false b = not b

-- A comparison in which an operand is null.
unfoldable pub null_comparison : Opcode → Bool → Bool → Bool
unfolding bool_equal
null_comparison op_equal l r = bool_equal l r
null_comparison op_nequal l r = not (bool_equal l r)
null_comparison _ l r = false

-- `OP_JMPZ` (`jump_on` is false) and `OP_JMPNZ` (`jump_on` is true).
unfoldable pub exec_jump_if : Bool → Ir → Vm → Result Vm
unfolding operand_cell put_result_if_used as_bool bool_equal
exec_jump_if jump_on ir vm = do
  c ← operand_cell ir.op1 vm
  let b = as_bool c.value
  vm₁ ← put_result_if_used ir.result (bool b) vm
  ok (branch (bool_equal b jump_on) ir.op2.jmp_addr vm₁)

-- `OP_AND`
unfoldable pub exec_and : Ir → Vm → Result Vm
unfolding operand_cell put_result as_bool
exec_and ir vm = do
  c ← operand_cell ir.op1 vm
  let b = as_bool c.value
  vm₁ ← put_result ir.result (if b then c.value else null) vm
  ok (branch (not b) ir.op2.jmp_addr vm₁)

-- `OP_OR`
unfoldable pub exec_or : Ir → Vm → Result Vm
unfolding operand_cell put_result as_bool
exec_or ir vm = do
  c ← operand_cell ir.op1 vm
  elim (as_bool c.value) [
    | true ↦ do vm₁ ← put_result ir.result c.value vm; ok (record vm₁ { pc = ir.op2.jmp_addr })
    | false ↦ ok (advance vm)
  ]

module _ (n : Natives) where
  -- `deepCopy`: an object is cloned, any other value is the same again.
  unfoldable pub deep_copy : Value → Value
  deep_copy (obj t o) = n.clone_object t o
  deep_copy v = v

  -- `setValue` with `change` false.
  unfoldable pub set_value : Operand → Value → Vm → Result Vm
  unfolding get_pointer deep_copy
  set_value op v vm = do
    p ← get_pointer op vm
    ok (put p (elim op.op_type [ fetch_tmp ↦ v | _ ↦ deep_copy v ]) vm)

  -- `OP_ASSIGN`
  unfoldable pub exec_assign : Ir → Vm → Result Vm
  unfolding operand_cell set_value put_result_if_used is_assignable
  exec_assign ir vm = do
    var ← operand_cell ir.op1 vm
    value ← operand_cell ir.op2 vm
    elim (is_assignable var) [
      | true ↦ do
        vm₁ ← set_value ir.op1 value.value vm
        vm₂ ← put_result_if_used ir.result value.value vm₁
        ok (advance vm₂)
      | false ↦ err const_assignment
    ]

  -- `binOp`: the unary operators have no second operand.
  unfoldable pub bin_op : Ir → Vm → Result (Vm × Thrown)
  unfolding operand_cell is_null settle get_pointer
  bin_op ir vm = do
    lhs ← operand_cell ir.op1 vm
    elim (is_used ir.op2) [
      | true ↦ do
        rhs ← operand_cell ir.op2 vm
        _ ← fail_if (is_null lhs.value || is_null rhs.value) null_operand
        p ← get_pointer ir.result vm
        ok (settle p (n.binary ir.opcode lhs.value rhs.value) vm)
      | false ↦ do
        _ ← fail_if (is_null lhs.value) null_operand
        p ← get_pointer ir.result vm
        ok (settle p (n.unary ir.opcode lhs.value) vm)
    ]

  -- `logicOp`
  unfoldable pub logic_op : Ir → Vm → Result (Vm × Thrown)
  unfolding operand_cell is_null settle get_pointer null_comparison
  logic_op ir vm = do
    lhs ← operand_cell ir.op1 vm
    rhs ← operand_cell ir.op2 vm
    p ← get_pointer ir.result vm
    let l = is_null lhs.value
    let r = is_null rhs.value
    let outcome =
        if l || r
        then writes (bool (null_comparison ir.opcode l r))
        else n.binary ir.opcode lhs.value rhs.value
    ok (settle p outcome vm)

  -- `OP_PRE_INC` and `OP_PRE_DEC`: the operand is changed, then copied.
  unfoldable pub pre_step : (Value → Outcome) → Error → Ir → Vm → Result (Vm × Thrown)
  unfolding operand_cell is_null settle get_pointer deep_copy cell_at
  pre_step change null_error ir vm = do
    p ← get_pointer ir.op1 vm
    c ← cell_at p vm
    _ ← fail_if (is_null c.value) null_error
    let (vm₁, thrown) = settle p (change c.value) vm
    q ← get_pointer ir.result vm₁
    changed ← cell_at p vm₁
    ok (put q (deep_copy changed.value) vm₁, thrown)

  -- `OP_POS_INC` and `OP_POS_DEC`: the operand is copied, then changed.
  unfoldable pub post_step : (Value → Outcome) → Error → Ir → Vm → Result (Vm × Thrown)
  unfolding operand_cell is_null settle get_pointer deep_copy cell_at
  post_step change null_error ir vm = do
    p ← get_pointer ir.op1 vm
    c ← cell_at p vm
    _ ← fail_if (is_null c.value) null_error
    q ← get_pointer ir.result vm
    ok (settle p (change c.value) (put q (deep_copy c.value) vm))
