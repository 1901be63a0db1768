-- ===== src/Codegen/Expressions.antt =====
-- core/codegen.cc: the visits of expressions. Each takes the visits of the children and gives the
-- operand that `createOp` makes of the node afterwards.
use clever.Prelude.{ℕ, ◌+◌, Bool, true, false, Option, none, some, List, [], ◌∷◌}
use clever.Ir
use clever.Ir.{
  ValueOffset, Opcode, OperandType, fetch_var, fetch_const, fetch_tmp, Operand, no_operand, fetch,
  jump_to, Ir, ir,
}
use clever.Codegen.Ast.{
  IncDecOperator, pre_inc, pre_dec, pos_inc, pos_dec, ArithOperator, mop_add, mop_sub, mop_mul,
  mop_div, mop_mod, BitwiseOperator, bop_and, bop_or, bop_xor, bop_not, bop_lshift, bop_rshift,
  ComparisonOperator, cop_equal, cop_nequal, cop_greater, cop_gequal, cop_less, cop_lequal,
  LogicOperator, lop_and, lop_or, BooleanOperator, land, lor, lnot,
}
use clever.Codegen.Builder.{
  string_const, M, pure, ◌>>=◌, ◌>>◌, push, get_size, modify, with_op2, with_result, push_const,
  get_temp, set_temp_result,
}

-- The operand of a node that is no literal, has no scope and was given no offset.
abbrev pub no_value : Operand
no_value = fetch fetch_tmp (0, 0)

-- The operand of a node with the offset and the scope of another one, which is no literal.
abbrev pub aliased : Operand → Operand
aliased op = elim op.op_type [ fetch_const ↦ fetch fetch_tmp op.voffset | _ ↦ op ]

unfoldable pub push_sends : List Operand → M (Unit {0})
unfolding push
push_sends [] = pure tt
push_sends (op ∷ ops) = do _ ← push (ir Ir.op_send_val op no_operand); push_sends ops

-- `sendArgs`
unfoldable pub send_args : M (List Operand) → M (Unit {0})
unfolding push_sends
send_args args = do ops ← args; push_sends ops

-- The method's name as an operand.
unfoldable pub string_operand : ℕ → M Operand
unfolding push_const
string_operand name = do v ← push_const (string_const name); pure (fetch fetch_const v)

-- The guard of a parameter's default value, and the assignment. `target` is the offset of the left side.
unfoldable pub visit_guard : Bool → ValueOffset → M (Unit {0})
unfolding push get_size
visit_guard false target = pure tt
visit_guard true target = do
  size ← get_size
  _ ← push (ir Ir.op_jmpnz (fetch fetch_var target) (jump_to (size + 2)))
  pure tt

unfoldable pub visit_rhs : Option (M Operand) → M Operand
visit_rhs none = pure (fetch fetch_const (0, 0))
visit_rhs (some rhs) = rhs

unfoldable pub visit_assignment :
    Bool → Bool → ValueOffset → M Operand → Option (M Operand) → M Operand
unfolding visit_guard visit_rhs push set_temp_result
visit_assignment conditional has_result target lhs rhs = do
  visit_guard conditional target
  l ← lhs
  r ← visit_rhs rhs
  assign ← push (ir Ir.op_assign l r)
  elim has_result [ true ↦ set_temp_result assign | false ↦ pure no_value ]

unfoldable pub visit_method_call : M Operand → ℕ → M (List Operand) → M Operand
unfolding send_args string_operand push set_temp_result
visit_method_call callee name args = do
  c ← callee
  send_args args
  m ← string_operand name
  call ← push (ir Ir.op_mcall c m)
  set_temp_result call

unfoldable pub visit_static_call : ValueOffset → ℕ → M (List Operand) → M Operand
unfolding send_args string_operand push set_temp_result
visit_static_call callee name args = do
  send_args args
  m ← string_operand name
  call ← push (ir Ir.op_smcall (fetch fetch_var callee) m)
  set_temp_result call

-- An evaluable callee is visited first; of any other only the offset is used.
unfoldable pub visit_function_call : Bool → ValueOffset → M Operand → M (List Operand) → M Operand
unfolding send_args push set_temp_result
visit_function_call evaluable target callee args = do
  c ← elim evaluable [ true ↦ callee | false ↦ pure (fetch fetch_var target) ]
  send_args args
  call ← push (ir Ir.op_fcall c no_operand)
  set_temp_result call

abbrev pub inc_dec_opcode : IncDecOperator → Opcode
inc_dec_opcode pre_inc = Ir.op_pre_inc
inc_dec_opcode pre_dec = Ir.op_pre_dec
inc_dec_opcode pos_inc = Ir.op_pos_inc
inc_dec_opcode pos_dec = Ir.op_pos_dec

unfoldable pub visit_inc_dec : IncDecOperator → M Operand → M Operand
unfolding push set_temp_result
visit_inc_dec op var = do v ← var; i ← push (ir (inc_dec_opcode op) v no_operand); set_temp_result i

abbrev pub bitwise_opcode : BitwiseOperator → Opcode
bitwise_opcode bop_and = Ir.op_bw_and
bitwise_opcode bop_or = Ir.op_bw_or
bitwise_opcode bop_xor = Ir.op_bw_xor
bitwise_opcode bop_not = Ir.op_bw_not
bitwise_opcode bop_lshift = Ir.op_bw_ls
bitwise_opcode bop_rshift = Ir.op_bw_rs

-- An augmented operator writes to its left operand, and is that operand afterwards.
unfoldable pub write_result : Bool → ℕ → Operand → M Operand
unfolding modify set_temp_result
write_result true i l = do modify i (with_result l); pure (aliased l)
write_result false i l = set_temp_result i

unfoldable pub visit_bitwise : BitwiseOperator → Bool → M Operand → Option (M Operand) → M Operand
unfolding push write_result set_temp_result
visit_bitwise op augmented lhs none = do
  l ← lhs
  i ← push (ir (bitwise_opcode op) l no_operand)
  set_temp_result i
visit_bitwise op augmented lhs (some rhs) = do
  l ← lhs
  r ← rhs
  i ← push (ir (bitwise_opcode op) l r)
  write_result augmented i l

abbrev pub arith_opcode : ArithOperator → Opcode
arith_opcode mop_add = Ir.op_add
arith_opcode mop_sub = Ir.op_sub
arith_opcode mop_mul = Ir.op_mul
arith_opcode mop_div = Ir.op_div
arith_opcode mop_mod = Ir.op_mod

unfoldable pub visit_arithmetic : ArithOperator → Bool → M Operand → M Operand → M Operand
unfolding push write_result
visit_arithmetic op augmented lhs rhs = do
  l ← lhs
  r ← rhs
  i ← push (ir (arith_opcode op) l r)
  write_result augmented i l

abbrev pub comparison_opcode : ComparisonOperator → Opcode
comparison_opcode cop_equal = Ir.op_equal
comparison_opcode cop_nequal = Ir.op_nequal
comparison_opcode cop_greater = Ir.op_greater
comparison_opcode cop_gequal = Ir.op_gequal
comparison_opcode cop_less = Ir.op_less
comparison_opcode cop_lequal = Ir.op_lequal

unfoldable pub visit_comparison : ComparisonOperator → M Operand → M Operand → M Operand
unfolding push set_temp_result
visit_comparison op lhs rhs = do
  l ← lhs
  r ← rhs
  i ← push (ir (comparison_opcode op) l r)
  set_temp_result i

-- The two short-circuit jumps of an operator, both into one temporary and to one address.
unfoldable pub visit_second : Opcode → ℕ → ValueOffset → M Operand → M (Unit {0})
unfolding push modify get_size
visit_second op first res rhs = do
  r ← rhs
  second ← push (ir op r no_operand)
  modify second (with_result (fetch fetch_tmp res))
  size ← get_size
  modify first (with_op2 (jump_to size))
  modify second (with_op2 (jump_to size))

unfoldable pub visit_circuit : Opcode → M Operand → Option (M Operand) → M Operand
unfolding push modify get_temp visit_second
visit_circuit op lhs rhs = do
  l ← lhs
  res ← get_temp
  first ← push (ir op l no_operand)
  modify first (with_result (fetch fetch_tmp res))
  elim rhs [ none ↦ pure tt | some r ↦ visit_second op first res r ]
  pure (fetch fetch_tmp res)

abbrev pub logic_opcode : LogicOperator → Opcode
logic_opcode lop_and = Ir.op_and
logic_opcode lop_or = Ir.op_or

unfoldable pub visit_logic : LogicOperator → M Operand → M Operand → M Operand
unfolding visit_circuit
visit_logic op lhs rhs = visit_circuit (logic_opcode op) lhs (some rhs)

abbrev pub boolean_opcode : BooleanOperator → Opcode
boolean_opcode land = Ir.op_jmpz
boolean_opcode lor = Ir.op_jmpnz
boolean_opcode lnot = Ir.op_not

unfoldable pub visit_boolean : BooleanOperator → M Operand → Option (M Operand) → M Operand
unfolding visit_circuit
visit_boolean op lhs rhs = visit_circuit (boolean_opcode op) lhs rhs

unfoldable pub visit_instantiation : ValueOffset → M (List Operand) → M Operand
unfolding send_args push set_temp_result
visit_instantiation type args = do
  send_args args
  i ← push (ir Ir.op_new (fetch fetch_var type) no_operand)
  set_temp_result i

abbrev pub property_opcode : Bool → Bool → Opcode
property_opcode true true = Ir.op_sprop_w
property_opcode true false = Ir.op_sprop_r
property_opcode false true = Ir.op_prop_w
property_opcode false false = Ir.op_prop_r

-- The first flag says static, the second one write mode.
unfoldable pub visit_property : Bool → Bool → M Operand → ℕ → M Operand
unfolding push string_operand modify set_temp_result
visit_property is_static is_write callee name = do
  c ← callee
  acc ← push (ir (property_opcode is_static is_write) c no_operand)
  m ← string_operand name
  modify acc (with_op2 m)
  set_temp_result acc

unfoldable pub visit_subscript : Bool → M Operand → M Operand → M Operand
unfolding push set_temp_result
visit_subscript is_write var index = do
  v ← var
  i ← index
  s ← push (ir (elim is_write [ true ↦ Ir.op_subscript_w | false ↦ Ir.op_subscript_r ]) v i)
  set_temp_result s
