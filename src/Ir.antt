-- ===== src/Ir.antt =====
-- core/opcode.h and core/ir.h: the instructions of the virtual machine.
-- The source location of an instruction serves messages only and is left out.
use clever.Prelude.{ℕ, List}

-- A pair: how many environments to escape, and which value to fetch.
abbrev pub ValueOffset : Type 0
ValueOffset = ℕ × ℕ

pub data Opcode : Type 0 where
  op_ret op_assign op_add op_sub op_mul op_div op_mod op_jmp op_fcall op_leave : Opcode
  op_send_val op_jmpz op_pre_inc op_pre_dec op_pos_inc op_pos_dec op_jmpnz op_and op_or : Opcode
  op_equal op_nequal op_lock op_unlock op_halt op_greater op_gequal op_less op_lequal : Opcode
  op_new op_mcall op_smcall op_prop_r op_sprop_r op_prop_w op_sprop_w : Opcode
  op_try op_catch op_throw op_etry op_not : Opcode
  op_bw_and op_bw_or op_bw_xor op_bw_not op_bw_ls op_bw_rs : Opcode
  op_subscript_w op_subscript_r op_bind op_bscope op_escope : Opcode

pub data OperandType : Type 0 where
  unused fetch_var fetch_const fetch_tmp jump : OperandType

pub record Operand : Type 0 where
  pub op_type : OperandType
  pub voffset : ValueOffset
  pub jmp_addr : ℕ

-- The constructors of `Operand`.
abbrev pub no_operand : Operand
no_operand = record { op_type = unused; voffset = (0, 0); jmp_addr = 0 }

abbrev pub fetch : OperandType → ValueOffset → Operand
fetch t v = record { op_type = t; voffset = v; jmp_addr = 0 }

abbrev pub jump_to : ℕ → Operand
jump_to a = record { op_type = jump; voffset = (0, 0); jmp_addr = a }

pub record Ir : Type 0 where
  pub opcode : Opcode
  pub op1 : Operand
  pub op2 : Operand
  pub result : Operand

-- The constructors of `IR`; `result` is set afterwards.
abbrev pub ir : Opcode → Operand → Operand → Ir
ir o a b = record { opcode = o; op1 = a; op2 = b; result = no_operand }

abbrev pub IrVector : Type 0
IrVector = List Ir
