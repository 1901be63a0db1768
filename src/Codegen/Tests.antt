-- ===== src/Codegen/Tests.antt =====
-- codegen.cc on a small program: `while (true) { break; }`.
use clever.Prelude.{◌≡◌, refl, some, [], ◌∷◌, length, All}
use clever.Ir
use clever.Ir.{fetch_const, no_operand, fetch, jump_to, Ir, ir, IrVector}
use clever.Codegen.Ast
use clever.Codegen.Ast.{Node}
use clever.Codegen.Builder.{null_const, true_const, false_const, Builder, new_builder}
use clever.Codegen.Expressions.{no_value}
use clever.Codegen.Statements.{IteratorNames, visit_block, visit_while, visit_break}
use clever.Codegen.Visit.{visit}
use clever.Codegen.Jumps.{IsBounded}
use clever.Codegen.Jumps.Visits.{visit-CodeBounded}

abbrev names : IteratorNames
names = record { begin = 0; end_name = 1; get = 2; next = 3 }

abbrev endless : Node
endless = Ast.while_stmt Ast.true_lit (Ast.block (Ast.cons Ast.break_stmt Ast.nil))

abbrev endless_code : IrVector
endless_code =
    ir Ir.op_jmpz (record (fetch fetch_const (0, 1)) { jmp_addr = 5 }) (jump_to 5)
    ∷ ir Ir.op_bscope no_operand no_operand
    ∷ ir Ir.op_jmp (jump_to 5) no_operand
    ∷ ir Ir.op_escope no_operand no_operand
    ∷ ir Ir.op_jmp (jump_to 0) no_operand
    ∷ []

abbrev endless_builder : Builder
endless_builder = record {
  code = endless_code;
  consts = null_const ∷ true_const ∷ false_const ∷ [];
  temps = 0 ∷ [];
  temp_env = 0;
  functions = [];
  conts = [];
  brks = [];
}

visit-endless : visit names endless new_builder ≡ some (no_value, endless_builder)
unfolding visit visit_while visit_block visit_break new_builder
visit-endless = refl

visit-CodeBounded_example : All (IsBounded (length endless_code)) endless_code
visit-CodeBounded_example = visit-CodeBounded names endless no_value endless_builder visit-endless
