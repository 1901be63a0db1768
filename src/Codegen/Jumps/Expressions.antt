-- ===== src/Codegen/Jumps/Expressions.antt =====
-- core/codegen.cc: the visits of expressions keep the addresses in bounds.
use clever.Prelude.{
  ◌≤◌, ◌+◌, ℕ, ◌≡◌, refl, Bool, true, false, Option, none, some, List, [], ◌∷◌, arith, All,
}
use clever.Ir
use clever.Ir.{
  ValueOffset, OperandType, unused, fetch_var, fetch_const, fetch_tmp, jump, Opcode, Operand,
  no_operand, fetch, jump_to, Ir, ir,
}
use clever.Codegen.Ast.{
  IncDecOperator, BitwiseOperator, ArithOperator, ComparisonOperator, LogicOperator,
  BooleanOperator,
}
use clever.Codegen.Builder.{
  ◌>>=◌, ◌>>◌, get_size, string_const, M, pure, push, with_op2, with_result, set_temp_result,
}
use clever.Codegen.Expressions.{
  no_value, aliased, push_sends, send_args, string_operand, visit_guard, visit_rhs,
  visit_assignment, visit_method_call, visit_static_call, visit_function_call, inc_dec_opcode,
  visit_inc_dec, bitwise_opcode, write_result, visit_bitwise, arith_opcode, visit_arithmetic,
  comparison_opcode, visit_comparison, visit_second, visit_circuit, logic_opcode, visit_logic,
  boolean_opcode, visit_boolean, visit_instantiation, property_opcode, visit_property,
  visit_subscript,
}
use clever.Codegen.Jumps.{
  IsPlain, Any, Good, bind-Good, pure-Good, weaken-Good, push-Good, modify-Good, size-Good,
  push_const-Good, ahead-Good, Grows, bind-Grows, later-Grows, first-Grows, push-Grows,
  get_temp-Good, set_temp_result-Good,
}

-- What is in bounds without a condition is so under any.
pub free-Good :
    {A : Type 0} {n : ℕ} {P : Type 0} {Q : A → Type 0} {m : M A}
    → Good n (Unit {0}) Q m
    → Good n P Q m
free-Good = weaken-Good λ p. tt

aliased-IsPlain : (op : Operand) → IsPlain op → IsPlain (aliased op)
aliased-IsPlain op h = by_type op.op_type refl
  where
    by_type : (t : OperandType) → op.op_type ≡ t → IsPlain (aliased op)
    by_type unused e = ground (arith, e)
    by_type fetch_var e = ground (arith, e)
    by_type fetch_const e = ground (arith, e)
    by_type fetch_tmp e = ground (arith, e)
    by_type jump e = ground (arith, e)

-- The visit of an operand, of an optional one, and of a list.
abbrev pub Sound : ℕ → M Operand → Type 0
Sound n m = Good n (Unit {0}) IsPlain m

abbrev pub Sounds : ℕ → Option (M Operand) → Type 0
Sounds n none = Unit {0}
Sounds n (some m) = Sound n m

abbrev pub AllSound : ℕ → M (List Operand) → Type 0
AllSound n m = Good n (Unit {0}) (All IsPlain) m

-- What an assignment does behind its guard.
abbrev behind_guard : Bool → M Operand → Option (M Operand) → M Operand
behind_guard has_result lhs rhs = do
  l ← lhs
  r ← visit_rhs rhs
  assign ← push (ir Ir.op_assign l r)
  elim has_result [ true ↦ set_temp_result assign | false ↦ pure no_value ]

-- The guard, once the size is known.
abbrev guard_at : ValueOffset → ℕ → M (Unit {0})
guard_at target s = do _ ← push (ir Ir.op_jmpnz (fetch fetch_var target) (jump_to (s + 2))); pure tt

guard_at-Grows : (target : ValueOffset) (s : ℕ) → Grows 1 (guard_at target s)
guard_at-Grows target s =
    first-Grows 1 (push-Grows (ir Ir.op_jmpnz (fetch fetch_var target) (jump_to (s + 2))))
      λ _. pure-Good {n = 0} {P = Unit {0}} {Q = Any} tt tt

module _ {n : ℕ} where
  module _ {P : Type 0} where
    -- An instruction on plain operands.
    pub plain-Good :
        (o : Opcode) (a b : Operand) → IsPlain a → IsPlain b → Good n P Any (push (ir o a b))
    plain-Good o a b ha hb = push-Good (ir o a b) λ p. (omega (arith, ha), omega (arith, hb))

    push_sends-Good : (ops : List Operand) → All IsPlain ops → Good n P Any (push_sends ops)
    unfolding push_sends
    push_sends-Good [] h = pure-Good tt tt
    push_sends-Good (op ∷ ops) h =
        bind-Good (plain-Good Ir.op_send_val op no_operand h.0 refl) λ _ _. push_sends-Good ops h.1

    pub send_args-Good : (args : M (List Operand)) → AllSound n args → Good n P Any (send_args args)
    unfolding send_args
    send_args-Good args h = bind-Good (free-Good h) push_sends-Good

    pub string_operand-Good : (name : ℕ) → Good n P IsPlain (string_operand name)
    unfolding string_operand
    string_operand-Good name =
        bind-Good (push_const-Good (string_const name)) λ v _. pure-Good (fetch fetch_const v) refl

    write_result-Good :
        (augmented : Bool) (i : ℕ) (l : Operand)
        → IsPlain l
        → Good n P IsPlain (write_result augmented i l)
    unfolding write_result
    write_result-Good true i l hl =
        bind-Good (modify-Good i (with_result l) λ p j h. h)
          λ _ _. pure-Good (aliased l) (aliased-IsPlain l hl)
    write_result-Good false i l hl = set_temp_result-Good i

    visit_rhs-Good : (rhs : Option (M Operand)) → Sounds n rhs → Good n P IsPlain (visit_rhs rhs)
    unfolding visit_rhs
    visit_rhs-Good none h = pure-Good (fetch fetch_const (0, 0)) refl
    visit_rhs-Good (some rhs) h = free-Good h

  module _ (has_result : Bool) (lhs : M Operand) (rhs : Option (M Operand)) where
    finish-Sound :
        (b : Bool) (i : ℕ) → Sound n (elim b [ true ↦ set_temp_result i | false ↦ pure no_value ])
    finish-Sound true i = set_temp_result-Good i
    finish-Sound false i = pure-Good no_value refl

    behind_guard-Sound : Sound n lhs → Sounds n rhs → Sound n (behind_guard has_result lhs rhs)
    behind_guard-Sound hl hr = bind-Good hl λ l pl.
        bind-Good (visit_rhs-Good rhs hr)
          λ r pr. bind-Good (plain-Good Ir.op_assign l r pl pr) λ i _. finish-Sound has_result i

    behind_guard-Grows : Sound n lhs → Sounds n rhs → Grows 1 (behind_guard has_result lhs rhs)
    behind_guard-Grows hl hr = later-Grows 1 hl λ l.
        later-Grows 1 (visit_rhs-Good {P = Unit {0}} rhs hr)
          λ r. first-Grows 1 (push-Grows (ir Ir.op_assign l r)) λ i. finish-Sound has_result i

  guard_at-Good :
      {P : Type 0} (target : ValueOffset) (s : ℕ)
      → (P → s + 2 ≤ n)
      → Good n P Any (guard_at target s)
  guard_at-Good target s hs =
      bind-Good
        (push-Good (ir Ir.op_jmpnz (fetch fetch_var target) (jump_to (s + 2)))
          λ p. (omega arith, hs p))
        λ _ _. pure-Good tt tt

  pub visit_assignment-Sound :
      (conditional has_result : Bool) (target : ValueOffset) (lhs : M Operand)
      (rhs : Option (M Operand))
      → Sound n lhs
      → Sounds n rhs
      → Sound n (visit_assignment conditional has_result target lhs rhs)
  unfolding visit_assignment visit_guard get_size
  visit_assignment-Sound false has_result target lhs rhs hl hr =
      behind_guard-Sound has_result lhs rhs hl hr
  visit_assignment-Sound true has_result target lhs rhs hl hr =
      ahead-Good {f = λ s. guard_at target s >> behind_guard has_result lhs rhs} 2
        (λ s.
          bind-Grows 1 1 (guard_at-Grows target s) λ _. behind_guard-Grows has_result lhs rhs hl hr)
        λ s.
          bind-Good (guard_at-Good target s λ p. p.1)
            λ _ _. free-Good (behind_guard-Sound has_result lhs rhs hl hr)

  pub visit_method_call-Sound :
      (callee : M Operand) (name : ℕ) (args : M (List Operand))
      → Sound n callee
      → AllSound n args
      → Sound n (visit_method_call callee name args)
  unfolding visit_method_call
  visit_method_call-Sound callee name args hc ha = bind-Good hc λ c pc.
      bind-Good (send_args-Good args ha) λ _ _.
        bind-Good (string_operand-Good name)
          λ m pm. bind-Good (plain-Good Ir.op_mcall c m pc pm) λ i _. set_temp_result-Good i

  pub visit_static_call-Sound :
      (callee : ValueOffset) (name : ℕ) (args : M (List Operand))
      → AllSound n args
      → Sound n (visit_static_call callee name args)
  unfolding visit_static_call
  visit_static_call-Sound callee name args ha = bind-Good (send_args-Good args ha) λ _ _.
      bind-Good (string_operand-Good name) λ m pm.
        bind-Good (plain-Good Ir.op_smcall (fetch fetch_var callee) m refl pm)
          λ i _. set_temp_result-Good i

  pub visit_function_call-Sound :
      (evaluable : Bool) (target : ValueOffset) (callee : M Operand) (args : M (List Operand))
      → Sound n callee
      → AllSound n args
      → Sound n (visit_function_call evaluable target callee args)
  unfolding visit_function_call
  visit_function_call-Sound evaluable target callee args hc ha =
      bind-Good (chosen evaluable) λ c pc.
        bind-Good (send_args-Good args ha) λ _ _.
          bind-Good (plain-Good Ir.op_fcall c no_operand pc refl) λ i _. set_temp_result-Good i
    where
      chosen :
          (b : Bool) → Sound n (elim b [ true ↦ callee | false ↦ pure (fetch fetch_var target) ])
      chosen true = hc
      chosen false = pure-Good (fetch fetch_var target) refl

  pub visit_inc_dec-Sound :
      (op : IncDecOperator) (var : M Operand) → Sound n var → Sound n (visit_inc_dec op var)
  unfolding visit_inc_dec
  visit_inc_dec-Sound op var h = bind-Good h λ v pv.
      bind-Good (plain-Good (inc_dec_opcode op) v no_operand pv refl) λ i _. set_temp_result-Good i

  pub visit_bitwise-Sound :
      (op : BitwiseOperator) (augmented : Bool) (lhs : M Operand) (rhs : Option (M Operand))
      → Sound n lhs
      → Sounds n rhs
      → Sound n (visit_bitwise op augmented lhs rhs)
  unfolding visit_bitwise
  visit_bitwise-Sound op augmented lhs none hl hr = bind-Good hl λ l pl.
      bind-Good (plain-Good (bitwise_opcode op) l no_operand pl refl) λ i _. set_temp_result-Good i
  visit_bitwise-Sound op augmented lhs (some rhs) hl hr = bind-Good hl λ l pl. bind-Good hr λ r pr.
      bind-Good (plain-Good (bitwise_opcode op) l r pl pr) λ i _. write_result-Good augmented i l pl

  pub visit_arithmetic-Sound :
      (op : ArithOperator) (augmented : Bool) (lhs rhs : M Operand)
      → Sound n lhs
      → Sound n rhs
      → Sound n (visit_arithmetic op augmented lhs rhs)
  unfolding visit_arithmetic
  visit_arithmetic-Sound op augmented lhs rhs hl hr = bind-Good hl λ l pl. bind-Good hr λ r pr.
      bind-Good (plain-Good (arith_opcode op) l r pl pr) λ i _. write_result-Good augmented i l pl

  pub visit_comparison-Sound :
      (op : ComparisonOperator) (lhs rhs : M Operand)
      → Sound n lhs
      → Sound n rhs
      → Sound n (visit_comparison op lhs rhs)
  unfolding visit_comparison
  visit_comparison-Sound op lhs rhs hl hr = bind-Good hl λ l pl.
      bind-Good hr λ r pr.
        bind-Good (plain-Good (comparison_opcode op) l r pl pr) λ i _. set_temp_result-Good i

  visit_second-Good :
      (op : Opcode) (first : ℕ) (res : ValueOffset) (rhs : M Operand)
      → Sound n rhs
      → Good n (Unit {0}) Any (visit_second op first res rhs)
  unfolding visit_second
  visit_second-Good op first res rhs hr = bind-Good hr λ r pr.
      bind-Good (plain-Good op r no_operand pr refl) λ second _.
        bind-Good (modify-Good second (with_result (fetch fetch_tmp res)) λ p j h. h) λ _ _.
          size-Good λ s.
            bind-Good (modify-Good first (with_op2 (jump_to s)) λ p j h. (h.0, omega (arith, p.1)))
              λ _ _. modify-Good second (with_op2 (jump_to s)) λ p j h. (h.0, omega (arith, p.1))

  visit_circuit-Sound :
      (op : Opcode) (lhs : M Operand) (rhs : Option (M Operand))
      → Sound n lhs
      → Sounds n rhs
      → Sound n (visit_circuit op lhs rhs)
  unfolding visit_circuit
  visit_circuit-Sound op lhs rhs hl hr = bind-Good hl λ l pl. bind-Good get_temp-Good λ res _.
      bind-Good (plain-Good op l no_operand pl refl) λ first _.
        bind-Good (modify-Good first (with_result (fetch fetch_tmp res)) λ p j h. h)
          λ _ _. bind-Good (second rhs hr first res) λ _ _. pure-Good (fetch fetch_tmp res) refl
    where
      second :
          (o : Option (M Operand))
          → Sounds n o
          → (first : ℕ) (res : ValueOffset)
          → Good n (Unit {0}) Any (elim o [ none ↦ pure tt | some r ↦ visit_second op first res r ])
      second none h first res = pure-Good tt tt
      second (some r) h first res = visit_second-Good op first res r h

  pub visit_logic-Sound :
      (op : LogicOperator) (lhs rhs : M Operand)
      → Sound n lhs
      → Sound n rhs
      → Sound n (visit_logic op lhs rhs)
  unfolding visit_logic
  visit_logic-Sound op lhs rhs hl hr = visit_circuit-Sound (logic_opcode op) lhs (some rhs) hl hr

  pub visit_boolean-Sound :
      (op : BooleanOperator) (lhs : M Operand) (rhs : Option (M Operand))
      → Sound n lhs
      → Sounds n rhs
      → Sound n (visit_boolean op lhs rhs)
  unfolding visit_boolean
  visit_boolean-Sound op lhs rhs hl hr = visit_circuit-Sound (boolean_opcode op) lhs rhs hl hr

  pub visit_instantiation-Sound :
      (type : ValueOffset) (args : M (List Operand))
      → AllSound n args
      → Sound n (visit_instantiation type args)
  unfolding visit_instantiation
  visit_instantiation-Sound type args ha = bind-Good (send_args-Good args ha) λ _ _.
      bind-Good (plain-Good Ir.op_new (fetch fetch_var type) no_operand refl refl)
        λ i _. set_temp_result-Good i

  pub visit_property-Sound :
      (is_static is_write : Bool) (callee : M Operand) (name : ℕ)
      → Sound n callee
      → Sound n (visit_property is_static is_write callee name)
  unfolding visit_property
  visit_property-Sound is_static is_write callee name hc = bind-Good hc λ c pc.
      bind-Good (plain-Good (property_opcode is_static is_write) c no_operand pc refl) λ acc _.
        bind-Good (string_operand-Good name) λ m pm.
          bind-Good (modify-Good acc (with_op2 m) λ p j h. (h.0, omega (arith, pm)))
            λ _ _. set_temp_result-Good acc

  pub visit_subscript-Sound :
      (is_write : Bool) (var index : M Operand)
      → Sound n var
      → Sound n index
      → Sound n (visit_subscript is_write var index)
  unfolding visit_subscript
  visit_subscript-Sound is_write var index hv hi =
      bind-Good hv λ v pv.
        bind-Good hi λ i pi. bind-Good (plain-Good _ v i pv pi) λ s _. set_temp_result-Good s
