-- ===== src/Codegen/Statements.antt =====
-- core/codegen.cc: the visits of statements. Each takes the visits of its children; the operand of a
-- statement is never used.
use clever.Prelude.{ℕ, ◌+◌, Bool, true, false, Option, none, some, List, [], ◌∷◌, ◌==◌}
use clever.Ir
use clever.Ir.{
  ValueOffset, OperandType, fetch_var, fetch_const, fetch_tmp, Operand, no_operand, fetch, jump_to,
  Ir, ir,
}
use clever.Codegen.Builder.{
  M, pure, fails, ◌>>=◌, ◌>>◌, push, get_size, modify, with_op1, with_op2, with_result,
  with_jmp_addr, get_temp, get_temp_env, set_temp_env, get_new_temp_env, set_function, push_brks,
  push_conts, pop_brks, pop_conts, add_brk, add_cont, first_brk, patch,
}
use clever.Codegen.Expressions.{no_value, string_operand}

-- The names of the methods that `for each` calls.
pub record IteratorNames : Type 0 where
  pub begin : ℕ
  pub end_name : ℕ
  pub get : ℕ
  pub next : ℕ

unfoldable pub visit_block : M (Unit {0}) → M (Unit {0})
unfolding push
visit_block body = do
  _ ← push (ir Ir.op_bscope no_operand no_operand)
  body
  _ ← push (ir Ir.op_escope no_operand no_operand)
  pure tt

unfoldable pub visit_critical_block : M (Unit {0}) → M (Unit {0})
unfolding push
visit_critical_block body = do
  _ ← push (ir Ir.op_lock no_operand no_operand)
  body
  _ ← push (ir Ir.op_unlock no_operand no_operand)
  pure tt

unfoldable pub visit_return : Option (M Operand) → M (Unit {0})
unfolding push
visit_return none = do _ ← push (ir Ir.op_ret no_operand no_operand); pure tt
visit_return (some value) = do v ← value; _ ← push (ir Ir.op_ret v no_operand); pure tt

unfoldable pub push_bind : Bool → M ℕ
unfolding push
push_bind true = push (ir Ir.op_bind no_operand no_operand)
push_bind false = pure 0

-- The code of a function stands in line, behind a jump over it. An anonymous function that is no
-- method is bound where it stands, and is the operand.
unfoldable pub visit_function_decl :
    ℕ → Bool → Bool → ValueOffset → M (Unit {0}) → M (Unit {0}) → M (Unit {0}) → M Operand
unfolding push_bind push get_size get_temp_env get_new_temp_env set_function modify set_temp_env
visit_function_decl f anonymous is_method target args vararg body = do
  bind ← push_bind anonymous
  start ← push (ir Ir.op_jmp (jump_to 0) no_operand)
  addr ← get_size
  save ← get_temp_env
  temp ← get_new_temp_env
  set_function f addr temp
  args
  vararg
  body
  _ ← push (ir Ir.op_leave no_operand no_operand)
  size ← get_size
  modify start (with_jmp_addr size)
  op ← elim is_method [
    | true ↦ pure no_value
    | false ↦ elim anonymous [
      | true ↦ do modify bind (with_op1 (fetch fetch_var target)); pure (fetch fetch_var target)
      | false ↦ pure no_value
    ]
  ]
  set_temp_env save
  pure op

-- Entering a loop: its start is the first address of `m_brks`.
unfoldable pub enter_loop : ℕ → M (Unit {0})
unfolding push_conts push_brks
enter_loop start = do push_conts; push_brks (start ∷ [])

unfoldable pub visit_condition : Option (M Operand) → M (Option ℕ)
unfolding push
visit_condition none = pure none
visit_condition (some condition) = do
  op ← condition
  jmpz ← push (ir Ir.op_jmpz op no_operand)
  pure (some jmpz)

unfoldable pub land_at : Option ℕ → ℕ → M (Unit {0})
unfolding modify
land_at none addr = pure tt
land_at (some i) addr = modify i (with_op2 (jump_to addr))

unfoldable pub visit_for :
    M (Unit {0}) → Option (M Operand) → M (Unit {0}) → M (Unit {0}) → M (Unit {0})
unfolding get_size visit_condition enter_loop pop_conts patch push land_at pop_brks
visit_for init condition body update = do
  init
  start ← get_size
  jmpz ← visit_condition condition
  enter_loop start
  body
  behind ← get_size
  conts ← pop_conts
  patch conts behind
  update
  _ ← push (ir Ir.op_jmp (jump_to start) no_operand)
  size ← get_size
  land_at jmpz size
  brks ← pop_brks
  patch brks size

-- A call of a method of the iterator, into a temporary of its own.
unfoldable pub call_iterator : Operand → ℕ → M Operand
unfolding string_operand push get_temp modify
call_iterator on name = do
  m ← string_operand name
  i ← push (ir Ir.op_mcall on m)
  t ← get_temp
  modify i (with_result (fetch fetch_tmp t))
  pure (fetch fetch_tmp t)

-- The lists that it pushes on `m_cont` and `m_brks` stay there, and no `break` gets an address.
unfoldable pub visit_for_each :
    IteratorNames → ValueOffset → M Operand → M Operand → M (Unit {0}) → M (Unit {0})
unfolding call_iterator get_size push get_temp modify enter_loop
visit_for_each names target var_decl expr body = do
  _ ← var_decl
  e ← expr
  begin ← call_iterator e names.begin
  end_op ← call_iterator e names.end_name
  start ← get_size
  cmp ← push (ir Ir.op_nequal end_op begin)
  t ← get_temp
  modify cmp (with_result (fetch fetch_tmp t))
  jmpz ← push (ir Ir.op_jmpz (fetch fetch_tmp t) no_operand)
  enter_loop start
  got ← call_iterator begin names.get
  _ ← push (ir Ir.op_assign (fetch fetch_var target) got)
  body
  next ← call_iterator begin names.next
  _ ← push (ir Ir.op_assign begin next)
  _ ← push (ir Ir.op_jmp (jump_to start) no_operand)
  size ← get_size
  modify jmpz (with_op2 (jump_to size))

-- The addresses of `break` are set one behind the end of the body.
unfoldable pub leave_loop : M (Unit {0})
unfolding get_size pop_conts pop_brks patch
leave_loop = do size ← get_size; _ ← pop_conts; brks ← pop_brks; patch brks (size + 1)

unfoldable pub visit_do_while : M (Unit {0}) → M Operand → M (Unit {0})
unfolding get_size enter_loop leave_loop push
visit_do_while body condition = do
  start ← get_size
  enter_loop start
  body
  leave_loop
  op ← condition
  _ ← push (ir Ir.op_jmpnz op (jump_to start))
  pure tt

unfoldable pub visit_while : M Operand → M (Unit {0}) → M (Unit {0})
unfolding get_size enter_loop leave_loop push modify
visit_while condition body = do
  start ← get_size
  op ← condition
  jmpz ← push (ir Ir.op_jmpz op no_operand)
  enter_loop start
  body
  leave_loop
  _ ← push (ir Ir.op_jmp (jump_to start) no_operand)
  size ← get_size
  modify jmpz (with_op2 (jump_to size))

-- One branch of an `if`, and the addresses of the jumps behind this and all later branches.
unfoldable pub visit_branch : M Operand → M (Unit {0}) → M (List ℕ) → M (List ℕ)
unfolding push get_size modify
visit_branch condition body others = do
  op ← condition
  jmpz ← push (ir Ir.op_jmpz op no_operand)
  body
  jmp ← push (ir Ir.op_jmp no_operand no_operand)
  size ← get_size
  modify jmpz (with_op2 (jump_to size))
  jmps ← others
  pure (jmp ∷ jmps)

unfoldable pub land_all : List ℕ → ℕ → M (Unit {0})
unfolding modify
land_all [] addr = pure tt
land_all (i ∷ l) addr = do modify i (with_op1 (jump_to addr)); land_all l addr

unfoldable pub visit_if : M (List ℕ) → M (Unit {0}) → M (Unit {0})
unfolding get_size land_all
visit_if branches otherwise = do jmps ← branches; otherwise; size ← get_size; land_all jmps size

unfoldable pub visit_catch : ValueOffset → M (Unit {0}) → M (Unit {0})
unfolding push modify
visit_catch var body = do
  i ← push (ir Ir.op_catch no_operand no_operand)
  body
  modify i (with_op1 (fetch fetch_var var))

unfoldable pub visit_try : M (Unit {0}) → M (Unit {0}) → M (Unit {0}) → M (Unit {0})
unfolding push get_size modify
visit_try body catches finally = do
  start ← push (ir Ir.op_try no_operand no_operand)
  body
  jmp ← push (ir Ir.op_jmp no_operand no_operand)
  first ← get_size
  modify start (with_op1 (jump_to first))
  catches
  size ← get_size
  modify jmp (with_op1 (jump_to size))
  finally
  _ ← push (ir Ir.op_etry no_operand no_operand)
  pure tt

unfoldable pub visit_throw : M Operand → M (Unit {0})
unfolding push
visit_throw expr = do e ← expr; _ ← push (ir Ir.op_throw e no_operand); pure tt

unfoldable pub visit_continue : M (Unit {0})
unfolding get_size add_cont first_brk push
visit_continue = do
  size ← get_size
  add_cont size
  start ← first_brk
  _ ← push (ir Ir.op_jmp (jump_to start) no_operand)
  pure tt

unfoldable pub visit_break : M (Unit {0})
unfolding get_size add_brk push
visit_break = do
  size ← get_size
  add_brk size
  _ ← push (ir Ir.op_jmp (jump_to 0) no_operand)
  pure tt

-- The variables of the loop over the cases.
pub record SwitchState : Type 0 where
  pub default_addr : ℕ
  pub last_jmp : Option ℕ
  pub last_jmpz : Option ℕ

unfoldable pub jump_from : Option ℕ → ℕ → M (Unit {0})
unfolding modify
jump_from none addr = pure tt
jump_from (some i) addr = modify i (with_op1 (jump_to addr))

unfoldable pub visit_test : Operand → M Operand → M (Unit {0}) → SwitchState → M SwitchState
unfolding push get_temp modify get_size jump_from
visit_test expr test body st = do
  t ← test
  kase ← push (ir Ir.op_equal expr t)
  tmp ← get_temp
  modify kase (with_result (fetch fetch_tmp tmp))
  jmpz ← push (ir Ir.op_jmpz (fetch fetch_tmp tmp) no_operand)
  size ← get_size
  jump_from st.last_jmp size
  body
  jmp ← push (ir Ir.op_jmp no_operand no_operand)
  behind ← get_size
  modify jmpz (with_op2 (jump_to behind))
  pure (record st { last_jmp = some jmp; last_jmpz = some jmpz })

unfoldable pub visit_default : ℕ → M (Unit {0}) → SwitchState → M SwitchState
unfolding push modify get_size jump_from
visit_default ncases body st = elim (st.default_addr == 0) [
  | false ↦ fails
  | true ↦ elim (ncases == 1) [
    | true ↦ do body; pure st
    | false ↦ do
      jmp ← push (ir Ir.op_jmp no_operand no_operand)
      default_addr ← get_size
      jump_from st.last_jmp default_addr
      body
      last ← push (ir Ir.op_jmp no_operand no_operand)
      size ← get_size
      modify jmp (with_op1 (jump_to size))
      pure (record st { default_addr = default_addr; last_jmp = some last })
  ]
]

-- The last failed test goes to the default, if there are both.
unfoldable pub land_default : SwitchState → M (Unit {0})
unfolding modify
land_default st = elim (st.default_addr == 0) [
  | true ↦ pure tt
  | false ↦ elim st.last_jmpz [
    | none ↦ pure tt
    | some i ↦ modify i (λ j. record j { op2 = record j.op2 { jmp_addr = st.default_addr } })
  ]
]

unfoldable pub visit_switch : M Operand → (Operand → SwitchState → M SwitchState) → M (Unit {0})
unfolding push_brks get_size jump_from land_default pop_brks patch
visit_switch expr cases = do
  e ← expr
  push_brks []
  st ← cases e (record { default_addr = 0; last_jmp = none; last_jmpz = none })
  size ← get_size
  jump_from st.last_jmp size
  land_default st
  brks ← pop_brks
  patch brks size
