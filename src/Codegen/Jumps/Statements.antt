-- ===== src/Codegen/Jumps/Statements.antt =====
-- core/codegen.cc: the visits of statements keep the addresses in bounds.
use clever.Prelude.{
  ℕ, ◌+◌, ◌≤◌, refl, Bool, true, false, Option, none, some, List, ◌∷◌, arith, ◌==◌,
}
use clever.Ir
use clever.Ir.{
  ValueOffset, Opcode, fetch_var, fetch_tmp, Operand, no_operand, fetch, jump_to, Ir, ir,
}
use clever.Codegen.Builder.{
  ◌>>=◌, ◌>>◌, get_size, pop_conts, pop_brks, patch, M, pure, push, modify, with_op1, with_op2,
  with_result, with_jmp_addr,
}
use clever.Codegen.Statements.{
  SwitchState, visit_block, visit_critical_block, visit_return, push_bind, visit_condition,
  visit_for, call_iterator, leave_loop, visit_do_while, visit_while, visit_branch, visit_if,
  visit_catch, visit_try, visit_throw, visit_continue, visit_break, land_default,
}
use clever.Codegen.Jumps.{
  weaken-Good, ahead-Good, Grows, later-Grows, first-Grows, push-Grows, IsPlain, Any, Good,
  bind-Good, pure-Good, push-Good, modify-Good, size-Good, get_temp-Good, pop_conts-Good,
  add_cont-Good,
}
use clever.Codegen.Jumps.Stacks.{
  pop_brks-Good, add_brk-Good, first_brk-Good, patch-Good, land_all-Good, land_at-Good,
  enter_loop-Good,
}
use clever.Codegen.Jumps.Expressions.{free-Good, Sound, Sounds, plain-Good, string_operand-Good}

-- The visit of a statement.
abbrev pub Fine : ℕ → M (Unit {0}) → Type 0
Fine n m = Good n (Unit {0}) Any m

-- Leaving a loop, once the size is known.
abbrev leave_at : ℕ → M (Unit {0})
leave_at s = do _ ← pop_conts; brks ← pop_brks; patch brks (s + 1)

module _ {n : ℕ} where
  module _ {P : Type 0} where
    -- An instruction without operands, and a jump.
    pub bare-Good : (o : Opcode) → Good n P Any (push (ir o no_operand no_operand))
    bare-Good o = plain-Good o no_operand no_operand refl refl

    pub jmp-Good : (s : ℕ) → (P → s ≤ n) → Good n P Any (push (ir Ir.op_jmp (jump_to s) no_operand))
    jmp-Good s hs = push-Good (ir Ir.op_jmp (jump_to s) no_operand) λ p. (hs p, omega arith)

    -- The second operand of an instruction becomes an address.
    pub op2-Good : (i s : ℕ) → (P → s ≤ n) → Good n P Any (modify i (with_op2 (jump_to s)))
    op2-Good i s hs = modify-Good i (with_op2 (jump_to s)) λ p j h. (h.0, hs p)

    pub op1-Good : (i s : ℕ) → (P → s ≤ n) → Good n P Any (modify i (with_op1 (jump_to s)))
    op1-Good i s hs = modify-Good i (with_op1 (jump_to s)) λ p j h. (hs p, h.1)

    pub addr-Good : (i s : ℕ) → (P → s ≤ n) → Good n P Any (modify i (with_jmp_addr s))
    addr-Good i s hs = modify-Good i (with_jmp_addr s) λ p j h. (hs p, h.1)

    pub result-Good : (i : ℕ) (op : Operand) → Good n P Any (modify i (with_result op))
    result-Good i op = modify-Good i (with_result op) λ p j h. h

    pub call_iterator-Good :
        (on : Operand) (name : ℕ) → IsPlain on → Good n P IsPlain (call_iterator on name)
    unfolding call_iterator
    call_iterator-Good on name h = bind-Good (string_operand-Good name) λ m pm.
        bind-Good (plain-Good Ir.op_mcall on m h pm) λ i _. bind-Good get_temp-Good λ t _.
          bind-Good (result-Good i (fetch fetch_tmp t)) λ _ _. pure-Good (fetch fetch_tmp t) refl

    leave_at-Good : (s : ℕ) → (P → s + 1 ≤ n) → Good n P Any (leave_at s)
    leave_at-Good s hs =
        bind-Good pop_conts-Good λ _ _. bind-Good pop_brks-Good λ brks _. patch-Good brks (s + 1) hs

    pub push_bind-Good : (anonymous : Bool) → Good n P Any (push_bind anonymous)
    unfolding push_bind
    push_bind-Good true = bare-Good Ir.op_bind
    push_bind-Good false = pure-Good 0 tt

    visit_condition-Good :
        (condition : Option (M Operand))
        → Sounds n condition
        → Good n P Any (visit_condition condition)
    unfolding visit_condition
    visit_condition-Good none h = pure-Good none tt
    visit_condition-Good (some condition) h = bind-Good (free-Good h) λ op pop.
        bind-Good (plain-Good Ir.op_jmpz op no_operand pop refl) λ jmpz _. pure-Good (some jmpz) tt

    pub land_default-Good :
        (st : SwitchState) → (P → st.default_addr ≤ n) → Good n P Any (land_default st)
    unfolding land_default
    land_default-Good st h = by_addr (st.default_addr == 0) st.last_jmpz
      where
        by_addr :
            (b : Bool) (o : Option ℕ)
            → Good n P Any (elim b [
              | true ↦ pure tt
              | false ↦ elim o [
                | none ↦ pure tt
                | some i ↦
                    modify i (λ j. record j { op2 = record j.op2 { jmp_addr = st.default_addr } })
              ]
            ])
        by_addr true o = pure-Good tt tt
        by_addr false none = pure-Good tt tt
        by_addr false (some i) = modify-Good i _ λ p j hj. (hj.0, h p)

  pub visit_block-Fine : (body : M (Unit {0})) → Fine n body → Fine n (visit_block body)
  unfolding visit_block
  visit_block-Fine body h =
      bind-Good (bare-Good Ir.op_bscope)
        λ _ _. bind-Good h λ _ _. bind-Good (bare-Good Ir.op_escope) λ _ _. pure-Good tt tt

  pub visit_critical_block-Fine :
      (body : M (Unit {0})) → Fine n body → Fine n (visit_critical_block body)
  unfolding visit_critical_block
  visit_critical_block-Fine body h =
      bind-Good (bare-Good Ir.op_lock)
        λ _ _. bind-Good h λ _ _. bind-Good (bare-Good Ir.op_unlock) λ _ _. pure-Good tt tt

  pub visit_return-Fine :
      (value : Option (M Operand)) → Sounds n value → Fine n (visit_return value)
  unfolding visit_return
  visit_return-Fine none h = bind-Good (bare-Good Ir.op_ret) λ _ _. pure-Good tt tt
  visit_return-Fine (some value) h =
      bind-Good h
        λ v pv. bind-Good (plain-Good Ir.op_ret v no_operand pv refl) λ _ _. pure-Good tt tt

  pub visit_for-Fine :
      (init : M (Unit {0})) (condition : Option (M Operand)) (body update : M (Unit {0}))
      → Fine n init
      → Sounds n condition
      → Fine n body
      → Fine n update
      → Fine n (visit_for init condition body update)
  unfolding visit_for
  visit_for-Fine init condition body update hi hc hb hu = bind-Good hi λ _ _. size-Good λ start.
      bind-Good (visit_condition-Good condition hc) λ jmpz _.
        bind-Good (enter_loop-Good start λ p. omega (arith, p.1)) λ _ _.
          bind-Good (free-Good hb) λ _ _. size-Good λ behind. bind-Good pop_conts-Good λ conts _.
            bind-Good (patch-Good conts behind λ p. omega (arith, p.1)) λ _ _.
              bind-Good (free-Good hu) λ _ _.
                bind-Good (jmp-Good start λ p. omega (arith, p.0.1)) λ _ _. size-Good λ s.
                  bind-Good (land_at-Good jmpz s λ p. omega (arith, p.1)) λ _ _.
                    bind-Good pop_brks-Good λ brks _. patch-Good brks s λ p. omega (arith, p.1)

  -- An instruction follows every loop that is left so.
  leave_loop-Good :
      {A : Type 0} {P : Type 0} {Q : A → Type 0} (m : M A)
      → Grows 1 m
      → Good n P Q m
      → Good n P Q (leave_loop >> m)
  unfolding leave_loop get_size
  leave_loop-Good {P} m grown g =
      ahead-Good {f = λ s. leave_at s >> m} 1
        (λ s. later-Grows 1 (leave_at-Good {P = s + 1 ≤ n} s λ p. p) λ _. grown)
        λ s. bind-Good (leave_at-Good s λ p. p.1) λ _ _. weaken-Good (λ p. p.0) g

  pub visit_do_while-Fine :
      (body : M (Unit {0})) (condition : M Operand)
      → Fine n body
      → Sound n condition
      → Fine n (visit_do_while body condition)
  unfolding visit_do_while
  visit_do_while-Fine body condition hb hc = size-Good λ start.
      bind-Good (enter_loop-Good start λ p. omega (arith, p.1)) λ _ _.
        bind-Good (free-Good hb) λ _ _.
          leave_loop-Good (do op ← condition; _ ← push (ir Ir.op_jmpnz op (jump_to start)); pure tt)
            (later-Grows 1 hc λ op.
              first-Grows 1 (push-Grows (ir Ir.op_jmpnz op (jump_to start)))
                λ _. pure-Good {n = n} {P = Unit {0}} {Q = Any} tt tt)
            (bind-Good (free-Good hc) λ op pop.
              bind-Good
                (push-Good (ir Ir.op_jmpnz op (jump_to start))
                  λ p. (omega (arith, pop), omega (arith, p.1)))
                λ _ _. pure-Good tt tt)

  -- The address behind the loop goes into the jump that leaves it.
  land_behind-Good :
      {P : Type 0} (jmpz : ℕ) → Good n P Any (get_size >>= λ s. modify jmpz (with_op2 (jump_to s)))
  land_behind-Good jmpz = size-Good λ s. op2-Good jmpz s λ p. omega (arith, p.1)

  pub visit_while-Fine :
      (condition : M Operand) (body : M (Unit {0}))
      → Sound n condition
      → Fine n body
      → Fine n (visit_while condition body)
  unfolding visit_while
  visit_while-Fine condition body hc hb = size-Good λ start. bind-Good (free-Good hc) λ op pop.
      bind-Good (plain-Good Ir.op_jmpz op no_operand pop refl) λ jmpz _.
        bind-Good (enter_loop-Good start λ p. omega (arith, p.1)) λ _ _.
          bind-Good (free-Good hb) λ _ _.
            leave_loop-Good
              (do
                _ ← push (ir Ir.op_jmp (jump_to start) no_operand)
                s ← get_size
                modify jmpz (with_op2 (jump_to s)))
              (first-Grows 1 (push-Grows (ir Ir.op_jmp (jump_to start) no_operand))
                λ _. land_behind-Good {P = Unit {0}} jmpz)
              (bind-Good (jmp-Good start λ p. omega (arith, p.1)) λ _ _. land_behind-Good jmpz)

  pub visit_branch-Good :
      (condition : M Operand) (body : M (Unit {0})) (others : M (List ℕ))
      → Sound n condition
      → Fine n body
      → Good n (Unit {0}) Any others
      → Good n (Unit {0}) Any (visit_branch condition body others)
  unfolding visit_branch
  visit_branch-Good condition body others hc hb ho = bind-Good hc λ op pop.
      bind-Good (plain-Good Ir.op_jmpz op no_operand pop refl) λ jmpz _. bind-Good hb λ _ _.
        bind-Good (bare-Good Ir.op_jmp) λ jmp _. size-Good λ s.
          bind-Good (op2-Good jmpz s λ p. omega (arith, p.1))
            λ _ _. bind-Good (free-Good ho) λ jmps _. pure-Good (jmp ∷ jmps) tt

  pub visit_if-Fine :
      (branches : M (List ℕ)) (otherwise : M (Unit {0}))
      → Good n (Unit {0}) Any branches
      → Fine n otherwise
      → Fine n (visit_if branches otherwise)
  unfolding visit_if
  visit_if-Fine branches otherwise hb ho =
      bind-Good hb
        λ jmps _. bind-Good ho λ _ _. size-Good λ s. land_all-Good jmps s λ p. omega (arith, p.1)

  pub visit_catch-Fine :
      (var : ValueOffset) (body : M (Unit {0})) → Fine n body → Fine n (visit_catch var body)
  unfolding visit_catch
  visit_catch-Fine var body h = bind-Good (bare-Good Ir.op_catch) λ i _.
      bind-Good h
        λ _ _. modify-Good i (with_op1 (fetch fetch_var var)) λ p j hj. (omega arith, hj.1)

  pub visit_try-Fine :
      (body catches finally : M (Unit {0}))
      → Fine n body
      → Fine n catches
      → Fine n finally
      → Fine n (visit_try body catches finally)
  unfolding visit_try
  visit_try-Fine body catches finally hb hc hf = bind-Good (bare-Good Ir.op_try) λ start _.
      bind-Good hb λ _ _. bind-Good (bare-Good Ir.op_jmp) λ jmp _. size-Good λ first.
        bind-Good (op1-Good start first λ p. omega (arith, p.1)) λ _ _.
          bind-Good (free-Good hc) λ _ _. size-Good λ s.
            bind-Good (op1-Good jmp s λ p. omega (arith, p.1)) λ _ _.
              bind-Good (free-Good hf)
                λ _ _. bind-Good (bare-Good Ir.op_etry) λ _ _. pure-Good tt tt

  pub visit_throw-Fine : (expr : M Operand) → Sound n expr → Fine n (visit_throw expr)
  unfolding visit_throw
  visit_throw-Fine expr h =
      bind-Good h
        λ e pe. bind-Good (plain-Good Ir.op_throw e no_operand pe refl) λ _ _. pure-Good tt tt

  pub visit_continue-Fine : Fine n visit_continue
  unfolding visit_continue
  visit_continue-Fine = size-Good λ s.
      bind-Good (add_cont-Good s)
        λ _ _. first_brk-Good λ start. bind-Good (jmp-Good start λ p. p.1) λ _ _. pure-Good tt tt

  pub visit_break-Fine : Fine n visit_break
  unfolding visit_break
  visit_break-Fine = size-Good λ s.
      bind-Good (add_brk-Good s λ p. omega (arith, p.1))
        λ _ _. bind-Good (jmp-Good 0 λ p. omega arith) λ _ _. pure-Good tt tt
