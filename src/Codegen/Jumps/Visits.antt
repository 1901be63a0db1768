-- ===== src/Codegen/Jumps/Visits.antt =====
-- core/codegen.cc: every address in the code of a program is in bounds.
use clever.Prelude.{ℕ, ◌≡◌, refl, some, [], ◌∷◌, length, arith, All}
use clever.Ir.{fetch_var, fetch_const, Operand, fetch}
use clever.Codegen.Ast
use clever.Codegen.Ast.{
  Node, Maybe, absent, present, Nodes, Branches, Catches, Cases, no_case, case_of, is_evaluable,
  voffset_of,
}
use clever.Codegen.Builder.{Const, int_const, double_const, string_const, Builder, M, new_builder}
use clever.Codegen.Expressions.{no_value}
use clever.Codegen.Statements.{IteratorNames}
use clever.Codegen.Visit.{
  done, literal, count_cases, run_only, visit, visit_maybe, visit_optional, visit_nodes,
  visit_branches, visit_catches, visit_cases,
}
use clever.Codegen.Jumps.{IsBounded, Any, Good, bind-Good, pure-Good, push_const-Good}
use clever.Codegen.Jumps.Expressions.{
  Sound, Sounds, AllSound, visit_assignment-Sound, visit_method_call-Sound, visit_static_call-Sound,
  visit_function_call-Sound, visit_inc_dec-Sound, visit_bitwise-Sound, visit_arithmetic-Sound,
  visit_comparison-Sound, visit_logic-Sound, visit_boolean-Sound, visit_instantiation-Sound,
  visit_property-Sound, visit_subscript-Sound,
}
use clever.Codegen.Jumps.Statements.{
  Fine, visit_block-Fine, visit_critical_block-Fine, visit_return-Fine, visit_for-Fine,
  visit_do_while-Fine, visit_while-Fine, visit_branch-Good, visit_if-Fine, visit_catch-Fine,
  visit_try-Fine, visit_throw-Fine, visit_continue-Fine, visit_break-Fine,
}
use clever.Codegen.Jumps.Switches.{
  weaken-Sure, pure-Sure, chain-Sure, Switched, visit_test-Sure, visit_default-Sure,
  visit_switch-Fine, visit_function_decl-Sound, visit_for_each-Fine,
}

done-Sound : {n : ℕ} (m : M (Unit {0})) → Fine n m → Sound n (done m)
done-Sound m h = bind-Good h λ _ _. pure-Good no_value refl

run_only-Fine :
    {A : Type 0} {n : ℕ} {Q : A → Type 0} (m : M A) → Good n (Unit {0}) Q m → Fine n (run_only m)
run_only-Fine m h = bind-Good h λ _ _. pure-Good tt tt

literal-Sound : {n : ℕ} (c : Const) → Sound n (literal c)
literal-Sound c = bind-Good (push_const-Good c) λ v _. pure-Good (fetch fetch_const v) refl

module _ (names : IteratorNames) (n : ℕ) where
  mutual
    unfolding visit

    pub visit-Sound : (node : Node) → Sound n (visit names node)
    visit-Sound Ast.null_lit = pure-Good (fetch fetch_const (0, 0)) refl
    visit-Sound Ast.true_lit = pure-Good (fetch fetch_const (0, 1)) refl
    visit-Sound Ast.false_lit = pure-Good (fetch fetch_const (0, 2)) refl
    visit-Sound (Ast.int_lit i) = literal-Sound (int_const i)
    visit-Sound (Ast.double_lit i) = literal-Sound (double_const i)
    visit-Sound (Ast.string_lit i) = literal-Sound (string_const i)
    visit-Sound (Ast.ident v) = pure-Good (fetch fetch_var v) refl
    visit-Sound (Ast.block ns) =
        done-Sound _ (visit_block-Fine _ (run_only-Fine _ (visit_nodes-Sound ns)))
    visit-Sound (Ast.critical_block b) =
        done-Sound _ (visit_critical_block-Fine _ (run_only-Fine _ (visit-Sound b)))
    visit-Sound (Ast.variable_decl a) = done-Sound _ (run_only-Fine _ (visit-Sound a))
    visit-Sound (Ast.assignment c r l m) =
        visit_assignment-Sound c r (voffset_of l) _ _ (visit-Sound l) (visit_maybe-Sounds m)
    visit-Sound (Ast.method_call c m as') =
        visit_method_call-Sound _ m _ (visit-Sound c) (visit_nodes-Sound as')
    visit-Sound (Ast.static_call v m as') = visit_static_call-Sound v m _ (visit_nodes-Sound as')
    visit-Sound (Ast.function_call c as') =
        visit_function_call-Sound (is_evaluable c) (voffset_of c) _ _ (visit-Sound c)
          (visit_nodes-Sound as')
    visit-Sound (Ast.function_decl f a m v ps va b) =
        visit_function_decl-Sound f a m v _ _ _ (run_only-Fine _ (visit_nodes-Sound ps))
          (visit_optional-Fine va) (run_only-Fine _ (visit-Sound b))
    visit-Sound (Ast.return_stmt m) = done-Sound _ (visit_return-Fine _ (visit_maybe-Sounds m))
    visit-Sound (Ast.for_stmt i c b u) = done-Sound _ (
        visit_for-Fine _ _ _ _ (run_only-Fine _ (visit_nodes-Sound i)) (visit_maybe-Sounds c)
          (run_only-Fine _ (visit-Sound b)) (run_only-Fine _ (visit_nodes-Sound u)))
    visit-Sound (Ast.for_each v d e b) = done-Sound _ (
        visit_for_each-Fine names v _ _ _ (visit-Sound d) (visit-Sound e)
          (run_only-Fine _ (visit-Sound b)))
    visit-Sound (Ast.do_while b c) =
        done-Sound _ (visit_do_while-Fine _ _ (run_only-Fine _ (visit-Sound b)) (visit-Sound c))
    visit-Sound (Ast.while_stmt c b) =
        done-Sound _ (visit_while-Fine _ _ (visit-Sound c) (run_only-Fine _ (visit-Sound b)))
    visit-Sound (Ast.inc_dec op v) = visit_inc_dec-Sound op _ (visit-Sound v)
    visit-Sound (Ast.bitwise op a l m) =
        visit_bitwise-Sound op a _ _ (visit-Sound l) (visit_maybe-Sounds m)
    visit-Sound (Ast.arithmetic op a l r) =
        visit_arithmetic-Sound op a _ _ (visit-Sound l) (visit-Sound r)
    visit-Sound (Ast.comparison op l r) =
        visit_comparison-Sound op _ _ (visit-Sound l) (visit-Sound r)
    visit-Sound (Ast.logic op l r) = visit_logic-Sound op _ _ (visit-Sound l) (visit-Sound r)
    visit-Sound (Ast.boolean op l m) =
        visit_boolean-Sound op _ _ (visit-Sound l) (visit_maybe-Sounds m)
    visit-Sound (Ast.if_stmt bs m) =
        done-Sound _ (visit_if-Fine _ _ (visit_branches-Good bs) (visit_optional-Fine m))
    visit-Sound (Ast.instantiation v as') = visit_instantiation-Sound v _ (visit_nodes-Sound as')
    visit-Sound (Ast.property s w o name) = visit_property-Sound s w _ name (visit-Sound o)
    visit-Sound (Ast.try_stmt b cs m) = done-Sound _ (
        visit_try-Fine _ _ _ (run_only-Fine _ (visit-Sound b)) (visit_catches-Fine cs)
          (visit_optional-Fine m))
    visit-Sound (Ast.throw_stmt e) = done-Sound _ (visit_throw-Fine _ (visit-Sound e))
    visit-Sound Ast.continue_stmt = done-Sound _ visit_continue-Fine
    visit-Sound Ast.break_stmt = done-Sound _ visit_break-Fine
    visit-Sound (Ast.import_stmt ns) = done-Sound _ (run_only-Fine _ (visit_nodes-Sound ns))
    visit-Sound (Ast.subscript w v i) = visit_subscript-Sound w _ _ (visit-Sound v) (visit-Sound i)
    visit-Sound (Ast.switch_stmt e cs) =
        done-Sound _
          (visit_switch-Fine _ _ (visit-Sound e) (visit_cases-Switched (count_cases cs) cs))

    visit_maybe-Sounds : (m : Maybe) → Sounds n (visit_maybe names m)
    visit_maybe-Sounds absent = tt
    visit_maybe-Sounds (present e) = visit-Sound e

    visit_optional-Fine : (m : Maybe) → Fine n (visit_optional names m)
    visit_optional-Fine absent = pure-Good tt tt
    visit_optional-Fine (present e) = run_only-Fine _ (visit-Sound e)

    visit_nodes-Sound : (ns : Nodes) → AllSound n (visit_nodes names ns)
    visit_nodes-Sound Ast.nil = pure-Good [] tt
    visit_nodes-Sound (Ast.cons e ns) =
        bind-Good (visit-Sound e)
          λ op pop. bind-Good (visit_nodes-Sound ns) λ ops pops. pure-Good (op ∷ ops) (pop, pops)

    visit_branches-Good : (bs : Branches) → Good n (Unit {0}) Any (visit_branches names bs)
    visit_branches-Good Ast.no_branch = pure-Good [] tt
    visit_branches-Good (Ast.branch c b bs) =
        visit_branch-Good _ _ _ (visit-Sound c) (run_only-Fine _ (visit-Sound b))
          (visit_branches-Good bs)

    visit_catches-Fine : (cs : Catches) → Fine n (visit_catches names cs)
    visit_catches-Fine Ast.no_catch = pure-Good tt tt
    visit_catches-Fine (Ast.catch_of v b cs) =
        bind-Good (visit_catch-Fine v _ (run_only-Fine _ (visit-Sound b)))
          λ _ _. visit_catches-Fine cs

    visit_cases-Switched : (k : ℕ) (cs : Cases) → Switched n (visit_cases names k cs)
    visit_cases-Switched k no_case e st he = pure-Sure st λ p. p
    visit_cases-Switched k (case_of (present t) b cs) e st he =
        chain-Sure
          (visit_test-Sure e _ _ st he (visit-Sound t) (run_only-Fine _ (visit-Sound b)) λ p. p)
          λ st'. weaken-Sure (λ p. p.1) (visit_cases-Switched k cs e st' he)
    visit_cases-Switched k (case_of absent b cs) e st he =
        chain-Sure (visit_default-Sure k _ st (run_only-Fine _ (visit-Sound b)) λ p. p)
          λ st'. weaken-Sure (λ p. p.1) (visit_cases-Switched k cs e st' he)

-- Whatever the program, if the visit of its tree succeeds, then no instruction that it has written
-- has, as its first or second operand, an address behind the end of the code.
pub visit-CodeBounded :
    (names : IteratorNames) (node : Node) (op : Operand) (b : Builder)
    → visit names node new_builder ≡ some (op, b)
    → All (IsBounded (length b.code)) b.code
unfolding new_builder
visit-CodeBounded names node op b h =
    let good = visit-Sound names (length b.code) node in
    (good.bounded new_builder b op h tt (omega arith) (tt, tt)).0
