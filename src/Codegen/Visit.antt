-- ===== src/Codegen/Visit.antt =====
-- core/codegen.cc: the visitor, which walks the tree.
use clever.Prelude.{ℕ, suc, Option, none, some, List, [], ◌∷◌}
use clever.Ir.{fetch_var, fetch_const, Operand, fetch}
use clever.Codegen.Ast
use clever.Codegen.Ast.{
  Node, Maybe, absent, present, Nodes, Branches, Catches, Cases, no_case, case_of, is_evaluable,
  voffset_of,
}
use clever.Codegen.Builder.{
  Const, int_const, double_const, string_const, M, pure, ◌>>=◌, ◌>>◌, push_const,
}
use clever.Codegen.Expressions.{
  no_value, visit_assignment, visit_method_call, visit_static_call, visit_function_call,
  visit_inc_dec, visit_bitwise, visit_arithmetic, visit_comparison, visit_logic, visit_boolean,
  visit_instantiation, visit_property, visit_subscript,
}
use clever.Codegen.Statements.{
  IteratorNames, SwitchState, visit_block, visit_critical_block, visit_return, visit_function_decl,
  visit_for, visit_for_each, visit_do_while, visit_while, visit_branch, visit_if, visit_catch,
  visit_try, visit_throw, visit_continue, visit_break, visit_test, visit_default, visit_switch,
}

abbrev pub done : M (Unit {0}) → M Operand
done m = do m; pure no_value

abbrev pub ignore {ℓ} : {A : Type ℓ} → A → Unit {0}
ignore a = tt

abbrev pub literal : Const → M Operand
literal c = do v ← push_const c; pure (fetch fetch_const v)

abbrev pub count_cases : Cases → ℕ
count_cases no_case = 0
count_cases (case_of t b cs) = suc (count_cases cs)

abbrev pub run_only : {A : Type 0} → M A → M (Unit {0})
run_only m = do _ ← m; pure tt

module _ (names : IteratorNames) where
  unfoldable mutual
    pub visit : Node → M Operand
    visit Ast.null_lit = pure (fetch fetch_const (0, 0))
    visit Ast.true_lit = pure (fetch fetch_const (0, 1))
    visit Ast.false_lit = pure (fetch fetch_const (0, 2))
    visit (Ast.int_lit n) = literal (int_const n)
    visit (Ast.double_lit n) = literal (double_const n)
    visit (Ast.string_lit n) = literal (string_const n)
    visit (Ast.ident v) = pure (fetch fetch_var v)
    visit (Ast.block ns) = done (visit_block (run_only (visit_nodes ns)))
    visit (Ast.critical_block b) = done (visit_critical_block (run_only (visit b)))
    visit (Ast.variable_decl a) = done (run_only (visit a))
    visit (Ast.assignment c r l m) = visit_assignment c r (voffset_of l) (visit l) (visit_maybe m)
    visit (Ast.method_call n m as') = visit_method_call (visit n) m (visit_nodes as')
    visit (Ast.static_call v m as') = visit_static_call v m (visit_nodes as')
    visit (Ast.function_call n as') =
        visit_function_call (is_evaluable n) (voffset_of n) (visit n) (visit_nodes as')
    visit (Ast.function_decl f a m v ps va b) =
        visit_function_decl f a m v (run_only (visit_nodes ps)) (visit_optional va)
          (run_only (visit b))
    visit (Ast.return_stmt m) = done (visit_return (visit_maybe m))
    visit (Ast.for_stmt i c b u) = done (
        visit_for (run_only (visit_nodes i)) (visit_maybe c) (run_only (visit b))
          (run_only (visit_nodes u)))
    visit (Ast.for_each v d e b) =
        done (visit_for_each names v (visit d) (visit e) (run_only (visit b)))
    visit (Ast.do_while b c) = done (visit_do_while (run_only (visit b)) (visit c))
    visit (Ast.while_stmt c b) = done (visit_while (visit c) (run_only (visit b)))
    visit (Ast.inc_dec op n) = visit_inc_dec op (visit n)
    visit (Ast.bitwise op a l m) = visit_bitwise op a (visit l) (visit_maybe m)
    visit (Ast.arithmetic op a l r) = visit_arithmetic op a (visit l) (visit r)
    visit (Ast.comparison op l r) = visit_comparison op (visit l) (visit r)
    visit (Ast.logic op l r) = visit_logic op (visit l) (visit r)
    visit (Ast.boolean op l m) = visit_boolean op (visit l) (visit_maybe m)
    visit (Ast.if_stmt bs m) = done (visit_if (visit_branches bs) (visit_optional m))
    visit (Ast.instantiation v as') = visit_instantiation v (visit_nodes as')
    visit (Ast.property s w n name) = visit_property s w (visit n) name
    visit (Ast.try_stmt b cs m) =
        done (visit_try (run_only (visit b)) (visit_catches cs) (visit_optional m))
    visit (Ast.throw_stmt n) = done (visit_throw (visit n))
    visit Ast.continue_stmt = done visit_continue
    visit Ast.break_stmt = done visit_break
    visit (Ast.import_stmt ns) = done (run_only (visit_nodes ns))
    visit (Ast.subscript w n i) = visit_subscript w (visit n) (visit i)
    visit (Ast.switch_stmt n cs) = done (visit_switch (visit n) (visit_cases (count_cases cs) cs))

    pub visit_maybe : Maybe → Option (M Operand)
    visit_maybe absent = none
    visit_maybe (present n) = some (visit n)

    pub visit_optional : Maybe → M (Unit {0})
    visit_optional absent = pure tt
    visit_optional (present n) = run_only (visit n)

    pub visit_nodes : Nodes → M (List Operand)
    visit_nodes Ast.nil = pure []
    visit_nodes (Ast.cons n ns) = do op ← visit n; ops ← visit_nodes ns; pure (op ∷ ops)

    pub visit_branches : Branches → M (List ℕ)
    visit_branches Ast.no_branch = pure []
    visit_branches (Ast.branch c b bs) =
        visit_branch (visit c) (run_only (visit b)) (visit_branches bs)

    pub visit_catches : Catches → M (Unit {0})
    visit_catches Ast.no_catch = pure tt
    visit_catches (Ast.catch_of v b cs) = do visit_catch v (run_only (visit b)); visit_catches cs

    pub visit_cases : ℕ → Cases → Operand → SwitchState → M SwitchState
    visit_cases ncases no_case e st = pure st
    visit_cases ncases (case_of (present t) b cs) e st = do
      st' ← visit_test e (visit t) (run_only (visit b)) st
      visit_cases ncases cs e st'
    visit_cases ncases (case_of absent b cs) e st = do
      st' ← visit_default ncases (run_only (visit b)) st
      visit_cases ncases cs e st'
