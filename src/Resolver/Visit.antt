-- ===== src/Resolver/Visit.antt =====
-- core/resolver.cc and core/astvisitor.cc: the visits that give every identifier its offset.
use clever.Prelude.{ℕ, true, false, none, List, [], ◌∷◌}
use clever.Store.{Cell, new_env}
use clever.Codegen.Ast
use clever.Codegen.Ast.{Node, Maybe, absent, present, Nodes, Branches, Catches, Cases}
use clever.Resolver.{
  Resolver, unknown_identifier, unknown_type, Outcome, M, pure, ◌>>=◌, lift₁, lift₂, lift₃,
  push_new, resolve, in_block,
}
use clever.Resolver.Source
use clever.Resolver.Source.{
  Tree, MaybeTree, no_tree, a_tree, MaybeName, no_name, a_name, Trees, no_trees, more, Params,
  no_param, param, Conditionals, CatchTrees, CaseTrees,
}
use clever.Resolver.Handlers.{
  visit_variable_decl, visit_function_decl, visit_catch, catch_node, visit_for, visit_for_each,
  required_rhs, Names,
}

module _ (names : Names) where
  unfoldable mutual
    unfolding ◌>>=◌ resolve in_block visit_variable_decl visit_function_decl visit_catch visit_for
        visit_for_each required_rhs

    pub visit : Tree → M Node
    visit Source.null_lit = pure Ast.null_lit
    visit Source.true_lit = pure Ast.true_lit
    visit Source.false_lit = pure Ast.false_lit
    visit (Source.int_lit n) = pure (Ast.int_lit n)
    visit (Source.double_lit n) = pure (Ast.double_lit n)
    visit (Source.string_lit n) = pure (Ast.string_lit n)
    visit (Source.ident x) = lift₁ Ast.ident (resolve (unknown_identifier x) x)
    visit (Source.type_name x) = lift₁ Ast.ident (resolve (unknown_type x) x)
    visit (Source.block ts) = in_block (lift₁ Ast.block (visit_nodes ts))
    visit (Source.critical_block b) = lift₁ Ast.critical_block (visit b)
    visit (Source.variable_decl x k rhs) =
        lift₁ (λ d. d.1) (visit_variable_decl false x k (visit_maybe rhs))
    visit (Source.assignment res l rhs) =
        lift₂ (Ast.assignment false res) (visit l) (visit_maybe rhs)
    visit (Source.method_call n m ts) =
        lift₂ (λ callee args. Ast.method_call callee m args) (visit n) (visit_nodes ts)
    visit (Source.static_call x m ts) =
        lift₂ (λ callee args. Ast.static_call callee m args) (resolve (unknown_type x) x)
          (visit_nodes ts)
    visit (Source.function_call n ts) = lift₂ Ast.function_call (visit n) (visit_nodes ts)
    visit (Source.function_decl x ps va b) =
        visit_function_decl names x ps va (visit_params ps) (visit_vararg va) (visit b)
    visit (Source.return_stmt m) = lift₁ Ast.return_stmt (visit_maybe m)
    visit (Source.for_stmt i c b u) =
        visit_for i (visit_nodes i) (visit_maybe c) (visit b) (visit_nodes u)
    visit (Source.for_each x e b) = in_block (visit_for_each x (visit e) (visit b))
    visit (Source.do_while b c) = lift₂ Ast.do_while (visit b) (visit c)
    visit (Source.while_stmt c b) = lift₂ Ast.while_stmt (visit c) (visit b)
    visit (Source.inc_dec op n) = lift₁ (Ast.inc_dec op) (visit n)
    visit (Source.bitwise op aug l rhs) =
        lift₂ (Ast.bitwise op aug) (visit l) (required_rhs rhs (visit_maybe rhs))
    visit (Source.arithmetic op aug l rhs) = lift₂ (Ast.arithmetic op aug) (visit l) (visit rhs)
    visit (Source.comparison op l rhs) = lift₂ (Ast.comparison op) (visit l) (visit rhs)
    visit (Source.logic op l rhs) = lift₂ (Ast.logic op) (visit l) (visit rhs)
    visit (Source.boolean op l rhs) = lift₂ (Ast.boolean op) (visit l) (visit_maybe rhs)
    visit (Source.if_stmt cs m) = lift₂ Ast.if_stmt (visit_conditionals cs) (visit_maybe m)
    visit (Source.instantiation x ts) =
        lift₂ Ast.instantiation (resolve (unknown_type x) x) (visit_nodes ts)
    visit (Source.property st w n m) = lift₁ (λ callee. Ast.property st w callee m) (visit n)
    visit (Source.try_stmt b cs m) = lift₃ Ast.try_stmt (visit b) (visit_catches cs) (visit_maybe m)
    visit (Source.throw_stmt n) = lift₁ Ast.throw_stmt (visit n)
    visit Source.continue_stmt = pure Ast.continue_stmt
    visit Source.break_stmt = pure Ast.break_stmt
    visit (Source.subscript w n i) = lift₂ (Ast.subscript w) (visit n) (visit i)
    visit (Source.switch_stmt n cs) = lift₂ Ast.switch_stmt (visit n) (visit_cases cs)

    pub visit_maybe : MaybeTree → M Maybe
    visit_maybe no_tree = pure absent
    visit_maybe (a_tree t) = lift₁ present (visit t)

    pub visit_nodes : Trees → M Nodes
    visit_nodes no_trees = pure Ast.nil
    visit_nodes (more t ts) = lift₂ Ast.cons (visit t) (visit_nodes ts)

    pub visit_params : Params → M Nodes
    visit_params no_param = pure Ast.nil
    visit_params (param x rhs ps) =
        lift₂ (λ d rest. Ast.cons d.1 rest) (visit_variable_decl true x false (visit_maybe rhs))
          (visit_params ps)

    pub visit_vararg : MaybeName → M Maybe
    visit_vararg no_name = pure absent
    visit_vararg (a_name x) =
        lift₁ (λ d. present d.1) (visit_variable_decl true x false (pure absent))

    pub visit_conditionals : Conditionals → M Branches
    visit_conditionals Source.no_conditional = pure Ast.no_branch
    visit_conditionals (Source.conditional c b cs) =
        lift₃ Ast.branch (visit c) (visit b) (visit_conditionals cs)

    pub visit_catches : CatchTrees → M Catches
    visit_catches Source.no_catch_tree = pure Ast.no_catch
    visit_catches (Source.catch_tree x ts cs) =
        lift₂ catch_node (in_block (visit_catch x (visit_nodes ts))) (visit_catches cs)

    pub visit_cases : CaseTrees → M Cases
    visit_cases Source.no_case_tree = pure Ast.no_case
    visit_cases (Source.case_tree m b cs) =
        lift₃ Ast.case_of (visit_maybe m) (visit b) (visit_cases cs)

-- `visit(Block*)` without a scope around it, and `initGlobalScope`: `imports` is what the module
-- manager pushes for `std.core`.
unfoldable pub import_all : List (ℕ × Cell) → M (Unit {0})
unfolding ◌>>=◌ push_new
import_all [] = pure tt
import_all ((name, c) ∷ imports) = push_new name c >>= λ _. import_all imports

abbrev pub new_resolver : Resolver
new_resolver = record {
  scope = record { symbols = []; symbol_table = []; environment = 0 };
  parents = [];
  stack = 0 ∷ [];
  store = record { cells = []; envs = new_env none ∷ [] };
  next_serial = 0;
  anon_fdecls = 0;
  functions = [];
}

unfoldable pub visit_program : Names → List (ℕ × Cell) → Trees → Outcome Nodes
unfolding ◌>>=◌ import_all visit_nodes
visit_program names imports program =
    (import_all imports >>= λ _. visit_nodes names program) new_resolver
