-- ===== src/Resolver/Tests.antt =====
-- core/resolver.cc on small programs.
use clever.Prelude.{ℕ, ◌+◌, ◌≡◌, ◌≢◌, refl, true, false, none, List, [], ◌∷◌}
use clever.Store.{Cell, func}
use clever.Scope.{find}
use clever.Scope.Lookup.{IsIndexed}
use clever.Codegen.Ast
use clever.Codegen.Ast.{Node, absent, present}
use clever.Resolver.{Outcome, ok, error, null_operand, unknown_identifier, non_default_argument}
use clever.Resolver.Source
use clever.Resolver.Source.{
  Tree, no_tree, a_tree, no_name, a_name, Trees, no_trees, more, no_param, param,
}
use clever.Resolver.Handlers.{Names}
use clever.Resolver.Visit.{visit, visit_program, new_resolver}
use clever.Resolver.Bound.{Bound}
use clever.Resolver.Invariant.{IsWellScoped, Kept}
use clever.Resolver.Programs.{
  IsResolved, visit_program-IsResolved, visit-no_rhs, global_place, new_resolver-IsWellScoped,
  visit-IsWellScoped,
}
use clever.Resolver.Declared.{IsDeclaredIn, visit-IsDeclaredIn}

abbrev test_names : Names
test_names = record { anonymous = λ n. 1000 + n; in_namespace = λ x. x }

-- The name 5 is imported.
abbrev test_imports : List (ℕ × Cell)
test_imports = (5, record { value = func 0; is_const = true }) ∷ []

-- `var 10 = 7; func 20(11, 12 = 10) { return 10 + 12; }`
abbrev test_program : Trees
test_program = more (Source.variable_decl 10 false (a_tree (Source.int_lit 7))) (
    more
      (Source.function_decl (a_name 20)
        (param 11 no_tree (param 12 (a_tree (Source.ident 10)) no_param)) no_name
        (Source.block (
          more
            (Source.return_stmt
              (a_tree (Source.arithmetic Ast.mop_add false (Source.ident 10) (Source.ident 12))))
            no_trees)))
      no_trees)

abbrev nodes_of : Outcome Ast.Nodes → Ast.Nodes
nodes_of (ok nodes r) = nodes
nodes_of _ = Ast.nil

-- The global 10 is one environment out of the function, its parameters are in its own.
test_program_resolved :
    nodes_of (visit_program test_names test_imports test_program)
    ≡ Ast.cons
        (Ast.variable_decl
          (Ast.assignment false false (Ast.ident (0, 1)) (present (Ast.int_lit 7))))
        (Ast.cons
          (Ast.function_decl 0 false false
            (0, 2)
            (Ast.cons (Ast.variable_decl (Ast.assignment true false (Ast.ident (0, 0)) absent)) (
              Ast.cons
                (Ast.variable_decl
                  (Ast.assignment true false (Ast.ident (0, 1)) (present (Ast.ident (1, 1)))))
                Ast.nil))
            absent
            (Ast.block (
              Ast.cons
                (Ast.return_stmt (
                  present (Ast.arithmetic Ast.mop_add false (Ast.ident (1, 1)) (Ast.ident (0, 1)))))
                Ast.nil)))
          Ast.nil)
unfolding visit_program
test_program_resolved = refl

unknown_refused :
    visit_program test_names test_imports (more (Source.ident 99) no_trees)
    ≡ error (unknown_identifier 99)
unfolding visit_program
unknown_refused = refl

non_default_refused :
    visit_program test_names [] (
      more
        (Source.function_decl no_name
          (param 11 (a_tree Source.null_lit) (param 12 no_tree no_param))
          no_name
          (Source.block no_trees))
        no_trees)
    ≡ error non_default_argument
unfolding visit_program
non_default_refused = refl

complement_crashes :
    visit_program test_names []
      (more (Source.bitwise Ast.bop_not false (Source.int_lit 1) no_tree) no_trees)
    ≡ null_operand
unfolding visit_program
complement_crashes = refl

visit_program-IsResolved_example : IsResolved (visit_program test_names test_imports test_program)
visit_program-IsResolved_example = visit_program-IsResolved test_names test_imports test_program

visit-no_rhs_example :
    visit test_names (Source.bitwise Ast.bop_not false (Source.int_lit 1) no_tree) new_resolver
    ≢ ok (Ast.bitwise Ast.bop_not false (Ast.int_lit 1) absent) new_resolver
visit-no_rhs_example =
    visit-no_rhs test_names Ast.bop_not false (Source.int_lit 1) new_resolver new_resolver
      (Ast.bitwise Ast.bop_not false (Ast.int_lit 1) absent)

abbrev null_block : Tree
null_block = Source.block (more Source.null_lit no_trees)

visit-null_block :
    visit test_names null_block new_resolver
    ≡ ok (Ast.block (Ast.cons Ast.null_lit Ast.nil)) new_resolver
unfolding visit
visit-null_block = refl

visit-IsWellScoped_example :
    IsWellScoped global_place new_resolver
    × Kept new_resolver new_resolver
    × Bound [] new_resolver.store 0 (Ast.block (Ast.cons Ast.null_lit Ast.nil))
visit-IsWellScoped_example =
    visit-IsWellScoped test_names null_block global_place new_resolver new_resolver
      (Ast.block (Ast.cons Ast.null_lit Ast.nil)) new_resolver-IsWellScoped visit-null_block

new_scope-IsIndexed : IsIndexed new_resolver.scope
unfolding find
new_scope-IsIndexed = record { same_size = refl; indexed = λ name i h. cc h }

new_scope_fresh : find 10 new_resolver.scope.symbol_table ≡ none
unfolding find
new_scope_fresh = refl

visit-IsDeclaredIn_example : IsDeclaredIn test_names 10 true new_resolver
visit-IsDeclaredIn_example =
    visit-IsDeclaredIn test_names 10 true global_place new_resolver new_resolver-IsWellScoped
      new_scope-IsIndexed new_scope_fresh
