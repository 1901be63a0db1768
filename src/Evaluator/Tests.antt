-- ===== src/Evaluator/Tests.antt =====
-- evaluator.cc on a small program: `var 10 = 6 * 7;`
use clever.Prelude.{◌≡◌, ◌≢◌, refl, false, some}
use clever.Store.{int}
use clever.Codegen.Ast
use clever.Resolver.Handlers.{Names}
use clever.Resolver.Visit.{visit_nodes, new_resolver}
use clever.Resolver.Source
use clever.Resolver.Source.{Tree, no_tree, a_tree, Trees, no_trees, more}
use clever.Types.Int.{Others}
use clever.Evaluator.{fold, transform_nodes}
use clever.Evaluator.Agrees.{Agrees}
use clever.Evaluator.Folding.{
  at_run_time, written, append_trees, visit_nodes-transform_nodes, fold-at_run_time,
  transform_nodes-variable_decl,
}

abbrev test_names : Names
test_names = record { anonymous = λ n. n; in_namespace = λ x. x }

abbrev product : Trees
product =
    more
      (Source.variable_decl 10 false
        (a_tree (Source.arithmetic Ast.mop_mul false (Source.int_lit 6) (Source.int_lit 7))))
      no_trees

abbrev folded : Trees
folded = more (Source.variable_decl 10 false (a_tree (Source.int_lit 42))) no_trees

product-folded : transform_nodes product ≡ some folded
unfolding transform_nodes
product-folded = refl

visit_nodes-transform_nodes_example :
    Agrees
      (visit_nodes test_names product new_resolver)
      (visit_nodes test_names folded new_resolver)
visit_nodes-transform_nodes_example =
    visit_nodes-transform_nodes test_names product folded new_resolver product-folded

abbrev test_others : Others
test_others = record {
  double_type = 1;
  str_type = 2;
  double_result = λ op a p. 0;
  long_of = λ p. 0;
  text_append = λ a p. 0;
}

fold-at_run_time_example :
    at_run_time test_others Ast.mop_div 7 (int 2) ≡ written (fold Ast.mop_div 7 2)
fold-at_run_time_example = fold-at_run_time test_others Ast.mop_div 7 2

transform_nodes-variable_decl_example :
    transform_nodes (append_trees product (more (Source.variable_decl 11 false no_tree) no_trees))
    ≢ some product
transform_nodes-variable_decl_example =
    transform_nodes-variable_decl product no_trees product 11 false
