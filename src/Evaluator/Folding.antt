-- ===== src/Evaluator/Folding.antt =====
-- core/evaluator.cc: folding against the resolver, and against the operators at run time.
use clever.Prelude.{
  ℕ, Bool, ◌≡◌, ◌≢◌, refl, Option, none, some, >>=-eq-some, Bool-cases, inl, inr, arith,
}
use clever.Store.{Value, int}
use clever.Vm.Natives.{Outcome, writes}
use clever.Codegen.Ast
use clever.Codegen.Ast.{ArithOperator}
use clever.Types.Int.{Others, int_add, int_sub, int_mul, int_div, int_mod, traps}
use clever.Resolver.{Resolver}
use clever.Resolver.Handlers.{Names}
use clever.Resolver.Visit.{visit_nodes}
use clever.Resolver.Source
use clever.Resolver.Source.{Tree, MaybeTree, no_tree, Trees, no_trees, more}
use clever.Evaluator.{fold, transform, transform_nodes, transform_rhs}
use clever.Evaluator.Agrees.{Agrees, transform_nodes-Same}

-- A folded program is resolved to the same state as the program itself, or refused with the same
-- error: folding changes no scope, no offset and no function.
pub visit_nodes-transform_nodes :
    (names : Names) (ts ts' : Trees) (r : Resolver)
    → transform_nodes ts ≡ some ts'
    → Agrees (visit_nodes names ts r) (visit_nodes names ts' r)
visit_nodes-transform_nodes names ts ts' r h = transform_nodes-Same names ts ts' h r

-- The operator of Int that the machine calls for an arithmetic operator.
abbrev pub at_run_time : Others → ArithOperator → ℕ → Value → Option Outcome
at_run_time others Ast.mop_add = int_add others
at_run_time others Ast.mop_sub = int_sub others
at_run_time others Ast.mop_mul = int_mul others
at_run_time others Ast.mop_div = int_div others
at_run_time others Ast.mop_mod = int_mod others

abbrev pub written : Option ℕ → Option Outcome
written none = none
written (some n) = some (writes (int n))

-- For every arithmetic operator and all operands, the literal that folding puts there is what the
-- operator of Int would write at run time, and folding traps exactly when that operator would.
pub fold-at_run_time :
    (others : Others) (op : ArithOperator) (a b : ℕ)
    → at_run_time others op a (int b) ≡ written (fold op a b)
unfolding fold int_add int_sub int_mul int_div int_mod
fold-at_run_time others Ast.mop_add a b = refl
fold-at_run_time others Ast.mop_sub a b = refl
fold-at_run_time others Ast.mop_mul a b = refl
fold-at_run_time others Ast.mop_div a b = elim (Bool-cases (traps a b)) [
  | inl h ↦ ground (arith, h)
  | inr h ↦ ground (arith, h)
]
fold-at_run_time others Ast.mop_mod a b = elim (Bool-cases (traps a b)) [
  | inl h ↦ ground (arith, h)
  | inr h ↦ ground (arith, h)
]

abbrev pub append_trees : Trees → Trees → Trees
append_trees no_trees us = us
append_trees (more t ts) us = more t (append_trees ts us)

-- If one of the statements at the top of a program, not inside a function, a block or a loop, declares a
-- variable without a value, folding gives no program.
pub transform_nodes-variable_decl :
    (ts us vs : Trees) (x : ℕ) (k : Bool)
    → transform_nodes (append_trees ts (more (Source.variable_decl x k no_tree) us)) ≢ some vs
unfolding transform_nodes transform transform_rhs
transform_nodes-variable_decl no_trees us vs x k h = cc h
transform_nodes-variable_decl (more t ts) us vs x k h =
    let (t', _, rest) = >>=-eq-some (transform t) _ h in
    let (ts', given, _) = >>=-eq-some (transform_nodes (append_trees ts _)) _ rest in
    transform_nodes-variable_decl ts us ts' x k given
