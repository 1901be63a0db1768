-- ===== src/Evaluator.antt =====
-- core/evaluator.{h,cc} and core/asttransformer.h: the folding of constants (option -O).
pub mod Agrees
pub mod Folding
mod Tests
use clever.Prelude.{ℕ, Bool, true, false, Option, none, some, ◌>>=◌, if◌then◌else◌}
use clever.Codegen.Ast
use clever.Codegen.Ast.{ArithOperator}
use clever.Types.Int.{add, sub, mul, traps, quotient, remainder}
use clever.Resolver.Source
use clever.Resolver.Source.{Tree, MaybeTree, no_tree, a_tree, Trees, no_trees, more}

-- The `switch` over the operators, on `long`; `none` is a trap of the processor.
unfoldable pub fold : ArithOperator → ℕ → ℕ → Option ℕ
unfolding add sub mul traps quotient remainder
fold Ast.mop_add a b = some (add a b)
fold Ast.mop_sub a b = some (sub a b)
fold Ast.mop_mul a b = some (mul a b)
fold Ast.mop_div a b = if traps a b then none else some (quotient a b)
fold Ast.mop_mod a b = if traps a b then none else some (remainder a b)

-- `getIntLit`, and the literal's value.
unfoldable pub int_lit_of : Tree → Option ℕ
int_lit_of (Source.int_lit n) = some n
int_lit_of _ = none

-- `transform(Arithmetic*)`: both operands are integer literals, or the node stays.
unfoldable pub transform_arithmetic : ArithOperator → Bool → Tree → Tree → Option Tree
unfolding fold int_lit_of
transform_arithmetic op augmented l r = elim (int_lit_of l) [
  | none ↦ some (Source.arithmetic op augmented l r)
  | some a ↦ elim (int_lit_of r) [
    | none ↦ some (Source.arithmetic op augmented l r)
    | some b ↦ fold op a b >>= λ value. some (Source.int_lit value)
  ]
]

-- `accept(Transformer&)`; `none` is a trap, or a call on the right side that is not there. Nodes that
-- the evaluator does not name are returned as they are, with all that is in them.
unfoldable mutual
  unfolding transform_arithmetic

  pub transform : Tree → Option Tree
  transform (Source.block ts) = do ts' ← transform_nodes ts; some (Source.block ts')
  transform (Source.variable_decl x k m) = do
    m' ← transform_rhs m
    some (Source.variable_decl x k m')
  transform (Source.assignment res l m) = do m' ← transform_rhs m; some (Source.assignment res l m')
  transform (Source.arithmetic op augmented l r) = transform_arithmetic op augmented l r
  transform t = some t

  -- `node->setRhs(node->getRhs()->accept(*this))`
  pub transform_rhs : MaybeTree → Option MaybeTree
  transform_rhs no_tree = none
  transform_rhs (a_tree t) = do t' ← transform t; some (a_tree t')

  pub transform_nodes : Trees → Option Trees
  transform_nodes no_trees = some no_trees
  transform_nodes (more t ts) = do t' ← transform t; ts' ← transform_nodes ts; some (more t' ts')
