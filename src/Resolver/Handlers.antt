-- ===== src/Resolver/Handlers.antt =====
-- core/resolver.cc: the visits with a scope or a declaration of their own, given those of their parts.
use clever.Prelude.{ℕ, suc, Bool, true, false, Option, none, some}
use clever.Ir.{ValueOffset}
use clever.Store.{Cell, null, func}
use clever.Vm.{Function}
use clever.Codegen.Ast
use clever.Codegen.Ast.{Node, Maybe, absent, present, Nodes, Branches, Catches, Cases}
use clever.Resolver.{
  redeclared_variable, redeclared_function, unknown_identifier, non_default_argument, ok, error,
  null_operand, M, pure, ◌>>=◌, lift₁, lift₂, lift₃, refuse_local, push_new, resolve, set_const,
  in_block, in_function, new_function, update_function, next_anonymous,
}
use clever.Resolver.Source.{
  MaybeTree, no_tree, a_tree, MaybeName, no_name, a_name, Trees, no_trees, more, Params, no_param,
  param,
}

-- Interned strings that the resolver makes: `<anonymous n>`, and a name in the namespace, which is
-- the name itself where the namespace is empty.
pub record Names : Type 0 where
  pub anonymous : ℕ → ℕ
  pub in_namespace : ℕ → ℕ

abbrev pub null_cell : Cell
null_cell = record { value = null; is_const = false }

-- `visit(VariableDecl*)`: the declared variable's offset, and the node. The identifier is visited as
-- a child of the declaration and as the left side of its assignment.
unfoldable pub visit_variable_decl : Bool → ℕ → Bool → M Maybe → M (ValueOffset × Node)
unfolding ◌>>=◌ refuse_local push_new resolve set_const
visit_variable_decl conditional name is_const rhs = do
  _ ← refuse_local (redeclared_variable name) name
  p ← push_new name null_cell
  offset ← resolve (unknown_identifier name) name
  target ← resolve (unknown_identifier name) name
  value ← rhs
  _ ← set_const p is_const
  pure (offset, Ast.variable_decl (Ast.assignment conditional false (Ast.ident target) value))

-- The loop over the parameters: how many have no default; `none` is one behind a default.
unfoldable pub count_required : Bool → ℕ → Params → Option ℕ
count_required found_rhs required no_param = some required
count_required false required (param name no_tree ps) = count_required false (suc required) ps
count_required true required (param name no_tree ps) = none
count_required found_rhs required (param name (a_tree rhs) ps) = count_required true required ps

abbrev pub num_args : Params → ℕ
num_args no_param = 0
num_args (param name rhs ps) = suc (num_args ps)

unfoldable pub check_params : Params → M ℕ
unfolding count_required
check_params ps r = elim (count_required false 0 ps) [
  | none ↦ error non_default_argument
  | some required ↦ ok required r
]

abbrev pub is_anonymous : MaybeName → Bool
is_anonymous no_name = true
is_anonymous (a_name name) = false

-- The name of the symbol, made up where the function has none.
unfoldable pub function_name : Names → MaybeName → M ℕ
unfolding next_anonymous ◌>>=◌
function_name names no_name = lift₁ names.anonymous next_anonymous
function_name names (a_name name) = pure (names.in_namespace name)

abbrev pub set_num_args : ℕ → ℕ → Function → Function
set_num_args required n fn = record fn { num_rargs = required; num_args = n }

abbrev pub set_variadic : MaybeName → Function → Function
set_variadic no_name fn = fn
set_variadic (a_name name) fn = record fn { is_variadic = true }

abbrev pub func_cell : ℕ → Cell
func_cell f = record { value = func f; is_const = true }

-- What `visit(FunctionDecl*)` does between entering the function's scope and leaving it.
unfoldable pub visit_function_body :
    ℕ → Params → MaybeName → M Nodes → M Maybe → M Node → M (Nodes × Maybe × Node)
unfolding ◌>>=◌ check_params update_function
visit_function_body f params vararg visit_args visit_vararg visit_block = do
  required ← check_params params
  args ← visit_args
  _ ← update_function f (set_num_args required (num_args params))
  rest ← visit_vararg
  _ ← update_function f (set_variadic vararg)
  body ← visit_block
  pure (args, rest, body)

-- `visit(FunctionDecl*)` outside a class.
unfoldable pub visit_function_decl :
    Names → MaybeName → Params → MaybeName → M Nodes → M Maybe → M Node → M Node
unfolding ◌>>=◌ refuse_local push_new resolve in_function new_function function_name
    visit_function_body
visit_function_decl names given params vararg visit_args visit_vararg visit_block = do
  name ← function_name names given
  _ ← refuse_local (redeclared_function name) name
  f ← new_function (is_anonymous given)
  p ← push_new name (func_cell f)
  target ← resolve (unknown_identifier name) name
  (args, rest, body) ←
      in_function f (visit_function_body f params vararg visit_args visit_vararg visit_block)
  pure (Ast.function_decl f (is_anonymous given) false target args rest body)

-- `visit(Catch*)`, inside its scope.
unfoldable pub visit_catch : ℕ → M Nodes → M (ValueOffset × Nodes)
unfolding ◌>>=◌ push_new resolve
visit_catch name block = do
  p ← push_new name null_cell
  offset ← resolve (unknown_identifier name) name
  nodes ← block
  pure (offset, nodes)

-- `visit(For*)`: a loop without an initializer has no scope of its own.
unfoldable pub visit_for : Trees → M Nodes → M Maybe → M Node → M Nodes → M Node
unfolding ◌>>=◌ in_block
visit_for no_trees init condition block update = lift₃ (Ast.for_stmt Ast.nil) condition block update
visit_for (more t ts) init condition block update =
    in_block (init >>= λ nodes. lift₃ (Ast.for_stmt nodes) condition block update)

-- `visit(ForEach*)`, inside its scope.
unfoldable pub visit_for_each : ℕ → M Node → M Node → M Node
unfolding ◌>>=◌ visit_variable_decl
visit_for_each name expr block = do
  (offset, decl) ← visit_variable_decl false name false (pure absent)
  lift₂ (Ast.for_each offset decl) expr block

-- `node->getRhs()->accept(*this)` on a node that has no right side.
unfoldable pub required_rhs : MaybeTree → M Maybe → M Maybe
required_rhs no_tree rhs r = null_operand
required_rhs (a_tree t) rhs r = rhs r

abbrev pub catch_node : ValueOffset × Nodes → Catches → Catches
catch_node c rest = Ast.catch_of c.0 (Ast.block c.1) rest
