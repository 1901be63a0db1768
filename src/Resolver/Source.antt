-- ===== src/Resolver/Source.antt =====
-- core/ast.h: the tree as the parser leaves it, with a name in every identifier.
-- Interned strings, doubles and names are numbers; locations are left out, and so are class
-- definitions, attributes and imports.
use clever.Prelude.{ℕ, Bool}
use clever.Codegen.Ast.{
  IncDecOperator, ArithOperator, BitwiseOperator, ComparisonOperator, LogicOperator,
  BooleanOperator,
}

-- A `variable_decl` holds its name, whether it is a constant, and the right side of the assignment
-- that the parser always gives it; a `function_decl` without a name is anonymous, and its parameters
-- are declarations with an optional default. `type_name` and the callee of a `static_call` are types.
mutual
  pub data Tree : Type 0 where
    null_lit true_lit false_lit : Tree
    int_lit double_lit string_lit : ℕ → Tree
    ident type_name : ℕ → Tree
    block : Trees → Tree
    critical_block : Tree → Tree
    variable_decl : ℕ → Bool → MaybeTree → Tree
    assignment : Bool → Tree → MaybeTree → Tree
    method_call : Tree → ℕ → Trees → Tree
    static_call : ℕ → ℕ → Trees → Tree
    function_call : Tree → Trees → Tree
    function_decl : MaybeName → Params → MaybeName → Tree → Tree
    return_stmt : MaybeTree → Tree
    for_stmt : Trees → MaybeTree → Tree → Trees → Tree
    for_each : ℕ → Tree → Tree → Tree
    do_while while_stmt : Tree → Tree → Tree
    inc_dec : IncDecOperator → Tree → Tree
    bitwise : BitwiseOperator → Bool → Tree → MaybeTree → Tree
    arithmetic : ArithOperator → Bool → Tree → Tree → Tree
    comparison : ComparisonOperator → Tree → Tree → Tree
    logic : LogicOperator → Tree → Tree → Tree
    boolean : BooleanOperator → Tree → MaybeTree → Tree
    if_stmt : Conditionals → MaybeTree → Tree
    instantiation : ℕ → Trees → Tree
    property : Bool → Bool → Tree → ℕ → Tree
    try_stmt : Tree → CatchTrees → MaybeTree → Tree
    throw_stmt : Tree → Tree
    continue_stmt break_stmt : Tree
    subscript : Bool → Tree → Tree → Tree
    switch_stmt : Tree → CaseTrees → Tree

  pub data MaybeTree : Type 0 where
    no_tree : MaybeTree
    a_tree : Tree → MaybeTree

  pub data MaybeName : Type 0 where
    no_name : MaybeName
    a_name : ℕ → MaybeName

  pub data Trees : Type 0 where
    no_trees : Trees
    more : Tree → Trees → Trees

  pub data Params : Type 0 where
    no_param : Params
    param : ℕ → MaybeTree → Params → Params

  pub data Conditionals : Type 0 where
    no_conditional : Conditionals
    conditional : Tree → Tree → Conditionals → Conditionals

  pub data CatchTrees : Type 0 where
    no_catch_tree : CatchTrees
    catch_tree : ℕ → Trees → CatchTrees → CatchTrees

  pub data CaseTrees : Type 0 where
    no_case_tree : CaseTrees
    case_tree : MaybeTree → Tree → CaseTrees → CaseTrees
