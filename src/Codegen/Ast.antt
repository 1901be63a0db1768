-- ===== src/Codegen/Ast.antt =====
-- core/ast.h: the tree as the resolver leaves it, with an offset in every identifier.
-- Interned strings, doubles and functions are numbers; locations are left out. Attributes and types
-- generate no code, and class definitions are left out.
use clever.Prelude.{ℕ, Bool, true, false}
use clever.Ir.{ValueOffset}

pub data IncDecOperator : Type 0 where
  pre_inc pre_dec pos_inc pos_dec : IncDecOperator

pub data ArithOperator : Type 0 where
  mop_add mop_sub mop_mul mop_div mop_mod : ArithOperator

pub data BitwiseOperator : Type 0 where
  bop_and bop_or bop_xor bop_not bop_lshift bop_rshift : BitwiseOperator

pub data ComparisonOperator : Type 0 where
  cop_equal cop_nequal cop_greater cop_gequal cop_less cop_lequal : ComparisonOperator

pub data LogicOperator : Type 0 where
  lop_and lop_or : LogicOperator

pub data BooleanOperator : Type 0 where
  land lor lnot : BooleanOperator

-- Children that may be absent, lists of children, and the branches of `if` and `switch` are types of
-- their own. A `case_of` without a test is the default.
mutual
  pub data Node : Type 0 where
    null_lit true_lit false_lit : Node
    int_lit double_lit string_lit : ℕ → Node
    ident : ValueOffset → Node
    block : Nodes → Node
    critical_block : Node → Node
    variable_decl : Node → Node
    assignment : Bool → Bool → Node → Maybe → Node
    method_call : Node → ℕ → Nodes → Node
    static_call : ValueOffset → ℕ → Nodes → Node
    function_call : Node → Nodes → Node
    function_decl : ℕ → Bool → Bool → ValueOffset → Nodes → Maybe → Node → Node
    return_stmt : Maybe → Node
    for_stmt : Nodes → Maybe → Node → Nodes → Node
    for_each : ValueOffset → Node → Node → Node → Node
    do_while while_stmt : Node → Node → Node
    inc_dec : IncDecOperator → Node → Node
    bitwise : BitwiseOperator → Bool → Node → Maybe → Node
    arithmetic : ArithOperator → Bool → Node → Node → Node
    comparison : ComparisonOperator → Node → Node → Node
    logic : LogicOperator → Node → Node → Node
    boolean : BooleanOperator → Node → Maybe → Node
    if_stmt : Branches → Maybe → Node
    instantiation : ValueOffset → Nodes → Node
    property : Bool → Bool → Node → ℕ → Node
    try_stmt : Node → Catches → Maybe → Node
    throw_stmt : Node → Node
    continue_stmt break_stmt : Node
    import_stmt : Nodes → Node
    subscript : Bool → Node → Node → Node
    switch_stmt : Node → Cases → Node

  pub data Maybe : Type 0 where
    absent : Maybe
    present : Node → Maybe

  pub data Nodes : Type 0 where
    nil : Nodes
    cons : Node → Nodes → Nodes

  pub data Branches : Type 0 where
    no_branch : Branches
    branch : Node → Node → Branches → Branches

  pub data Catches : Type 0 where
    no_catch : Catches
    catch_of : ValueOffset → Node → Catches → Catches

  pub data Cases : Type 0 where
    no_case : Cases
    case_of : Maybe → Node → Cases → Cases

-- `isEvaluable`
unfoldable pub is_evaluable : Node → Bool
is_evaluable (arithmetic _ _ _ _) = true
is_evaluable (logic _ _ _) = true
is_evaluable (boolean _ _ _) = true
is_evaluable (bitwise _ _ _ _) = true
is_evaluable (method_call _ _ _) = true
is_evaluable (static_call _ _ _) = true
is_evaluable (function_call _ _) = true
is_evaluable (inc_dec _ _) = true
is_evaluable _ = false

-- `getVOffset` of a node that has not been visited.
unfoldable pub voffset_of : Node → ValueOffset
voffset_of (ident v) = v
voffset_of _ = (0, 0)
