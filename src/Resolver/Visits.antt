-- ===== src/Resolver/Visits.antt =====
-- core/resolver.cc: every visit, from every well scoped state.
use clever.Prelude.{true, false}
use clever.Codegen.Ast
use clever.Codegen.Ast.{Node, Maybe, absent, present, Nodes, Branches, Catches, Cases}
use clever.Resolver.{pure, lift₁, resolve, unknown_identifier, unknown_type, in_block}
use clever.Resolver.Source
use clever.Resolver.Source.{
  Tree, MaybeTree, no_tree, a_tree, MaybeName, no_name, a_name, Trees, no_trees, more, Params,
  no_param, param, Conditionals, CatchTrees, CaseTrees,
}
use clever.Resolver.Handlers.{
  Names, visit_variable_decl, visit_catch, catch_node, visit_for_each, required_rhs,
}
use clever.Resolver.Visit.{
  visit, visit_maybe, visit_nodes, visit_params, visit_vararg, visit_conditionals, visit_catches,
  visit_cases,
}
use clever.Resolver.Invariant.{Sound, pure-Ends, lift₁-Sound, lift₂-Sound, lift₃-Sound}
use clever.Resolver.Bound.{
  Bound, BoundMaybe, BoundNodes, BoundBranches, BoundCatches, BoundCases, Reached-IsStable,
  Bound-IsStable, BoundMaybe-IsStable, BoundBranches-IsStable, BoundCatches-IsStable,
}
use clever.Resolver.Steps.{Reached, resolve-Sound}
use clever.Resolver.Brackets.{in_block-Sound}
use clever.Resolver.Loops.{visit_for_each-Sound, visit_for-Sound, required_rhs-Sound}
use clever.Resolver.Declarations.{
  IsDeclared, visit_variable_decl-Sound, visit_function_decl-Sound, visit_catch-Sound, IsCaught,
  IsDeclared-IsStable, IsCaught-IsStable,
}

module _ (names : Names) where
  mutual
    unfolding Bound BoundMaybe BoundNodes BoundBranches BoundCatches BoundCases visit visit_maybe
        visit_nodes visit_params visit_vararg visit_conditionals visit_catches visit_cases

    pub visit-Sound : (t : Tree) → Sound Bound (visit names t)
    visit-Sound Source.null_lit = λ c r w. pure-Ends Ast.null_lit w tt
    visit-Sound Source.true_lit = λ c r w. pure-Ends Ast.true_lit w tt
    visit-Sound Source.false_lit = λ c r w. pure-Ends Ast.false_lit w tt
    visit-Sound (Source.int_lit n) = λ c r w. pure-Ends (Ast.int_lit n) w tt
    visit-Sound (Source.double_lit n) = λ c r w. pure-Ends (Ast.double_lit n) w tt
    visit-Sound (Source.string_lit n) = λ c r w. pure-Ends (Ast.string_lit n) w tt
    visit-Sound (Source.ident x) =
        lift₁-Sound Reached Bound Ast.ident (resolve (unknown_identifier x) x)
          (resolve-Sound (unknown_identifier x) x) (λ fs s e a h. h)
    visit-Sound (Source.type_name x) =
        lift₁-Sound Reached Bound Ast.ident (resolve (unknown_type x) x)
          (resolve-Sound (unknown_type x) x) (λ fs s e a h. h)
    visit-Sound (Source.block ts) = in_block-Sound Bound (lift₁ Ast.block (visit_nodes names ts)) (
        lift₁-Sound BoundNodes Bound Ast.block (visit_nodes names ts) (visit_nodes-Sound ts)
          (λ fs s e a h. h))
    visit-Sound (Source.critical_block b) =
        lift₁-Sound Bound Bound Ast.critical_block (visit names b) (visit-Sound b) (λ fs s e a h. h)
    visit-Sound (Source.variable_decl x k m) =
        lift₁-Sound IsDeclared Bound (λ d. d.1)
          (visit_variable_decl false x k (visit_maybe names m))
          (visit_variable_decl-Sound false x k (visit_maybe names m) (visit_maybe-Sound m))
          (λ fs s e a h. h.1)
    visit-Sound (Source.assignment res l m) =
        lift₂-Sound Bound BoundMaybe Bound (Ast.assignment false res) (visit names l)
          (visit_maybe names m) (visit-Sound l) (visit_maybe-Sound m) Bound-IsStable
          (λ fs s e a b h h'. (h, h'))
    visit-Sound (Source.method_call n m ts) =
        lift₂-Sound Bound BoundNodes Bound (λ callee args. Ast.method_call callee m args)
          (visit names n) (visit_nodes names ts) (visit-Sound n) (visit_nodes-Sound ts)
          Bound-IsStable (λ fs s e a b h h'. (h, h'))
    visit-Sound (Source.static_call x m ts) =
        lift₂-Sound Reached BoundNodes Bound (λ callee args. Ast.static_call callee m args)
          (resolve (unknown_type x) x) (visit_nodes names ts) (resolve-Sound (unknown_type x) x)
          (visit_nodes-Sound ts) Reached-IsStable (λ fs s e a b h h'. (h, h'))
    visit-Sound (Source.function_call n ts) =
        lift₂-Sound Bound BoundNodes Bound Ast.function_call (visit names n) (visit_nodes names ts)
          (visit-Sound n) (visit_nodes-Sound ts) Bound-IsStable (λ fs s e a b h h'. (h, h'))
    visit-Sound (Source.function_decl x ps va b) =
        visit_function_decl-Sound names x ps va (visit_params names ps) (visit_vararg names va)
          (visit names b) (visit_params-Sound ps) (visit_vararg-Sound va) (visit-Sound b)
    visit-Sound (Source.return_stmt m) =
        lift₁-Sound BoundMaybe Bound Ast.return_stmt (visit_maybe names m) (visit_maybe-Sound m)
          (λ fs s e a h. h)
    visit-Sound (Source.for_stmt i x b u) =
        visit_for-Sound i (visit_nodes names i) (visit_maybe names x) (visit names b)
          (visit_nodes names u) (visit_nodes-Sound i) (visit_maybe-Sound x) (visit-Sound b)
          (visit_nodes-Sound u)
    visit-Sound (Source.for_each x n b) =
        in_block-Sound Bound (visit_for_each x (visit names n) (visit names b))
          (visit_for_each-Sound x (visit names n) (visit names b) (visit-Sound n) (visit-Sound b))
    visit-Sound (Source.do_while b n) =
        lift₂-Sound Bound Bound Bound Ast.do_while (visit names b) (visit names n) (visit-Sound b)
          (visit-Sound n) Bound-IsStable (λ fs s e a b h h'. (h, h'))
    visit-Sound (Source.while_stmt n b) =
        lift₂-Sound Bound Bound Bound Ast.while_stmt (visit names n) (visit names b) (visit-Sound n)
          (visit-Sound b) Bound-IsStable (λ fs s e a b h h'. (h, h'))
    visit-Sound (Source.inc_dec op n) =
        lift₁-Sound Bound Bound (Ast.inc_dec op) (visit names n) (visit-Sound n) (λ fs s e a h. h)
    visit-Sound (Source.bitwise op g l m) =
        lift₂-Sound Bound BoundMaybe Bound (Ast.bitwise op g) (visit names l)
          (required_rhs m (visit_maybe names m)) (visit-Sound l)
          (required_rhs-Sound m (visit_maybe names m) (visit_maybe-Sound m)) Bound-IsStable
          (λ fs s e a b h h'. (h, h'))
    visit-Sound (Source.arithmetic op g l n) =
        lift₂-Sound Bound Bound Bound (Ast.arithmetic op g) (visit names l) (visit names n)
          (visit-Sound l) (visit-Sound n) Bound-IsStable (λ fs s e a b h h'. (h, h'))
    visit-Sound (Source.comparison op l n) =
        lift₂-Sound Bound Bound Bound (Ast.comparison op) (visit names l) (visit names n)
          (visit-Sound l) (visit-Sound n) Bound-IsStable (λ fs s e a b h h'. (h, h'))
    visit-Sound (Source.logic op l n) =
        lift₂-Sound Bound Bound Bound (Ast.logic op) (visit names l) (visit names n) (visit-Sound l)
          (visit-Sound n) Bound-IsStable (λ fs s e a b h h'. (h, h'))
    visit-Sound (Source.boolean op l m) =
        lift₂-Sound Bound BoundMaybe Bound (Ast.boolean op) (visit names l) (visit_maybe names m)
          (visit-Sound l) (visit_maybe-Sound m) Bound-IsStable (λ fs s e a b h h'. (h, h'))
    visit-Sound (Source.if_stmt bs m) =
        lift₂-Sound BoundBranches BoundMaybe Bound Ast.if_stmt (visit_conditionals names bs)
          (visit_maybe names m) (visit_conditionals-Sound bs) (visit_maybe-Sound m)
          BoundBranches-IsStable (λ fs s e a b h h'. (h, h'))
    visit-Sound (Source.instantiation x ts) =
        lift₂-Sound Reached BoundNodes Bound Ast.instantiation (resolve (unknown_type x) x)
          (visit_nodes names ts) (resolve-Sound (unknown_type x) x) (visit_nodes-Sound ts)
          Reached-IsStable (λ fs s e a b h h'. (h, h'))
    visit-Sound (Source.property st k n m) =
        lift₁-Sound Bound Bound (λ callee. Ast.property st k callee m) (visit names n)
          (visit-Sound n) (λ fs s e a h. h)
    visit-Sound (Source.try_stmt b cs m) =
        lift₃-Sound Bound BoundCatches BoundMaybe Bound Ast.try_stmt (visit names b)
          (visit_catches names cs) (visit_maybe names m) (visit-Sound b) (visit_catches-Sound cs)
          (visit_maybe-Sound m) Bound-IsStable BoundCatches-IsStable
          (λ fs s e a b x h h' h''. (h, h', h''))
    visit-Sound (Source.throw_stmt n) =
        lift₁-Sound Bound Bound Ast.throw_stmt (visit names n) (visit-Sound n) (λ fs s e a h. h)
    visit-Sound Source.continue_stmt = λ c r w. pure-Ends Ast.continue_stmt w tt
    visit-Sound Source.break_stmt = λ c r w. pure-Ends Ast.break_stmt w tt
    visit-Sound (Source.subscript k n i) =
        lift₂-Sound Bound Bound Bound (Ast.subscript k) (visit names n) (visit names i)
          (visit-Sound n) (visit-Sound i) Bound-IsStable (λ fs s e a b h h'. (h, h'))
    visit-Sound (Source.switch_stmt n cs) =
        lift₂-Sound Bound BoundCases Bound Ast.switch_stmt (visit names n) (visit_cases names cs)
          (visit-Sound n) (visit_cases-Sound cs) Bound-IsStable (λ fs s e a b h h'. (h, h'))

    visit_maybe-Sound : (m : MaybeTree) → Sound BoundMaybe (visit_maybe names m)
    visit_maybe-Sound no_tree = λ c r w. pure-Ends absent w tt
    visit_maybe-Sound (a_tree t) =
        lift₁-Sound Bound BoundMaybe present (visit names t) (visit-Sound t) (λ fs s e a h. h)

    pub visit_nodes-Sound : (ts : Trees) → Sound BoundNodes (visit_nodes names ts)
    visit_nodes-Sound no_trees = λ c r w. pure-Ends Ast.nil w tt
    visit_nodes-Sound (more t ts) =
        lift₂-Sound Bound BoundNodes BoundNodes Ast.cons (visit names t) (visit_nodes names ts)
          (visit-Sound t) (visit_nodes-Sound ts) Bound-IsStable (λ fs s e a b h h'. (h, h'))

    visit_params-Sound : (ps : Params) → Sound BoundNodes (visit_params names ps)
    visit_params-Sound no_param = λ c r w. pure-Ends Ast.nil w tt
    visit_params-Sound (param x m ps) =
        lift₂-Sound IsDeclared BoundNodes BoundNodes (λ d rest. Ast.cons d.1 rest)
          (visit_variable_decl true x false (visit_maybe names m)) (visit_params names ps)
          (visit_variable_decl-Sound true x false (visit_maybe names m) (visit_maybe-Sound m))
          (visit_params-Sound ps) IsDeclared-IsStable (λ fs s e a b h h'. (h.1, h'))

    visit_vararg-Sound : (va : MaybeName) → Sound BoundMaybe (visit_vararg names va)
    visit_vararg-Sound no_name = λ c r w. pure-Ends absent w tt
    visit_vararg-Sound (a_name x) =
        lift₁-Sound IsDeclared BoundMaybe (λ d. present d.1)
          (visit_variable_decl true x false (pure absent))
          (visit_variable_decl-Sound true x false (pure absent) (λ c r w. pure-Ends absent w tt))
          (λ fs s e a h. h.1)

    visit_conditionals-Sound :
        (cs : Conditionals) → Sound BoundBranches (visit_conditionals names cs)
    visit_conditionals-Sound Source.no_conditional = λ c r w. pure-Ends Ast.no_branch w tt
    visit_conditionals-Sound (Source.conditional n b cs) =
        lift₃-Sound Bound Bound BoundBranches BoundBranches Ast.branch (visit names n)
          (visit names b) (visit_conditionals names cs) (visit-Sound n) (visit-Sound b)
          (visit_conditionals-Sound cs) Bound-IsStable Bound-IsStable
          (λ fs s e a b x h h' h''. (h, h', h''))

    visit_catches-Sound : (cs : CatchTrees) → Sound BoundCatches (visit_catches names cs)
    visit_catches-Sound Source.no_catch_tree = λ c r w. pure-Ends Ast.no_catch w tt
    visit_catches-Sound (Source.catch_tree x ts cs) =
        lift₂-Sound IsCaught BoundCatches BoundCatches catch_node
          (in_block (visit_catch x (visit_nodes names ts))) (visit_catches names cs)
          (in_block-Sound IsCaught (visit_catch x (visit_nodes names ts))
            (visit_catch-Sound x (visit_nodes names ts) (visit_nodes-Sound ts)))
          (visit_catches-Sound cs) IsCaught-IsStable (λ fs s e a b h h'. (h.0, h.1, h'))

    visit_cases-Sound : (cs : CaseTrees) → Sound BoundCases (visit_cases names cs)
    visit_cases-Sound Source.no_case_tree = λ c r w. pure-Ends Ast.no_case w tt
    visit_cases-Sound (Source.case_tree m b cs) =
        lift₃-Sound BoundMaybe Bound BoundCases BoundCases Ast.case_of (visit_maybe names m)
          (visit names b) (visit_cases names cs) (visit_maybe-Sound m) (visit-Sound b)
          (visit_cases-Sound cs) BoundMaybe-IsStable Bound-IsStable
          (λ fs s e a b x h h' h''. (h, h', h''))
