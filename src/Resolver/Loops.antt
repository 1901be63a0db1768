-- ===== src/Resolver/Loops.antt =====
-- core/resolver.cc and core/astvisitor.cc: loops, and operations without a right side.
use clever.Prelude.{ℕ, false}
use clever.Codegen.Ast
use clever.Codegen.Ast.{Node, Maybe, absent, present, Nodes}
use clever.Resolver.{M, pure, ◌>>=◌, lift₃}
use clever.Resolver.Source.{Trees, no_trees, more, MaybeTree, no_tree, a_tree}
use clever.Resolver.Handlers.{visit_for, visit_for_each, required_rhs}
use clever.Resolver.Invariant.{Kept-trans, Sound, >>=-Ends, pure-Ends, lift₃-Sound}
use clever.Resolver.Bound.{
  Bound, BoundMaybe, BoundNodes, Reached-IsStable, Bound-IsStable, BoundMaybe-IsStable,
  BoundNodes-IsStable,
}
use clever.Resolver.Steps.{Reached}
use clever.Resolver.Brackets.{in_block-Sound}
use clever.Resolver.Declarations.{carry, visit_variable_decl-Sound}

pub visit_for_each-Sound :
    (name : ℕ) (expr body : M Node)
    → Sound Bound expr
    → Sound Bound body
    → Sound Bound (visit_for_each name expr body)
unfolding visit_for_each Bound
visit_for_each-Sound name expr body he hb c r w =
    >>=-Ends
      (visit_variable_decl-Sound false name false (pure absent) (λ c' r' w'. pure-Ends absent w' tt)
        c r w)
      λ (offset, decl) r₁ w₁ k₁ (at, declared). >>=-Ends (he c r₁ w₁) λ x r₂ w₂ k₂ x_bound.
        >>=-Ends (hb c r₂ w₂) λ b r₃ w₃ k₃ b_bound. pure-Ends (Ast.for_each offset decl x b) w₃ (
          carry Reached c.environment offset Reached-IsStable (Kept-trans k₂ k₃) at,
          carry Bound c.environment decl Bound-IsStable (Kept-trans k₂ k₃) declared,
          carry Bound c.environment x Bound-IsStable k₃ x_bound,
          b_bound,
        )

pub visit_for-Sound :
    (given : Trees) (init : M Nodes) (cond : M Maybe) (body : M Node) (update : M Nodes)
    → Sound BoundNodes init
    → Sound BoundMaybe cond
    → Sound Bound body
    → Sound BoundNodes update
    → Sound Bound (visit_for given init cond body update)
unfolding visit_for Bound BoundNodes
visit_for-Sound no_trees init cond body update hi hc hb hu =
    lift₃-Sound BoundMaybe Bound BoundNodes Bound (Ast.for_stmt Ast.nil) cond body update hc hb hu
      BoundMaybe-IsStable Bound-IsStable (λ fs s e x b u bx bb bu. (tt, bx, bb, bu))
visit_for-Sound (more t ts) init cond body update hi hc hb hu =
    in_block-Sound Bound (init >>= λ nodes. lift₃ (Ast.for_stmt nodes) cond body update) λ c r w.
      >>=-Ends (hi c r w) λ i r₁ w₁ k₁ bi. >>=-Ends (hc c r₁ w₁) λ x r₂ w₂ k₂ bx.
        >>=-Ends (hb c r₂ w₂) λ b r₃ w₃ k₃ bb. >>=-Ends (hu c r₃ w₃) λ u r₄ w₄ k₄ bu.
          pure-Ends (Ast.for_stmt i x b u) w₄ (
            carry BoundNodes c.environment i BoundNodes-IsStable (Kept-trans k₂ (Kept-trans k₃ k₄))
                bi,
            carry BoundMaybe c.environment x BoundMaybe-IsStable (Kept-trans k₃ k₄) bx,
            carry Bound c.environment b Bound-IsStable k₄ bb,
            bu,
          )

-- A visit of the missing right side ends with a call on a null operand, and so in no state at all.
pub required_rhs-Sound :
    (given : MaybeTree) (rhs : M Maybe)
    → Sound BoundMaybe rhs
    → Sound BoundMaybe (required_rhs given rhs)
unfolding required_rhs
required_rhs-Sound no_tree rhs h c r w = record { meets = tt }
required_rhs-Sound (a_tree t) rhs h c r w = record { meets = (h c r w).meets }
