-- ===== src/Resolver/Programs.antt =====
-- core/resolver.cc: what the resolver does with a whole program, and with single declarations.
use clever.Prelude.{inl, inr, ℕ, ◌≡◌, ◌≢◌, refl, Bool, none, List, [], ◌∷◌}
use mathlib.Core.Path.{subst}
use clever.Store.{Cell, new_env}
use clever.Codegen.Ast
use clever.Codegen.Ast.{Node, Nodes}
use clever.Resolver.{Resolver, Outcome, ok, error, null_operand, undefined, pure, ◌>>=◌, and_then}
use clever.Resolver.Source
use clever.Resolver.Source.{Tree, no_tree, Trees}
use clever.Resolver.Handlers.{Names, required_rhs}
use clever.Resolver.Visit.{visit, visit_nodes, import_all, new_resolver, visit_program, visit_maybe}
use clever.Resolver.Invariant.{Place, IsWellScoped, Kept, EndsAt, Ends, Sound, >>=-Ends, pure-Ends}
use clever.Resolver.Bound.{Bound, BoundNodes}
use clever.Resolver.Steps.{Nothing}
use clever.Resolver.Pushes.{push_new-Ends}
use clever.Resolver.Visits.{visit-Sound, visit_nodes-Sound}

import_all-Sound : (imports : List (ℕ × Cell)) → Sound Nothing (import_all imports)
unfolding import_all
import_all-Sound [] c r w = pure-Ends tt w tt
import_all-Sound ((name, cell) ∷ imports) c r w =
    >>=-Ends (push_new-Ends name cell c r w) λ p r₁ w₁ k₁ _. import_all-Sound imports c r₁ w₁

abbrev pub global_place : Place
global_place = record { environment = 0; parents = []; rest = [] }

pub new_resolver-IsWellScoped : IsWellScoped global_place new_resolver
new_resolver-IsWellScoped = record {
  here = refl;
  around = refl;
  stacked = refl;
  housed = (new_env none, refl);
  linked = tt;
  slotted = record {
    older = λ x home there. elim there [ inl (i, _, found) ↦ cc found | inr h ↦ absurd h ];
    slot = λ x home there. elim there [ inl (i, _, found) ↦ cc found | inr h ↦ absurd h ];
    unique =
        λ x y home other there _ _. elim there [ inl (i, _, found) ↦ cc found | inr h ↦ absurd h ];
  };
}

-- The tree has every identifier bound, the global scope is left as the current one, and the one
-- environment on the stack is the global one.
abbrev pub IsResolved : Outcome Nodes → Type 0
IsResolved (ok nodes r) =
    BoundNodes r.functions r.store 0 nodes
    × (r.parents ≡ [])
    × (r.stack ≡ 0 ∷ [])
    × (r.scope.environment ≡ 0)
IsResolved (error e) = Unit
IsResolved null_operand = Unit
IsResolved undefined = ⊥

-- Whatever the program and the imported symbols, the resolver does nothing undefined but, at most, a
-- call on a missing operand. When it ends without an error, the offset of every identifier of the tree
-- leads to a value that exists, inside functions from the function's own environment; and the stack
-- holds the global environment alone, which `getGlobalEnv` asserts.
pub visit_program-IsResolved :
    (names : Names) (imports : List (ℕ × Cell)) (program : Trees)
    → IsResolved (visit_program names imports program)
unfolding visit_program
visit_program-IsResolved names imports program =
    by_outcome (visit_program names imports program) ends.meets
  where
    ends :
        Ends global_place new_resolver BoundNodes
          (import_all imports >>= λ _. visit_nodes names program)
    ends =
        >>=-Ends (import_all-Sound imports global_place new_resolver new_resolver-IsWellScoped)
          λ _ r w _ _. visit_nodes-Sound names program global_place r w

    by_outcome :
        (out : Outcome Nodes) → EndsAt global_place new_resolver BoundNodes out → IsResolved out
    by_outcome (ok nodes r) (w, k, bound) = (bound, w.around, w.stacked, w.here)
    by_outcome (error e) h = tt
    by_outcome null_operand h = tt
    by_outcome undefined h = h

-- A visit of a bitwise operation without a right operand, as the parser builds for `~`, never ends
-- with a node: it calls a method on the null operand unless the left operand is refused.
pub visit-no_rhs :
    (names : Names) (op : Ast.BitwiseOperator) (augmented : Bool) (l : Tree) (r later : Resolver)
    (n : Node)
    → visit names (Source.bitwise op augmented l no_tree) r ≢ ok n later
unfolding visit ◌>>=◌ required_rhs
visit-no_rhs names op augmented l r later n h = by_left (visit names l r) h
  where
    by_left :
        (left : Outcome Node)
        → and_then left (λ l'. required_rhs no_tree (visit_maybe names no_tree) >>= λ m.
            pure (Ast.bitwise op augmented l' m))
          ≢ ok n later
    by_left (ok l' r') e = cc e
    by_left (error e') e = cc e
    by_left null_operand e = cc e
    by_left undefined e = cc e

-- A visit that ends in a node keeps the place: the scopes, the stack and the environments fit as
-- before, no value and no function's environment is lost, and every identifier of the node is bound.
pub visit-IsWellScoped :
    (names : Names) (t : Tree) (c : Place) (r later : Resolver) (n : Node)
    → IsWellScoped c r
    → visit names t r ≡ ok n later
    → IsWellScoped c later × Kept r later × Bound later.functions later.store c.environment n
visit-IsWellScoped names t c r later n w h =
    subst (EndsAt c r Bound) h (visit-Sound names t c r w).meets
