-- ===== src/Resolver/Declarations.antt =====
-- core/resolver.cc: the visits that declare a name.
use clever.Prelude.{ℕ, ◌≡◌, refl, sym, ◌∙◌, Bool, false, arith, Option-cases, inl, inr}
use mathlib.Core.Path.{subst}
use clever.Ir.{ValueOffset}
use clever.Vm.{Function}
use clever.Codegen.Ast
use clever.Codegen.Ast.{Node, Maybe, absent, present, Nodes}
use clever.Resolver.{
  Resolver, M, pure, redeclared_variable, redeclared_function, unknown_identifier,
  non_default_argument,
}
use clever.Resolver.Source.{MaybeName, no_name, a_name, Params}
use clever.Resolver.Handlers.{
  Names, null_cell, visit_variable_decl, count_required, num_args, check_params, is_anonymous,
  function_name, set_num_args, set_variadic, func_cell, visit_function_body, visit_function_decl,
  visit_catch,
}
use clever.Resolver.Keeps.{IsReached, IsReached-Keeps}
use clever.Resolver.Invariant.{
  Place, IsWellScoped, Kept, Kept-refl, Kept-trans, Claim, IsStable, Ends, Sound, >>=-Ends,
  pure-Ends,
}
use clever.Resolver.Bound.{
  Bound, BoundMaybe, BoundNodes, Reached-IsStable, Bound-IsStable, BoundMaybe-IsStable,
  BoundNodes-IsStable,
}
use clever.Resolver.Steps.{
  Reached, IsNew, IsFunction, Ends-ok, Ends-error, refuse_local-Sound, resolve-Sound, resolve-Ends,
  set_const-Ends, new_function-Sound, update_function-Ends, next_anonymous-Sound,
}
use clever.Resolver.Pushes.{push_new-Ends}
use clever.Resolver.Functions.{in_function-Ends}

-- A stable claim is carried on to a later state.
pub carry :
    {A : Type 0} (P : Claim A) {r later : Resolver} (e : ℕ) (a : A)
    → IsStable P
    → Kept r later
    → P r.functions r.store e a
    → P later.functions later.store e a
carry P {r = r} {later = later} e a stable k p =
    stable r.functions later.functions r.store later.store e a k.functions_kept k.store_kept p

abbrev pub IsDeclared : Claim (ValueOffset × Node)
IsDeclared fs s e (v, n) = IsReached s e v × Bound fs s e n

pub visit_variable_decl-Sound :
    (conditional : Bool) (name : ℕ) (is_const : Bool) (rhs : M Maybe)
    → Sound BoundMaybe rhs
    → Sound IsDeclared (visit_variable_decl conditional name is_const rhs)
unfolding visit_variable_decl Bound
visit_variable_decl-Sound conditional name is_const rhs h c r w =
    >>=-Ends (refuse_local-Sound (redeclared_variable name) name c r w) λ _ r₁ w₁ _ _.
      >>=-Ends (push_new-Ends name null_cell c r₁ w₁) λ p r₂ w₂ _ (_, cell).
        >>=-Ends (resolve-Sound (unknown_identifier name) name c r₂ w₂) λ offset r₃ w₃ k₃ at.
          >>=-Ends (resolve-Sound (unknown_identifier name) name c r₃ w₃) λ target r₄ w₄ k₄ at'.
            >>=-Ends (h c r₄ w₄) λ value r₅ w₅ k₅ bound.
              >>=-Ends
                (set_const-Ends p is_const c r₅ w₅ (
                  omega (
                    arith, cell, k₃.store_kept.cells_le, k₄.store_kept.cells_le,
                    k₅.store_kept.cells_le,
                  )))
                λ _ r₆ w₆ k₆ _. pure-Ends _ w₆ (
                  carry Reached c.environment offset Reached-IsStable
                      (Kept-trans k₄ (Kept-trans k₅ k₆)) at,
                  (
                    carry Reached c.environment target Reached-IsStable (Kept-trans k₅ k₆) at',
                    carry BoundMaybe c.environment value BoundMaybe-IsStable k₆ bound,
                  ),
                )

check_params-Sound : (ps : Params) → Sound (λ fs s e n. Unit) (check_params ps)
unfolding check_params
check_params-Sound ps c r w = elim (Option-cases (count_required false 0 ps)) [
  | inl refused ↦
      Ends-error c r (λ fs s e n. Unit) non_default_argument (check_params ps)
        (ground (arith, refused))
  | inr (n, counted) ↦
      Ends-ok c r r (λ fs s e n. Unit) n (check_params ps) (ground (arith, counted)) w (Kept-refl r)
        tt
]

abbrev AreBodies : Claim (Nodes × Maybe × Node)
AreBodies fs s e (args, rest, body) =
    BoundNodes fs s e args × BoundMaybe fs s e rest × Bound fs s e body

Kept-IsFunction :
    {r later : Resolver} (f : ℕ)
    → Kept r later
    → IsFunction r.functions r.store 0 f
    → IsFunction later.functions later.store 0 f
Kept-IsFunction f k (fn, found) =
    let (later, at_later, _) = k.functions_kept.keep_function f fn found in (later, at_later)

visit_function_body-Ends :
    (f : ℕ) (params : Params) (vararg : MaybeName) (args : M Nodes) (rest : M Maybe) (body : M Node)
    (c : Place) (r : Resolver)
    → Sound BoundNodes args
    → Sound BoundMaybe rest
    → Sound Bound body
    → IsWellScoped c r
    → IsFunction r.functions r.store 0 f
    → Ends c r AreBodies (visit_function_body f params vararg args rest body)
unfolding visit_function_body
visit_function_body-Ends f params vararg args rest body c r ha hr hb w at =
    >>=-Ends (check_params-Sound params c r w) λ required r₁ w₁ k₁ _.
      >>=-Ends (ha c r₁ w₁) λ ns r₂ w₂ k₂ args_bound.
        let at₂ = Kept-IsFunction f (Kept-trans k₁ k₂) at in
        >>=-Ends
          (update_function-Ends f (set_num_args required (num_args params)) c r₂ w₂ at₂
            (λ fn. refl))
          λ _ r₃ w₃ k₃ _. >>=-Ends (hr c r₃ w₃) λ m r₄ w₄ k₄ rest_bound.
            let at₄ = Kept-IsFunction f (Kept-trans k₃ k₄) at₂ in
            >>=-Ends (update_function-Ends f (set_variadic vararg) c r₄ w₄ at₄ (same vararg))
              λ _ r₅ w₅ k₅ _. >>=-Ends (hb c r₅ w₅) λ n r₆ w₆ k₆ body_bound. pure-Ends _ w₆ (
                carry BoundNodes c.environment ns BoundNodes-IsStable
                    (Kept-trans k₃ (Kept-trans k₄ (Kept-trans k₅ k₆))) args_bound,
                carry BoundMaybe c.environment m BoundMaybe-IsStable (Kept-trans k₅ k₆) rest_bound,
                body_bound,
              )
  where
    same : (v : MaybeName) (fn : Function) → (set_variadic v fn).environment ≡ fn.environment
    same no_name fn = refl
    same (a_name x) fn = refl

function_name-Sound :
    (names : Names) (given : MaybeName) → Sound (λ fs s e n. Unit) (function_name names given)
unfolding function_name
function_name-Sound names no_name c r w =
    >>=-Ends {k = λ n. pure (names.anonymous n)} (next_anonymous-Sound c r w)
      λ n r₁ w₁ k₁ _. pure-Ends (names.anonymous n) w₁ tt
function_name-Sound names (a_name x) c r w = pure-Ends _ w tt

pub visit_function_decl-Sound :
    (names : Names) (given : MaybeName) (params : Params) (vararg : MaybeName) (args : M Nodes)
    (rest : M Maybe) (body : M Node)
    → Sound BoundNodes args
    → Sound BoundMaybe rest
    → Sound Bound body
    → Sound Bound (visit_function_decl names given params vararg args rest body)
unfolding visit_function_decl Bound
visit_function_decl-Sound names given params vararg args rest body ha hr hb c r w =
    >>=-Ends (function_name-Sound names given c r w) λ name r₁ w₁ k₁ _.
      >>=-Ends (refuse_local-Sound (redeclared_function name) name c r₁ w₁) λ _ r₂ w₂ k₂ _.
        >>=-Ends (new_function-Sound (is_anonymous given) c r₂ w₂) λ f r₃ w₃ k₃ new.
          >>=-Ends (push_new-Ends name (func_cell f) c r₃ w₃) λ p r₄ w₄ k₄ pushed.
            >>=-Ends (resolve-Ends (unknown_identifier name) name c r₄ w₄)
              λ target r₅ w₅ k₅ (at, same).
                >>=-Ends
                  (in_function-Ends AreBodies f (visit_function_body f params vararg args rest body)
                    c r₅
                    (λ inner r₆ w₆ is_function.
                      visit_function_body-Ends f params vararg args rest body inner r₆ ha hr hb w₆
                        is_function)
                    w₅
                    (subst (λ fs. IsNew fs r₅.store c.environment f) (sym (same ∙ pushed.0)) new))
                  λ (ns, m, n) r₆ w₆ k₆ (fn, found, given', bound).
                    pure-Ends (Ast.function_decl f (is_anonymous given) false target ns m n) w₆ (
                      carry Reached c.environment target Reached-IsStable k₆ at,
                      (fn, found, given', bound.0, bound.1, bound.2),
                    )

abbrev pub IsCaught : Claim (ValueOffset × Nodes)
IsCaught fs s e (v, ns) = IsReached s e v × BoundNodes fs s e ns

pub IsDeclared-IsStable : IsStable IsDeclared
IsDeclared-IsStable fs gs s t e (v, n) kf ks (at, bound) =
    (IsReached-Keeps e v ks at, Bound-IsStable fs gs s t e n kf ks bound)

pub IsCaught-IsStable : IsStable IsCaught
IsCaught-IsStable fs gs s t e (v, ns) kf ks (at, bound) =
    (IsReached-Keeps e v ks at, BoundNodes-IsStable fs gs s t e ns kf ks bound)

pub visit_catch-Sound :
    (name : ℕ) (block : M Nodes) → Sound BoundNodes block → Sound IsCaught (visit_catch name block)
unfolding visit_catch
visit_catch-Sound name block h c r w = >>=-Ends (push_new-Ends name null_cell c r w) λ p r₁ w₁ k₁ _.
    >>=-Ends (resolve-Sound (unknown_identifier name) name c r₁ w₁) λ offset r₂ w₂ k₂ at.
      >>=-Ends (h c r₂ w₂) λ ns r₃ w₃ k₃ bound.
        pure-Ends (offset, ns) w₃ (carry Reached c.environment offset Reached-IsStable k₃ at, bound)
