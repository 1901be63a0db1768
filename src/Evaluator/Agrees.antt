-- ===== src/Evaluator/Agrees.antt =====
-- core/evaluator.cc: what folding changes in a program, and what it does not.
use clever.Prelude.{ℕ, Bool, false, ◌≡◌, refl, ap, some, >>=-eq-some, Option-cases, inl, inr, arith}
use mathlib.Core.Path.{subst}
use clever.Resolver.{
  ◌>>=◌, lift₁, in_block, enter_block, leave_scope, refuse_local, push_new, resolve, set_const,
  redeclared_variable, unknown_identifier, Resolver, Outcome, ok, error, null_operand, undefined, M,
  and_then, pure,
}
use clever.Resolver.Handlers.{Names, null_cell, visit_variable_decl}
use clever.Resolver.Visit.{visit, visit_maybe, visit_nodes}
use clever.Resolver.Source
use clever.Resolver.Source.{Tree, MaybeTree, no_tree, a_tree, Trees, no_trees, more}
use clever.Codegen.Ast
use clever.Codegen.Ast.{Maybe}
use clever.Evaluator.{
  fold, int_lit_of, transform_arithmetic, transform, transform_rhs, transform_nodes,
}

-- The two visits end in the same state, or with the same error.
abbrev pub Agrees : {A B : Type 0} → Outcome A → Outcome B → Type 0
Agrees (ok a r) (ok b r') = r ≡ r'
Agrees (error e) (error e') = e ≡ e'
Agrees null_operand null_operand = Unit
Agrees undefined undefined = Unit
Agrees _ _ = ⊥

Agrees-refl : {A : Type 0} (out : Outcome A) → Agrees out out
Agrees-refl (ok a r) = refl
Agrees-refl (error e) = refl
Agrees-refl null_operand = tt
Agrees-refl undefined = tt

-- Visits that agree from every state, followed by visits that agree whatever the results.
and_then-Agrees :
    {A B C D : Type 0} (x : Outcome A) (y : Outcome B) (k : A → M C) (l : B → M D)
    → Agrees x y
    → ((a : A) (b : B) (r : Resolver) → Agrees (k a r) (l b r))
    → Agrees (and_then x k) (and_then y l)
and_then-Agrees (ok a r) (ok b r') k l h next = subst (λ s. Agrees (k a r) (l b s)) h (next a b r)
and_then-Agrees (ok a r) (error e) k l h next = absurd h
and_then-Agrees (ok a r) null_operand k l h next = absurd h
and_then-Agrees (ok a r) undefined k l h next = absurd h
and_then-Agrees (error e) (ok b r') k l h next = absurd h
and_then-Agrees (error e) (error e') k l h next = h
and_then-Agrees (error e) null_operand k l h next = absurd h
and_then-Agrees (error e) undefined k l h next = absurd h
and_then-Agrees null_operand (ok b r') k l h next = absurd h
and_then-Agrees null_operand (error e') k l h next = absurd h
and_then-Agrees null_operand null_operand k l h next = tt
and_then-Agrees null_operand undefined k l h next = absurd h
and_then-Agrees undefined (ok b r') k l h next = absurd h
and_then-Agrees undefined (error e') k l h next = absurd h
and_then-Agrees undefined null_operand k l h next = absurd h
and_then-Agrees undefined undefined k l h next = tt

abbrev Same : Names → Tree → Tree → Type 0
Same names t t' = (r : Resolver) → Agrees (visit names t r) (visit names t' r)

-- A node that is returned as it is.
Same-some : (names : Names) (t t' : Tree) → some t ≡ some t' → Same names t t'
Same-some names t t' h r =
    subst (λ u. Agrees (visit names t r) (visit names u r)) (cc h) (Agrees-refl (visit names t r))

int_lit_of-some : (t : Tree) (n : ℕ) → int_lit_of t ≡ some n → t ≡ Source.int_lit n
unfolding int_lit_of
int_lit_of-some (Source.int_lit m) n h = ap Source.int_lit (cc h)
int_lit_of-some t n h = cc h

folded-Same :
    (names : Names) (op : Ast.ArithOperator) (g : Bool) (a b v : ℕ)
    → Same names (Source.arithmetic op g (Source.int_lit a) (Source.int_lit b)) (Source.int_lit v)
unfolding visit ◌>>=◌
folded-Same names op g a b v r = refl

literals-Same :
    (names : Names) (op : Ast.ArithOperator) (g : Bool) (a b v : ℕ) (l rhs t' : Tree)
    → l ≡ Source.int_lit a
    → rhs ≡ Source.int_lit b
    → Source.int_lit v ≡ t'
    → Same names (Source.arithmetic op g l rhs) t'
literals-Same names op g a b v l rhs t' left right lit r =
    subst (λ t. Agrees (visit names t r) (visit names t' r)) (cc (left, right))
      (subst (λ t. Agrees (visit names folded r) (visit names t r)) lit
        (folded-Same names op g a b v r))
  where
    folded : Tree
    folded = Source.arithmetic op g (Source.int_lit a) (Source.int_lit b)

arithmetic-Same :
    (names : Names) (op : Ast.ArithOperator) (g : Bool) (l rhs t' : Tree)
    → transform_arithmetic op g l rhs ≡ some t'
    → Same names (Source.arithmetic op g l rhs) t'
unfolding transform_arithmetic
arithmetic-Same names op g l rhs t' h = elim (Option-cases (int_lit_of l)) [
  | inl other ↦ Same-some names (Source.arithmetic op g l rhs) t' (ground (arith, other, h))
  | inr (a, left) ↦ elim (Option-cases (int_lit_of rhs)) [
    | inl other ↦ Same-some names (Source.arithmetic op g l rhs) t' (ground (arith, left, other, h))
    | inr (b, right) ↦
        let (v, folded, given) =
          >>=-eq-some (fold op a b) (λ value. some (Source.int_lit value)) {b = t'}
            (ground (arith, left, right, h)) in
        literals-Same names op g a b v l rhs t' (int_lit_of-some l a left)
          (int_lit_of-some rhs b right) (cc given)
  ]
]

and_then_same :
    {A C D : Type 0} (x : Outcome A) (k : A → M C) (l : A → M D)
    → ((a : A) (r : Resolver) → Agrees (k a r) (l a r))
    → Agrees (and_then x k) (and_then x l)
and_then_same (ok a r) k l next = next a r
and_then_same (error e) k l next = refl
and_then_same null_operand k l next = tt
and_then_same undefined k l next = tt

abbrev AgreeAll : {A B : Type 0} → M A → M B → Type 0
AgreeAll m n = (r : Resolver) → Agrees (m r) (n r)

-- Results that agree are put together.
lift₁-AgreeAll :
    {A B C D : Type 0} (f : A → C) (g : B → D) (m : M A) (n : M B)
    → AgreeAll m n
    → AgreeAll (lift₁ f m) (lift₁ g n)
unfolding ◌>>=◌
lift₁-AgreeAll f g m n h r =
    and_then-Agrees (m r) (n r) (λ a. pure (f a)) (λ b. pure (g b)) (h r) (λ a b r'. refl)

in_block-AgreeAll :
    {A B : Type 0} (m : M A) (n : M B) → AgreeAll m n → AgreeAll (in_block m) (in_block n)
unfolding in_block ◌>>=◌
in_block-AgreeAll m n h r =
    and_then_same (enter_block r) (λ _. m >>= λ a. leave_scope >>= λ _. pure a)
      (λ _. n >>= λ a. leave_scope >>= λ _. pure a)
      λ _ r'.
        and_then-Agrees (m r') (n r') (λ a. leave_scope >>= λ _. pure a)
          (λ a. leave_scope >>= λ _. pure a) (h r')
          λ a b r''. and_then_same (leave_scope r'') (λ _. pure a) (λ _. pure b) (λ _ r3. refl)

visit_variable_decl-AgreeAll :
    (g : Bool) (x : ℕ) (k : Bool) (m n : M Maybe)
    → AgreeAll m n
    → AgreeAll (visit_variable_decl g x k m) (visit_variable_decl g x k n)
unfolding visit_variable_decl ◌>>=◌
visit_variable_decl-AgreeAll g x k m n h r =
    and_then_same (refuse_local (redeclared_variable x) x r) _ _ λ _ r₁.
      and_then_same (push_new x null_cell r₁) _ _ λ p r₂.
        and_then_same (resolve (unknown_identifier x) x r₂) _ _ λ offset r₃.
          and_then_same (resolve (unknown_identifier x) x r₃) _ _ λ target r₄.
            and_then-Agrees (m r₄) (n r₄) _ _ (h r₄)
              λ a b r₅. and_then_same (set_const p k r₅) _ _ λ _ r₆. refl

some-injective {ℓ} : {A : Type ℓ} (x y : A) → some x ≡ some y → x ≡ y
some-injective x y h = cc h

-- A visit that agrees with that of a node, agrees with that of an equal one.
module _ {A : Type 0} {T : Type 0} (m : M A) (f : T → M A) (t u : T) where
  agree_on : some t ≡ some u → AgreeAll m (f t) → AgreeAll m (f u)
  agree_on h agreed = subst (λ x. AgreeAll m (f x)) (some-injective t u h) agreed

mutual
  unfolding transform transform_rhs transform_nodes visit visit_maybe visit_nodes ◌>>=◌

  transform-Same :
      (names : Names) (t t' : Tree)
      → transform t ≡ some t'
      → AgreeAll (visit names t) (visit names t')
  transform-Same names (Source.block ts) t' h =
      let (ts', given, made) = >>=-eq-some (transform_nodes ts) _ h in
      agree_on (visit names (Source.block ts)) (visit names) (Source.block ts') t' made (
        in_block-AgreeAll (lift₁ Ast.block (visit_nodes names ts))
          (lift₁ Ast.block (visit_nodes names ts'))
          (lift₁-AgreeAll Ast.block Ast.block (visit_nodes names ts) (visit_nodes names ts')
            (transform_nodes-Same names ts ts' given)))
  transform-Same names (Source.variable_decl x k m) t' h =
      let (m', given, made) = >>=-eq-some (transform_rhs m) _ h in
      agree_on (visit names (Source.variable_decl x k m)) (visit names)
        (Source.variable_decl x k m') t' made
        (lift₁-AgreeAll (λ d. d.1) (λ d. d.1) (visit_variable_decl false x k (visit_maybe names m))
          (visit_variable_decl false x k (visit_maybe names m'))
          (visit_variable_decl-AgreeAll false x k (visit_maybe names m) (visit_maybe names m')
            (transform_rhs-Same names m m' given)))
  transform-Same names (Source.assignment res l m) t' h =
      let (m', given, made) = >>=-eq-some (transform_rhs m) _ h in
      agree_on (visit names (Source.assignment res l m)) (visit names) (Source.assignment res l m')
        t' made
        (λ r. and_then_same (visit names l r) _ _ λ n r'.
          lift₁-AgreeAll (Ast.assignment false res n) (Ast.assignment false res n)
            (visit_maybe names m) (visit_maybe names m') (transform_rhs-Same names m m' given) r')
  transform-Same names (Source.arithmetic op g l rhs) t' h = arithmetic-Same names op g l rhs t' h
  transform-Same names t t' h = Same-some names t t' h

  transform_rhs-Same :
      (names : Names) (m m' : MaybeTree)
      → transform_rhs m ≡ some m'
      → AgreeAll (visit_maybe names m) (visit_maybe names m')
  transform_rhs-Same names no_tree m' h = cc h
  transform_rhs-Same names (a_tree t) m' h =
      let (t', given, made) = >>=-eq-some (transform t) _ h in
      agree_on (visit_maybe names (a_tree t)) (visit_maybe names) (a_tree t') m' made (
        lift₁-AgreeAll Ast.present Ast.present (visit names t) (visit names t')
          (transform-Same names t t' given))

  pub transform_nodes-Same :
      (names : Names) (ts ts' : Trees)
      → transform_nodes ts ≡ some ts'
      → AgreeAll (visit_nodes names ts) (visit_nodes names ts')
  transform_nodes-Same names no_trees ts' h =
      agree_on (visit_nodes names no_trees) (visit_nodes names) no_trees ts' h (λ r. refl)
  transform_nodes-Same names (more t ts) us h =
      let (t', given, rest) = >>=-eq-some (transform t) _ h in
      let (ts', given', made) = >>=-eq-some (transform_nodes ts) _ rest in
      agree_on (visit_nodes names (more t ts)) (visit_nodes names) (more t' ts') us made (λ r.
        and_then-Agrees (visit names t r) (visit names t' r) _ _ (transform-Same names t t' given r)
          λ n n' r'.
            lift₁-AgreeAll (Ast.cons n) (Ast.cons n') (visit_nodes names ts) (visit_nodes names ts')
              (transform_nodes-Same names ts ts' given') r')
