-- ===== src/Resolver/Bound.antt =====
-- core/ast.h: trees in which every identifier stands for a value that exists.
use clever.Prelude.{ℕ, ◌≡◌, ◌≢◌, some, List, get_elem?, ◌∙◌, sym}
use mathlib.Core.Path.{subst}
use clever.Store.{Store}
use clever.Vm.{Function}
use clever.Codegen.Ast
use clever.Codegen.Ast.{Node, Maybe, absent, present, Nodes, Branches, Catches, Cases}
use clever.Resolver.Keeps.{Keeps, IsReached, IsReached-Keeps, KeepsFunctions}
use clever.Resolver.Invariant.{IsStable}

-- The offset of every identifier leads, from the environment in which the code that reads it runs, to
-- a slot that exists: from `e`, and inside a function from the function's own environment.
unfoldable mutual
  pub Bound : List Function → Store → ℕ → Node → Type 0
  Bound fs s e Ast.null_lit = Unit
  Bound fs s e Ast.true_lit = Unit
  Bound fs s e Ast.false_lit = Unit
  Bound fs s e (Ast.int_lit n) = Unit
  Bound fs s e (Ast.double_lit n) = Unit
  Bound fs s e (Ast.string_lit n) = Unit
  Bound fs s e (Ast.ident v) = IsReached s e v
  Bound fs s e (Ast.block ns) = BoundNodes fs s e ns
  Bound fs s e (Ast.critical_block b) = Bound fs s e b
  Bound fs s e (Ast.variable_decl a) = Bound fs s e a
  Bound fs s e (Ast.assignment c x l m) = Bound fs s e l × BoundMaybe fs s e m
  Bound fs s e (Ast.method_call n m ns) = Bound fs s e n × BoundNodes fs s e ns
  Bound fs s e (Ast.static_call v m ns) = IsReached s e v × BoundNodes fs s e ns
  Bound fs s e (Ast.function_call n ns) = Bound fs s e n × BoundNodes fs s e ns
  Bound fs s e (Ast.function_decl f a m v ps va b) =
      IsReached s e v
      × ((fn : Function) × (get_elem? fs f ≡ some fn)
          × (fn.environment ≢ 0)
          × BoundNodes fs s fn.environment ps
          × BoundMaybe fs s fn.environment va
          × Bound fs s fn.environment b)
  Bound fs s e (Ast.return_stmt m) = BoundMaybe fs s e m
  Bound fs s e (Ast.for_stmt i c b u) =
      BoundNodes fs s e i × BoundMaybe fs s e c × Bound fs s e b × BoundNodes fs s e u
  Bound fs s e (Ast.for_each v d x b) =
      IsReached s e v × Bound fs s e d × Bound fs s e x × Bound fs s e b
  Bound fs s e (Ast.do_while b c) = Bound fs s e b × Bound fs s e c
  Bound fs s e (Ast.while_stmt c b) = Bound fs s e c × Bound fs s e b
  Bound fs s e (Ast.inc_dec op n) = Bound fs s e n
  Bound fs s e (Ast.bitwise op a l m) = Bound fs s e l × BoundMaybe fs s e m
  Bound fs s e (Ast.arithmetic op a l x) = Bound fs s e l × Bound fs s e x
  Bound fs s e (Ast.comparison op l x) = Bound fs s e l × Bound fs s e x
  Bound fs s e (Ast.logic op l x) = Bound fs s e l × Bound fs s e x
  Bound fs s e (Ast.boolean op l m) = Bound fs s e l × BoundMaybe fs s e m
  Bound fs s e (Ast.if_stmt bs m) = BoundBranches fs s e bs × BoundMaybe fs s e m
  Bound fs s e (Ast.instantiation v ns) = IsReached s e v × BoundNodes fs s e ns
  Bound fs s e (Ast.property st w n m) = Bound fs s e n
  Bound fs s e (Ast.try_stmt b cs m) = Bound fs s e b × BoundCatches fs s e cs × BoundMaybe fs s e m
  Bound fs s e (Ast.throw_stmt n) = Bound fs s e n
  Bound fs s e Ast.continue_stmt = Unit
  Bound fs s e Ast.break_stmt = Unit
  Bound fs s e (Ast.import_stmt ns) = BoundNodes fs s e ns
  Bound fs s e (Ast.subscript w n i) = Bound fs s e n × Bound fs s e i
  Bound fs s e (Ast.switch_stmt n cs) = Bound fs s e n × BoundCases fs s e cs

  pub BoundMaybe : List Function → Store → ℕ → Maybe → Type 0
  BoundMaybe fs s e absent = Unit
  BoundMaybe fs s e (present n) = Bound fs s e n

  pub BoundNodes : List Function → Store → ℕ → Nodes → Type 0
  BoundNodes fs s e Ast.nil = Unit
  BoundNodes fs s e (Ast.cons n ns) = Bound fs s e n × BoundNodes fs s e ns

  pub BoundBranches : List Function → Store → ℕ → Branches → Type 0
  BoundBranches fs s e Ast.no_branch = Unit
  BoundBranches fs s e (Ast.branch c b bs) =
      Bound fs s e c × Bound fs s e b × BoundBranches fs s e bs

  pub BoundCatches : List Function → Store → ℕ → Catches → Type 0
  BoundCatches fs s e Ast.no_catch = Unit
  BoundCatches fs s e (Ast.catch_of v b cs) =
      IsReached s e v × Bound fs s e b × BoundCatches fs s e cs

  pub BoundCases : List Function → Store → ℕ → Cases → Type 0
  BoundCases fs s e Ast.no_case = Unit
  BoundCases fs s e (Ast.case_of m b cs) =
      BoundMaybe fs s e m × Bound fs s e b × BoundCases fs s e cs

-- Later steps lose nothing of it.
module _ (fs gs : List Function) (s t : Store) (kf : KeepsFunctions fs gs) (ks : Keeps s t) where
  mutual
    unfolding Bound BoundMaybe BoundNodes BoundBranches BoundCatches BoundCases

    Bound-Keeps : (e : ℕ) (n : Node) → Bound fs s e n → Bound gs t e n
    Bound-Keeps e Ast.null_lit h = tt
    Bound-Keeps e Ast.true_lit h = tt
    Bound-Keeps e Ast.false_lit h = tt
    Bound-Keeps e (Ast.int_lit n) h = tt
    Bound-Keeps e (Ast.double_lit n) h = tt
    Bound-Keeps e (Ast.string_lit n) h = tt
    Bound-Keeps e (Ast.ident v) h = IsReached-Keeps e v ks h
    Bound-Keeps e (Ast.block ns) h = Nodes-Keeps e ns h
    Bound-Keeps e (Ast.critical_block b) h = Bound-Keeps e b h
    Bound-Keeps e (Ast.variable_decl a) h = Bound-Keeps e a h
    Bound-Keeps e (Ast.assignment c x l m) (h, h') = (Bound-Keeps e l h, Maybe-Keeps e m h')
    Bound-Keeps e (Ast.method_call n m ns) (h, h') = (Bound-Keeps e n h, Nodes-Keeps e ns h')
    Bound-Keeps e (Ast.static_call v m ns) (h, h') = (IsReached-Keeps e v ks h, Nodes-Keeps e ns h')
    Bound-Keeps e (Ast.function_call n ns) (h, h') = (Bound-Keeps e n h, Nodes-Keeps e ns h')
    Bound-Keeps e (Ast.function_decl f a m v ps va b) (h, (fn, found, given, hp, hv, hb)) =
        let (later, at_later, same) = kf.keep_function f fn found in
        let e' = same given in
        (
          IsReached-Keeps e v ks h,
          (
            later,
            at_later,
            λ unset. given (sym e' ∙ unset),
            subst (λ x. BoundNodes gs t x ps) (sym e') (Nodes-Keeps fn.environment ps hp),
            subst (λ x. BoundMaybe gs t x va) (sym e') (Maybe-Keeps fn.environment va hv),
            subst (λ x. Bound gs t x b) (sym e') (Bound-Keeps fn.environment b hb),
          ),
        )
    Bound-Keeps e (Ast.return_stmt m) h = Maybe-Keeps e m h
    Bound-Keeps e (Ast.for_stmt i c b u) (hi, hc, hb, hu) =
        (Nodes-Keeps e i hi, Maybe-Keeps e c hc, Bound-Keeps e b hb, Nodes-Keeps e u hu)
    Bound-Keeps e (Ast.for_each v d x b) (hv, hd, hx, hb) =
        (IsReached-Keeps e v ks hv, Bound-Keeps e d hd, Bound-Keeps e x hx, Bound-Keeps e b hb)
    Bound-Keeps e (Ast.do_while b c) (h, h') = (Bound-Keeps e b h, Bound-Keeps e c h')
    Bound-Keeps e (Ast.while_stmt c b) (h, h') = (Bound-Keeps e c h, Bound-Keeps e b h')
    Bound-Keeps e (Ast.inc_dec op n) h = Bound-Keeps e n h
    Bound-Keeps e (Ast.bitwise op a l m) (h, h') = (Bound-Keeps e l h, Maybe-Keeps e m h')
    Bound-Keeps e (Ast.arithmetic op a l x) (h, h') = (Bound-Keeps e l h, Bound-Keeps e x h')
    Bound-Keeps e (Ast.comparison op l x) (h, h') = (Bound-Keeps e l h, Bound-Keeps e x h')
    Bound-Keeps e (Ast.logic op l x) (h, h') = (Bound-Keeps e l h, Bound-Keeps e x h')
    Bound-Keeps e (Ast.boolean op l m) (h, h') = (Bound-Keeps e l h, Maybe-Keeps e m h')
    Bound-Keeps e (Ast.if_stmt bs m) (h, h') = (Branches-Keeps e bs h, Maybe-Keeps e m h')
    Bound-Keeps e (Ast.instantiation v ns) (h, h') = (IsReached-Keeps e v ks h, Nodes-Keeps e ns h')
    Bound-Keeps e (Ast.property st w n m) h = Bound-Keeps e n h
    Bound-Keeps e (Ast.try_stmt b cs m) (hb, hc, hm) =
        (Bound-Keeps e b hb, Catches-Keeps e cs hc, Maybe-Keeps e m hm)
    Bound-Keeps e (Ast.throw_stmt n) h = Bound-Keeps e n h
    Bound-Keeps e Ast.continue_stmt h = tt
    Bound-Keeps e Ast.break_stmt h = tt
    Bound-Keeps e (Ast.import_stmt ns) h = Nodes-Keeps e ns h
    Bound-Keeps e (Ast.subscript w n i) (h, h') = (Bound-Keeps e n h, Bound-Keeps e i h')
    Bound-Keeps e (Ast.switch_stmt n cs) (h, h') = (Bound-Keeps e n h, Cases-Keeps e cs h')

    Maybe-Keeps : (e : ℕ) (m : Maybe) → BoundMaybe fs s e m → BoundMaybe gs t e m
    Maybe-Keeps e absent h = tt
    Maybe-Keeps e (present n) h = Bound-Keeps e n h

    Nodes-Keeps : (e : ℕ) (ns : Nodes) → BoundNodes fs s e ns → BoundNodes gs t e ns
    Nodes-Keeps e Ast.nil h = tt
    Nodes-Keeps e (Ast.cons n ns) (h, h') = (Bound-Keeps e n h, Nodes-Keeps e ns h')

    Branches-Keeps : (e : ℕ) (bs : Branches) → BoundBranches fs s e bs → BoundBranches gs t e bs
    Branches-Keeps e Ast.no_branch h = tt
    Branches-Keeps e (Ast.branch c b bs) (hc, hb, h) =
        (Bound-Keeps e c hc, Bound-Keeps e b hb, Branches-Keeps e bs h)

    Catches-Keeps : (e : ℕ) (cs : Catches) → BoundCatches fs s e cs → BoundCatches gs t e cs
    Catches-Keeps e Ast.no_catch h = tt
    Catches-Keeps e (Ast.catch_of v b cs) (hv, hb, h) =
        (IsReached-Keeps e v ks hv, Bound-Keeps e b hb, Catches-Keeps e cs h)

    Cases-Keeps : (e : ℕ) (cs : Cases) → BoundCases fs s e cs → BoundCases gs t e cs
    Cases-Keeps e Ast.no_case h = tt
    Cases-Keeps e (Ast.case_of m b cs) (hm, hb, h) =
        (Maybe-Keeps e m hm, Bound-Keeps e b hb, Cases-Keeps e cs h)

pub Reached-IsStable : IsStable (λ fs s e v. IsReached s e v)
Reached-IsStable fs gs s t e v kf ks h = IsReached-Keeps e v ks h

pub Bound-IsStable : IsStable Bound
Bound-IsStable fs gs s t e n kf ks = Bound-Keeps fs gs s t kf ks e n

pub BoundMaybe-IsStable : IsStable BoundMaybe
BoundMaybe-IsStable fs gs s t e n kf ks = Maybe-Keeps fs gs s t kf ks e n

pub BoundNodes-IsStable : IsStable BoundNodes
BoundNodes-IsStable fs gs s t e n kf ks = Nodes-Keeps fs gs s t kf ks e n

pub BoundBranches-IsStable : IsStable BoundBranches
BoundBranches-IsStable fs gs s t e n kf ks = Branches-Keeps fs gs s t kf ks e n

pub BoundCatches-IsStable : IsStable BoundCatches
BoundCatches-IsStable fs gs s t e n kf ks = Catches-Keeps fs gs s t kf ks e n

pub BoundCases-IsStable : IsStable BoundCases
BoundCases-IsStable fs gs s t e n kf ks = Cases-Keeps fs gs s t kf ks e n
