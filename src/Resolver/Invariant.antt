-- ===== src/Resolver/Invariant.antt =====
-- core/resolver.cc: what holds between any two steps of the resolver.
use clever.Prelude.{ℕ, ◌<◌, ◌≡◌, ◌⊎◌, some, List, [], ◌∷◌, get_elem?}
use clever.Store.{Env, Store}
use clever.Scope.{Symbol, Chain}
use clever.Scope.Offsets.{IsLinked}
use clever.Vm.{Function}
use clever.Resolver.{
  Resolver, Outcome, ok, error, null_operand, undefined, M, pure, and_then, ◌>>=◌, lift₁, lift₂,
  lift₃,
}
use clever.Resolver.Keeps.{
  Keeps, Keeps-refl, Keeps-trans, IsReached, KeepsFunctions, KeepsFunctions-refl,
  KeepsFunctions-trans,
}

-- The symbol stands in a scope of the chain, whose environment is `home`.
abbrev pub InChain : Symbol → ℕ → Chain → Type 0
InChain x home [] = ⊥
InChain x home (sc ∷ parents) =
    ((i : ℕ) × (sc.environment ≡ home) × (get_elem? sc.symbols i ≡ some x)) ⊎ InChain x home parents

-- Where a visit is: the current environment, the scopes around the current one, and the environments
-- below the top of the stack.
pub record Place : Type 0 where
  pub environment : ℕ
  pub parents : Chain
  pub rest : List ℕ

-- Every symbol in reach has a slot that exists, and is the only one with its address.
pub record IsSlotted (s : Store) (next : ℕ) (chain : Chain) : Type 0 where
  pub older : (x : Symbol) (home : ℕ) → InChain x home chain → x.serial < next
  pub slot : (x : Symbol) (home : ℕ) → InChain x home chain → IsReached s home (0, x.voffset.1)
  pub unique :
      (x y : Symbol) (home other : ℕ)
      → InChain x home chain
      → InChain y other chain
      → x.serial ≡ y.serial
      → x.voffset.1 ≡ y.voffset.1

-- The environment on top of the stack is the current scope's and exists, the scopes around it are
-- nested as the environments are, and the symbols have their slots.
pub record IsWellScoped (c : Place) (r : Resolver) : Type 0 where
  pub here : r.scope.environment ≡ c.environment
  pub around : r.parents ≡ c.parents
  pub stacked : r.stack ≡ c.environment ∷ c.rest
  pub housed : (env : Env) × (get_elem? r.store.envs c.environment ≡ some env)
  pub linked : IsLinked r.store c.environment c.parents
  pub slotted : IsSlotted r.store r.next_serial (r.scope ∷ c.parents)

-- What is never lost from one step to a later one.
pub record Kept (r later : Resolver) : Type 0 where
  pub store_kept : Keeps r.store later.store
  pub functions_kept : KeepsFunctions r.functions later.functions

pub Kept-refl : (r : Resolver) → Kept r r
Kept-refl r = record {
  store_kept = Keeps-refl r.store;
  functions_kept = KeepsFunctions-refl r.functions;
}

pub Kept-trans : {r mid later : Resolver} → Kept r mid → Kept mid later → Kept r later
Kept-trans x y = record {
  store_kept = Keeps-trans x.store_kept y.store_kept;
  functions_kept = KeepsFunctions-trans x.functions_kept y.functions_kept;
}

-- A claim about a result, in the functions and the memory, for an environment.
abbrev pub Claim : Type 0 → Type 1
Claim A = List Function → Store → ℕ → A → Type 0

-- The claim on a result survives later steps.
abbrev pub IsStable : {A : Type 0} → Claim A → Type 0
IsStable {A} P =
    (fs gs : List Function) (s t : Store) (e : ℕ) (a : A)
    → KeepsFunctions fs gs
    → Keeps s t
    → P fs s e a
    → P gs t e a

-- A visit that ends leaves the place well scoped, loses nothing, and its result is as claimed. It does
-- nothing undefined but, at most, a call on a null operand.
abbrev pub EndsAt : {A : Type 0} → Place → Resolver → Claim A → Outcome A → Type 0
EndsAt c r P (ok a later) =
    IsWellScoped c later × Kept r later × P later.functions later.store c.environment a
EndsAt c r P (error e) = Unit
EndsAt c r P null_operand = Unit
EndsAt c r P undefined = ⊥

pub record Ends {A : Type 0} (c : Place) (r : Resolver) (P : Claim A) (m : M A) : Type 0 where
  pub meets : EndsAt c r P (m r)

EndsAt-weaken :
    {A : Type 0} (c : Place) (r mid : Resolver) (P : Claim A) (out : Outcome A)
    → Kept r mid
    → EndsAt c mid P out
    → EndsAt c r P out
EndsAt-weaken c r mid P (ok a later) k (w, k', p) = (w, Kept-trans k k', p)
EndsAt-weaken c r mid P (error e) k h = tt
EndsAt-weaken c r mid P null_operand k h = tt
EndsAt-weaken c r mid P undefined k h = h

-- From every later state that satisfies the claim, the continuation ends as it should.
abbrev pub Continues : {A B : Type 0} → Place → Resolver → Claim A → Claim B → (A → M B) → Type 0
Continues {A} c r P Q k =
    (a : A) (mid : Resolver)
    → IsWellScoped c mid
    → Kept r mid
    → P mid.functions mid.store c.environment a
    → Ends c mid Q (k a)

pub >>=-Ends :
    {A B : Type 0} {c : Place} {r : Resolver} {P : Claim A} {Q : Claim B} {m : M A} {k : A → M B}
    → Ends c r P m
    → Continues c r P Q k
    → Ends c r Q (m >>= k)
unfolding ◌>>=◌
>>=-Ends {A} {c = c} {r = r} {P = P} {Q = Q} {m = m} {k = k} h next = record {
  meets = by_outcome (m r) h.meets;
}
  where
    by_outcome : (out : Outcome A) → EndsAt c r P out → EndsAt c r Q (and_then out k)
    by_outcome (ok a later) (w, kept, p) =
        EndsAt-weaken c r later Q (k a later) kept (next a later w kept p).meets
    by_outcome (error e) h' = tt
    by_outcome null_operand h' = tt
    by_outcome undefined h' = h'

pub pure-Ends :
    {A : Type 0} {c : Place} {r : Resolver} {P : Claim A} (a : A)
    → IsWellScoped c r
    → P r.functions r.store c.environment a
    → Ends c r P (pure a)
pure-Ends {r = r} a w p = record { meets = (w, Kept-refl r, p) }

-- A visit that ends as it should from every well scoped state.
abbrev pub Sound : {A : Type 0} → Claim A → M A → Type 0
Sound P m = (c : Place) (r : Resolver) → IsWellScoped c r → Ends c r P m

module _ {A D : Type 0} (P : Claim A) where
  pub lift₁-Sound :
      (S : Claim D) (f : A → D) (m : M A)
      → Sound P m
      → ((fs : List Function) (s : Store) (e : ℕ) (a : A) → P fs s e a → S fs s e (f a))
      → Sound S (lift₁ f m)
  lift₁-Sound S f m h imp c r w =
      >>=-Ends (h c r w)
        (λ a mid w' k p. pure-Ends (f a) w' (imp mid.functions mid.store c.environment a p))

module _ {A B D : Type 0} (P : Claim A) (Q : Claim B) where
  pub lift₂-Sound :
      (S : Claim D) (f : A → B → D) (m : M A) (n : M B)
      → Sound P m
      → Sound Q n
      → IsStable P
      → ((fs : List Function) (s : Store) (e : ℕ) (a : A) (b : B)
          → P fs s e a
          → Q fs s e b
          → S fs s e (f a b))
      → Sound S (lift₂ f m n)
  lift₂-Sound S f m n h h' stable imp c r w = >>=-Ends (h c r w) (λ a mid w₁ k₁ p.
      >>=-Ends (h' c mid w₁) (λ b later w₂ k₂ q. pure-Ends (f a b) w₂ (
        imp later.functions later.store c.environment a b
          (stable mid.functions later.functions mid.store later.store c.environment a
            k₂.functions_kept k₂.store_kept p)
          q)))

module _ {A B C D : Type 0} (P : Claim A) (Q : Claim B) (R : Claim C) where
  pub lift₃-Sound :
      (S : Claim D) (f : A → B → C → D) (m : M A) (n : M B) (o : M C)
      → Sound P m
      → Sound Q n
      → Sound R o
      → IsStable P
      → IsStable Q
      → ((fs : List Function) (s : Store) (e : ℕ) (a : A) (b : B) (x : C)
          → P fs s e a
          → Q fs s e b
          → R fs s e x
          → S fs s e (f a b x))
      → Sound S (lift₃ f m n o)
  lift₃-Sound S f m n o h h' h'' stable stable' imp c r w = >>=-Ends (h c r w) (λ a mid w₁ k₁ p.
      >>=-Ends (h' c mid w₁) (λ b mid₂ w₂ k₂ q. >>=-Ends (h'' c mid₂ w₂) (λ x later w₃ k₃ u.
        pure-Ends (f a b x) w₃ (
          imp later.functions later.store c.environment a b x
            (stable mid.functions later.functions mid.store later.store c.environment a
              (KeepsFunctions-trans k₂.functions_kept k₃.functions_kept)
              (Keeps-trans k₂.store_kept k₃.store_kept) p)
            (stable' mid₂.functions later.functions mid₂.store later.store c.environment b
              k₃.functions_kept k₃.store_kept q)
            u))))
