-- ===== src/Resolver/Brackets.antt =====
-- core/resolver.cc: a scope that is entered, visited in and left, for a block.
use clever.Prelude.{ℕ, ◌≡◌, refl, sym, ap, inl, inr, [], ◌∷◌, arith}
use mathlib.Core.Path.{subst}
use clever.Store.{Store}
use clever.Scope.{Scope, Chain}
use clever.Scope.Offsets.{IsLinked}
use clever.Resolver.{
  Resolver, Outcome, ok, error, null_operand, undefined, M, pure, and_then, ◌>>=◌, enter_block,
  leave_scope, in_block,
}
use clever.Resolver.Keeps.{Keeps-refl, IsLinked-Keeps, KeepsFunctions-refl}
use clever.Resolver.Invariant.{
  Place, IsSlotted, IsWellScoped, Kept, Kept-trans, Claim, EndsAt, Ends, Sound,
}

abbrev pub empty_scope : ℕ → Scope
empty_scope e = record { symbols = []; symbol_table = []; environment = e }

pub enter-IsSlotted :
    (s : Store) (n e : ℕ) (chain : Chain)
    → IsSlotted s n chain
    → IsSlotted s n (empty_scope e ∷ chain)
enter-IsSlotted s n e chain h = record {
  older = λ x o there. elim there [ inl (i, _, found) ↦ cc found | inr outer ↦ h.older x o outer ];
  slot = λ x o there. elim there [ inl (i, _, found) ↦ cc found | inr outer ↦ h.slot x o outer ];
  unique = λ x y o o' there there' same. elim there [
    | inl (i, _, found) ↦ cc found
    | inr outer ↦ elim there' [
      | inl (i, _, found) ↦ cc found
      | inr outer' ↦ h.unique x y o o' outer outer' same
    ]
  ];
}

pub leave-IsSlotted :
    (s : Store) (n : ℕ) (sc : Scope) (chain : Chain)
    → IsSlotted s n (sc ∷ chain)
    → IsSlotted s n chain
leave-IsSlotted s n sc chain h = record {
  older = λ x o there. h.older x o (inr there);
  slot = λ x o there. h.slot x o (inr there);
  unique = λ x y o o' there there' same. h.unique x y o o' (inr there) (inr there') same;
}

abbrev pub bracket : {A : Type 0} → M (Unit {0}) → M (Unit {0}) → M A → M A
bracket enter leave m = enter >>= λ _. m >>= λ a. leave >>= λ _. pure a

-- Leaving after a visit at the inner place: what is claimed inside gives what is claimed outside.
abbrev pub Leaves :
    {A : Type 0} → Place → Place → Claim A → Claim A → M (Unit {0}) → Resolver → Type 0
Leaves {A} c inner P Q leave r₁ =
    (a : A) (r₂ : Resolver)
    → IsWellScoped inner r₂
    → Kept r₁ r₂
    → P r₂.functions r₂.store inner.environment a
    → (r₃ : Resolver) × (leave r₂ ≡ ok tt r₃)
      × IsWellScoped c r₃
      × Kept r₂ r₃
      × Q r₃.functions r₃.store c.environment a

pub bracket-Ends :
    {A : Type 0} (c inner : Place) (P Q : Claim A) (enter leave : M (Unit {0})) (m : M A)
    (r r₁ : Resolver)
    → enter r ≡ ok tt r₁
    → Kept r r₁
    → Ends inner r₁ P m
    → Leaves c inner P Q leave r₁
    → Ends c r Q (bracket enter leave m)
unfolding ◌>>=◌
bracket-Ends {A} c inner P Q enter leave m r r₁ entered kept h leaves = record {
  meets =
      subst (λ out. EndsAt c r Q (and_then out (λ _. m >>= λ a. leave >>= λ _. pure a)))
        (sym entered) (by_outcome (m r₁) h.meets);
}
  where
    by_outcome :
        (out : Outcome A)
        → EndsAt inner r₁ P out
        → EndsAt c r Q (and_then out (λ a. leave >>= λ _. pure a))
    by_outcome (ok a r₂) (w, k, p) =
        let (r₃, left, w₃, k₃, q) = leaves a r₂ w k p in
        subst (λ out. EndsAt c r Q (and_then out (λ _. pure a))) (sym left)
          (w₃, Kept-trans kept (Kept-trans k k₃), q)
    by_outcome (error e) h' = tt
    by_outcome null_operand h' = tt
    by_outcome undefined h' = h'

-- A block runs in the environment around it.
pub in_block-Sound : {A : Type 0} (P : Claim A) (m : M A) → Sound P m → Sound P (in_block m)
unfolding in_block enter_block leave_scope
in_block-Sound {A} P m h c r w =
    bracket-Ends c inner P P enter_block leave_scope m r r₁ (ground (arith, w.stacked))
      (record { store_kept = Keeps-refl r.store; functions_kept = KeepsFunctions-refl r.functions })
      (h inner r₁ entered) leaves
  where
    inner : Place
    inner = record { environment = c.environment; parents = r.scope ∷ c.parents; rest = c.rest }

    r₁ : Resolver
    r₁ = record r { scope = empty_scope c.environment; parents = r.scope ∷ r.parents }

    entered : IsWellScoped inner r₁
    entered = record {
      here = refl;
      around = ap (λ ps. r.scope ∷ ps) w.around;
      stacked = w.stacked;
      housed = w.housed;
      linked = (inl w.here, subst (λ e. IsLinked r.store e c.parents) (sym w.here) w.linked);
      slotted = enter-IsSlotted r.store r.next_serial c.environment (r.scope ∷ c.parents) w.slotted;
    }

    leaves : Leaves c inner P P leave_scope r₁
    leaves a r₂ w₂ k p = (
      record r₂ { scope = r.scope; parents = c.parents },
      ground (arith, w₂.around),
      record {
        here = w.here;
        around = refl;
        stacked = w₂.stacked;
        housed = w₂.housed;
        linked = IsLinked-Keeps c.environment c.parents k.store_kept w.linked;
        slotted = leave-IsSlotted r₂.store r₂.next_serial r₂.scope (r.scope ∷ c.parents) w₂.slotted;
      },
      record {
        store_kept = Keeps-refl r₂.store;
        functions_kept = KeepsFunctions-refl r₂.functions;
      },
      p,
    )
