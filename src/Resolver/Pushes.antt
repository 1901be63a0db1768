-- ===== src/Resolver/Pushes.antt =====
-- core/scope.h, pushValue, as the resolver uses it: the new symbol has a slot of its own.
use clever.Prelude.{
  ℕ, zero, suc, ◌<◌, ◌≡◌, refl, sym, ap, ◌∙◌, ◌⊎◌, inl, inr, some, List, [], ◌∷◌, ◌++◌, length,
  length-append, get_elem?, arith, get_elem?-append_length,
}
use mathlib.Core.Path.{subst}
use clever.Store.{Cell, Env, Store, alloc_cell, get_value, escape}
use clever.Scope.{Symbol, Scope, Chain, declare, push_symbol}
use clever.Resolver.{Resolver, ok, push_new}
use clever.Resolver.Keeps.{
  Keeps, Keeps-trans, Keeps-same_envs, IsReached, IsLinked-Keeps, KeepsFunctions-refl, pushed,
  push_value-pushed, pushed-Keeps, get_elem?-pushed,
}
use clever.Resolver.Invariant.{InChain, Place, IsSlotted, IsWellScoped, Claim, Ends}
use clever.Resolver.Steps.{Ends-ok, IsSlotted-Keeps}

get_elem?-append_one :
    (xs : List Symbol) (y x : Symbol) (i : ℕ)
    → get_elem? (xs ++ y ∷ []) i ≡ some x
    → (get_elem? xs i ≡ some x) ⊎ (x ≡ y)
get_elem?-append_one [] y x zero h = inr (cc h)
get_elem?-append_one [] y x (suc i) h = cc
get_elem?-append_one (z ∷ xs) y x zero h = inl h
get_elem?-append_one (z ∷ xs) y x (suc i) h = get_elem?-append_one xs y x i h

-- A symbol in reach after a declaration is the new one or was in reach before.
InChain-declare :
    (new x : Symbol) (e : ℕ) (sc : Scope) (parents : Chain)
    → InChain x e (declare new sc ∷ parents)
    → InChain x e (sc ∷ parents) ⊎ ((x ≡ new) × (sc.environment ≡ e))
unfolding declare
InChain-declare new x e sc parents (inl (i, at, found)) =
    elim (get_elem?-append_one sc.symbols new x i found) [
      | inl old ↦ inl (inl (i, at, old))
      | inr same ↦ inr (same, at)
    ]
InChain-declare new x e sc parents (inr outer) = inl (inr outer)

-- A new symbol with the next address and a slot that exists.
module _ (s : Store) (next : ℕ) (new : Symbol) (sc : Scope) (parents : Chain)
    (h : IsSlotted s next (sc ∷ parents)) (fresh : new.serial ≡ next)
    (reached : IsReached s sc.environment (0, new.voffset.1)) where
  declare_slot :
      (x : Symbol) (e : ℕ) → InChain x e (declare new sc ∷ parents) → IsReached s e (0, x.voffset.1)
  declare_slot x e there = elim (InChain-declare new x e sc parents there) [
    | inl old ↦ h.slot x e old
    | inr (same, at) ↦
        subst (λ y. IsReached s e (0, y.voffset.1)) (sym same)
          (subst (λ k. IsReached s k (0, new.voffset.1)) at reached)
  ]

  declare_older :
      (x : Symbol) (e : ℕ) → InChain x e (declare new sc ∷ parents) → x.serial < suc next
  declare_older x e there = elim (InChain-declare new x e sc parents there) [
    | inl old ↦ omega (arith, h.older x e old)
    | inr (same, at) ↦ omega (arith, ap (λ y. y.serial) same, fresh)
  ]

  declare_unique :
      (x y : Symbol) (e o : ℕ)
      → InChain x e (declare new sc ∷ parents)
      → InChain y o (declare new sc ∷ parents)
      → x.serial ≡ y.serial
      → x.voffset.1 ≡ y.voffset.1
  declare_unique x y e o there there' same = elim (InChain-declare new x e sc parents there) [
    | inl old ↦ elim (InChain-declare new y o sc parents there') [
      | inl old' ↦ h.unique x y e o old old' same
      | inr (is_new, at) ↦
          absurd (omega (arith, h.older x e old, same, ap (λ z. z.serial) is_new, fresh))
    ]
    | inr (is_new, at) ↦ elim (InChain-declare new y o sc parents there') [
      | inl old' ↦ absurd (omega (arith, h.older y o old', same, ap (λ z. z.serial) is_new, fresh))
      | inr (is_new', at') ↦ ap (λ z. z.voffset.1) is_new ∙ sym (ap (λ z. z.voffset.1) is_new')
    ]
  ]

  pub declare-IsSlotted : IsSlotted s (suc next) (declare new sc ∷ parents)
  declare-IsSlotted = record { older = declare_older; slot = declare_slot; unique = declare_unique }

-- The functions are as they were, and the pointer is one to a cell.
abbrev pub Pushed : Resolver → Claim ℕ
Pushed r fs s e p = (fs ≡ r.functions) × (p < length s.cells)

module _ (name : ℕ) (cell : Cell) (c : Place) (r : Resolver) (w : IsWellScoped c r) (env : Env)
    (found : get_elem? r.store.envs r.scope.environment ≡ some env) where
  unfoldable pub grown : Store
  grown = (alloc_cell cell r.store).1

  pub found_grown : get_elem? grown.envs r.scope.environment ≡ some env
  unfolding grown alloc_cell
  found_grown = found

  unfoldable pub later_store : Store
  unfolding grown
  later_store = pushed r.scope.environment (length r.store.cells) env grown found_grown

  unfoldable pub later_symbol : Symbol
  later_symbol = record { serial = r.next_serial; name = name; voffset = (0, length env.values) }

  unfoldable pub later_state : Resolver
  unfolding later_store later_symbol
  later_state = record r {
    scope = declare later_symbol r.scope;
    store = later_store;
    next_serial = suc r.next_serial;
  }

  pub push_new-later : push_new name cell r ≡ ok (length r.store.cells) later_state
  unfolding push_new push_symbol later_state later_store later_symbol grown alloc_cell
  push_new-later =
      ground
        (arith, push_value-pushed r.scope.environment (length r.store.cells) env grown found_grown)

  later-Keeps : Keeps r.store later_store
  unfolding later_store grown alloc_cell
  later-Keeps =
      Keeps-trans
        (Keeps-same_envs r.store grown (omega (arith, length-append r.store.cells (cell ∷ [])))
          refl)
        (pushed-Keeps r.scope.environment (length r.store.cells) env grown found_grown)

  later-IsReached : IsReached later_store r.scope.environment (0, length env.values)
  unfolding later_store get_value escape
  later-IsReached = (
    length r.store.cells,
    ground (
      arith,
      get_elem?-pushed r.scope.environment (length r.store.cells) env grown found_grown,
      get_elem?-append_length env.values (length r.store.cells) [],
    ),
  )

  pub later-IsWellScoped : IsWellScoped c later_state
  unfolding later_state later_symbol declare
  later-IsWellScoped =
      let (env₀, found₀) = w.housed in
      let (env', found', _) = later-Keeps.keep c.environment env₀ found₀ in
      record {
        here = w.here;
        around = w.around;
        stacked = w.stacked;
        housed = (env', found');
        linked = IsLinked-Keeps c.environment c.parents later-Keeps w.linked;
        slotted =
            declare-IsSlotted later_store r.next_serial later_symbol r.scope c.parents
              (IsSlotted-Keeps r.next_serial (r.scope ∷ c.parents) later-Keeps w.slotted) refl
              later-IsReached;
      }

  pub later-cell : length r.store.cells < length later_store.cells
  unfolding later_store grown alloc_cell pushed
  later-cell = omega (arith, length-append r.store.cells (cell ∷ []))

  later-Ends : Ends c r (Pushed r) (push_new name cell)
  unfolding later_state
  later-Ends =
      Ends-ok c r later_state (Pushed r) (length r.store.cells) (push_new name cell) push_new-later
        later-IsWellScoped
        (record { store_kept = later-Keeps; functions_kept = KeepsFunctions-refl r.functions })
        (refl, later-cell)

pub push_new-Ends :
    (name : ℕ) (cell : Cell) (c : Place) (r : Resolver)
    → IsWellScoped c r
    → Ends c r (Pushed r) (push_new name cell)
push_new-Ends name cell c r w =
    let (env, found) = w.housed in
    later-Ends name cell c r w env (ap (get_elem? r.store.envs) w.here ∙ found)
