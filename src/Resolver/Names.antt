-- ===== src/Resolver/Names.antt =====
-- core/resolver.cc, visit(Ident*) and visit(Type*): a name that is found leads to a slot that exists.
use clever.Prelude.{
  ℕ, zero, suc, ◌+◌, ◌≡◌, refl, sym, ap, ◌∙◌, inl, inr, true, some, List, [], ◌∷◌, get_elem?, arith,
  ◌==◌, ==_iff, if◌then◌else◌, >>=-eq-some, Bool-cases, Option-cases,
}
use clever.Store.{Store, get_value}
use clever.Scope.{Symbol, Scope, Chain, find, get_local, get_any, has_symbol, depth_of, get_offset}
use clever.Scope.Offsets.{IsLinked, home, get_value-get_offset}
use clever.Resolver.Keeps.{IsReached}
use clever.Resolver.Invariant.{InChain, IsSlotted}

get_local-InChain :
    (name : ℕ) (sc : Scope) (x : Symbol)
    → get_local name sc ≡ some x
    → (i : ℕ) × (get_elem? sc.symbols i ≡ some x)
unfolding get_local
get_local-InChain name sc x h =
    let (i, known, found) = >>=-eq-some (find name sc.symbol_table) _ h in (i, found)

-- The symbol that `getAny` finds stands in a scope of the chain.
get_any-InChain :
    (name : ℕ) (chain : Chain) (x : Symbol)
    → get_any name chain ≡ some x
    → (e : ℕ) × InChain x e chain
unfolding get_any
get_any-InChain name [] x h = cc
get_any-InChain name (sc ∷ parents) x h = elim (Option-cases (get_local name sc)) [
  | inl unknown ↦
      let (e, there) = get_any-InChain name parents x (ground (arith, unknown, h)) in (e, inr there)
  | inr (y, known) ↦
      let (i, found) = get_local-InChain name sc x (ground (arith, known, h)) in
      (sc.environment, inl (i, refl, found))
]

pub has_symbol-found :
    (syms : List Symbol) (i : ℕ) (x : Symbol)
    → get_elem? syms i ≡ some x
    → has_symbol x.serial syms ≡ true
unfolding has_symbol
has_symbol-found [] i x h = cc
has_symbol-found (y ∷ syms) zero x h = ground (arith, ==_iff y.serial x.serial)
has_symbol-found (y ∷ syms) (suc i) x h = ground (arith, has_symbol-found syms i x h)

found-has_symbol :
    (serial : ℕ) (syms : List Symbol)
    → has_symbol serial syms ≡ true
    → (i : ℕ) × (y : Symbol) × (get_elem? syms i ≡ some y) × (y.serial ≡ serial)
unfolding has_symbol
found-has_symbol serial [] h = cc
found-has_symbol serial (y ∷ syms) h = elim (Bool-cases (y.serial == serial)) [
  | inl same ↦ (0, y, refl, ground (arith, ==_iff y.serial serial, same))
  | inr differs ↦
      let (i, z, found, same) = found-has_symbol serial syms (ground (arith, differs, h)) in
      (suc i, z, found, same)
]

-- A symbol in the chain is counted to: the assertion of `getOffset` holds.
depth_of-InChain :
    (x : Symbol) (e last_env first : ℕ) (chain : Chain)
    → InChain x e chain
    → (n : ℕ) × (depth_of x last_env first chain ≡ some n)
unfolding depth_of
depth_of-InChain x e last_env first [] h = absurd h
depth_of-InChain x e last_env first (sc ∷ parents) h =
    elim (Bool-cases (has_symbol x.serial sc.symbols)) [
      | inl hit ↦ (if sc.environment == last_env then first else first + 1, rw hit)
      | inr miss ↦ elim h [
        | inl (i, _, found) ↦ cc (has_symbol-found sc.symbols i x found, miss)
        | inr there ↦
            let (n, counted) =
              depth_of-InChain x e sc.environment
                (if sc.environment == last_env then first else first + 1) parents there in
            (n, rw (miss, counted))
      ]
    ]

home-InChain :
    (target : Symbol) (chain : Chain) (e : ℕ)
    → home target chain ≡ some e
    → (y : Symbol) × InChain y e chain × (y.serial ≡ target.serial)
unfolding home
home-InChain target [] e h = cc
home-InChain target (sc ∷ parents) e h = elim (Bool-cases (has_symbol target.serial sc.symbols)) [
  | inl hit ↦
      let (i, y, found, same) = found-has_symbol target.serial sc.symbols hit in
      (y, inl (i, ground (arith, hit, h), found), same)
  | inr miss ↦
      let (y, there, same) = home-InChain target parents e (ground (arith, miss, h)) in
      (y, inr there, same)
]

module _ (name next : ℕ) (s : Store) (sc : Scope) (parents : Chain)
    (linked : IsLinked s sc.environment parents) (slotted : IsSlotted s next (sc ∷ parents))
    (x : Symbol) (named : get_any name (sc ∷ parents) ≡ some x) where
  -- What `getAny` finds, `getOffset` gives an offset for, and the offset leads to a slot.
  pub get_offset-get_any :
      (offset : ℕ × ℕ) × (get_offset x (sc ∷ parents) ≡ some offset)
      × IsReached s sc.environment offset
  unfolding get_offset
  get_offset-get_any =
      let (e, there) = get_any-InChain name (sc ∷ parents) x named in
      let (n, counted) = depth_of-InChain x e sc.environment 0 (sc ∷ parents) there in
      let given : get_offset x (sc ∷ parents) ≡ some (n, x.voffset.1) = rw (get_offset, counted) in
      let (h, at_home, leads) = get_value-get_offset x s sc parents (n, x.voffset.1) linked given in
      let (y, y_there, same) = home-InChain x (sc ∷ parents) h at_home in
      let (p, reached) = slotted.slot y h y_there in
      (
        (n, x.voffset.1),
        given,
        (
          p,
          leads
              ∙ ap (λ k. get_value h (0, k) s) (slotted.unique x y e h there y_there (sym same))
              ∙ reached,
        ),
      )
