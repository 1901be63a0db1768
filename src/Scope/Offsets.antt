-- ===== src/Scope/Offsets.antt =====
-- scope.cc and environment.cc: the offset of a symbol leads to its value at run time.
use clever.Prelude.{
  ℕ, suc, ◌+◌, ◌≡◌, ◌≢◌, refl, sym, ap, ◌∙◌, ◌⊎◌, inl, inr, true, false, Option, none, some, [],
  ◌∷◌, get_elem?, arith, ◌==◌, if◌then◌else◌, >>=-eq-some, Bool-cases,
}
use mathlib.Core.Path.{subst}
use clever.Ir.{ValueOffset}
use clever.Store.{Env, Store, escape, get_value}
use clever.Scope.{Symbol, Scope, Chain, has_symbol, depth_of, get_offset}

-- The environment `o` encloses the environment `e`.
abbrev pub IsOuter : Store → ℕ → ℕ → Type 0
IsOuter s e o = (env : Env) × (get_elem? s.envs e ≡ some env) × (env.outer ≡ some o)

-- Each scope shares the environment of the scope below it, or its environment encloses that one.
abbrev pub IsLinked : Store → ℕ → Chain → Type 0
IsLinked s e [] = Unit
IsLinked s e (sc ∷ parents) =
    ((sc.environment ≡ e) ⊎ (IsOuter s e sc.environment × (sc.environment ≢ e)))
    × IsLinked s sc.environment parents

-- The environment of the innermost scope of the chain that holds the symbol.
unfoldable pub home : Symbol → Chain → Option ℕ
unfolding has_symbol
home target [] = none
home target (sc ∷ parents) =
    let next = home target parents in
    if has_symbol target.serial sc.symbols then some sc.environment else next

escape-suc : (d e o : ℕ) (s : Store) → IsOuter s e o → escape (suc d) e s ≡ escape d o s
unfolding escape
escape-suc d e o s (env, found, out) = ground arith

-- One more scope on the way: the tests of `depth_of` and of `home` are settled by the links.
module _ (target : Symbol) (e first : ℕ) (sc : Scope) (parents : Chain) where
  first_after : ℕ
  first_after = if sc.environment == e then first else first + 1

  depth_of-hit :
      has_symbol target.serial sc.symbols ≡ true
      → depth_of target e first (sc ∷ parents) ≡ some first_after
  unfolding depth_of first_after
  depth_of-hit hit = rw hit

  depth_of-miss :
      has_symbol target.serial sc.symbols ≡ false
      → depth_of target e first (sc ∷ parents) ≡ depth_of target sc.environment first_after parents
  unfolding depth_of first_after
  depth_of-miss miss = rw miss

  first_after-same : sc.environment ≡ e → first_after ≡ first
  unfolding first_after
  first_after-same same = ground arith

  first_after-outer : sc.environment ≢ e → first_after ≡ first + 1
  unfolding first_after
  first_after-outer differs = ground arith

home-hit :
    (target : Symbol) (sc : Scope) (parents : Chain)
    → has_symbol target.serial sc.symbols ≡ true
    → home target (sc ∷ parents) ≡ some sc.environment
unfolding home
home-hit target sc parents hit = rw hit

home-miss :
    (target : Symbol) (sc : Scope) (parents : Chain)
    → has_symbol target.serial sc.symbols ≡ false
    → home target (sc ∷ parents) ≡ home target parents
unfolding home
home-miss target sc parents miss = rw miss

-- The environments counted from `e` on lead to the symbol's home.
abbrev Leads : Symbol → Store → ℕ → ℕ → Chain → ℕ → Type 0
Leads target s e first chain r = (k : ℕ) × (r ≡ first + k) × (home target chain ≡ escape k e s)

module _ (target : Symbol) (s : Store) (e first : ℕ) (sc : Scope) (parents : Chain) (r : ℕ) where
  Leads-hit :
      (sc.environment ≡ e) ⊎ (IsOuter s e sc.environment × (sc.environment ≢ e))
      → has_symbol target.serial sc.symbols ≡ true
      → depth_of target e first (sc ∷ parents) ≡ some r
      → Leads target s e first (sc ∷ parents) r
  unfolding escape
  Leads-hit (inl same) hit h = (
    0,
    ground (
      arith,
      depth_of-hit target e first sc parents hit,
      first_after-same target e first sc parents same,
    ),
    home-hit target sc parents hit ∙ ap some same,
  )
  Leads-hit (inr (outer, differs)) hit h = (
    1,
    ground (
      arith,
      depth_of-hit target e first sc parents hit,
      first_after-outer target e first sc parents differs,
    ),
    home-hit target sc parents hit ∙ sym (escape-suc 0 e sc.environment s outer),
  )

  Leads-miss :
      (sc.environment ≡ e) ⊎ (IsOuter s e sc.environment × (sc.environment ≢ e))
      → has_symbol target.serial sc.symbols ≡ false
      → Leads target s sc.environment (first_after target e first sc parents) parents r
      → Leads target s e first (sc ∷ parents) r
  Leads-miss (inl same) miss (k, total, found) = (
    k,
    ground (arith, total, first_after-same target e first sc parents same),
    home-miss target sc parents miss ∙ found ∙ ap (λ x. escape k x s) same,
  )
  Leads-miss (inr (outer, differs)) miss (k, total, found) = (
    suc k,
    ground (arith, total, first_after-outer target e first sc parents differs),
    home-miss target sc parents miss ∙ found ∙ sym (escape-suc k e sc.environment s outer),
  )

depth_of-Leads :
    (target : Symbol) (s : Store) (e first : ℕ) (chain : Chain) (r : ℕ)
    → IsLinked s e chain
    → depth_of target e first chain ≡ some r
    → Leads target s e first chain r
unfolding depth_of
depth_of-Leads target s e first [] r linked h = cc
depth_of-Leads target s e first (sc ∷ parents) r (link, rest) h =
    elim (Bool-cases (has_symbol target.serial sc.symbols)) [
      | inl hit ↦ Leads-hit target s e first sc parents r link hit h
      | inr miss ↦ Leads-miss target s e first sc parents r link miss (
          depth_of-Leads target s sc.environment (first_after target e first sc parents) parents r
            rest (sym (depth_of-miss target e first sc parents miss) ∙ h))
    ]

depth_of-has_home :
    (target : Symbol) (e first : ℕ) (chain : Chain) (r : ℕ)
    → depth_of target e first chain ≡ some r
    → (h : ℕ) × (home target chain ≡ some h)
unfolding depth_of
depth_of-has_home target e first [] r h = cc
depth_of-has_home target e first (sc ∷ parents) r h =
    elim (Bool-cases (has_symbol target.serial sc.symbols)) [
      | inl hit ↦ (sc.environment, home-hit target sc parents hit)
      | inr miss ↦
          let (there, found) =
            depth_of-has_home target sc.environment (first_after target e first sc parents) parents
              r (sym (depth_of-miss target e first sc parents miss) ∙ h) in
          (there, home-miss target sc parents miss ∙ found)
    ]

get_value-escape :
    (e k i h : ℕ) (s : Store) → escape k e s ≡ some h → get_value e (k, i) s ≡ get_value h (0, i) s
unfolding get_value
get_value-escape e k i h s found = ground (arith, found)

-- If each scope of the chain shares the environment of the scope inside it or encloses it by one,
-- then the offset that the compiler computes for a symbol is, at run time and from the innermost
-- scope's environment, the way to the symbol's own slot in the environment of the scope that holds it.
pub get_value-get_offset :
    (target : Symbol) (s : Store) (sc : Scope) (parents : Chain) (offset : ValueOffset)
    → IsLinked s sc.environment parents
    → get_offset target (sc ∷ parents) ≡ some offset
    → (h : ℕ) × (home target (sc ∷ parents) ≡ some h)
      × (get_value sc.environment offset s ≡ get_value h (0, target.voffset.1) s)
unfolding get_offset
get_value-get_offset target s sc parents offset linked h =
    let (first, counted, given) =
      >>=-eq-some (depth_of target sc.environment 0 (sc ∷ parents)) _ h in
    let (there, found) = depth_of-has_home target sc.environment 0 (sc ∷ parents) first counted in
    let (k, total, leads) =
      depth_of-Leads target s sc.environment 0 (sc ∷ parents) first (inl refl, linked) counted in
    (
      there,
      found,
      subst (λ o. get_value sc.environment o s ≡ get_value there (0, target.voffset.1) s) (cc given)
          (get_value-escape sc.environment first target.voffset.1 there s
            (ap (λ x. escape x sc.environment s) (omega arith) ∙ sym leads ∙ found)),
    )
