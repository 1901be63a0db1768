-- ===== src/Resolver/Keeps.antt =====
-- core/environment.cc: what the resolver's changes to memory keep.
use clever.Prelude.{
  ℕ, zero, suc, ◌≡◌, ◌≢◌, ◌≤◌, refl, sym, ap, ◌∙◌, some, List, [], ◌∷◌, ◌++◌, length, get_elem?,
  set, arith, get_elem?-append_left, get_elem?-lt, get_elem?-set_self, get_elem?-set_ne,
  >>=-eq-some, ◌>>=◌, inl, inr,
}
use mathlib.Core.Path.{subst}
use native.Mathlib.Decide.{ℕ_discrete}
use clever.Ir.{ValueOffset}
use clever.Store.{Env, Store, push_value, alloc_env, escape, get_value}
use clever.Scope.Offsets.{IsOuter, IsLinked}
use clever.Scope.{Chain}
use clever.Vm.{Function}

-- `later` is `env` with the same outer environment and perhaps more values behind its own.
pub record Grows (env later : Env) : Type 0 where
  pub same_outer : later.outer ≡ env.outer
  pub same_values : (i p : ℕ) → get_elem? env.values i ≡ some p → get_elem? later.values i ≡ some p

-- Every cell of `s` is a cell of `t`, and every environment an environment that has grown.
pub record Keeps (s t : Store) : Type 0 where
  pub cells_le : length s.cells ≤ length t.cells
  pub keep :
      (e : ℕ) (env : Env)
      → get_elem? s.envs e ≡ some env
      → (later : Env) × (get_elem? t.envs e ≡ some later) × Grows env later

Grows-refl : (env : Env) → Grows env env
Grows-refl env = record { same_outer = refl; same_values = λ i p h. h }

pub Keeps-refl : (s : Store) → Keeps s s
Keeps-refl s = record { cells_le = omega arith; keep = λ e env h. (env, h, Grows-refl env) }

pub Keeps-trans : {s t u : Store} → Keeps s t → Keeps t u → Keeps s u
Keeps-trans x y = record {
  cells_le = omega (arith, x.cells_le, y.cells_le);
  keep = λ e env h.
      let (mid, at_mid, g) = x.keep e env h in
      let (later, at_later, g') = y.keep e mid at_mid in
      (
        later,
        at_later,
        record {
          same_outer = g'.same_outer ∙ g.same_outer;
          same_values = λ i p v. g'.same_values i p (g.same_values i p v);
        },
      );
}

-- A store with the same environments.
pub Keeps-same_envs : (s t : Store) → length s.cells ≤ length t.cells → t.envs ≡ s.envs → Keeps s t
Keeps-same_envs s t le same = record {
  cells_le = le;
  keep = λ e env h. (env, ap (λ l. get_elem? l e) same ∙ h, Grows-refl env);
}

pub alloc_env-Keeps : (v : Env) (s : Store) → Keeps s (alloc_env v s).1
unfolding alloc_env
alloc_env-Keeps v s = record {
  cells_le = omega arith;
  keep = λ e env h.
      (env, get_elem?-append_left s.envs (v ∷ []) e (get_elem?-lt s.envs e h) ∙ h, Grows-refl env);
}

module _ (e p : ℕ) (env : Env) (s : Store) (found : get_elem? s.envs e ≡ some env) where
  -- `push_value` in an environment that exists: the slot behind its last one.
  unfoldable pub pushed : Store
  pushed = record s { envs = set s.envs e (record env { values = env.values ++ p ∷ [] }) }

  pub push_value-pushed : push_value e p s ≡ some ((0, length env.values), pushed)
  unfolding push_value pushed
  push_value-pushed = rw (push_value, found)

  pub get_elem?-pushed :
      get_elem? pushed.envs e ≡ some (record env { values = env.values ++ p ∷ [] })
  unfolding pushed
  get_elem?-pushed = get_elem?-set_self s.envs e _ (get_elem?-lt s.envs e found)

  push-Grows : Grows env (record env { values = env.values ++ p ∷ [] })
  push-Grows = record {
    same_outer = refl;
    same_values =
        λ i q h. get_elem?-append_left env.values (p ∷ []) i (get_elem?-lt env.values i h) ∙ h;
  }

  pub pushed-Keeps : Keeps s pushed
  unfolding pushed
  pushed-Keeps = record {
    cells_le = omega arith;
    keep = λ k other h. elim (ℕ_discrete e k) [
      | yes same ↦ (
        record env { values = env.values ++ p ∷ [] },
        ap (get_elem? pushed.envs) (sym same) ∙ get_elem?-pushed,
        subst (λ env'. Grows env' (record env { values = env.values ++ p ∷ [] }))
            (cc (found, h, same)) push-Grows,
      )
      | no differs ↦ (other, get_elem?-set_ne s.envs _ differs ∙ h, Grows-refl other)
    ];
  }

-- The offset leads from the environment to a slot that exists.
abbrev pub IsReached : Store → ℕ → ValueOffset → Type 0
IsReached s e offset = (p : ℕ) × (get_value e offset s ≡ some p)

escape->>= :
    (d e : ℕ) (s : Store)
    → escape (suc d) e s ≡ (get_elem? s.envs e >>= λ env. env.outer >>= λ o. escape d o s)
unfolding escape
escape->>= d e s = ground arith

get_value->>= :
    (e : ℕ) (offset : ValueOffset) (s : Store)
    → get_value e offset s
      ≡ (escape offset.0 e s >>= λ e'. get_elem? s.envs e' >>= λ env. get_elem? env.values offset.1)
unfolding get_value
get_value->>= e offset s = ground arith

escape-Keeps : (d e h : ℕ) (s t : Store) → Keeps s t → escape d e s ≡ some h → escape d e t ≡ some h
unfolding escape
escape-Keeps zero e h s t k r = r
escape-Keeps (suc d) e h s t k r =
    let (env, found, r₁) = >>=-eq-some (get_elem? s.envs e) _ (sym (escape->>= d e s) ∙ r) in
    let (o, out, r₂) = >>=-eq-some env.outer _ r₁ in
    let (later, at_later, g) = k.keep e env found in
    ground (arith, at_later, g.same_outer, out, escape-Keeps d o h s t k r₂)

get_value-Keeps :
    (e p : ℕ) (offset : ValueOffset) (s t : Store)
    → Keeps s t
    → get_value e offset s ≡ some p
    → get_value e offset t ≡ some p
unfolding get_value
get_value-Keeps e p offset s t k r =
    let (e', there, r₁) =
      >>=-eq-some (escape offset.0 e s) _ (sym (get_value->>= e offset s) ∙ r) in
    let (env, found, r₂) = >>=-eq-some (get_elem? s.envs e') _ r₁ in
    let (later, at_later, g) = k.keep e' env found in
    ground (arith, escape-Keeps offset.0 e e' s t k there, at_later, g.same_values offset.1 p r₂)

pub IsReached-Keeps :
    {s t : Store} (e : ℕ) (offset : ValueOffset)
    → Keeps s t
    → IsReached s e offset
    → IsReached t e offset
IsReached-Keeps {s = s} {t = t} e offset k (p, r) = (p, get_value-Keeps e p offset s t k r)

IsOuter-Keeps : (s t : Store) (e o : ℕ) → Keeps s t → IsOuter s e o → IsOuter t e o
IsOuter-Keeps s t e o k (env, found, out) =
    let (later, at_later, g) = k.keep e env found in (later, at_later, g.same_outer ∙ out)

pub IsLinked-Keeps :
    {s t : Store} (e : ℕ) (chain : Chain) → Keeps s t → IsLinked s e chain → IsLinked t e chain
IsLinked-Keeps e [] k l = tt
IsLinked-Keeps {s = s} {t = t} e (sc ∷ parents) k (link, rest) = (
  elim link [
    | inl same ↦ inl same
    | inr (outer, differs) ↦ inr (IsOuter-Keeps s t e sc.environment k outer, differs)
  ],
  IsLinked-Keeps sc.environment parents k rest,
)

-- A function object keeps the environment that it was given; 0 is the global one, which none is given.
pub record KeepsFunctions (fs gs : List Function) : Type 0 where
  pub keep_function :
      (f : ℕ) (fn : Function)
      → get_elem? fs f ≡ some fn
      → (later : Function) × (get_elem? gs f ≡ some later)
        × (fn.environment ≢ 0 → later.environment ≡ fn.environment)

pub KeepsFunctions-refl : (fs : List Function) → KeepsFunctions fs fs
KeepsFunctions-refl fs = record { keep_function = λ f fn h. (fn, h, λ _. refl) }

pub KeepsFunctions-trans :
    {fs gs hs : List Function} → KeepsFunctions fs gs → KeepsFunctions gs hs → KeepsFunctions fs hs
KeepsFunctions-trans x y = record {
  keep_function = λ f fn h.
      let (mid, at_mid, same) = x.keep_function f fn h in
      let (later, at_later, same') = y.keep_function f mid at_mid in
      (
        later,
        at_later,
        λ set_before. same' (λ unset. set_before (sym (same set_before) ∙ unset)) ∙ same set_before,
      );
}

pub append-KeepsFunctions : (fs gs : List Function) → KeepsFunctions fs (fs ++ gs)
append-KeepsFunctions fs gs = record {
  keep_function =
      λ f fn h. (fn, get_elem?-append_left fs gs f (get_elem?-lt fs f h) ∙ h, λ _. refl);
}

pub set-KeepsFunctions :
    (fs : List Function) (f : ℕ) (old new : Function)
    → get_elem? fs f ≡ some old
    → (old.environment ≢ 0 → new.environment ≡ old.environment)
    → KeepsFunctions fs (set fs f new)
set-KeepsFunctions fs f old new found same = record {
  keep_function = λ g fn h. elim (ℕ_discrete f g) [
    | yes e ↦
        let agrees : old ≡ fn = cc (found, h, e) in
        (
          new,
          ap (get_elem? (set fs f new)) (sym e)
              ∙ get_elem?-set_self fs f new (get_elem?-lt fs f found),
          λ given.
              same (λ unset. given (sym (ap (λ x. x.environment) agrees) ∙ unset))
              ∙ ap (λ x. x.environment) agrees,
        )
    | no differs ↦ (fn, get_elem?-set_ne fs new differs ∙ h, λ _. refl)
  ];
}
