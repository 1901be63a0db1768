-- ===== src/Store/Frames.antt =====
-- environment.cc: a store that grows keeps what its environments lead to.
use clever.Prelude.{
  ℕ, zero, suc, ◌≤◌, ◌≡◌, ◌∙◌, Option, none, some, List, [], ◌∷◌, length, get_elem?, set, arith,
  get_elem?-lt, get_elem?-set_ne, length-set, >>=-eq-some, Option-cases, inl, inr,
}
use mathlib.Core.Path.{subst}
use clever.Ir.{ValueOffset}
use clever.Store.{
  Env, Store, alloc_cell, alloc_env, read, escape, get_value, clone_values, clone, set_outer,
  activate,
}
use clever.Store.Activation.{
  Extends, Extends-refl, Extends-trans, alloc_cell-Extends, alloc_env-Extends,
}

found-Extends :
    (s t : Store) (e : ℕ) (env : Env)
    → Extends s t
    → get_elem? s.envs e ≡ some env
    → get_elem? t.envs e ≡ some env
found-Extends s t e env x h = x.envs_kept e (get_elem?-lt s.envs e h) ∙ h

escape-Extends :
    (s t : Store) (depth e o : ℕ)
    → Extends s t
    → escape depth e s ≡ some o
    → escape depth e t ≡ some o
unfolding escape
escape-Extends s t zero e o x h = h
escape-Extends s t (suc depth) e o x h = elim (Option-cases (get_elem? s.envs e)) [
  | inl gone ↦ absurd (ground (arith, gone, h))
  | inr (env, found) ↦ elim (Option-cases env.outer) [
    | inl last ↦ absurd (ground (arith, found, last, h))
    | inr (o', more) ↦ ground (
      arith,
      found,
      more,
      found-Extends s t e env x found,
      escape-Extends s t depth o' o x (ground (arith, found, more, h)),
    )
  ]
]

pub get_value-Extends :
    (s t : Store) (e p : ℕ) (offset : ValueOffset)
    → Extends s t
    → get_value e offset s ≡ some p
    → get_value e offset t ≡ some p
unfolding get_value
get_value-Extends s t e p offset x h = elim (Option-cases (escape offset.0 e s)) [
  | inl gone ↦ absurd (ground (arith, gone, h))
  | inr (e', escaped) ↦ elim (Option-cases (get_elem? s.envs e')) [
    | inl gone ↦ absurd (ground (arith, escaped, gone, h))
    | inr (env, found) ↦ ground (
      arith,
      escaped,
      found,
      h,
      escape-Extends s t offset.0 e e' x escaped,
      found-Extends s t e' env x found,
    )
  ]
]

-- What a result of a pair says of the stores in it.
same_store :
    {A : Type 0} {a b : A} {s t : Store}
    → ◌≡◌ {A = Option (A × Store)} (some (a, s)) (some (b, t))
    → s ≡ t
same_store h = cc

clone_values-Extends :
    (ps qs : List ℕ) (s t : Store) → clone_values ps s ≡ some (qs, t) → Extends s t
unfolding clone_values
clone_values-Extends [] qs s t h = subst (Extends s) (same_store h) (Extends-refl s)
clone_values-Extends (p ∷ ps) qs s t h =
    let (c, found, h₁) = >>=-eq-some (read p s) _ h in
    let ((rest, after), runs, h₂) = >>=-eq-some (clone_values ps (alloc_cell c s).1) _ h₁ in
    subst (Extends s) (same_store h₂)
      (Extends-trans (alloc_cell-Extends c s) (clone_values-Extends ps rest _ after runs))

-- The temporary environment of a clone.
abbrev temp_of : Option ℕ → (ℕ → Option (ℕ × Store)) → Store → Option (Option ℕ × Store)
temp_of o cloned s = elim o [
  | none ↦ some (none, s)
  | some t ↦ elim (cloned t) [ none ↦ none | some (t', s') ↦ some (some t', s') ]
]

temp_of-Extends :
    (o temp : Option ℕ) (cloned : ℕ → Option (ℕ × Store)) (s t : Store)
    → ((e e' : ℕ) (s' : Store) → cloned e ≡ some (e', s') → Extends s s')
    → temp_of o cloned s ≡ some (temp, t)
    → Extends s t
temp_of-Extends none temp cloned s t x h = subst (Extends s) (same_store h) (Extends-refl s)
temp_of-Extends (some e) temp cloned s t x h = elim (Option-cases (cloned e)) [
  | inl gone ↦ absurd (ground (arith, gone, h))
  | inr ((e', s'), runs) ↦ subst (Extends s) (ground (arith, runs, h)) (x e e' s' runs)
]

clone-Extends :
    (fuel e e' : ℕ) (s t : Store)
    → clone fuel e s ≡ some (e', t)
    → Extends s t × (length s.envs ≤ e')
unfolding clone alloc_env
clone-Extends zero e e' s t h = cc
clone-Extends (suc fuel) e e' s t h =
    let (env, found, h₁) = >>=-eq-some (get_elem? s.envs e) _ h in
    let ((temp, s₁), tempered, h₂) = >>=-eq-some (temp_of env.temp (λ k. clone fuel k s) s) _ h₁ in
    let ((qs, s₂), cloned, h₃) = >>=-eq-some (clone_values env.values s₁) _ h₂ in
    let x =
      Extends-trans
        (temp_of-Extends env.temp temp (λ k. clone fuel k s) s s₁
          (λ k k' s' runs. (clone-Extends fuel k k' s s' runs).0) tempered)
        (clone_values-Extends env.values qs s₁ s₂ cloned) in
    let made = record env { temp = temp; values = qs } in
    (
      subst (Extends s) (same_store h₃) (Extends-trans x (alloc_env-Extends made s₂)),
      ground (arith, x.envs_le, h₃),
    )

set_outer-Extends :
    (e : ℕ) (o : Option ℕ) (s u t : Store)
    → Extends s u
    → length s.envs ≤ e
    → set_outer e o u ≡ some t
    → Extends s t
unfolding set_outer
set_outer-Extends e o s u t x new h =
    let (env, found, h₁) = >>=-eq-some (get_elem? u.envs e) _ h in
    let changed = record env { outer = o } in
    let grown : Extends s (record u { envs = set u.envs e changed }) = record {
      cells_le = x.cells_le;
      envs_le = omega (arith, x.envs_le, length-set u.envs e changed);
      cells_kept = x.cells_kept;
      envs_kept = λ i small.
          get_elem?-set_ne u.envs changed (λ same. absurd (omega (arith, same)))
          ∙ x.envs_kept i small;
    } in
    subst (Extends s) (cc h₁) grown

-- Activation changes nothing that was there, and gives an environment that was not.
pub activate-Extends :
    (e e' : ℕ) (outer : Option ℕ) (s t : Store)
    → activate e outer s ≡ some (e', t)
    → Extends s t × (length s.envs ≤ e')
unfolding activate
activate-Extends e e' none s t h =
    let ((made, s₁), cloned, h₁) = >>=-eq-some (clone 2 e s) _ h in
    let (x, new) = clone-Extends 2 e made s s₁ cloned in
    (subst (Extends s) (same_store h₁) x, ground (arith, h₁, new))
activate-Extends e e' (some o) s t h =
    let ((made, s₁), cloned, h₁) = >>=-eq-some (clone 2 e s) _ h in
    let (x, new) = clone-Extends 2 e made s s₁ cloned in
    let (s₂, outered, h₂) = >>=-eq-some (set_outer made (some o) s₁) _ h₁ in
    (
      subst (Extends s) (same_store h₂) (set_outer-Extends made (some o) s s₁ s₂ x new outered),
      ground (arith, h₂, new),
    )
