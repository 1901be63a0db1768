-- ===== src/Store/Activation.antt =====
-- environment.cc: what `clone` and `activate` keep and what they make.
use clever.Prelude.{
  ℕ, suc, ◌≤◌, ◌<◌, ◌≡◌, refl, sym, ◌∙◌, ◌⊎◌, inl, inr, Option, none, some, List, [], ◌∷◌, length,
  length-append, get_elem?, arith, All, get_elem?-append_left, get_elem?-append_length,
  get_elem?-some, set-append_length,
}
use clever.Store.{
  Cell, Env, Store, alloc_cell, alloc_env, read, clone_values, clone, set_outer, activate,
}

-- `t` holds every cell and every environment of `s`, with the same content.
pub record Extends (s t : Store) : Type 0 where
  pub cells_le : length s.cells ≤ length t.cells
  pub envs_le : length s.envs ≤ length t.envs
  pub cells_kept : (p : ℕ) → p < length s.cells → get_elem? t.cells p ≡ get_elem? s.cells p
  pub envs_kept : (e : ℕ) → e < length s.envs → get_elem? t.envs e ≡ get_elem? s.envs e

pub Extends-refl : (s : Store) → Extends s s
Extends-refl s = record {
  cells_le = omega arith;
  envs_le = omega arith;
  cells_kept = λ p h. refl;
  envs_kept = λ e h. refl;
}

pub Extends-trans : {s t u : Store} → Extends s t → Extends t u → Extends s u
Extends-trans x y = record {
  cells_le = omega arith;
  envs_le = omega arith;
  cells_kept = λ p h. y.cells_kept p (omega (arith, x.cells_le)) ∙ x.cells_kept p h;
  envs_kept = λ e h. y.envs_kept e (omega (arith, x.envs_le)) ∙ x.envs_kept e h;
}

pub alloc_cell-Extends : (c : Cell) (s : Store) → Extends s (alloc_cell c s).1
unfolding alloc_cell
alloc_cell-Extends c s = record {
  cells_le = omega (arith, length-append s.cells (c ∷ []));
  envs_le = omega arith;
  cells_kept = λ p h. get_elem?-append_left s.cells (c ∷ []) p h;
  envs_kept = λ e h. refl;
}

pub alloc_env-Extends : (v : Env) (s : Store) → Extends s (alloc_env v s).1
unfolding alloc_env
alloc_env-Extends v s = record {
  cells_le = omega arith;
  envs_le = omega (arith, length-append s.envs (v ∷ []));
  cells_kept = λ p h. refl;
  envs_kept = λ e h. get_elem?-append_left s.envs (v ∷ []) e h;
}

-- The pointers `qs` of `t` are new to `s`, and hold what `ps` hold in `s`, in the same order.
abbrev pub Copies : Store → List ℕ → Store → List ℕ → Type 0
Copies s [] t [] = Unit
Copies s (p ∷ ps) t (q ∷ qs) =
    (length s.cells ≤ q)
    × (q < length t.cells)
    × ((c : Cell) × (read p s ≡ some c) × (read q t ≡ some c))
    × Copies s ps t qs
Copies s _ t _ = ⊥

-- Copies of the same pointers, seen from an older store and in a younger one.
Copies-weaken :
    {s s' t t' : Store} (ps qs : List ℕ)
    → Extends s s'
    → Extends t t'
    → All (λ p. p < length s.cells) ps
    → Copies s' ps t qs
    → Copies s ps t' qs
unfolding read
Copies-weaken [] [] x y h c = tt
Copies-weaken [] (q ∷ qs) x y h c = absurd c
Copies-weaken (p ∷ ps) [] x y h c = absurd c
Copies-weaken (p ∷ ps) (q ∷ qs) x y (hp, h) (lo, hi, (cell, ep, eq), rest) = (
  omega (arith, x.cells_le),
  omega (arith, y.cells_le),
  (cell, sym (x.cells_kept p hp) ∙ ep, y.cells_kept q hi ∙ eq),
  Copies-weaken ps qs x y h rest,
)

abbrev pub InStore : Store → List ℕ → Type 0
InStore s = All (λ p. p < length s.cells)

InStore-Extends : {s t : Store} (ps : List ℕ) → Extends s t → InStore s ps → InStore t ps
InStore-Extends [] x h = tt
InStore-Extends (p ∷ ps) x h = (omega (arith, x.cells_le), InStore-Extends ps x h.1)

-- The clones of `ps` exist, are new, and nothing else has changed.
record Cloned (s : Store) (ps : List ℕ) : Type 0 where
  values : List ℕ
  after : Store
  runs : clone_values ps s ≡ some (values, after)
  extends : Extends s after
  copies : Copies s ps after values
  same_envs : after.envs ≡ s.envs

Cloned-cons :
    (p : ℕ) (ps : List ℕ) (s : Store) (c : Cell)
    → read p s ≡ some c
    → InStore s ps
    → Cloned (alloc_cell c s).1 ps
    → Cloned s (p ∷ ps)
unfolding clone_values
Cloned-cons p ps s c found h r = record {
  values = length s.cells ∷ r.values;
  after = r.after;
  runs = ground (arith, r.runs);
  extends = Extends-trans (alloc_cell-Extends c s) r.extends;
  copies = (
    omega arith,
    omega (arith, r.extends.cells_le, length-append s.cells (c ∷ [])),
    (
      c,
      found,
      r.extends.cells_kept (length s.cells) (omega (arith, length-append s.cells (c ∷ [])))
          ∙ get_elem?-append_length s.cells c [],
    ),
    Copies-weaken ps r.values (alloc_cell-Extends c s) (Extends-refl r.after) h r.copies,
  );
  same_envs = r.same_envs;
}

-- Cloning values in the store never fails, and makes new cells with the same content.
clone_values-Cloned : (ps : List ℕ) (s : Store) → InStore s ps → Cloned s ps
unfolding clone_values
clone_values-Cloned [] s h = record {
  values = [];
  after = s;
  runs = refl;
  extends = Extends-refl s;
  copies = tt;
  same_envs = refl;
}
clone_values-Cloned (p ∷ ps) s h =
    let (c, found) = get_elem?-some s.cells p h.0 in
    Cloned-cons p ps s c found h.1
      (clone_values-Cloned ps (alloc_cell c s).1 (InStore-Extends ps (alloc_cell-Extends c s) h.1))

-- An environment as the compiler leaves it: its values exist, and its temporary environment, if it
-- has one, has values that exist and no temporary environment of its own.
pub record IsFrame (s : Store) (env : Env) : Type 0 where
  pub in_store : InStore s env.values
  pub temp_flat :
      (env.temp ≡ none)
      ⊎ ((t : ℕ) × (tenv : Env) × (env.temp ≡ some t)
          × (get_elem? s.envs t ≡ some tenv)
          × (tenv.temp ≡ none)
          × InStore s tenv.values)

-- The environment `e'` of `t` is a fresh copy of `env`, with the outer environment `o`.
pub record IsCopy (s : Store) (env : Env) (o : Option ℕ) (t : Store) (e' : ℕ) : Type 0 where
  pub copy : Env
  pub found : get_elem? t.envs e' ≡ some copy
  pub outer_set : copy.outer ≡ o
  pub ret_addr_kept : copy.ret_addr ≡ env.ret_addr
  pub new_env : length s.envs ≤ e'
  pub copies : Copies s env.values t copy.values
  pub extends : Extends s t

clone_flat :
    (fuel e : ℕ) (s : Store) (env : Env)
    → get_elem? s.envs e ≡ some env
    → env.temp ≡ none
    → (r : Cloned s env.values)
    → clone (suc fuel) e s
      ≡ some (alloc_env (record env { temp = none; values = r.values }) r.after)
unfolding clone
clone_flat fuel e s env found flat r = ground (arith, r.runs)

clone_temp :
    (e : ℕ) (s : Store) (env : Env) (t : ℕ) (tenv : Env)
    → get_elem? s.envs e ≡ some env
    → env.temp ≡ some t
    → get_elem? s.envs t ≡ some tenv
    → tenv.temp ≡ none
    → (rt : Cloned s tenv.values)
    → (let (t', s₁) = alloc_env (record tenv { temp = none; values = rt.values }) rt.after in
        (r : Cloned s₁ env.values)
        → clone 2 e s ≡ some (alloc_env (record env { temp = some t'; values = r.values }) r.after))
unfolding clone
clone_temp e s env t tenv found has tfound flat rt r =
    ground (arith, clone_flat 0 t s tenv tfound flat rt, r.runs)

set_outer-alloc_env :
    (v : Env) (o : ℕ) (s : Store)
    → set_outer (alloc_env v s).0 (some o) (alloc_env v s).1
      ≡ some (alloc_env (record v { outer = some o }) s).1
unfolding set_outer alloc_env
set_outer-alloc_env v o s = ground (
  arith,
  get_elem?-append_length s.envs v [],
  set-append_length s.envs v [] (record v { outer = some o }),
)

alloc_env-IsCopy :
    (s s₁ : Store) (env made : Env) (r : Cloned s₁ env.values)
    → InStore s env.values
    → Extends s s₁
    → made.values ≡ r.values
    → made.ret_addr ≡ env.ret_addr
    → IsCopy s env made.outer (alloc_env made r.after).1 (alloc_env made r.after).0
unfolding alloc_env
alloc_env-IsCopy s s₁ env made r h x same addr = record {
  copy = made;
  found = get_elem?-append_length r.after.envs made [];
  outer_set = refl;
  ret_addr_kept = addr;
  new_env = omega (arith, x.envs_le, r.extends.envs_le);
  copies =
      simp same (Copies-weaken env.values r.values x (alloc_env-Extends made r.after) h r.copies);
  extends = Extends-trans x (Extends-trans r.extends (alloc_env-Extends made r.after));
}

abbrev pub or_else : Option ℕ → Option ℕ → Option ℕ
or_else none d = d
or_else (some a) d = some a

-- `activate` once `clone` is known to have made one new environment.
activate-alloc_env :
    (e : ℕ) (outer : Option ℕ) (s : Store) (made : Env) (a : Store)
    → clone 2 e s ≡ some (alloc_env made a)
    → activate e outer s ≡ some (alloc_env (record made { outer = or_else outer made.outer }) a)
unfolding activate
activate-alloc_env e none s made a h = ground (arith, h)
activate-alloc_env e (some o) s made a h = ground (arith, h, set_outer-alloc_env made o a)

-- What `activate` has done, and that it did not fail.
pub record Activated (s : Store) (e : ℕ) (outer : Option ℕ) (env : Env) : Type 0 where
  pub after : Store
  pub new : ℕ
  pub runs : activate e outer s ≡ some (new, after)
  pub is_copy : IsCopy s env (or_else outer env.outer) after new

-- Activating a compiled environment does not fail. It makes a new environment whose cells are new
-- and hold what the compiled ones hold; it keeps the outer environment unless another is given; and
-- no cell and no environment that existed before is changed.
pub activate-Activated :
    (s : Store) (e : ℕ) (outer : Option ℕ) (env : Env)
    → get_elem? s.envs e ≡ some env
    → IsFrame s env
    → Activated s e outer env
activate-Activated s e outer env found frame = by_temp frame.temp_flat
  where
    finish :
        (s₁ : Store) (temp : Option ℕ) (r : Cloned s₁ env.values)
        → Extends s s₁
        → clone 2 e s ≡ some (alloc_env (record env { temp = temp; values = r.values }) r.after)
        → Activated s e outer env
    finish s₁ temp r x runs =
        let made = record env { temp = temp; values = r.values; outer = or_else outer env.outer } in
        record {
          after = (alloc_env made r.after).1;
          new = (alloc_env made r.after).0;
          runs =
              activate-alloc_env e outer s (record env { temp = temp; values = r.values }) r.after
                runs;
          is_copy = alloc_env-IsCopy s s₁ env made r frame.in_store x refl refl;
        }

    by_temp :
        ((env.temp ≡ none)
          ⊎ ((t : ℕ) × (tenv : Env) × (env.temp ≡ some t)
              × (get_elem? s.envs t ≡ some tenv)
              × (tenv.temp ≡ none)
              × InStore s tenv.values))
        → Activated s e outer env
    by_temp (inl flat) =
        let r = clone_values-Cloned env.values s frame.in_store in
        finish s none r (Extends-refl s) (clone_flat 1 e s env found flat r)
    by_temp (inr (t, tenv, has, tfound, flat, h)) =
        let rt = clone_values-Cloned tenv.values s h in
        let made = record tenv { temp = none; values = rt.values } in
        let s₁ = (alloc_env made rt.after).1 in
        let x = Extends-trans rt.extends (alloc_env-Extends made rt.after) in
        let r = clone_values-Cloned env.values s₁ (InStore-Extends env.values x frame.in_store) in
        finish s₁ (some (alloc_env made rt.after).0) r x
          (clone_temp e s env t tenv found has tfound flat rt r)
