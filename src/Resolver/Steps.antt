-- ===== src/Resolver/Steps.antt =====
-- core/resolver.cc: the steps of a visit, each from a well scoped state.
use clever.Prelude.{
  ℕ, suc, ◌<◌, ◌≡◌, refl, sym, ap, ◌∙◌, inl, inr, Bool, some, List, [], ◌∷◌, length, length-set,
  get_elem?, set, arith, Option-cases, get_elem?-append_length, get_elem?-some,
}
use mathlib.Core.Path.{subst}
use clever.Ir.{ValueOffset}
use clever.Store.{Store}
use clever.Scope.{Chain, get_local, get_any}
use clever.Scope.Offsets.{IsLinked}
use clever.Vm.{Function}
use clever.Resolver.{
  Resolver, Error, Outcome, ok, error, null_operand, undefined, M, refuse_local, resolve, set_const,
  new_function, update_function, next_anonymous,
}
use clever.Resolver.Keeps.{
  Keeps, Keeps-refl, Keeps-same_envs, IsReached, IsReached-Keeps, IsLinked-Keeps, KeepsFunctions,
  KeepsFunctions-refl, append-KeepsFunctions, set-KeepsFunctions,
}
use clever.Resolver.Invariant.{
  Place, IsSlotted, IsWellScoped, Kept, Kept-refl, Claim, EndsAt, Ends, Sound,
}
use clever.Resolver.Names.{get_offset-get_any}

-- The claim of a step whose result says nothing.
abbrev pub Nothing : Claim (Unit {0})
Nothing fs s e u = Unit

pub Ends-ok :
    {A : Type 0} (c : Place) (r later : Resolver) (P : Claim A) (a : A) (m : M A)
    → m r ≡ ok a later
    → IsWellScoped c later
    → Kept r later
    → P later.functions later.store c.environment a
    → Ends c r P m
Ends-ok c r later P a m h w k p = record { meets = subst (EndsAt c r P) (sym h) (w, k, p) }

pub Ends-error :
    {A : Type 0} (c : Place) (r : Resolver) (P : Claim A) (err : Error) (m : M A)
    → m r ≡ error err
    → Ends c r P m
Ends-error c r P err m h = record { meets = subst (EndsAt c r P) (sym h) tt }

pub refuse_local-Sound : (err : Error) (name : ℕ) → Sound Nothing (refuse_local err name)
unfolding refuse_local
refuse_local-Sound err name c r w = elim (Option-cases (get_local name r.scope)) [
  | inl unknown ↦
      Ends-ok c r r Nothing tt (refuse_local err name) (ground (arith, unknown)) w (Kept-refl r) tt
  | inr (x, known) ↦ Ends-error c r Nothing err (refuse_local err name) (ground (arith, known))
]

abbrev pub Reached : Claim ValueOffset
Reached fs s e v = IsReached s e v

-- The offset leads to a slot, and the functions are as they were.
abbrev pub ReachedFrom : Resolver → Claim ValueOffset
ReachedFrom r fs s e v = IsReached s e v × (fs ≡ r.functions)

pub resolve-Ends :
    (err : Error) (name : ℕ) (c : Place) (r : Resolver)
    → IsWellScoped c r
    → Ends c r (ReachedFrom r) (resolve err name)
unfolding resolve
resolve-Ends err name c r w = elim (Option-cases (get_any name (r.scope ∷ r.parents))) [
  | inl unknown ↦ Ends-error c r (ReachedFrom r) err (resolve err name) (ground (arith, unknown))
  | inr (x, known) ↦
      let (offset, given, reached) =
        get_offset-get_any name r.next_serial r.store r.scope r.parents
          (subst (λ ps. IsLinked r.store r.scope.environment ps) (sym w.around)
            (subst (λ e. IsLinked r.store e c.parents) (sym w.here) w.linked))
          (subst (λ ps. IsSlotted r.store r.next_serial (r.scope ∷ ps)) (sym w.around) w.slotted) x
          known in
      Ends-ok c r r (ReachedFrom r) offset (resolve err name) (ground (arith, known, given)) w
        (Kept-refl r) (subst (λ e. IsReached r.store e offset) w.here reached, refl)
]

Ends-map :
    {A : Type 0} {c : Place} {r : Resolver} {P Q : Claim A} {m : M A}
    → ((fs : List Function) (s : Store) (e : ℕ) (a : A) → P fs s e a → Q fs s e a)
    → Ends c r P m
    → Ends c r Q m
Ends-map {A} {c = c} {r = r} {P = P} {Q = Q} {m = m} f h = record {
  meets = by_outcome (m r) h.meets;
}
  where
    by_outcome : (out : Outcome A) → EndsAt c r P out → EndsAt c r Q out
    by_outcome (ok a later) (w, k, p) = (w, k, f later.functions later.store c.environment a p)
    by_outcome (error e) h' = tt
    by_outcome null_operand h' = tt
    by_outcome undefined h' = h'

pub resolve-Sound : (err : Error) (name : ℕ) → Sound Reached (resolve err name)
resolve-Sound err name c r w = Ends-map (λ fs s e v h. h.0) (resolve-Ends err name c r w)

pub IsSlotted-Keeps :
    {s t : Store} (next : ℕ) (chain : Chain)
    → Keeps s t
    → IsSlotted s next chain
    → IsSlotted t next chain
IsSlotted-Keeps next chain k h = record {
  older = h.older;
  slot = λ x e there. IsReached-Keeps e (0, x.voffset.1) k (h.slot x e there);
  unique = h.unique;
}

-- Memory may grow, and the rest of the state change, but for the scopes and the stack.
pub IsWellScoped-Keeps :
    (c : Place) (r later : Resolver)
    → IsWellScoped c r
    → Keeps r.store later.store
    → later.scope ≡ r.scope
    → later.parents ≡ r.parents
    → later.stack ≡ r.stack
    → later.next_serial ≡ r.next_serial
    → IsWellScoped c later
IsWellScoped-Keeps c r later w k scope parents stack serial =
    let (env, found) = w.housed in
    let (env', found', _) = k.keep c.environment env found in
    record {
      here = ap (λ sc. sc.environment) scope ∙ w.here;
      around = parents ∙ w.around;
      stacked = stack ∙ w.stacked;
      housed = (env', found');
      linked = IsLinked-Keeps c.environment c.parents k w.linked;
      slotted =
          subst (λ sc. IsSlotted later.store later.next_serial (sc ∷ c.parents)) (sym scope)
            (subst (λ n. IsSlotted later.store n (r.scope ∷ c.parents)) (sym serial)
              (IsSlotted-Keeps r.next_serial (r.scope ∷ c.parents) k w.slotted));
    }

-- A cell is changed, and nothing else.
abbrev pub IsCell : Claim ℕ
IsCell fs s e p = p < length s.cells

pub set_const-Ends :
    (p : ℕ) (k : Bool) (c : Place) (r : Resolver)
    → IsWellScoped c r
    → p < length r.store.cells
    → Ends c r Nothing (set_const p k)
unfolding set_const
set_const-Ends p k c r w h =
    let (cell, found) = get_elem?-some r.store.cells p h in
    let cell' = record cell { is_const = k } in
    let t = record r.store { cells = set r.store.cells p cell' } in
    let kept = Keeps-same_envs r.store t (omega (arith, length-set r.store.cells p cell')) refl in
    Ends-ok c r (record r { store = t }) Nothing tt (set_const p k) (ground (arith, found))
      (IsWellScoped-Keeps c r (record r { store = t }) w kept refl refl refl refl)
      (record { store_kept = kept; functions_kept = KeepsFunctions-refl r.functions }) tt

module _ (c : Place) (r : Resolver) (w : IsWellScoped c r) where
  -- The list of functions is changed, and nothing else.
  functions-Ends :
      {A : Type 0} (P : Claim A) (a : A) (m : M A) (fs : List Function)
      → m r ≡ ok a (record r { functions = fs })
      → KeepsFunctions r.functions fs
      → P fs r.store c.environment a
      → Ends c r P m
  functions-Ends P a m fs h kept p =
      Ends-ok c r (record r { functions = fs }) P a m h
        (IsWellScoped-Keeps c r (record r { functions = fs }) w (Keeps-refl r.store) refl refl refl
          refl)
        (record { store_kept = Keeps-refl r.store; functions_kept = kept }) p

-- A function that has no environment yet; one that has.
abbrev pub IsNew : Claim ℕ
IsNew fs s e f = (fn : Function) × (get_elem? fs f ≡ some fn) × (fn.environment ≡ 0)

abbrev pub IsFunction : Claim ℕ
IsFunction fs s e f = (fn : Function) × (get_elem? fs f ≡ some fn)

pub new_function-Sound : (k : Bool) → Sound IsNew (new_function k)
unfolding new_function
new_function-Sound k c r w =
    functions-Ends c r w IsNew (length r.functions) (new_function k) _ refl
      (append-KeepsFunctions r.functions _) (_, get_elem?-append_length r.functions _ [], refl)

pub update_function-Ends :
    (f : ℕ) (change : Function → Function) (c : Place) (r : Resolver)
    → IsWellScoped c r
    → IsFunction r.functions r.store c.environment f
    → ((fn : Function) → (change fn).environment ≡ fn.environment)
    → Ends c r Nothing (update_function f change)
unfolding update_function
update_function-Ends f change c r w (fn, found) same =
    functions-Ends c r w Nothing tt (update_function f change) (set r.functions f (change fn))
      (ground (arith, found)) (set-KeepsFunctions r.functions f fn (change fn) found (λ _. same fn))
      tt

pub next_anonymous-Sound : Sound (λ fs s e n. Unit) next_anonymous
unfolding next_anonymous
next_anonymous-Sound c r w =
    Ends-ok c r (record r { anon_fdecls = suc r.anon_fdecls }) (λ fs s e n. Unit) r.anon_fdecls
      next_anonymous refl
      (IsWellScoped-Keeps c r (record r { anon_fdecls = suc r.anon_fdecls }) w (Keeps-refl r.store)
        refl refl refl refl)
      (record { store_kept = Keeps-refl r.store; functions_kept = KeepsFunctions-refl r.functions })
      tt
