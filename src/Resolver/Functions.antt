-- ===== src/Resolver/Functions.antt =====
-- core/resolver.cc: the scope and the environment of a function, entered, visited in and left.
use clever.Prelude.{
  ℕ, ◌<◌, ◌≡◌, ◌≢◌, refl, sym, ap, ◌∙◌, inr, some, [], ◌∷◌, length, get_elem?, set, arith,
  get_elem?-append_length, get_elem?-lt, get_elem?-set_self,
}
use mathlib.Core.Path.{subst}
use clever.Store.{Store, new_env, alloc_env}
use clever.Scope.Offsets.{IsLinked}
use clever.Vm.{Function}
use clever.Resolver.{Resolver, M, enter_function, leave_function, in_function, update_function}
use clever.Resolver.Keeps.{
  Keeps, Keeps-refl, Keeps-trans, IsLinked-Keeps, KeepsFunctions-refl, set-KeepsFunctions,
  alloc_env-Keeps,
}
use clever.Resolver.Invariant.{Place, IsWellScoped, Kept, Claim, Ends}
use clever.Resolver.Steps.{IsSlotted-Keeps, IsNew}
use clever.Resolver.Brackets.{empty_scope, enter-IsSlotted, leave-IsSlotted, Leaves, bracket-Ends}

-- What is claimed for the environment of the function `f`.
abbrev pub InFunction : {A : Type 0} → ℕ → Claim A → Claim A
InFunction f P fs s e a =
    (fn : Function) × (get_elem? fs f ≡ some fn) × (fn.environment ≢ 0) × P fs s fn.environment a

-- The body of a function runs in a new environment inside the one around it.
pub in_function-Ends :
    {A : Type 0} (P : Claim A) (f : ℕ) (m : M A) (c : Place) (r : Resolver)
    → ((inner : Place) (r₁ : Resolver)
        → IsWellScoped inner r₁
        → (fn : Function) × (get_elem? r₁.functions f ≡ some fn)
        → Ends inner r₁ P m)
    → IsWellScoped c r
    → IsNew r.functions r.store c.environment f
    → Ends c r (InFunction f P) (in_function f m)
unfolding in_function enter_function leave_function alloc_env update_function
in_function-Ends {A} P f m c r h w (fn, found, unset) =
    bracket-Ends c inner P (InFunction f P) (enter_function f) leave_function m r r₁
      (ground (arith, w.stacked, found)) entered_kept (h inner r₁ entered (fn', found')) leaves
  where
    e' : ℕ
    e' = length r.store.envs

    fn' : Function
    fn' = record fn { environment = e' }

    s' : Store
    s' = (alloc_env (new_env (some c.environment)) r.store).1

    inner : Place
    inner = record {
      environment = e';
      parents = r.scope ∷ c.parents;
      rest = c.environment ∷ c.rest;
    }

    r₁ : Resolver
    r₁ = record r {
      scope = empty_scope e';
      parents = r.scope ∷ r.parents;
      stack = e' ∷ r.stack;
      store = s';
      functions = set r.functions f fn';
    }

    found' : get_elem? r₁.functions f ≡ some fn'
    found' = get_elem?-set_self r.functions f fn' (get_elem?-lt r.functions f found)

    older : c.environment < e'
    older = get_elem?-lt r.store.envs c.environment w.housed.1

    grows : Keeps r.store s'
    grows = alloc_env-Keeps (new_env (some c.environment)) r.store

    entered_kept : Kept r r₁
    entered_kept = record {
      store_kept = grows;
      functions_kept =
          set-KeepsFunctions r.functions f fn fn' found (λ given. absurd (given unset));
    }

    new_found : get_elem? s'.envs e' ≡ some (new_env (some c.environment))
    new_found = get_elem?-append_length r.store.envs (new_env (some c.environment)) []

    entered : IsWellScoped inner r₁
    entered = record {
      here = refl;
      around = ap (λ ps. r.scope ∷ ps) w.around;
      stacked = ap (λ st. e' ∷ st) w.stacked;
      housed = (new_env (some c.environment), new_found);
      linked = (
        inr (
          (new_env (some c.environment), new_found, ap some (sym w.here)),
          λ same. omega (arith, w.here, same, older),
        ),
        IsLinked-Keeps r.scope.environment c.parents grows
            (subst (λ e. IsLinked r.store e c.parents) (sym w.here) w.linked),
      );
      slotted =
          enter-IsSlotted s' r.next_serial e' (r.scope ∷ c.parents)
            (IsSlotted-Keeps r.next_serial (r.scope ∷ c.parents) grows w.slotted);
    }

    leaves : Leaves c inner P (InFunction f P) leave_function r₁
    leaves a r₂ w₂ k p =
        let (env₀, housed₀) = w.housed in
        let (env₁, housed₁, _) = grows.keep c.environment env₀ housed₀ in
        let (env₂, housed₂, _) = k.store_kept.keep c.environment env₁ housed₁ in
        let (fn₂, found₂, same) = k.functions_kept.keep_function f fn' found' in
        let given : e' ≢ 0 = λ z. omega (arith, older, z) in
        let at : fn₂.environment ≡ e' = same given in
        (
          record r₂ { scope = r.scope; parents = c.parents; stack = c.environment ∷ c.rest },
          ground (arith, w₂.around, w₂.stacked),
          record {
            here = w.here;
            around = refl;
            stacked = refl;
            housed = (env₂, housed₂);
            linked =
                IsLinked-Keeps c.environment c.parents (Keeps-trans grows k.store_kept) w.linked;
            slotted =
                leave-IsSlotted r₂.store r₂.next_serial r₂.scope (r.scope ∷ c.parents) w₂.slotted;
          },
          record {
            store_kept = Keeps-refl r₂.store;
            functions_kept = KeepsFunctions-refl r₂.functions;
          },
          (
            fn₂,
            found₂,
            λ z. given (sym at ∙ z),
            subst (λ e. P r₂.functions r₂.store e a) (sym at) p,
          ),
        )
