-- ===== src/Resolver.antt =====
-- core/resolver.{h,cc}: the state of the resolver and the steps that its visits are made of.
pub mod Source
pub mod Handlers
pub mod Visit
pub mod Keeps
pub mod Invariant
pub mod Bound
pub mod Names
pub mod Steps
pub mod Pushes
pub mod Brackets
pub mod Functions
pub mod Declarations
pub mod Loops
pub mod Visits
pub mod Programs
pub mod Declared
mod Tests
use clever.Prelude.{
  ℕ, suc, Bool, true, false, Option, none, some, List, [], ◌∷◌, ◌++◌, length, get_elem?, set,
}
use clever.Ir.{ValueOffset}
use clever.Store.{Value, Cell, Store, alloc_cell, alloc_env, new_env}
use clever.Scope.{Symbol, Scope, Chain, push_symbol, get_local, get_any, get_offset}
use clever.Vm.{Function}

-- `m_scope` with its parents, `m_stack` with its top first, the memory, the number of symbols and of
-- function objects made so far, and the counter of anonymous functions.
pub record Resolver : Type 0 where
  pub scope : Scope
  pub parents : Chain
  pub stack : List ℕ
  pub store : Store
  pub next_serial : ℕ
  pub anon_fdecls : ℕ
  pub functions : List Function

-- The errors of `Compiler::errorf`, which end the process.
pub data Error : Type 0 where
  redeclared_variable redeclared_function unknown_identifier unknown_type : ℕ → Error
  non_default_argument : Error

-- A visit ends, is refused with an error, calls a method on a null operand, or does something else
-- that C++ does not define (a failed assertion, the top of an empty stack, a null scope).
pub data Outcome (A : Type 0) : Type 0 where
  ok : A → Resolver → Outcome A
  error : Error → Outcome A
  null_operand undefined : Outcome A

abbrev pub M : Type 0 → Type 0
M A = Resolver → Outcome A

abbrev pub pure : {A : Type 0} → A → M A
pure a r = ok a r

abbrev pub and_then : {A B : Type 0} → Outcome A → (A → M B) → Outcome B
and_then (ok a r) k = k a r
and_then (error e) k = error e
and_then null_operand k = null_operand
and_then undefined k = undefined

infixl 5 ◌>>=◌
unfoldable pub ◌>>=◌ : {A B : Type 0} → M A → (A → M B) → M B
(m >>= k) r = and_then (m r) k

-- The result of one, two or three visits put together.
abbrev pub lift₁ : {A B : Type 0} → (A → B) → M A → M B
lift₁ f m = m >>= λ a. pure (f a)

abbrev pub lift₂ : {A B C : Type 0} → (A → B → C) → M A → M B → M C
lift₂ f m n = m >>= λ a. lift₁ (f a) n

abbrev pub lift₃ : {A B C D : Type 0} → (A → B → C → D) → M A → M B → M C → M D
lift₃ f m n o = m >>= λ a. lift₂ (f a) n o

-- `if (m_scope->getLocal(name)) Compiler::errorf(...)`
unfoldable pub refuse_local : Error → ℕ → M (Unit {0})
unfolding get_local
refuse_local e name r = elim (get_local name r.scope) [ none ↦ ok tt r | some sym ↦ error e ]

-- `new Value`, and `m_scope->pushValue`; the pointer to the value.
unfoldable pub push_new : ℕ → Cell → M ℕ
unfolding push_symbol alloc_cell
push_new name c r =
    let (p, s) = alloc_cell c r.store in
    elim (push_symbol r.next_serial name p r.scope s) [
      | none ↦ undefined
      | some (sc, s') ↦ ok p (record r { scope = sc; store = s'; next_serial = suc r.next_serial })
    ]

-- `visit(Ident*)` and `visit(Type*)`: the error tells them apart.
unfoldable pub resolve : Error → ℕ → M ValueOffset
unfolding get_any get_offset
resolve e name r = elim (get_any name (r.scope ∷ r.parents)) [
  | none ↦ error e
  | some sym ↦ elim (get_offset sym (r.scope ∷ r.parents)) [
    | none ↦ undefined
    | some offset ↦ ok offset r
  ]
]

-- `val->setConst(is_const)`
unfoldable pub set_const : ℕ → Bool → M (Unit {0})
set_const p is_const r = elim (get_elem? r.store.cells p) [
  | none ↦ undefined
  | some c ↦ ok tt (record r {
    store = record r.store { cells = set r.store.cells p (record c { is_const = is_const }) };
  })
]

-- `m_scope = m_scope->enter()` with the environment on top of the stack.
unfoldable pub enter_block : M (Unit {0})
enter_block r = elim r.stack [
  | [] ↦ undefined
  | e ∷ rest ↦ ok tt (record r {
    scope = record { symbols = []; symbol_table = []; environment = e };
    parents = r.scope ∷ r.parents;
  })
]

-- `m_scope = m_scope->leave()`
unfoldable pub leave_scope : M (Unit {0})
leave_scope r = elim r.parents [
  | [] ↦ undefined
  | sc ∷ parents ↦ ok tt (record r { scope = sc; parents = parents })
]

-- `new Function` with `setUserDefined`; the function's number.
unfoldable pub new_function : Bool → M ℕ
new_function is_closure r = ok (length r.functions) (record r {
  functions =
      r.functions
      ++ record {
        num_rargs = 0;
        num_args = 0;
        is_internal = false;
        is_variadic = false;
        is_closure = is_closure;
        is_static = false;
        context = none;
        addr = 0;
        native = 0;
        environment = 0;
      }
        ∷ [];
})

unfoldable pub update_function : ℕ → (Function → Function) → M (Unit {0})
update_function f change r = elim (get_elem? r.functions f) [
  | none ↦ undefined
  | some fn ↦ ok tt (record r { functions = set r.functions f (change fn) })
]

-- `enter`, `new Environment(m_stack.top())`, the push, and `func->setEnvironment`.
unfoldable pub enter_function : ℕ → M (Unit {0})
unfolding alloc_env update_function
enter_function f r = elim r.stack [
  | [] ↦ undefined
  | e ∷ rest ↦
      let (e', s) = alloc_env (new_env (some e)) r.store in
      update_function f (λ fn. record fn { environment = e' })
        (record r {
          scope = record { symbols = []; symbol_table = []; environment = e' };
          parents = r.scope ∷ r.parents;
          stack = e' ∷ r.stack;
          store = s;
        })
]

-- `leave` and `m_stack.pop()`
unfoldable pub leave_function : M (Unit {0})
leave_function r = elim r.parents [
  | [] ↦ undefined
  | sc ∷ parents ↦ elim r.stack [
    | [] ↦ undefined
    | e ∷ rest ↦ ok tt (record r { scope = sc; parents = parents; stack = rest })
  ]
]

unfoldable pub in_block : {A : Type 0} → M A → M A
unfolding enter_block leave_scope ◌>>=◌
in_block m = enter_block >>= λ _. m >>= λ a. leave_scope >>= λ _. pure a

unfoldable pub in_function : {A : Type 0} → ℕ → M A → M A
unfolding enter_function leave_function ◌>>=◌
in_function f m = enter_function f >>= λ _. m >>= λ a. leave_function >>= λ _. pure a

-- The value of the counter before it is stepped.
unfoldable pub next_anonymous : M ℕ
next_anonymous r = ok r.anon_fdecls (record r { anon_fdecls = suc r.anon_fdecls })
