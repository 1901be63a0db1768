-- ===== src/Store.antt =====
-- core/value.h and core/environment.{h,cc}: values, environments, and the memory that holds them.
-- A `Value*` is an index into `cells`, an `Environment*` an index into `envs`. Memory is never given
-- back: the reference counts, and with them `m_scoped`, decide only about that.
pub mod Activation
pub mod Frames
mod Tests
use clever.Prelude.{
  ℕ, zero, suc, ◌+◌, ◌-◌, Bool, true, false, not, ◌||◌, Option, none, some, List, [], ◌∷◌, ◌++◌,
  length, get_elem?, set, ◌>>=◌,
}
use clever.Ir.{ValueOffset}

-- A `long` is its 64-bit pattern. `func` holds a function object, `obj` an object of another type.
pub data Value : Type 0 where
  null : Value
  bool : Bool → Value
  int : ℕ → Value
  func : ℕ → Value
  obj : ℕ → ℕ → Value

pub record Cell : Type 0 where
  pub value : Value
  pub is_const : Bool

pub record Env : Type 0 where
  pub outer : Option ℕ
  pub temp : Option ℕ
  pub values : List ℕ
  pub ret_val : Option ℕ
  pub ret_addr : ℕ

pub record Store : Type 0 where
  pub cells : List Cell
  pub envs : List Env

unfoldable pub is_null : Value → Bool
is_null null = true
is_null _ = false

unfoldable pub as_bool : Value → Bool
as_bool (bool b) = b
as_bool null = false
as_bool _ = true

-- `isNull() || !isConst()`
unfoldable pub is_assignable : Cell → Bool
unfolding is_null
is_assignable c = is_null c.value || not c.is_const

abbrev pub new_env : Option ℕ → Env
new_env o = record { outer = o; temp = none; values = []; ret_val = none; ret_addr = 0 }

-- `new Value`, and `new Environment`: the new pointer and the store that holds it.
unfoldable pub alloc_cell : Cell → Store → ℕ × Store
alloc_cell c s = (length s.cells, record s { cells = s.cells ++ c ∷ [] })

unfoldable pub alloc_env : Env → Store → ℕ × Store
alloc_env e s = (length s.envs, record s { envs = s.envs ++ e ∷ [] })

-- `copy`, `deepCopy` and the setters: the content of a cell; a null pointer is no cell.
unfoldable pub read : ℕ → Store → Option Cell
read p s = get_elem? s.cells p

unfoldable pub write : ℕ → Value → Store → Store
write p v s = elim (get_elem? s.cells p) [
  | none ↦ s
  | some c ↦ record s { cells = set s.cells p (record c { value = v }) }
]

-- `pushValue`
unfoldable pub push_value : ℕ → ℕ → Store → Option (ValueOffset × Store)
push_value e p s = elim (get_elem? s.envs e) [
  | none ↦ none
  | some env ↦ some (
    (0, length env.values),
    record s { envs = set s.envs e (record env { values = env.values ++ p ∷ [] }) },
  )
]

-- `while (env && --depth) env = env->m_outer;` from `m_outer`, for a depth of at least one.
unfoldable pub escape : ℕ → ℕ → Store → Option ℕ
escape zero e s = some e
escape (suc depth) e s = elim (get_elem? s.envs e) [
  | none ↦ none
  | some env ↦ elim env.outer [ none ↦ none | some o ↦ escape depth o s ]
]

-- `Environment::getValue`; `none` is a failed assertion.
unfoldable pub get_value : ℕ → ValueOffset → Store → Option ℕ
unfolding escape
get_value e offset s = elim (escape offset.0 e s) [
  | none ↦ none
  | some e' ↦ elim (get_elem? s.envs e') [ none ↦ none | some env ↦ get_elem? env.values offset.1 ]
]

-- `clone` of a list of values: new cells with the same content.
unfoldable pub clone_values : List ℕ → Store → Option (List ℕ × Store)
unfolding read alloc_cell
clone_values [] s = some ([], s)
clone_values (p ∷ ps) s = do
  c ← read p s
  let (q, s₁) = alloc_cell c s
  (qs, s₂) ← clone_values ps s₁
  some (q ∷ qs, s₂)

-- `Environment::clone`. The fuel is the depth of temporary environments that own one themselves.
unfoldable pub clone : ℕ → ℕ → Store → Option (ℕ × Store)
unfolding clone_values alloc_env
clone zero e s = none
clone (suc fuel) e s = do
  env ← get_elem? s.envs e
  let cloned = λ (t : ℕ). clone fuel t s
  (temp, s₁) ← elim env.temp [
    | none ↦ some (none, s)
    | some t ↦ elim (cloned t) [ none ↦ none | some (t', s') ↦ some (some t', s') ]
  ]
  (qs, s₂) ← clone_values env.values s₁
  some (alloc_env (record env { temp = temp; values = qs }) s₂)

-- `setOuter`
unfoldable pub set_outer : ℕ → Option ℕ → Store → Option Store
set_outer e o s = do
  env ← get_elem? s.envs e
  some (record s { envs = set s.envs e (record env { outer = o }) })

-- `Environment::activate`. A temporary environment owns none, so two levels are all.
unfoldable pub activate : ℕ → Option ℕ → Store → Option (ℕ × Store)
unfolding clone set_outer
activate e outer s = do
  (e', s₁) ← clone 2 e s
  s₂ ← elim outer [ none ↦ some s₁ | some o ↦ set_outer e' (some o) s₁ ]
  some (e', s₂)
