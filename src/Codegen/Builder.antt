-- ===== src/Codegen/Builder.antt =====
-- core/irbuilder.h, and the stacks of core/codegen.h: what code generation writes to.
use clever.Prelude.{ℕ, ◌+◌, Option, none, some, List, [], ◌∷◌, ◌++◌, length, get_elem?, set}
use clever.Ir.{ValueOffset, fetch_tmp, Operand, fetch, Ir, IrVector}

pub data Const : Type 0 where
  null_const true_const false_const : Const
  int_const double_const string_const : ℕ → Const

-- `temps` holds the size of every temporary environment made, `temp_env` the index of the one in use.
-- `functions` records, newest first, what has been set in a function: its address and its temporary
-- environment. `brks` and `conts` hold addresses of jumps, innermost loop first, newest address last.
pub record Builder : Type 0 where
  pub code : IrVector
  pub consts : List Const
  pub temps : List ℕ
  pub temp_env : ℕ
  pub functions : List (ℕ × ℕ × ℕ)
  pub conts : List (List ℕ)
  pub brks : List (List ℕ)

-- The constructor of `IRBuilder`.
unfoldable pub new_builder : Builder
new_builder = record {
  code = [];
  consts = null_const ∷ true_const ∷ false_const ∷ [];
  temps = 0 ∷ [];
  temp_env = 0;
  functions = [];
  conts = [];
  brks = [];
}

-- `none` is an access out of range, or an error of the compiler.
abbrev pub M : Type 0 → Type 0
M A = Builder → Option (A × Builder)

abbrev pub pure : {A : Type 0} → A → M A
pure a b = some (a, b)

abbrev pub fails : {A : Type 0} → M A
fails b = none

infixl 5 ◌>>=◌ ◌>>◌
abbrev pub ◌>>=◌ : {A B : Type 0} → M A → (A → M B) → M B
◌>>=◌ m f b = elim (m b) [ none ↦ none | some (a, b') ↦ f a b' ]

abbrev pub ◌>>◌ : {B : Type 0} → M (Unit {0}) → M B → M B
m >> k = m >>= λ _. k

-- `push`: the address of the new instruction, which stands for the reference to it.
unfoldable pub push : Ir → M ℕ
push i b = some (length b.code, record b { code = b.code ++ i ∷ [] })

unfoldable pub get_size : M ℕ
get_size b = some (length b.code, b)

-- `getAt(index)`, changed.
unfoldable pub modify : ℕ → (Ir → Ir) → M (Unit {0})
modify i f b = elim (get_elem? b.code i) [
  | none ↦ none
  | some instr ↦ some (tt, record b { code = set b.code i (f instr) })
]

abbrev pub with_op1 : Operand → Ir → Ir
with_op1 op i = record i { op1 = op }

abbrev pub with_op2 : Operand → Ir → Ir
with_op2 op i = record i { op2 = op }

abbrev pub with_result : Operand → Ir → Ir
with_result op i = record i { result = op }

-- `op1.jmp_addr = addr`, which keeps the operand's type.
abbrev pub with_jmp_addr : ℕ → Ir → Ir
with_jmp_addr a i = record i { op1 = record i.op1 { jmp_addr = a } }

unfoldable pub push_const : Const → M ValueOffset
push_const c b = some ((0, length b.consts), record b { consts = b.consts ++ c ∷ [] })

-- `getTemp`
unfoldable pub get_temp : M ValueOffset
get_temp b = elim (get_elem? b.temps b.temp_env) [
  | none ↦ none
  | some n ↦ some ((0, n), record b { temps = set b.temps b.temp_env (n + 1) })
]

unfoldable pub get_temp_env : M ℕ
get_temp_env b = some (b.temp_env, b)

unfoldable pub set_temp_env : ℕ → M (Unit {0})
set_temp_env e b = some (tt, record b { temp_env = e })

-- `getNewTempEnv`
unfoldable pub get_new_temp_env : M ℕ
get_new_temp_env b =
    some (length b.temps, record b { temps = b.temps ++ 0 ∷ []; temp_env = length b.temps })

unfoldable pub set_function : ℕ → ℕ → ℕ → M (Unit {0})
set_function f addr env b = some (tt, record b { functions = (f, addr, env) ∷ b.functions })

-- `m_cont` and `m_brks`: entering and leaving a loop, and an address for the innermost one.
unfoldable pub push_brks : List ℕ → M (Unit {0})
push_brks l b = some (tt, record b { brks = l ∷ b.brks })

unfoldable pub push_conts : M (Unit {0})
push_conts b = some (tt, record b { conts = [] ∷ b.conts })

unfoldable pub pop_brks : M (List ℕ)
pop_brks b = elim b.brks [ [] ↦ none | l ∷ rest ↦ some (l, record b { brks = rest }) ]

unfoldable pub pop_conts : M (List ℕ)
pop_conts b = elim b.conts [ [] ↦ none | l ∷ rest ↦ some (l, record b { conts = rest }) ]

unfoldable pub add_brk : ℕ → M (Unit {0})
add_brk a b = elim b.brks [
  | [] ↦ none
  | l ∷ rest ↦ some (tt, record b { brks = (l ++ a ∷ []) ∷ rest })
]

unfoldable pub add_cont : ℕ → M (Unit {0})
add_cont a b = elim b.conts [
  | [] ↦ none
  | l ∷ rest ↦ some (tt, record b { conts = (l ++ a ∷ []) ∷ rest })
]

-- `m_brks.top().front()`
unfoldable pub first_brk : M ℕ
first_brk b = elim b.brks [ (a ∷ l) ∷ rest ↦ some (a, b) | _ ↦ none ]

-- The loop that sets the address of the jumps in a list.
unfoldable pub patch : List ℕ → ℕ → M (Unit {0})
unfolding modify
patch [] addr = pure tt
patch (i ∷ l) addr = do modify i (with_jmp_addr addr); patch l addr

-- `setTempResult` of the instruction at an address: the operand of the new temporary.
unfoldable pub set_temp_result : ℕ → M Operand
unfolding get_temp modify
set_temp_result i = do
  t ← get_temp
  modify i (with_result (fetch fetch_tmp t))
  pure (fetch fetch_tmp t)
