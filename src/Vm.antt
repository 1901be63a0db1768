-- ===== src/Vm.antt =====
-- core/vm.{h,cc}: the state of the virtual machine, and how it fetches operands.
-- `inst` and the offsets come from the code generator. The store of user objects (`m_obj_store`)
-- only holds references until the machine ends, and is left out with the reference counts.
pub mod Members
pub mod Natives
pub mod Operands
pub mod Call
pub mod Operators
pub mod Objects
pub mod Instances
pub mod Nested
pub mod Access
pub mod Methods
pub mod Exceptions
pub mod Step
pub mod Handlers
pub mod Returns
pub mod Assigns
mod Tests
mod ObjectTests
use clever.Prelude.{
  ℕ, suc, ◌+◌, ◌≡◌, refl, Bool, true, false, Option, none, some, List, [], ◌∷◌, ◌++◌, length,
  get_elem?, set, arith,
}
use clever.Ir.{
  ValueOffset, OperandType, unused, fetch_var, fetch_const, fetch_tmp, jump, Operand, Ir, IrVector,
}
use clever.Vm.Members.{TypeInfo, ObjectMap}
use clever.Store.{Value, Cell, Env, Store, read, write, get_value}

-- A function object. `native` stands for the function pointer of an internal function, `context` is
-- the type that it is a method of.
pub record Function : Type 0 where
  pub num_rargs : ℕ
  pub num_args : ℕ
  pub is_internal : Bool
  pub is_variadic : Bool
  pub is_closure : Bool
  pub is_static : Bool
  pub addr : ℕ
  pub native : ℕ
  pub environment : ℕ
  pub context : Option ℕ

pub record CallStackEntry : Type 0 where
  pub env : ℕ
  pub func : Option ℕ

-- `try_stack` holds, innermost first, the address of the first catch and the state: 1 in the block
-- of the try, 2 in a catch. `mutex` is whether this machine holds the
-- lock, which it cannot take twice. `types` are the types by their numbers, `objects` the members of
-- the objects.
pub record Vm : Type 0 where
  pub pc : ℕ
  pub inst : IrVector
  pub const_env : ℕ
  pub global_env : ℕ
  pub functions : List Function
  pub call_args : List ℕ
  pub exception : Option ℕ
  pub call_stack : List CallStackEntry
  pub try_stack : List (ℕ × ℕ)
  pub mutex : Bool
  pub types : List TypeInfo
  pub objects : ObjectMap
  pub store : Store

-- A fatal error of the machine, or (`bad_operand`, `bad_pc`) a failed assertion or a wild access.
pub data Error : Type 0 where
  bad_operand bad_pc null_operand const_assignment not_callable wrong_parameters : Error
  null_increment null_decrement deadlock : Error
  null_access context_refused member_not_found wrong_call no_constructor not_created : Error
  uncaught : Option ℕ → Error

pub data Result {ℓ} (A : Type ℓ) : Type ℓ where
  err : Error → Result A
  ok : A → Result A

abbrev pub or_fail {ℓ} : {A : Type ℓ} → Option A → Error → Result A
or_fail (some a) failure = ok a
or_fail none failure = err failure

infixl 5 ◌>>=◌
abbrev pub ◌>>=◌ {κ ℓ} : {B : Type κ} {A : Type ℓ} → Result B → (B → Result A) → Result A
err failure >>= next = err failure
ok value >>= next = next value

-- The two parts of a chain that succeeds.
pub >>=-eq-ok {κ ℓ} :
    {B : Type κ} {A : Type ℓ} (first : Result B) (next : B → Result A) {a : A}
    → (first >>= next) ≡ ok a
    → (b : B) × (first ≡ ok b) × (next b ≡ ok a)
>>=-eq-ok (err failure) next both = cc
>>=-eq-ok (ok b) next both = (b, refl, both)

pub or_fail-eq-ok {ℓ} :
    {A : Type ℓ} (o : Option A) (failure : Error) {a : A} → or_fail o failure ≡ ok a → o ≡ some a
or_fail-eq-ok (some a) failure e = cc
or_fail-eq-ok none failure e = cc

-- `CMutex::lock` of a plain mutex by the one thread that runs this machine, and `unlock`.
unfoldable pub lock : Vm → Result Vm
lock vm = elim vm.mutex [ true ↦ err deadlock | false ↦ ok (record vm { mutex = true }) ]

abbrev pub unlock : Vm → Vm
unlock vm = record vm { mutex = false }

-- The top of the call stack.
unfoldable pub current : Vm → Result CallStackEntry
current vm = elim vm.call_stack [ [] ↦ err bad_operand | entry ∷ rest ↦ ok entry ]

unfoldable pub env_at : ℕ → Vm → Result Env
env_at e vm = or_fail (get_elem? vm.store.envs e) bad_operand

-- `getCurrentEnvironment`
unfoldable pub get_current_environment : OperandType → Vm → Result ℕ
unfolding current env_at
get_current_environment fetch_const vm = ok vm.const_env
get_current_environment fetch_var vm = do entry ← current vm; ok entry.env
get_current_environment fetch_tmp vm = do
  entry ← current vm
  env ← env_at entry.env vm
  or_fail env.temp bad_operand
get_current_environment _ vm = err bad_operand

-- `VM::getValue`: the pointer of an operand.
unfoldable pub get_pointer : Operand → Vm → Result ℕ
unfolding get_current_environment get_value
get_pointer op vm = do
  source ← get_current_environment op.op_type vm
  or_fail (get_value source op.voffset vm.store) bad_operand

unfoldable pub cell_at : ℕ → Vm → Result Cell
unfolding read
cell_at p vm = or_fail (read p vm.store) bad_operand

-- The content of an operand.
unfoldable pub operand_cell : Operand → Vm → Result Cell
unfolding get_pointer cell_at
operand_cell op vm = do p ← get_pointer op vm; cell_at p vm

abbrev pub put : ℕ → Value → Vm → Vm
put p v vm = record vm { store = write p v vm.store }

abbrev pub is_used : Operand → Bool
is_used op = elim op.op_type [ unused ↦ false | _ ↦ true ]

-- `++m_pc`
abbrev pub advance : Vm → Vm
advance vm = record vm { pc = vm.pc + 1 }

-- Writing the result operand, if the instruction has one.
unfoldable pub put_result : Operand → Value → Vm → Result Vm
unfolding get_pointer
put_result op v vm = do p ← get_pointer op vm; ok (put p v vm)

unfoldable pub put_result_if_used : Operand → Value → Vm → Result Vm
unfolding put_result
put_result_if_used op v vm = elim (is_used op) [ true ↦ put_result op v vm | false ↦ ok vm ]
