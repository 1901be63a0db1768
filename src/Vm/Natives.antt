-- ===== src/Vm/Natives.antt =====
-- What the machine calls through `Type` and through function pointers: the operators of the types
-- (modules/std/core), the functions of the modules, and the making of objects.
use clever.Prelude.{ℕ, Bool, List, Option, ◌⊎◌}
use clever.Ir.{Opcode}
use clever.Store.{Value, Store}

-- An operator writes its result, leaves the result operand alone, or throws.
pub data Outcome : Type 0 where
  writes : Value → Outcome
  keeps : Outcome
  throws : Value → Outcome

pub record Natives : Type 0 where
  -- `add` … `not_equal`, `bw_and` … `bw_rs`, chosen by the opcode.
  pub binary : Opcode → Value → Value → Outcome
  -- `not_op` and `bw_not`.
  pub unary : Opcode → Value → Outcome
  -- The new content of the incremented or decremented value.
  pub increment : Value → Outcome
  pub decrement : Value → Outcome
  -- The function, the pointer for its result, its arguments: the store, and what it threw.
  pub call : ℕ → ℕ → List ℕ → Store → Store × Option Value
  -- A new array of the given values, for variadic parameters.
  pub make_array : List ℕ → Store → Value
  -- The same of a method or a constructor, which has an object or none.
  pub call_method : ℕ → ℕ → Option ℕ → List ℕ → Store → Store × Option Value
  -- `at_op`: the pointer that it gives, or what it threw.
  pub subscript : Bool → Value → Value → Store → Store × (ℕ ⊎ Value)
  -- The numbers of the types of Booleans, integers and functions, and the text of a constant string.
  pub bool_type : ℕ
  pub int_type : ℕ
  pub func_type : ℕ
  pub text_of : Value → ℕ
  -- `TypeObject::clone` of an object.
  pub clone_object : ℕ → ℕ → Value
