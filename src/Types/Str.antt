-- ===== src/Types/Str.antt =====
-- modules/std/core/str.cc: the operators of Str. A string is its bytes; the bytes of a string object
-- are given by the object's number.
pub mod Methods
pub mod Scan
pub mod Parts
pub mod Ends
pub mod Trimmed
mod Tests
use clever.Prelude.{
  ℕ, ◌%◌, Bool, true, false, not, ◌||◌, Option, none, some, List, [], ◌∷◌, ◌++◌, length, get_elem?,
  ltb, ◌==◌, if◌then◌else◌,
}
use clever.Store.{Value, null, bool, int, func, obj}
use clever.Types.Int.{word, is_negative}
use clever.Types.Args.{TypeNumbers, has_type}
use clever.Types.Text.{Bytes, comes_before, is_same, repeated, decimal}

-- What an operator or a method puts into its result.
pub data Returned : Type 0 where
  left_alone : Returned
  value : Value → Returned
  text : Bytes → Returned
  array : List Bytes → Returned

-- It ends with the string and its result, sets an exception of the language, leaves by a C++
-- exception that nothing catches, or does something undefined.
pub data Effect : Type 0 where
  done : Bytes → Returned → Effect
  thrown crashed undefined : Effect

-- The contents of objects: the bytes of a string, and the text of a double.
pub record Texts : Type 0 where
  pub bytes_of : ℕ → Bytes
  pub double_text : ℕ → Bytes

-- `getStr`
unfoldable pub get_str : Texts → Value → Bytes
get_str tx (obj t o) = tx.bytes_of o
get_str tx _ = []

-- `getInt`
abbrev pub get_int : Value → ℕ
get_int (int n) = n
get_int _ = 0

-- `at_op`
unfoldable pub str_at_op : Bytes → Value → Effect
unfolding is_negative
str_at_op s (int key) =
    if is_negative key || ltb (length s) key then thrown else elim (get_elem? s key) [
      | none ↦ crashed
      | some c ↦ done s (text (if c == 0 then [] else c ∷ []))
    ]
str_at_op s index = thrown

module _ (ts : TypeNumbers) (tx : Texts) where
  unfoldable pub str_add : Bytes → Value → Returned
  unfolding decimal
  str_add s (int n) = text (s ++ decimal n)
  str_add s (obj t o) =
      if t == ts.str_type
      then text (s ++ tx.bytes_of o)
      else if t == ts.double_type
      then text (s ++ tx.double_text o)
      else left_alone
  str_add s rhs = left_alone

  unfoldable pub str_mul : Bytes → Value → Returned
  unfolding repeated is_negative
  str_mul s (int n) = text (if is_negative n then [] else repeated n s)
  str_mul s rhs = left_alone

  -- The comparisons leave the result alone unless the right side is a string.
  unfoldable pub compared : (Bytes → Bytes → Bool) → Bytes → Value → Returned
  unfolding get_str
  compared test s rhs =
      if has_type ts.str_type rhs then value (bool (test s (get_str tx rhs))) else left_alone

  unfoldable pub str_greater : Bytes → Value → Returned
  unfolding compared comes_before
  str_greater = compared (λ s t. comes_before t s)

  unfoldable pub str_greater_equal : Bytes → Value → Returned
  unfolding compared comes_before
  str_greater_equal = compared (λ s t. not (comes_before s t))

  unfoldable pub str_less : Bytes → Value → Returned
  unfolding compared comes_before
  str_less = compared (λ s t. comes_before s t)

  unfoldable pub str_less_equal : Bytes → Value → Returned
  unfolding compared comes_before
  str_less_equal = compared (λ s t. not (comes_before t s))

  unfoldable pub str_equal : Bytes → Value → Returned
  unfolding compared is_same
  str_equal = compared (λ s t. is_same s t)

  unfoldable pub str_not_equal : Bytes → Value → Returned
  unfolding compared is_same
  str_not_equal = compared (λ s t. not (is_same s t))
