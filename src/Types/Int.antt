-- ===== src/Types/Int.antt =====
-- modules/std/core/int.{h,cc}: the operators of Int on 64-bit patterns.
use clever.Prelude.{
  ℕ, ◌+◌, ◌-◌, ◌*◌, ◌/◌, ◌%◌, ◌^◌, Bool, true, false, not, ◌&&◌, ◌||◌, Option, none, some, ◌==◌,
  ltb, leb, if◌then◌else◌, bit_and, bit_or,
}
use Prim.Native.Nat.{bit_xor}
use clever.Ir
use clever.Ir.{Opcode}
use clever.Store.{Value, bool, int, obj, as_bool}
use clever.Vm.Natives.{Outcome, writes, keeps}

abbrev pub word : ℕ
word = 2 ^ 64

-- `long` from its sign: a pattern from 2 ^ 63 on is negative.
unfoldable pub is_negative : ℕ → Bool
is_negative a = leb (2 ^ 63) a

unfoldable pub negate : ℕ → ℕ
negate a = (word - a) % word

unfoldable pub magnitude : ℕ → ℕ
unfolding is_negative negate
magnitude a = if is_negative a then negate a else a

-- `+`, `-` and `*` of `long`, which wrap around.
unfoldable pub add : ℕ → ℕ → ℕ
add a b = (a + b) % word

unfoldable pub sub : ℕ → ℕ → ℕ
sub a b = (a + (word - b)) % word

unfoldable pub mul : ℕ → ℕ → ℕ
mul a b = (a * b) % word

-- `/` and `%` of `long` round toward zero; they trap on a divisor of zero, and on the one quotient
-- that is too large.
unfoldable pub traps : ℕ → ℕ → Bool
traps a b = b == 0 || (a == 2 ^ 63 && b == word - 1)

abbrev pub with_sign : Bool → ℕ → ℕ
with_sign true m = negate m
with_sign false m = m

unfoldable pub quotient : ℕ → ℕ → ℕ
unfolding magnitude is_negative negate
quotient a b =
    let q = magnitude a / magnitude b in
    if is_negative a then with_sign (not (is_negative b)) q else with_sign (is_negative b) q

unfoldable pub remainder : ℕ → ℕ → ℕ
unfolding magnitude is_negative negate
remainder a b = with_sign (is_negative a) (magnitude a % magnitude b)

-- Signed comparison: the patterns compare as numbers once the sign bit is flipped.
unfoldable pub flip : ℕ → ℕ
flip a = (a + 2 ^ 63) % word

unfoldable pub less : ℕ → ℕ → Bool
unfolding flip
less a b = ltb (flip a) (flip b)

-- `<<` and `>>`; C++ leaves a shift by a negative number or by the width undefined.
unfoldable pub shift_left : ℕ → ℕ → ℕ
shift_left a b = (a * 2 ^ b) % word

unfoldable pub shift_right : ℕ → ℕ → ℕ
unfolding is_negative
shift_right a b = if is_negative a then word - 1 - (word - 1 - a) / 2 ^ b else a / 2 ^ b

unfoldable pub complement : ℕ → ℕ
complement a = word - 1 - a

-- Doubles and strings are C++'s: which objects they are, the double that an operation with an integer
-- on its left gives, `long` of a double, and the text of an integer put before a string. A new object
-- is a number.
pub record Others : Type 0 where
  pub double_type : ℕ
  pub str_type : ℕ
  pub double_result : Opcode → ℕ → ℕ → ℕ
  pub long_of : ℕ → ℕ
  pub text_append : ℕ → ℕ → ℕ

module _ (others : Others) where
  -- An operator's effect on its result; `none` is a trap, or undefined behaviour.
  abbrev pub on_double : Opcode → ℕ → Value → Option Outcome
  on_double op a (obj t p) =
      if t == others.double_type
      then some (writes (obj others.double_type (others.double_result op a p)))
      else some keeps
  on_double op a _ = some keeps

  unfoldable pub int_add : ℕ → Value → Option Outcome
  unfolding add
  int_add a (int b) = some (writes (int (add a b)))
  int_add a (obj t p) =
      if t == others.double_type
      then some (writes (obj others.double_type (others.double_result Ir.op_add a p)))
      else if t == others.str_type
      then some (writes (obj others.str_type (others.text_append a p)))
      else some keeps
  int_add a _ = some keeps

  unfoldable pub int_sub : ℕ → Value → Option Outcome
  unfolding sub
  int_sub a (int b) = some (writes (int (sub a b)))
  int_sub a v = on_double Ir.op_sub a v

  unfoldable pub int_mul : ℕ → Value → Option Outcome
  unfolding mul
  int_mul a (int b) = some (writes (int (mul a b)))
  int_mul a v = on_double Ir.op_mul a v

  unfoldable pub int_div : ℕ → Value → Option Outcome
  unfolding traps quotient
  int_div a (int b) = if traps a b then none else some (writes (int (quotient a b)))
  int_div a v = on_double Ir.op_div a v

  unfoldable pub int_mod : ℕ → Value → Option Outcome
  unfolding traps remainder
  int_mod a (int b) = if traps a b then none else some (writes (int (remainder a b)))
  int_mod a v = on_double Ir.op_mod a v

  unfoldable pub int_greater : ℕ → Value → Option Outcome
  unfolding less
  int_greater a (int b) = some (writes (bool (less b a)))
  int_greater a v = on_double Ir.op_greater a v

  unfoldable pub int_greater_equal : ℕ → Value → Option Outcome
  unfolding less
  int_greater_equal a (int b) = some (writes (bool (not (less a b))))
  int_greater_equal a v = on_double Ir.op_gequal a v

  unfoldable pub int_less : ℕ → Value → Option Outcome
  unfolding less
  int_less a (int b) = some (writes (bool (less a b)))
  int_less a v = on_double Ir.op_less a v

  unfoldable pub int_less_equal : ℕ → Value → Option Outcome
  unfolding less
  int_less_equal a (int b) = some (writes (bool (not (less b a))))
  int_less_equal a v = on_double Ir.op_lequal a v

  unfoldable pub int_equal : ℕ → Value → Option Outcome
  int_equal a (int b) = some (writes (bool (a == b)))
  int_equal a v = on_double Ir.op_equal a v

  unfoldable pub int_not_equal : ℕ → Value → Option Outcome
  int_not_equal a (int b) = some (writes (bool (not (a == b))))
  int_not_equal a v = on_double Ir.op_nequal a v

  -- `& | ^ << >>` take a double for the integer that it converts to.
  unfoldable pub with_long : (ℕ → Option Outcome) → Value → Option Outcome
  with_long f (int b) = f b
  with_long f (obj t p) = if t == others.double_type then f (others.long_of p) else some keeps
  with_long f _ = some keeps

  unfoldable pub int_bw_and : ℕ → Value → Option Outcome
  unfolding with_long
  int_bw_and a v = with_long (λ b. some (writes (int (bit_and a b)))) v

  unfoldable pub int_bw_or : ℕ → Value → Option Outcome
  unfolding with_long
  int_bw_or a v = with_long (λ b. some (writes (int (bit_or a b)))) v

  unfoldable pub int_bw_xor : ℕ → Value → Option Outcome
  unfolding with_long
  int_bw_xor a v = with_long (λ b. some (writes (int (bit_xor a b)))) v

  unfoldable pub int_bw_ls : ℕ → Value → Option Outcome
  unfolding with_long shift_left
  int_bw_ls a v = with_long (λ b. if ltb b 64 then some (writes (int (shift_left a b))) else none) v

  unfoldable pub int_bw_rs : ℕ → Value → Option Outcome
  unfolding with_long shift_right
  int_bw_rs a v =
      with_long (λ b. if ltb b 64 then some (writes (int (shift_right a b))) else none) v

unfoldable pub int_not_op : ℕ → Option Outcome
unfolding as_bool
int_not_op a = some (writes (bool (not (as_bool (int a)))))

unfoldable pub int_bw_not : ℕ → Option Outcome
unfolding complement
int_bw_not a = some (writes (int (complement a)))

-- `increment` and `decrement`, which store into the value itself.
unfoldable pub int_increment : ℕ → Value
unfolding add
int_increment a = int (add a 1)

unfoldable pub int_decrement : ℕ → Value
unfolding sub
int_decrement a = int (sub a 1)
