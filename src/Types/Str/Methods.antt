-- ===== src/Types/Str/Methods.antt =====
-- modules/std/core/str.cc: the methods of Str, but for `split` and `format`.
use clever.Prelude.{
  ℕ, suc, ◌+◌, ◌-◌, ◌%◌, Bool, true, false, not, Option, none, some, List, [], ◌∷◌, ◌++◌, length,
  get_elem?, set, take, drop, ltb, leb, ◌==◌, if◌then◌else◌,
}
use mathlib.Core.List.{map}
use clever.Store.{Value, null, int}
use clever.Types.Int.{word, is_negative}
use clever.Types.Args.{Spec, a_string, an_integer, optional, TypeNumbers, check_args}
use clever.Types.Text.{
  Bytes, or_npos, c_str, search, search_last, first_where, last_where, one_of, find_from,
  find_first_of, find_last_of,
}
use clever.Types.Str.{
  left_alone, value, text, Effect, done, thrown, crashed, undefined, Texts, get_str, get_int,
}

-- Through `substr`, which leaves by an exception behind the end.
unfoldable pub sub_string_of : Bytes → ℕ → ℕ → Effect
sub_string_of s start count =
    if ltb (length s) start then crashed else done s (text (take count (drop start s)))

-- The first `count` bytes at the pointer of the needle, whose buffer ends with one null byte.
unfoldable pub needle_bytes : Bytes → ℕ → Option Bytes
needle_bytes needle count =
    if leb count (length needle + 1) then some (take count (needle ++ 0 ∷ [])) else none

unfoldable pub is_blank : ℕ → Bool
unfolding one_of
is_blank c = one_of (32 ∷ 10 ∷ 13 ∷ 9 ∷ []) c

-- `erase(0, find_first_not_of(blanks))`
unfoldable pub without_front : Bytes → Bytes
unfolding first_where is_blank
without_front s = elim (first_where (λ c. not (is_blank c)) s) [ none ↦ [] | some i ↦ drop i s ]

-- `erase(find_last_not_of(blanks) + 1)`: npos and one more is 0.
unfoldable pub without_back : Bytes → Bytes
unfolding last_where is_blank
without_back s = elim (last_where (λ c. not (is_blank c)) s) [ none ↦ [] | some i ↦ take (i + 1) s ]

-- The loop of `setChar`: bytes of the one string over those of the other.
unfoldable pub overwrite : ℕ → Bytes → Bytes → Bytes
overwrite i [] s = s
overwrite i (c ∷ cs) s =
    let rest = overwrite (suc i) cs (set s i c) in if ltb i (length s) then rest else s

unfoldable pub char_at_position : Bytes → ℕ → Effect
unfolding is_negative
char_at_position s position = if is_negative position then thrown else elim (get_elem? s position) [
  | none ↦ done s (value null)
  | some c ↦ done s (if c == 0 then value null else text (c ∷ []))
]

-- `::toupper` and `::tolower` of the C locale.
unfoldable pub to_upper : ℕ → ℕ
to_upper c = if leb 97 c then (if leb c 122 then c - 32 else c) else c

unfoldable pub to_lower : ℕ → ℕ
to_lower c = if leb 65 c then (if leb c 90 then c + 32 else c) else c

-- The first needle is replaced by what stands at the other pointer.
unfoldable pub replaced : Bytes → Bytes → Bytes → Bytes
unfolding search c_str
replaced needle by s = elim (search (c_str needle) s) [
  | none ↦ s
  | some pos ↦ take pos s ++ (c_str by ++ drop (length needle) (drop pos s))
]

-- `result->setInt` of a comparison.
abbrev pub int_of_bool : Bool → Value
int_of_bool true = int 1
int_of_bool false = int 0

unfoldable pub starts_with : Bytes → Bytes → Bool
unfolding search c_str
starts_with needle s = or_npos (search (c_str needle) s) == 0

unfoldable pub ends_with : Bytes → Bytes → Bool
unfolding search_last c_str
ends_with needle s =
    or_npos (search_last (c_str needle) s) == (length s + (word - length needle)) % word

module _ (ts : TypeNumbers) (tx : Texts) where
  unfoldable pub checked : List Spec → List Value → Effect → Effect
  unfolding check_args
  checked spec args effect = if check_args ts (some spec) args then effect else thrown

  unfoldable pub unless_args : List Value → Effect → Effect
  unfolding check_args
  unless_args args effect = if check_args ts none args then effect else thrown

  unfoldable pub str_ctor : List Value → Bytes → Effect
  unfolding checked get_str
  str_ctor [] s = checked (optional ∷ a_string ∷ []) [] (done s (text []))
  str_ctor (v ∷ args) s =
      checked (optional ∷ a_string ∷ []) (v ∷ args) (done s (text (get_str tx v)))

  unfoldable pub str_sub_string : List Value → Bytes → Effect
  unfolding checked sub_string_of
  str_sub_string (v ∷ w ∷ args) s =
      checked (an_integer ∷ optional ∷ an_integer ∷ []) (v ∷ w ∷ args)
        (sub_string_of s (get_int v) (get_int w))
  str_sub_string (v ∷ []) s =
      checked (an_integer ∷ optional ∷ an_integer ∷ []) (v ∷ [])
        (sub_string_of s (get_int v) (length s))
  str_sub_string [] s = thrown

  -- `find`, `findFirst` and `findLast`: the needle, the position or what stands for it, the count.
  unfoldable pub search_for : (Bytes → ℕ → Option ℕ) → Bytes → ℕ → ℕ → Bytes → Effect
  unfolding needle_bytes
  search_for method needle pos count s = elim (needle_bytes needle count) [
    | none ↦ undefined
    | some bytes ↦ done s (value (int (or_npos (method bytes pos))))
  ]

  unfoldable pub with_needle : (Bytes → ℕ → Option ℕ) → ℕ → List Value → Bytes → Effect
  unfolding checked search_for get_str c_str
  with_needle method default (v ∷ p ∷ n ∷ args) s =
      checked (a_string ∷ optional ∷ an_integer ∷ an_integer ∷ []) (v ∷ p ∷ n ∷ args)
        (search_for method (get_str tx v) (get_int p) (get_int n) s)
  with_needle method default (v ∷ p ∷ []) s =
      checked (a_string ∷ optional ∷ an_integer ∷ an_integer ∷ []) (v ∷ p ∷ [])
        (search_for method (get_str tx v) (get_int p) (length (c_str (get_str tx v))) s)
  with_needle method default (v ∷ []) s =
      checked (a_string ∷ optional ∷ an_integer ∷ an_integer ∷ []) (v ∷ [])
        (search_for method (get_str tx v) default (length (c_str (get_str tx v))) s)
  with_needle method default [] s = thrown

  unfoldable pub str_find : List Value → Bytes → Effect
  unfolding with_needle find_from
  str_find args s = with_needle (λ needle pos. find_from needle pos s) 0 args s

  unfoldable pub str_find_first : List Value → Bytes → Effect
  unfolding with_needle find_first_of
  str_find_first args s = with_needle (λ set pos. find_first_of set pos s) 0 args s

  unfoldable pub str_find_last : List Value → Bytes → Effect
  unfolding with_needle find_last_of
  str_find_last args s = with_needle (λ set pos. find_last_of set pos s) (length s) args s

  unfoldable pub str_ltrim : List Value → Bytes → Effect
  unfolding unless_args without_front
  str_ltrim args s = unless_args args (done s (text (without_front s)))

  unfoldable pub str_trim : List Value → Bytes → Effect
  unfolding unless_args without_front without_back
  str_trim args s = unless_args args (done s (text (without_back (without_front s))))

  unfoldable pub str_rtrim : List Value → Bytes → Effect
  unfolding unless_args without_back
  str_rtrim args s = unless_args args (done s (text (without_back s)))

  -- A method of one string.
  unfoldable pub with_string : List Value → (Bytes → Effect) → Effect
  unfolding checked get_str
  with_string [] effect = thrown
  with_string (v ∷ args) effect = checked (a_string ∷ []) (v ∷ args) (effect (get_str tx v))

  unfoldable pub str_starts_with : List Value → Bytes → Effect
  unfolding with_string starts_with
  str_starts_with args s =
      with_string args (λ needle. done s (value (int_of_bool (starts_with needle s))))

  unfoldable pub str_ends_with : List Value → Bytes → Effect
  unfolding with_string ends_with
  str_ends_with args s =
      with_string args (λ needle. done s (value (int_of_bool (ends_with needle s))))

  unfoldable pub str_set_char : List Value → Bytes → Effect
  unfolding checked overwrite get_str
  str_set_char (v ∷ w ∷ args) s =
      checked (an_integer ∷ a_string ∷ []) (v ∷ w ∷ args)
        (done (overwrite (get_int v) (get_str tx w) s) left_alone)
  str_set_char args s = thrown

  unfoldable pub str_char_at : List Value → Bytes → Effect
  unfolding checked char_at_position
  str_char_at [] s = thrown
  str_char_at (v ∷ args) s = checked (an_integer ∷ []) (v ∷ args) (char_at_position s (get_int v))

  unfoldable pub str_size : List Value → Bytes → Effect
  unfolding unless_args
  str_size args s = unless_args args (done s (value (int (length s % word))))

  unfoldable pub str_to_upper : List Value → Bytes → Effect
  unfolding unless_args to_upper
  str_to_upper args s = unless_args args (done s (text (map to_upper s)))

  unfoldable pub str_to_lower : List Value → Bytes → Effect
  unfolding unless_args to_lower
  str_to_lower args s = unless_args args (done s (text (map to_lower s)))

  unfoldable pub str_replace : List Value → Bytes → Effect
  unfolding checked replaced get_str
  str_replace (v ∷ w ∷ args) s =
      checked (a_string ∷ a_string ∷ []) (v ∷ w ∷ args)
        (done s (text (replaced (get_str tx v) (get_str tx w) s)))
  str_replace args s = thrown

  unfoldable pub str_to_string : List Value → Bytes → Effect
  unfolding unless_args
  str_to_string args s = unless_args args (done s (text s))
