-- ===== src/Types/Text.antt =====
-- What modules/std/core/str.cc uses of the standard library: std::string on lists of bytes, and
-- strtoul. A position is a number, `none` is npos.
use clever.Prelude.{
  ℕ, zero, suc, ◌+◌, ◌-◌, ◌*◌, ◌/◌, ◌%◌, Bool, true, false, ◌&&◌, ◌||◌, Option, none, some, List,
  [], ◌∷◌, ◌++◌, length, take, drop, ltb, leb, ◌==◌, if◌then◌else◌, ◌>>=◌,
}
use clever.Types.Int.{word, is_negative, magnitude, negate}

abbrev pub Bytes : Type 0
Bytes = List ℕ

-- `npos`, as a number of 64 bits.
abbrev pub or_npos : Option ℕ → ℕ
or_npos none = word - 1
or_npos (some i) = i

-- A text that is read through `c_str()` ends at its first null byte.
unfoldable pub c_str : Bytes → Bytes
c_str [] = []
c_str (c ∷ s) = if c == 0 then [] else c ∷ c_str s

unfoldable pub is_prefix : Bytes → Bytes → Bool
is_prefix [] s = true
is_prefix (d ∷ ds) [] = false
is_prefix (d ∷ ds) (c ∷ s) = d == c && is_prefix ds s

abbrev pub next_position : Option ℕ → Option ℕ
next_position none = none
next_position (some i) = some (suc i)

-- The first and the last position at which the needle stands.
unfoldable pub search : Bytes → Bytes → Option ℕ
unfolding is_prefix
search needle [] = if is_prefix needle [] then some 0 else none
search needle (c ∷ s) = if is_prefix needle (c ∷ s) then some 0 else next_position (search needle s)

unfoldable pub search_last : Bytes → Bytes → Option ℕ
unfolding is_prefix
search_last needle [] = if is_prefix needle [] then some 0 else none
search_last needle (c ∷ s) = elim (search_last needle s) [
  | some i ↦ some (suc i)
  | none ↦ if is_prefix needle (c ∷ s) then some 0 else none
]

-- The first and the last position of a byte that passes the test.
unfoldable pub first_where : (ℕ → Bool) → Bytes → Option ℕ
first_where test [] = none
first_where test (c ∷ s) = if test c then some 0 else next_position (first_where test s)

unfoldable pub last_where : (ℕ → Bool) → Bytes → Option ℕ
last_where test [] = none
last_where test (c ∷ s) = elim (last_where test s) [
  | some i ↦ some (suc i)
  | none ↦ if test c then some 0 else none
]

unfoldable pub one_of : Bytes → ℕ → Bool
one_of [] c = false
one_of (d ∷ ds) c = d == c || one_of ds c

-- `find`, `find_first_of` and `find_last_of` from a position.
unfoldable pub find_from : Bytes → ℕ → Bytes → Option ℕ
unfolding search
find_from needle pos s =
    if leb pos (length s) then (do i ← search needle (drop pos s); some (pos + i)) else none

unfoldable pub find_first_of : Bytes → ℕ → Bytes → Option ℕ
unfolding first_where one_of
find_first_of set pos s = do i ← first_where (one_of set) (drop pos s); some (pos + i)

unfoldable pub find_last_of : Bytes → ℕ → Bytes → Option ℕ
unfolding last_where one_of
find_last_of set pos s =
    last_where (one_of set) (if leb (length s) pos then s else take (pos + 1) s)

-- `operator<` and `operator==`, which compare bytes without a sign.
unfoldable pub comes_before : Bytes → Bytes → Bool
comes_before s [] = false
comes_before [] (d ∷ t) = true
comes_before (c ∷ s) (d ∷ t) = ltb c d || (c == d && comes_before s t)

unfoldable pub is_same : Bytes → Bytes → Bool
is_same [] [] = true
is_same (c ∷ s) (d ∷ t) = c == d && is_same s t
is_same s t = false

unfoldable pub repeated : ℕ → Bytes → Bytes
repeated zero s = []
repeated (suc n) s = s ++ repeated n s

-- A `long` in decimal; twenty digits are enough for 64 bits.
unfoldable pub digits : ℕ → ℕ → Bytes → Bytes
digits zero n out = out
digits (suc fuel) n out =
    let rest = digits fuel (n / 10) ((48 + n % 10) ∷ out) in
    if ltb n 10 then (48 + n) ∷ out else rest

unfoldable pub decimal : ℕ → Bytes
unfolding digits is_negative magnitude
decimal n = if is_negative n then 45 ∷ digits 20 (magnitude n) [] else digits 20 n []

unfoldable pub is_digit : ℕ → Bool
is_digit c = leb 48 c && leb c 57

unfoldable pub is_space : ℕ → Bool
is_space c = c == 32 || (leb 9 c && leb c 13)

-- The digits of strtoul: their number, and how many there are.
unfoldable pub read_digits : ℕ → ℕ → Bytes → ℕ × ℕ
unfolding is_digit
read_digits n seen [] = (n, seen)
read_digits n seen (c ∷ s) = elim (is_digit c) [
  | true ↦ read_digits (10 * n + (c - 48)) (suc seen) s
  | false ↦ (n, seen)
]

-- A number that is too large gives the largest one, whatever its sign.
unfoldable pub converted : Bool → ℕ → ℕ
unfolding negate
converted negative n = if ltb n word then (if negative then negate n else n) else word - 1

-- The value, and the number of bytes read behind those that are read already: none without a digit.
unfoldable pub read_number : Bool → ℕ → Bytes → ℕ × ℕ
unfolding read_digits converted
read_number negative before s =
    let (n, seen) = read_digits 0 0 s in
    if seen == 0 then (0, 0) else (converted negative n, before + seen)

unfoldable pub read_signed : ℕ → Bytes → ℕ × ℕ
unfolding read_number
read_signed before [] = (0, 0)
read_signed before (c ∷ s) =
    if c == 45
    then read_number true (suc before) s
    else if c == 43
    then read_number false (suc before) s
    else read_number false before (c ∷ s)

-- `strtoul(s, &end, 10)`: the value, and `end - s`.
unfoldable pub strtoul : ℕ → Bytes → ℕ × ℕ
unfolding is_space read_signed
strtoul before [] = (0, 0)
strtoul before (c ∷ s) = elim (is_space c) [
  | true ↦ strtoul (suc before) s
  | false ↦ read_signed before (c ∷ s)
]
