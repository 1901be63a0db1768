-- ===== src/Types/Args.antt =====
-- core/clever.cc, check_args: the arguments of a method against a specification.
use clever.Prelude.{
  ℕ, suc, Bool, true, false, not, ◌&&◌, Option, none, some, List, [], ◌∷◌, length, ltb, ◌==◌,
  if◌then◌else◌,
}
use clever.Store.{Value, null, bool, int, func, obj}

-- The characters of a specification: f s i d a m b n c . p * |
pub data Spec : Type 0 where
  a_function a_string an_integer a_double an_array a_map a_boolean a_number the_type : Spec
  not_null anything rest optional : Spec

-- The numbers of the types, and the one whose method is called.
pub record TypeNumbers : Type 0 where
  pub str_type : ℕ
  pub double_type : ℕ
  pub array_type : ℕ
  pub map_type : ℕ
  pub this_type : ℕ

abbrev pub has_type : ℕ → Value → Bool
has_type t (obj u p) = u == t
has_type t _ = false

-- The tests on `args[index]->getType()`.
unfoldable pub accepts : TypeNumbers → Spec → Value → Bool
accepts ts a_function (func f) = true
accepts ts a_string v = has_type ts.str_type v
accepts ts an_integer (int n) = true
accepts ts a_double v = has_type ts.double_type v
accepts ts an_array v = has_type ts.array_type v
accepts ts a_map v = has_type ts.map_type v
accepts ts a_boolean (bool b) = true
accepts ts a_number (int n) = true
accepts ts a_number (obj u p) = u == ts.double_type
accepts ts the_type v = has_type ts.this_type v
accepts ts not_null null = false
accepts ts not_null v = true
accepts ts anything v = true
accepts ts _ v = false

-- The loop over the specification; a marker consumes no argument.
unfoldable pub check_each : TypeNumbers → List Spec → List Value → Bool
unfolding accepts
check_each ts [] args = true
check_each ts (c ∷ spec) [] = true
check_each ts (rest ∷ spec) (v ∷ args) = true
check_each ts (optional ∷ spec) (v ∷ args) = check_each ts spec (v ∷ args)
check_each ts (c ∷ spec) (v ∷ args) = accepts ts c v && check_each ts spec args

-- `strpbrk(typespec, "*|") - typespec`
unfoldable pub marker : List Spec → Option ℕ
marker [] = none
marker (rest ∷ spec) = some 0
marker (optional ∷ spec) = some 0
marker (c ∷ spec) = elim (marker spec) [ none ↦ none | some pos ↦ some (suc pos) ]

-- `none` is the specification of a method without arguments; `false` sets an exception.
unfoldable pub check_args : TypeNumbers → Option (List Spec) → List Value → Bool
unfolding check_each marker
check_args ts none args = length args == 0
check_args ts (some spec) args =
    let each = check_each ts spec args in
    if length spec == length args
    then each
    else elim (marker spec) [ none ↦ false | some pos ↦ not (ltb (length args) pos) && each ]
