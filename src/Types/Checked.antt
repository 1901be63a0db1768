-- ===== src/Types/Checked.antt =====
-- core/clever.cc, check_args, against the specification read as a list of types.
use clever.Prelude.{
  ℕ, suc, not, ◌||◌, ◌==◌, ◌≡◌, ◌≢◌, refl, ap, ◌∙◌, Bool, true, false, ◌&&◌, none, some, List, [],
  ◌∷◌, length, arith, Option-cases, inl, inr,
}
use native.Mathlib.Decide.{ℕ_discrete}
use clever.Store.{Value, null, bool, int, func, obj}
use clever.Types.Args.{
  Spec, a_function, a_string, an_integer, a_double, an_array, a_map, a_boolean, a_number, the_type,
  not_null, anything, rest, optional, TypeNumbers, accepts, check_each, marker, check_args,
}

-- What a value is, and what a character asks for: some kinds, or all but some.
pub data Kind : Type 0 where
  no_value boolean integer function : Kind
  object : ℕ → Kind

pub data Asked : Type 0 where
  one_of all_but : List Kind → Asked

abbrev pub kind_of : Value → Kind
kind_of null = no_value
kind_of (bool b) = boolean
kind_of (int n) = integer
kind_of (func f) = function
kind_of (obj t p) = object t

abbrev pub same_kind : Kind → Kind → Bool
same_kind no_value no_value = true
same_kind boolean boolean = true
same_kind integer integer = true
same_kind function function = true
same_kind (object t) (object u) = t == u
same_kind k l = false

abbrev pub among : Kind → List Kind → Bool
among k [] = false
among k (l ∷ ls) = same_kind k l || among k ls

-- The types of the characters; a marker asks for none.
abbrev pub asked : TypeNumbers → Spec → Asked
asked ts a_function = one_of (function ∷ [])
asked ts a_string = one_of (object ts.str_type ∷ [])
asked ts an_integer = one_of (integer ∷ [])
asked ts a_double = one_of (object ts.double_type ∷ [])
asked ts an_array = one_of (object ts.array_type ∷ [])
asked ts a_map = one_of (object ts.map_type ∷ [])
asked ts a_boolean = one_of (boolean ∷ [])
asked ts a_number = one_of (integer ∷ object ts.double_type ∷ [])
asked ts the_type = one_of (object ts.this_type ∷ [])
asked ts not_null = all_but (no_value ∷ [])
asked ts anything = all_but []
asked ts rest = one_of []
asked ts optional = one_of []

abbrev pub fits : Asked → Value → Bool
fits (one_of ks) v = among (kind_of v) ks
fits (all_but ks) v = not (among (kind_of v) ks)

accepts-asked : (ts : TypeNumbers) (c : Spec) (v : Value) → accepts ts c v ≡ fits (asked ts c) v
unfolding accepts
accepts-asked ts a_function v = ground (arith, v)
accepts-asked ts a_string v = ground (arith, v)
accepts-asked ts an_integer v = ground (arith, v)
accepts-asked ts a_double v = ground (arith, v)
accepts-asked ts an_array v = ground (arith, v)
accepts-asked ts a_map v = ground (arith, v)
accepts-asked ts a_boolean v = ground (arith, v)
accepts-asked ts a_number v = ground (arith, v)
accepts-asked ts the_type v = ground (arith, v)
accepts-asked ts not_null v = ground (arith, v)
accepts-asked ts anything v = ground (arith, v)
accepts-asked ts rest v = ground (arith, v)
accepts-asked ts optional v = ground (arith, v)

-- There is an argument for every character, and it is of a type that the character asks for.
abbrev pub matches : TypeNumbers → List Spec → List Value → Bool
matches ts [] [] = true
matches ts (c ∷ spec) (v ∷ args) = fits (asked ts c) v && matches ts spec args
matches ts _ _ = false

matches-length :
    (ts : TypeNumbers) (spec : List Spec) (args : List Value)
    → length spec ≢ length args
    → matches ts spec args ≡ false
matches-length ts [] [] m = absurd (m refl)
matches-length ts [] (v ∷ args) m = refl
matches-length ts (c ∷ spec) [] m = refl
matches-length ts (c ∷ spec) (v ∷ args) m =
    ground (arith, matches-length ts spec args (λ e. m (ap suc e)))

-- A character that is no marker.
abbrev plain : Spec → Bool
plain rest = false
plain optional = false
plain _ = true

marker-plain :
    (c : Spec) (spec : List Spec)
    → marker (c ∷ spec) ≡ none
    → (plain c ≡ true) × (marker spec ≡ none)
unfolding marker
marker-plain rest spec h = cc h
marker-plain optional spec h = cc h
marker-plain c spec h = elim (Option-cases (marker spec)) [
  | inl unmarked ↦ (refl, unmarked)
  | inr (pos, marked) ↦ absurd (ground (arith, marked, h))
]

check_each-plain :
    (ts : TypeNumbers) (c : Spec) (spec : List Spec) (v : Value) (args : List Value)
    → plain c ≡ true
    → check_each ts (c ∷ spec) (v ∷ args) ≡ (accepts ts c v && check_each ts spec args)
unfolding check_each
check_each-plain ts rest spec v args h = cc h
check_each-plain ts optional spec v args h = cc h
check_each-plain ts c spec v args h = refl

check_each-matches :
    (ts : TypeNumbers) (spec : List Spec) (args : List Value)
    → marker spec ≡ none
    → length spec ≡ length args
    → check_each ts spec args ≡ matches ts spec args
unfolding check_each
check_each-matches ts [] [] h e = refl
check_each-matches ts [] (v ∷ args) h e = absurd (omega arith)
check_each-matches ts (c ∷ spec) [] h e = absurd (omega arith)
check_each-matches ts (c ∷ spec) (v ∷ args) h e =
    let (is_plain, unmarked) = marker-plain c spec h in
    check_each-plain ts c spec v args is_plain
    ∙ ap (λ b. accepts ts c v && b) (check_each-matches ts spec args unmarked (omega arith))
    ∙ ap (λ b. b && matches ts spec args) (accepts-asked ts c v)

-- For a specification without the markers `*` and `|`, the check succeeds exactly when there is an
-- argument for every character and each is of a kind that the character asks for.
pub check_args-matches :
    (ts : TypeNumbers) (spec : List Spec) (args : List Value)
    → marker spec ≡ none
    → check_args ts (some spec) args ≡ matches ts spec args
unfolding check_args
check_args-matches ts spec args h = elim (ℕ_discrete (length spec) (length args)) [
  | yes same ↦ ground (arith, same, check_each-matches ts spec args h same)
  | no differs ↦ ground (arith, h, matches-length ts spec args differs)
]
