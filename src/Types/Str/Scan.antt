-- ===== src/Types/Str/Scan.antt =====
-- modules/std/core/str.cc: `split` and `format`.
use clever.Prelude.{
  ℕ, zero, suc, ◌-◌, Bool, true, false, ◌&&◌, ◌||◌, none, some, List, [], ◌∷◌, ◌++◌, length,
  get_elem?, ltb, ◌==◌, if◌then◌else◌,
}
use clever.Store.{Value}
use clever.Types.Args.{a_string, an_integer, optional, rest, TypeNumbers}
use clever.Types.Text.{Bytes, c_str, search, strtoul}
use clever.Types.Str.{text, array, Effect, done, thrown, Texts, get_str, get_int}
use clever.Types.Str.Methods.{checked}

-- `self->find(delimit, position) == position`
unfoldable pub stands_here : Bytes → Bytes → Bool
unfolding search c_str
stands_here delimit s = elim (search (c_str delimit) s) [ some zero ↦ true | _ ↦ false ]

-- `!maximum || list.size() < maximum`
unfoldable pub may_split : ℕ → List Bytes → Bool
may_split maximum list = maximum == 0 || ltb (length list) maximum

-- The loop over the positions. `skip` is how many of them the delimiter takes yet.
unfoldable pub split_loop : Bytes → ℕ → ℕ → Bytes → List Bytes → Bytes → List Bytes
unfolding stands_here may_split
split_loop delimit maximum skip buffer list [] = list ++ buffer ∷ []
split_loop delimit maximum (suc skip) buffer list (c ∷ s) =
    split_loop delimit maximum skip buffer list s
split_loop delimit maximum zero buffer list (c ∷ s) =
    elim (may_split maximum list && stands_here delimit (c ∷ s)) [
      | true ↦ split_loop delimit maximum (length delimit - 1) [] (list ++ buffer ∷ []) s
      | false ↦ split_loop delimit maximum zero (buffer ++ c ∷ []) list s
    ]

unfoldable pub split : Bytes → ℕ → Bytes → List Bytes
unfolding split_loop
split delimit maximum [] = []
split [] maximum (c ∷ s) = (c ∷ s) ∷ []
split (d ∷ delimit) maximum (c ∷ s) = split_loop (d ∷ delimit) maximum zero [] [] (c ∷ s)

-- What `dump` writes for the argument of a number, if there is one.
unfoldable pub dumped : (Value → Bytes) → List Value → ℕ → Bytes
dumped dump args n = elim (get_elem? args n) [ none ↦ [] | some v ↦ dump v ]

-- The loop of `format`: a backslash and a number stand for that argument.
unfoldable pub format_loop : (Value → Bytes) → List Value → ℕ → Bytes → Bytes
unfolding strtoul dumped
format_loop dump args skip [] = []
format_loop dump args (suc skip) (c ∷ s) = format_loop dump args skip s
format_loop dump args zero (c ∷ s) =
    let (arg, seen) = strtoul 0 s in
    if c == 92 && ltb 0 arg
    then dumped dump args arg ++ format_loop dump args seen s
    else c ∷ format_loop dump args zero s

module _ (ts : TypeNumbers) (tx : Texts) where
  unfoldable pub str_split : List Value → Bytes → Effect
  unfolding checked split get_str
  str_split [] s = thrown
  str_split (v ∷ []) s =
      checked ts tx (a_string ∷ optional ∷ an_integer ∷ []) (v ∷ [])
        (done s (array (split (get_str tx v) 0 s)))
  str_split (v ∷ w ∷ args) s =
      checked ts tx (a_string ∷ optional ∷ an_integer ∷ []) (v ∷ w ∷ args)
        (done s (array (split (get_str tx v) (get_int w) s)))

  unfoldable pub str_format : (Value → Bytes) → List Value → Bytes → Effect
  unfolding checked format_loop get_str
  str_format dump [] s = thrown
  str_format dump (v ∷ args) s =
      checked ts tx (a_string ∷ rest ∷ []) (v ∷ args)
        (done s (text (format_loop dump (v ∷ args) zero (get_str tx v))))
