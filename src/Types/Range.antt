-- ===== src/Types/Range.antt =====
-- modules/std/core/array.cc, Array.range: the loop over `size_t` positions.
use clever.Prelude.{
  ℕ, zero, suc, ◌+◌, ◌-◌, ◌%◌, Bool, true, false, ◌||◌, Option, none, some, List, [], ◌∷◌, ◌++◌,
  length, get_elem?, ltb, leb, if◌then◌else◌,
}
use clever.Store.{Value, null, int}
use clever.Types.Int.{word}
use clever.Types.Args.{an_integer, TypeNumbers, check_args}
use clever.Types.Array.{Elements, Effect, done, thrown, undefined, returned, returned_array}

-- The loop ends with the collected pointers, reads behind the end of the vector, or has no fuel left.
pub data Loop : Type 0 where
  finished : Elements → Loop
  read_past out_of_fuel : Loop

-- `reverse ? (end <= start) : (start <= end)`
unfoldable pub goes_on : Bool → ℕ → ℕ → Bool
goes_on true start stop = leb stop start
goes_on false start stop = leb start stop

-- `--start` and `++start`
unfoldable pub advance : Bool → ℕ → ℕ
advance true start = (start + (word - 1)) % word
advance false start = (start + 1) % word

-- `start > size || end > size`
unfoldable pub breaks : ℕ → ℕ → Elements → Bool
breaks start stop es = ltb (length es) start || ltb (length es) stop

unfoldable pub range_loop : ℕ → Bool → ℕ → ℕ → Elements → Elements → Loop
unfolding goes_on advance breaks
range_loop zero reverse start stop es ran = out_of_fuel
range_loop (suc fuel) reverse start stop es ran =
    let next = λ (x : Option Value).
      range_loop fuel reverse (advance reverse start) stop es (ran ++ x ∷ []) in
    if goes_on reverse start stop
    then if breaks start stop es
      then finished ran
      else elim (get_elem? es start) [ none ↦ read_past | some x ↦ next x ]
    else finished ran

-- The fuel is the number of positions and two more.
unfoldable pub range_of : ℕ → ℕ → Elements → Loop
unfolding range_loop
range_of start stop es = range_loop (length es + 2) (ltb stop start) start stop es []

abbrev pub range_effect : Elements → Loop → Effect
range_effect es (finished ran) = done es (returned_array ran)
range_effect es read_past = undefined
range_effect es out_of_fuel = undefined

unfoldable pub array_range : TypeNumbers → List Value → Elements → Effect
unfolding check_args range_of
array_range ts (int start ∷ int stop ∷ args) [] =
    if check_args ts (some (an_integer ∷ an_integer ∷ [])) (int start ∷ int stop ∷ args)
    then done [] (returned null)
    else thrown
array_range ts (int start ∷ int stop ∷ args) (x ∷ es) =
    if check_args ts (some (an_integer ∷ an_integer ∷ [])) (int start ∷ int stop ∷ args)
    then range_effect (x ∷ es) (range_of start stop (x ∷ es))
    else thrown
array_range ts args es = thrown
