-- ===== src/Types/Map.antt =====
-- modules/std/core/map.{h,cc}: maps from strings to values. A map is the list of its entries in the
-- order of their keys.
pub mod Entries
mod Tests
use clever.Prelude.{
  ℕ, ◌%◌, Bool, true, false, Option, none, some, List, [], ◌∷◌, length, if◌then◌else◌,
}
use clever.Store.{Value, null, bool, int, func, obj}
use clever.Types.Int.{word}
use clever.Types.Args.{a_string, a_function, rest, TypeNumbers, has_type, check_args}
use clever.Types.Text.{Bytes, comes_before}
use clever.Types.Str.{Texts, get_str}
use clever.Collection.Ordered.{insert, find, is_some}

abbrev pub Entry : Type 0
Entry = Bytes × Value

abbrev pub ValueMap : Type 0
ValueMap = List Entry

-- What a method puts into its result.
pub data Returned : Type 0 where
  value : Value → Returned
  map : ValueMap → Returned

-- A method ends with the map and its result, sets an exception, or does something undefined.
pub data Effect : Type 0 where
  done : ValueMap → Returned → Effect
  thrown undefined : Effect

-- `std::map` orders the entries by their keys.
unfoldable pub key_less : Entry → Entry → Bool
unfolding comes_before
key_less e f = comes_before e.0 f.0

-- `find` of a key.
unfoldable pub find_key : Bytes → ValueMap → Option Entry
unfolding find key_less
find_key k m = find key_less (k, null) m

-- `insert`, which keeps the value of a key that is there.
unfoldable pub insert_value : Bytes → Value → ValueMap → ValueMap
unfolding insert key_less
insert_value k v m = insert key_less (k, v) m

module _ (ts : TypeNumbers) (tx : Texts) where
  -- `MapObject(args)`: keys and values in turn; `none` is a key that is no string, or has no value.
  unfoldable pub map_object : List Value → ValueMap → Option ValueMap
  unfolding get_str insert_value
  map_object [] m = some m
  map_object (k ∷ []) m = none
  map_object (k ∷ v ∷ args) m = elim (has_type ts.str_type k) [
    | true ↦ map_object args (insert_value (get_str tx k) v m)
    | false ↦ none
  ]

  unfoldable pub map_ctor : List Value → Effect
  unfolding map_object
  map_ctor args = elim (map_object args []) [ none ↦ undefined | some m ↦ done m (map m) ]

  -- `at_op`: the map, and the key whose value is given; `none` is an exception.
  unfoldable pub map_at_op : Bool → Value → ValueMap → Option (ValueMap × Bytes)
  unfolding get_str find_key insert_value
  map_at_op is_write index m =
      if has_type ts.str_type index
      then elim (find_key (get_str tx index) m) [
        | some e ↦ some (m, get_str tx index)
        | none ↦
            if is_write
            then some (insert_value (get_str tx index) null m, get_str tx index)
            else none
      ]
      else none

  unfoldable pub map_insert : List Value → ValueMap → Effect
  unfolding check_args get_str insert_value
  map_insert args m =
      if check_args ts (some (a_string ∷ rest ∷ [])) args
      then elim args [
        | k ∷ v ∷ others ↦ done (insert_value (get_str tx k) v m) (value null)
        | _ ↦ undefined
      ]
      else thrown

  unfoldable pub map_exists : List Value → ValueMap → Effect
  unfolding check_args get_str find_key
  map_exists [] m = thrown
  map_exists (k ∷ args) m =
      if check_args ts (some (a_string ∷ [])) (k ∷ args)
      then done m (value (bool (is_some (find_key (get_str tx k) m))))
      else thrown

  unfoldable pub map_size : List Value → ValueMap → Effect
  unfolding check_args
  map_size args m =
      if check_args ts none args then done m (value (int (length m % word))) else thrown

  -- `each`: what the function gives for every key and value, under the same keys.
  unfoldable pub each_loop : (Bytes → Value → Value) → ValueMap → ValueMap → ValueMap
  unfolding insert_value
  each_loop call [] results = results
  each_loop call ((k, v) ∷ m) results = each_loop call m (insert_value k (call k v) results)

  unfoldable pub map_each : (ℕ → Bytes → Value → Value) → List Value → ValueMap → Effect
  unfolding check_args each_loop
  map_each run (func f ∷ args) m =
      if check_args ts (some (a_function ∷ [])) (func f ∷ args)
      then done m (map (each_loop (run f) m []))
      else thrown
  map_each run args m = thrown
