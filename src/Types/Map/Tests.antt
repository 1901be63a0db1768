-- ===== src/Types/Map/Tests.antt =====
-- modules/std/core/map.cc on a map of two entries.
use clever.Prelude.{◌≡◌, refl, true, false, some, [], ◌∷◌, codes, zero, suc}
use clever.Store.{null, bool, int, func, obj}
use clever.Types.Args.{TypeNumbers}
use clever.Types.Text.{is_same}
use clever.Types.Str.{Texts}
use clever.Types.Map.{
  ValueMap, value, map, done, undefined, find_key, insert_value, map_ctor, map_at_op, map_insert,
  map_exists, map_each,
}
use clever.Types.Map.Entries.{find_key-insert_value}
use clever.Collection.Ordered.Laws.{found_or_new}

abbrev test_types : TypeNumbers
test_types = record { str_type = 2; double_type = 1; array_type = 3; map_type = 4; this_type = 4 }

abbrev texts : Texts
texts = record {
  bytes_of =
      λ o. elim o [ zero ↦ codes "a" | suc n ↦ elim n [ zero ↦ codes "b" | suc m ↦ codes "c" ] ];
  double_text = λ o. [];
}

abbrev two : ValueMap
two = (codes "a", int 1) ∷ (codes "b", int 2) ∷ []

ctor_test : map_ctor test_types texts (obj 2 1 ∷ int 2 ∷ obj 2 0 ∷ int 1 ∷ []) ≡ done two (map two)
unfolding map_ctor
ctor_test = refl

-- A key without a value.
odd_test : map_ctor test_types texts (obj 2 1 ∷ []) ≡ undefined
unfolding map_ctor
odd_test = refl

-- The key keeps its value.
insert_test : map_insert test_types texts (obj 2 0 ∷ int 9 ∷ []) two ≡ done two (value null)
unfolding map_insert
insert_test = refl

exists_test : map_exists test_types texts (obj 2 2 ∷ []) two ≡ done two (value (bool false))
unfolding map_exists
exists_test = refl

write_test :
    map_at_op test_types texts true (obj 2 2) two
    ≡ some ((codes "a", int 1) ∷ (codes "b", int 2) ∷ (codes "c", null) ∷ [], codes "c")
unfolding map_at_op
write_test = refl

each_test :
    map_each test_types texts (λ f k v. bool true) (func 0 ∷ []) two
    ≡ done two (map ((codes "a", bool true) ∷ (codes "b", bool true) ∷ []))
unfolding map_each
each_test = refl

find_key-insert_value_example :
    find_key (codes "c") (insert_value (codes "c") (int 3) two)
    ≡ found_or_new (find_key (codes "c") two) (is_same (codes "c") (codes "c")) (codes "c", int 3)
find_key-insert_value_example = find_key-insert_value (codes "c") (codes "c") (int 3) two
