-- ===== src/Collection/Tests.antt =====
-- cqueue.cc and cstack.cc on three values.
use clever.Prelude.{◌≡◌, refl, some, [], ◌∷◌, ◌>>=◌, List, All, false}
use clever.Store.{Value, null, int, is_null}
use clever.Types.Args.{TypeNumbers}
use clever.Collection.{done, thrown, queue_push, queue_pop, queue_front, queue_back}
use clever.Collection.Drained.{pushes, drain, push_back, pushes-drain}

abbrev test_types : TypeNumbers
test_types = record { str_type = 2; double_type = 1; array_type = 3; map_type = 4; this_type = 5 }

abbrev three : List Value
three = int 1 ∷ int 2 ∷ int 3 ∷ []

three_values : All (λ v. is_null v ≡ false) three
unfolding is_null
three_values = (refl, (refl, (refl, tt)))

null_refused : queue_push test_types (null ∷ []) three ≡ thrown
unfolding queue_push
null_refused = refl

back_test : queue_back test_types [] three ≡ done three (some (int 3))
unfolding queue_back
back_test = refl

pushes-drain_example :
    (pushes (push_back test_types) three []
      >>= drain (queue_front test_types []) (queue_pop test_types []) 3)
    ≡ some three
pushes-drain_example = pushes-drain test_types three three_values
