-- ===== src/Events/Tests.antt =====
-- modules/std/events/events.cc: signals to two functions.
use clever.Prelude.{◌≡◌, refl, none, some, List, [], ◌∷◌, ◌++◌, codes, Option}
use clever.Types.Text.{is_same}
use clever.Events.{
  EventData, Call, World, Turn, emits, round, goes_on, drain, connect, connect_requisitions,
  set_all, take_turns,
}
use clever.Events.Rounds.{NoSet, calls_of, emitted}
use clever.Events.Order.{running, Ends, take_turns-Ends}

abbrev empty_data : EventData
empty_data = record {
  event_map = [];
  requisitions = [];
  requisition_map = [];
  event_queue = [];
  sets_queue = [];
  args_queue = [];
}

abbrev connected : EventData
connected = record empty_data { event_map = (codes "a", 1) ∷ (codes "b", 2) ∷ (codes "a", 3) ∷ [] }

connect_test :
    connect (codes "a") 3 (connect (codes "b") 2 (connect (codes "a") 1 empty_data)) ≡ connected
unfolding connect
connect_test = refl

abbrev turns : List Turn
turns =
    emits (codes "a") (5 ∷ [])
    ∷ round
    ∷ emits (codes "b") []
    ∷ emits (codes "exit") []
    ∷ emits (codes "a") []
    ∷ []

abbrev calls_after : Option World → List Call
calls_after none = []
calls_after (some w) = w.calls

turns_test :
    calls_after (take_turns (turns ++ round ∷ round ∷ []) (running connected []))
    ≡ (1, 5 ∷ []) ∷ (3, 5 ∷ []) ∷ (2, []) ∷ []
unfolding take_turns
turns_test = refl

-- An action whose requisitions are x = 1 and y = 2, when x is set last.
abbrev required : EventData
unfolding connect_requisitions
required =
    connect_requisitions ((codes "x", 1) ∷ (codes "y", 2) ∷ []) 7
      (record empty_data { requisitions = (codes "y", 2) ∷ [] })

abbrev calls_in_round : Option EventData → List Call
unfolding drain
calls_in_round none = []
calls_in_round (some d) = elim (drain d.event_queue d []) [ goes_on d' calls ↦ calls | _ ↦ [] ]

set_test : calls_in_round (set_all ((codes "x", 1) ∷ []) (9 ∷ []) required) ≡ (7, 9 ∷ []) ∷ []
unfolding set_all drain connect_requisitions
set_test = refl

turns-NoSet : NoSet (emitted turns)
unfolding is_same
turns-NoSet = (refl, (refl, (refl, (refl, tt))))

take_turns-Ends_example :
    Ends turns
      (running connected [])
      ([] ++ calls_of connected.event_map (connected.event_queue ++ emitted turns))
take_turns-Ends_example = take_turns-Ends turns connected [] tt turns-NoSet
