-- ===== src/Events.antt =====
-- modules/std/events/events.{h,cc}: signals, and the thread that handles them. The handler holds the
-- lock for a whole round over the queue, and the methods hold it while they push, so that the turns of
-- the two do not overlap; the functions that the handler calls are assumed not to use the object, since
-- they would wait for its lock.
pub mod Rounds
pub mod Order
mod Tests
use clever.Prelude.{
  ℕ, ◌%◌, ◌^◌, Bool, true, false, ◌&&◌, Option, none, some, List, [], ◌∷◌, ◌++◌, codes, ◌==◌,
  if◌then◌else◌,
}
use clever.Types.Text.{Bytes, is_same}

-- The name, and the caller's pointers: they are neither copied nor counted, and what they point to is
-- read when the functions run.
abbrev pub Signal : Type 0
Signal = Bytes × List ℕ

-- A function that is called, with the pointers to its arguments.
abbrev pub Call : Type 0
Call = ℕ × List ℕ

-- `RequisitionActionPair`
pub record Action : Type 0 where
  pub requisitions : List (Bytes × ℕ)
  pub function : ℕ

-- `EventData`. The functions of a name, and the actions of a name and a value, are the entries with
-- that key, in the order of connecting. A requisition that is not there is 0, as `operator[]` makes it.
pub record EventData : Type 0 where
  pub event_map : List (Bytes × ℕ)
  pub requisitions : List (Bytes × ℕ)
  pub requisition_map : List ((Bytes × ℕ) × Action)
  pub event_queue : List Signal
  pub sets_queue : List Bytes
  pub args_queue : List (List ℕ)

abbrev pub exit_name : Bytes
exit_name = codes "exit"

abbrev pub set_name : Bytes
set_name = codes "set"

-- A `long` as an `int`.
abbrev pub to_int : ℕ → ℕ
to_int n = n % 2 ^ 32

unfoldable pub requisition : Bytes → List (Bytes × ℕ) → ℕ
unfolding is_same
requisition name [] = 0
requisition name ((key, n) ∷ rs) = if is_same key name then n else requisition name rs

unfoldable pub set_requisition : Bytes → ℕ → List (Bytes × ℕ) → List (Bytes × ℕ)
unfolding is_same
set_requisition name n [] = (name, n) ∷ []
set_requisition name n ((key, old) ∷ rs) =
    if is_same key name then (key, n) ∷ rs else (key, old) ∷ set_requisition name n rs

-- The loop over the functions of a signal.
unfoldable pub calls_for : List (Bytes × ℕ) → Signal → List Call
unfolding is_same
calls_for [] u = []
calls_for ((key, f) ∷ map) u =
    if is_same key u.0 then (f, u.1) ∷ calls_for map u else calls_for map u

-- `exec`: every requisition of an action holds.
unfoldable pub all_hold : List (Bytes × ℕ) → List (Bytes × ℕ) → Bool
unfolding requisition
all_hold req [] = true
all_hold req ((name, n) ∷ rs) = requisition name req == n && all_hold req rs

-- The actions of a name and its value whose requisitions hold.
unfoldable pub actions_for :
    List (Bytes × ℕ) → Bytes → List ℕ → List ((Bytes × ℕ) × Action) → List Call
unfolding is_same requisition all_hold
actions_for req name args [] = []
actions_for req name args (((key, n), action) ∷ map) =
    if is_same key name && (n == requisition name req && all_hold req action.requisitions)
    then (action.function, args) ∷ actions_for req name args map
    else actions_for req name args map

-- One signal: the handler goes on or ends, or reads an empty queue.
pub data Handled : Type 0 where
  goes_on exits : EventData → List Call → Handled
  undefined : Handled

-- A `set` takes the name and the arguments from their queues.
unfoldable pub handle_set : EventData → List Call → Handled
unfolding actions_for
handle_set d calls = elim d.sets_queue [
  | [] ↦ undefined
  | name ∷ names ↦ elim d.args_queue [
    | [] ↦ undefined
    | args ∷ rest ↦
        goes_on (record d { sets_queue = names; args_queue = rest })
          (calls ++ actions_for d.requisitions name args d.requisition_map)
  ]
]

unfoldable pub handle : Signal → EventData → Handled
unfolding calls_for handle_set is_same
handle u d =
    if is_same u.0 exit_name
    then exits d (calls_for d.event_map u)
    else if is_same u.0 set_name
    then handle_set d (calls_for d.event_map u)
    else goes_on d (calls_for d.event_map u)

-- A round of the handler over the queue, behind the calls that were made before.
unfoldable pub drain : List Signal → EventData → List Call → Handled
unfolding handle
drain [] d calls = goes_on (record d { event_queue = [] }) calls
drain (u ∷ us) d calls = elim (handle u d) [
  | goes_on d' made ↦ drain us d' (calls ++ made)
  | exits d' made ↦ exits (record d' { event_queue = us }) (calls ++ made)
  | undefined ↦ undefined
]

-- `emit` and `finalize`
unfoldable pub emit : Bytes → List ℕ → EventData → EventData
emit name args d = record d { event_queue = d.event_queue ++ (name, args) ∷ [] }

unfoldable pub finalize : EventData → EventData
unfolding emit
finalize d = emit exit_name [] d

-- `connect` of a name, and of requisitions.
unfoldable pub connect : Bytes → ℕ → EventData → EventData
connect name f d = record d { event_map = d.event_map ++ (name, f) ∷ [] }

unfoldable pub connect_each :
    List (Bytes × ℕ) → Action → List ((Bytes × ℕ) × Action) → List ((Bytes × ℕ) × Action)
connect_each [] action map = map
connect_each (r ∷ rs) action map = connect_each rs action (map ++ (r, action) ∷ [])

-- The values of a map, which are read as `int`.
unfoldable pub as_ints : List (Bytes × ℕ) → List (Bytes × ℕ)
as_ints [] = []
as_ints ((name, n) ∷ rs) = (name, to_int n) ∷ as_ints rs

unfoldable pub connect_requisitions : List (Bytes × ℕ) → ℕ → EventData → EventData
unfolding connect_each as_ints
connect_requisitions rs f d =
    let action : Action = record { requisitions = as_ints rs; function = f } in
    record d { requisition_map = connect_each (as_ints rs) action d.requisition_map }

-- `set`; the first key of an empty map is undefined.
unfoldable pub set_each : List (Bytes × ℕ) → List (Bytes × ℕ) → List (Bytes × ℕ)
unfolding set_requisition
set_each [] req = req
set_each ((name, n) ∷ rs) req = set_each rs (set_requisition name (to_int n) req)

unfoldable pub set_all : List (Bytes × ℕ) → List ℕ → EventData → Option EventData
unfolding set_each emit
set_all [] args d = none
set_all ((name, n) ∷ rs) args d = some (record (emit set_name [] d) {
  requisitions = set_each ((name, n) ∷ rs) d.requisitions;
  sets_queue = d.sets_queue ++ name ∷ [];
  args_queue = d.args_queue ++ args ∷ [];
})

-- The threads in turn: a signal is emitted, or the handler makes a round if it has not ended.
pub data Turn : Type 0 where
  emits : Bytes → List ℕ → Turn
  round : Turn

pub record World : Type 0 where
  pub state : EventData
  pub is_running : Bool
  pub calls : List Call

unfoldable pub take_turn : Turn → World → Option World
unfolding emit drain
take_turn (emits name args) w = some (record w { state = emit name args w.state })
take_turn round w = elim w.is_running [
  | false ↦ some w
  | true ↦ elim (drain w.state.event_queue w.state w.calls) [
    | goes_on d calls ↦ some (record { state = d; is_running = true; calls = calls })
    | exits d calls ↦ some (record { state = d; is_running = false; calls = calls })
    | undefined ↦ none
  ]
]

unfoldable pub take_turns : List Turn → World → Option World
unfolding take_turn
take_turns [] w = some w
take_turns (t ∷ ts) w = elim (take_turn t w) [ none ↦ none | some w' ↦ take_turns ts w' ]
