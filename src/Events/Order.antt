-- ===== src/Events/Order.antt =====
-- modules/std/events/events.cc: the order in which signals are handled.
use clever.Prelude.{
  ℕ, ◌≡◌, refl, sym, ap, ◌∙◌, inl, inr, true, false, some, List, [], ◌∷◌, ◌++◌, append-nil,
  append_assoc, Bool-cases,
}
use clever.Types.Text.{Bytes, is_same}
use clever.Events.{
  Signal, Call, EventData, set_name, Turn, emits, round, World, emit, take_turn, take_turns,
}
use clever.Events.Rounds.{
  calls_of, has_exit, NoSet, emitted, calls_of-append, calls_of-exit, drain_all, drain_some,
}

-- The turns, and a last round, are taken, and the calls are these.
pub record Ends (ts : List Turn) (w : World) (calls : List Call) : Type 0 where
  pub after : World
  pub runs : take_turns (ts ++ round ∷ []) w ≡ some after
  pub made : after.calls ≡ calls

Ends-cons :
    (t : Turn) (ts : List Turn) (w w' : World) (calls : List Call)
    → take_turn t w ≡ some w'
    → Ends ts w' calls
    → Ends (t ∷ ts) w calls
unfolding take_turns
Ends-cons t ts w w' calls turn e = record {
  after = e.after;
  runs = rw (turn, take_turns) e.runs;
  made = e.made;
}

-- The handler has ended.
stopped-Ends :
    (ts : List Turn) (d : EventData) (calls : List Call)
    → Ends ts (record { state = d; is_running = false; calls = calls }) calls
unfolding take_turns take_turn
stopped-Ends [] d calls = record {
  after = record { state = d; is_running = false; calls = calls };
  runs = refl;
  made = refl;
}
stopped-Ends (emits name args ∷ ts) d calls =
    Ends-cons (emits name args) ts _ _ calls refl (stopped-Ends ts (emit name args d) calls)
stopped-Ends (round ∷ ts) d calls = Ends-cons round ts _ _ calls refl (stopped-Ends ts d calls)

NoSet-push :
    (q : List Signal) (u : Signal) → NoSet q → is_same u.0 set_name ≡ false → NoSet (q ++ u ∷ [])
NoSet-push [] u h hu = (hu, tt)
NoSet-push (v ∷ q) u (h, hs) hu = (h, NoSet-push q u hs hu)

abbrev pub running : EventData → List Call → World
running d calls = record { state = d; is_running = true; calls = calls }

abbrev after_round : EventData → List Call → World
after_round d calls =
    running (record d { event_queue = [] }) (calls ++ calls_of d.event_map d.event_queue)

-- A round of a running handler, with or without an `exit` in its queue.
module _ (d : EventData) (calls : List Call) (plain : NoSet d.event_queue) where
  round_all :
      has_exit d.event_queue ≡ false
      → take_turn round (running d calls) ≡ some (after_round d calls)
  unfolding take_turn
  round_all h = rw (drain_all d.event_queue d calls plain h, take_turn)

  round_some :
      has_exit d.event_queue ≡ true
      → (rest : List Signal) × (take_turn round (running d calls)
          ≡ some (record {
            state = record d { event_queue = rest };
            is_running = false;
            calls = calls ++ calls_of d.event_map d.event_queue;
          }))
  unfolding take_turn
  round_some h =
      let (rest, runs) = drain_some d.event_queue d calls plain h in (rest, rw (runs, take_turn))

Ends-same :
    (ts : List Turn) (w : World) (calls calls' : List Call)
    → calls ≡ calls'
    → Ends ts w calls
    → Ends ts w calls'
Ends-same ts w calls calls' same e = record { after = e.after; runs = e.runs; made = e.made ∙ same }

module _ (map : List (Bytes × ℕ)) (calls : List Call) (q r : List Signal) where
  all_made :
      has_exit q ≡ false
      → (calls ++ calls_of map q) ++ calls_of map r ≡ calls ++ calls_of map (q ++ r)
  all_made h =
      append_assoc calls (calls_of map q) (calls_of map r)
      ∙ ap (◌++◌ calls) (sym (calls_of-append map r q h))

  some_made : has_exit q ≡ true → calls ++ calls_of map q ≡ calls ++ calls_of map (q ++ r)
  some_made h = ap (◌++◌ calls) (sym (calls_of-exit map r q h))

last-Ends :
    (w w' : World) (calls : List Call)
    → take_turn round w ≡ some w'
    → w'.calls ≡ calls
    → Ends [] w calls
unfolding take_turns
last-Ends w w' calls turn made = record { after = w'; runs = rw (turn, take_turns); made = made }

module _ (name : Bytes) (args : List ℕ) (d : EventData) where
  emit-NoSet :
      NoSet d.event_queue → is_same name set_name ≡ false → NoSet (emit name args d).event_queue
  unfolding emit
  emit-NoSet h not_set = NoSet-push d.event_queue (name, args) h not_set

  emits-Ends :
      (ts : List Turn) (calls : List Call)
      → Ends ts (running (emit name args d) calls) (
          calls
          ++ calls_of (emit name args d).event_map ((emit name args d).event_queue ++ emitted ts))
      → Ends
          (emits name args ∷ ts)
          (running d calls)
          (calls ++ calls_of d.event_map (d.event_queue ++ (name, args) ∷ emitted ts))
  unfolding take_turn emit
  emits-Ends ts calls e =
      Ends-cons (emits name args) ts (running d calls) (running (emit name args d) calls) _ refl (
        Ends-same ts (running (emit name args d) calls) _ _
          (ap (λ q. calls ++ calls_of d.event_map q)
            (append_assoc d.event_queue ((name, args) ∷ []) (emitted ts)))
          e)

pub take_turns-Ends :
    (ts : List Turn) (d : EventData) (calls : List Call)
    → NoSet d.event_queue
    → NoSet (emitted ts)
    → Ends ts (running d calls) (calls ++ calls_of d.event_map (d.event_queue ++ emitted ts))
take_turns-Ends (emits name args ∷ ts) d calls plain (not_set, later) =
    emits-Ends name args d ts calls
      (take_turns-Ends ts (emit name args d) calls (emit-NoSet name args d plain not_set) later)
take_turns-Ends [] d calls plain later = elim (Bool-cases (has_exit d.event_queue)) [
  | inl ends ↦
      let (rest, runs) = round_some d calls plain ends in
      last-Ends (running d calls) _ _ runs (some_made d.event_map calls d.event_queue [] ends)
  | inr none_ends ↦
      last-Ends (running d calls) (after_round d calls) _ (round_all d calls plain none_ends)
        (ap (λ q. calls ++ calls_of d.event_map q) (sym (append-nil d.event_queue)))
]
take_turns-Ends (round ∷ ts) d calls plain later = elim (Bool-cases (has_exit d.event_queue)) [
  | inl ends ↦
      let (rest, runs) = round_some d calls plain ends in
      Ends-same (round ∷ ts) (running d calls) _ _
        (some_made d.event_map calls d.event_queue (emitted ts) ends)
        (Ends-cons round ts _ _ _ runs (
          stopped-Ends ts (record d { event_queue = rest })
            (calls ++ calls_of d.event_map d.event_queue)))
  | inr none_ends ↦
      Ends-same (round ∷ ts) (running d calls) _ _
        (all_made d.event_map calls d.event_queue (emitted ts) none_ends)
        (Ends-cons round ts _ _ _ (round_all d calls plain none_ends) (
          take_turns-Ends ts (record d { event_queue = [] })
            (calls ++ calls_of d.event_map d.event_queue) tt later))
]
