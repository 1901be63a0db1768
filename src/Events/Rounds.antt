-- ===== src/Events/Rounds.antt =====
-- modules/std/events/events.cc: a round of the handler over its queue.
use clever.Prelude.{
  ℕ, ◌≡◌, refl, sym, ap, ◌∙◌, inl, inr, Bool, true, false, ◌||◌, List, [], ◌∷◌, ◌++◌, append-nil,
  append_assoc, if◌then◌else◌, All, arith, Bool-cases,
}
use clever.Types.Text.{Bytes, is_same}
use clever.Events.{
  Signal, Call, EventData, exit_name, set_name, calls_for, handle, goes_on, exits, drain, Turn,
  emits, round,
}

-- The calls of signals in order, up to the first `exit`.
abbrev pub calls_of : List (Bytes × ℕ) → List Signal → List Call
calls_of map [] = []
calls_of map (u ∷ us) = calls_for map u ++ (if is_same u.0 exit_name then [] else calls_of map us)

abbrev pub has_exit : List Signal → Bool
has_exit [] = false
has_exit (u ∷ us) = is_same u.0 exit_name || has_exit us

-- Signals that are not named `set`.
abbrev pub NoSet : List Signal → Type 0
NoSet = All (λ u. is_same u.0 set_name ≡ false)

abbrev pub emitted : List Turn → List Signal
emitted [] = []
emitted (emits name args ∷ ts) = (name, args) ∷ emitted ts
emitted (round ∷ ts) = emitted ts

module _ (map : List (Bytes × ℕ)) (r : List Signal) where
  pub calls_of-append :
      (q : List Signal)
      → has_exit q ≡ false
      → calls_of map (q ++ r) ≡ calls_of map q ++ calls_of map r
  calls_of-append [] h = refl
  calls_of-append (u ∷ q) h = elim (Bool-cases (is_same u.0 exit_name)) [
    | inl here ↦ absurd (ground (arith, here, h))
    | inr later ↦ rw later (
        ap (◌++◌ (calls_for map u)) (calls_of-append q (ground (arith, later, h)))
        ∙ sym (append_assoc (calls_for map u) (calls_of map q) (calls_of map r)))
  ]

  pub calls_of-exit : (q : List Signal) → has_exit q ≡ true → calls_of map (q ++ r) ≡ calls_of map q
  calls_of-exit [] h = cc
  calls_of-exit (u ∷ q) h = elim (Bool-cases (is_same u.0 exit_name)) [
    | inl here ↦ rw here
    | inr later ↦
        rw later (ap (◌++◌ (calls_for map u)) (calls_of-exit q (ground (arith, later, h))))
  ]

module _ (u : Signal) (us : List Signal) (d : EventData) (calls : List Call) where
  drain-later :
      is_same u.0 exit_name ≡ false
      → is_same u.0 set_name ≡ false
      → drain (u ∷ us) d calls ≡ drain us d (calls ++ calls_for d.event_map u)
  unfolding drain handle
  drain-later not_exit not_set = rw (not_exit, drain, not_set)

  drain-exit :
      is_same u.0 exit_name ≡ true
      → drain (u ∷ us) d calls
        ≡ exits (record d { event_queue = us }) (calls ++ calls_for d.event_map u)
  unfolding drain handle
  drain-exit here = rw (here, drain)

pub drain_all :
    (q : List Signal) (d : EventData) (calls : List Call)
    → NoSet q
    → has_exit q ≡ false
    → drain q d calls ≡ goes_on (record d { event_queue = [] }) (calls ++ calls_of d.event_map q)
drain_all [] d calls plain h =
    unfold drain in ap (goes_on (record d { event_queue = [] })) (sym (append-nil calls))
drain_all (u ∷ q) d calls (not_set, plain) h = elim (Bool-cases (is_same u.0 exit_name)) [
  | inl here ↦ absurd (ground (arith, here, h))
  | inr later ↦ rw later (
      drain-later u q d calls later not_set
      ∙ drain_all q d (calls ++ calls_for d.event_map u) plain (ground (arith, later, h))
      ∙ ap (goes_on (record d { event_queue = [] }))
          (append_assoc calls (calls_for d.event_map u) (calls_of d.event_map q)))
]

-- A round that meets an `exit` ends the handler, with the signals behind it left.
pub drain_some :
    (q : List Signal) (d : EventData) (calls : List Call)
    → NoSet q
    → has_exit q ≡ true
    → (rest : List Signal) × (drain q d calls
        ≡ exits (record d { event_queue = rest }) (calls ++ calls_of d.event_map q))
drain_some [] d calls plain h = cc
drain_some (u ∷ q) d calls (not_set, plain) h = elim (Bool-cases (is_same u.0 exit_name)) [
  | inl here ↦ (
    q,
    rw here (
        drain-exit u q d calls here
        ∙ ap (exits (record d { event_queue = q }))
            (ap (◌++◌ calls) (sym (append-nil (calls_for d.event_map u))))),
  )
  | inr later ↦
      let (rest, runs) =
        drain_some q d (calls ++ calls_for d.event_map u) plain (ground (arith, later, h)) in
      (
        rest,
        rw later (
            drain-later u q d calls later not_set
            ∙ runs
            ∙ ap (exits (record d { event_queue = rest }))
                (append_assoc calls (calls_for d.event_map u) (calls_of d.event_map q))),
      )
]
