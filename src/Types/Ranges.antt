-- ===== src/Types/Ranges.antt =====
-- modules/std/core/array.cc, Array.range: the loop ends, what it collects, and where it reads too far.
use clever.Prelude.{
  ℕ, zero, suc, ◌+◌, ◌-◌, ◌≤◌, ◌<◌, ◌≡◌, refl, sym, Bool, true, false, Option, none, some, [], ◌∷◌,
  ◌++◌, length, get_elem?, ltb, arith, get_elem?-lt, Option-cases, Bool-cases, inl, inr,
}
use mathlib.Core.Path.{subst}
use clever.Store.{Value}
use clever.Types.Int.{word}
use clever.Types.Array.{Elements}
use clever.Types.Range.{
  Loop, finished, read_past, out_of_fuel, goes_on, advance, breaks, range_loop, range_of,
}

-- The three ways in which one round goes.
module _ (fuel : ℕ) (reverse : Bool) (start stop : ℕ) (es ran : Elements) where
  pub range_loop-stops :
      goes_on reverse start stop ≡ false
      → range_loop (suc fuel) reverse start stop es ran ≡ finished ran
  unfolding range_loop
  range_loop-stops h = ground (arith, h)

  range_loop-breaks :
      breaks start stop es ≡ true → range_loop (suc fuel) reverse start stop es ran ≡ finished ran
  unfolding range_loop
  range_loop-breaks h = ground (arith, h)

  pub range_loop-reads :
      (x : Option Value)
      → goes_on reverse start stop ≡ true
      → breaks start stop es ≡ false
      → get_elem? es start ≡ some x
      → range_loop (suc fuel) reverse start stop es ran
        ≡ range_loop fuel reverse (advance reverse start) stop es (ran ++ x ∷ [])
  unfolding range_loop
  range_loop-reads x h h' h'' = rw (h, h', h'')

  pub range_loop-read_past :
      goes_on reverse start stop ≡ true
      → breaks start stop es ≡ false
      → get_elem? es start ≡ none
      → range_loop (suc fuel) reverse start stop es ran ≡ read_past
  unfolding range_loop
  range_loop-read_past h h' h'' = rw (h, h', h'')

-- The loop has ended, well or not.
abbrev pub IsOver : Loop → Type 0
IsOver (finished ran) = Unit
IsOver read_past = Unit
IsOver out_of_fuel = ⊥

pub round-IsOver :
    (fuel : ℕ) (reverse : Bool) (start stop : ℕ) (es ran : Elements)
    → ((x : Option Value)
        → goes_on reverse start stop ≡ true
        → breaks start stop es ≡ false
        → get_elem? es start ≡ some x
        → IsOver (range_loop fuel reverse (advance reverse start) stop es (ran ++ x ∷ [])))
    → IsOver (range_loop (suc fuel) reverse start stop es ran)
round-IsOver fuel reverse start stop es ran next = elim (Bool-cases (goes_on reverse start stop)) [
  | inr no_more ↦ subst IsOver (sym (range_loop-stops fuel reverse start stop es ran no_more)) tt
  | inl more ↦ elim (Bool-cases (breaks start stop es)) [
    | inl out ↦ subst IsOver (sym (range_loop-breaks fuel reverse start stop es ran out)) tt
    | inr within ↦ elim (Option-cases (get_elem? es start)) [
      | inl past ↦
          subst IsOver (sym (range_loop-read_past fuel reverse start stop es ran more within past))
            tt
      | inr (x, found) ↦
          subst IsOver (sym (range_loop-reads fuel reverse start stop es ran x more within found))
            (next x more within found)
    ]
  ]
]

breaks-true : (start stop : ℕ) (es : Elements) → length es < start → breaks start stop es ≡ true
unfolding breaks
breaks-true start stop es h = ground arith

breaks-false :
    (start stop : ℕ) (es : Elements)
    → breaks start stop es ≡ false
    → (start ≤ length es) × (stop ≤ length es)
unfolding breaks
breaks-false start stop es h = (ground arith, ground arith)

pub advance-false : (start : ℕ) → start + 1 < word → advance false start ≡ start + 1
unfolding advance
advance-false start h = ground arith

advance-true : (start : ℕ) → start + 1 < word → advance true (suc start) ≡ start
unfolding advance
advance-true start h = ground arith

advance-true_zero : advance true 0 ≡ word - 1
unfolding advance
advance-true_zero = refl

module _ (stop : ℕ) (es : Elements) (small : length es + 1 < word) where
  forward-IsOver :
      (fuel start : ℕ) (ran : Elements)
      → length es ≤ fuel + start
      → IsOver (range_loop (suc fuel) false start stop es ran)
  forward-IsOver zero start ran enough =
      round-IsOver zero false start stop es ran
        λ x more within found. absurd (omega (arith, get_elem?-lt es start found))
  forward-IsOver (suc fuel) start ran enough =
      round-IsOver (suc fuel) false start stop es ran λ x more within found.
        let (low, _) = breaks-false start stop es within in
        subst (λ s. IsOver (range_loop (suc fuel) false s stop es (ran ++ x ∷ [])))
          (sym (advance-false start (omega arith)))
          (forward-IsOver fuel (start + 1) (ran ++ x ∷ []) (omega arith))

  -- Behind the first position the start wraps around, and the loop breaks.
  backward-IsOver :
      (fuel start : ℕ) (ran : Elements)
      → start ≤ fuel
      → IsOver (range_loop (suc (suc fuel)) true start stop es ran)
  backward-IsOver fuel zero ran enough =
      round-IsOver (suc fuel) true 0 stop es ran λ x more within found.
        subst (λ s. IsOver (range_loop (suc fuel) true s stop es (ran ++ x ∷ [])))
          (sym advance-true_zero)
          (subst IsOver
            (sym (
              range_loop-breaks fuel true (word - 1) stop es (ran ++ x ∷ [])
                (breaks-true (word - 1) stop es (omega arith))))
            tt)
  backward-IsOver zero (suc start) ran enough = absurd (omega arith)
  backward-IsOver (suc fuel) (suc start) ran enough =
      round-IsOver (suc (suc fuel)) true (suc start) stop es ran λ x more within found.
        let (low, _) = breaks-false (suc start) stop es within in
        subst (λ s. IsOver (range_loop (suc (suc fuel)) true s stop es (ran ++ x ∷ [])))
          (sym (advance-true start (omega arith)))
          (backward-IsOver fuel start (ran ++ x ∷ []) (omega arith))

  high-IsOver :
      (fuel start : ℕ) (reverse : Bool) (ran : Elements)
      → length es < start
      → IsOver (range_loop (suc fuel) reverse start stop es ran)
  high-IsOver fuel start reverse ran high =
      subst IsOver
        (sym (range_loop-breaks fuel reverse start stop es ran (breaks-true start stop es high))) tt

-- Whatever the two positions, the loop of `range` ends within its fuel, if the array's size fits in
-- 64 bits with one to spare.
pub range_of-IsOver :
    (start stop : ℕ) (es : Elements) → length es + 1 < word → IsOver (range_of start stop es)
unfolding range_of
range_of-IsOver start stop es small =
    subst (λ fuel. IsOver (range_loop fuel (ltb stop start) start stop es [])) two
      (elim (Bool-cases (ltb (length es) start)) [
        | inl high ↦
            high-IsOver stop es small (suc (length es)) start (ltb stop start) [] (ground arith)
        | inr low ↦ by_direction (ltb stop start) (ground arith)
      ])
  where
    two : suc (suc (length es)) ≡ length es + 2
    two = omega arith

    by_direction :
        (reverse : Bool)
        → start ≤ length es
        → IsOver (range_loop (suc (suc (length es))) reverse start stop es [])
    by_direction true low = backward-IsOver stop es small (length es) start [] low
    by_direction false low = forward-IsOver stop es small (suc (length es)) start [] (omega arith)
