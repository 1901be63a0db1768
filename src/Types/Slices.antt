-- ===== src/Types/Slices.antt =====
-- modules/std/core/array.cc, Array.range: what it collects, and the end it reads too far.
use clever.Prelude.{
  ℕ, zero, suc, ◌+◌, ◌-◌, ◌≤◌, ◌<◌, ◌≡◌, refl, sym, ap, ◌∙◌, true, false, Option, none, some, [],
  ◌∷◌, ◌++◌, length, get_elem?, take, drop, ltb, arith, append_assoc, append-nil, get_elem?-some,
}
use clever.Store.{Value}
use clever.Types.Int.{word}
use clever.Types.Array.{Elements}
use clever.Types.Range.{finished, read_past, goes_on, breaks, range_loop, range_of}
use clever.Types.Ranges.{range_loop-stops, range_loop-reads, range_loop-read_past, advance-false}

goes_on-true : (start stop : ℕ) → start ≤ stop → goes_on false start stop ≡ true
unfolding goes_on
goes_on-true start stop h = ground arith

goes_on-false : (start stop : ℕ) → stop < start → goes_on false start stop ≡ false
unfolding goes_on
goes_on-false start stop h = ground arith

breaks_within :
    (start stop : ℕ) (es : Elements)
    → start ≤ length es
    → stop ≤ length es
    → breaks start stop es ≡ false
unfolding breaks
breaks_within start stop es h h' = ground arith

take-drop_step :
    (es : Elements) (i n : ℕ) (x : Option Value)
    → get_elem? es i ≡ some x
    → take (suc n) (drop i es) ≡ x ∷ take n (drop (suc i) es)
take-drop_step [] i n x h = cc h
take-drop_step (y ∷ es) zero n x h = ap (λ z. z ∷ take n es) (cc h)
take-drop_step (y ∷ es) (suc i) n x h = take-drop_step es i n x h

join :
    (ran es : Elements) (start n : ℕ) (x : Option Value)
    → get_elem? es start ≡ some x
    → (ran ++ x ∷ []) ++ take n (drop (start + 1) es) ≡ ran ++ take (suc n) (drop start es)
join ran es start n x found =
    append_assoc ran (x ∷ []) (take n (drop (start + 1) es))
    ∙ ap (λ k. ran ++ x ∷ take n (drop k es)) {y = suc start} (omega arith)
    ∙ ap (λ l. ran ++ l) (sym (take-drop_step es start n x found))

get_elem?-none : (es : Elements) → get_elem? es (length es) ≡ none
get_elem?-none [] = refl
get_elem?-none (x ∷ es) = get_elem?-none es

-- One round within bounds, as a step of a count.
module _ (stop : ℕ) (es ran : Elements) (fuel start : ℕ) (small : length es + 1 < word)
    (low : start ≤ stop) (high : stop ≤ length es) (x : Option Value)
    (found : get_elem? es start ≡ some x) where
  range_loop_step :
      range_loop (suc fuel) false start stop es ran
      ≡ range_loop fuel false (start + 1) stop es (ran ++ x ∷ [])
  range_loop_step =
      range_loop-reads fuel false start stop es ran x (goes_on-true start stop low)
        (breaks_within start stop es (omega arith) high) found
      ∙ ap (λ s. range_loop fuel false s stop es (ran ++ x ∷ []))
          (advance-false start (omega arith))

module _ (stop : ℕ) (es : Elements) (small : length es + 1 < word) where
  range_loop-take :
      (fuel n start : ℕ) (ran : Elements)
      → start + n ≡ stop + 1
      → stop < length es
      → n ≤ fuel
      → range_loop (suc fuel) false start stop es ran ≡ finished (ran ++ take n (drop start es))
  range_loop-take fuel zero start ran count within enough =
      range_loop-stops fuel false start stop es ran (goes_on-false start stop (omega arith))
      ∙ ap finished (sym (append-nil ran))
  range_loop-take zero (suc n) start ran count within enough = absurd (omega arith)
  range_loop-take (suc fuel) (suc n) start ran count within enough =
      let (x, found) = get_elem?-some es start (omega arith) in
      range_loop_step stop es ran (suc fuel) start small (omega arith) (omega arith) x found
      ∙ range_loop-take fuel n (start + 1) (ran ++ x ∷ []) (omega arith) within (omega arith)
      ∙ ap finished (join ran es start n x found)

  range_loop_past :
      (fuel n start : ℕ) (ran : Elements)
      → start + n ≡ length es
      → stop ≡ length es
      → n ≤ fuel
      → range_loop (suc fuel) false start stop es ran ≡ read_past
  range_loop_past fuel zero start ran count end enough =
      range_loop-read_past fuel false start stop es ran (goes_on-true start stop (omega arith))
        (breaks_within start stop es (omega arith) (omega arith))
        (ap (get_elem? es) (omega arith) ∙ get_elem?-none es)
  range_loop_past zero (suc n) start ran count end enough = absurd (omega arith)
  range_loop_past (suc fuel) (suc n) start ran count end enough =
      let (x, found) = get_elem?-some es start (omega arith) in
      range_loop_step stop es ran (suc fuel) start small (omega arith) (omega arith) x found
      ∙ range_loop_past fuel n (start + 1) (ran ++ x ∷ []) (omega arith) end (omega arith)

-- The fuel of `range` is enough for a count of positions, and the direction is forward.
range_of_eq :
    (start stop : ℕ) (es : Elements)
    → start ≤ stop
    → range_of start stop es ≡ range_loop (suc (length es + 1)) false start stop es []
unfolding range_of
range_of_eq start stop es h =
    let forward : ltb stop start ≡ false = ground arith in
    let enough : length es + 2 ≡ suc (length es + 1) = omega arith in
    ap (λ r. range_loop (length es + 2) r start stop es []) forward
    ∙ ap (λ fuel. range_loop fuel false start stop es []) enough

-- For a start that is not behind the end, and an end that is a position of the array, `range` collects
-- the elements from the one to the other, both included.
pub range_of-take :
    (start stop : ℕ) (es : Elements)
    → length es + 1 < word
    → start ≤ stop
    → stop < length es
    → range_of start stop es ≡ finished (take (stop + 1 - start) (drop start es))
range_of-take start stop es small low within =
    range_of_eq start stop es low
    ∙ range_loop-take stop es small (length es + 1) (stop + 1 - start) start [] (omega arith) within
        (omega arith)

-- When the end is the size of the array, which the test of `range` lets through, the loop reads behind
-- the last element, from whatever start up to there.
pub range_of-read_past :
    (start stop : ℕ) (es : Elements)
    → length es + 1 < word
    → start ≤ stop
    → stop ≡ length es
    → range_of start stop es ≡ read_past
range_of-read_past start stop es small low end =
    range_of_eq start stop es low
    ∙ range_loop_past stop es small (length es + 1) (length es - start) start [] (omega arith) end
        (omega arith)
