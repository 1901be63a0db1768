-- ===== src/Types/Str/Parts.antt =====
-- modules/std/core/str.cc, `split`: what its parts spell.
use clever.Prelude.{
  ℕ, zero, suc, ◌-◌, ◌≤◌, ◌≡◌, ◌≢◌, refl, sym, ap, ◌∙◌, Bool, true, false, ◌&&◌, some, List, [],
  ◌∷◌, ◌++◌, append-nil, append_assoc, length, drop, All, Bool-cases, inl, inr, arith,
  length-append,
}
use clever.Types.Text.{Bytes, c_str, is_prefix, search}
use clever.Types.Str.Scan.{stands_here, may_split, split_loop, split}

-- The parts with the delimiter between them.
abbrev pub join : Bytes → List Bytes → Bytes
join d [] = []
join d (p ∷ []) = p
join d (p ∷ q ∷ ps) = p ++ (d ++ join d (q ∷ ps))

-- Every part with the delimiter behind it.
abbrev closed : Bytes → List Bytes → Bytes
closed d [] = []
closed d (p ∷ ps) = p ++ (d ++ closed d ps)

closed-append :
    (d : Bytes) (ps : List Bytes) (p : Bytes) (s : Bytes)
    → closed d (ps ++ p ∷ []) ++ s ≡ closed d ps ++ (p ++ (d ++ s))
closed-append d [] p s = simp (append_assoc, append-nil)
closed-append d (q ∷ ps) p s = simp (append_assoc, closed-append d ps p s)

join-cons-ne-nil :
    (d p : Bytes) (ps : List Bytes) (q : Bytes)
    → join d (p ∷ (ps ++ q ∷ [])) ≡ p ++ (d ++ join d (ps ++ q ∷ []))
join-cons-ne-nil d p [] q = refl
join-cons-ne-nil d p (r ∷ ps) q = refl

join-closed : (d : Bytes) (ps : List Bytes) (p : Bytes) → join d (ps ++ p ∷ []) ≡ closed d ps ++ p
join-closed d [] p = refl
join-closed d (q ∷ ps) p =
    join-cons-ne-nil d q ps p ∙ ap (λ t. q ++ (d ++ t)) (join-closed d ps p) ∙ simp (append_assoc)

pub c_str-plain : (d : Bytes) → All (λ c. c ≢ 0) d → c_str d ≡ d
unfolding c_str
c_str-plain [] h = refl
c_str-plain (c ∷ d) (h, hs) = ground (arith, c_str-plain d hs)

is_prefix-drop : (d s : Bytes) → is_prefix d s ≡ true → d ++ drop (length d) s ≡ s
unfolding is_prefix
is_prefix-drop [] s h = refl
is_prefix-drop (c ∷ d) [] h = cc
is_prefix-drop (c ∷ d) (e ∷ s) h = ground (arith, is_prefix-drop d s)

search-zero : (d s : Bytes) → search d s ≡ some 0 → is_prefix d s ≡ true
unfolding search
search-zero d [] h = ground arith
search-zero d (c ∷ s) h = ground (arith, search d s)

stands_here-search : (d s : Bytes) → stands_here d s ≡ true → search (c_str d) s ≡ some 0
unfolding stands_here
stands_here-search d s h = ground (arith, search (c_str d) s)

stands_here-drop :
    (d s : Bytes) → All (λ c. c ≢ 0) d → stands_here d s ≡ true → d ++ drop (length d) s ≡ s
stands_here-drop d s plain h =
    is_prefix-drop d s (
      search-zero d s (ap (λ t. search t s) (sym (c_str-plain d plain)) ∙ stands_here-search d s h))

and_right : (a b : Bool) → (a && b) ≡ true → b ≡ true
and_right a b h = ground arith

module _ (d : Bytes) (maximum : ℕ) (buffer : Bytes) (list : List Bytes) (c : ℕ) (s : Bytes) where
  split_loop-here :
      (may_split maximum list && stands_here d (c ∷ s)) ≡ true
      → split_loop d maximum zero buffer list (c ∷ s)
        ≡ split_loop d maximum (length d - 1) [] (list ++ buffer ∷ []) s
  unfolding split_loop
  split_loop-here h = rw (h, split_loop)

  split_loop-not_here :
      (may_split maximum list && stands_here d (c ∷ s)) ≡ false
      → split_loop d maximum zero buffer list (c ∷ s)
        ≡ split_loop d maximum zero (buffer ++ c ∷ []) list s
  unfolding split_loop
  split_loop-not_here h = rw (h, split_loop)

module _ (e : ℕ) (d : Bytes) (plain : All (λ c. c ≢ 0) (e ∷ d)) (maximum : ℕ) where
  -- The parts so far, the buffer and what is not skipped of the rest spell the whole text.
  join-split_loop :
      (skip : ℕ) (buffer : Bytes) (list : List Bytes) (s : Bytes)
      → join (e ∷ d) (split_loop (e ∷ d) maximum skip buffer list s)
        ≡ closed (e ∷ d) list ++ (buffer ++ drop skip s)
  unfolding split_loop
  join-split_loop zero buffer list [] = join-closed (e ∷ d) list buffer ∙ simp (append-nil)
  join-split_loop (suc skip) buffer list [] = join-closed (e ∷ d) list buffer ∙ simp (append-nil)
  join-split_loop (suc skip) buffer list (c ∷ s) = join-split_loop skip buffer list s
  join-split_loop zero buffer list (c ∷ s) =
      elim (Bool-cases (may_split maximum list && stands_here (e ∷ d) (c ∷ s))) [
        | inl here ↦
            ap (join (e ∷ d)) (split_loop-here (e ∷ d) maximum buffer list c s here)
            ∙ ap (λ n. join (e ∷ d) (split_loop (e ∷ d) maximum n [] (list ++ buffer ∷ []) s))
                {y = length d} (omega arith)
            ∙ join-split_loop (length d) [] (list ++ buffer ∷ []) s
            ∙ closed-append (e ∷ d) list buffer (drop (length d) s)
            ∙ ap (λ t. closed (e ∷ d) list ++ (buffer ++ t))
                (stands_here-drop (e ∷ d) (c ∷ s) plain
                  (and_right (may_split maximum list) (stands_here (e ∷ d) (c ∷ s)) here))
        | inr not_here ↦
            ap (join (e ∷ d)) (split_loop-not_here (e ∷ d) maximum buffer list c s not_here)
            ∙ join-split_loop zero (buffer ++ c ∷ []) list s
            ∙ ap (◌++◌ (closed (e ∷ d) list)) (append_assoc buffer (c ∷ []) s)
      ]

-- The parts of a split with the delimiter between them spell the string again, whatever the maximum,
-- if the delimiter holds no null byte.
pub join-split :
    (d : Bytes) (maximum : ℕ) (s : Bytes) → All (λ c. c ≢ 0) d → join d (split d maximum s) ≡ s
unfolding split
join-split d maximum [] plain = refl
join-split [] maximum (c ∷ s) plain = refl
join-split (e ∷ d) maximum (c ∷ s) plain = join-split_loop e d plain maximum zero [] [] (c ∷ s)

module _ (d : Bytes) (maximum : ℕ) where
  length-split_loop :
      (skip : ℕ) (buffer : Bytes) (list : List Bytes) (s : Bytes)
      → length list ≤ suc maximum
      → length (split_loop d (suc maximum) skip buffer list s) ≤ suc (suc maximum)
  unfolding split_loop may_split
  length-split_loop skip buffer list [] h = omega (arith, length-append list (buffer ∷ []))
  length-split_loop (suc skip) buffer list (c ∷ s) h = length-split_loop skip buffer list s h
  length-split_loop zero buffer list (c ∷ s) h = ground (
    arith,
    length-append list (buffer ∷ []),
    length-split_loop (length d - 1) [] (list ++ buffer ∷ []) s,
    length-split_loop zero (buffer ++ c ∷ []) list s h,
  )

-- A maximum other than 0 bounds the number of parts: there is one more at most.
pub length-split :
    (d : Bytes) (maximum : ℕ) (s : Bytes) → length (split d (suc maximum) s) ≤ suc (suc maximum)
unfolding split
length-split d maximum [] = omega arith
length-split [] maximum (c ∷ s) = omega arith
length-split (e ∷ d) maximum (c ∷ s) =
    length-split_loop (e ∷ d) maximum zero [] [] (c ∷ s) (omega arith)
