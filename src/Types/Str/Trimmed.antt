-- ===== src/Types/Str/Trimmed.antt =====
-- modules/std/core/str.cc: `ltrim`, `rtrim` and `trim`.
use clever.Prelude.{
  ℕ, suc, ◌≡◌, refl, sym, ap, ◌∙◌, Bool, true, false, not, Option, none, some, [], ◌∷◌, ◌++◌, take,
  All, Option-cases, Bool-cases, inl, inr, arith,
}
use clever.Types.Text.{Bytes, first_where, last_where}
use clever.Types.Str.Methods.{is_blank, without_front, without_back}

abbrev pub starts_blank : Bytes → Bool
starts_blank [] = false
starts_blank (c ∷ s) = is_blank c

abbrev pub ends_blank : Bytes → Bool
ends_blank [] = false
ends_blank (c ∷ []) = is_blank c
ends_blank (c ∷ d ∷ s) = ends_blank (d ∷ s)

abbrev pub AllBlank : Bytes → Type 0
AllBlank = All (λ c. is_blank c ≡ true)

-- What `trim` is to leave of a text: all but the blanks at its two ends.
pub record IsTrimmed (s t : Bytes) : Type 0 where
  pub before : Bytes
  pub behind : Bytes
  pub spells : s ≡ before ++ (t ++ behind)
  pub before_blank : AllBlank before
  pub behind_blank : AllBlank behind
  pub starts : starts_blank t ≡ false
  pub ends : ends_blank t ≡ false

record Front (s t : Bytes) : Type 0 where
  before : Bytes
  spells : s ≡ before ++ t
  blanks : AllBlank before
  starts : starts_blank t ≡ false

record Back (s t : Bytes) : Type 0 where
  behind : Bytes
  spells : s ≡ t ++ behind
  blanks : AllBlank behind
  ends : ends_blank t ≡ false

without_front-blank :
    (c : ℕ) (s : Bytes) → is_blank c ≡ true → without_front (c ∷ s) ≡ without_front s
unfolding without_front first_where
without_front-blank c s h = ground (arith, h, first_where (λ d. not (is_blank d)) s)

without_front-other : (c : ℕ) (s : Bytes) → is_blank c ≡ false → without_front (c ∷ s) ≡ c ∷ s
unfolding without_front first_where
without_front-other c s h = ground (arith, h)

without_front-nil : without_front [] ≡ []
unfolding without_front first_where
without_front-nil = refl

without_front-Front : (s : Bytes) → Front s (without_front s)
without_front-Front [] =
    rw without_front-nil (record { before = []; spells = refl; blanks = tt; starts = refl })
without_front-Front (c ∷ s) = elim (Bool-cases (is_blank c)) [
  | inl blank ↦
      let front = without_front-Front s in
      rw (without_front-blank c s blank) (record {
        before = c ∷ front.before;
        spells = ap (◌∷◌ c) front.spells;
        blanks = (blank, front.blanks);
        starts = front.starts;
      })
  | inr other ↦
      rw (without_front-other c s other)
        (record { before = []; spells = refl; blanks = tt; starts = other })
]

abbrev last_other : Bytes → Option ℕ
last_other = last_where (λ c. not (is_blank c))

module _ (s : Bytes) where
  without_back-cut : (i : ℕ) → last_other s ≡ some i → without_back s ≡ take (suc i) s
  unfolding without_back
  without_back-cut i h = rw (h, without_back) (ap (λ n. take n s) {y = suc i} (omega arith))

  without_back-none : last_other s ≡ none → without_back s ≡ []
  unfolding without_back
  without_back-none h = rw (h, without_back)

  module _ (c : ℕ) where
    last_other-later : (i : ℕ) → last_other s ≡ some i → last_other (c ∷ s) ≡ some (suc i)
    unfolding last_where
    last_other-later i h = rw (h, last_where)

    last_other-blank : last_other s ≡ none → is_blank c ≡ true → last_other (c ∷ s) ≡ none
    unfolding last_where
    last_other-blank h blank = rw (h, last_where, blank)

    last_other-here : last_other s ≡ none → is_blank c ≡ false → last_other (c ∷ s) ≡ some 0
    unfolding last_where
    last_other-here h other = rw (h, last_where, other)

last_other-AllBlank : (s : Bytes) → last_other s ≡ none → AllBlank s
unfolding last_where
last_other-AllBlank [] h = tt
last_other-AllBlank (c ∷ s) h = elim (Option-cases (last_other s)) [
  | inr (i, found) ↦ absurd (ground (arith, last_other-later s c i found, h))
  | inl nowhere ↦ elim (Bool-cases (is_blank c)) [
    | inl blank ↦ (blank, last_other-AllBlank s nowhere)
    | inr other ↦ absurd (ground (arith, last_other-here s c nowhere other, h))
  ]
]

ends_blank-cut :
    (c i : ℕ) (s : Bytes)
    → last_other s ≡ some i
    → ends_blank (take (suc i) s) ≡ false
    → ends_blank (c ∷ take (suc i) s) ≡ false
unfolding last_where
ends_blank-cut c i [] h e = cc
ends_blank-cut c i (d ∷ s) h e = e

without_back-Back : (s : Bytes) → Back s (without_back s)
without_back-Back [] =
    rw (without_back-none [] (unfold last_where in refl))
      (record { behind = []; spells = refl; blanks = tt; ends = refl })
without_back-Back (c ∷ s) = elim (Option-cases (last_other s)) [
  | inr (i, found) ↦
      let back = rw (without_back-cut s i found) at (without_back-Back s) in
      rw (without_back-cut (c ∷ s) (suc i) (last_other-later s c i found)) (record {
        behind = back.behind;
        spells = ap (◌∷◌ c) back.spells;
        blanks = back.blanks;
        ends = ends_blank-cut c i s found back.ends;
      })
  | inl nowhere ↦ elim (Bool-cases (is_blank c)) [
    | inl blank ↦ rw (without_back-none (c ∷ s) (last_other-blank s c nowhere blank)) (record {
      behind = c ∷ s;
      spells = refl;
      blanks = (blank, last_other-AllBlank s nowhere);
      ends = refl;
    })
    | inr other ↦
        rw (without_back-cut (c ∷ s) 0 (last_other-here s c nowhere other)) (record {
          behind = s;
          spells = refl;
          blanks = last_other-AllBlank s nowhere;
          ends = other;
        })
  ]
]

starts_blank-part :
    (f t behind : Bytes) → f ≡ t ++ behind → starts_blank f ≡ false → starts_blank t ≡ false
starts_blank-part f [] behind e h = refl
starts_blank-part f (c ∷ t) behind e h = sym (ap starts_blank e) ∙ h

-- `trim` takes exactly the blanks off both ends of a text: what is left has none there, and the text is
-- what is left with blanks before and behind it.
pub trim-IsTrimmed : (s : Bytes) → IsTrimmed s (without_back (without_front s))
trim-IsTrimmed s =
    let front = without_front-Front s in
    let back = without_back-Back (without_front s) in
    record {
      before = front.before;
      behind = back.behind;
      spells = front.spells ∙ ap (◌++◌ front.before) back.spells;
      before_blank = front.blanks;
      behind_blank = back.blanks;
      starts =
          starts_blank-part (without_front s) (without_back (without_front s)) back.behind
            back.spells front.starts;
      ends = back.ends;
    }
