-- ===== src/Collection/Sets/Functions.antt =====
-- modules/std/collection/cset.cc: the operators of two sets, whose own functions compare alike.
use clever.Prelude.{
  ℕ, ◌≡◌, refl, sym, ap, ◌∙◌, ◌⊎◌, inl, inr, Bool, true, false, ◌||◌, ◌==◌, List, [], ◌∷◌,
  if◌then◌else◌, All, Bool-cases, arith,
}
use clever.Store.{Value}
use clever.Collection.Ordered.{insert, find, is_some}
use clever.Collection.Ordered.Laws.{IsOrder, Sorted}
use clever.Collection.Sets.{CSetValue, CSet, compare, has, insert_where, insert_missing}

-- Two comparisons that are one where the left element has the property.
module _ {A : Type 0} (P : A → Type 0) (lt lt' : A → A → Bool)
    (agree : (x y : A) → P x → lt x y ≡ lt' x y) where
  insert-agree : (x : A) (s : List A) → P x → All P s → insert lt x s ≡ insert lt' x s
  unfolding insert
  insert-agree x [] px h = refl
  insert-agree x (y ∷ s) px (py, h) =
      ground (arith, agree x y px, agree y x py, insert-agree x s px h)

  find-agree : (x : A) (s : List A) → P x → All P s → find lt x s ≡ find lt' x s
  unfolding find
  find-agree x [] px h = refl
  find-agree x (y ∷ s) px (py, h) = ground (arith, agree x y px, agree y x py, find-agree x s px h)

  All-agree : (x : A) (s : List A) → P x → All (λ y. lt x y ≡ true) s → All (λ y. lt' x y ≡ true) s
  All-agree x [] px h = tt
  All-agree x (y ∷ s) px (hy, h) = (sym (agree x y px) ∙ hy, All-agree x s px h)

  pub Sorted-agree : (s : List A) → All P s → Sorted lt s → Sorted lt' s
  Sorted-agree [] ps h = tt
  Sorted-agree (x ∷ s) (px, ps) (hx, h) = (All-agree x s px hx, Sorted-agree s ps h)

  insert-All : (x : A) (s : List A) → P x → All P s → All P (insert lt x s)
  unfolding insert
  insert-All x [] px h = (px, tt)
  insert-All x (y ∷ s) px (py, h) = elim (Bool-cases (lt y x)) [
    | inl later ↦ rw later (py, insert-All x s px h)
    | inr other ↦ rw other (elim (Bool-cases (lt x y)) [
      | inl here ↦ rw here (px, (py, h))
      | inr there ↦ rw there (py, h)
    ])
  ]

module _ (P : CSetValue → Type 0) (run run' : ℕ → Value → Value → Value)
    (agree : (x y : CSetValue) → P x → compare run x y ≡ compare run' x y) where
  pub has-agree : (s : List CSetValue) (z : CSetValue) → P z → All P s → has run s z ≡ has run' s z
  unfolding has
  has-agree s z pz h = ap is_some (find-agree P (compare run) (compare run') agree z s pz h)

  keeps_if :
      (b : Bool) (x : CSetValue) (c : List CSetValue)
      → P x
      → All P c
      → All P (if b then insert (compare run) x c else c)
  keeps_if true x c px h = insert-All P (compare run) (compare run') agree x c px h
  keeps_if false x c px h = h

  same_if :
      (b b' : Bool) (x : CSetValue) (c : List CSetValue)
      → b ≡ b'
      → P x
      → All P c
      → (if b then insert (compare run) x c else c) ≡ (if b' then insert (compare run') x c else c)
  same_if b b' x c same px h =
      ground (arith, same, insert-agree P (compare run) (compare run') agree x c px h)

  pub insert_where-agree :
      (test test' : CSetValue → Bool) (xs c : List CSetValue)
      → ((x : CSetValue) → P x → test x ≡ test' x)
      → All P xs
      → All P c
      → (insert_where run test xs c ≡ insert_where run' test' xs c)
        × All P (insert_where run test xs c)
  unfolding insert_where
  insert_where-agree test test' [] c same hs h = (refl, h)
  insert_where-agree test test' (x ∷ xs) c same (hx, hs) h =
      let next = if test x then insert (compare run) x c else c in
      let (equal, all) =
        insert_where-agree test test' xs next same hs (keeps_if (test x) x c hx h) in
      (
        equal ∙ ap (insert_where run' test' xs) (same_if (test x) (test' x) x c (same x hx) hx h),
        all,
      )

  keeps_unless :
      (b : Bool) (x : CSetValue) (c : List CSetValue)
      → P x
      → All P c
      → All P (if b then c else insert (compare run) x c)
  keeps_unless true x c px h = h
  keeps_unless false x c px h = insert-All P (compare run) (compare run') agree x c px h

  pub insert_missing-agree :
      (xs c : List CSetValue)
      → All P xs
      → All P c
      → (insert_missing run xs c ≡ insert_missing run' xs c) × All P (insert_missing run xs c)
  unfolding insert_missing
  insert_missing-agree [] c hs h = (refl, h)
  insert_missing-agree (x ∷ xs) c (hx, hs) h =
      let next = if has run c x then c else insert (compare run) x c in
      let (equal, all) = insert_missing-agree xs next hs (keeps_unless (has run c x) x c hx h) in
      let same_next : next ≡ (if has run' c x then c else insert (compare run') x c) =
        ground
          (arith, has-agree c x hx h, insert-agree P (compare run) (compare run') agree x c hx h) in
      (equal ∙ ap (insert_missing run' xs) same_next, all)

-- The element carries the function of one of the two sets.
abbrev pub Carries : CSet → CSet → CSetValue → Type 0
Carries a b x = (x.comp ≡ a.comp) ⊎ (x.comp ≡ b.comp)

-- The functions of two sets compare as one strict weak order.
pub record IsShared (run : ℕ → Value → Value → Value) (a b : CSet) : Type 0 where
  pub asym :
      (x y : CSetValue)
      → Carries a b x
      → Carries a b y
      → compare run x y ≡ true
      → compare run y x ≡ false
  pub between :
      (x y z : CSetValue)
      → Carries a b x
      → Carries a b y
      → Carries a b z
      → compare run x z ≡ true
      → (compare run x y ≡ true) ⊎ (compare run y z ≡ true)

module _ (run : ℕ → Value → Value → Value) (a b : CSet) where
  abbrev pub is_own : ℕ → Bool
  is_own f = f == a.comp || f == b.comp

  -- Every other function replaced by that of the first set.
  abbrev pub shared : ℕ → Value → Value → Value
  shared f = run (if is_own f then f else a.comp)

  abbrev home : CSetValue → CSetValue
  home x = record x { comp = if is_own x.comp then x.comp else a.comp }

  home-Carries : (x : CSetValue) → Carries a b (home x)
  home-Carries x = elim (Bool-cases (x.comp == a.comp)) [
    | inl first ↦ inl (ground (arith, first))
    | inr other ↦ elim (Bool-cases (x.comp == b.comp)) [
      | inl second ↦ inr (ground (arith, other, second))
      | inr neither ↦ inl (ground (arith, other, neither))
    ]
  ]

  compare-home : (x y : CSetValue) → compare shared x y ≡ compare run (home x) (home y)
  unfolding compare
  compare-home x y = refl

  pub shared-IsOrder : IsShared run a b → IsOrder (compare shared)
  shared-IsOrder r = record {
    asym = λ x y h.
        compare-home y x
        ∙ r.asym (home x) (home y) (home-Carries x) (home-Carries y) (sym (compare-home x y) ∙ h);
    between = λ x y z h.
        elim (r.between (home x) (home y) (home z) (home-Carries x) (home-Carries y)
          (home-Carries z) (sym (compare-home x z) ∙ h)) [
            | inl less ↦ inl (compare-home x y ∙ less)
            | inr less ↦ inr (compare-home y z ∙ less)
          ];
  }

  pub shared-agree : (x y : CSetValue) → Carries a b x → compare run x y ≡ compare shared x y
  unfolding compare
  shared-agree x y (inl first) = ground (arith, first)
  shared-agree x y (inr second) = ground (arith, second)
