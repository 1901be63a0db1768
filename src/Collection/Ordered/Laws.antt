-- ===== src/Collection/Ordered/Laws.antt =====
-- std::set: its elements up to the equivalence of the comparison.
use clever.Prelude.{
  ap, ◌∙◌, ◌≡◌, refl, ◌⊎◌, inl, inr, Bool, true, false, not, ◌&&◌, ◌||◌, Option, none, some, List,
  [], ◌∷◌, if◌then◌else◌, All, Bool-cases, arith,
}
use clever.Collection.Ordered.{insert, find, is_some}

-- A strict weak order.
pub record IsOrder {A : Type 0} (lt : A → A → Bool) : Type 0 where
  pub asym : (x y : A) → lt x y ≡ true → lt y x ≡ false
  pub between : (x y z : A) → lt x z ≡ true → (lt x y ≡ true) ⊎ (lt y z ≡ true)

module _ {A : Type 0} (lt : A → A → Bool) where
  abbrev pub equivalent : A → A → Bool
  equivalent x y = not (lt x y) && not (lt y x)

  abbrev pub contains : List A → A → Bool
  contains s x = is_some (find lt x s)

  abbrev pub Sorted : List A → Type 0
  Sorted [] = Unit
  Sorted (x ∷ s) = All (λ y. lt x y ≡ true) s × Sorted s

  -- An element that is equivalent stands in the list.
  abbrev pub occurs : A → List A → Bool
  occurs z [] = false
  occurs z (x ∷ s) = equivalent z x || occurs z s

-- What was found, or else a new element, if it is equivalent.
abbrev pub found_or_new : {A : Type 0} → Option A → Bool → A → Option A
found_or_new (some old) same new = some old
found_or_new none same new = if same then some new else none

is_some-found_or_new :
    {A : Type 0} (o : Option A) (same : Bool) (new : A)
    → is_some (found_or_new o same new) ≡ (is_some o || same)
is_some-found_or_new (some old) same new = refl
is_some-found_or_new none true new = refl
is_some-found_or_new none false new = refl

module _ {A : Type 0} (lt : A → A → Bool) (order : IsOrder lt) where
  -- What is found once an element is inserted.
  pub find-insert :
      (x z : A) (s : List A)
      → find lt z (insert lt x s) ≡ found_or_new (find lt z s) (equivalent lt z x) x
  unfolding insert find
  find-insert x z [] = ground arith
  find-insert x z (y ∷ s) = ground (
    arith,
    find-insert x z s,
    order.asym x y,
    order.asym y x,
    order.asym x z,
    order.asym z x,
    order.asym y z,
    order.asym z y,
    order.between y z x,
    order.between z x y,
    order.between z y x,
    order.between y x z,
    order.between x z y,
    order.between x y z,
  )

  pub contains-insert :
      (x z : A) (s : List A)
      → contains lt (insert lt x s) z ≡ (contains lt s z || equivalent lt z x)
  contains-insert x z s =
      ap is_some (find-insert x z s) ∙ is_some-found_or_new (find lt z s) (equivalent lt z x) x

  pub contains_congr :
      (x z : A) (s : List A) → equivalent lt x z ≡ true → contains lt s x ≡ contains lt s z
  unfolding find
  contains_congr x z [] h = refl
  contains_congr x z (y ∷ s) h = ground (
    arith,
    contains_congr x z s h,
    order.between y x z,
    order.between y z x,
    order.between x y z,
    order.between z y x,
    order.between x z y,
    order.between z x y,
  )

  All-insert :
      (x y : A) (s : List A)
      → lt y x ≡ true
      → All (λ w. lt y w ≡ true) s
      → All (λ w. lt y w ≡ true) (insert lt x s)
  unfolding insert
  All-insert x y [] h hs = (h, tt)
  All-insert x y (w ∷ s) h (hw, hs) = elim (Bool-cases (lt w x)) [
    | inl later ↦ rw later (hw, All-insert x y s h hs)
    | inr not_later ↦ rw not_later (elim (Bool-cases (lt x w)) [
      | inl here ↦ rw here (h, (hw, hs))
      | inr there ↦ rw there (hw, hs)
    ])
  ]

  lt_trans : (x y z : A) → lt x y ≡ true → lt y z ≡ true → lt x z ≡ true
  lt_trans x y z h k = ground (arith, order.between x z y h, order.asym y z k)

  All-lt_trans :
      (x y : A) (s : List A)
      → lt x y ≡ true
      → All (λ w. lt y w ≡ true) s
      → All (λ w. lt x w ≡ true) s
  All-lt_trans x y [] h hs = tt
  All-lt_trans x y (w ∷ s) h (hw, hs) = (lt_trans x y w h hw, All-lt_trans x y s h hs)

  pub insert-Sorted : (x : A) (s : List A) → Sorted lt s → Sorted lt (insert lt x s)
  unfolding insert
  insert-Sorted x [] h = (tt, tt)
  insert-Sorted x (y ∷ s) (hy, hs) = elim (Bool-cases (lt y x)) [
    | inl later ↦ rw later (All-insert x y s later hy, insert-Sorted x s hs)
    | inr not_later ↦ rw not_later (elim (Bool-cases (lt x y)) [
      | inl here ↦ rw here ((here, All-lt_trans x y s here hy), (hy, hs))
      | inr there ↦ rw there (hy, hs)
    ])
  ]

  occurs_before :
      (z x : A) (s : List A) → lt z x ≡ true → All (λ w. lt x w ≡ true) s → occurs lt z s ≡ false
  occurs_before z x [] h hs = refl
  occurs_before z x (w ∷ s) h (hw, hs) =
      ground (arith, lt_trans z x w h hw, occurs_before z x s h hs)

  -- In a list in order, the search finds what stands there.
  pub contains-occurs : (z : A) (s : List A) → Sorted lt s → contains lt s z ≡ occurs lt z s
  unfolding find
  contains-occurs z [] h = refl
  contains-occurs z (x ∷ s) (hx, hs) = elim (Bool-cases (lt z x)) [
    | inl before ↦ ground (arith, before, order.asym z x, occurs_before z x s before hx)
    | inr not_before ↦ ground (arith, not_before, contains-occurs z s hs, occurs lt z s)
  ]
