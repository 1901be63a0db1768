-- ===== src/Collection/Ordered.antt =====
-- What the sets and maps of the library use of std::set and std::map, on the list of their elements in
-- order; the standard defines that for a comparison that is a strict weak order.
pub mod Laws
use clever.Prelude.{Bool, true, false, Option, none, some, List, [], ◌∷◌, if◌then◌else◌}

module _ {A : Type 0} (lt : A → A → Bool) where
  -- An element that is there already stays.
  unfoldable pub insert : A → List A → List A
  insert x [] = x ∷ []
  insert x (y ∷ s) = if lt y x then y ∷ insert x s else if lt x y then x ∷ y ∷ s else y ∷ s

  unfoldable pub find : A → List A → Option A
  find x [] = none
  find x (y ∷ s) = if lt y x then find x s else if lt x y then none else some y

abbrev pub is_some {ℓ} : {A : Type ℓ} → Option A → Bool
is_some none = false
is_some (some a) = true
