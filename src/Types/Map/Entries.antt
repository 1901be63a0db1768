-- ===== src/Types/Map/Entries.antt =====
-- modules/std/core/map.cc: what `insert` leaves in a map.
use clever.Prelude.{
  ◌≡◌, refl, ap, ◌∙◌, ◌⊎◌, inl, inr, true, false, not, ◌&&◌, [], ◌∷◌, arith, Bool-cases,
}
use clever.Store.{Value, null}
use clever.Types.Text.{Bytes, comes_before, is_same}
use clever.Types.Map.{ValueMap, key_less, find_key, insert_value}
use clever.Collection.Ordered.{find}
use clever.Collection.Ordered.Laws.{IsOrder, found_or_new, find-insert}

comes_before_asym : (s t : Bytes) → comes_before s t ≡ true → comes_before t s ≡ false
unfolding comes_before
comes_before_asym [] [] h = refl
comes_before_asym [] (d ∷ t) h = refl
comes_before_asym (c ∷ s) [] h = cc
comes_before_asym (c ∷ s) (d ∷ t) h = ground (arith, comes_before_asym s t)

comes_before_between :
    (s t u : Bytes)
    → comes_before s u ≡ true
    → (comes_before s t ≡ true) ⊎ (comes_before t u ≡ true)
unfolding comes_before
comes_before_between [] [] (e ∷ u) h = inr refl
comes_before_between [] (d ∷ t) u h = inl refl
comes_before_between [] [] [] h = cc
comes_before_between (c ∷ s) t [] h = cc
comes_before_between (c ∷ s) [] (e ∷ u) h = inr refl
comes_before_between (c ∷ s) (d ∷ t) (e ∷ u) h = elim (Bool-cases (comes_before (c ∷ s) (d ∷ t))) [
  | inl before ↦ inl before
  | inr not_before ↦ inr (ground (arith, not_before, h, comes_before_between s t u))
]

comes_before-is_same :
    (s t : Bytes) → (not (comes_before s t) && not (comes_before t s)) ≡ is_same s t
unfolding comes_before is_same
comes_before-is_same [] [] = refl
comes_before-is_same [] (d ∷ t) = refl
comes_before-is_same (c ∷ s) [] = refl
comes_before-is_same (c ∷ s) (d ∷ t) = ground (arith, comes_before-is_same s t)

key_less-IsOrder : IsOrder key_less
unfolding key_less
key_less-IsOrder = record {
  asym = λ e f h. comes_before_asym e.0 f.0 h;
  between = λ e f g h. comes_before_between e.0 f.0 g.0 h;
}

-- After an insertion a key that was there has its old entry still, the inserted key has the new entry if
-- it was not there, and every other key that was not there still is not.
pub find_key-insert_value :
    (k j : Bytes) (v : Value) (m : ValueMap)
    → find_key k (insert_value j v m) ≡ found_or_new (find_key k m) (is_same k j) (j, v)
unfolding find_key insert_value key_less
find_key-insert_value k j v m =
    find-insert key_less key_less-IsOrder (j, v) (k, null) m
    ∙ ap (λ b. found_or_new (find key_less (k, null) m) b (j, v)) (comes_before-is_same k j)
