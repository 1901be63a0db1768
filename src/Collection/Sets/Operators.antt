-- ===== src/Collection/Sets/Operators.antt =====
-- modules/std/collection/cset.cc: the operators of sets are those of sets.
use clever.Prelude.{ℕ, Bool, ◌≡◌, refl, sym, ap, ◌∙◌, inl, true, not, ◌&&◌, ◌||◌, List, [], All}
use mathlib.Core.Path.{subst}
use clever.Store.{Value}
use clever.Collection.Ordered.Laws.{Sorted}
use clever.Collection.Sets.{
  CSetValue, CSet, compare, has, insert_where, insert_missing, set_add, set_mul, set_sub, set_div,
}
use clever.Collection.Sets.Algebra.{set_operators-Combines}
use clever.Collection.Sets.Functions.{
  Carries, IsShared, shared, shared-IsOrder, shared-agree, has-agree, Sorted-agree,
  insert_where-agree, insert_missing-agree,
}

-- A set in order, whose elements carry the functions of two sets.
abbrev pub IsSetOf : (ℕ → Value → Value → Value) → CSet → CSet → List CSetValue → Type 0
IsSetOf run a b s = Sorted (compare run) s × All (Carries a b) s

-- A value asked for through the first set, as its `find` does.
abbrev pub asked : CSet → Value → CSetValue
asked a v = record { element = v; comp = a.comp }

-- The four operators of two sets, by the values that the results have; the results are sets again.
pub record IsAlgebra (run : ℕ → Value → Value → Value) (a b : CSet) : Type 0 where
  pub has_add :
      (v : Value)
      → has run (set_add run a b).set (asked a v)
        ≡ (has run a.set (asked a v) || has run b.set (asked a v))
  pub has_mul :
      (v : Value)
      → has run (set_mul run a b).set (asked a v)
        ≡ (has run a.set (asked a v) && has run b.set (asked a v))
  pub has_sub :
      (v : Value)
      → has run (set_sub run a b).set (asked a v)
        ≡ (has run a.set (asked a v) && not (has run b.set (asked a v)))
  pub has_div :
      (v : Value)
      → has run (set_div run a b).set (asked a v) ≡ (
          (has run a.set (asked a v) && not (has run b.set (asked a v)))
          || (has run b.set (asked a v) && not (has run a.set (asked a v))))
  pub add_set : IsSetOf run a b (set_add run a b).set
  pub mul_set : IsSetOf run a b (set_mul run a b).set
  pub sub_set : IsSetOf run a b (set_sub run a b).set
  pub div_set : IsSetOf run a b (set_div run a b).set

module _ (run : ℕ → Value → Value → Value) (a b : CSet) (in_a : All (Carries a b) a.set)
    (in_b : All (Carries a b) b.set) where
  abbrev agree : (x y : CSetValue) → Carries a b x → compare run x y ≡ compare (shared run a b) x y
  agree = shared-agree run a b

  -- The same list by both comparisons.
  record Same (s s' : List CSetValue) : Type 0 where
    equal : s ≡ s'
    carries : All (Carries a b) s

  where_Same :
      (test test' : CSetValue → Bool) (xs c c' : List CSetValue)
      → ((x : CSetValue) → Carries a b x → test x ≡ test' x)
      → All (Carries a b) xs
      → Same c c'
      → Same (insert_where run test xs c) (insert_where (shared run a b) test' xs c')
  where_Same test test' xs c c' same hs h =
      let (equal, carries) =
        insert_where-agree (Carries a b) run (shared run a b) agree test test' xs c same hs
          h.carries in
      record {
        equal = equal ∙ ap (insert_where (shared run a b) test' xs) h.equal;
        carries = carries;
      }

  missing_Same :
      (xs c c' : List CSetValue)
      → All (Carries a b) xs
      → Same c c'
      → Same (insert_missing run xs c) (insert_missing (shared run a b) xs c')
  missing_Same xs c c' hs h =
      let (equal, carries) =
        insert_missing-agree (Carries a b) run (shared run a b) agree xs c hs h.carries in
      record { equal = equal ∙ ap (insert_missing (shared run a b) xs) h.equal; carries = carries }

  same_has :
      (s : List CSetValue) (x : CSetValue)
      → All (Carries a b) s
      → Carries a b x
      → has run s x ≡ has (shared run a b) s x
  same_has s x hs hx = has-agree (Carries a b) run (shared run a b) agree s x hx hs

  Same-has :
      (s s' : List CSetValue) (v : Value)
      → Same s s'
      → has run s (asked a v) ≡ has (shared run a b) s' (asked a v)
  Same-has s s' v h =
      same_has s (asked a v) h.carries (inl refl)
      ∙ ap (λ l. has (shared run a b) l (asked a v)) h.equal

  Same-IsSetOf :
      (s s' : List CSetValue) → Same s s' → Sorted (compare (shared run a b)) s' → IsSetOf run a b s
  Same-IsSetOf s s' h sorted = (
    Sorted-agree (Carries a b) (compare (shared run a b)) (compare run)
        (λ x y hx. sym (agree x y hx)) s h.carries
        (subst (Sorted (compare (shared run a b))) (sym h.equal) sorted),
    h.carries,
  )

  abbrev nothing : Same [] []
  nothing = record { equal = refl; carries = tt }

  add_Same : Same (set_add run a b).set (set_add (shared run a b) a b).set
  unfolding set_add
  add_Same =
      missing_Same b.set _ _ in_b
        (where_Same (λ x. true) (λ x. true) a.set [] [] (λ x h. refl) in_a nothing)

  mul_Same : Same (set_mul run a b).set (set_mul (shared run a b) a b).set
  unfolding set_mul
  mul_Same =
      where_Same (has run b.set) (has (shared run a b) b.set) a.set [] []
        (λ x h. same_has b.set x in_b h) in_a nothing

  sub_Same : Same (set_sub run a b).set (set_sub (shared run a b) a b).set
  unfolding set_sub
  sub_Same =
      where_Same (λ x. not (has run b.set x)) (λ x. not (has (shared run a b) b.set x)) a.set [] []
        (λ x h. ap not (same_has b.set x in_b h)) in_a nothing

  div_Same : Same (set_div run a b).set (set_div (shared run a b) a b).set
  unfolding set_div
  div_Same =
      where_Same (λ x. not (has run a.set x)) (λ x. not (has (shared run a b) a.set x)) b.set _ _
        (λ x h. ap not (same_has a.set x in_a h)) in_b
        (where_Same (λ x. not (has run b.set x)) (λ x. not (has (shared run a b) b.set x)) a.set []
          [] (λ x h. ap not (same_has b.set x in_b h)) in_a nothing)

-- If the functions of two sets compare as one strict weak order, and the sets are in order and their
-- elements carry these functions, then `+`, `*`, `-` and `/` of the sets are their union, intersection,
-- difference and symmetric difference, up to the equivalence of the order, and are such sets again.
pub set_operators-IsAlgebra :
    (run : ℕ → Value → Value → Value) (a b : CSet)
    → IsShared run a b
    → IsSetOf run a b a.set
    → IsSetOf run a b b.set
    → IsAlgebra run a b
set_operators-IsAlgebra run a b order (sorted_a, in_a) (sorted_b, in_b) =
    let sorted = λ (s : List CSetValue) (hs : All (Carries a b) s).
      Sorted-agree (Carries a b) (compare run) (compare (shared run a b)) (shared-agree run a b) s
        hs in
    let combined =
      set_operators-Combines (shared run a b) a b (shared-IsOrder run a b order)
        (sorted a.set in_a sorted_a) (sorted b.set in_b sorted_b) in
    let first = λ (v : Value). sym (same_has run a b in_a in_b a.set (asked a v) in_a (inl refl)) in
    let second =
      λ (v : Value). sym (same_has run a b in_a in_b b.set (asked a v) in_b (inl refl)) in
    record {
      has_add = λ v.
          Same-has run a b in_a in_b _ _ v (add_Same run a b in_a in_b)
          ∙ combined.has_add (asked a v)
          ∙ cc (first v, second v);
      has_mul = λ v.
          Same-has run a b in_a in_b _ _ v (mul_Same run a b in_a in_b)
          ∙ combined.has_mul (asked a v)
          ∙ cc (first v, second v);
      has_sub = λ v.
          Same-has run a b in_a in_b _ _ v (sub_Same run a b in_a in_b)
          ∙ combined.has_sub (asked a v)
          ∙ cc (first v, second v);
      has_div = λ v.
          Same-has run a b in_a in_b _ _ v (div_Same run a b in_a in_b)
          ∙ combined.has_div (asked a v)
          ∙ cc (first v, second v);
      add_set = Same-IsSetOf run a b in_a in_b _ _ (add_Same run a b in_a in_b) combined.add_sorted;
      mul_set = Same-IsSetOf run a b in_a in_b _ _ (mul_Same run a b in_a in_b) combined.mul_sorted;
      sub_set = Same-IsSetOf run a b in_a in_b _ _ (sub_Same run a b in_a in_b) combined.sub_sorted;
      div_set = Same-IsSetOf run a b in_a in_b _ _ (div_Same run a b in_a in_b) combined.div_sorted;
    }
