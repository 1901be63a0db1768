-- ===== src/Collection/Sets/Algebra.antt =====
-- modules/std/collection/cset.cc: the operators of sets, when all functions compare alike.
use clever.Prelude.{
  ℕ, ◌≡◌, refl, sym, ap, ◌∙◌, Bool, true, false, not, ◌&&◌, ◌||◌, List, [], ◌∷◌, if◌then◌else◌,
  arith,
}
use clever.Store.{Value}
use clever.Collection.Ordered.{insert}
use clever.Collection.Ordered.Laws.{
  IsOrder, equivalent, Sorted, occurs, contains-insert, contains_congr, insert-Sorted,
  contains-occurs,
}
use clever.Collection.Sets.{
  CSetValue, CSet, compare, has, insert_where, insert_missing, set_add, set_mul, set_sub, set_div,
}

and_true : (b : Bool) → (b && true) ≡ b
and_true true = refl
and_true false = refl

module _ (run : ℕ → Value → Value → Value) (order : IsOrder (compare run)) where
  -- An element of the list that passes the test and is equivalent to `z`.
  abbrev occurs_where : (CSetValue → Bool) → CSetValue → List CSetValue → Bool
  occurs_where test z [] = false
  occurs_where test z (x ∷ xs) = (test x && equivalent (compare run) z x) || occurs_where test z xs

  insert_where-Sorted :
      (test : CSetValue → Bool) (xs c : List CSetValue)
      → Sorted (compare run) c
      → Sorted (compare run) (insert_where run test xs c)
  unfolding insert_where
  insert_where-Sorted test [] c h = h
  insert_where-Sorted test (x ∷ xs) c h =
      insert_where-Sorted test xs (if test x then insert (compare run) x c else c)
        (elim (test x) as (λ b. Sorted (compare run) (if b then insert (compare run) x c else c)) [
          | true ↦ insert-Sorted (compare run) order x c h
          | false ↦ h
        ])

  has-insert_where :
      (test : CSetValue → Bool) (z : CSetValue) (xs c : List CSetValue)
      → has run (insert_where run test xs c) z ≡ (has run c z || occurs_where test z xs)
  unfolding insert_where has
  has-insert_where test z [] c = ground (arith, has run c z)
  has-insert_where test z (x ∷ xs) c = ground (
    arith,
    has-insert_where test z xs (insert (compare run) x c),
    has-insert_where test z xs c,
    contains-insert (compare run) order x z c,
  )

  insert_missing-Sorted :
      (xs c : List CSetValue)
      → Sorted (compare run) c
      → Sorted (compare run) (insert_missing run xs c)
  unfolding insert_missing
  insert_missing-Sorted [] c h = h
  insert_missing-Sorted (x ∷ xs) c h =
      insert_missing-Sorted xs (if has run c x then c else insert (compare run) x c)
        (elim (has run c x)
          as (λ b. Sorted (compare run) (if b then c else insert (compare run) x c)) [
            | true ↦ h
            | false ↦ insert-Sorted (compare run) order x c h
          ])

  has-congr :
      (x z : CSetValue) (s : List CSetValue)
      → equivalent (compare run) z x ≡ true
      → has run s x ≡ has run s z
  unfolding has
  has-congr x z s h = contains_congr (compare run) order x z s (ground (arith, h))

  has-insert_missing :
      (z : CSetValue) (xs c : List CSetValue)
      → has run (insert_missing run xs c) z ≡ (has run c z || occurs (compare run) z xs)
  unfolding insert_missing has
  has-insert_missing z [] c = ground (arith, has run c z)
  has-insert_missing z (x ∷ xs) c = ground (
    arith,
    has-insert_missing z xs (insert (compare run) x c),
    has-insert_missing z xs c,
    contains-insert (compare run) order x z c,
    has-congr x z c,
  )

  -- A test that does not tell equivalent elements apart.
  abbrev Respects : (CSetValue → Bool) → CSetValue → Type 0
  Respects test z = (x : CSetValue) → equivalent (compare run) z x ≡ true → test x ≡ test z

  occurs_where-occurs :
      (test : CSetValue → Bool) (z : CSetValue) (xs : List CSetValue)
      → Respects test z
      → occurs_where test z xs ≡ (occurs (compare run) z xs && test z)
  occurs_where-occurs test z [] h = refl
  occurs_where-occurs test z (x ∷ xs) h =
      ground
        (arith, h x, occurs_where-occurs test z xs h, equivalent (compare run) z x, test x, test z)

  -- What passes the test of a list in order, put into a set.
  has-where :
      (test : CSetValue → Bool) (z : CSetValue) (xs c : List CSetValue)
      → Sorted (compare run) xs
      → Respects test z
      → has run (insert_where run test xs c) z ≡ (has run c z || (has run xs z && test z))
  unfolding has
  has-where test z xs c sorted h =
      has-insert_where test z xs c
      ∙ ap (λ b. has run c z || b)
          (occurs_where-occurs test z xs h
            ∙ ap (λ b. b && test z) (sym (contains-occurs (compare run) order z xs sorted)))

  has-always :
      (z : CSetValue) (xs : List CSetValue)
      → Sorted (compare run) xs
      → has run (insert_where run (λ x. true) xs []) z ≡ has run xs z
  unfolding has
  has-always z xs h = has-where (λ x. true) z xs [] h (λ x same. refl) ∙ and_true (has run xs z)

  -- Without the elements of another list, put into a set.
  has-without :
      (z : CSetValue) (s xs c : List CSetValue)
      → Sorted (compare run) xs
      → has run (insert_where run (λ x. not (has run s x)) xs c) z
        ≡ (has run c z || (has run xs z && not (has run s z)))
  has-without z s xs c h =
      has-where (λ x. not (has run s x)) z xs c h (λ x same. ap not (has-congr x z s same))

-- The four operators of two sets, by the elements that the results have.
pub record Combines (run : ℕ → Value → Value → Value) (a b : CSet) : Type 0 where
  pub has_add :
      (z : CSetValue) → has run (set_add run a b).set z ≡ (has run a.set z || has run b.set z)
  pub has_mul :
      (z : CSetValue) → has run (set_mul run a b).set z ≡ (has run a.set z && has run b.set z)
  pub has_sub :
      (z : CSetValue) → has run (set_sub run a b).set z ≡ (has run a.set z && not (has run b.set z))
  pub has_div :
      (z : CSetValue)
      → has run (set_div run a b).set z
        ≡ ((has run a.set z && not (has run b.set z)) || (has run b.set z && not (has run a.set z)))
  pub add_sorted : Sorted (compare run) (set_add run a b).set
  pub mul_sorted : Sorted (compare run) (set_mul run a b).set
  pub sub_sorted : Sorted (compare run) (set_sub run a b).set
  pub div_sorted : Sorted (compare run) (set_div run a b).set

-- If every function compares as the same strict weak order, the operators of two sets in order combine
-- what the sets have, and give sets in order.
pub set_operators-Combines :
    (run : ℕ → Value → Value → Value) (a b : CSet)
    → IsOrder (compare run)
    → Sorted (compare run) a.set
    → Sorted (compare run) b.set
    → Combines run a b
unfolding set_add set_mul set_sub set_div has
set_operators-Combines run a b order sorted_a sorted_b =
    let all = insert_where run (λ x. true) a.set [] in
    let difference = insert_where run (λ x. not (has run b.set x)) a.set [] in
    let difference-Sorted =
      insert_where-Sorted run order (λ x. not (has run b.set x)) a.set [] tt in
    record {
      has_add = λ z.
          has-insert_missing run order z b.set all
          ∙ ap (λ t. t || occurs (compare run) z b.set) (has-always run order z a.set sorted_a)
          ∙ ap (λ t. has run a.set z || t)
              (sym (contains-occurs (compare run) order z b.set sorted_b));
      has_mul = λ z.
          has-where run order (has run b.set) z a.set [] sorted_a
            (λ x same. has-congr run order x z b.set same);
      has_sub = λ z. has-without run order z b.set a.set [] sorted_a;
      has_div = λ z.
          has-without run order z a.set b.set difference sorted_b
          ∙ ap (λ t. t || (has run b.set z && not (has run a.set z)))
              (has-without run order z b.set a.set [] sorted_a);
      add_sorted =
          insert_missing-Sorted run order b.set all
            (insert_where-Sorted run order (λ x. true) a.set [] tt);
      mul_sorted = insert_where-Sorted run order (has run b.set) a.set [] tt;
      sub_sorted = difference-Sorted;
      div_sorted =
          insert_where-Sorted run order (λ x. not (has run a.set x)) b.set difference
            difference-Sorted;
    }
