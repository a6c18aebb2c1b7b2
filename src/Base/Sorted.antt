-- ===== src/Base/Sorted.antt =====
-- A list in the order of its keys, and sums of the entries that pass a test.
use Prim.Native.Nat.{ℕ, ◌≤◌}
use mathlib.Core.Path.{◌≡◌, refl, subst}
use mathlib.Core.Logic.{inl, inr}
use mathlib.Core.Bool.{Bool, true, false}
use mathlib.Core.List.{List, [], ◌∷◌}
use native.Mathlib.Omega.{arith}
use gpu_reservation_controll.Base.Tests.{ltb, Bool-cases}
use gpu_reservation_controll.Base.Lists.{In, keep, sum_by}
use gpu_reservation_controll.Base.Choice.{insert_by, sort_by, In-insert_by}

module _ {ℓ} {A : Type ℓ} where
  abbrev pub IsSorted : (A → ℕ) → List A → Type ℓ
  IsSorted f [] = Unit
  IsSorted f (x ∷ xs) = ((y : A) → In y xs → f x ≤ f y) × IsSorted f xs

  insert_by-IsSorted :
      (f : A → ℕ) (x : A) (xs : List A) → IsSorted f xs → IsSorted f (insert_by f x xs)
  unfolding insert_by
  insert_by-IsSorted f x [] h = (λ y m. absurd m.0, tt)
  insert_by-IsSorted f x (y ∷ ys) h = elim (Bool-cases (ltb (f y) (f x))) [
    | inl e ↦ rw e (λ z m. after e z (In-insert_by f x ys z m), insert_by-IsSorted f x ys h.1)
    | inr e ↦ rw e (before e, h)
  ]
    where
      after : ltb (f y) (f x) ≡ true → (z : A) → In z (x ∷ ys) → f y ≤ f z
      after e z (inl q) = subst (λ w. f y ≤ f w) q (ground arith)
      after e z (inr m) = h.0 z m

      before : ltb (f y) (f x) ≡ false → (z : A) → In z (y ∷ ys) → f x ≤ f z
      before e z (inl q) = subst (λ w. f x ≤ f w) q (ground arith)
      before e z (inr m) = ground (arith, h.0 z m)

  pub sort_by-IsSorted : (f : A → ℕ) (xs : List A) → IsSorted f (sort_by f xs)
  unfolding sort_by
  sort_by-IsSorted f [] = tt
  sort_by-IsSorted f (x ∷ xs) = insert_by-IsSorted f x (sort_by f xs) (sort_by-IsSorted f xs)

  -- A sum over the entries of a comprehension that pass a test grows with the test.
  pub sum_by-keep_le :
      (f : A → ℕ) (p q : A → Bool) (xs : List A)
      → ((a : A) → In a xs → p a ≡ true → q a ≡ true)
      → sum_by f (keep p xs) ≤ sum_by f (keep q xs)
  unfolding sum_by keep
  sum_by-keep_le f p q [] h = omega arith
  sum_by-keep_le f p q (x ∷ xs) h =
      let rest = sum_by-keep_le f p q xs (λ a m. h a (inr m)) in
      let this = h x (inl refl) in ground arith
