-- ===== src/Base/Choice.antt =====
-- The least or greatest entry of a list by a key, and sorting by one.
use Prim.Native.Nat.{ℕ, ◌≤◌}
use mathlib.Core.Path.{◌≡◌, refl, subst, sym, ap}
use mathlib.Core.Logic.{inl, inr}
use mathlib.Core.Bool.{Bool, true, false}
use mathlib.Core.Option.{Option, none, some, some-injective}
use mathlib.Core.List.{List, [], ◌∷◌}
use native.Mathlib.Omega.{arith}
use gpu_reservation_controll.Base.Tests.{if◌then◌else◌, ltb, Bool-cases}
use gpu_reservation_controll.Base.Lists.{In}

not_ltb : (a b : ℕ) → ltb a b ≡ false → b ≤ a
not_ltb a b h = ground arith

module _ {ℓ} {A : Type ℓ} where
  -- `min` and `max` with a key: the first entry that no other entry beats.
  unfoldable pub best : (A → A → Bool) → A → List A → A
  best better x [] = x
  best better x (y ∷ ys) = best better (if better y x then y else x) ys

  best_take :
      (better : A → A → Bool) (x y : A) (ys : List A)
      → better y x ≡ true
      → best better x (y ∷ ys) ≡ best better y ys
  unfolding best
  best_take better x y ys e = ap (λ b. best better (if b then y else x) ys) e

  best_skip :
      (better : A → A → Bool) (x y : A) (ys : List A)
      → better y x ≡ false
      → best better x (y ∷ ys) ≡ best better x ys
  unfolding best
  best_skip better x y ys e = ap (λ b. best better (if b then y else x) ys) e

  In-later : (a x y : A) (ys : List A) → In a (x ∷ ys) → In a (x ∷ y ∷ ys)
  In-later a x y ys (inl q) = inl q
  In-later a x y ys (inr q) = inr (inr q)

  pub best-In : (better : A → A → Bool) (x : A) (ys : List A) → In (best better x ys) (x ∷ ys)
  best-In better x [] = inl (best_nil)
    where
      best_nil : x ≡ best better x []
      best_nil = unfold best in refl
  best-In better x (y ∷ ys) = elim (Bool-cases (better y x)) [
    | inl e ↦
        subst (λ b. In b (x ∷ y ∷ ys)) (sym (best_take better x y ys e)) (inr (best-In better y ys))
    | inr e ↦
        subst (λ b. In b (x ∷ y ∷ ys)) (sym (best_skip better x y ys e))
          (In-later _ x y ys (best-In better x ys))
  ]

  -- Where `better` is a strict weak order, nothing beats the result.
  module _ (better : A → A → Bool) (irrefl : (a : A) → better a a ≡ false)
      (step : (a x y : A) → better a x ≡ false → better y x ≡ true → better a y ≡ false)
      (keeps : (a x y : A) → better a x ≡ false → better x y ≡ false → better a y ≡ false) where
    best_start : (x : A) (ys : List A) → better x (best better x ys) ≡ false
    best_start x [] = unfold best in irrefl x
    best_start x (y ∷ ys) = elim (Bool-cases (better y x)) [
      | inl e ↦
          rw (best_take better x y ys e) (keeps x y _ (step x x y (irrefl x) e) (best_start y ys))
      | inr e ↦ rw (best_skip better x y ys e) (best_start x ys)
    ]

    pub best_unbeaten :
        (x : A) (ys : List A) (a : A) → In a (x ∷ ys) → better a (best better x ys) ≡ false
    best_unbeaten x ys a (inl q) =
        subst (λ z. better z (best better x ys) ≡ false) q (best_start x ys)
    best_unbeaten x [] a (inr m) = absurd m.0
    best_unbeaten x (y ∷ ys) a (inr (inl q)) = elim (Bool-cases (better y x)) [
      | inl e ↦ rw (best_take better x y ys e) (best_unbeaten y ys a (inl q))
      | inr e ↦
          rw (best_skip better x y ys e)
            (subst (λ z. better z (best better x ys) ≡ false) q (keeps y x _ e (best_start x ys)))
    ]
    best_unbeaten x (y ∷ ys) a (inr (inr q)) = elim (Bool-cases (better y x)) [
      | inl e ↦ rw (best_take better x y ys e) (best_unbeaten y ys a (inr q))
      | inr e ↦ rw (best_skip better x y ys e) (best_unbeaten x ys a (inr q))
    ]

module _ {ℓ} {A : Type ℓ} where
  abbrev pub best_of : (A → A → Bool) → List A → Option A
  best_of better [] = none
  best_of better (x ∷ xs) = some (best better x xs)

  -- `min(xs, key=f)` and `max(xs, key=f)`, where no entry gives none.
  unfoldable pub min_by : (A → ℕ) → List A → Option A
  min_by f = best_of (λ y x. ltb (f y) (f x))

  unfoldable pub max_by : (A → ℕ) → List A → Option A
  max_by f = best_of (λ y x. ltb (f x) (f y))

  -- `sorted(xs, key=f)`: stable.
  unfoldable pub insert_by : (A → ℕ) → A → List A → List A
  insert_by f x [] = x ∷ []
  insert_by f x (y ∷ ys) = if ltb (f y) (f x) then y ∷ insert_by f x ys else x ∷ y ∷ ys

  unfoldable pub sort_by : (A → ℕ) → List A → List A
  unfolding insert_by
  sort_by f [] = []
  sort_by f (x ∷ xs) = insert_by f x (sort_by f xs)

module _ {ℓ} {A : Type ℓ} where
  pub best_of-none :
      (better : A → A → Bool) (xs : List A) (a : A) → best_of better xs ≡ none → In a xs → ⊥
  best_of-none better [] a h m = m.0
  best_of-none better (x ∷ xs) a h m = cc

  pub best_of-In :
      (better : A → A → Bool) (xs : List A) {a : A} → best_of better xs ≡ some a → In a xs
  best_of-In better [] h = cc
  best_of-In better (x ∷ xs) h =
      subst (λ b. In b (x ∷ xs)) (some-injective _ _ h) (best-In better x xs)

  -- The choice of the first best entry, where `better` is a strict weak order.
  pub best_of_unbeaten :
      (better : A → A → Bool)
      → ((a : A) → better a a ≡ false)
      → ((a x y : A) → better a x ≡ false → better y x ≡ true → better a y ≡ false)
      → ((a x y : A) → better a x ≡ false → better x y ≡ false → better a y ≡ false)
      → (xs : List A) {a : A} → best_of better xs ≡ some a
      → (b : A) → In b xs
      → better b a ≡ false
  best_of_unbeaten better irrefl step keeps [] h b m = absurd m.0
  best_of_unbeaten better irrefl step keeps (x ∷ xs) h b m =
      subst (λ c. better b c ≡ false) (some-injective _ _ h)
        (best_unbeaten better irrefl step keeps x xs b m)

  pub min_by-In : (f : A → ℕ) (xs : List A) {a : A} → min_by f xs ≡ some a → In a xs
  unfolding min_by
  min_by-In f xs h = best_of-In _ xs h

  pub min_by-none : (f : A → ℕ) (xs : List A) (a : A) → min_by f xs ≡ none → In a xs → ⊥
  unfolding min_by
  min_by-none f xs a h m = best_of-none _ xs a h m

  pub min_by-le :
      (f : A → ℕ) (xs : List A) {a : A} → min_by f xs ≡ some a → (b : A) → In b xs → f a ≤ f b
  unfolding min_by
  min_by-le f [] h b m = absurd m.0
  min_by-le f (x ∷ xs) {a} h b m =
      let u =
        best_unbeaten (λ y z. ltb (f y) (f z)) (λ y. ground arith) (λ y z w p q. ground arith)
          (λ y z w p q. ground arith) x xs b m in
      not_ltb (f b) (f a) (subst (λ c. ltb (f b) (f c) ≡ false) (some-injective _ _ h) u)

  pub max_by-In : (f : A → ℕ) (xs : List A) {a : A} → max_by f xs ≡ some a → In a xs
  unfolding max_by
  max_by-In f xs h = best_of-In _ xs h

  pub max_by-none : (f : A → ℕ) (xs : List A) (a : A) → max_by f xs ≡ none → In a xs → ⊥
  unfolding max_by
  max_by-none f xs a h m = best_of-none _ xs a h m

  pub max_by-le :
      (f : A → ℕ) (xs : List A) {a : A} → max_by f xs ≡ some a → (b : A) → In b xs → f b ≤ f a
  unfolding max_by
  max_by-le f [] h b m = absurd m.0
  max_by-le f (x ∷ xs) {a} h b m =
      let u =
        best_unbeaten (λ y z. ltb (f z) (f y)) (λ y. ground arith) (λ y z w p q. ground arith)
          (λ y z w p q. ground arith) x xs b m in
      not_ltb (f a) (f b) (subst (λ c. ltb (f c) (f b) ≡ false) (some-injective _ _ h) u)

  -- Sorting keeps the entries.
  pub In-insert_by :
      (f : A → ℕ) (x : A) (xs : List A) (a : A) → In a (insert_by f x xs) → In a (x ∷ xs)
  unfolding insert_by
  In-insert_by f x [] a m = m
  In-insert_by f x (y ∷ ys) a m = elim (Bool-cases (ltb (f y) (f x))) [
    | inl e ↦ passed (In-insert_by f x ys a) (rw e at m)
    | inr e ↦ rw e at m
  ]
    where
      passed :
          (In a (insert_by f x ys) → In a (x ∷ ys))
          → In a (y ∷ insert_by f x ys)
          → In a (x ∷ y ∷ ys)
      passed ih (inl q) = inr (inl q)
      passed ih (inr q) = swapped (ih q)
        where
          swapped : In a (x ∷ ys) → In a (x ∷ y ∷ ys)
          swapped (inl r) = inl r
          swapped (inr r) = inr (inr r)

  pub insert_by-In :
      (f : A → ℕ) (x : A) (xs : List A) (a : A) → In a (x ∷ xs) → In a (insert_by f x xs)
  unfolding insert_by
  insert_by-In f x [] a m = m
  insert_by-In f x (y ∷ ys) a (inl q) = elim (Bool-cases (ltb (f y) (f x))) [
    | inl e ↦ rw e (inr (insert_by-In f x ys a (inl q)))
    | inr e ↦ rw e (inl q)
  ]
  insert_by-In f x (y ∷ ys) a (inr (inl q)) = elim (Bool-cases (ltb (f y) (f x))) [
    | inl e ↦ rw e (inl q)
    | inr e ↦ rw e (inr (inl q))
  ]
  insert_by-In f x (y ∷ ys) a (inr (inr q)) = elim (Bool-cases (ltb (f y) (f x))) [
    | inl e ↦ rw e (inr (insert_by-In f x ys a (inr q)))
    | inr e ↦ rw e (inr (inr q))
  ]

  pub In-sort_by : (f : A → ℕ) (xs : List A) (a : A) → In a (sort_by f xs) → In a xs
  unfolding sort_by
  In-sort_by f [] a m = m
  In-sort_by f (x ∷ xs) a m = below (In-sort_by f xs a) (In-insert_by f x (sort_by f xs) a m)
    where
      below : (In a (sort_by f xs) → In a xs) → In a (x ∷ sort_by f xs) → In a (x ∷ xs)
      below ih (inl q) = inl q
      below ih (inr q) = inr (ih q)

  pub sort_by-In : (f : A → ℕ) (xs : List A) (a : A) → In a xs → In a (sort_by f xs)
  unfolding sort_by
  sort_by-In f [] a m = m
  sort_by-In f (x ∷ xs) a (inl q) = insert_by-In f x (sort_by f xs) a (inl q)
  sort_by-In f (x ∷ xs) a (inr q) = insert_by-In f x (sort_by f xs) a (inr (sort_by-In f xs a q))
