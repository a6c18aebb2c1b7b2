-- ===== src/Base/Lists.antt =====
-- Comprehensions, sums and membership.
use Prim.Native.Nat.{ℕ, suc, ◌+◌, ◌≤◌}
use mathlib.Core.Path.{◌≡◌, refl, subst, sym, ap}
use mathlib.Core.Logic.{◌⊎◌, inl, inr}
use mathlib.Core.Bool.{Bool, true, false, ◌&&◌, ◌||◌}
use mathlib.Core.Option.{Option, none, some}
use mathlib.Core.List.{List, [], ◌∷◌, ◌++◌, map}
use native.Mathlib.Omega.{arith}
use gpu_reservation_controll.Base.Tests.{if◌then◌else◌, Bool-cases}

module _ {ℓ} {A : Type ℓ} where
  abbrev pub length : List A → ℕ
  length [] = 0
  length (x ∷ xs) = suc (length xs)

  pub length-append : (xs ys : List A) → length (xs ++ ys) ≡ length xs + length ys
  length-append [] ys = omega arith
  length-append (x ∷ xs) ys = omega (arith, length-append xs ys)

  -- `[x for x in xs if p(x)]`.
  unfoldable pub keep : (A → Bool) → List A → List A
  keep p [] = []
  keep p (x ∷ xs) = if p x then x ∷ keep p xs else keep p xs

  -- `next((x for x in xs if p(x)), None)`.
  unfoldable pub first : (A → Bool) → List A → Option A
  first p [] = none
  first p (x ∷ xs) = if p x then some x else first p xs

  unfoldable pub any : (A → Bool) → List A → Bool
  any p [] = false
  any p (x ∷ xs) = p x || any p xs

  unfoldable pub all : (A → Bool) → List A → Bool
  all p [] = true
  all p (x ∷ xs) = p x && all p xs

  -- `sum(f(x) for x in xs)`.
  unfoldable pub sum_by : (A → ℕ) → List A → ℕ
  sum_by f [] = 0
  sum_by f (x ∷ xs) = f x + sum_by f xs

  -- Membership as a family that recursion computes.
  abbrev pub In : A → List A → Type ℓ
  In a [] = ⊥ × Unit {ℓ}
  In a (x ∷ xs) = (x ≡ a) ⊎ In a xs

  abbrev pub All {κ} : (A → Type κ) → List A → Type κ
  All P [] = Unit
  All P (x ∷ xs) = P x × All P xs

module _ {ℓ} {A : Type ℓ} where
  pub All-In {κ} : (P : A → Type κ) (xs : List A) (a : A) → All P xs → In a xs → P a
  All-In P [] a h m = absurd m.0
  All-In P (x ∷ xs) a h (inl e) = subst P e h.0
  All-In P (x ∷ xs) a h (inr m) = All-In P xs a h.1 m

  pub All-of {κ} : (P : A → Type κ) (xs : List A) → ((a : A) → In a xs → P a) → All P xs
  All-of P [] h = tt
  All-of P (x ∷ xs) h = (h x (inl refl), All-of P xs (λ a m. h a (inr m)))

  -- A comprehension holds exactly the entries that pass its test.
  pub In-keep : (p : A → Bool) (xs : List A) (a : A) → In a (keep p xs) → In a xs × (p a ≡ true)
  unfolding keep
  In-keep p [] a m = absurd m.0
  In-keep p (x ∷ xs) a m = elim (Bool-cases (p x)) [
    | inl e ↦ kept e (In-keep p xs a) (rw e at m)
    | inr e ↦ let r = In-keep p xs a (rw e at m) in (inr r.0, r.1)
  ]
    where
      kept :
          p x ≡ true
          → (In a (keep p xs) → In a xs × (p a ≡ true))
          → In a (x ∷ keep p xs)
          → In a (x ∷ xs) × (p a ≡ true)
      kept e ih (inl q) = (inl q, subst (λ z. p z ≡ true) q e)
      kept e ih (inr q) = let r = ih q in (inr r.0, r.1)

  -- Tests that agree keep the same members.
  pub keep_agree : (p q : A → Bool) → ((a : A) → p a ≡ q a) → (xs : List A) → keep p xs ≡ keep q xs
  unfolding keep
  keep_agree p q same [] = refl
  keep_agree p q same (x ∷ xs) = rw (same x, keep_agree p q same xs)

  pub keep-In : (p : A → Bool) (xs : List A) (a : A) → In a xs → p a ≡ true → In a (keep p xs)
  unfolding keep
  keep-In p [] a m h = m
  keep-In p (x ∷ xs) a (inl q) h = rw (subst (λ z. p z ≡ true) (sym q) h) (inl q)
  keep-In p (x ∷ xs) a (inr q) h = elim (Bool-cases (p x)) [
    | inl e ↦ rw e (inr (keep-In p xs a q h))
    | inr e ↦ rw e (keep-In p xs a q h)
  ]

  pub first-some :
      (p : A → Bool) (xs : List A) {a : A} → first p xs ≡ some a → In a xs × (p a ≡ true)
  unfolding first
  first-some p [] h = cc
  first-some p (x ∷ xs) {a} h = elim (Bool-cases (p x)) [
    | inl e ↦ (inl (ground arith), ground arith)
    | inr e ↦ let r = first-some p xs (ground arith) in (inr r.0, r.1)
  ]

  pub first-none : (p : A → Bool) (xs : List A) (a : A) → first p xs ≡ none → In a xs → p a ≡ false
  unfolding first
  first-none p [] a h m = absurd m.0
  first-none p (x ∷ xs) a h (inl q) = subst (λ z. p z ≡ false) q (ground arith)
  first-none p (x ∷ xs) a h (inr q) = first-none p xs a (ground arith) q

  pub any-false : (p : A → Bool) (xs : List A) (a : A) → any p xs ≡ false → In a xs → p a ≡ false
  unfolding any
  any-false p [] a h m = absurd m.0
  any-false p (x ∷ xs) a h (inl q) = subst (λ z. p z ≡ false) q (ground arith)
  any-false p (x ∷ xs) a h (inr q) = any-false p xs a (ground arith) q

  pub any-true : (p : A → Bool) (xs : List A) → any p xs ≡ true → (a : A) × In a xs × (p a ≡ true)
  unfolding any
  any-true p [] h = cc
  any-true p (x ∷ xs) h = elim (Bool-cases (p x)) [
    | inl e ↦ (x, inl refl, e)
    | inr e ↦ let r = any-true p xs (ground arith) in (r.0, inr r.1, r.2)
  ]

  pub all-true : (p : A → Bool) (xs : List A) (a : A) → all p xs ≡ true → In a xs → p a ≡ true
  unfolding all
  all-true p [] a h m = absurd m.0
  all-true p (x ∷ xs) a h (inl q) = subst (λ z. p z ≡ true) q (ground arith)
  all-true p (x ∷ xs) a h (inr q) = all-true p xs a (ground arith) q

  pub sum_by-append : (f : A → ℕ) (xs ys : List A) → sum_by f (xs ++ ys) ≡ sum_by f xs + sum_by f ys
  unfolding sum_by
  sum_by-append f [] ys = omega arith
  sum_by-append f (x ∷ xs) ys = omega (arith, sum_by-append f xs ys)

  pub In-append : (xs ys : List A) (a : A) → In a (xs ++ ys) → In a xs ⊎ In a ys
  In-append [] ys a m = inr m
  In-append (x ∷ xs) ys a (inl q) = inl (inl q)
  In-append (x ∷ xs) ys a (inr m) = elim (In-append xs ys a m) [
    | inl l ↦ inl (inr l)
    | inr r ↦ inr r
  ]

  pub sum_by-ext : (f g : A → ℕ) (xs : List A) → ((a : A) → f a ≡ g a) → sum_by f xs ≡ sum_by g xs
  unfolding sum_by
  sum_by-ext f g [] h = refl
  sum_by-ext f g (x ∷ xs) h = omega (arith, h x, sum_by-ext f g xs h)

  pub length-keep-le : (p : A → Bool) (xs : List A) → length (keep p xs) ≤ length xs
  unfolding keep
  length-keep-le p [] = omega arith
  length-keep-le p (x ∷ xs) = ground (arith, length-keep-le p xs)

module _ {ℓ κ} {A : Type ℓ} {B : Type κ} where
  pub In-map : (f : A → B) (xs : List A) (a : A) → In a xs → In (f a) (map f xs)
  In-map f [] a m = absurd m.0
  In-map f (x ∷ xs) a (inl q) = inl (ap f q)
  In-map f (x ∷ xs) a (inr m) = inr (In-map f xs a m)

  pub map-In : (f : A → B) (xs : List A) (b : B) → In b (map f xs) → (a : A) × In a xs × (f a ≡ b)
  map-In f [] b m = absurd m.0
  map-In f (x ∷ xs) b (inl q) = (x, inl refl, q)
  map-In f (x ∷ xs) b (inr m) = let (a, k, e) = map-In f xs b m in (a, inr k, e)
