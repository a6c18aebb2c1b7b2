-- ===== src/Base/Sets.antt =====
-- A Python set as a list; only membership and the order of first insertion are seen.
use mathlib.Core.Path.{ap, ◌≡◌, refl, subst, sym, ◌∙◌}
use mathlib.Core.Logic.{inl, inr, ◌⊎◌}
use mathlib.Core.Bool.{Bool, true, false, ◌&&◌, ◌||◌}
use mathlib.Core.List.{List, [], Permᴰ, ◌∷◌, ◌++◌}
use Prim.Native.String.{String}
use native.Mathlib.Omega.{arith}
use gpu_reservation_controll.Base.Tests.{string_eq, Eq, ◌==◌, eq_self, if◌then◌else◌, Bool-cases}
use gpu_reservation_controll.Base.Lists.{In, keep}

module _ {ℓ} {A : Type ℓ} ⦃e : Eq A⦄ where
  -- `a in s`.
  unfoldable pub contains : A → List A → Bool
  contains a [] = false
  contains a (x ∷ xs) = if x == a then true else contains a xs

  -- `s.add(a)`.
  unfoldable pub add : A → List A → List A
  unfolding contains
  add a xs = if contains a xs then xs else xs ++ a ∷ []

  -- `s.discard(a)`.
  unfoldable pub discard : A → List A → List A
  discard a [] = []
  discard a (x ∷ xs) = if x == a then discard a xs else x ∷ discard a xs

  -- `s | t`.
  unfoldable pub union : List A → List A → List A
  unfolding add
  union xs [] = xs
  union xs (y ∷ ys) = union (add y xs) ys

  pub contains-append :
      (a : A) (xs ys : List A) → contains a (xs ++ ys) ≡ (contains a xs || contains a ys)
  unfolding contains
  contains-append a [] ys = refl
  contains-append a (x ∷ xs) ys = ground (arith, contains-append a xs ys)

  pub contains-add : (a b : A) (xs : List A) → contains b (add a xs) ≡ (a == b || contains b xs)
  unfolding add contains
  contains-add a b xs = elim (Bool-cases (contains a xs)) [
    | inl old ↦ elim (Bool-cases (a == b)) [
      | inl same ↦ rw (old, same) (subst (λ z. contains z xs ≡ true) ((e.beq_iff a b).0 same) old)
      | inr other ↦ rw (old, other)
    ]
    | inr new ↦ rw (new, contains-append b xs (a ∷ [])) (ground arith)
  ]

  pub contains-discard :
      (a b : A) (xs : List A)
      → contains b (discard a xs) ≡ (if a == b then false else contains b xs)
  unfolding contains discard
  contains-discard a b [] = ground arith
  contains-discard a b (x ∷ xs) =
      ground (arith, e.beq_iff x a, e.beq_iff x b, e.beq_iff a b, contains-discard a b xs)

  pub contains-union :
      (b : A) (xs ys : List A) → contains b (union xs ys) ≡ (contains b xs || contains b ys)
  unfolding union contains
  contains-union b xs [] = ground arith
  contains-union b xs (y ∷ ys) = ground (arith, contains-union b (add y xs) ys, contains-add y b xs)

  pub contains-In : (a : A) (xs : List A) → contains a xs ≡ true → In a xs
  unfolding contains
  contains-In a [] h = cc
  contains-In a (x ∷ xs) h = elim (Bool-cases (x == a)) [
    | inl q ↦ inl ((e.beq_iff x a).0 q)
    | inr q ↦ inr (contains-In a xs (ground arith))
  ]

  pub In-contains : (a : A) (xs : List A) → In a xs → contains a xs ≡ true
  unfolding contains
  In-contains a [] m = absurd m.0
  In-contains a (x ∷ xs) (inl q) = rw ((e.beq_iff x a).1 q)
  In-contains a (x ∷ xs) (inr q) = ground (arith, In-contains a xs q)

  pub contains-keep :
      (p : A → Bool) (a : A) (xs : List A) → contains a (keep p xs) ≡ (p a && contains a xs)
  unfolding contains keep
  contains-keep p a [] = ground arith
  contains-keep p a (x ∷ xs) = elim (Bool-cases (x == a)) [
    | inl q ↦
        subst (λ z. contains z (keep p (x ∷ xs)) ≡ (p z && contains z (x ∷ xs)))
          ((e.beq_iff x a).0 q) (ground (arith, eq_self x, contains-keep p x xs))
    | inr q ↦ rw q (ground (arith, contains-keep p a xs))
  ]

  pub In-union : (xs ys : List A) (a : A) → In a xs ⊎ In a ys → In a (union xs ys)
  In-union xs ys a m = contains-In a (union xs ys) (contains-union a xs ys ∙ side m)
    where
      side : In a xs ⊎ In a ys → (contains a xs || contains a ys) ≡ true
      side (inl l) = ground (arith, In-contains a xs l)
      side (inr r) = ground (arith, In-contains a ys r)

  pub union-In : (xs ys : List A) (a : A) → In a (union xs ys) → In a xs ⊎ In a ys
  union-In xs ys a m =
      let e = sym (contains-union a xs ys) ∙ In-contains a (union xs ys) m in
      elim (Bool-cases (contains a xs)) [
        | inl l ↦ inl (contains-In a xs l)
        | inr l ↦ inr (contains-In a ys (ground arith))
      ]

pub contains-Perm : {xs ys : List String} (a : String) → Permᴰ xs ys → contains a xs ≡ contains a ys
unfolding contains
contains-Perm a Permᴰ.nil = refl
contains-Perm a (Permᴰ.cons e d) = ground (arith, ap (λ z. z == a) e, contains-Perm a d)
contains-Perm a (Permᴰ.swap e f) = ground (arith, ap (λ z. z == a) e, ap (λ z. z == a) f)
contains-Perm a (Permᴰ.trans c d) = contains-Perm a c ∙ contains-Perm a d
