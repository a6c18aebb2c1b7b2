-- ===== src/Preemption/Selection.antt =====
-- The random local selection of app/controller.py: a greedy pass over a shuffled pool.
use mathlib.Core.List.{Permᴰ}
use gpu_reservation_controll.Base.{
  ℕ, ◌≡◌, ◌≤◌, ◌<◌, ◌⊎◌, inl, inr, refl, ap, ◌∙◌, String, some, nat_eq, string_eq, option_eq, List,
  [], ◌∷◌, ◌++◌, get, get_or, In, get-collect, bind_at, Distinct, sum_by, leb, ◌+◌, arith,
  Bool-cases,
}
use gpu_reservation_controll.State.{PodRuntimeView}
use gpu_reservation_controll.Preemption.{BoundaryPreemptionNeed, pick_until, select_victims_locally}

module _ {ℓ} {A : Type ℓ} where
  pub In-Perm : {xs ys : List A} (a : A) → Permᴰ xs ys → In a ys → In a xs
  In-Perm a Permᴰ.nil m = m
  In-Perm a (Permᴰ.cons e d) (inl q) = inl (e ∙ q)
  In-Perm a (Permᴰ.cons e d) (inr q) = inr (In-Perm a d q)
  In-Perm a (Permᴰ.swap e f) (inl q) = inr (inl (f ∙ q))
  In-Perm a (Permᴰ.swap e f) (inr (inl q)) = inl (e ∙ q)
  In-Perm a (Permᴰ.swap e f) (inr (inr q)) = inr (inr q)
  In-Perm a (Permᴰ.trans c d) m = In-Perm a c (In-Perm a d m)

  pub sum-Perm : {xs ys : List A} (f : A → ℕ) → Permᴰ xs ys → sum_by f xs ≡ sum_by f ys
  unfolding sum_by
  sum-Perm f Permᴰ.nil = refl
  sum-Perm f (Permᴰ.cons e d) = omega (arith, ap f e, sum-Perm f d)
  sum-Perm f (Permᴰ.swap e g) = omega (arith, ap f e, ap f g)
  sum-Perm f (Permᴰ.trans c d) = sum-Perm f c ∙ sum-Perm f d

abbrev pub gpus : List PodRuntimeView → ℕ
gpus = sum_by (λ p. p.gpu_count)

pub pick_until-In :
    (k acc : ℕ) (xs : List PodRuntimeView) (p : PodRuntimeView)
    → In p (pick_until k acc xs)
    → In p xs
unfolding pick_until
pick_until-In k acc [] p m = m
pick_until-In k acc (x ∷ xs) p m = elim (Bool-cases (leb k acc)) [
  | inl q ↦ absurd (rw q at m).0
  | inr q ↦ further (pick_until-In k (acc + x.gpu_count) xs p) (rw q at m)
]
  where
    further :
        (In p (pick_until k (acc + x.gpu_count) xs) → In p xs)
        → In p (x ∷ pick_until k (acc + x.gpu_count) xs)
        → In p (x ∷ xs)
    further ih (inl e) = inl e
    further ih (inr m) = inr (ih m)

-- The greedy loop stops when the need is covered, or takes the whole pool.
pub pick_until-covers :
    (k acc : ℕ) (xs : List PodRuntimeView)
    → (k ≤ acc + gpus (pick_until k acc xs)) ⊎ (gpus (pick_until k acc xs) ≡ gpus xs)
unfolding pick_until sum_by
pick_until-covers k acc [] = inr refl
pick_until-covers k acc (x ∷ xs) = ground (arith, pick_until-covers k (acc + x.gpu_count) xs)

pub pick_until-le : (k acc : ℕ) (xs : List PodRuntimeView) → gpus (pick_until k acc xs) ≤ gpus xs
unfolding pick_until sum_by
pick_until-le k acc [] = omega arith
pick_until-le k acc (x ∷ xs) = ground (arith, pick_until-le k (acc + x.gpu_count) xs)

cons_parts :
    (x y : PodRuntimeView) (xs ys : List PodRuntimeView)
    → ◌≡◌ {A = List PodRuntimeView} (x ∷ xs) (y ∷ ys)
    → (x ≡ y) × (xs ≡ ys)
cons_parts x y xs ys h = (cc, cc)

pick_until-tight :
    (k acc : ℕ) (xs ys : List PodRuntimeView) (p : PodRuntimeView)
    → pick_until k acc xs ≡ ys ++ p ∷ []
    → acc + gpus ys < k
unfolding pick_until sum_by
pick_until-tight k acc [] [] p h = cc
pick_until-tight k acc [] (y ∷ ys) p h = cc
pick_until-tight k acc (x ∷ xs) [] p h = elim (Bool-cases (leb k acc)) [
  | inl q ↦ cc
  | inr q ↦ ground arith
]
pick_until-tight k acc (x ∷ xs) (y ∷ ys) p h = elim (Bool-cases (leb k acc)) [
  | inl q ↦ stuck (rw q at h)
  | inr q ↦
      let (same, rest) = cons_parts x y _ (ys ++ p ∷ []) (rw q at h) in
      omega (arith, pick_until-tight k (acc + x.gpu_count) xs ys p rest, ap (λ v. v.gpu_count) same)
]
  where
    stuck : [] ≡ y ∷ ys ++ p ∷ [] → acc + gpus (y ∷ ys) < k
    stuck e = cc

pub get-selected :
    (shuffle : String → List PodRuntimeView → List PodRuntimeView) (need : BoundaryPreemptionNeed)
    (c : String)
    → Distinct need.kills_needed_by_class
    → get c (select_victims_locally shuffle need)
      ≡ bind_at
          (get c need.kills_needed_by_class)
          (λ k. some (pick_until k 0 (shuffle c (get_or c need.candidates_by_class []))))
unfolding select_victims_locally
get-selected shuffle need c unique = get-collect _ c need.kills_needed_by_class unique

-- Each victim that the local selection takes of a class is taken while the need of the class is not
-- covered: without the last one, the victims hold fewer GPUs than are needed. The needs are a
-- dictionary.
pub select_victims_locally-tight :
    (shuffle : String → List PodRuntimeView → List PodRuntimeView) (need : BoundaryPreemptionNeed)
    (c : String) (k : ℕ) (ys : List PodRuntimeView) (p : PodRuntimeView)
    → Distinct need.kills_needed_by_class
    → get c need.kills_needed_by_class ≡ some k
    → get c (select_victims_locally shuffle need) ≡ some (ys ++ p ∷ [])
    → gpus ys < k
select_victims_locally-tight shuffle need c k ys p unique h found =
    let pool = shuffle c (get_or c need.candidates_by_class []) in
    omega (
      arith,
      pick_until-tight k 0 pool ys p (ground (arith, get-selected shuffle need c unique, h, found)),
    )
