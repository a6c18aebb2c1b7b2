-- ===== src/Capacity/Audit.antt =====
-- The audit of `reconcile_capacity`: which classes the app counts more GPUs of than there are.
use gpu_reservation_controll.Base.{
  Bool, Bool-cases, Dict, List, Permᴰ, String, [], add, ap, arith, contains, contains-Perm,
  contains-add, contains-union, eq_self, false, get_or, has_key, if◌then◌else◌, inl, inr, keys, ltb,
  nat_eq, none, option_eq, refl, some, string_eq, subst, union, ℕ, ◌&&◌, ◌++◌, ◌==◌, ◌||◌, ◌∷◌, ◌≡◌,
}
use gpu_reservation_controll.Capacity.{
  CapacityDiff, capacity_diff, overcommitted, reconcile_capacity, walk_labels,
}

contains-keys : (a : String) (d : Dict String ℕ) → contains a (keys d) ≡ has_key a d
unfolding contains has_key
contains-keys a [] = refl
contains-keys a ((k, v) ∷ d) = ground (arith, contains-keys a d)

module _ (app_side physical : Dict String ℕ) where
  abbrev exceeds : String → Bool
  exceeds label = has_key label app_side && ltb (get_or label physical 0) (get_or label app_side 0)

  abbrev step_over : String → List CapacityDiff × List String → List CapacityDiff × List String
  step_over label (diffs, over) = elim (capacity_diff app_side physical label) [
    | none ↦ (diffs, over)
    | some d ↦ (
      diffs ++ d ∷ [],
      (if has_key label app_side && overcommitted d then add label over else over),
    )
  ]

  step_over-adds :
      (label : String) (diffs : List CapacityDiff) (over : List String)
      → (step_over label (diffs, over)).1 ≡ (if exceeds label then add label over else over)
  unfolding capacity_diff overcommitted
  step_over-adds label diffs over = ground arith

  exceeds_at :
      (label l : String) (b : Bool)
      → (exceeds label && ((label == l) || b))
        ≡ (((label == l) && exceeds l) || (exceeds label && b))
  exceeds_at label l b = elim (Bool-cases (label == l)) [
    | inl q ↦
        subst
          (λ z.
            (exceeds label && ((label == z) || b))
            ≡ (((label == z) && exceeds z) || (exceeds label && b)))
          ((string_eq.beq_iff label l).0 q) (ground (arith, eq_self label))
    | inr q ↦ ground (arith, q)
  ]

  walk_labels-over :
      (l : String) (labels : List String) (diffs : List CapacityDiff) (over : List String)
      → contains l (walk_labels app_side physical labels (diffs, over)).1
        ≡ (contains l over || (contains l labels && exceeds l))
  unfolding walk_labels contains
  walk_labels-over l [] diffs over = ground arith
  walk_labels-over l (label ∷ labels) diffs over = ground (
    arith,
    walk_labels-over l labels (step_over label (diffs, over)).0 (step_over label (diffs, over)).1,
    step_over-adds label diffs over,
    ap (contains l) (step_over-adds label diffs over),
    contains-add label l over,
    exceeds_at label l (contains l over),
  )

  -- When sorting permutes the labels, the over-committed classes of the audit are exactly those that
  -- the app counts and of which it counts more GPUs than the physical count, 0 where there is none.
  pub reconcile_capacity-over :
      (sort : List String → List String)
      → ((labels : List String) → Permᴰ labels (sort labels))
      → (l : String) → contains l (reconcile_capacity sort app_side physical).1 ≡ exceeds l
  reconcile_capacity-over sort sorted l =
      let labels = union (union [] (keys app_side)) (keys physical) in
      ground (
        arith,
        walked,
        walk_labels-over l (sort labels) [] [],
        nowhere,
        contains-Perm l (sorted labels),
        contains-union l (union [] (keys app_side)) (keys physical),
        contains-union l [] (keys app_side),
        contains-keys l app_side,
      )
    where
      walked :
          contains l (reconcile_capacity sort app_side physical).1
          ≡ contains l
              (walk_labels app_side physical
                (sort (union (union [] (keys app_side)) (keys physical)))
                ([], [])).1
      walked = unfold reconcile_capacity in refl

      nowhere : contains l [] ≡ false
      nowhere = unfold contains in refl
