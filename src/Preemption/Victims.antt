-- ===== src/Preemption/Victims.antt =====
-- The victims that app/controller.py plans at a boundary, and what they leave unmet.
use mathlib.Core.List.{Permᴰ}
use gpu_reservation_controll.Base.{
  Bool, Bool-cases, Dict, Distinct, In, In-append, In-get, In-keep, List, Option-cases, Permᴰ,
  String, [], ap, arith, bind_at, collect-Distinct, false, get, get-collect, get_or, if◌then◌else◌,
  inl, inr, insert, insert-Distinct, is_none, keep, keep_agree, ltb, nat_eq, none, not, option_eq,
  refl, some, string_eq, subst, sum_by, sym, true, ℕ, ℤ, ◌&&◌, ◌+◌, ◌-◌, ◌<◌, ◌==◌, ◌∷◌, ◌≡◌, ◌⊎◌,
}
use gpu_reservation_controll.Schemas.{ReservationResponse}
use gpu_reservation_controll.State.{ControllerState, PodRuntimeView, pod_eq}
use gpu_reservation_controll.Matching.{effective_label}
use gpu_reservation_controll.Guarantee.{past_guarantee}
use gpu_reservation_controll.Capacity.{free_capacity_by_class}
use gpu_reservation_controll.Preemption.{
  BoundaryPreemptionNeed, PreemptionPlan, add_demand, all_picked, boundary_demand,
  build_preemption_plan, chained_gpus, demand_loop, headroom_pool, is_eligible, need_of, opens_at,
  overstay_gpus, pick_until, plan_boundary_candidates, plan_boundary_preemption,
  select_victims_locally, shortfall_of, unless_zero, unmet_of,
}
use gpu_reservation_controll.Preemption.Selection.{
  In-Perm, get-selected, gpus, pick_until-In, pick_until-covers, pick_until-le, sum-Perm,
}

-- A pod of a class that preemption may end: admitted by the controller, resident on a node that
-- counts, not terminating, with a GPU, and past its guarantee.
abbrev pub can_end : ControllerState → ℕ → String → PodRuntimeView → Bool
can_end s now gpu_class p =
    past_guarantee s p.reservation_id now
    && (not (is_none p.reservation_id)
        && (p.gpu_class == gpu_class
            && (p.node_resident
                && (not p.node_excluded && (not p.terminating && ltb 0 p.gpu_count)))))

module _ (s : ControllerState) (now boundary : ℕ) where
  add_demand-cases :
      (chained : Dict ℕ ℕ) (r : ReservationResponse) (demand : Dict String ℕ)
      → (add_demand s now chained r demand ≡ demand)
        ⊎ ((l : String) × (n : ℕ) × (add_demand s now chained r demand ≡ insert l n demand))
  unfolding add_demand
  add_demand-cases chained r demand = elim (Option-cases (effective_label s r)) [
    | inl q ↦ inl (ground (arith, q))
    | inr (l, q) ↦ elim (Bool-cases (need_of s now chained r == 0)) [
      | inl z ↦ inl (ground (arith, q, z))
      | inr z ↦ inr (l, get_or l demand 0 + need_of s now chained r, ground (arith, q, z))
    ]
  ]

  add_demand-Distinct :
      (chained : Dict ℕ ℕ) (r : ReservationResponse) (demand : Dict String ℕ)
      → Distinct demand
      → Distinct (add_demand s now chained r demand)
  add_demand-Distinct chained r demand h = elim (add_demand-cases chained r demand) [
    | inl q ↦ subst Distinct (sym q) h
    | inr (l, n, q) ↦ subst Distinct (sym q) (insert-Distinct l n demand h)
  ]

  demand_loop-Distinct :
      (chained : Dict ℕ ℕ) (rs : List ReservationResponse) (demand : Dict String ℕ)
      → Distinct demand
      → Distinct (demand_loop s now boundary chained rs demand)
  unfolding demand_loop
  demand_loop-Distinct chained [] demand h = h
  demand_loop-Distinct chained (r ∷ rs) demand h =
      demand_loop-Distinct chained rs _ (elim (Bool-cases (opens_at s now boundary r)) [
        | inl q ↦ rw q (add_demand-Distinct chained r demand h)
        | inr q ↦ rw q h
      ])

  boundary_demand-Distinct :
      (pods : List PodRuntimeView) → Distinct (boundary_demand s now boundary pods)
  unfolding boundary_demand
  boundary_demand-Distinct pods =
      demand_loop-Distinct (chained_gpus s now pods []) s.reservations [] tt

module _ (s : ControllerState) (shuffle : String → List PodRuntimeView → List PodRuntimeView)
    (boundary : ℕ) (capacity_by_class : Dict String ℕ) (pods : List PodRuntimeView) (now : ℕ) where
  abbrev need : BoundaryPreemptionNeed
  need = plan_boundary_candidates s boundary capacity_by_class pods now

  abbrev selected : Dict String (List PodRuntimeView)
  selected = select_victims_locally shuffle need

  abbrev free : Dict String ℤ
  free = free_capacity_by_class capacity_by_class pods

  get-kills :
      (c : String)
      → get c need.kills_needed_by_class
        ≡ bind_at
            (get c (boundary_demand s now boundary pods))
            (λ n. unless_zero (shortfall_of free c n))
  unfolding plan_boundary_candidates
  get-kills c = get-collect _ c _ (boundary_demand-Distinct s now boundary pods)

  get-candidates :
      (c : String)
      → get c need.candidates_by_class
        ≡ bind_at
            (get c (boundary_demand s now boundary pods))
            (λ n. if shortfall_of free c n == 0 then none else some (headroom_pool s now c pods))
  unfolding plan_boundary_candidates headroom_pool
  get-candidates c = get-collect _ c _ (boundary_demand-Distinct s now boundary pods)

  kills-Distinct : Distinct need.kills_needed_by_class
  unfolding plan_boundary_candidates
  kills-Distinct = collect-Distinct _ _ (boundary_demand-Distinct s now boundary pods)

  candidates-found :
      (c : String) (k : ℕ)
      → get c need.kills_needed_by_class ≡ some k
      → get_or c need.candidates_by_class [] ≡ headroom_pool s now c pods
  unfolding get_or
  candidates-found c k h = elim (Option-cases (get c (boundary_demand s now boundary pods))) [
    | inl q ↦ ground (arith, get-kills c, get-candidates c, h, q)
    | inr (n, q) ↦ ground (arith, get-kills c, get-candidates c, h, q)
  ]

  selected-found :
      (c : String) (k : ℕ)
      → get c need.kills_needed_by_class ≡ some k
      → get_or c selected [] ≡ pick_until k 0 (shuffle c (headroom_pool s now c pods))
  unfolding get_or
  selected-found c k h = ground (
    arith,
    get-selected shuffle need c kills-Distinct,
    h,
    ap (λ xs. pick_until k 0 (shuffle c xs)) (candidates-found c k h),
  )

  abbrev plan : PreemptionPlan
  plan = plan_boundary_preemption s shuffle boundary capacity_by_class pods now

  victims-selected : plan.victims ≡ all_picked selected need.kills_needed_by_class
  unfolding plan_boundary_preemption build_preemption_plan
  victims-selected = refl

  get-unmet :
      (c : String)
      → get c plan.unmet_by_class ≡ bind_at (get c need.kills_needed_by_class) (unmet_of selected c)
  unfolding plan_boundary_preemption build_preemption_plan
  get-unmet c = get-collect (unmet_of selected) c need.kills_needed_by_class kills-Distinct

  all_picked-In :
      (p : PodRuntimeView) (kills : Dict String ℕ)
      → In p (all_picked selected kills)
      → (c : String) × (k : ℕ) × In (c, k) kills × In p (get_or c selected [])
  unfolding all_picked
  all_picked-In p [] m = absurd m.0
  all_picked-In p ((c, k) ∷ kills) m = elim (In-append (get_or c selected []) _ p m) [
    | inl here ↦ (c, k, inl refl, here)
    | inr there ↦
        let (d, l, listed, picked) = all_picked-In p kills there in (d, l, inr listed, picked)
  ]

  eligible :
      (c : String) (p : PodRuntimeView)
      → is_eligible s now c p ≡ true
      → (is_none p.reservation_id ≡ false)
        × (p.node_resident ≡ true)
        × (p.node_excluded ≡ false)
        × (p.terminating ≡ false)
        × (0 < p.gpu_count)
        × (past_guarantee s p.reservation_id now ≡ true)
  unfolding is_eligible
  eligible c p h =
      (ground arith, ground arith, ground arith, ground arith, ground arith, ground arith)

  pool-In :
      (c : String) (p : PodRuntimeView)
      → In p (headroom_pool s now c pods)
      → In p pods × (is_eligible s now c p ≡ true)
  unfolding headroom_pool
  pool-In c p m = In-keep (is_eligible s now c) pods p m

  module _ (shuffled : (c : String) (xs : List PodRuntimeView) → Permᴰ xs (shuffle c xs)) where
    -- When shuffling permutes the pool, every victim of a plan is one of the pods, was admitted by
    -- the controller, is resident on a node that counts, is not terminating, holds a GPU, and is
    -- past its guarantee.
    pub plan_boundary_preemption-spares :
        (p : PodRuntimeView)
        → In p plan.victims
        → In p pods
          × (is_none p.reservation_id ≡ false)
          × (p.node_resident ≡ true)
          × (p.node_excluded ≡ false)
          × (p.terminating ≡ false)
          × (0 < p.gpu_count)
          × (past_guarantee s p.reservation_id now ≡ true)
    plan_boundary_preemption-spares p m =
        let (c, k, listed, picked) =
          all_picked-In p need.kills_needed_by_class (subst (In p) victims-selected m) in
        let found = In-get c k need.kills_needed_by_class kills-Distinct listed in
        let pooled = pick_until-In k 0 _ p (subst (In p) (selected-found c k found) picked) in
        let (listed', test) = pool-In c p (In-Perm p (shuffled c _) pooled) in
        let (admitted, resident, counted, living, holds, past) = eligible c p test in
        (listed', admitted, resident, counted, living, holds, past)

    abbrev pool_gpus : String → ℕ
    pool_gpus c = sum_by (λ p. p.gpu_count) (keep (can_end s now c) pods)

    pool_gpus-overstay : (c : String) → pool_gpus c ≡ overstay_gpus s now c pods
    unfolding overstay_gpus headroom_pool
    pool_gpus-overstay c =
        ap (sum_by (λ p. p.gpu_count))
          (keep_agree (can_end s now c) (is_eligible s now c) same_test pods)
      where
        same_test : (p : PodRuntimeView) → can_end s now c p ≡ is_eligible s now c p
        same_test p = unfold is_eligible in ground arith

    unmet-residual :
        (c : String) (k : ℕ)
        → get c need.kills_needed_by_class ≡ some k
        → unmet_of selected c k ≡ (if ltb (pool_gpus c) k then some (k - pool_gpus c) else none)
    unfolding unmet_of overstay_gpus
    unmet-residual c k h = rw (pool_gpus-overstay c) (
        let pool = headroom_pool s now c pods in
        ground (
          arith,
          ap gpus (selected-found c k h),
          sum-Perm (λ p. p.gpu_count) (shuffled c pool),
          pick_until-covers k 0 (shuffle c pool),
          pick_until-le k 0 (shuffle c pool),
        ))

    -- When shuffling permutes the pool, a plan leaves unmet, for a class with demand, exactly the
    -- shortfall less the GPUs of those of its pods that preemption may end, and no entry when these
    -- cover it or there is no demand for the class. It may end a pod that was admitted by the
    -- controller, is resident on a node that counts, is not terminating, holds a GPU, and is past
    -- its guarantee.
    pub plan_boundary_preemption-unmet :
        (c : String)
        → get c plan.unmet_by_class
          ≡ bind_at (get c (boundary_demand s now boundary pods)) (λ n.
            let k = shortfall_of free c n in
            if ltb (pool_gpus c) k then some (k - pool_gpus c) else none)
    plan_boundary_preemption-unmet c =
        elim (Option-cases (get c (boundary_demand s now boundary pods))) [
          | inl q ↦ rw q (ground (arith, get-unmet c, get-kills c, q))
          | inr (n, q) ↦ elim (Bool-cases (shortfall_of free c n == 0)) [
            | inl z ↦ rw q (ground (arith, get-unmet c, get-kills c, q, z))
            | inr z ↦ rw q (residual n (needed n q z))
          ]
        ]
      where
        needed :
            (n : ℕ)
            → get c (boundary_demand s now boundary pods) ≡ some n
            → (shortfall_of free c n == 0) ≡ false
            → get c need.kills_needed_by_class ≡ some (shortfall_of free c n)
        needed n q z = ground (arith, get-kills c, q, z)

        residual :
            (n : ℕ)
            → get c need.kills_needed_by_class ≡ some (shortfall_of free c n)
            → get c plan.unmet_by_class ≡ (
                if ltb (pool_gpus c) (shortfall_of free c n)
                then some (shortfall_of free c n - pool_gpus c)
                else none)
        residual n h = ground (arith, get-unmet c, h, unmet-residual c (shortfall_of free c n) h)
