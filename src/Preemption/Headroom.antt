-- ===== src/Preemption/Headroom.antt =====
-- The headroom goal of app/controller.py and the pods that may be ended for it.
use gpu_reservation_controll.Base.{
  ℕ, ◌≡◌, ◌≤◌, ◌↔◌, refl, subst, inl, inr, String, some, Bool, true, string_eq, nat_eq, List, Dict,
  get, In, In-keep, get-collect, bind_at, Distinct, collect-Distinct, keep, ◌*◌, arith,
  Option-cases,
}
use gpu_reservation_controll.State.{ControllerState, PodRuntimeView}
use gpu_reservation_controll.Guarantee.{past_guarantee}
use gpu_reservation_controll.Capacity.{free_capacity_by_class}
use gpu_reservation_controll.Preemption.{
  BoundaryPreemptionNeed, is_eligible, headroom_pool, headroom_target, headroom_shortfall_by_class,
  shortfall_of, unless_zero, notice_elapsed, headroom_candidates, plan_headroom_candidates,
}

-- A number of GPUs reaches the target of a class exactly when it is at least the given share of the
-- capacity, in percent.
pub headroom_target-least :
    (percent capacity n : ℕ)
    → (headroom_target percent capacity ≤ n) ↔ (capacity * percent ≤ n * 100)
unfolding headroom_target
headroom_target-least percent capacity n = (λ h. omega arith, λ h. omega arith)

module _ (s : ControllerState) (capacity_by_class : Dict String ℕ) (pods : List PodRuntimeView)
    (now percent : ℕ) (notice : Bool) where
  abbrev need : BoundaryPreemptionNeed
  need = plan_headroom_candidates s capacity_by_class pods now percent notice

  get-kills :
      (c : String)
      → Distinct capacity_by_class
      → get c need.kills_needed_by_class
        ≡ bind_at (get c capacity_by_class) (λ n. unless_zero (
            shortfall_of
              (free_capacity_by_class capacity_by_class pods)
              c
              (headroom_target percent n)))
  unfolding plan_headroom_candidates headroom_shortfall_by_class
  get-kills c unique = get-collect _ c capacity_by_class unique

  get-candidates :
      (c : String)
      → Distinct capacity_by_class
      → get c need.candidates_by_class
        ≡ bind_at
            (get c need.kills_needed_by_class)
            (λ k. some (headroom_candidates s pods now notice c))
  unfolding plan_headroom_candidates headroom_shortfall_by_class
  get-candidates c unique = get-collect _ c _ (collect-Distinct _ capacity_by_class unique)

module _ (s : ControllerState) (capacity_by_class : Dict String ℕ) (pods : List PodRuntimeView)
    (now percent : ℕ) where
  candidate-cases :
      (c : String) (xs : List PodRuntimeView)
      → Distinct capacity_by_class
      → get c (need s capacity_by_class pods now percent true).candidates_by_class ≡ some xs
      → xs ≡ keep (notice_elapsed now) (headroom_pool s now c pods)
  candidate-cases c xs unique h =
      elim (Option-cases
        (get c (need s capacity_by_class pods now percent true).kills_needed_by_class)) [
          | inl q ↦
              ground
                (arith, get-candidates s capacity_by_class pods now percent true c unique, q, h)
          | inr (k, q) ↦ ground (
            arith,
            get-candidates s capacity_by_class pods now percent true c unique,
            q,
            h,
            elapsed,
          )
        ]
    where
      elapsed :
          headroom_candidates s pods now true c
          ≡ keep (notice_elapsed now) (headroom_pool s now c pods)
      elapsed = unfold headroom_candidates in refl

  elapsed-at :
      (p : PodRuntimeView)
      → notice_elapsed now p ≡ true
      → (at : ℕ) × (p.termination_warning_at ≡ some at) × (at ≤ now)
  unfolding notice_elapsed
  elapsed-at p h = elim (Option-cases p.termination_warning_at) [
    | inl q ↦ ground (arith, q)
    | inr (at, q) ↦ (at, q, ground (arith, q))
  ]

  pool-past :
      (c : String) (p : PodRuntimeView)
      → In p (headroom_pool s now c pods)
      → In p pods × (past_guarantee s p.reservation_id now ≡ true)
  unfolding headroom_pool is_eligible
  pool-past c p m =
      let (listed, test) = In-keep (is_eligible s now c) pods p m in (listed, ground arith)

  -- Where notice is required, a headroom candidate of a class is one of the pods, is past its
  -- guarantee, and was warned of a time that has come. The capacities are a dictionary.
  pub plan_headroom_candidates-gives_notice :
      (c : String) (xs : List PodRuntimeView) (p : PodRuntimeView)
      → Distinct capacity_by_class
      → get c
          (plan_headroom_candidates s capacity_by_class pods now percent true).candidates_by_class
        ≡ some xs
      → In p xs
      → In p pods
        × (past_guarantee s p.reservation_id now ≡ true)
        × ((at : ℕ) × (p.termination_warning_at ≡ some at) × (at ≤ now))
  plan_headroom_candidates-gives_notice c xs p unique h m =
      let (pooled, warned) =
        In-keep (notice_elapsed now) (headroom_pool s now c pods) p
          (subst (In p) (candidate-cases c xs unique h) m) in
      let (listed, past) = pool-past c p pooled in (listed, past, elapsed-at p warned)
