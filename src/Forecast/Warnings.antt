-- ===== src/Forecast/Warnings.antt =====
-- When app/controller.py warns a pod that a booking may end it.
use gpu_reservation_controll.Base.{
  Bool-cases, Dict, In, In-append, In-keep, In-sort_by, List, Option, Option-cases, String, [], all,
  ap, arith, false, get, get-insert, get_or, get_or-insert, has_key, has_key-get, if◌then◌else◌,
  inl, inr, insert, is_none, keep, nat_eq, none, option_eq, refl, some, some-injective, sort_by,
  string_eq, subst, sym, true, ℕ, ℤ, ◌++◌, ◌-◌, ◌==◌, ◌∙◌, ◌∷◌, ◌≡◌, ◌≤◌, ◌⊎◌,
}
use gpu_reservation_controll.State.{ControllerState, PodRuntimeView, pod_eq}
use gpu_reservation_controll.Forecast.ByUid.{IsOf, get-by_uid, has_key-by_uid}
use gpu_reservation_controll.Capacity.{free_capacity_by_class}
use gpu_reservation_controll.Guarantee.{guarantee_end}
use gpu_reservation_controll.Forecast.{
  ForecastBoundaryNeed, Ratio, TerminationWarning, by_class, forecast_boundary_need, guarantee_ends,
  is_at_risk, kill_instant, kill_start, lapsed, lapses_by, plan_termination_warnings,
  warn_boundaries, warn_classes, warn_pool,
}

In-by_class :
    (c : String) (ps : List PodRuntimeView) (pools : Dict String (List PodRuntimeView))
    (p : PodRuntimeView)
    → In p (get_or c (by_class ps pools) [])
    → In p (get_or c pools []) ⊎ In p ps
unfolding by_class
In-by_class c [] pools p m = inl m
In-by_class c (q ∷ ps) pools p m = elim (In-by_class c ps _ p m) [
  | inl k ↦ in_first (Bool-cases (q.gpu_class == c)) (
      subst (In p) (get_or-insert q.gpu_class c (get_or q.gpu_class pools [] ++ q ∷ []) [] pools) k)
  | inr k ↦ inr (inr k)
]
  where
    first_of :
        In p (get_or q.gpu_class pools []) ⊎ In p (q ∷ [])
        → (q.gpu_class ≡ c)
        → In p (get_or c pools []) ⊎ In p (q ∷ ps)
    first_of (inl k) same = inl (subst (λ z. In p (get_or z pools [])) same k)
    first_of (inr (inl k)) same = inr (inl k)
    first_of (inr (inr k)) same = absurd k.0

    in_first :
        ((q.gpu_class == c) ≡ true) ⊎ ((q.gpu_class == c) ≡ false)
        → In p
            (if q.gpu_class == c then get_or q.gpu_class pools [] ++ q ∷ [] else get_or c pools [])
        → In p (get_or c pools []) ⊎ In p (q ∷ ps)
    in_first (inl e) k =
        first_of (In-append (get_or q.gpu_class pools []) (q ∷ []) p (rw e at k))
          ((string_eq.beq_iff q.gpu_class c).0 e)
    in_first (inr e) k = inl (rw e at k)

-- A warning of a listed pod at a boundary by which its guarantee is over.
record IsDue (pods : List PodRuntimeView) (ends : Dict String (Option ℕ)) (lead : ℕ) (bs : List ℕ)
    (uid : String) (w : TerminationWarning) : Type 0 where
  at_boundary : ℕ
  listed : In w.view pods
  named : w.view.uid ≡ uid
  ahead : In at_boundary bs
  bounded : w.boundary ≡ some at_boundary
  risks : is_at_risk ends at_boundary w.view ≡ true
  timed : w.terminate_at ≡ kill_start ends lead at_boundary w.view

module _ (pods : List PodRuntimeView) (ends : Dict String (Option ℕ)) (lead : ℕ) where
  -- Every entry is due at one of the boundaries.
  AllDue : List ℕ → Dict String TerminationWarning → Type 0
  AllDue bs warnings =
      (uid : String) (w : TerminationWarning)
      → get uid warnings ≡ some w
      → IsDue pods ends lead bs uid w

  warn_pool-AllDue :
      (bs : List ℕ) (boundary : ℕ) (risk : Ratio) (ps : List PodRuntimeView)
      (warnings : Dict String TerminationWarning)
      → In boundary bs
      → ((p : PodRuntimeView) → In p ps → In p pods × (is_at_risk ends boundary p ≡ true))
      → AllDue bs warnings
      → AllDue bs (warn_pool ends lead boundary risk ps warnings)
  unfolding warn_pool AllDue
  warn_pool-AllDue bs boundary risk [] warnings m pool due = due
  warn_pool-AllDue bs boundary risk (p ∷ ps) warnings m pool due =
      warn_pool-AllDue bs boundary risk ps _ m (λ q k. pool q (inr k)) stored
    where
      warning : TerminationWarning
      warning = record {
        view = p;
        terminate_at = kill_start ends lead boundary p;
        risk = risk;
        boundary = some boundary;
      }

      its_own : (uid : String) → p.uid ≡ uid → IsDue pods ends lead bs uid warning
      its_own uid same = record {
        at_boundary = boundary;
        listed = (pool p (inl refl)).0;
        named = same;
        ahead = m;
        bounded = refl;
        risks = (pool p (inl refl)).1;
        timed = refl;
      }

      inserted : AllDue bs (insert p.uid warning warnings)
      inserted uid w h = elim (Bool-cases (p.uid == uid)) [
        | inl e ↦
            subst (IsDue pods ends lead bs uid)
              (some-injective _ _ (rw (get-insert p.uid uid warning warnings, e) at h))
              (its_own uid ((string_eq.beq_iff p.uid uid).0 e))
        | inr e ↦ due uid w (rw (get-insert p.uid uid warning warnings, e) at h)
      ]

      stored :
          AllDue bs (if has_key p.uid warnings then warnings else insert p.uid warning warnings)
      stored = elim (Bool-cases (has_key p.uid warnings)) [
        | inl e ↦ rw e due
        | inr e ↦ rw e inserted
      ]

  warn_classes-AllDue :
      (bs : List ℕ) (need : ForecastBoundaryNeed) (kills : Dict String ℕ)
      (warnings : Dict String TerminationWarning)
      → In need.boundary bs
      → ((c : String) (p : PodRuntimeView)
          → In p (get_or c need.eligible_by_class [])
          → In p pods × (is_at_risk ends need.boundary p ≡ true))
      → AllDue bs warnings
      → AllDue bs (warn_classes ends lead need kills warnings)
  unfolding warn_classes AllDue
  warn_classes-AllDue bs need [] warnings m pools due = due
  warn_classes-AllDue bs need ((c, shortfall) ∷ kills) warnings m pools due =
      warn_classes-AllDue bs need kills _ m pools
        (elim (Bool-cases (get_or c need.pool_gpus_by_class 0 == 0)) [
          | inl e ↦ rw e due
          | inr e ↦ rw e (warn_pool-AllDue bs need.boundary _ _ warnings m (pools c) due)
        ])

  forecast_pool :
      (s : ControllerState) (b : ℕ) (free : Dict String ℤ) (now : ℕ) (c : String)
      (p : PodRuntimeView)
      → In p (get_or c (forecast_boundary_need s b free pods now ends).eligible_by_class [])
      → In p pods
        × (is_at_risk ends (forecast_boundary_need s b free pods now ends).boundary p ≡ true)
  unfolding forecast_boundary_need
  forecast_pool s b free now c p m = elim (In-by_class c (keep (is_at_risk ends b) pods) [] p m) [
    | inl k ↦ absurd (empty_pool k)
    | inr k ↦ In-keep (is_at_risk ends b) pods p k
  ]
    where
      none_listed : get_or {V = List PodRuntimeView} c [] [] ≡ []
      none_listed = unfold get_or get in refl

      no_pod : In p [] → ⊥
      no_pod k = k.0

      empty_pool : In p (get_or c [] []) → ⊥
      empty_pool k = no_pod (subst (In p) none_listed k)

  warn_boundaries-AllDue :
      (s : ControllerState) (free : Dict String ℤ) (now : ℕ) (all bs : List ℕ)
      (warnings : Dict String TerminationWarning)
      → ((b : ℕ) → In b bs → In b all)
      → AllDue all warnings
      → AllDue all (warn_boundaries s free pods now lead ends bs warnings)
  unfolding warn_boundaries
  warn_boundaries-AllDue s free now all [] warnings sub due = due
  warn_boundaries-AllDue s free now all (b ∷ bs) warnings sub due =
      warn_boundaries-AllDue s free now all bs _ (λ c m. sub c (inr m))
        (warn_classes-AllDue all (forecast_boundary_need s b free pods now ends)
          (forecast_boundary_need s b free pods now ends).kills_needed_by_class warnings
          (unfold forecast_boundary_need in sub b (inl refl))
          (λ c p m. forecast_pool s b free now c p m) due)

get_or-found :
    (k : String) (d : Dict String (Option ℕ)) (v : Option ℕ)
    → get k d ≡ some v
    → get_or k d none ≡ v
unfolding get_or
get_or-found k d v e = ap (λ o. elim o [ none ↦ none | some x ↦ x ]) e

-- Where no two pods have one uid, the map has the end of a pod's guarantee.
guarantee_ends-exact :
    (s : ControllerState) (now : ℕ) (pods : List PodRuntimeView) (p : PodRuntimeView)
    → ((q r : PodRuntimeView) → In q pods → In r pods → q.uid ≡ r.uid → q ≡ r)
    → In p pods
    → is_none p.reservation_id ≡ false
    → get_or p.uid (guarantee_ends s now pods) none ≡ guarantee_end s p.reservation_id now
unfolding guarantee_ends IsOf
guarantee_ends-exact s now pods p unique m h =
    elim (Option-cases (get p.uid (guarantee_ends s now pods))) [
      | inl e ↦ absurd (missing e (has_key-by_uid _ pods [] p m h))
      | inr (end, e) ↦
          let (q, k, same, eq) = get-by_uid _ pods p.uid end e in
          get_or-found p.uid _ end e
          ∙ sym eq
          ∙ ap (λ z. guarantee_end s z.reservation_id now) (unique q p k m same)
    ]
  where
    missing :
        get p.uid (guarantee_ends s now pods) ≡ none
        → has_key p.uid (guarantee_ends s now pods) ≡ true
        → ⊥
    missing e k = ground (arith, has_key-get p.uid (guarantee_ends s now pods), e, k)

kill_instant-within :
    (end : Option ℕ) (lead boundary : ℕ)
    → lapsed end boundary ≡ true
    → (boundary - lead ≤ kill_instant end lead boundary)
      × (kill_instant end lead boundary ≤ boundary)
      × ((end ≡ none) ⊎ ((e : ℕ) × (end ≡ some e) × (e ≤ kill_instant end lead boundary)))
unfolding kill_instant lapsed
kill_instant-within none lead boundary h = (omega arith, omega arith, inl refl)
kill_instant-within (some end) lead boundary h =
    (ground arith, ground arith, inr (end, refl, ground arith))

kill_start-end :
    (ends : Dict String (Option ℕ)) (lead boundary : ℕ) (p : PodRuntimeView) {end : Option ℕ}
    → get_or p.uid ends none ≡ end
    → kill_start ends lead boundary p ≡ kill_instant end lead boundary
unfolding kill_start
kill_start-end ends lead boundary p e = ap (λ o. kill_instant o lead boundary) e

is_at_risk-facts :
    (ends : Dict String (Option ℕ)) (boundary : ℕ) (p : PodRuntimeView)
    → is_at_risk ends boundary p ≡ true
    → (is_none p.reservation_id ≡ false) × (lapsed (get_or p.uid ends none) boundary ≡ true)
unfolding is_at_risk lapses_by
is_at_risk-facts ends boundary p h = (ground (arith, h), ground (arith, h))

-- A pod is warned of a boundary that is listed, for an instant that is neither after the boundary
-- nor sooner before it than the lead, and never one at which its guarantee still runs. No two pods
-- have one uid.
pub plan_termination_warnings-due :
    (s : ControllerState) (boundaries : List ℕ) (capacity : Dict String ℕ)
    (pods : List PodRuntimeView) (now lead : ℕ) (uid : String) (w : TerminationWarning)
    → ((q r : PodRuntimeView) → In q pods → In r pods → q.uid ≡ r.uid → q ≡ r)
    → get uid (plan_termination_warnings s boundaries capacity pods now lead) ≡ some w
    → (b : ℕ) × In b boundaries
      × (w.boundary ≡ some b)
      × In w.view pods
      × (w.view.uid ≡ uid)
      × (b - lead ≤ w.terminate_at)
      × (w.terminate_at ≤ b)
      × ((guarantee_end s w.view.reservation_id now ≡ none)
          ⊎ ((end : ℕ) × (guarantee_end s w.view.reservation_id now ≡ some end)
              × (end ≤ w.terminate_at)))
unfolding plan_termination_warnings AllDue
plan_termination_warnings-due s boundaries capacity pods now lead uid w unique h =
    let due =
      warn_boundaries-AllDue pods ends lead s (free_capacity_by_class capacity pods) now boundaries
        (sort_by (λ t. t) boundaries) [] (λ b m. In-sort_by (λ t. t) boundaries b m)
        (λ v x e. absurd (no_entry v x e)) uid w h in
    let (reserved, over) = is_at_risk-facts ends due.at_boundary w.view due.risks in
    let known = guarantee_ends-exact s now pods w.view unique due.listed reserved in
    let (low, high, after) =
      kill_instant-within (guarantee_end s w.view.reservation_id now) lead due.at_boundary
        (subst (λ o. lapsed o due.at_boundary ≡ true) known over) in
    let timed = due.timed ∙ kill_start-end ends lead due.at_boundary w.view known in
    (
      due.at_boundary,
      due.ahead,
      due.bounded,
      due.listed,
      due.named,
      subst (λ t. due.at_boundary - lead ≤ t) (sym timed) low,
      subst (λ t. t ≤ due.at_boundary) (sym timed) high,
      elim after [
        | inl gone ↦ inl gone
        | inr (end, known_end, le) ↦ inr (end, known_end, subst (λ t. end ≤ t) (sym timed) le)
      ],
    )
  where
    none_found : (x : TerminationWarning) → none ≡ some x → ⊥
    none_found x e = cc

    ends : Dict String (Option ℕ)
    ends = guarantee_ends s now pods

    no_entry : (v : String) (x : TerminationWarning) → get v [] ≡ some x → ⊥
    no_entry v x e = none_found x (unfold get in e)
