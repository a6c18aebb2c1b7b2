-- ===== src/Preemption/Demand.antt =====
-- The GPUs that app/controller.py still needs for the bookings that open at a boundary.
use gpu_reservation_controll.Base.{
  ℕ, ◌≡◌, refl, subst, sym, ◌⊎◌, String, none, some, false, ◌==◌, nat_eq, string_eq, option_eq, Eq,
  ◌&&◌, List, [], ◌∷◌, ◌++◌, map, Dict, insert, get_or, get_or-insert, contains, contains-append,
  add, union, sum_by, if◌then◌else◌, ◌+◌, ◌-◌, inl, inr, arith, Bool-cases, Option-cases, is_none,
  not, sum_by-ext, ◌∙◌,
}
use gpu_reservation_controll.Schemas.{is_booking, ReservationResponse}
use gpu_reservation_controll.State.{ControllerState, PodRuntimeView}
use gpu_reservation_controll.Matching.{available, effective_label}
use gpu_reservation_controll.Guarantee.{reservations_claimed_by, chain_for, find_by_id}
use gpu_reservation_controll.Preemption.{
  credit, covered_by, chained_gpus, opens_at, need_of, add_demand, demand_loop, boundary_demand,
}

-- No entry occurs twice.
abbrev Unique : List ℕ → Type 0
Unique [] = Unit
Unique (x ∷ xs) = (contains x xs ≡ false) × Unique xs

append-Unique : (x : ℕ) (xs : List ℕ) → contains x xs ≡ false → Unique xs → Unique (xs ++ x ∷ [])
unfolding contains
append-Unique x [] h u = (refl, tt)
append-Unique x (y ∷ ys) h u =
    (ground (arith, contains-append y ys (x ∷ [])), append-Unique x ys (ground arith) u.1)

add-Unique : (x : ℕ) (xs : List ℕ) → Unique xs → Unique (add x xs)
unfolding add
add-Unique x xs u = elim (Bool-cases (contains x xs)) [
  | inl old ↦ rw old u
  | inr new ↦ rw new (append-Unique x xs new u)
]

union-Unique : (xs ys : List ℕ) → Unique xs → Unique (union xs ys)
unfolding union
union-Unique xs [] u = u
union-Unique xs (y ∷ ys) u = union-Unique (add y xs) ys (add-Unique y xs u)

credit-exact :
    (gpus : ℕ) (j : ℕ) (rids : List ℕ) (chained : Dict ℕ ℕ)
    → Unique rids
    → get_or j (credit gpus rids chained) 0
      ≡ get_or j chained 0 + (if contains j rids then gpus else 0)
unfolding credit contains
credit-exact gpus j [] chained u = ground arith
credit-exact gpus j (rid ∷ rids) chained u = ground (
  arith,
  credit-exact gpus j rids (insert rid (get_or rid chained 0 + gpus) chained) u.1,
  get_or-insert rid j (get_or rid chained 0 + gpus) 0 chained,
  u.0,
)

alone : (x : ℕ) → Unique (x ∷ [])
unfolding contains
alone x = (refl, tt)

none_yet {ℓ} : {K : Type ℓ} ⦃e : Eq K⦄ (j : K) → get_or {V = ℕ} j [] 0 ≡ 0
unfolding get_or
none_yet j = refl

need_of-unfolded :
    (s : ControllerState) (now : ℕ) (chained : Dict ℕ ℕ) (r : ReservationResponse)
    → need_of s now chained r ≡ available s r none - get_or r.id chained 0
unfolding need_of
need_of-unfolded s now chained r = refl

module _ (s : ControllerState) (now : ℕ) where
  claimed-cases :
      (rid : ℕ)
      → (reservations_claimed_by s rid now ≡ rid ∷ [])
        ⊎ ((r : ReservationResponse) × (reservations_claimed_by s rid now
              ≡ union (rid ∷ []) (map (λ l. l.id) (chain_for s r now))))
  unfolding reservations_claimed_by
  claimed-cases rid = elim (Option-cases (find_by_id rid s.reservations)) [
    | inl q ↦ inl (ground (arith, q))
    | inr (r, q) ↦ elim (Bool-cases (is_booking r && not (is_none r.user))) [
      | inl b ↦ inr (r, ground (arith, q, b))
      | inr b ↦ inl (ground (arith, q, b))
    ]
  ]

  claimed-Unique : (rid : ℕ) → Unique (reservations_claimed_by s rid now)
  claimed-Unique rid = elim (claimed-cases rid) [
    | inl q ↦ subst Unique (sym q) (alone rid)
    | inr (r, q) ↦
        subst Unique (sym q)
          (union-Unique (rid ∷ []) (map (λ l. l.id) (chain_for s r now)) (alone rid))
  ]

  covered-Unique : (p : PodRuntimeView) → Unique (covered_by s now p)
  unfolding covered_by
  covered-Unique p = elim (Bool-cases (p.node_resident && not p.terminating)) [
    | inl live ↦ elim (Option-cases p.reservation_id) [
      | inl q ↦ rw (live, q) tt
      | inr (rid, q) ↦ rw (live, q) (claimed-Unique rid)
    ]
    | inr gone ↦ rw gone tt
  ]

  -- The GPUs that the pod supplies to a reservation.
  abbrev pub supplied : ℕ → PodRuntimeView → ℕ
  supplied rid p = if contains rid (covered_by s now p) then p.gpu_count else 0

  chained_gpus-exact :
      (rid : ℕ) (pods : List PodRuntimeView) (chained : Dict ℕ ℕ)
      → get_or rid (chained_gpus s now pods chained) 0
        ≡ get_or rid chained 0 + sum_by (supplied rid) pods
  unfolding chained_gpus sum_by
  chained_gpus-exact rid [] chained = ground arith
  chained_gpus-exact rid (p ∷ ps) chained = ground (
    arith,
    chained_gpus-exact rid ps (credit p.gpu_count (covered_by s now p) chained),
    credit-exact p.gpu_count rid (covered_by s now p) chained (covered-Unique p),
  )

  -- What a reservation adds to the demand for a class.
  abbrev owed_with : ℕ → Dict ℕ ℕ → String → ReservationResponse → ℕ
  owed_with boundary chained label r =
      if opens_at s now boundary r && (effective_label s r == some label)
      then need_of s now chained r
      else 0

  add_demand-exact :
      (boundary : ℕ) (chained : Dict ℕ ℕ) (label : String) (r : ReservationResponse)
      (demand : Dict String ℕ)
      → get_or label
          (if opens_at s now boundary r then add_demand s now chained r demand else demand)
          0
        ≡ get_or label demand 0 + owed_with boundary chained label r
  unfolding add_demand
  add_demand-exact boundary chained label r demand = elim (Option-cases (effective_label s r)) [
    | inl q ↦ rw q (ground arith)
    | inr (l, q) ↦ rw q (
        ground (
          arith,
          string_eq.beq_iff l label,
          get_or-insert l label (get_or l demand 0 + need_of s now chained r) 0 demand,
        ))
  ]

  demand_loop-exact :
      (boundary : ℕ) (chained : Dict ℕ ℕ) (label : String) (rs : List ReservationResponse)
      (demand : Dict String ℕ)
      → get_or label (demand_loop s now boundary chained rs demand) 0
        ≡ get_or label demand 0 + sum_by (owed_with boundary chained label) rs
  unfolding demand_loop sum_by
  demand_loop-exact boundary chained label [] demand = ground arith
  demand_loop-exact boundary chained label (r ∷ rs) demand = ground (
    arith,
    demand_loop-exact boundary chained label rs
        (if opens_at s now boundary r then add_demand s now chained r demand else demand),
    add_demand-exact boundary chained label r demand,
  )

  abbrev pub owed : ℕ → List PodRuntimeView → String → ReservationResponse → ℕ
  owed boundary pods label r =
      if opens_at s now boundary r && (effective_label s r == some label)
      then available s r none - sum_by (supplied r.id) pods
      else 0

  -- The demand for a class at a boundary is the sum, over the bookings that have an owner, start
  -- exactly then, are no declared no-show and whose effective label is the class, of the GPUs that
  -- are free on the booking less those of the live reserved pods whose chain covers it, down to 0
  -- for each booking alone.
  pub boundary_demand-exact :
      (boundary : ℕ) (pods : List PodRuntimeView) (label : String)
      → get_or label (boundary_demand s now boundary pods) 0
        ≡ sum_by (owed boundary pods label) s.reservations
  boundary_demand-exact boundary pods label =
      start
      ∙ sum_by-ext (owed_with boundary chained label) (owed boundary pods label) s.reservations same
    where
      chained : Dict ℕ ℕ
      chained = chained_gpus s now pods []

      computed :
          boundary_demand s now boundary pods ≡ demand_loop s now boundary chained s.reservations []
      computed = unfold boundary_demand in refl

      start :
          get_or label (boundary_demand s now boundary pods) 0
          ≡ sum_by (owed_with boundary chained label) s.reservations
      start = ground (
        arith,
        none_yet label,
        computed,
        demand_loop-exact boundary chained label s.reservations [],
      )

      same :
          (r : ReservationResponse)
          → owed_with boundary chained label r ≡ owed boundary pods label r
      same r =
          ground (
            arith,
            chained_gpus-exact r.id pods [],
            need_of-unfolded s now chained r,
            none_yet r.id,
          )
