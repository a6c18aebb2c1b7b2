-- ===== src/OnDemand/Peak.antt =====
-- The peak of the capacity that a class has committed, app/controller.py's guard against an
-- on-demand lease that would not fit beside the calendar.
use native.Mathlib.Decide.{dec_le}
use gpu_reservation_controll.Base.{
  Bool, Bool-cases, In, In-keep, In-map, In-sort_by, In-union, IsSorted, List, Option-cases, String,
  [], ap, arith, if◌then◌else◌, inl, inr, keep, keep-In, leb, ltb, map-In, max_by, max_by-In,
  max_by-le, max_by-none, nat_eq, option_eq, refl, sort_by-In, sort_by-IsSorted, string_eq, subst,
  sum_by, sum_by-keep_le, sym, union-In, ℕ, ◌&&◌, ◌<◌, ◌∙◌, ◌∷◌, ◌≡◌, ◌≤◌, ◌⊎◌,
}
use gpu_reservation_controll.Schemas.{ReservationResponse, slot_start}
use gpu_reservation_controll.State.{ControllerState, pod_eq}
use gpu_reservation_controll.OnDemand.{
  commits, committed_at, committed_rows, higher, instants, peak_committed_gpus, peak_loop, runs_at,
}

-- What the reservations that hold capacity of the class commit at an instant, over the whole list.
abbrev pub calendar : ControllerState → String → ℕ → ℕ
calendar s label t =
    sum_by (λ r. r.gpu_count) (keep (λ r. commits s label r && runs_at t r) s.reservations)

sum_by-keep-keep :
    (f : ReservationResponse → ℕ) (p q w : ReservationResponse → Bool)
    (rs : List ReservationResponse)
    → ((r : ReservationResponse) → (p r && q r) ≡ w r)
    → sum_by f (keep q (keep p rs)) ≡ sum_by f (keep w rs)
unfolding sum_by keep
sum_by-keep-keep f p q w [] h = refl
sum_by-keep-keep f p q w (r ∷ rs) h = ground (arith, h r, sum_by-keep-keep f p q w rs h)

module _ (rows : List ReservationResponse) where
  -- The result of the loop: at least what it began with and every entry, and, where it is higher
  -- than what it began with, the first entry so high.
  record IsPeak (found : ℕ × ℕ) (ts : List ℕ) (top : ℕ × ℕ) : Type 0 where
    least : found.0 ≤ top.0
    bound : (u : ℕ) → In u ts → committed_at rows u ≤ top.0
    attained :
        (top ≡ found)
        ⊎ (In top.1 ts
            × (committed_at rows top.1 ≡ top.0)
            × (found.0 < top.0)
            × ((u : ℕ) → In u ts → u < top.1 → committed_at rows u < top.0))

  higher-cases :
      (found : ℕ × ℕ) (t : ℕ)
      → ((found.0 < committed_at rows t) × (higher rows found t ≡ (committed_at rows t, t)))
        ⊎ ((committed_at rows t ≤ found.0) × (higher rows found t ≡ found))
  unfolding higher
  higher-cases found t = elim (Bool-cases (ltb found.0 (committed_at rows t))) [
    | inl e ↦ inl (ground arith, ap (λ b. if b then (committed_at rows t, t) else found) e)
    | inr e ↦ inr (ground arith, ap (λ b. if b then (committed_at rows t, t) else found) e)
  ]

  skipped :
      (found : ℕ × ℕ) (t : ℕ) (ts : List ℕ) (top : ℕ × ℕ)
      → committed_at rows t ≤ found.0
      → IsPeak found ts top
      → IsPeak found (t ∷ ts) top
  skipped found t ts top low p = record {
    least = p.least;
    bound = λ u m. bound_of u m;
    attained = elim p.attained [
      | inl same ↦ inl same
      | inr (m, eq, above, firsts) ↦ inr (inr m, eq, above, λ u n k. first_of firsts above u n k)
    ];
  }
    where
      bound_of : (u : ℕ) → In u (t ∷ ts) → committed_at rows u ≤ top.0
      bound_of u (inl q) =
          subst (λ v. committed_at rows v ≤ top.0) q (let l = p.least in omega arith)
      bound_of u (inr m) = p.bound u m

      first_of :
          ((u : ℕ) → In u ts → u < top.1 → committed_at rows u < top.0)
          → found.0 < top.0
          → (u : ℕ) → In u (t ∷ ts)
          → u < top.1
          → committed_at rows u < top.0
      first_of firsts above u (inl q) k = subst (λ v. committed_at rows v < top.0) q (omega arith)
      first_of firsts above u (inr m) k = firsts u m k

  taken :
      (found : ℕ × ℕ) (t : ℕ) (ts : List ℕ) (top : ℕ × ℕ)
      → ((u : ℕ) → In u ts → t ≤ u)
      → found.0 < committed_at rows t
      → IsPeak (committed_at rows t, t) ts top
      → IsPeak found (t ∷ ts) top
  taken found t ts top sorted high p = record {
    least = let l = p.least in omega arith;
    bound = λ u m. bound_of u m;
    attained = elim p.attained [
      | inl same ↦ inr (
        inl (sym (ap (λ z. z.1) same)),
        (ap (λ z. committed_at rows z.1) same ∙ sym (ap (λ z. z.0) same)),
        let l = p.least in omega arith,
        λ u m k. first_now same u m k,
      )
      | inr (m, eq, above, firsts) ↦
          inr (inr m, eq, omega arith, λ u n k. first_of firsts above u n k)
    ];
  }
    where
      bound_of : (u : ℕ) → In u (t ∷ ts) → committed_at rows u ≤ top.0
      bound_of u (inl q) = subst (λ v. committed_at rows v ≤ top.0) q p.least
      bound_of u (inr m) = p.bound u m

      first_now :
          top ≡ (committed_at rows t, t)
          → (u : ℕ) → In u (t ∷ ts)
          → u < top.1
          → committed_at rows u < top.0
      first_now same u (inl q) k = absurd (omega (arith, q, ap (λ z. z.1) same))
      first_now same u (inr m) k = absurd (omega (arith, sorted u m, ap (λ z. z.1) same))

      first_of :
          ((u : ℕ) → In u ts → u < top.1 → committed_at rows u < top.0)
          → committed_at rows t < top.0
          → (u : ℕ) → In u (t ∷ ts)
          → u < top.1
          → committed_at rows u < top.0
      first_of firsts above u (inl q) k = subst (λ v. committed_at rows v < top.0) q above
      first_of firsts above u (inr m) k = firsts u m k

  peak_loop-IsPeak :
      (ts : List ℕ) (found : ℕ × ℕ)
      → IsSorted (λ t. t) ts
      → IsPeak found ts (peak_loop rows found ts)
  peak_loop-IsPeak [] found h =
      unfold peak_loop in
      record { least = omega arith; bound = λ u m. absurd m.0; attained = inl refl }
  peak_loop-IsPeak (t ∷ ts) found h =
      subst (IsPeak found (t ∷ ts)) (sym loop_cons) (elim (higher-cases found t) [
        | inl (high, e) ↦
            rw e (taken found t ts _ h.0 high (peak_loop-IsPeak ts (committed_at rows t, t) h.1))
        | inr (low, e) ↦ rw e (skipped found t ts _ low (peak_loop-IsPeak ts found h.1))
      ])
    where
      loop_cons : peak_loop rows found (t ∷ ts) ≡ peak_loop rows (higher rows found t) ts
      loop_cons = unfold peak_loop in refl

module _ (rows : List ReservationResponse) (start : ℕ) where
  In-instants_start : In start (instants rows start)
  unfolding instants
  In-instants_start = sort_by-In _ _ start (In-union (start ∷ []) _ start (inl (inl refl)))

  slot_start-In-instants :
      (r : ReservationResponse)
      → In r rows
      → start < slot_start r
      → In (slot_start r) (instants rows start)
  unfolding instants
  slot_start-In-instants r m h =
      sort_by-In _ _ _ (
        In-union (start ∷ []) _ _ (inr (In-map slot_start _ r (keep-In _ rows r m (ground arith)))))

  In-instants :
      (t : ℕ)
      → In t (instants rows start)
      → (t ≡ start)
        ⊎ ((r : ReservationResponse) × In r rows × (start < slot_start r) × (slot_start r ≡ t))
  unfolding instants
  In-instants t m = elim (union-In (start ∷ []) _ t (In-sort_by _ _ t m)) [
    | inl (inl q) ↦ inl (sym q)
    | inl (inr n) ↦ absurd n.0
    | inr n ↦
        let (r, k, e) = map-In slot_start _ t n in
        let (inside, later) = In-keep _ rows r k in inr (r, inside, ground arith, e)
  ]

  In-instants_ge : (t : ℕ) → In t (instants rows start) → start ≤ t
  In-instants_ge t m = elim (In-instants t m) [
    | inl e ↦ omega arith
    | inr (r, k, later, e) ↦ omega arith
  ]

  -- The count only rises where a row starts: at the last of the instants up to `t` it is at least
  -- what it is at `t`.
  instants-reach :
      (t : ℕ)
      → start ≤ t
      → (u : ℕ) × In u (instants rows start) × (u ≤ t) × (committed_at rows t ≤ committed_at rows u)
  unfolding committed_at runs_at
  instants-reach t h =
      elim (Option-cases (max_by (λ x. x) (keep (λ x. leb x t) (instants rows start)))) [
        | inl e ↦
            absurd (max_by-none _ _ start e (keep-In _ _ start In-instants_start (ground arith)))
        | inr (u, e) ↦
            let (m, le) = In-keep _ _ u (max_by-In _ _ e) in
            (
              u,
              m,
              ground arith,
              sum_by-keep_le _ _ _ rows (λ r k run.
                  let late =
                    elim (Bool-cases (ltb start (slot_start r))) as (λ _. slot_start r ≤ u) [
                      | inl g ↦
                          max_by-le _ _ e (slot_start r) (
                            keep-In _ _ _ (slot_start-In-instants r k (ground arith))
                              (ground arith))
                      | inr g ↦ ground (arith, In-instants_ge u m)
                    ] in
                  ground arith),
            )
      ]

module _ (s : ControllerState) (label : String) (start end : ℕ) where
  committed_at-calendar :
      (t : ℕ)
      → start ≤ t
      → t < end
      → committed_at (committed_rows s label start end) t ≡ calendar s label t
  unfolding committed_at committed_rows runs_at
  committed_at-calendar t h k =
      sum_by-keep-keep (λ r. r.gpu_count) _ _ _ s.reservations (λ r. ground arith)

  abbrev peak : ℕ × ℕ
  peak = peak_committed_gpus s label start end

  abbrev rows_in : List ReservationResponse
  rows_in = committed_rows s label start end

  In-instants_lt : start < end → (t : ℕ) → In t (instants rows_in start) → t < end
  unfolding committed_rows
  In-instants_lt h t m = elim (In-instants rows_in start t m) [
    | inl e ↦ omega arith
    | inr (r, k, later, e) ↦ let (inside, test) = In-keep _ s.reservations r k in ground arith
  ]

  peak-IsPeak : IsPeak rows_in (0, start) (instants rows_in start) peak
  unfolding peak_committed_gpus
  peak-IsPeak = peak_loop-IsPeak rows_in _ (0, start) instants-IsSorted
    where
      instants-IsSorted : IsSorted (λ t. t) (instants rows_in start)
      instants-IsSorted = unfold instants in sort_by-IsSorted _ _

  peak-found :
      In peak.1 (instants rows_in start)
      × (committed_at rows_in peak.1 ≡ peak.0)
      × ((t : ℕ) → In t (instants rows_in start) → t < peak.1 → committed_at rows_in t < peak.0)
  peak-found = elim peak-IsPeak.attained [
    | inl same ↦
        let at_start = ap (λ z. z.1) same in
        let none_yet = ap (λ z. z.0) same in
        (
          subst (λ t. In t (instants rows_in start)) (sym at_start)
              (In-instants_start rows_in start),
          omega (
            arith,
            none_yet,
            peak-IsPeak.bound start (In-instants_start rows_in start),
            ap (committed_at rows_in) at_start,
          ),
          λ t m k. absurd (omega (arith, at_start, In-instants_ge rows_in start t m)),
        )
    | inr (m, eq, above, firsts) ↦ (m, eq, firsts)
  ]

  peak_facts :
      start < end
      → (start ≤ peak.1)
        × (peak.1 < end)
        × (calendar s label peak.1 ≡ peak.0)
        × ((t : ℕ) → start ≤ t → t < end → calendar s label t ≤ peak.0)
        × ((t : ℕ) → start ≤ t → t < peak.1 → calendar s label t < peak.0)
  peak_facts h =
      let (m, eq, firsts) = peak-found in
      let from = In-instants_ge rows_in start peak.1 m in
      let before = In-instants_lt h peak.1 m in
      (
        from,
        before,
        sym (committed_at-calendar peak.1 from before) ∙ eq,
        λ t k l.
            let (u, n, le, most) = instants-reach rows_in start t k in
            omega (arith, committed_at-calendar t k l, most, peak-IsPeak.bound u n),
        λ t k l.
            let (u, n, le, most) = instants-reach rows_in start t k in
            omega (arith, committed_at-calendar t k (omega arith), most, firsts u n (omega arith)),
      )

  -- Over a window that is not empty, the peak is what the class has committed at the instant that
  -- is returned with it, which lies in the window; at no instant of the window is more committed,
  -- and at every instant of the window before the one that is returned less.
  pub peak_committed_gpus-exact :
      (t : ℕ)
      → start ≤ t
      → t < end
      → (start ≤ peak.1)
        × (peak.1 < end)
        × (calendar s label peak.1 ≡ peak.0)
        × (calendar s label t ≤ peak.0)
        × ((peak.1 ≤ t) ⊎ (calendar s label t < peak.0))
  peak_committed_gpus-exact t h k =
      let (from, before, reached, most, firsts) = peak_facts (omega arith) in
      (
        from,
        before,
        reached,
        most t h k,
        elim (dec_le peak.1 t) [
          | yes later ↦ inl later
          | no sooner ↦ inr (firsts t h (omega arith))
        ],
      )
