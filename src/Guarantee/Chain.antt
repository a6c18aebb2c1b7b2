-- ===== src/Guarantee/Chain.antt =====
-- The loop of `_chain_for`: it ends, its windows abut, and it leaves no abutting window out.
use gpu_reservation_controll.Base.{
  ℕ, zero, suc, ◌≤◌, ◌<◌, ◌≡◌, sym, subst, ap, none, some, true, false, ◌==◌, nat_eq, ◌&&◌, not,
  List, [], ◌∷◌, keep, contains, length-keep-le, max_by, max_by-In, max_by-none, length, In,
  In-keep, keep-In, All, Bool-cases, Option-cases, inl, inr, ◌⊎◌, arith,
}
use gpu_reservation_controll.Schemas.{ReservationResponse, slot_start, slot_end}
use gpu_reservation_controll.Guarantee.{abutting, chain_loop, chain_end}

-- Each window opens when the one before it closes.
abbrev pub Linked : ℕ → List ReservationResponse → Type 0
Linked end [] = Unit
Linked end (r ∷ rs) = (slot_start r ≡ end) × Linked (slot_end r) rs

abbrev pub ids : List ReservationResponse → List ℕ
ids [] = []
ids (r ∷ rs) = r.id ∷ ids rs

-- No window is visited twice.
abbrev pub Fresh : List ℕ → List ReservationResponse → Type 0
Fresh visited [] = Unit
Fresh visited (r ∷ rs) = (contains r.id visited ≡ false) × Fresh (r.id ∷ visited) rs

pub unvisited : List ReservationResponse → List ℕ → List ReservationResponse
unvisited candidates visited = keep (λ r. not (contains r.id visited)) candidates

-- Each round takes a candidate off the unvisited ones.
length-unvisited-le :
    (rs : List ReservationResponse) (id : ℕ) (visited : List ℕ)
    → length (unvisited rs (id ∷ visited)) ≤ length (unvisited rs visited)
unfolding unvisited keep contains
length-unvisited-le [] id visited = omega arith
length-unvisited-le (r ∷ rs) id visited = ground (arith, length-unvisited-le rs id visited)

length-unvisited-lt :
    (rs : List ReservationResponse) (q : ReservationResponse) (visited : List ℕ)
    → In q rs
    → contains q.id visited ≡ false
    → length (unvisited rs (q.id ∷ visited)) < length (unvisited rs visited)
unfolding unvisited keep contains
length-unvisited-lt [] q visited m fresh = absurd m.0
length-unvisited-lt (r ∷ rs) q visited (inl e) fresh =
    let same : r.id ≡ q.id = ap (λ z. z.id) e in ground (arith, length-unvisited-le rs q.id visited)
length-unvisited-lt (r ∷ rs) q visited (inr m) fresh =
    ground (arith, length-unvisited-lt rs q visited m fresh)

module _ (candidates : List ReservationResponse) where
  abutting_facts :
      (visited : List ℕ) (prev_end : ℕ) (r : ReservationResponse)
      → max_by slot_end (abutting candidates visited prev_end) ≡ some r
      → In r candidates × (contains r.id visited ≡ false) × (slot_start r ≡ prev_end)
  abutting_facts visited prev_end r h =
      let (m, ok) = In-keep _ candidates r (max_by-In slot_end _ h) in (m, fresh ok, starts ok)
    where
      fresh :
          (not (contains r.id visited) && (slot_start r == prev_end)) ≡ true
          → contains r.id visited ≡ false
      fresh ok = ground arith

      starts :
          (not (contains r.id visited) && (slot_start r == prev_end)) ≡ true
          → slot_start r ≡ prev_end
      starts ok = ground arith

  chain_loop_stop :
      (fuel : ℕ) (visited : List ℕ) (prev_end : ℕ)
      → max_by slot_end (abutting candidates visited prev_end) ≡ none
      → chain_loop (suc fuel) candidates visited prev_end ≡ []
  unfolding chain_loop
  chain_loop_stop fuel visited prev_end e = ground arith

  chain_loop_next :
      (fuel : ℕ) (visited : List ℕ) (prev_end : ℕ) (r : ReservationResponse)
      → max_by slot_end (abutting candidates visited prev_end) ≡ some r
      → chain_loop (suc fuel) candidates visited prev_end
        ≡ r ∷ chain_loop fuel candidates (r.id ∷ visited) (slot_end r)
  unfolding chain_loop
  chain_loop_next fuel visited prev_end r e = ground arith

  -- What holds of every run of the loop: the windows abut, none is met twice, all are candidates.
  abbrev pub IsChain : List ℕ → ℕ → List ReservationResponse → Type 0
  IsChain visited prev_end chain =
      Linked prev_end chain × Fresh visited chain × All (λ r. In r candidates) chain

  pub chain_loop-IsChain :
      (fuel : ℕ) (visited : List ℕ) (prev_end : ℕ)
      → IsChain visited prev_end (chain_loop fuel candidates visited prev_end)
  chain_loop-IsChain zero visited prev_end = unfold chain_loop in (tt, tt, tt)
  chain_loop-IsChain (suc fuel) visited prev_end =
      elim (Option-cases (max_by slot_end (abutting candidates visited prev_end))) [
        | inl e ↦
            subst (IsChain visited prev_end) (sym (chain_loop_stop fuel visited prev_end e))
              (tt, tt, tt)
        | inr (r, e) ↦
            let (m, fresh, starts) = abutting_facts visited prev_end r e in
            let (l, f, a) = chain_loop-IsChain fuel (r.id ∷ visited) (slot_end r) in
            subst (IsChain visited prev_end) (sym (chain_loop_next fuel visited prev_end r e))
              ((starts, l), (fresh, f), (m, a))
      ]

  -- No candidate that opens where the chain ends is left out of it.
  abbrev pub IsComplete : List ℕ → ℕ → List ReservationResponse → Type 0
  IsComplete visited prev_end chain =
      (q : ReservationResponse)
      → In q candidates
      → slot_start q ≡ chain_end prev_end chain
      → (contains q.id visited ≡ true) ⊎ (contains q.id (ids chain) ≡ true)

  abutting-none :
      (visited : List ℕ) (prev_end : ℕ) (q : ReservationResponse)
      → max_by slot_end (abutting candidates visited prev_end) ≡ none
      → In q candidates
      → slot_start q ≡ prev_end
      → contains q.id visited ≡ true
  abutting-none visited prev_end q e m starts = elim (Bool-cases (contains q.id visited)) [
    | inl old ↦ old
    | inr new ↦ absurd (max_by-none slot_end _ q e (keep-In _ candidates q m (both new)))
  ]
    where
      both :
          contains q.id visited ≡ false
          → (not (contains q.id visited) && (slot_start q == prev_end)) ≡ true
      both new = ground arith

  IsComplete-cons :
      (visited : List ℕ) (prev_end : ℕ) (r : ReservationResponse) (chain : List ReservationResponse)
      → IsComplete (r.id ∷ visited) (slot_end r) chain
      → IsComplete visited prev_end (r ∷ chain)
  unfolding contains chain_end
  IsComplete-cons visited prev_end r chain rest q m e = ground (arith, rest q m e)

  -- With fuel for the unvisited candidates the loop ends by its own test.
  pub chain_loop-IsComplete :
      (fuel : ℕ) (visited : List ℕ) (prev_end : ℕ)
      → length (unvisited candidates visited) ≤ fuel
      → IsComplete visited prev_end (chain_loop fuel candidates visited prev_end)
  chain_loop-IsComplete zero visited prev_end enough q m e =
      elim (Bool-cases (contains q.id visited)) [
        | inl old ↦ inl old
        | inr new ↦ absurd (omega (arith, length-unvisited-lt candidates q visited m new))
      ]
  chain_loop-IsComplete (suc fuel) visited prev_end enough q m e =
      elim (Option-cases (max_by slot_end (abutting candidates visited prev_end))) [
        | inl stop ↦
            subst (IsComplete visited prev_end) (sym (chain_loop_stop fuel visited prev_end stop))
              (λ q m e. inl (abutting-none visited prev_end q stop m (unfold chain_end in e))) q m e
        | inr (r, next) ↦
            let (listed, fresh, starts) = abutting_facts visited prev_end r next in
            let less : length (unvisited candidates (r.id ∷ visited)) ≤ fuel =
              omega (arith, length-unvisited-lt candidates r visited listed fresh) in
            subst (IsComplete visited prev_end) (sym (chain_loop_next fuel visited prev_end r next))
              (IsComplete-cons visited prev_end r _
                (chain_loop-IsComplete fuel (r.id ∷ visited) (slot_end r) less))
              q m e
      ]

  pub length-unvisited_nil : length (unvisited candidates []) ≤ length candidates
  unfolding unvisited
  length-unvisited_nil = length-keep-le _ candidates
