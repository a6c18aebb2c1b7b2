-- ===== src/Occupancy/Placed.antt =====
-- Where the occupancy map of app/controller.py has a pod.
use gpu_reservation_controll.Base.{
  ℕ, ◌≡◌, ◌≢◌, refl, sym, subst, ap, ◌∙◌, String, Option, none, some, true, false, ◌==◌, string_eq,
  nat_eq, ◌&&◌, [], ◌∷◌, Dict, get, insert, erase, has_key, has_key-get, get_or, get_or-insert,
  get_or-erase, get-insert, get-erase, Bool-cases, Option-cases, if◌then◌else◌, inl, inr, arith,
  has_key-none, ◌↔◌, ◌⊎◌, some-injective, Distinct, insert-Distinct, erase-Distinct, nat_beq_iff,
}
use text.Mathlib.TextEquality.{eq_iff}
use gpu_reservation_controll.State.{ControllerState}
use gpu_reservation_controll.Occupancy.{
  place, holding, is_empty, vacate, release_pod, relink_occupancy,
}

-- The GPUs that the map records for a pod under a reservation.
abbrev pub at : ℕ → String → Dict ℕ (Dict String ℕ) → Option ℕ
at rid uid occupancy = get uid (get_or rid occupancy [])

pub at-place :
    (rid q : ℕ) (uid v : String) (gpus : ℕ) (d : Dict ℕ (Dict String ℕ))
    → at q v (place rid uid gpus d) ≡ (if rid == q && uid == v then some gpus else at q v d)
unfolding place
at-place rid q uid v gpus d = ground (
  arith,
  get_or-insert rid q (insert uid gpus (get_or rid d [])) [] d,
  get-insert uid v gpus (get_or rid d []),
  nat_beq_iff rid q,
)

is_empty_eq : (d : Dict String ℕ) → is_empty d ≡ true → d ≡ []
is_empty_eq [] h = refl
is_empty_eq (p ∷ d) h = cc

get_nil : (w : String) → get {V = ℕ} w [] ≡ none
unfolding get
get_nil w = refl

at-vacate :
    (rid q : ℕ) (uid v : String) (d : Dict ℕ (Dict String ℕ))
    → at q v (vacate rid uid d) ≡ (if rid == q && uid == v then none else at q v d)
unfolding vacate
at-vacate rid q uid v d = elim (Bool-cases (is_empty (erase uid (get_or rid d [])))) [
  | inl e ↦
      let gone = ap (get v) (is_empty_eq (erase uid (get_or rid d [])) e) in
      let none_left : get v (erase uid (get_or rid d [])) ≡ none = gone ∙ get_nil v in
      rw e (
        ground (
          arith,
          get_or-erase rid q [] d,
          get-erase uid v (get_or rid d []),
          none_left,
          get_nil v,
          nat_beq_iff rid q,
        ))
  | inr e ↦ rw e (
      ground (
        arith,
        get_or-insert rid q (erase uid (get_or rid d [])) [] d,
        get-erase uid v (get_or rid d []),
        nat_beq_iff rid q,
      ))
]

-- No reservation occurs twice in the map, and no pod under two reservations.
pub record IsValid (d : Dict ℕ (Dict String ℕ)) : Type 0 where
  pub distinct : Distinct d
  pub one_place : (v : String) (q p : ℕ) → at q v d ≢ none → at p v d ≢ none → q ≡ p

holding-none :
    (uid : String) (d : Dict ℕ (Dict String ℕ)) (q : ℕ) → holding uid d ≡ none → at q uid d ≡ none
unfolding holding get_or get
holding-none uid [] q h = refl
holding-none uid ((rid, occupants) ∷ d) q h =
    ground (arith, has_key-get uid occupants, holding-none uid d q)

holding-some :
    (uid : String) (d : Dict ℕ (Dict String ℕ)) (rid : ℕ)
    → Distinct d
    → holding uid d ≡ some rid
    → at rid uid d ≢ none
unfolding holding get_or get
holding-some uid [] rid u h e = cc
holding-some uid ((k, occupants) ∷ d) rid u h e = elim (Bool-cases (has_key uid occupants)) [
  | inl here ↦ ground (arith, has_key-get uid occupants)
  | inr below ↦ ground (arith, holding-some uid d rid u.1, has_key-none k d u.0, nat_beq_iff k rid)
]

only_at :
    {d : Dict ℕ (Dict String ℕ)} (v : String) (p q : ℕ)
    → IsValid d
    → at p v d ≢ none
    → (p == q) ≡ false
    → at q v d ≡ none
only_at {d} v p q valid h other = elim (Option-cases (at q v d)) [
  | inl e ↦ e
  | inr (g, e) ↦ absurd (clash (valid.one_place v p q h (λ n. cc)))
]
  where
    clash : p ≡ q → ⊥
    clash same = cc ((nat_beq_iff p q).1 same)

release_pod-none :
    (s : ControllerState) (uid : String)
    → holding uid s.occupancy ≡ none
    → release_pod s uid ≡ (s, none)
unfolding release_pod
release_pod-none s uid e = ground arith

release_pod-some :
    (s : ControllerState) (uid : String) (rid : ℕ)
    → holding uid s.occupancy ≡ some rid
    → release_pod s uid ≡ (record s { occupancy = vacate rid uid s.occupancy }, some rid)
unfolding release_pod
release_pod-some s uid rid e = ground arith

relink_eq :
    (s : ControllerState) (uid : String) (rid gpus : ℕ)
    → (relink_occupancy s uid rid gpus).occupancy
      ≡ place rid uid gpus (release_pod s uid).0.occupancy
unfolding relink_occupancy
relink_eq s uid rid gpus = refl

place-Distinct :
    (rid : ℕ) (uid : String) (gpus : ℕ) (d : Dict ℕ (Dict String ℕ))
    → Distinct d
    → Distinct (place rid uid gpus d)
unfolding place
place-Distinct rid uid gpus d h = insert-Distinct rid _ d h

vacate-Distinct :
    (rid : ℕ) (uid : String) (d : Dict ℕ (Dict String ℕ)) → Distinct d → Distinct (vacate rid uid d)
unfolding vacate
vacate-Distinct rid uid d h = elim (Bool-cases (is_empty (erase uid (get_or rid d [])))) [
  | inl e ↦ rw e (erase-Distinct rid d h)
  | inr e ↦ rw e (insert-Distinct rid _ d h)
]

release_pod-Distinct :
    (s : ControllerState) (uid : String)
    → Distinct s.occupancy
    → Distinct (release_pod s uid).0.occupancy
release_pod-Distinct s uid h = elim (Option-cases (holding uid s.occupancy)) [
  | inl e ↦ rw (release_pod-none s uid e) h
  | inr (rid, e) ↦ rw (release_pod-some s uid rid e) (vacate-Distinct rid uid s.occupancy h)
]

module _ (s : ControllerState) (uid : String) (valid : IsValid s.occupancy) where
  release_pod_facts :
      ((q : ℕ) (v : String)
        → at q v (release_pod s uid).0.occupancy ≡ (if uid == v then none else at q v s.occupancy))
      × ((rid : ℕ) → ((release_pod s uid).1 ≡ some rid) ↔ (at rid uid s.occupancy ≢ none))
  release_pod_facts = elim (Option-cases (holding uid s.occupancy)) [
    | inl e ↦ rw (release_pod-none s uid e) (
      λ q v. stays q v (holding-none uid s.occupancy q e) (Bool-cases (uid == v)),
      λ rid. (λ h. cc, λ h. absurd (h (holding-none uid s.occupancy rid e))),
    )
    | inr (rid, e) ↦
        let held = holding-some uid s.occupancy rid valid.distinct e in
        rw (release_pod-some s uid rid e) (
          λ q v. moves rid q v held (Bool-cases (rid == q)) (Bool-cases (uid == v)),
          λ q. (
            λ h. subst (λ p. at p uid s.occupancy ≢ none) (some-injective rid q h) held,
            λ h. ap some (valid.one_place uid rid q held h),
          ),
        )
  ]
    where
      stays :
          (q : ℕ) (v : String)
          → at q uid s.occupancy ≡ none
          → ((uid == v) ≡ true) ⊎ ((uid == v) ≡ false)
          → at q v s.occupancy ≡ (if uid == v then none else at q v s.occupancy)
      stays q v gone (inl same) =
          rw same (subst (λ w. at q w s.occupancy ≡ none) ((eq_iff uid v).0 same) gone)
      stays q v gone (inr other) = rw other

      moves :
          (rid q : ℕ) (v : String)
          → at rid uid s.occupancy ≢ none
          → ((rid == q) ≡ true) ⊎ ((rid == q) ≡ false)
          → ((uid == v) ≡ true) ⊎ ((uid == v) ≡ false)
          → at q v (vacate rid uid s.occupancy) ≡ (if uid == v then none else at q v s.occupancy)
      moves rid q v held (inl here) (inl same) = rw (at-vacate rid q uid v s.occupancy, here, same)
      moves rid q v held (inr there) (inl same) =
          rw (at-vacate rid q uid v s.occupancy, there, same)
            (subst (λ w. at q w s.occupancy ≡ none) ((eq_iff uid v).0 same)
              (only_at uid rid q valid held there))
      moves rid q v held (inl here) (inr other) =
          rw (at-vacate rid q uid v s.occupancy, here, other)
      moves rid q v held (inr there) (inr other) =
          rw (at-vacate rid q uid v s.occupancy, there, other)

  -- From a valid map, a released pod is under no reservation afterwards, and every other pod is
  -- where it was. The answer is the reservation that held the pod, and none only if no reservation
  -- did.
  pub release_pod-exact :
      (q rid : ℕ) (v : String)
      → (at q v (release_pod s uid).0.occupancy ≡ (if uid == v then none else at q v s.occupancy))
        × (((release_pod s uid).1 ≡ some rid) ↔ (at rid uid s.occupancy ≢ none))
  release_pod-exact q rid v = (release_pod_facts.0 q v, release_pod_facts.1 rid)

  -- In a valid map, a re-linked pod is afterwards under its new reservation with the given GPUs and
  -- under no other, and every other pod is where it was.
  pub relink_occupancy-exact :
      (rid gpus q : ℕ) (v : String)
      → at q v (relink_occupancy s uid rid gpus).occupancy
        ≡ (if uid == v then (if rid == q then some gpus else none) else at q v s.occupancy)
  relink_occupancy-exact rid gpus q v =
      relinked (at-place rid q uid v gpus (release_pod s uid).0.occupancy) (release_pod_facts.0 q v)
    where
      relinked :
          at q v (place rid uid gpus (release_pod s uid).0.occupancy)
            ≡ (if rid == q && uid == v then some gpus else at q v (release_pod s uid).0.occupancy)
          → at q v (release_pod s uid).0.occupancy ≡ (if uid == v then none else at q v s.occupancy)
          → at q v (relink_occupancy s uid rid gpus).occupancy
            ≡ (if uid == v then (if rid == q then some gpus else none) else at q v s.occupancy)
      relinked p r = rw (relink_eq s uid rid gpus, p, r) (ground arith)

  -- Releasing a pod keeps the map valid: no reservation and no pod stands in it twice.
  pub release_pod-IsValid : IsValid (release_pod s uid).0.occupancy
  release_pod-IsValid = record {
    distinct = release_pod-Distinct s uid valid.distinct;
    one_place = λ v q p hq hp. valid.one_place v q p (earlier v q hq) (earlier v p hp);
  }
    where
      earlier :
          (v : String) (q : ℕ)
          → at q v (release_pod s uid).0.occupancy ≢ none
          → at q v s.occupancy ≢ none
      earlier v q h n = h (ground (arith, release_pod_facts.0 q v))

  -- Re-linking a pod keeps the map valid: no reservation and no pod stands in it twice.
  pub relink_occupancy-IsValid :
      (rid gpus : ℕ) → IsValid (relink_occupancy s uid rid gpus).occupancy
  relink_occupancy-IsValid rid gpus = record {
    distinct =
        subst Distinct (sym (relink_eq s uid rid gpus))
          (place-Distinct rid uid gpus _ (release_pod-Distinct s uid valid.distinct));
    one_place = λ v q p hq hp.
        one v q p (relink_occupancy-exact rid gpus q v) (relink_occupancy-exact rid gpus p v) hq hp;
  }
    where
      one :
          (v : String) (q p : ℕ)
          → at q v (relink_occupancy s uid rid gpus).occupancy
            ≡ (if uid == v then (if rid == q then some gpus else none) else at q v s.occupancy)
          → at p v (relink_occupancy s uid rid gpus).occupancy
            ≡ (if uid == v then (if rid == p then some gpus else none) else at p v s.occupancy)
          → at q v (relink_occupancy s uid rid gpus).occupancy ≢ none
          → at p v (relink_occupancy s uid rid gpus).occupancy ≢ none
          → q ≡ p
      one v q p eq ep hq hp =
          ground (arith, valid.one_place v q p, nat_beq_iff rid q, nat_beq_iff rid p)
