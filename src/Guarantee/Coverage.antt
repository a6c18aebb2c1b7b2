-- ===== src/Guarantee/Coverage.antt =====
-- What the runtime guarantee of app/controller.py covers.
use gpu_reservation_controll.Base.{
  ℕ, ◌≤◌, ◌<◌, ◌≡◌, ◌≢◌, refl, sym, subst, ap, ap₂, false≢true, String, Option, none, some, Bool,
  true, false, ◌==◌, nat_eq, string_eq, option_eq, option_beq_iff, some-injective, ◌∙◌, List, [],
  ◌∷◌, contains, length, In, In-keep, In-sort_by, sort_by-In, keep-In, All, All-In, All-of,
  Bool-cases, ltb, inl, inr, ◌⊎◌, arith,
}
use gpu_reservation_controll.Schemas.{
  ReservationResponse, UserBrief, slot_start, slot_end, owned_by, is_booking,
}
use gpu_reservation_controll.State.{ControllerState}
use gpu_reservation_controll.Matching.{effective_label}
use gpu_reservation_controll.Guarantee.{
  chain_of, chain_for, chain_end, chain_candidates, extends, compute_guaranteed_until,
}
use gpu_reservation_controll.Guarantee.Chain.{
  Linked, Fresh, ids, chain_loop-IsChain, chain_loop-IsComplete, length-unvisited_nil,
}

Linked-covers :
    (end : ℕ) (rs : List ReservationResponse)
    → Linked end rs
    → (t : ℕ) → end ≤ t
    → t < chain_end end rs
    → (r : ReservationResponse) × In r rs × (slot_start r ≤ t) × (t < slot_end r)
unfolding chain_end
Linked-covers end [] l t h k = absurd (omega arith)
Linked-covers end (r ∷ rs) l t h k = elim (Bool-cases (ltb t (slot_end r))) [
  | inl e ↦ (r, inl refl, omega arith, ground arith)
  | inr e ↦
      let (q, m, starts, ends) = Linked-covers (slot_end r) rs l.1 t (ground arith) k in
      (q, inr m, starts, ends)
]

module _ (s : ControllerState) (anchor : ReservationResponse) (now : ℕ) where
  abbrev chain : List ReservationResponse
  chain = chain_for s anchor now

  -- What a link of the chain has in common with the reservation it extends.
  pub record IsLink (r : ReservationResponse) : Type 0 where
    pub stored : In r s.reservations
    pub other : r.id ≢ anchor.id
    pub booking : is_booking r ≡ true
    pub same_owner : (u : UserBrief) → anchor.user ≡ some u → owned_by u.username r ≡ true
    pub same_gpus : r.gpu_count ≡ anchor.gpu_count
    pub same_label : effective_label s r ≡ effective_label s anchor
    pub live : now < slot_end r
    pub no_noshow : contains r.id s.noshow_reservation_ids ≡ false

  extends-IsLink :
      (namespace label : String) (r : ReservationResponse)
      → ((u : UserBrief) → anchor.user ≡ some u → u.username ≡ namespace)
      → effective_label s anchor ≡ some label
      → In r s.reservations
      → extends s anchor namespace label now r ≡ true
      → IsLink r
  unfolding extends
  extends-IsLink namespace label r named e m ok = record {
    stored = m;
    other = ground arith;
    booking = ground arith;
    same_owner = λ u p. subst (λ n. owned_by n r ≡ true) (sym (named u p)) (ground arith);
    same_gpus = ground arith;
    same_label = (option_beq_iff _ _).0 label_test ∙ sym e;
    live = ground arith;
    no_noshow = ground arith;
  }
    where
      label_test : (effective_label s r == some label) ≡ true
      label_test = ground arith

  In-chain_candidates :
      (namespace label : String) (r : ReservationResponse)
      → In r (chain_candidates s anchor namespace label now)
      → In r s.reservations × (extends s anchor namespace label now r ≡ true)
  unfolding chain_candidates
  In-chain_candidates namespace label r m =
      In-keep (extends s anchor namespace label now) s.reservations r (In-sort_by slot_start _ r m)

  chain_candidates-In :
      (namespace label : String) (r : ReservationResponse)
      → In r s.reservations
      → extends s anchor namespace label now r ≡ true
      → In r (chain_candidates s anchor namespace label now)
  unfolding chain_candidates
  chain_candidates-In namespace label r m ok =
      sort_by-In slot_start _ r
        (keep-In (extends s anchor namespace label now) s.reservations r m ok)

  -- The chain as the loop builds it.
  IsGood : List ReservationResponse → Type 0
  IsGood rs = Linked (slot_end anchor) rs × Fresh [] rs × All IsLink rs

  chain_of-IsGood :
      (user : Option UserBrief) (label : Option String)
      → anchor.user ≡ user
      → effective_label s anchor ≡ label
      → IsGood (chain_of s anchor now user label)
  unfolding IsGood
  chain_of-IsGood none label p q = (tt, tt, tt)
  chain_of-IsGood (some u) none p q = (tt, tt, tt)
  chain_of-IsGood (some u) (some label) p q =
      let candidates = chain_candidates s anchor u.username label now in
      let (l, f, a) = chain_loop-IsChain candidates (length candidates) [] (slot_end anchor) in
      (l, f, All-of IsLink _ (λ r m. link r (All-In _ _ r a m)))
    where
      link :
          (r : ReservationResponse)
          → In r (chain_candidates s anchor u.username label now)
          → IsLink r
      link r m =
          let (stored, ok) = In-chain_candidates u.username label r m in
          extends-IsLink u.username label r
            (λ v e. ap (λ w. w.username) (some-injective v u (sym e ∙ p))) q stored ok

  -- The chain of a reservation: each window opens when the one before it closes, no reservation
  -- occurs twice, and each is a live stored booking of the same owner, class and size, other than
  -- the reservation itself and no declared no-show.
  pub chain_for-links : Linked (slot_end anchor) chain × Fresh [] chain × All IsLink chain
  unfolding chain_for IsGood
  chain_for-links = chain_of-IsGood anchor.user (effective_label s anchor) refl refl

  -- Every instant from the start of the reservation to the end of its guarantee lies in the window
  -- of the reservation itself, or of a reservation in its chain, which is a live stored booking of
  -- the same owner, class and size, other than the reservation itself and no declared no-show.
  pub guarantee_covered :
      (t : ℕ)
      → slot_start anchor ≤ t
      → t < compute_guaranteed_until s now anchor
      → (r : ReservationResponse) × ((r ≡ anchor) ⊎ (In r chain × IsLink r))
        × (slot_start r ≤ t)
        × (t < slot_end r)
  unfolding compute_guaranteed_until
  guarantee_covered t h k = elim (Bool-cases (ltb t (slot_end anchor))) [
    | inl e ↦ (anchor, inl refl, h, ground arith)
    | inr e ↦
        let (l, f, a) = chain_for-links in
        let (r, m, starts, ends) = Linked-covers (slot_end anchor) chain l t (ground arith) k in
        (r, inr (m, All-In IsLink chain r a m), starts, ends)
  ]

  module _ (u : UserBrief) (label : String) (p : anchor.user ≡ some u)
      (e : effective_label s anchor ≡ some label) where
    chain_eq : chain ≡ chain_of s anchor now (some u) (some label)
    unfolding chain_for
    chain_eq = ap₂ (chain_of s anchor now) p e

    chain_of-IsComplete :
        (q : ReservationResponse)
        → In q s.reservations
        → extends s anchor u.username label now q ≡ true
        → slot_start q ≡ chain_end (slot_end anchor) (chain_of s anchor now (some u) (some label))
        → contains q.id (ids (chain_of s anchor now (some u) (some label))) ≡ true
    chain_of-IsComplete q m ok starts =
        let candidates = chain_candidates s anchor u.username label now in
        unless_visited (
          chain_loop-IsComplete candidates (length candidates) [] (slot_end anchor)
            (length-unvisited_nil candidates) q (chain_candidates-In u.username label q m ok)
            starts)
      where
        unless_visited : {found : Bool} → (contains q.id [] ≡ true) ⊎ (found ≡ true) → found ≡ true
        unless_visited (inl h) = absurd (false≢true (unfold contains in h))
        unless_visited (inr h) = h

    guarantee_reaches :
        (q : ReservationResponse)
        → In q s.reservations
        → extends s anchor u.username label now q ≡ true
        → slot_start q ≡ compute_guaranteed_until s now anchor
        → contains q.id (ids chain) ≡ true
    unfolding compute_guaranteed_until
    guarantee_reaches q m ok starts =
        subst (λ c. contains q.id (ids c) ≡ true) (sym chain_eq)
          (chain_of-IsComplete q m ok
            (subst (λ c. slot_start q ≡ chain_end (slot_end anchor) c) chain_eq starts))

    -- Where the reservation has an owner and an effective label, the guarantee goes as far as it can:
    -- a stored reservation that passes the test of a link is in the chain already, or does not open
    -- where the guarantee ends.
    pub guarantee_maximal :
        (q : ReservationResponse)
        → In q s.reservations
        → extends s anchor u.username label now q ≡ true
        → (contains q.id (ids chain) ≡ true)
          ⊎ (slot_start q ≢ compute_guaranteed_until s now anchor)
    guarantee_maximal q m ok =
        elim (Bool-cases (slot_start q == compute_guaranteed_until s now anchor)) [
          | inl e ↦ inl (guarantee_reaches q m ok (ground arith))
          | inr e ↦ inr (λ h. ground arith)
        ]
