-- ===== src/NoShow/Deadlines.antt =====
-- The no-show tracking of app/controller.py: which reservations are declared, and the invariant
-- that deadlines, declarations, pending cancels and claims keep.
use gpu_reservation_controll.Base.{
  ℕ, ◌≡◌, refl, none, some, Bool, false, ◌==◌, nat_eq, ◌&&◌, ◌||◌, not, List, [], ◌∷◌, get,
  contains, Distinct, contains-keys-keep, get-erase, contains-add, leb, Bool-cases, if◌then◌else◌,
  inl, inr, arith,
}
use gpu_reservation_controll.State.{ControllerState}
use gpu_reservation_controll.NoShow.{
  expired, ended, declare_noshow, declare_all, check_noshow_deadlines,
}

-- The reservation's deadline has passed, and no live pod claims it.
unfoldable pub is_due : ControllerState → ℕ → ℕ → Bool
is_due s now rid = elim (get rid s.noshow_deadlines) [
  | none ↦ false
  | some deadline ↦ leb deadline now && not (contains rid s.claimed_reservation_ids)
]

contains-expired :
    (s : ControllerState) (now rid : ℕ)
    → Distinct s.noshow_deadlines
    → contains rid (expired s now) ≡ is_due s now rid
unfolding expired is_due
contains-expired s now rid h =
    contains-keys-keep (λ kv. leb kv.1 now && not (contains kv.0 s.claimed_reservation_ids)) rid
      s.noshow_deadlines h

declare_all-deadlines :
    (now : ℕ) (rids : List ℕ) (s : ControllerState) (rid : ℕ)
    → get rid (declare_all now rids s).noshow_deadlines
      ≡ (if contains rid rids then none else get rid s.noshow_deadlines)
unfolding declare_all contains
declare_all-deadlines now [] s rid = refl
declare_all-deadlines now (r ∷ rids) s rid = ground (
  arith,
  declare_all-deadlines now rids (declare_noshow now s r) rid,
  get-erase r rid s.noshow_deadlines,
)

declare_noshow-ended :
    (now : ℕ) (s : ControllerState) (r rid : ℕ)
    → ended (declare_noshow now s r) now rid ≡ ended s now rid
unfolding declare_noshow
declare_noshow-ended now s r rid = elim (Bool-cases (ended s now r)) [
  | inl e ↦ rw e refl
  | inr e ↦ rw e refl
]

declare_noshow-declared :
    (now : ℕ) (s : ControllerState) (r rid : ℕ)
    → contains rid (declare_noshow now s r).noshow_reservation_ids
      ≡ (contains rid s.noshow_reservation_ids || (r == rid) && not (ended s now rid))
unfolding declare_noshow
declare_noshow-declared now s r rid = ground (arith, contains-add r rid s.noshow_reservation_ids)

declare_noshow-pending :
    (now : ℕ) (s : ControllerState) (r rid : ℕ)
    → contains rid (declare_noshow now s r).pending_noshow_cancels
      ≡ (contains rid s.pending_noshow_cancels || (r == rid) && not (ended s now rid))
unfolding declare_noshow
declare_noshow-pending now s r rid = ground (arith, contains-add r rid s.pending_noshow_cancels)

pub declare_all_cons :
    (now r : ℕ) (rids : List ℕ) (s : ControllerState)
    → declare_all now (r ∷ rids) s ≡ declare_all now rids (declare_noshow now s r)
unfolding declare_all
declare_all_cons now r rids s = refl

pub declare_all_nil : (now : ℕ) (s : ControllerState) → declare_all now [] s ≡ s
unfolding declare_all
declare_all_nil now s = refl

declare_all-declared :
    (now : ℕ) (rids : List ℕ) (s : ControllerState) (rid : ℕ)
    → contains rid (declare_all now rids s).noshow_reservation_ids
      ≡ (contains rid s.noshow_reservation_ids || contains rid rids && not (ended s now rid))
unfolding contains
declare_all-declared now [] s rid = rw (declare_all_nil now s) (ground arith)
declare_all-declared now (r ∷ rids) s rid = rw (declare_all_cons now r rids s) (
    ground (
      arith,
      declare_all-declared now rids (declare_noshow now s r) rid,
      declare_noshow-declared now s r rid,
      declare_noshow-ended now s r rid,
    ))

declare_all-pending :
    (now : ℕ) (rids : List ℕ) (s : ControllerState) (rid : ℕ)
    → contains rid (declare_all now rids s).pending_noshow_cancels
      ≡ (contains rid s.pending_noshow_cancels || contains rid rids && not (ended s now rid))
unfolding contains
declare_all-pending now [] s rid = rw (declare_all_nil now s) (ground arith)
declare_all-pending now (r ∷ rids) s rid = rw (declare_all_cons now r rids s) (
    ground (
      arith,
      declare_all-pending now rids (declare_noshow now s r) rid,
      declare_noshow-pending now s r rid,
      declare_noshow-ended now s r rid,
    ))

module _ (s : ControllerState) (now : ℕ) (distinct : Distinct s.noshow_deadlines) where
  -- Where the deadlines are a dictionary, a tick drops exactly the due deadlines, and declares and
  -- queues for cancelling exactly the due reservations whose window has not ended; what was declared
  -- or queued before stays so.
  pub check_noshow_deadlines-exact :
      (rid : ℕ)
      → (get rid (check_noshow_deadlines s now).noshow_deadlines
          ≡ (if is_due s now rid then none else get rid s.noshow_deadlines))
        × (contains rid (check_noshow_deadlines s now).noshow_reservation_ids
            ≡ (contains rid s.noshow_reservation_ids || is_due s now rid && not (ended s now rid)))
        × (contains rid (check_noshow_deadlines s now).pending_noshow_cancels
            ≡ (contains rid s.pending_noshow_cancels || is_due s now rid && not (ended s now rid)))
  check_noshow_deadlines-exact rid = (
    rw (
      check_eq,
      declare_all-deadlines now (expired s now) s rid,
      contains-expired s now rid distinct,
    ),
    rw (
      check_eq,
      declare_all-declared now (expired s now) s rid,
      contains-expired s now rid distinct,
    ),
    rw (
      check_eq,
      declare_all-pending now (expired s now) s rid,
      contains-expired s now rid distinct,
    ),
  )
    where
      check_eq : check_noshow_deadlines s now ≡ declare_all now (expired s now) s
      check_eq = unfold check_noshow_deadlines in refl
