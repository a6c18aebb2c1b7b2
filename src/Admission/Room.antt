-- ===== src/Admission/Room.antt =====
-- What app/main.py's guards 4 and 5 leave room for.
use gpu_reservation_controll.OnDemand.{peak_committed_gpus}
use gpu_reservation_controll.Base.{
  -ℤ_parts, Bool, Bool-cases, Option, String, arith, contains, false, false≢true, first, get_or,
  inl, inr, nat_eq, option_eq, pos, refl, some, string_eq, subst, sym, true, ℕ, ◌*◌, ◌+◌, ◌<◌, ◌≡◌,
  ◌≤ℤ◌, ◌≤◌,
}
use gpu_reservation_controll.State.{ControllerState, OnDemandCandidate, pod_eq}
use gpu_reservation_controll.Placement.{NodePlacement}
use gpu_reservation_controll.OnDemand.Peak.{calendar, peak_committed_gpus-exact}
use gpu_reservation_controll.Nodes.{NodeState}
use gpu_reservation_controll.Admission.Fit.{
  NodeFit, fit_holds, fits, hold_on_fit, node_fit, overcommit_holds,
}

fits-le : (f : NodeFit) (gpus : ℕ) → fits f gpus ≡ true → pos (gpus + f.claimed) ≤ℤ f.largest_free
unfolding fits
fits-le f gpus h = ground (arith, -ℤ_parts f.largest_free (pos f.claimed))

fit_holds-false : (f : NodeFit) (gpus : ℕ) → fit_holds (some f) gpus ≡ false → fits f gpus ≡ true
unfolding fit_holds
fit_holds-false f gpus h = ground (arith, h)

-- Where guard 4 judges by the calendar and does not hold, the peak and the ask fit.
overcommit_holds-false :
    (s : ControllerState) (overcommit_fit : Bool) (c : OnDemandCandidate) (duration_seconds now : ℕ)
    → overcommit_holds s overcommit_fit c duration_seconds now ≡ false
    → c.best_effort ≡ false
    → contains c.gpu_class_label s.overcommitted_gpu_classes ≡ true
    → (overcommit_fit ≡ true)
      × ((peak_committed_gpus s c.gpu_class_label now (now + 1000000 * duration_seconds)).0
            + c.gpu_requested
          ≤ get_or c.gpu_class_label s.physical_gpu_capacity 0)
unfolding overcommit_holds
overcommit_holds-false s true c duration_seconds now h guaranteed over =
    (refl, ground (arith, h, guaranteed, over))
overcommit_holds-false s false c duration_seconds now h guaranteed over =
    absurd (ground (arith, h, guaranteed, over))

module _ (s : ControllerState) (n : NodeState) (overcommit_fit : Bool) (uid : String)
    (c : OnDemandCandidate) (placement : Option NodePlacement) (duration_seconds now : ℕ) where
  hold_on_fit-free :
      (hold_on_fit s n overcommit_fit uid c placement duration_seconds now).1 ≡ false
      → (overcommit_holds s overcommit_fit c duration_seconds now ≡ false)
        × (fit_holds (node_fit n uid c placement) c.gpu_requested ≡ false)
  unfolding hold_on_fit
  hold_on_fit-free free =
      elim (Bool-cases (overcommit_holds s overcommit_fit c duration_seconds now)) [
        | inl e ↦ absurd (held (rw e at free))
        | inr e ↦ elim (Bool-cases (fit_holds (node_fit n uid c placement) c.gpu_requested)) [
          | inl k ↦ absurd (held (rw (e, k) at free))
          | inr k ↦ (e, k)
        ]
      ]
    where
      held : true ≡ false → ⊥
      held p = false≢true (sym p)

  -- Where a candidate for a guaranteed lease of a class that the app over-counts is not held, then
  -- at every instant of the lease what the calendar commits of the class and the ask together are no
  -- more than the GPUs that physically exist.
  pub hold_on_fit-room :
      (hold_on_fit s n overcommit_fit uid c placement duration_seconds now).1 ≡ false
      → c.best_effort ≡ false
      → contains c.gpu_class_label s.overcommitted_gpu_classes ≡ true
      → (t : ℕ) → now ≤ t
      → t < now + 1000000 * duration_seconds
      → calendar s c.gpu_class_label t + c.gpu_requested
        ≤ get_or c.gpu_class_label s.physical_gpu_capacity 0
  hold_on_fit-room free guaranteed over t h k =
      let (e, unheld) = hold_on_fit-free free in
      let (on, below) =
        overcommit_holds-false s overcommit_fit c duration_seconds now e guaranteed over in
      let (from, before, at_peak, most, first) =
        peak_committed_gpus-exact s c.gpu_class_label now (now + 1000000 * duration_seconds) t h
          k in
      omega (arith, below, most)

  -- Where a candidate is not held and its room on one node is judged, the largest opening on one
  -- node, less what admitted pods that are not bound may still take there, has the GPUs of the ask.
  pub hold_on_fit-opening :
      (hold_on_fit s n overcommit_fit uid c placement duration_seconds now).1 ≡ false
      → (f : NodeFit) → node_fit n uid c placement ≡ some f
      → pos (c.gpu_requested + f.claimed) ≤ℤ f.largest_free
  hold_on_fit-opening free f q =
      let (unheld, e) = hold_on_fit-free free in
      fits-le f c.gpu_requested
        (fit_holds-false f c.gpu_requested (subst (λ o. fit_holds o c.gpu_requested ≡ false) q e))
