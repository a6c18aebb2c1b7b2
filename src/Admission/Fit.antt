-- ===== src/Admission/Fit.antt =====
-- app/main.py: guards 4 and 5 of on-demand admission, which hold an ask whose GPUs could not
-- physically land. `_FitInputs` is the pair of arguments `placement` and `duration_seconds`.
use gpu_reservation_controll.Base.{
  Bool, Dict, List, Option, String, any, bind_at, collect, contains, false, get, get_or,
  if◌then◌else◌, is_none, keys, leb, ltb, ltb_ℤ, map, max_or_zero, min, nat_eq, none, not,
  option_eq, pos, some, string_eq, true, ℕ, ℤ, ◌&&◌, ◌*◌, ◌+◌, ◌-ℤ◌, ◌==◌, ◌||◌,
}
use gpu_reservation_controll.State.{ControllerState, OnDemandCandidate, pod_eq}
use gpu_reservation_controll.Placement.{NodePlacement}
use gpu_reservation_controll.Capacity.{placement_nodes}
use gpu_reservation_controll.OnDemand.{peak_committed_gpus}
use gpu_reservation_controll.Nodes.{NodeState, node_claims}
use gpu_reservation_controll.Admission.Retry.{short_retry_at}

pub record NodeFit : Type 0 where
  pub largest_free : ℤ
  pub claimed : ℕ
  pub narrowing : Option NodePlacement

-- `largest_free - claimed >= gpus`.
unfoldable pub fits : NodeFit → ℕ → Bool
fits f gpus = not (ltb_ℤ (f.largest_free -ℤ pos f.claimed) (pos gpus))

-- `max((free.get(n, 0) for n in allowed), default=0)`.
unfoldable pub largest_allowed : Dict String ℤ → List String → ℤ
largest_allowed free allowed = max_or_zero (map (λ n. get_or n free (pos 0)) allowed)

-- The opening where the placement leaves some nodes, or all of the class's.
unfoldable pub opening :
    NodeState → String → Option (Dict String ℤ) → Option (List String) → Option ℤ
unfolding largest_allowed
opening n gpu_class free none = get gpu_class n.node_free_by_class
opening n gpu_class none (some allowed) = none
opening n gpu_class (some free) (some allowed) = some (largest_allowed free allowed)

unfoldable pub node_fit :
    NodeState → String → OnDemandCandidate → Option NodePlacement → Option NodeFit
unfolding opening placement_nodes node_claims
node_fit n uid c placement =
    let free = get c.gpu_class_label n.node_free_by_node_class in
    let allowed =
      placement_nodes placement (bind_at free (λ nodes. some (keys nodes))) n.node_labels in
    let narrowing : Option NodePlacement = if is_none allowed then none else placement in
    if not (is_none narrowing) || (leb 2 c.gpu_requested || c.best_effort)
    then (elim (opening n c.gpu_class_label free allowed) [
      | none ↦ none
      | some largest ↦ some (record {
        largest_free = largest;
        claimed = node_claims n c.gpu_class_label allowed (some uid);
        narrowing = narrowing;
      })
    ])
    else none

-- Guard 4, for a class that the app over-counts.
unfoldable pub overcommit_holds : ControllerState → Bool → OnDemandCandidate → ℕ → ℕ → Bool
unfolding peak_committed_gpus
overcommit_holds s overcommit_fit c duration_seconds now =
    not c.best_effort
    && contains c.gpu_class_label s.overcommitted_gpu_classes
    && (if overcommit_fit
        then ltb (get_or c.gpu_class_label s.physical_gpu_capacity 0) (
            (peak_committed_gpus s c.gpu_class_label now (now + 1000000 * duration_seconds)).0
            + c.gpu_requested)
        else true)

-- Guard 5.
unfoldable pub fit_holds : Option NodeFit → ℕ → Bool
unfolding fits
fit_holds none gpus = false
fit_holds (some f) gpus = not (fits f gpus)

-- `_hold_on_fit`: the candidate, and whether it is held.
unfoldable pub hold_on_fit :
    ControllerState
    → NodeState
    → Bool
    → String
    → OnDemandCandidate
    → Option NodePlacement
    → ℕ
    → ℕ
    → OnDemandCandidate × Bool
unfolding overcommit_holds fit_holds node_fit short_retry_at
hold_on_fit s n overcommit_fit uid c placement duration_seconds now =
    if overcommit_holds s overcommit_fit c duration_seconds now
    then (record c { held_by_overcommit = true; next_attempt_at = short_retry_at now }, true)
    else if fit_holds (node_fit n uid c placement) c.gpu_requested
    then (record c { held_by_node_fit = true; next_attempt_at = short_retry_at now }, true)
    else (c, false)

-- One candidate of `_retry_node_fit_holds`: as it is, or due.
unfoldable pub is_woken : NodeState → String → String → OnDemandCandidate → Bool
unfolding fit_holds node_fit
is_woken n gpu_class uid c =
    c.held_by_node_fit
    && ((c.gpu_class_label == gpu_class)
        && not (fit_holds (node_fit n uid c c.placement) c.gpu_requested))

unfoldable pub wake : NodeState → String → ℕ → String → OnDemandCandidate → OnDemandCandidate
unfolding is_woken
wake n gpu_class now uid c =
    if is_woken n gpu_class uid c
    then record c { held_by_node_fit = false; next_attempt_at = min c.next_attempt_at now }
    else c

unfoldable pub retry_node_fit_holds :
    ControllerState → NodeState → String → ℕ → ControllerState × Bool
unfolding wake
retry_node_fit_holds s n gpu_class now = (
  record s {
    ondemand_candidates =
        collect (λ uid c. some (wake n gpu_class now uid c)) s.ondemand_candidates;
  },
  any (λ kv. is_woken n gpu_class kv.0 kv.1) s.ondemand_candidates,
)
