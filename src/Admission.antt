-- ===== src/Admission.antt =====
-- app/main.py: admitting a pod under its reservation. What the Kubernetes calls give and what other
-- tasks do to the shared state while a call waits for them are arguments: `fresh` is the pod that
-- `read_pod` gives, or none where it raises, `patched` whether `apply_toleration` returns, and
-- `meanwhile` the change of the state during the calls. `jitter` is the draw of `random.randint`.
pub mod Apply
pub mod Retry
pub mod Ranking
pub mod Fit
pub mod Room
use gpu_reservation_controll.Base.{
  Bool, List, Option, String, [], any, false, get_or, has_key, if◌then◌else◌, insert, ltb, nat_eq,
  none, not, option_eq, some, string_eq, true, ℕ, ◌&&◌, ◌*◌, ◌+◌, ◌==◌, ◌||◌,
}
use gpu_reservation_controll.State.{ControllerState, QueueEntry, pod_eq}
use gpu_reservation_controll.Placement.{NodePlacement}
use gpu_reservation_controll.Matching.{available}
use gpu_reservation_controll.Occupancy.{record_placement, release_pod}
use gpu_reservation_controll.Nodes.{NodeState, set_gpu_pod}

-- The two parts of `ControllerState` that an admission changes.
pub record Shared : Type 0 where
  pub controller : ControllerState
  pub nodes : NodeState

pub record Toleration : Type 0 where
  pub key : Option String
  pub value : Option String
  pub effect : Option String

-- What an admission reads of a pod.
pub record FreshPod : Type 0 where
  pub phase : Option String
  pub tolerations : List Toleration
  pub node_name : Option String
  pub placement : Option NodePlacement

unfoldable pub get_pod_phase : FreshPod → String
get_pod_phase pod = elim pod.phase [ none ↦ "" | some phase ↦ phase ]

unfoldable pub is_terminal_phase : FreshPod → Bool
unfolding get_pod_phase
is_terminal_phase pod = get_pod_phase pod == "Succeeded" || get_pod_phase pod == "Failed"

unfoldable pub pod_has_toleration : FreshPod → String → String → String → Bool
pod_has_toleration pod key value effect =
    any (λ t. (t.key == some key) && ((t.value == some value) && (t.effect == some effect)))
      pod.tolerations

-- `_jittered_retry_at`, with `jitter` between 120 and 300 seconds.
unfoldable pub jittered_retry_at : ℕ → ℕ → ℕ
jittered_retry_at jitter now = now + jitter * 1000000

-- The placement that is recorded before the first `await`, and whose it is.
unfoldable pub hold_slot : Shared → String → QueueEntry → Shared
unfolding record_placement
hold_slot w uid entry =
    let placed : ControllerState =
      record_placement w.controller entry.reservation.id uid entry.gpu_requested in
    record w {
      controller = record placed {
        holder_names = insert uid (entry.pod_namespace, entry.pod_name) w.controller.holder_names;
      };
    }

unfoldable pub release_slot : Shared → String → Shared
unfolding release_pod
release_slot w uid = record w { controller = (release_pod w.controller uid).0 }

unfoldable pub is_bound : FreshPod → Bool
is_bound pod = elim pod.node_name [ none ↦ false | some n ↦ not (n == "") ]

unfoldable pub note_admitted : Shared → String → QueueEntry → FreshPod → ℕ → Shared
unfolding set_gpu_pod is_bound
note_admitted w uid entry pod now =
    if not (has_key uid (get_or entry.reservation.id w.controller.occupancy []))
      || (has_key uid w.nodes.gpu_pods || is_bound pod)
    then w
    else record w {
      nodes =
          (set_gpu_pod w.nodes uid
            (some (record {
              namespace = entry.pod_namespace;
              name = entry.pod_name;
              gpu_class = entry.gpu_class_label;
              gpu_count = entry.gpu_requested;
              node_name = none;
              placement = pod.placement;
              reservation_id = some entry.reservation.id;
            }))
            now).0;
    }

-- `TOLERATION_KEY`.
abbrev pub toleration_key : String
toleration_key = "gpu-class-reservation"

-- Whether the entry is done with, the entry, which has another retry time where it is not, and the
-- state.
unfoldable pub after_read_pod :
    Shared → String → QueueEntry → ℕ → ℕ → Option FreshPod → Bool → Shared × QueueEntry × Bool
unfolding release_slot note_admitted is_terminal_phase pod_has_toleration jittered_retry_at
after_read_pod w uid entry jitter now none patched =
    (release_slot w uid, record entry { next_attempt_at = jittered_retry_at jitter now }, false)
after_read_pod w uid entry jitter now (some pod) patched =
    if is_terminal_phase pod
    then (release_slot w uid, entry, true)
    else if pod_has_toleration pod toleration_key entry.gpu_class_label "NoSchedule" || patched
    then (note_admitted w uid entry pod now, entry, true)
    else (
      release_slot w uid,
      record entry { next_attempt_at = jittered_retry_at jitter now },
      false,
    )

unfoldable pub try_apply_toleration :
    Shared
    → String
    → QueueEntry
    → ℕ
    → ℕ
    → Option FreshPod
    → Bool
    → (Shared → Shared)
    → Shared × QueueEntry × Bool
unfolding after_read_pod hold_slot available jittered_retry_at
try_apply_toleration w uid entry jitter now fresh patched meanwhile =
    if ltb (available w.controller entry.reservation (some uid)) entry.gpu_requested
    then (w, record entry { next_attempt_at = jittered_retry_at jitter now }, false)
    else after_read_pod (meanwhile (hold_slot w uid entry)) uid entry jitter now fresh patched
