-- ===== src/Matching/NearMiss.antt =====
-- app/controller.py: the bookings of a user that a pod narrowly failed to match, and who holds
-- a reservation. `sort` is Python's `sorted` on texts.
use gpu_reservation_controll.Base.{
  Bool, Bool-cases, Dict, List, Option, Permᴰ, String, [], add, any, ap, arith, contains,
  contains-Perm, contains-add, false, get, get_or, if◌then◌else◌, inl, inr, ltb, nat_eq, none, not,
  option_eq, refl, some, string_eq, suc, sym, true, ℕ, ◌&&◌, ◌==◌, ◌||◌, ◌∙◌, ◌∷◌, ◌≡◌,
}
use gpu_reservation_controll.Schemas.{
  GroupBrief, ReservationResponse, is_booking, owned_by, slot_end,
}
use gpu_reservation_controll.State.{ControllerState, pod_eq}
use gpu_reservation_controll.Matching.{effective_label, group_ok}

pub record NearMiss : Type 0 where
  pub other_groups : List String
  pub other_classes : List String

-- By whether the group of the booking is the pod's.
unfoldable pub note_group : Option GroupBrief → Bool → NearMiss → NearMiss
note_group none ok seen = seen
note_group (some g) ok seen =
    if ok then seen else record seen { other_groups = add g.name seen.other_groups }

-- By the label of the booking and the pod's.
unfoldable pub note_label : Option String → String → Option GroupBrief → Bool → NearMiss → NearMiss
unfolding note_group
note_label none gpu_class group ok seen = seen
note_label (some label) gpu_class group ok seen =
    if label == gpu_class
    then note_group group ok seen
    else record seen { other_classes = add label seen.other_classes }

-- `(names, others)` over the occupants.
unfoldable pub holders_loop :
    Dict String (String × String) → String → Option String → Dict String ℕ → List String × ℕ
holders_loop names namespace exclude [] = ([], 0)
holders_loop names namespace exclude ((uid, g) ∷ occupants) =
    let rest = holders_loop names namespace exclude occupants in
    if some uid == exclude then rest else elim (get uid names) [
      | none ↦ (rest.0, suc rest.1)
      | some (ns, name) ↦ if ns == namespace then (name ∷ rest.0, rest.1) else (rest.0, suc rest.1)
    ]

unfoldable pub reservation_holders :
    (List String → List String) → ControllerState → ℕ → String → Option String → List String × ℕ
unfolding holders_loop
reservation_holders sort s rid namespace exclude =
    let holders = holders_loop s.holder_names namespace exclude (get_or rid s.occupancy []) in
    (sort holders.0, holders.1)

-- A label that is `c` differs from the pod's where `c` does.
shift : (l c g : String) → ((l == c) && not (c == g)) ≡ ((l == c) && not (l == g))
shift l c g = elim (Bool-cases (l == c)) [
  | inl q ↦ ap (λ z. (l == c) && not (z == g)) (sym ((string_eq.beq_iff l c).0 q))
  | inr q ↦ rw q refl
]

module _ (s : ControllerState) (namespace gpu_class : String) (group_label : Option String)
    (now : ℕ) where
  -- What does not `continue` at the first guard.
  unfoldable pub is_live_booking : ReservationResponse → Bool
  is_live_booking r =
      is_booking r
      && (owned_by namespace r
          && (ltb now (slot_end r) && not (contains r.id s.noshow_reservation_ids)))

  unfoldable pub near_miss_loop : List ReservationResponse → NearMiss → NearMiss
  unfolding note_label is_live_booking effective_label group_ok
  near_miss_loop [] seen = seen
  near_miss_loop (r ∷ rs) seen = near_miss_loop rs (
      if is_live_booking r
      then note_label (effective_label s r) gpu_class r.group (group_ok s r group_label) seen
      else seen)

  unfoldable pub near_miss_bookings : (List String → List String) → NearMiss
  unfolding near_miss_loop
  near_miss_bookings sort =
      let seen = near_miss_loop s.reservations (record { other_groups = []; other_classes = [] }) in
      record { other_groups = sort seen.other_groups; other_classes = sort seen.other_classes }

  -- A booking whose class is `c`, and not the pod's.
  abbrev pub misses_class : String → ReservationResponse → Bool
  misses_class c r = is_live_booking r && ((effective_label s r == some c) && not (c == gpu_class))

  abbrev pub is_named : String → Option GroupBrief → Bool
  is_named name none = false
  is_named name (some g) = g.name == name

  -- A booking of the pod's class, whose group is `name` and not the pod's.
  abbrev pub misses_group : String → ReservationResponse → Bool
  misses_group name r =
      is_live_booking r
      && ((effective_label s r == some gpu_class)
          && (not (group_ok s r group_label) && is_named name r.group))

  note_label-classes :
      (label : Option String) (group : Option GroupBrief) (ok : Bool) (seen : NearMiss) (c : String)
      → contains c (note_label label gpu_class group ok seen).other_classes
        ≡ (contains c seen.other_classes || ((label == some c) && not (c == gpu_class)))
  unfolding note_label note_group
  note_label-classes none group ok seen c = ground arith
  note_label-classes (some l) none ok seen c =
      ground (arith, shift l c gpu_class, contains-add l c seen.other_classes)
  note_label-classes (some l) (some g) ok seen c =
      ground (arith, shift l c gpu_class, contains-add l c seen.other_classes)

  note_label-groups :
      (label : Option String) (group : Option GroupBrief) (ok : Bool) (seen : NearMiss)
      (name : String)
      → contains name (note_label label gpu_class group ok seen).other_groups ≡ (
          contains name seen.other_groups
          || ((label == some gpu_class) && (not ok && is_named name group)))
  unfolding note_label note_group
  note_label-groups none group ok seen name = ground arith
  note_label-groups (some l) none ok seen name = ground arith
  note_label-groups (some l) (some g) ok seen name =
      ground (arith, contains-add g.name name seen.other_groups)

  near_miss_loop-exact :
      (rs : List ReservationResponse) (seen : NearMiss) (t : String)
      → (contains t (near_miss_loop rs seen).other_classes
          ≡ (contains t seen.other_classes || any (misses_class t) rs))
        × (contains t (near_miss_loop rs seen).other_groups
            ≡ (contains t seen.other_groups || any (misses_group t) rs))
  unfolding near_miss_loop any
  near_miss_loop-exact [] seen t = (ground arith, ground arith)
  near_miss_loop-exact (r ∷ rs) seen t =
      let (classes, groups) = near_miss_loop-exact rs (noted_at (is_live_booking r)) t in
      (
        classes ∙ ground (arith, (noted (is_live_booking r)).0),
        groups ∙ ground (arith, (noted (is_live_booking r)).1),
      )
    where
      noted_at : Bool → NearMiss
      noted_at live =
          if live
          then note_label (effective_label s r) gpu_class r.group (group_ok s r group_label) seen
          else seen

      noted :
          (live : Bool)
          → (contains t (noted_at live).other_classes ≡ (
              contains t seen.other_classes
              || (live && ((effective_label s r == some t) && not (t == gpu_class)))))
            × (contains t (noted_at live).other_groups ≡ (
                contains t seen.other_groups
                || (live
                    && ((effective_label s r == some gpu_class)
                        && (not (group_ok s r group_label) && is_named t r.group)))))
      noted true = (
        note_label-classes (effective_label s r) r.group (group_ok s r group_label) seen t,
        note_label-groups (effective_label s r) r.group (group_ok s r group_label) seen t,
      )
      noted false = (ground arith, ground arith)

  pub near_miss_bookings-exact :
      (sort : List String → List String)
      → ((names : List String) → Permᴰ names (sort names))
      → (t : String)
      → (contains t (near_miss_bookings sort).other_classes ≡ any (misses_class t) s.reservations)
        × (contains t (near_miss_bookings sort).other_groups ≡ any (misses_group t) s.reservations)
  unfolding near_miss_bookings contains
  near_miss_bookings-exact sort sorted t =
      let none_seen : NearMiss = record { other_groups = []; other_classes = [] } in
      let seen = near_miss_loop s.reservations none_seen in
      let (classes, groups) = near_miss_loop-exact s.reservations none_seen t in
      (
        sym (contains-Perm t (sorted seen.other_classes)) ∙ classes,
        sym (contains-Perm t (sorted seen.other_groups)) ∙ groups,
      )
