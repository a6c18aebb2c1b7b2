-- ===== src/Samples/Examples.antt =====
-- The theorems on reservations, chains, matching and no-shows at the sample state.
use gpu_reservation_controll.Base.{
  All, Distinct, In, [], arith, best, collect, contains, erase, false, first, get, get_or, has_key,
  if◌then◌else◌, inl, inr, insert, insert_by, keep, max_by, min_by, nat_eq, none, not, option_eq,
  refl, some, sort_by, string_eq, sum_by, true, ◌&&◌, ◌+◌, ◌<◌, ◌||◌, ◌≡◌, ◌≢◌, ◌≤◌, ◌⊎◌,
}
use gpu_reservation_controll.Schemas.{ReservationResponse, owned_by, slot_end, slot_start}
use gpu_reservation_controll.State.{ControllerState, initial, pod_eq}
use gpu_reservation_controll.Matching.{
  admittable, available, effective_label, find_admittable_reservation, find_best_reservation,
  find_open_booking_for, matches, open_for, outlasts,
}
use gpu_reservation_controll.Matching.Selection.{
  find_admittable_reservation_sound, find_best_reservation_sound, find_open_booking_for-latest,
}
use gpu_reservation_controll.Guarantee.{chain_for, compute_guaranteed_until, extends}
use gpu_reservation_controll.Guarantee.Coverage.{
  IsLink, chain_for-links, guarantee_covered, guarantee_maximal,
}
use gpu_reservation_controll.Guarantee.Chain.{Fresh, Linked, ids}
use gpu_reservation_controll.NoShow.{check_noshow_deadlines, ended, update_noshow_tracking}
use gpu_reservation_controll.NoShow.Invariant.{Inv, Reach, Step, reachable-Inv}
use gpu_reservation_controll.NoShow.Deadlines.{check_noshow_deadlines-exact, is_due}
use gpu_reservation_controll.Samples.{alice, morning, noon, state}

until_300 : compute_guaranteed_until state 120 morning ≡ 300
unfolding compute_guaranteed_until keep first sort_by insert_by max_by min_by best contains get
    get_or insert erase has_key owned_by sum_by collect
until_300 = refl

guarantee_covered_example :
    (r : ReservationResponse) × ((r ≡ morning)
      ⊎ (In r (chain_for state morning 120) × IsLink state morning 120 r))
    × (slot_start r ≤ 250)
    × (250 < slot_end r)
guarantee_covered_example =
    guarantee_covered state morning 120 250 (omega arith) (omega (arith, until_300))

chain_for-links_example :
    Linked (slot_end morning) (chain_for state morning 120)
    × Fresh [] (chain_for state morning 120)
    × All (IsLink state morning 120) (chain_for state morning 120)
chain_for-links_example = chain_for-links state morning 120

label_h100 : effective_label state morning ≡ some "h100"
unfolding effective_label keep first sort_by insert_by max_by min_by best contains get get_or insert
    erase has_key owned_by sum_by collect
label_h100 = refl

noon-extends : extends state morning "alice" "h100" 120 noon ≡ true
unfolding extends keep first sort_by insert_by max_by min_by best contains get get_or insert erase
    has_key owned_by sum_by collect
noon-extends = refl

guarantee_maximal_example :
    (contains 2 (ids (chain_for state morning 120)) ≡ true)
    ⊎ (200 ≢ compute_guaranteed_until state 120 morning)
guarantee_maximal_example =
    guarantee_maximal state morning 120 alice "h100" refl label_h100 noon (inr (inl refl))
      noon-extends

best_is_morning : find_best_reservation state "alice" "h100" none (some 1) 120 ≡ some morning
unfolding find_best_reservation keep first sort_by insert_by max_by min_by best contains get get_or
    insert erase has_key owned_by sum_by collect
best_is_morning = refl

noon-matches : matches state "alice" "h100" none 120 noon ≡ true
unfolding matches keep first sort_by insert_by max_by min_by best contains get get_or insert erase
    has_key owned_by sum_by collect
noon-matches = refl

find_best_reservation_sound_example :
    In morning state.reservations
    × (120 < slot_end morning)
    × (contains 1 state.noshow_reservation_ids ≡ false)
    × ((2 < 1) ⊎ (1 ≤ 2) × (slot_start morning ≤ slot_start noon))
    × ((1 ≤ 2) ⊎ (slot_start morning ≤ slot_start noon))
find_best_reservation_sound_example =
    find_best_reservation_sound state "alice" "h100" none 1 120 morning noon best_is_morning
      (inr (inl refl)) noon-matches

admits_morning : find_admittable_reservation state "alice" "h100" 1 50 200 none ≡ some morning
unfolding find_admittable_reservation keep first sort_by insert_by max_by min_by best contains get
    get_or insert erase has_key owned_by sum_by collect
admits_morning = refl

noon-admittable : admittable state "alice" "h100" 1 50 200 none noon ≡ true
unfolding admittable keep first sort_by insert_by max_by min_by best contains get get_or insert
    erase has_key owned_by sum_by collect
noon-admittable = refl

find_admittable_reservation_sound_example :
    In morning state.reservations
    × (50 < slot_end morning)
    × (slot_start morning ≤ 50 + 200)
    × (1 ≤ available state morning none)
    × (contains 1 state.noshow_reservation_ids ≡ false)
    × (slot_start morning ≤ slot_start noon)
find_admittable_reservation_sound_example =
    find_admittable_reservation_sound state "alice" "h100" 1 50 200 none morning noon admits_morning
      (inr (inl refl)) noon-admittable

opens_morning : find_open_booking_for state "alice" "h100" 120 1 [] none ≡ some morning
unfolding find_open_booking_for keep first sort_by insert_by max_by min_by best contains get get_or
    insert erase has_key owned_by sum_by collect
opens_morning = refl

morning_open : open_for state "alice" "h100" 120 1 [] none morning ≡ true
unfolding open_for keep first sort_by insert_by max_by min_by best contains get get_or insert erase
    has_key owned_by sum_by collect
morning_open = refl

find_open_booking_for-latest_example :
    (slot_end morning ≤ slot_end morning) × (outlasts state [] morning morning ≡ false)
find_open_booking_for-latest_example =
    find_open_booking_for-latest state "alice" "h100" 120 1 [] none morning morning opens_morning
      (inl refl) morning_open

abbrev loaded : ControllerState
loaded = record initial { reservations = state.reservations }

abbrev armed : ControllerState
armed = update_noshow_tracking loaded 90 10 5

reachable-Inv_example : Inv (check_noshow_deadlines armed 700_000_000)
reachable-Inv_example = reachable-Inv (
    Reach.next
      (Reach.next (Reach.next Reach.here (Step.reload state.reservations)) (Step.update 90 10 5))
      (Step.check 700_000_000))

deadlines-Distinct : Distinct state.noshow_deadlines
unfolding has_key keep first sort_by insert_by max_by min_by best contains get get_or insert erase
    owned_by sum_by collect
deadlines-Distinct = (refl, (refl, tt))

check_noshow_deadlines-exact_example :
    (get 1 (check_noshow_deadlines state 120).noshow_deadlines
      ≡ (if is_due state 120 1 then none else get 1 state.noshow_deadlines))
    × (contains 1 (check_noshow_deadlines state 120).noshow_reservation_ids ≡ (
        contains 1 state.noshow_reservation_ids || is_due state 120 1 && not (ended state 120 1)))
    × (contains 1 (check_noshow_deadlines state 120).pending_noshow_cancels ≡ (
        contains 1 state.pending_noshow_cancels || is_due state 120 1 && not (ended state 120 1)))
check_noshow_deadlines-exact_example = check_noshow_deadlines-exact state 120 deadlines-Distinct 1
