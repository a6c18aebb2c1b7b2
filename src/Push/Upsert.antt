-- ===== src/Push/Upsert.antt =====
-- `apply_push_to_active` of app/controller.py: the last word on an id wins.
use gpu_reservation_controll.Base.{
  ℕ, ◌≡◌, refl, subst, ap, ◌∙◌, Option, none, some, false, ◌==◌, nat_eq, string_eq, List, [], ◌∷◌,
  Dict, get, insert, erase, values, get-insert, get-erase, Bool-cases, if◌then◌else◌, inl, inr,
  arith, Distinct, insert-Distinct, erase-Distinct, first, contains, All, has_key,
}
use gpu_reservation_controll.Schemas.{ReservationResponse}
use gpu_reservation_controll.Guarantee.{find_by_id}
use gpu_reservation_controll.NoShow.{reservation_ids}
use gpu_reservation_controll.Push.{index, upsert, upsert_all, apply_push_to_active}

-- The row that is left for an id after all rows: the last one with that id decides.
unfoldable pub last_word :
    ℕ → List ReservationResponse → Option ReservationResponse → Option ReservationResponse
last_word rid [] before = before
last_word rid (r ∷ rs) before =
    last_word rid rs
      (if r.id == rid then (if r.status == "active" then some r else none) else before)

unfoldable pub last_listed :
    ℕ → List ReservationResponse → Option ReservationResponse → Option ReservationResponse
last_listed rid [] before = before
last_listed rid (r ∷ rs) before = last_listed rid rs (if r.id == rid then some r else before)

pub get-index :
    (rs : List ReservationResponse) (rid : ℕ) (d : Dict ℕ ReservationResponse)
    → get rid (index rs d) ≡ last_listed rid rs (get rid d)
unfolding index last_listed
get-index [] rid d = refl
get-index (r ∷ rs) rid d =
    get-index rs rid (insert r.id r d) ∙ ap (last_listed rid rs) (get-insert r.id rid r d)

get-upsert :
    (r : ReservationResponse) (rid : ℕ) (d : Dict ℕ ReservationResponse)
    → get rid (upsert r d)
      ≡ (if r.id == rid then (if r.status == "active" then some r else none) else get rid d)
unfolding upsert
get-upsert r rid d = ground (arith, get-insert r.id rid r d, get-erase r.id rid d)

get-upsert_all :
    (rs : List ReservationResponse) (rid : ℕ) (d : Dict ℕ ReservationResponse)
    → get rid (upsert_all rs d) ≡ last_word rid rs (get rid d)
get-upsert_all [] rid d = unfold upsert_all last_word in refl
get-upsert_all (r ∷ rs) rid d =
    upsert_all_cons
    ∙ (get-upsert_all rs rid (upsert r d)
        ∙ ap (last_word rid rs) (get-upsert r rid d)
        ∙ last_word_cons)
  where
    upsert_all_cons : get rid (upsert_all (r ∷ rs) d) ≡ get rid (upsert_all rs (upsert r d))
    upsert_all_cons = unfold upsert_all in refl

    last_word_cons :
        last_word rid rs
          (if r.id == rid then (if r.status == "active" then some r else none) else get rid d)
        ≡ last_word rid (r ∷ rs) (get rid d)
    last_word_cons = unfold last_word in refl

-- Each row stands under its own id.
abbrev Keyed : Dict ℕ ReservationResponse → Type 0
Keyed d = Distinct d × All (λ kv. kv.0 ≡ kv.1.id) d

insert-Keyed :
    (r : ReservationResponse) (d : Dict ℕ ReservationResponse)
    → All (λ kv. kv.0 ≡ kv.1.id) d
    → All (λ kv. kv.0 ≡ kv.1.id) (insert r.id r d)
unfolding insert
insert-Keyed r [] h = (refl, tt)
insert-Keyed r ((k, v) ∷ d) h = elim (Bool-cases (k == r.id)) [
  | inl e ↦ rw e (refl, h.1)
  | inr e ↦ rw e (h.0, insert-Keyed r d h.1)
]

erase-Keyed :
    (k : ℕ) (d : Dict ℕ ReservationResponse)
    → All (λ kv. kv.0 ≡ kv.1.id) d
    → All (λ kv. kv.0 ≡ kv.1.id) (erase k d)
unfolding erase
erase-Keyed k [] h = tt
erase-Keyed k ((j, v) ∷ d) h = elim (Bool-cases (j == k)) [
  | inl e ↦ rw e (erase-Keyed k d h.1)
  | inr e ↦ rw e (h.0, erase-Keyed k d h.1)
]

index-Keyed :
    (rs : List ReservationResponse) (d : Dict ℕ ReservationResponse) → Keyed d → Keyed (index rs d)
unfolding index
index-Keyed [] d h = h
index-Keyed (r ∷ rs) d h = index-Keyed rs _ (insert-Distinct r.id r d h.0, insert-Keyed r d h.1)

upsert_all-Keyed :
    (rs : List ReservationResponse) (d : Dict ℕ ReservationResponse)
    → Keyed d
    → Keyed (upsert_all rs d)
unfolding upsert_all
upsert_all-Keyed [] d h = h
upsert_all-Keyed (r ∷ rs) d h = elim (Bool-cases (r.status == "active")) [
  | inl e ↦ rw e (upsert_all-Keyed rs _ (insert-Distinct r.id r d h.0, insert-Keyed r d h.1))
  | inr e ↦ rw e (upsert_all-Keyed rs _ (erase-Distinct r.id d h.0, erase-Keyed r.id d h.1))
]

-- Under `Keyed`, the first row of an id among the values is the row that a lookup finds.
find_by_id-values :
    (rid : ℕ) (d : Dict ℕ ReservationResponse)
    → All (λ kv. kv.0 ≡ kv.1.id) d
    → find_by_id rid (values d) ≡ get rid d
unfolding find_by_id get first
find_by_id-values rid [] h = refl
find_by_id-values rid ((k, v) ∷ d) h =
    ground (arith, find_by_id-values rid d h.1, ap (λ z. z == rid) h.0)

-- The row of an id after a push: what the last pushed row with that id says, which is the row if it
-- is active and none if it is not; without such a row, the last current row of that id.
pub apply_push_to_active-exact :
    (current pushed : List ReservationResponse) (rid : ℕ)
    → find_by_id rid (apply_push_to_active current pushed)
      ≡ last_word rid pushed (last_listed rid current none)
unfolding apply_push_to_active
apply_push_to_active-exact current pushed rid =
    find_by_id-values rid _ (upsert_all-Keyed pushed _ (index-Keyed current [] (tt, tt))).1
    ∙ (get-upsert_all pushed rid _ ∙ ap (last_word rid pushed) (get-index current rid [] ∙ start))
  where
    start : last_listed rid current (get rid []) ≡ last_listed rid current none
    start = unfold get in refl

-- No two rows share an id.
abbrev pub UniqueIds : List ReservationResponse → Type 0
UniqueIds [] = Unit
UniqueIds (r ∷ rs) = (contains r.id (reservation_ids rs) ≡ false) × UniqueIds rs

contains-values :
    (rid : ℕ) (d : Dict ℕ ReservationResponse)
    → All (λ kv. kv.0 ≡ kv.1.id) d
    → contains rid (reservation_ids (values d)) ≡ has_key rid d
unfolding contains has_key
contains-values rid [] h = refl
contains-values rid ((k, v) ∷ d) h =
    ground (arith, contains-values rid d h.1, ap (λ z. z == rid) h.0)

values-UniqueIds : (d : Dict ℕ ReservationResponse) → Keyed d → UniqueIds (values d)
values-UniqueIds [] h = tt
values-UniqueIds ((k, v) ∷ d) h = (
  subst (λ z. contains z (reservation_ids (values d)) ≡ false) h.1.0
      (contains-values k d h.1.1 ∙ h.0.0),
  values-UniqueIds d (h.0.1, h.1.1),
)

-- After a push no two active rows share an id.
pub apply_push_to_active-UniqueIds :
    (current pushed : List ReservationResponse) → UniqueIds (apply_push_to_active current pushed)
unfolding apply_push_to_active
apply_push_to_active-UniqueIds current pushed =
    values-UniqueIds _ (upsert_all-Keyed pushed _ (index-Keyed current [] (tt, tt)))
