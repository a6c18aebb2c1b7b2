-- ===== src/Base/Dictionary.antt =====
-- A Python dictionary as an association list in insertion order. The first pair of a key counts,
-- and `insert` keeps the place of a key that is there already.
use mathlib.Core.Path.{◌≡◌, refl}
use mathlib.Core.Bool.{Bool, true, false}
use mathlib.Core.Option.{Option, none, some}
use mathlib.Core.List.{List, [], ◌∷◌}
use native.Mathlib.Omega.{arith}
use gpu_reservation_controll.Base.Tests.{Eq, ◌==◌, eq_self, if◌then◌else◌}

abbrev pub Dict {ℓ κ} : Type ℓ → Type κ → Type (ℓ ⊔ κ)
Dict K V = List (K × V)

module _ {ℓ κ} {K : Type ℓ} {V : Type κ} where
  -- `d.keys()` and `d.values()`.
  abbrev pub keys : Dict K V → List K
  keys [] = []
  keys ((k, v) ∷ d) = k ∷ keys d

  abbrev pub values : Dict K V → List V
  values [] = []
  values ((k, v) ∷ d) = v ∷ values d

module _ {ℓ κ} {K : Type ℓ} {V : Type κ} ⦃e : Eq K⦄ where
  -- `d.get(k)`.
  unfoldable pub get : K → Dict K V → Option V
  get k [] = none
  get k ((j, v) ∷ d) = if j == k then some v else get k d

  -- `d[k] = v`.
  unfoldable pub insert : K → V → Dict K V → Dict K V
  insert k v [] = (k, v) ∷ []
  insert k v ((j, w) ∷ d) = if j == k then (k, v) ∷ d else (j, w) ∷ insert k v d

  -- `d.pop(k, None)`.
  unfoldable pub erase : K → Dict K V → Dict K V
  erase k [] = []
  erase k ((j, w) ∷ d) = if j == k then erase k d else (j, w) ∷ erase k d

  -- `k in d`.
  unfoldable pub has_key : K → Dict K V → Bool
  has_key k [] = false
  has_key k ((j, w) ∷ d) = if j == k then true else has_key k d

  -- `d.get(k, v)`.
  unfoldable pub get_or : K → Dict K V → V → V
  unfolding get
  get_or k d v = elim (get k d) [ none ↦ v | some w ↦ w ]

  -- The laws need that the test on keys is an equality; it is read at the two pairs of keys.
  pub get-insert :
      (k j : K) (v : V) (d : Dict K V) → get j (insert k v d) ≡ (if k == j then some v else get j d)
  unfolding get insert
  get-insert k j v [] = refl
  get-insert k j v ((i, w) ∷ d) =
      ground (arith, e.beq_iff i k, e.beq_iff i j, e.beq_iff k j, get-insert k j v d)

  pub get-erase : (k j : K) (d : Dict K V) → get j (erase k d) ≡ (if k == j then none else get j d)
  unfolding get erase
  get-erase k j [] = ground arith
  get-erase k j ((i, w) ∷ d) =
      ground (arith, e.beq_iff i k, e.beq_iff i j, e.beq_iff k j, get-erase k j d)

  pub get-insert_self : (k : K) (v : V) (d : Dict K V) → get k (insert k v d) ≡ some v
  get-insert_self k v d = simp (get-insert, eq_self)

  pub get-erase_self : (k : K) (d : Dict K V) → get k (erase k d) ≡ none
  get-erase_self k d = simp (get-erase, eq_self)

  pub has_key-get :
      (k : K) (d : Dict K V) → has_key k d ≡ elim (get k d) [ none ↦ false | some _ ↦ true ]
  unfolding has_key get
  has_key-get k [] = refl
  has_key-get k ((j, w) ∷ d) = ground (arith, has_key-get k d)

  pub get_or-insert :
      (k j : K) (v w : V) (d : Dict K V)
      → get_or j (insert k v d) w ≡ (if k == j then v else get_or j d w)
  unfolding get_or
  get_or-insert k j v w d = ground (arith, get-insert k j v d)

  pub get_or-erase :
      (k j : K) (w : V) (d : Dict K V)
      → get_or j (erase k d) w ≡ (if k == j then w else get_or j d w)
  unfolding get_or
  get_or-erase k j w d = ground (arith, get-erase k j d)

  pub get_or-insert_self : (k : K) (v w : V) (d : Dict K V) → get_or k (insert k v d) w ≡ v
  get_or-insert_self k v w d = simp (get_or-insert, eq_self)
