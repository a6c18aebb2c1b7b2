-- ===== src/Base/UniqueKeys.antt =====
-- What Python guarantees of a dictionary, that no key occurs twice, and what follows from it.
use mathlib.Core.Path.{◌≡◌, refl, subst, ap}
use mathlib.Core.Logic.{inl, inr}
use mathlib.Core.Bool.{Bool, true, false, ◌||◌}
use mathlib.Core.Option.{none, some}
use mathlib.Core.List.{List, [], ◌∷◌}
use native.Mathlib.Omega.{arith}
use gpu_reservation_controll.Base.Tests.{Eq, ◌==◌, if◌then◌else◌, Bool-cases}
use gpu_reservation_controll.Base.Dictionary.{Dict, keys, get, insert, erase, has_key, get-erase}
use gpu_reservation_controll.Base.Lists.{In, keep}
use gpu_reservation_controll.Base.Sets.{contains}

module _ {ℓ κ} {K : Type ℓ} {V : Type κ} ⦃e : Eq K⦄ where
  abbrev pub Distinct : Dict K V → Type 0
  Distinct [] = Unit
  Distinct ((k, v) ∷ d) = (has_key k d ≡ false) × Distinct d

  pub has_key-insert :
      (k j : K) (v : V) (d : Dict K V) → has_key j (insert k v d) ≡ (k == j || has_key j d)
  unfolding has_key insert
  has_key-insert k j v [] = ground arith
  has_key-insert k j v ((i, w) ∷ d) =
      ground (arith, e.beq_iff i k, e.beq_iff i j, e.beq_iff k j, has_key-insert k j v d)

  pub has_key-erase :
      (k j : K) (d : Dict K V) → has_key j (erase k d) ≡ (if k == j then false else has_key j d)
  unfolding has_key erase
  has_key-erase k j [] = ground arith
  has_key-erase k j ((i, w) ∷ d) =
      ground (arith, e.beq_iff i k, e.beq_iff i j, e.beq_iff k j, has_key-erase k j d)

  pub insert-Distinct : (k : K) (v : V) (d : Dict K V) → Distinct d → Distinct (insert k v d)
  unfolding insert has_key
  insert-Distinct k v [] h = (refl, tt)
  insert-Distinct k v ((i, w) ∷ d) h = elim (Bool-cases (i == k)) [
    | inl p ↦ rw p (subst (λ z. has_key z d ≡ false) ((e.beq_iff i k).0 p) h.0, h.1)
    | inr p ↦ rw p (
      ground (arith, has_key-insert k i v d, e.beq_iff k i, e.beq_iff i k),
      insert-Distinct k v d h.1,
    )
  ]

  pub erase-Distinct : (k : K) (d : Dict K V) → Distinct d → Distinct (erase k d)
  unfolding erase
  erase-Distinct k [] h = tt
  erase-Distinct k ((i, w) ∷ d) h = elim (Bool-cases (i == k)) [
    | inl p ↦ rw p (erase-Distinct k d h.1)
    | inr p ↦ rw p (ground (arith, has_key-erase k i d), erase-Distinct k d h.1)
  ]

  pub has_key-none : (k : K) (d : Dict K V) → has_key k d ≡ false → get k d ≡ none
  unfolding has_key get
  has_key-none k [] h = refl
  has_key-none k ((i, w) ∷ d) h = ground (arith, has_key-none k d)

  pub none-has_key : (k : K) (d : Dict K V) → get k d ≡ none → has_key k d ≡ false
  unfolding has_key get
  none-has_key k [] h = refl
  none-has_key k ((i, w) ∷ d) h = ground (arith, none-has_key k d)

  pub In-has_key : (k : K) (v : V) (d : Dict K V) → In (k, v) d → has_key k d ≡ true
  unfolding has_key
  In-has_key k v [] m = absurd m.0
  In-has_key k v ((i, w) ∷ d) (inl q) = rw ((e.beq_iff i k).1 (ap (λ p. p.0) q))
  In-has_key k v ((i, w) ∷ d) (inr q) = ground (arith, In-has_key k v d q)

  -- A listed pair is the one that a lookup finds.
  pub In-get : (k : K) (v : V) (d : Dict K V) → Distinct d → In (k, v) d → get k d ≡ some v
  unfolding get
  In-get k v [] h m = absurd m.0
  In-get k v ((i, w) ∷ d) h (inl q) =
      rw ((e.beq_iff i k).1 (ap (λ p. p.0) q)) (ap (λ p. some p.1) q)
  In-get k v ((i, w) ∷ d) h (inr q) = elim (Bool-cases (i == k)) [
    | inl p ↦ clash (subst (λ z. has_key z d ≡ false) ((e.beq_iff i k).0 p) h.0)
    | inr p ↦ rw p (In-get k v d h.1 q)
  ]
    where
      clash : has_key k d ≡ false → get k ((i, w) ∷ d) ≡ some v
      clash c = ground (arith, In-has_key k v d q)

  pub get-In : (k : K) (v : V) (d : Dict K V) → get k d ≡ some v → In (k, v) d
  unfolding get
  get-In k v [] h = cc
  get-In k v ((i, w) ∷ d) h = elim (Bool-cases (i == k)) [
    | inl p ↦ inl (pair_eq ((e.beq_iff i k).0 p) (ground arith))
    | inr p ↦ inr (get-In k v d (ground arith))
  ]
    where
      pair_eq : i ≡ k → w ≡ v → ◌≡◌ {A = K × V} (i, w) (k, v)
      pair_eq a b = λ t. (a t, b t)

  -- `for k in ks: d.pop(k, None)`.
  unfoldable pub erase_all : List K → Dict K V → Dict K V
  erase_all [] d = d
  erase_all (k ∷ ks) d = erase_all ks (erase k d)

  pub get-erase_all :
      (ks : List K) (j : K) (d : Dict K V)
      → get j (erase_all ks d) ≡ (if contains j ks then none else get j d)
  unfolding erase_all contains
  get-erase_all [] j d = refl
  get-erase_all (k ∷ ks) j d = ground (arith, get-erase_all ks j (erase k d), get-erase k j d)

  pub erase_all-Distinct : (ks : List K) (d : Dict K V) → Distinct d → Distinct (erase_all ks d)
  unfolding erase_all
  erase_all-Distinct [] d h = h
  erase_all-Distinct (k ∷ ks) d h = erase_all-Distinct ks (erase k d) (erase-Distinct k d h)

  contains-keys_none :
      (p : K × V → Bool) (j : K) (d : Dict K V)
      → has_key j d ≡ false
      → contains j (keys (keep p d)) ≡ false
  unfolding contains keep has_key
  contains-keys_none p j [] h = refl
  contains-keys_none p j ((i, w) ∷ d) h = ground (arith, contains-keys_none p j d)

  -- The keys that a comprehension over the pairs selects.
  pub contains-keys-keep :
      (p : K × V → Bool) (j : K) (d : Dict K V)
      → Distinct d
      → contains j (keys (keep p d)) ≡ elim (get j d) [ none ↦ false | some v ↦ p (j, v) ]
  unfolding contains keep get
  contains-keys-keep p j [] h = refl
  contains-keys-keep p j ((i, w) ∷ d) h = elim (Bool-cases (i == j)) [
    | inl q ↦
        let same = (e.beq_iff i j).0 q in
        rw q (found same (subst (λ z. has_key z d ≡ false) same h.0))
    | inr q ↦ rw q (ground (arith, contains-keys-keep p j d h.1))
  ]
    where
      found : i ≡ j → has_key j d ≡ false → contains j (keys (keep p ((i, w) ∷ d))) ≡ p (j, w)
      found same gone =
          ground (arith, contains-keys_none p j d gone, e.beq_iff i j, ap (λ z. p (z, w)) same)
