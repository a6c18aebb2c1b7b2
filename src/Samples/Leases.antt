-- ===== src/Samples/Leases.antt =====
-- The theorems on the singleton Lease at a run of two instances: the first claims the Lease and
-- does not renew it, and the second takes it over 70 seconds later.
use gpu_reservation_controll.Lease.Takeover.{Lease-takeover}
use gpu_reservation_controll.Base.{
  Option, String, ap, arith, false, false≢true, nat_eq, none, option_eq, pos, refl, some,
  some-injective, string_eq, subst, suc, sym, true, zero, ℕ, ◌*◌, ◌+◌, ◌<◌, ◌==◌, ◌∙◌, ◌≡◌, ◌⊎◌,
}
use gpu_reservation_controll.Lease.{
  Decision, LeaseMode, LeaseObject, LeaseOutcome, LeaseWrite, ReadReply, acquire_after_read,
  body_of, claim_found, claim_write, lease_acquired, lease_age_seconds, lease_body, lease_expiry,
  lease_resource_version, or_number, past, whole_seconds,
}
use gpu_reservation_controll.Lease.Guard.{
  claim_singleton_lease, lease_duration_seconds, lease_guard_turn,
}
use gpu_reservation_controll.Lease.System.{
  ApiServer, Reach, Reads, Step, World, after_read, call_of, fresh, next_guard, settle, update,
}
use gpu_reservation_controll.Lease.Exclusion.{Reach-exclusive}

data Kept : Type 0 where
  bare early late : Kept

abbrev pod_name : ℕ → String
pod_name zero = String.[]
pod_name (suc n) = String.◌∷◌ "p" (pod_name n)

abbrev name_size : String → ℕ
name_size String.[] = 0
name_size (String.◌∷◌ c s) = suc (name_size s)

name_size-pod_name : (n : ℕ) → name_size (pod_name n) ≡ n
name_size-pod_name zero = refl
name_size-pod_name (suc n) = ap suc (name_size-pod_name n)

own_names : (i j : ℕ) → pod_name i ≡ pod_name j → i ≡ j
own_names i j h = sym (name_size-pod_name i) ∙ ap name_size h ∙ name_size-pod_name j

abbrev early_body : LeaseObject
early_body = lease_body (pod_name 0) 60 1000000 true 0 none

abbrev late_body : LeaseObject
late_body = lease_body (pod_name 1) 60 71000000 true 1 (some "1")

abbrev early_lease : LeaseObject
early_lease = record { resource_version = some "1"; spec = early_body.spec }

abbrev late_lease : LeaseObject
late_lease = record { resource_version = some "2"; spec = late_body.spec }

abbrev kept_lease : Kept → Option LeaseObject
kept_lease Kept.bare = none
kept_lease Kept.early = some early_lease
kept_lease Kept.late = some late_lease

data Admits : Kept → LeaseWrite → Kept → Type 0 where
  opened : Admits Kept.bare (LeaseWrite.create early_body) Kept.early
  replaced : Admits Kept.early (LeaseWrite.replace late_body) Kept.late

absent : (s t : Kept) (b : LeaseObject) → Admits s (LeaseWrite.create b) t → kept_lease s ≡ none
absent s t b Admits.opened = refl

current :
    (s t : Kept) (b : LeaseObject)
    → Admits s (LeaseWrite.replace b) t
    → (l : LeaseObject) × (v : String) × (kept_lease s ≡ some l)
      × (l.resource_version ≡ some v)
      × (b.resource_version ≡ some v)
unfolding lease_body
current s t b Admits.replaced = (early_lease, "1", refl, refl, refl)

wrote :
    (s t : Kept) (w : LeaseWrite)
    → Admits s w t
    → (m : LeaseObject) × (kept_lease t ≡ some m) × (m.spec ≡ (body_of w).spec)
wrote s t w Admits.opened = (early_lease, refl, refl)
wrote s t w Admits.replaced = (late_lease, refl, refl)

version_of :
    {k l : LeaseObject} {v : String}
    → some k ≡ some l
    → l.resource_version ≡ some v
    → k.resource_version ≡ some v
version_of p a = ap (λ z. z.resource_version) (some-injective _ _ p) ∙ a

versions_differ : {v : String} → some "1" ≡ some v → some "2" ≡ some v → ⊥
versions_differ {v} p q =
    false≢true (ap (λ z. z == "2") (some-injective "1" v p ∙ sym (some-injective "2" v q)))

same :
    (s t : Kept) (l m : LeaseObject) (v : String)
    → kept_lease s ≡ some l
    → kept_lease t ≡ some m
    → l.resource_version ≡ some v
    → m.resource_version ≡ some v
    → l ≡ m
same Kept.bare t l m v p q a b = cc
same Kept.early Kept.bare l m v p q a b = cc
same Kept.early Kept.early l m v p q a b = cc
same Kept.early Kept.late l m v p q a b = absurd (versions_differ (version_of p a) (version_of q b))
same Kept.late Kept.bare l m v p q a b = cc
same Kept.late Kept.early l m v p q a b = absurd (versions_differ (version_of q b) (version_of p a))
same Kept.late Kept.late l m v p q a b = cc

abbrev server : ApiServer
server = record {
  Store = Kept;
  stored = kept_lease;
  Accepts = Admits;
  create_absent = λ s t b ok. absent s t b ok;
  replace_current = λ s t b ok. current s t b ok;
  written = λ s t w ok. wrote s t w ok;
  one_content = λ s t l m v p q a b. same s t l m v p q a b;
}

abbrev Sample : Type 0
Sample = World server pod_name

abbrev fresh_world : Sample
fresh_world = record { store = Kept.bare; instances = λ i. fresh 0 }

abbrev called : Sample → ℕ → ℕ → ReadReply → Sample
called w i now reply = record {
  store = w.store;
  instances =
      update w.instances i (
        after_read (w.instances i) now (call_of (w.instances i).guard.held (pod_name i) now reply));
}

abbrev told : Sample → ℕ → Kept → LeaseOutcome → Sample
told w i t o = record { store = t; instances = update w.instances i (settle (w.instances i) o) }

abbrev held_early : Sample
held_early =
    told (called fresh_world 0 1000000 (ReadReply.not_found "404")) 0 Kept.early
      (lease_acquired (pod_name 0) LeaseMode.created none)

abbrev held_late : Sample
held_late =
    told (called held_early 1 71000000 (ReadReply.found early_lease)) 1 Kept.late
      (lease_acquired (pod_name 1) LeaseMode.takeover (some (pos 70)))

held_late-Reach : Reach server pod_name held_late
unfolding after_read call_of settle next_guard acquire_after_read lease_body claim_singleton_lease
    lease_guard_turn claim_found claim_write past lease_age_seconds lease_expiry or_number
    whole_seconds lease_resource_version
held_late-Reach =
    Reach.later
      (Reach.later
        (Reach.later
          (Reach.later (Reach.start Kept.bare (λ i. 0)) (
            Step.begin 0 1000000 (ReadReply.not_found "404") refl refl (omega arith)
              (Reads.absent "404" refl)))
          (Step.accepted 0 (LeaseWrite.create early_body) _ Kept.early refl Admits.opened))
        (Step.begin 1 71000000 (ReadReply.found early_lease) refl refl (omega arith)
          (Reads.present refl)))
      (Step.accepted 1 (LeaseWrite.replace late_body) _ Kept.late refl Admits.replaced)

Reach-exclusive_example :
    (1000000 + 1000000 * lease_duration_seconds < 71000000)
    ⊎ (71000000 + 1000000 * lease_duration_seconds < 1000000)
unfolding settle after_read call_of
Reach-exclusive_example =
    Reach-exclusive server pod_name own_names held_late held_late-Reach 0 1 1000000 71000000
      (λ e. absurd (omega (arith, e))) refl refl

-- The second instance after a startup that could not read the Lease.
abbrev unguarded : Sample
unguarded = record { store = Kept.early; instances = λ i. record (fresh 0) { starting = false } }

abbrev replacement : Decision → Option LeaseObject
replacement (Decision.answer o) = none
replacement (Decision.write w o) = some (body_of w)

takeover_allowed :
    (b : LeaseObject) (o : LeaseOutcome)
    → call_of false (pod_name 1) 71000000 (ReadReply.found early_lease)
      ≡ Decision.write (LeaseWrite.replace b) o
    → (t : Kept) × Admits Kept.early (LeaseWrite.replace b) t
unfolding call_of acquire_after_read lease_body claim_found claim_write past lease_age_seconds
    lease_expiry or_number whole_seconds lease_resource_version
takeover_allowed b o e = (
  Kept.late,
  subst (λ z. Admits Kept.early (LeaseWrite.replace z) Kept.late)
      (some-injective late_body b (ap replacement e)) Admits.replaced,
)

is_past :
    past (lease_age_seconds early_lease 71000000) (lease_expiry early_lease lease_duration_seconds)
    ≡ true
unfolding past lease_age_seconds lease_expiry or_number whole_seconds lease_body
is_past = refl

Lease-takeover_example :
    (u v : Sample) × Step server pod_name unguarded u
    × Step server pod_name u v
    × ((v.instances 1).guard.held ≡ true)
    × ((v.instances 1).confirmed ≡ some 71000000)
Lease-takeover_example =
    Lease-takeover server pod_name unguarded 1 71000000 early_lease refl refl refl (omega arith)
      refl is_past takeover_allowed
