-- ===== src/Lease/System.antt =====
-- Any number of instances of the controller, each with its startup and its `lease_guard_loop` of
-- app/main.py, over one API server. A call is two steps, its read and its write, and the calls of
-- different instances interleave in any order.
use gpu_reservation_controll.Base.{
  Bool, Option, String, false, if◌then◌else◌, nat_eq, none, option_eq, some, string_eq, true, ℕ,
  ◌==◌, ◌≡◌, ◌≤◌,
}
use gpu_reservation_controll.Lease.{
  Decision, LeaseObject, LeaseOutcome, LeaseStatus, LeaseWrite, ReadReply, acquire_after_read,
  body_of, lease_error, renew_after_read,
}
use gpu_reservation_controll.Lease.Guard.{
  Guard, claim_singleton_lease, lease_duration_seconds, lease_guard_turn,
}

-- The API server: what it stores, and which writes it accepts. A create needs that nothing is
-- stored, and a replace the resource version that is stored; one version names one content.
pub record ApiServer : Type 1 where
  pub Store : Type 0
  pub stored : Store → Option LeaseObject
  pub Accepts : Store → LeaseWrite → Store → Type 0
  pub create_absent :
      (s t : Store) (b : LeaseObject) → Accepts s (LeaseWrite.create b) t → stored s ≡ none
  pub replace_current :
      (s t : Store) (b : LeaseObject)
      → Accepts s (LeaseWrite.replace b) t
      → (l : LeaseObject) × (v : String) × (stored s ≡ some l)
        × (l.resource_version ≡ some v)
        × (b.resource_version ≡ some v)
  pub written :
      (s t : Store) (w : LeaseWrite)
      → Accepts s w t
      → (m : LeaseObject) × (stored t ≡ some m) × (m.spec ≡ (body_of w).spec)
  pub one_content :
      (s t : Store) (l m : LeaseObject) (v : String)
      → stored s ≡ some l
      → stored t ≡ some m
      → l.resource_version ≡ some v
      → m.resource_version ≡ some v
      → l ≡ m

-- An instance: whether it still has to start, its guard, the instant of its latest call, the
-- instant of the latest call that told it that it holds the Lease, and the write it waits for.
pub record Instance : Type 0 where
  pub starting : Bool
  pub guard : Guard
  pub clock : ℕ
  pub confirmed : Option ℕ
  pub pending : Option (LeaseWrite × LeaseOutcome)

abbrev pub fresh : ℕ → Instance
fresh clock = record {
  starting = true;
  guard = record { held = false; fails = 0; terminated = false };
  clock = clock;
  confirmed = none;
  pending = none;
}

abbrev pub confirms : LeaseStatus → Bool
confirms LeaseStatus.acquired = true
confirms LeaseStatus.held_by_other = false
confirms LeaseStatus.lost = false
confirms LeaseStatus.error = false

-- `lease_guard_loop(config, held=await _claim_singleton_lease(config))`.
unfoldable pub next_guard : Bool → Guard → LeaseStatus → Guard
unfolding claim_singleton_lease lease_guard_turn
next_guard false g status = lease_guard_turn g status
next_guard true g status = elim (claim_singleton_lease status) [
  | none ↦ record g { terminated = true }
  | some held ↦ record g { held = held }
]

unfoldable pub settle : Instance → LeaseOutcome → Instance
unfolding next_guard
settle p o = record {
  starting = false;
  guard = next_guard p.starting p.guard o.status;
  clock = p.clock;
  confirmed = if confirms o.status then some p.clock else p.confirmed;
  pending = none;
}

-- The call of a turn: a renewal where the Lease is held.
unfoldable pub call_of : Bool → String → ℕ → ReadReply → Decision
unfolding renew_after_read acquire_after_read
call_of held holder now reply =
    if held
    then renew_after_read holder lease_duration_seconds now reply
    else acquire_after_read holder lease_duration_seconds now reply

unfoldable pub after_read : Instance → ℕ → Decision → Instance
unfolding settle
after_read p now (Decision.answer o) = settle (record p { clock = now }) o
after_read p now (Decision.write w o) = record p { clock = now; pending = some (w, o) }

abbrev pub update : (ℕ → Instance) → ℕ → Instance → ℕ → Instance
update f i p k = if i == k then p else f k

module _ (api : ApiServer) (name : ℕ → String) where
  pub record World : Type 0 where
    pub store : api.Store
    pub instances : ℕ → Instance

  -- What a read can give: the stored Lease, that there is none, or an error.
  pub data Reads (s : api.Store) : ReadReply → Type 0 where
    present : {l : LeaseObject} → api.stored s ≡ some l → Reads s (ReadReply.found l)
    absent : (e : String) → api.stored s ≡ none → Reads s (ReadReply.not_found e)
    broken : (e : String) → Reads s (ReadReply.failed e)

  pub data Step (w : World) : World → Type 0 where
    -- An instance that still runs and waits for nothing begins a call; its clock does not go back.
    begin :
        (i now : ℕ) (reply : ReadReply)
        → (w.instances i).guard.terminated ≡ false
        → (w.instances i).pending ≡ none
        → (w.instances i).clock ≤ now
        → Reads w.store reply
        → Step w (record {
          store = w.store;
          instances = update w.instances i (
              after_read
                (w.instances i)
                now
                (call_of (w.instances i).guard.held (name i) now reply));
        })
    -- Its write is accepted, and it is told so.
    accepted :
        (i : ℕ) (b : LeaseWrite) (o : LeaseOutcome) (t : api.Store)
        → (w.instances i).pending ≡ some (b, o)
        → api.Accepts w.store b t
        → Step w (record { store = t; instances = update w.instances i (settle (w.instances i) o) })
    -- Its write is accepted, and the reply is lost.
    reply_lost :
        (i : ℕ) (b : LeaseWrite) (o : LeaseOutcome) (t : api.Store) (e : String)
        → (w.instances i).pending ≡ some (b, o)
        → api.Accepts w.store b t
        → Step w (record {
          store = t;
          instances = update w.instances i (settle (w.instances i) (lease_error e));
        })
    -- Its write fails.
    refused :
        (i : ℕ) (b : LeaseWrite) (o : LeaseOutcome) (e : String)
        → (w.instances i).pending ≡ some (b, o)
        → Step w (record {
          store = w.store;
          instances = update w.instances i (settle (w.instances i) (lease_error e));
        })

  -- The worlds that fresh instances reach, from any stored Lease and any clocks.
  pub data Reach : World → Type 0 where
    start :
        (s : api.Store) (clocks : ℕ → ℕ)
        → Reach (record { store = s; instances = λ i. fresh (clocks i) })
    later : {w u : World} → Reach w → Step w u → Reach u
