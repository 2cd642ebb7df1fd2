-- ===== src/Taskqueue/Backend.antt =====
-- backend.go: the interface Backend, and what it promises. A context is the value of `ctx.Err()`
-- when the call reads it; a token that the backend draws and the time that it reads are arguments.
-- The outer `Option` is `none` if the call panics.
use go_asynctasklib.Base.{
  ℕ, ◌+◌, ◌≡◌, ◌≢◌, Bool, true, false, Option, none, some, List, [], ◌∷◌, Perm, ◌==◌, if◌then◌else◌,
  ◌⊎◌,
}
use go_asynctasklib.Base.Int.{ℤ, ◌+ℤ◌, ◌≤ℤ◌}
use go_asynctasklib.Base.Errors.{Error, queue, queue_empty, lease_not_found, Result, ok, err}
use go_asynctasklib.Taskqueue.Types.{Task, Lease}

pub record Backend : Type 1 where
  pub State : Type 0
  pub enqueue : Option Error → Option Task → State → Option (State × Option Error)
  pub claim : Option Error → ℕ → ℤ → ℤ → State → Option (State × Result Lease)
  pub ack : Option Error → ℕ → State → Option (State × Option Error)
  pub nack : Option Error → ℕ → Bool → State → Option (State × Option Error)
  pub reap_expired : Option Error → ℤ → State → Result (List Lease)
  pub len : Option Error → State → Result ℕ

-- A task with its delivery count.
pub record Job : Type 0 where
  pub task : Task
  pub attempt : ℕ

-- A job under a lease.
pub record Holding : Type 0 where
  pub job : Job
  pub deadline : ℤ

-- What a client may know of a backend's state: the jobs that wait, in no order that it can rely
-- on, and the job that each token holds.
pub record View (b : Backend) : Type 1 where
  pub Valid : b.State → Type 0
  pub ready : b.State → List Job
  pub held : b.State → ℕ → Option Holding

abbrev pub lease_of : ℕ → Holding → Lease
lease_of k h = record {
  token = k;
  task = h.job.task;
  attempt = h.job.attempt;
  deadline = h.deadline;
}

abbrev pub update : (ℕ → Option Holding) → ℕ → Option Holding → ℕ → Option Holding
update f k h j = if k == j then h else f j

-- A token of one of the leases.
abbrev pub Listed : ℕ → List Lease → Type 0
Listed k [] = ⊥
Listed k (l ∷ ls) = (l.token ≡ k) ⊎ Listed k ls

module _ (b : Backend) (v : View b) where
  -- Each lease shows what the backend holds under its token, and its deadline is at or before `now`.
  abbrev pub AllDue : b.State → ℤ → List Lease → Type 0
  AllDue s now [] = Unit {0}
  AllDue s now (l ∷ ls) =
      ((h : Holding) × (v.held s l.token ≡ some h) × (l ≡ lease_of l.token h) × (h.deadline ≤ℤ now))
      × AllDue s now ls

  -- The state `t` differs from `s` in the jobs that wait and in the token `k` at most.
  pub record Moves (s t : b.State) (waiting : List Job) (k : ℕ) (h : Option Holding) : Type 0 where
    pub valid : v.Valid t
    pub waits : Perm (v.ready t) waiting
    pub holds : (j : ℕ) → v.held t j ≡ update (v.held s) k h j

  -- The first claim of a job: what is delivered, and the state behind it.
  pub record Claimed (s t : b.State) (k : ℕ) (now visibility : ℤ) (l : Lease) : Type 0 where
    pub job : Job
    pub taken : Perm (job ∷ v.ready t) (v.ready s)
    pub valid : v.Valid t
    pub holding : Holding
    pub counted : holding ≡ record {
      job = record { task = job.task; attempt = job.attempt + 1 };
      deadline = now +ℤ visibility;
    }
    pub holds : (j : ℕ) → v.held t j ≡ update (v.held s) k (some holding) j
    pub lease : l ≡ lease_of k holding

  -- The contract of the interface's comments, for calls under a live context.
  pub record Implements : Type 0 where
    pub enqueue_adds :
        (s : b.State) (t : Task)
        → v.Valid s
        → (u : b.State) × (b.enqueue none (some t) s ≡ some (u, none))
          × v.Valid u
          × Perm (v.ready u) (record { task = t; attempt = 0 } ∷ v.ready s)
          × ((j : ℕ) → v.held u j ≡ v.held s j)
    pub claim_empty :
        (s : b.State) (k : ℕ) (now visibility : ℤ)
        → v.Valid s
        → v.ready s ≡ []
        → b.claim none k now visibility s ≡ some (s, err (queue queue_empty))
    pub claim_takes :
        (s : b.State) (k : ℕ) (now visibility : ℤ)
        → v.Valid s
        → v.ready s ≢ []
        → (t : b.State) × (l : Lease) × (b.claim none k now visibility s ≡ some (t, ok l))
          × Claimed s t k now visibility l
    pub ack_removes :
        (s : b.State) (k : ℕ) (h : Holding)
        → v.Valid s
        → v.held s k ≡ some h
        → (t : b.State) × (b.ack none k s ≡ some (t, none)) × Moves s t (v.ready s) k none
    pub ack_missing :
        (s : b.State) (k : ℕ)
        → v.held s k ≡ none
        → b.ack none k s ≡ some (s, some (queue lease_not_found))
    pub nack_requeues :
        (s : b.State) (k : ℕ) (h : Holding)
        → v.Valid s
        → v.held s k ≡ some h
        → (t : b.State) × (b.nack none k true s ≡ some (t, none))
          × Moves s t (h.job ∷ v.ready s) k none
    pub nack_drops :
        (s : b.State) (k : ℕ) (h : Holding)
        → v.Valid s
        → v.held s k ≡ some h
        → (t : b.State) × (b.nack none k false s ≡ some (t, none)) × Moves s t (v.ready s) k none
    pub nack_missing :
        (s : b.State) (k : ℕ) (requeue : Bool)
        → v.held s k ≡ none
        → b.nack none k requeue s ≡ some (s, some (queue lease_not_found))
    pub reap_reports :
        (s : b.State) (now : ℤ)
        → v.Valid s
        → (ls : List Lease) × (b.reap_expired none now s ≡ ok ls) × AllDue s now ls
    pub reap_misses_none :
        (s : b.State) (now : ℤ) (k : ℕ) (h : Holding) (ls : List Lease)
        → v.Valid s
        → v.held s k ≡ some h
        → h.deadline ≤ℤ now
        → b.reap_expired none now s ≡ ok ls
        → Listed k ls
