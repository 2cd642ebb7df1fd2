-- ===== src/Taskqueue/Memory/Delivery.antt =====
-- Which job a claim delivers, and which leases a sweep sees.

use go_asynctasklib.Base.{
  ℕ, ◌+◌, ◌≤◌, ◌<◌, ◌≡◌, refl, sym, ◌∙◌, false, Option, none, some, List, [], ◌∷◌, Mem, Perm,
  length, ◌==◌, if◌then◌else◌, arith,
}
use go_asynctasklib.Base.Int.{ℤ, ◌+ℤ◌, ltb_ℤ}
use go_asynctasklib.Base.Errors.{ok}
use go_asynctasklib.Base.Table
use go_asynctasklib.Taskqueue.Types.{Task, Mode, mode_priority, mode_fifo, Lease}
use go_asynctasklib.Taskqueue.Backend.{Job, lease_of}
use go_asynctasklib.Taskqueue.Memory.{
  QueueItem, LeaseEntry, MemoryBackend, task_less, claim, grant, expired,
}
use go_asynctasklib.Taskqueue.Memory.Order.{
  job_of, job_less, job_less_lem, waiting, IsOrdered, IsHeap-pop_takes,
}
use go_asynctasklib.Taskqueue.Memory.Contract.{holding_of}

-- `t` is a task that the discipline `m` delivers no later than `u`.
abbrev pub Precedes : Mode → Task → Task → Type 0
Precedes mode_priority t u = (u.priority ≤ t.priority) × (t.priority ≡ u.priority → t.seq ≤ u.seq)
Precedes mode_fifo t u = t.seq ≤ u.seq

task_less-Precedes : (m : Mode) (t u : Task) → task_less m u t ≡ false → Precedes m t u
unfolding task_less
task_less-Precedes mode_priority t u h = ground arith
task_less-Precedes mode_fifo t u h = ground arith

job_less-Precedes : (m : Mode) (a b : Job) → job_less m b a ≡ false → Precedes m a.task b.task
job_less-Precedes m a b h = task_less-Precedes m a.task b.task (sym (job_less_lem m b a) ∙ h)

-- A claim on a backend with work delivers a waiting task that its mode puts no later than any
-- other waiting task, counts one delivery more and sets the deadline: under ModePriority no
-- waiting task has a higher priority, and none of the same priority a lower Seq; under ModeFIFO
-- none has a lower Seq.
pub claim_first :
    (b : MemoryBackend) (k : ℕ) (now visibility : ℤ)
    → IsOrdered b
    → 0 < length b.ready
    → (c : MemoryBackend) × (l : Lease) × (x : QueueItem) × (claim none k now visibility b
        ≡ some (c, ok l))
      × Perm (job_of x ∷ waiting c) (waiting b)
      × (l ≡ record {
        token = k;
        task = x.task;
        attempt = x.attempt + 1;
        deadline = now +ℤ visibility;
      })
      × ((j : Job) → Mem j (waiting b) → Precedes b.mode l.task j.task)
unfolding claim grant
claim_first b k now visibility h size =
    let (x, r, e, g, p, first) = IsHeap-pop_takes b h size in
    let item = record x { attempt = x.attempt + 1 } in
    let entry : LeaseEntry = record { item = item; deadline = now +ℤ visibility } in
    (
      record b { ready = r; leases = Table.insert k entry b.leases },
      lease_of k (holding_of entry),
      x,
      rw e (ground arith),
      p,
      refl,
      λ j m. job_less-Precedes b.mode (job_of x) j (first j m),
    )

-- The lease of a token among those of a sweep.
abbrev pub lease_with : ℕ → List Lease → Option Lease
lease_with k [] = none
lease_with k (l ∷ ls) = if l.token == k then some l else lease_with k ls

abbrev pub due : ℤ → ℕ → Option LeaseEntry → Option Lease
due now k none = none
due now k (some entry) =
    if ltb_ℤ now entry.deadline then none else some (lease_of k (holding_of entry))

-- ReapExpired returns a lease for a token exactly if the token is held and its deadline is at or
-- before `now`, and the lease then shows the task, the delivery count and the deadline on record.
pub reap_due :
    (now : ℤ) (k : ℕ) (m : List (ℕ × LeaseEntry))
    → Table.Distinct m
    → lease_with k (expired now m) ≡ due now k (Table.lookup k m)
unfolding expired Table.lookup
reap_due now k [] d = refl
reap_due now k ((j, entry) ∷ m) d = ground (arith, reap_due now k m d.1)
