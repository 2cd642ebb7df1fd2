-- ===== src/Taskqueue/Tests/Backends.antt =====
-- The in-memory backend and dead letters on small inputs.
use go_asynctasklib.Taskqueue.Types.{Task, mode_priority, Lease}
use go_asynctasklib.Taskqueue.Memory.{
  MemoryBackend, enqueue, claim, new_memory_backend, heap_push, task_less, item_less, place, grant,
  QueueItem,
}
use go_asynctasklib.Taskqueue.Heap.{push, pop, up, down, child, less, swap, parent}
use go_asynctasklib.Base.{
  ℕ, Option, ◌>>=◌, none, ◌∷◌, some, ◌<◌, [], map, ◌≡◌, get_or, Perm, ◌+◌, arith, suc, Mem, ◌∙◌,
  refl, zero,
}
use go_asynctasklib.Base.Int.{◌+ℤ◌, pos}
use go_asynctasklib.Taskqueue.Memory.Order.{
  IsOrdered, job_less, no_job, waiting, job_of, job_less_lem,
}
use go_asynctasklib.Base.Errors.{Error, ok}
use go_asynctasklib.Taskqueue.Heap.Order.{Le}
use go_asynctasklib.Taskqueue.Backend.{Job}
use go_asynctasklib.Taskqueue.Memory.Delivery.{Precedes, claim_first}

abbrev task : ℕ → ℕ → ℕ → Task
task id seq priority = record { id = id; seq = seq; priority = priority }

-- Three tasks, enqueued in this order under ModePriority.
abbrev three : Option (MemoryBackend × Option Error)
three = enqueue none (some (task 1 1 1)) (new_memory_backend mode_priority) >>= λ a.
    enqueue none (some (task 2 2 3)) a.0 >>= λ b. enqueue none (some (task 3 3 3)) b.0

-- The two most urgent tasks come out first, the older of them before the other.
claims_in_order :
    (three >>= λ s. claim none 7 (pos 100) (pos 30) s.0 >>= λ t. some t.1)
    ≡ some (ok (record { token = 7; task = task 2 2 3; attempt = 1; deadline = pos 130 }))
unfolding enqueue claim new_memory_backend heap_push task_less item_less place grant push pop up
    down child less swap ◌+ℤ◌
claims_in_order = refl

abbrev waiting_item : ℕ → Task → QueueItem
waiting_item i t = record { task = t; attempt = 0; index = pos i }

abbrev two_waiting : MemoryBackend
two_waiting = record {
  mode = mode_priority;
  ready = waiting_item 0 (task 2 2 3) ∷ waiting_item 1 (task 1 1 1) ∷ [];
  leases = [];
}

-- The enqueues keep the index fields in step with the positions.
indexes :
    (three >>= λ s. some (map (λ (x : QueueItem). x.index) s.0.ready))
    ≡ some (pos 0 ∷ pos 1 ∷ pos 2 ∷ [])
unfolding enqueue new_memory_backend heap_push task_less item_less place push up less swap
indexes = refl

two_waiting-IsOrdered : IsOrdered two_waiting
two_waiting-IsOrdered = two
  where
    two :
        (c : ℕ)
        → 0 < c
        → c < 2
        → Le
            (job_less mode_priority)
            no_job
            (get_or (waiting two_waiting) (parent c) no_job)
            (get_or (waiting two_waiting) c no_job)
    two zero p q = absurd (omega arith)
    two (suc zero) p q = job_less_lem mode_priority _ _ ∙ (unfold task_less in refl)
    two (suc (suc c)) p q = absurd (omega arith)

claim_first_example :
    (c : MemoryBackend) × (l : Lease) × (x : QueueItem) × (claim none 7
        (pos 100)
        (pos 30)
        two_waiting
      ≡ some (c, ok l))
    × Perm (job_of x ∷ waiting c) (waiting two_waiting)
    × (l ≡ record {
      token = 7;
      task = x.task;
      attempt = x.attempt + 1;
      deadline = pos 100 +ℤ pos 30;
    })
    × ((j : Job) → Mem j (waiting two_waiting) → Precedes mode_priority l.task j.task)
claim_first_example =
    claim_first two_waiting 7 (pos 100) (pos 30) two_waiting-IsOrdered (omega arith)
