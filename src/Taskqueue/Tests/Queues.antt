-- ===== src/Taskqueue/Tests/Queues.antt =====
-- The queue over the in-memory stores on small inputs.
use mathlib.Core.List.{Memᴰ}
use go_asynctasklib.Taskqueue.Types.{Task, Lease, mode_priority}
use go_asynctasklib.Taskqueue.Heap.{push, pop, up, down, less, swap}
use go_asynctasklib.Taskqueue.Memory.{
  memory_backend, heap_push, task_less, item_less, place, grant, expired, MemoryBackend,
}
use go_asynctasklib.Taskqueue.Memory as Memory
use go_asynctasklib.Base.Table
use go_asynctasklib.Taskqueue.DeadLetter as DeadLetter
use go_asynctasklib.Taskqueue.Queue.{
  Queue, Claim, enqueue, nack, route, on_enqueue, on_claim, on_dead_letter, on_nack, on_retry,
}
use go_asynctasklib.Taskqueue.DeadLetter.{memory_dead_letter, MemoryDeadLetter}
use go_asynctasklib.Base.Int.{pos, ◌+ℤ◌, negsuc, ◌<ℤ◌, ◌≤ℤ◌}
use go_asynctasklib.Taskqueue.Queue.Consume.{Round, dequeue}
use go_asynctasklib.Taskqueue.Heap.Order.{IsHeap}
use go_asynctasklib.Taskqueue.Queue.History.{World, Steps, then, start, delivers, nacks}
use go_asynctasklib.Base.{[], ◌∷◌, false, none, some, ◌≡◌, true, refl, arith, inl, ◌⊎◌}
use go_asynctasklib.Taskqueue.Queue.Lossless.{IsSane, Goes, history_keeps, enqueue_present}
use go_asynctasklib.Taskqueue.Backend.{Holding, Moves}
use go_asynctasklib.Taskqueue.Queue.Presence.{Where}
use go_asynctasklib.Taskqueue.Memory.Order.{job_less, no_job}
use go_asynctasklib.Taskqueue.Memory.Contract.{memory_view, memory_implements, IsValid}
use go_asynctasklib.Taskqueue.Queue.Dequeue.{Returns, dequeue-Returns}
use go_asynctasklib.Base.Errors.{user, ok}
use go_asynctasklib.Taskqueue.DeadLetter.Contract.{memory_dead_view, memory_keeps}
use go_asynctasklib.Taskqueue.Queue.Policy.{route_settles}

abbrev first : Task
first = record { id = 1; seq = 1; priority = 1 }

abbrev pub MemoryQueue : Type 0
MemoryQueue = Queue memory_backend memory_dead_letter

abbrev empty_queue : MemoryQueue
empty_queue = record {
  backend = record { mode = mode_priority; ready = []; leases = [] };
  dead = [];
  log = [];
  max_attempts = pos 1;
  visibility = pos 30;
  reap_interval = pos 5;
  closed = false;
}

abbrev pub with_waiting : MemoryQueue
with_waiting = record empty_queue {
  backend = record {
    mode = mode_priority;
    ready = record { task = first; attempt = 0; index = pos 0 } ∷ [];
    leases = [];
  };
  log = on_enqueue first ∷ [];
}

abbrev first_lease : Lease
first_lease = record { token = 7; task = first; attempt = 1; deadline = pos 130 }

abbrev pub first_claim : Claim memory_backend memory_dead_letter
first_claim = record { lease = first_lease; settled = false }

abbrev pub with_lease : MemoryQueue
with_lease = record empty_queue {
  backend = record {
    mode = mode_priority;
    ready = [];
    leases =
        (
          7,
          record {
            item = record { task = first; attempt = 1; index = negsuc 0 };
            deadline = pos 130;
          },
        )
        ∷ [];
  };
  log = on_claim first_lease ∷ on_enqueue first ∷ [];
}

abbrev pub round : Round memory_backend memory_dead_letter
round = record {
  ctx = none;
  claim_ctx = none;
  token = 7;
  claim_time = pos 100;
  check_time = pos 200;
  woken = none;
  others = λ s. s;
}

one_item : IsHeap (job_less mode_priority) no_job (record { task = first; attempt = 0 } ∷ [])
one_item c p q = absurd (omega arith)

no_item : IsHeap (job_less mode_priority) no_job []
no_item c p q = absurd (omega arith)

submit_run :
    enqueue memory_backend memory_dead_letter none none (some first) empty_queue
    ≡ some (with_waiting, none)
unfolding enqueue Memory.enqueue heap_push push up less item_less task_less place
submit_run = refl

pub deliver_run :
    dequeue memory_backend memory_dead_letter (pos 90) (pos 10) (round ∷ []) with_waiting
    ≡ some (with_lease, ok first_claim)
unfolding dequeue Memory.claim grant pop swap down place ◌+ℤ◌ Table.insert
deliver_run = refl

abbrev buried_queue : MemoryQueue
buried_queue = record with_lease {
  backend = record { mode = mode_priority; ready = []; leases = [] };
  dead = (1, record { task = first; reason = some (user 4); attempts = 0; dead_at = pos 110 }) ∷ [];
  log =
      on_dead_letter first (some (user 4))
      ∷ on_nack first (some (user 4))
      ∷ on_claim first_lease
      ∷ on_enqueue first
      ∷ [];
}

nack_run :
    nack memory_backend memory_dead_letter none none
      (pos 110)
      (some (user 4))
      first_claim
      with_lease
    ≡ some (record first_claim { settled = true }, buried_queue, none)
unfolding nack Memory.nack DeadLetter.add Table.insert Table.lookup Table.delete
nack_run = refl

abbrev QueueWorld : Type 0
QueueWorld = World memory_backend memory_view memory_dead_letter

abbrev at_start : QueueWorld
at_start = record { queue = with_waiting; leases = [] }

abbrev at_end : QueueWorld
at_end = record { queue = buried_queue; leases = first_lease ∷ [] }

at_start-IsSane : IsSane memory_backend memory_view memory_dead_letter memory_dead_view at_start
at_start-IsSane = record { valid = (one_item, tt); stored = tt; current = λ l m. elim m [ ] }

-- A delivery, and a Nack at the ceiling of one attempt.
history : Steps memory_backend memory_view memory_dead_letter at_start [] at_end
history =
    then {m = record { queue = with_lease; leases = first_lease ∷ [] }} {done = []} {gone = []}
      (then {m = at_start} {done = []} {gone = []} start (
        delivers (pos 90) (pos 10) round first_claim deliver_run refl refl
          (unfold Table.lookup in refl) tt refl refl))
      (nacks (pos 110) (some (user 4)) first_claim (record first_claim { settled = true }) none
        (Memᴰ.head refl) nack_run refl refl)

history_keeps_example :
    Goes memory_backend memory_view memory_dead_letter memory_dead_view at_start [] at_end
history_keeps_example =
    history_keeps memory_backend memory_view memory_dead_letter memory_dead_view memory_implements
      memory_keeps at_start at_end [] at_start-IsSane history

pub with_lease-IsValid : IsValid with_lease.backend
unfolding Table.lookup
with_lease-IsValid = (no_item, (refl, tt))

abbrev pub first_holding : Holding
first_holding = record { job = record { task = first; attempt = 1 }; deadline = pos 130 }

abbrev higher : MemoryQueue
higher = record with_lease { max_attempts = pos 3 }

abbrev dead_first : MemoryDeadLetter
dead_first = (1, record { task = first; reason = none; attempts = 0; dead_at = pos 110 }) ∷ []

route_settles_example :
    ((pos 1 <ℤ pos 3)
      × ((s : MemoryBackend) × (route memory_backend memory_dead_letter none none
              (pos 110)
              first_lease
              none
              higher
            ≡ some (record higher { backend = s; log = on_retry first 1 ∷ higher.log }, none))
          × Moves memory_backend memory_view higher.backend s
              (record { task = first; attempt = 1 } ∷ [])
              7
              none))
    ⊎ ((pos 3 ≤ℤ pos 1)
        × ((s : MemoryBackend) × (route memory_backend memory_dead_letter none none
                (pos 110)
                first_lease
                none
                higher
              ≡ some (
                record higher {
                  backend = s;
                  dead = dead_first;
                  log = on_dead_letter first none ∷ higher.log;
                },
                none,
              ))
            × Moves memory_backend memory_view higher.backend s [] 7 none))
unfolding Table.lookup Table.insert DeadLetter.add
route_settles_example =
    route_settles memory_backend memory_view memory_implements memory_dead_letter (pos 110)
      first_lease none higher first_holding dead_first with_lease-IsValid refl refl

dequeue-Returns_example :
    Returns memory_backend memory_view memory_implements memory_dead_letter
      (pos 100)
      (round ∷ [])
      empty_queue
      (dequeue memory_backend memory_dead_letter (pos 90) (pos 10) (round ∷ []) empty_queue)
unfolding ◌+ℤ◌
dequeue-Returns_example =
    dequeue-Returns memory_backend memory_view memory_implements memory_dead_letter (pos 90)
      (pos 10) (round ∷ []) empty_queue (no_item, tt) (refl, (λ s h. h), tt) (inl (omega arith))

enqueue_present_example :
    ∥ Where memory_backend memory_view memory_dead_letter memory_dead_view with_waiting.backend []
      1 ∥₁
enqueue_present_example =
    enqueue_present memory_backend memory_view memory_dead_letter memory_dead_view memory_implements
      memory_keeps first empty_queue with_waiting (no_item, tt) tt submit_run
