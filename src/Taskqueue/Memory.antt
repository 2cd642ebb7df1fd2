-- ===== src/Taskqueue/Memory.antt =====
-- memory_backend.go: the heap of waiting items and the table of leases. Each method holds the mutex
-- throughout, so it is one step.
pub mod Order
pub mod View
mod Reaping
pub mod Contract
pub mod Delivery
use go_asynctasklib.Base.{
  ℕ, ◌+◌, Bool, true, false, not, ◌&&◌, Option, none, some, List, [], ◌∷◌, length, ltb, ◌==◌,
  if◌then◌else◌, ◌>>=◌,
}
use go_asynctasklib.Base.Int.{ℤ, pos, ◌+ℤ◌, ltb_ℤ}
use go_asynctasklib.Base.Errors.{
  Error, queue, task_nil, queue_empty, lease_not_found, Result, ok, err,
}
use go_asynctasklib.Base.Table
use go_asynctasklib.Taskqueue.Types.{Task, Mode, mode_priority, mode_fifo, Lease}
use go_asynctasklib.Taskqueue.Heap
use go_asynctasklib.Taskqueue.Backend.{Backend}

pub record QueueItem : Type 0 where
  pub task : Task
  pub attempt : ℕ
  pub index : ℤ

abbrev pub is_priority : Mode → Bool
is_priority mode_priority = true
is_priority mode_fifo = false

-- `Less`, on the two items' tasks.
unfoldable pub task_less : Mode → Task → Task → Bool
task_less m left right =
    if is_priority m && not (left.priority == right.priority)
    then ltb right.priority left.priority
    else ltb left.seq right.seq

unfoldable pub item_less : Mode → QueueItem → QueueItem → Bool
item_less m left right = task_less m left.task right.task

unfoldable pub place : ℤ → QueueItem → QueueItem
place i item = record item { index = i }

pub record LeaseEntry : Type 0 where
  pub item : QueueItem
  pub deadline : ℤ

pub record MemoryBackend : Type 0 where
  pub mode : Mode
  pub ready : List QueueItem
  pub leases : List (ℕ × LeaseEntry)

unfoldable pub new_memory_backend : Mode → MemoryBackend
new_memory_backend m = record { mode = m; ready = []; leases = [] }

unfoldable pub heap_push : MemoryBackend → QueueItem → Option MemoryBackend
heap_push b item =
    Heap.push (item_less b.mode) place b.ready item >>= λ r. some (record b { ready = r })

unfoldable pub enqueue :
    Option Error → Option Task → MemoryBackend → Option (MemoryBackend × Option Error)
enqueue (some e) t b = some (b, some e)
enqueue none none b = some (b, some (queue task_nil))
enqueue none (some t) b =
    heap_push b (record { task = t; attempt = 0; index = pos 0 }) >>= λ c. some (c, none)

-- The part of Claim after the pop.
unfoldable pub grant :
    MemoryBackend → ℕ → ℤ → ℤ → QueueItem × List QueueItem → MemoryBackend × Result Lease
grant b token now visibility (popped, rest) =
    let item = record popped { attempt = popped.attempt + 1 } in
    let deadline = now +ℤ visibility in
    (
      record b {
        ready = rest;
        leases = Table.insert token (record { item = item; deadline = deadline }) b.leases;
      },
      ok (record { token = token; task = item.task; attempt = item.attempt; deadline = deadline }),
    )

unfoldable pub claim :
    Option Error → ℕ → ℤ → ℤ → MemoryBackend → Option (MemoryBackend × Result Lease)
claim (some e) token now visibility b = some (b, err e)
claim none token now visibility b =
    if length b.ready == 0
    then some (b, err (queue queue_empty))
    else (Heap.pop (item_less b.mode) place b.ready >>= λ p. some (grant b token now visibility p))

unfoldable pub ack : Option Error → ℕ → MemoryBackend → Option (MemoryBackend × Option Error)
ack (some e) token b = some (b, some e)
ack none token b = elim (Table.lookup token b.leases) [
  | none ↦ some (b, some (queue lease_not_found))
  | some entry ↦ some (record b { leases = Table.delete token b.leases }, none)
]

unfoldable pub nack :
    Option Error → ℕ → Bool → MemoryBackend → Option (MemoryBackend × Option Error)
nack (some e) token requeue b = some (b, some e)
nack none token requeue b = elim (Table.lookup token b.leases) [
  | none ↦ some (b, some (queue lease_not_found))
  | some entry ↦
      let c = record b { leases = Table.delete token b.leases } in
      if requeue then (heap_push c entry.item >>= λ d. some (d, none)) else some (c, none)
]

-- The loop over the lease table. Go's order of a map is any; the list's stands for it.
unfoldable pub expired : ℤ → List (ℕ × LeaseEntry) → List Lease
expired now [] = []
expired now ((token, entry) ∷ m) =
    let rest = expired now m in
    if not (ltb_ℤ now entry.deadline)
    then (record {
      token = token;
      task = entry.item.task;
      attempt = entry.item.attempt;
      deadline = entry.deadline;
    })
      ∷ rest
    else rest

unfoldable pub reap_expired : Option Error → ℤ → MemoryBackend → Result (List Lease)
reap_expired (some e) now b = err e
reap_expired none now b = ok (expired now b.leases)

unfoldable pub len : Option Error → MemoryBackend → Result ℕ
len (some e) b = err e
len none b = ok (length b.ready)

abbrev pub memory_backend : Backend
memory_backend = record {
  State = MemoryBackend;
  enqueue = enqueue;
  claim = claim;
  ack = ack;
  nack = nack;
  reap_expired = reap_expired;
  len = len;
}
