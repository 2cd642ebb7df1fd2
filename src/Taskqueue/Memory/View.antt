-- ===== src/Taskqueue/Memory/View.antt =====
-- memory_backend.go: what the contract sees of the heap and the lease table.
use mathlib.Core.Option
use go_asynctasklib.Base.{ℕ, Option}
use go_asynctasklib.Base.Table
use go_asynctasklib.Taskqueue.Backend.{Holding, View}
use go_asynctasklib.Taskqueue.Memory.{LeaseEntry, MemoryBackend, memory_backend}
use go_asynctasklib.Taskqueue.Memory.Order.{job_of, waiting, IsOrdered}

abbrev pub holding_of : LeaseEntry → Holding
holding_of entry = record { job = job_of entry.item; deadline = entry.deadline }

abbrev pub holding : MemoryBackend → ℕ → Option Holding
holding b k = Option.map holding_of (Table.lookup k b.leases)

abbrev pub IsValid : MemoryBackend → Type 0
IsValid b = IsOrdered b × Table.Distinct b.leases

abbrev pub memory_view : View memory_backend
memory_view = record { Valid = IsValid; ready = waiting; held = holding }
