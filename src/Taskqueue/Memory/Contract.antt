-- ===== src/Taskqueue/Memory/Contract.antt =====
-- The in-memory backend fulfils the contract of the interface Backend.
pub use go_asynctasklib.Taskqueue.Memory.View.{holding_of, holding, IsValid, memory_view}
use go_asynctasklib.Taskqueue.Memory.Reaping.{reap_reports, reap_misses_none}
use mathlib.Core.Option
use mathlib.Core.List.Perm
use go_asynctasklib.Base.{
  ℕ, ◌+◌, ◌<◌, ◌≡◌, ◌≢◌, refl, sym, ap, subst, ◌∙◌, true, false, Option, none, some, List, [], ◌∷◌,
  map, Perm, length, length-map, ◌==◌, if◌then◌else◌, arith,
}
use go_asynctasklib.Base.Int.{ℤ, pos, ◌+ℤ◌}
use go_asynctasklib.Base.Errors.{queue, queue_empty, ok, err}
use go_asynctasklib.Base.Table
use go_asynctasklib.Taskqueue.Types.{Task, Lease}
use go_asynctasklib.Taskqueue.Backend.{Holding, Moves, Claimed, Implements, lease_of}
use go_asynctasklib.Taskqueue.Memory.{
  QueueItem, LeaseEntry, MemoryBackend, heap_push, enqueue, claim, grant, ack, nack, memory_backend,
}
use go_asynctasklib.Taskqueue.Memory.Order.{job_of, waiting, heap_push_adds, IsHeap-pop_takes}

enqueue_adds :
    (b : MemoryBackend) (t : Task)
    → IsValid b
    → (c : MemoryBackend) × (enqueue none (some t) b ≡ some (c, none))
      × IsValid c
      × Perm (waiting c) (record { task = t; attempt = 0 } ∷ waiting b)
      × ((j : ℕ) → holding c j ≡ holding b j)
unfolding enqueue
enqueue_adds b t (h, d) =
    let (r, e, g, p) = heap_push_adds b (record { task = t; attempt = 0; index = pos 0 }) h in
    (record b { ready = r }, rw e, (g, d), p, λ j. refl)

claim_empty :
    (b : MemoryBackend) (k : ℕ) (now visibility : ℤ)
    → waiting b ≡ []
    → claim none k now visibility b ≡ some (b, err (queue queue_empty))
unfolding claim
claim_empty b k now visibility e =
    let size : length b.ready ≡ 0 = sym (length-map job_of b.ready) ∙ ap length e in rw size

not_empty : (xs : List QueueItem) → map job_of xs ≢ [] → 0 < length xs
not_empty [] h = absurd (h refl)
not_empty (x ∷ xs) h = omega arith

holding-insert :
    (k j : ℕ) (entry : LeaseEntry) (m : List (ℕ × LeaseEntry))
    → Option.map holding_of (Table.lookup j (Table.insert k entry m))
      ≡ (if k == j then some (holding_of entry) else Option.map holding_of (Table.lookup j m))
holding-insert k j entry m = rw (Table.lookup-insert k j entry m) (ground arith)

holding-delete :
    (k j : ℕ) (m : List (ℕ × LeaseEntry))
    → Option.map holding_of (Table.lookup j (Table.delete k m))
      ≡ (if k == j then none else Option.map holding_of (Table.lookup j m))
holding-delete k j m = rw (Table.lookup-delete k j m) (ground arith)

claim_takes :
    (b : MemoryBackend) (k : ℕ) (now visibility : ℤ)
    → IsValid b
    → waiting b ≢ []
    → (c : MemoryBackend) × (l : Lease) × (claim none k now visibility b ≡ some (c, ok l))
      × Claimed memory_backend memory_view b c k now visibility l
unfolding claim grant
claim_takes b k now visibility (h, d) some_work =
    let size = not_empty b.ready some_work in
    let (x, r, e, g, p, first) = IsHeap-pop_takes b h size in
    let item = record x { attempt = x.attempt + 1 } in
    let deadline = now +ℤ visibility in
    let entry : LeaseEntry = record { item = item; deadline = deadline } in
    (
      record b { ready = r; leases = Table.insert k entry b.leases },
      lease_of k (holding_of entry),
      rw e (ground arith),
      record {
        job = job_of x;
        taken = p;
        valid = (g, Table.insert-Distinct k entry b.leases d);
        holding = holding_of entry;
        counted = refl;
        holds = λ j. holding-insert k j entry b.leases;
        lease = refl;
      },
    )

held_entry :
    (b : MemoryBackend) (k : ℕ) (h : Holding)
    → holding b k ≡ some h
    → (entry : LeaseEntry) × (Table.lookup k b.leases ≡ some entry) × (holding_of entry ≡ h)
held_entry b k h e = go (Table.lookup k b.leases) refl
  where
    go :
        (o : Option LeaseEntry)
        → Table.lookup k b.leases ≡ o
        → (entry : LeaseEntry) × (Table.lookup k b.leases ≡ some entry) × (holding_of entry ≡ h)
    go none f = absurd (ground arith)
    go (some entry) f = (entry, f, ground arith)

no_entry : (b : MemoryBackend) (k : ℕ) → holding b k ≡ none → Table.lookup k b.leases ≡ none
no_entry b k e = ground arith

ack_removes :
    (b : MemoryBackend) (k : ℕ) (h : Holding)
    → IsValid b
    → holding b k ≡ some h
    → (c : MemoryBackend) × (ack none k b ≡ some (c, none))
      × Moves memory_backend memory_view b c (waiting b) k none
unfolding ack
ack_removes b k h (g, d) e =
    let (entry, f, q) = held_entry b k h e in
    (
      record b { leases = Table.delete k b.leases },
      rw (f, ack),
      record {
        valid = (g, Table.delete-Distinct k b.leases d);
        waits = Perm.rfl;
        holds = λ j. holding-delete k j b.leases;
      },
    )

nack_drops :
    (b : MemoryBackend) (k : ℕ) (h : Holding)
    → IsValid b
    → holding b k ≡ some h
    → (c : MemoryBackend) × (nack none k false b ≡ some (c, none))
      × Moves memory_backend memory_view b c (waiting b) k none
unfolding nack
nack_drops b k h (g, d) e =
    let (entry, f, q) = held_entry b k h e in
    (
      record b { leases = Table.delete k b.leases },
      rw (f, nack),
      record {
        valid = (g, Table.delete-Distinct k b.leases d);
        waits = Perm.rfl;
        holds = λ j. holding-delete k j b.leases;
      },
    )

nack_entry :
    (b : MemoryBackend) (k : ℕ) (entry : LeaseEntry) {c : MemoryBackend}
    → Table.lookup k b.leases ≡ some entry
    → heap_push (record b { leases = Table.delete k b.leases }) entry.item ≡ some c
    → nack none k true b ≡ some (c, none)
unfolding nack
nack_entry b k entry f w = rw (f, nack) (rw w)

nack_requeues :
    (b : MemoryBackend) (k : ℕ) (h : Holding)
    → IsValid b
    → holding b k ≡ some h
    → (c : MemoryBackend) × (nack none k true b ≡ some (c, none))
      × Moves memory_backend memory_view b c (h.job ∷ waiting b) k none
unfolding nack
nack_requeues b k h (g, d) e =
    let (entry, f, q) = held_entry b k h e in
    let b' = record b { leases = Table.delete k b.leases } in
    let (r, w, g', p) = heap_push_adds b' entry.item g in
    (
      record b' { ready = r },
      nack_entry b k entry f w,
      record {
        valid = (g', Table.delete-Distinct k b.leases d);
        waits = subst (λ (z : Holding). Perm (map job_of r) (z.job ∷ waiting b)) q p;
        holds = λ j. holding-delete k j b.leases;
      },
    )

-- The heap and the lease table implement the contract of the interface Backend: Enqueue adds
-- exactly the new task with no delivery counted; Claim reports an empty queue only if nothing
-- waits, and otherwise moves one waiting job under the token, with one more delivery and the
-- deadline; Ack and a dropping Nack remove the lease, a requeueing Nack puts the same job back with
-- its count; an unknown token is an error that changes nothing;
-- ReapExpired reports exactly the leases that are held and due, as they are held; and no call panics.
pub memory_implements : Implements memory_backend memory_view
unfolding ack nack
memory_implements = record {
  enqueue_adds = enqueue_adds;
  claim_empty = λ s k now visibility h e. claim_empty s k now visibility e;
  claim_takes = claim_takes;
  ack_removes = ack_removes;
  ack_missing = λ s k e. rw (no_entry s k e, ack);
  nack_requeues = nack_requeues;
  nack_drops = nack_drops;
  nack_missing = λ s k requeue e. rw (no_entry s k e, nack);
  reap_reports = reap_reports;
  reap_misses_none = reap_misses_none;
}
