-- ===== src/Taskqueue/Memory/Reaping.antt =====
-- memory_backend.go: ReapExpired lists the leases that are due.
use go_asynctasklib.Taskqueue.Memory.View.{holding_of, holding, IsValid, memory_view}
use go_asynctasklib.Base.{
  ℕ, ◌≡◌, refl, subst, none, some, List, [], ◌∷◌, ◌==◌, Bool-cases, inl, inr, arith, ==_iff,
  Option-cases,
}
use go_asynctasklib.Base.Int.{ℤ, ltb_ℤ, ◌≤ℤ◌}
use go_asynctasklib.Base.Errors.{ok}
use go_asynctasklib.Base.Table
use go_asynctasklib.Taskqueue.Types.{Lease}
use go_asynctasklib.Taskqueue.Backend.{Holding, AllDue, Listed}
use go_asynctasklib.Taskqueue.Memory.{
  LeaseEntry, MemoryBackend, expired, reap_expired, memory_backend,
}

-- The leases of a part of the table, read in the whole table.
expired_due :
    (b : MemoryBackend) (now : ℤ) (m : List (ℕ × LeaseEntry))
    → Table.Distinct m
    → ((k : ℕ) (entry : LeaseEntry)
        → Table.lookup k m ≡ some entry
        → Table.lookup k b.leases ≡ some entry)
    → AllDue memory_backend memory_view b now (expired now m)
unfolding expired Table.lookup
expired_due b now [] d f = tt
expired_due b now ((k, entry) ∷ m) (new, d) f =
    let rest = expired_due b now m d (λ j x e. f j x (ground (arith, e, new))) in
    let found = f k entry (ground arith) in
    elim (Bool-cases (ltb_ℤ now entry.deadline)) [
      | inl early ↦ rw early rest
      | inr late ↦ rw late ((holding_of entry, rw found, refl, ground arith), rest)
    ]

pub reap_reports :
    (b : MemoryBackend) (now : ℤ)
    → IsValid b
    → (ls : List Lease) × (reap_expired none now b ≡ ok ls)
      × AllDue memory_backend memory_view b now ls
unfolding reap_expired
reap_reports b now (h, d) =
    (expired now b.leases, refl, expired_due b now b.leases d (λ k entry e. e))

expired-Listed :
    (now : ℤ) (k : ℕ) (m : List (ℕ × LeaseEntry)) (x : LeaseEntry)
    → Table.lookup k m ≡ some x
    → x.deadline ≤ℤ now
    → Listed k (expired now m)
unfolding expired Table.lookup
expired-Listed now k [] x e d = absurd (ground (arith, e))
expired-Listed now k ((j, entry) ∷ m) x e d = elim (Bool-cases (ltb_ℤ now entry.deadline)) [
  | inl early ↦ rw early (expired-Listed now k m x (ground (arith, e, early, d)) d)
  | inr late ↦ rw late (elim (Bool-cases (j == k)) [
    | inl same ↦ inl ((==_iff j k).0 same)
    | inr other ↦ inr (expired-Listed now k m x (ground (arith, e, other)) d)
  ])
]

pub reap_misses_none :
    (b : MemoryBackend) (now : ℤ) (k : ℕ) (h : Holding) (ls : List Lease)
    → IsValid b
    → holding b k ≡ some h
    → h.deadline ≤ℤ now
    → reap_expired none now b ≡ ok ls
    → Listed k ls
unfolding reap_expired
reap_misses_none b now k h ls valid e d f = elim (Option-cases (Table.lookup k b.leases)) [
  | inl missing ↦ absurd (ground (arith, e, missing))
  | inr (x, found) ↦
      subst (Listed k) (ground (arith, f))
        (expired-Listed now k b.leases x found (ground (arith, e, found, d)))
]
