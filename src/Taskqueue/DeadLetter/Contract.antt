-- ===== src/Taskqueue/DeadLetter/Contract.antt =====
-- What a store of dead letters promises, and that the in-memory one keeps it.
use mathlib.Core.Option
use go_asynctasklib.Base.{
  ◌+◌, ℕ, suc, ◌≤◌, ◌≡◌, refl, Option, none, some, List, [], ◌∷◌, length, ◌==◌, if◌then◌else◌,
  arith,
}
use go_asynctasklib.Base.Int.{ℤ, pos}
use go_asynctasklib.Base.Errors.{Error, ok}
use go_asynctasklib.Base.Table
use go_asynctasklib.Taskqueue.Types.{Task, DeadTask}
use go_asynctasklib.Taskqueue.DeadLetter.{
  DeadLetter, MemoryDeadLetter, add, collect, list, remove, memory_dead_letter,
}

-- A client sees for each ID the task that is stored under it.
pub record DeadView (d : DeadLetter) : Type 1 where
  pub Valid : d.Store → Type 0
  pub dead : d.Store → ℕ → Option Task

-- The first listed task of an ID, as Redrive looks for it.
abbrev pub find_task : ℕ → List DeadTask → Option Task
find_task id [] = none
find_task id (x ∷ xs) = if x.task.id == id then some x.task else find_task id xs

module _ (d : DeadLetter) (v : DeadView d) where
  pub record Keeps : Type 0 where
    pub add_stores :
        (now : ℤ) (t : Task) (reason : Option Error) (s : d.Store)
        → v.Valid s
        → (u : d.Store) × (d.add none now (some t) reason s ≡ (u, none))
          × v.Valid u
          × ((j : ℕ) → v.dead u j ≡ (if t.id == j then some t else v.dead s j))
    pub list_finds :
        (s : d.Store)
        → v.Valid s
        → (xs : List DeadTask) × (d.list none (pos 0) s ≡ ok xs)
          × ((j : ℕ) → find_task j xs ≡ v.dead s j)
    pub remove_deletes :
        (s : d.Store) (id : ℕ)
        → v.Valid s
        → (u : d.Store) × (d.remove none id s ≡ (u, none))
          × v.Valid u
          × ((j : ℕ) → v.dead u j ≡ (if id == j then none else v.dead s j))
    pub dead_id : (s : d.Store) (j : ℕ) (t : Task) → v.Valid s → v.dead s j ≡ some t → t.id ≡ j

-- Each entry stands under its task's ID, and no ID stands twice.
abbrev pub IsKeyed : MemoryDeadLetter → Type 0
IsKeyed [] = Unit {0}
IsKeyed ((j, x) ∷ m) = (x.task.id ≡ j) × (Table.lookup j m ≡ none) × IsKeyed m

abbrev pub dead_task : MemoryDeadLetter → ℕ → Option Task
dead_task m j = Option.map (λ (x : DeadTask). x.task) (Table.lookup j m)

abbrev pub memory_dead_view : DeadView memory_dead_letter
memory_dead_view = record { Valid = IsKeyed; dead = dead_task }

insert-IsKeyed :
    (x : DeadTask) (m : MemoryDeadLetter) → IsKeyed m → IsKeyed (Table.insert x.task.id x m)
unfolding Table.insert Table.lookup
insert-IsKeyed x [] h = (refl, refl, tt)
insert-IsKeyed x ((i, w) ∷ m) h =
    ground (arith, insert-IsKeyed x m h.2, Table.lookup-insert x.task.id i x m)

delete-IsKeyed : (k : ℕ) (m : MemoryDeadLetter) → IsKeyed m → IsKeyed (Table.delete k m)
unfolding Table.delete Table.lookup
delete-IsKeyed k [] h = tt
delete-IsKeyed k ((i, w) ∷ m) h = ground (arith, delete-IsKeyed k m h.2, Table.lookup-delete k i m)

-- With no limit, List returns every entry.
find_task-collect :
    (n j : ℕ) (m : MemoryDeadLetter) → IsKeyed m → find_task j (collect (pos 0) n m) ≡ dead_task m j
unfolding collect Table.lookup
find_task-collect n j [] h = refl
find_task-collect n j ((i, w) ∷ m) h = ground (arith, find_task-collect (suc n) j m h.2)

lookup_id :
    (m : MemoryDeadLetter) (j : ℕ) (t : Task) → IsKeyed m → dead_task m j ≡ some t → t.id ≡ j
unfolding Table.lookup
lookup_id [] j t h e = absurd (ground arith)
lookup_id ((i, w) ∷ m) j t h e = ground (arith, lookup_id m j t h.2)

-- The in-memory dead letters keep the contract: Add stores the task under its ID, over an older
-- one of that ID, and touches no other; List without a limit shows exactly the stored tasks;
-- Remove deletes exactly the ID.
pub memory_keeps : Keeps memory_dead_letter memory_dead_view
unfolding add list remove
memory_keeps = record {
  add_stores = λ now t reason s h.
      let x : DeadTask = record { task = t; reason = reason; attempts = 0; dead_at = now } in
      (
        Table.insert t.id x s,
        refl,
        insert-IsKeyed x s h,
        λ j. ground (arith, Table.lookup-insert t.id j x s),
      );
  list_finds = λ s h. (collect (pos 0) 0 s, refl, λ j. find_task-collect 0 j s h);
  remove_deletes = λ s id h. (
    Table.delete id s,
    refl,
    delete-IsKeyed id s h,
    λ j. ground (arith, Table.lookup-delete id j s),
  );
  dead_id = λ s j t h e. lookup_id s j t h e;
}

collect_room :
    (limit n : ℕ) (m : MemoryDeadLetter)
    → n ≤ suc limit
    → n + length (collect (pos (suc limit)) n m) ≤ suc limit
unfolding collect
collect_room limit n [] h = omega arith
collect_room limit n ((i, w) ∷ m) h = ground (arith, collect_room limit (suc n) m)

-- Under a positive limit, List returns at most that many entries.
pub list_bounded :
    (limit : ℕ) (m : MemoryDeadLetter) (xs : List DeadTask)
    → list none (pos (suc limit)) m ≡ ok xs
    → length xs ≤ suc limit
unfolding list
list_bounded limit m xs e = ground (arith, collect_room limit 0 m (omega arith))
