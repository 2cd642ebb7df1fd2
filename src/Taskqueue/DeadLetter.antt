-- ===== src/Taskqueue/DeadLetter.antt =====
-- deadletter.go: the interface DeadLetter and the in-memory store keyed by task ID.
pub mod Contract
use go_asynctasklib.Base.{
  ℕ, suc, ◌&&◌, Option, none, some, List, [], ◌∷◌, length, leb, if◌then◌else◌,
}
use go_asynctasklib.Base.Int.{ℤ, pos, pos_part, ltb_ℤ}
use go_asynctasklib.Base.Errors.{Error, queue, task_nil, Result, ok, err}
use go_asynctasklib.Base.Table
use go_asynctasklib.Taskqueue.Types.{Task, DeadTask}

-- The time that Add reads from the clock is an argument.
pub record DeadLetter : Type 1 where
  pub Store : Type 0
  pub add : Option Error → ℤ → Option Task → Option Error → Store → Store × Option Error
  pub list : Option Error → ℤ → Store → Result (List DeadTask)
  pub remove : Option Error → ℕ → Store → Store × Option Error
  pub len : Option Error → Store → Result ℕ

abbrev pub MemoryDeadLetter : Type 0
MemoryDeadLetter = List (ℕ × DeadTask)

abbrev pub new_memory_dead_letter : MemoryDeadLetter
new_memory_dead_letter = []

-- The struct literal of Add leaves `Attempts` at zero.
unfoldable pub add :
    Option Error
    → ℤ
    → Option Task
    → Option Error
    → MemoryDeadLetter
    → MemoryDeadLetter × Option Error
add (some e) now t reason d = (d, some e)
add none now none reason d = (d, some (queue task_nil))
add none now (some t) reason d =
    (Table.insert t.id (record { task = t; reason = reason; attempts = 0; dead_at = now }) d, none)

-- The loop of List over the map, `listed` entries being collected already.
unfoldable pub collect : ℤ → ℕ → MemoryDeadLetter → List DeadTask
collect limit listed [] = []
collect limit listed ((id, dead) ∷ m) =
    let rest = collect limit (suc listed) m in
    if ltb_ℤ (pos 0) limit && leb (pos_part limit) listed then [] else dead ∷ rest

unfoldable pub list : Option Error → ℤ → MemoryDeadLetter → Result (List DeadTask)
list (some e) limit d = err e
list none limit d = ok (collect limit 0 d)

unfoldable pub remove : Option Error → ℕ → MemoryDeadLetter → MemoryDeadLetter × Option Error
remove (some e) id d = (d, some e)
remove none id d = (Table.delete id d, none)

unfoldable pub len : Option Error → MemoryDeadLetter → Result ℕ
len (some e) d = err e
len none d = ok (length d)

abbrev pub memory_dead_letter : DeadLetter
memory_dead_letter = record {
  Store = MemoryDeadLetter;
  add = add;
  list = list;
  remove = remove;
  len = len;
}
