-- ===== src/Taskgroup.antt =====
-- pkg/taskgroup: the group's tasks, and its slots as the goroutines take and give them back.
pub mod Slots
pub mod Counts
pub mod Batch
pub mod Calls
pub mod ErrGroup
mod Tests
use go_asynctasklib.Base.{
  Option, none, some, true, false, ℕ, suc, ◌-◌, List, [], ◌∷◌, ◌++◌, length, Bool, if◌then◌else◌,
}
use go_asynctasklib.Base.Int.{ℤ, leb_ℤ, pos}
use go_asynctasklib.Base.Errors.{
  Result, Error, group, task_group_stopped, err, task_group_max_workers, ok,
}
use go_asynctasklib.Semaphore.{Semaphore, new_semaphore, acquire_with_context, release}
use go_asynctasklib.Task.{State, created, pending, started, done, failed, canceled}

-- The tasks are seen by their state alone; `submitting` and `running` count the calls of Submit
-- between AcquireWithContext and their end, and the goroutines that Submit left to release a slot.
pub record TaskGroup : Type 0 where
  pub sem : Semaphore
  pub tasks : List State
  pub stopped : Bool
  pub submitting : ℕ
  pub running : ℕ

unfoldable pub new : ℤ → Result TaskGroup
new max_workers =
    if leb_ℤ max_workers (pos 0)
    then err (group task_group_max_workers)
    else (elim (new_semaphore max_workers) [
      | none ↦ err (group task_group_max_workers)
      | some s ↦ ok (record { sem = s; tasks = []; stopped = false; submitting = 0; running = 0 })
    ])

-- Submit up to the slot: an error, or a slot that is held.
unfoldable pub submit_begin : Option Error → TaskGroup → Option (TaskGroup × Option Error)
submit_begin ctx_done g =
    if g.stopped
    then some (g, some (group task_group_stopped))
    else (elim (acquire_with_context ctx_done g.sem) [
      | none ↦ none
      | some r ↦ elim r.1 [
        | some e ↦ some (g, some e)
        | none ↦ some (record g { sem = r.0; submitting = suc g.submitting }, none)
      ]
    ])

-- Submit behind the slot, by what Task.Go returns and the state that it leaves.
unfoldable pub submit_end : State → Option Error → TaskGroup → Option (TaskGroup × Option Error)
submit_end s (some e) g = elim (release g.sem) [
  | none ↦ none
  | some sem ↦ some (record g { sem = sem; submitting = g.submitting - 1 }, some e)
]
submit_end s none g = some (
  record g { tasks = g.tasks ++ (s ∷ []); submitting = g.submitting - 1; running = suc g.running },
  none,
)

-- The goroutine behind a task that has ended.
unfoldable pub finish : TaskGroup → Option TaskGroup
finish g = elim (release g.sem) [
  | none ↦ none
  | some s ↦ some (record g { sem = s; running = g.running - 1 })
]

-- The flag that Stop sets; Calls has its cancels.
unfoldable pub stop : TaskGroup → TaskGroup
stop g = record g { stopped = true }

pub record Stats : Type 0 where
  pub total : ℕ
  pub created_count : ℕ
  pub pending_count : ℕ
  pub started_count : ℕ
  pub done_count : ℕ
  pub failed_count : ℕ
  pub canceled_count : ℕ
  pub max_workers : ℕ
  pub active_workers : ℕ
  pub is_stopped : Bool

-- One round of the loop of Stats, over one reading of the task's state.
unfoldable pub tally : State → Stats → Stats
tally created s = record s { created_count = suc s.created_count }
tally pending s = record s { pending_count = suc s.pending_count }
tally started s = record s { started_count = suc s.started_count }
tally done s = record s { done_count = suc s.done_count }
tally failed s = record s { failed_count = suc s.failed_count }
tally canceled s = record s { canceled_count = suc s.canceled_count }

unfoldable pub tally_all : List State → Stats → Stats
tally_all [] s = s
tally_all (t ∷ ts) s = tally_all ts (tally t s)

unfoldable pub stats : TaskGroup → Stats
stats g = tally_all g.tasks (record {
  total = length g.tasks;
  created_count = 0;
  pending_count = 0;
  started_count = 0;
  done_count = 0;
  failed_count = 0;
  canceled_count = 0;
  max_workers = g.sem.limit;
  active_workers = g.sem.acquired;
  is_stopped = g.stopped;
})
