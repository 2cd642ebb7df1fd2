-- ===== src/Taskgroup/Calls/Tests.antt =====
-- Runs of a group with Stop and Wait.
use go_asynctasklib.Base.{true, false, ℕ, ◌≡◌, inl, inr, arith, refl, ◌<◌, ◌⊎◌, ◌≤◌, suc, ◌+◌, zero}
use go_asynctasklib.Task.{started, done, is_in_progress}
use go_asynctasklib.Taskgroup.Calls.{
  Group, Entry, Step, Reach, put, cancel_in_progress, new_group, no_task, not_called, returned,
  canceling, not_waiting, has_returned, waiting, start, later,
}
use go_asynctasklib.Taskgroup.Calls as Calls
use go_asynctasklib.Taskgroup.Calls.Stopping.{IsHandled, stop-IsHandled}
use go_asynctasklib.Taskgroup.Calls.Waiting.{wait-IsEnded}

-- One task in the group, with its goroutine.
abbrev one_admitted : Group
one_admitted = record new_group { admitted = 1 }

abbrev one_task : Group
one_task = record new_group { submitted = 1; tasks = put 0 no_task new_group.tasks }

abbrev one_spawned : Group
one_spawned = record one_task { tasks = put 0 (record no_task { spawned = true }) one_task.tasks }

one_run : Reach new_group one_spawned
unfolding is_in_progress put
one_run =
    later
      (later (later start (Calls.admits refl))
        (Calls.appends started false (omega arith) (inr refl)))
      (Calls.spawns 0 (omega arith))

-- Stop copies the tasks, a second call of Submit is admitted, and Stop cancels and returns; then the
-- second task comes, and nobody cancels it.
abbrev copied_group : Group
copied_group = record one_spawned { stop = canceling 0 1; admitted = 1 }

abbrev canceled_group : Group
canceled_group = record copied_group {
  tasks = put 0 (cancel_in_progress (copied_group.tasks 0)) copied_group.tasks;
  stop = canceling 1 1;
}

abbrev stopped_group : Group
stopped_group = record canceled_group { stopped = true; stop = returned }

abbrev outlived : Group
outlived = record stopped_group {
  admitted = 0;
  submitted = 2;
  tasks = put 1 no_task stopped_group.tasks;
}

stop_run : Reach one_spawned stopped_group
stop_run =
    later
      (later (later (later start (Calls.stop_begins (inl refl))) (Calls.admits refl))
        (Calls.stop_cancels 0 1 refl (omega arith)))
      (Calls.stop_ends 1 refl)

outlived_run : Reach stopped_group outlived
unfolding is_in_progress
outlived_run = later start (Calls.appends started false (omega arith) (inr refl))

-- The second task is in progress behind the return of Stop, and its context is not canceled.
uncanceled :
    (is_in_progress (outlived.tasks 1).state ≡ true) × ((outlived.tasks 1).canceled ≡ false)
unfolding is_in_progress put
uncanceled = (refl, refl)

stop-IsHandled_example :
    ((i : ℕ) → i < 1 → IsHandled (outlived.tasks i)) × (outlived.submitted ≤ 1 + 1)
stop-IsHandled_example =
    stop-IsHandled one_spawned stopped_group outlived one_run refl stop_run refl outlived_run

-- Wait behind the end of the task and the release of its slot.
abbrev finished_group : Group
finished_group = record one_spawned {
  tasks = put 0 (record (one_spawned.tasks 0) { state = done; finished = true }) one_spawned.tasks;
  wait = waiting 1 false;
}

abbrev released_group : Group
released_group = record finished_group {
  tasks = put 0 (record (finished_group.tasks 0) { released = true }) finished_group.tasks;
}

abbrev waited_group : Group
waited_group = record released_group { wait = has_returned }

all_released :
    (i : ℕ)
    → i < 1
    → (released_group.tasks i).spawned ≡ true
    → (released_group.tasks i).released ≡ true
unfolding put
all_released zero l s = refl
all_released (suc i) l s = absurd (omega (arith, l))

all_finished : (i : ℕ) → i < 1 → (released_group.tasks i).finished ≡ true
unfolding put
all_finished zero l = refl
all_finished (suc i) l = absurd (omega (arith, l))

wait_run : Reach one_spawned waited_group
unfolding put
wait_run =
    later
      (later
        (later
          (later (later start (Calls.wait_begins (inl refl)))
            (Calls.proceeds 0 done true (omega arith) (inl refl) refl))
          (Calls.releases 0 (omega arith) refl refl))
        (Calls.wait_sees_zero 1 false refl all_released))
      (Calls.wait_ends 1 refl all_finished)

wait-IsEnded_example :
    ((waited_group.tasks 0).finished ≡ true)
    × (((one_spawned.tasks 0).spawned ≡ false) ⊎ ((waited_group.tasks 0).released ≡ true))
wait-IsEnded_example = wait-IsEnded one_spawned waited_group 0 refl wait_run refl (omega arith)
