-- ===== src/Taskgroup/Tests.antt =====
-- A run of a group of one worker.
use go_asynctasklib.Base.{◌∷◌, none, [], ◌≡◌, false, some, refl, arith}
use go_asynctasklib.Taskgroup.{new, finish, TaskGroup, submit_begin, submit_end}
use go_asynctasklib.Task.{started}
use go_asynctasklib.Semaphore.{new_semaphore, release, acquire_with_context, acquire}
use go_asynctasklib.Taskgroup.Slots.{
  Steps, IsAccounted, then_step, new-IsAccounted, start, begins, ends, finishes,
}
use go_asynctasklib.Base.Int.{pos}
use go_asynctasklib.Base.Errors.{ok}

abbrev empty_group : TaskGroup
empty_group = record {
  sem = record { limit = 1; acquired = 0 };
  tasks = [];
  stopped = false;
  submitting = 0;
  running = 0;
}

abbrev claimed_group : TaskGroup
claimed_group = record empty_group { sem = record { limit = 1; acquired = 1 }; submitting = 1 }

abbrev busy_group : TaskGroup
busy_group = record empty_group {
  sem = record { limit = 1; acquired = 1 };
  tasks = started ∷ [];
  running = 1;
}

abbrev idle_group : TaskGroup
idle_group = record empty_group { tasks = started ∷ [] }

new_run : new (pos 1) ≡ ok empty_group
unfolding new new_semaphore
new_run = refl

begin_run : submit_begin none empty_group ≡ some (claimed_group, none)
unfolding submit_begin acquire_with_context acquire
begin_run = refl

-- The only slot is taken, so the call blocks.
begin_blocked : submit_begin none busy_group ≡ none
unfolding submit_begin acquire_with_context acquire
begin_blocked = refl

end_run : submit_end started none claimed_group ≡ some (busy_group, none)
unfolding submit_end
end_run = refl

finish_run : finish busy_group ≡ some idle_group
unfolding finish release
finish_run = refl

run : Steps empty_group idle_group
run =
    then_step _ _ _
      (then_step _ _ _ (then_step _ _ _ (start _) (begins none none _ _ begin_run))
        (ends started none none _ _ (omega arith) end_run))
      (finishes _ _ (omega arith) finish_run)

new-IsAccounted_example : IsAccounted 1 idle_group
new-IsAccounted_example = new-IsAccounted 0 empty_group idle_group new_run run
