-- ===== src/Task/Delegate/Tests.antt =====
-- Runs of a task with its goroutine.
use go_asynctasklib.Base.{[], none, some, ◌≡◌, refl, ◌≢◌, arith, Option}
use go_asynctasklib.Base.Int.{pos}
use go_asynctasklib.Base.Errors.{deadline_exceeded, Error}
use go_asynctasklib.Task.{Task, no_name, pending, run, enter, keep_err, timed_out, returned, done}
use go_asynctasklib.Task.Delegate.{
  exits, World, Step, Reach, new_world, start, later, begin, end_run, call_fn, leave, returns,
  starting, calling, sending, closed, waiting, ended,
}
use go_asynctasklib.Task.Delegate as Delegate
use go_asynctasklib.Task.Delegate.Exact.{EndsNil, Unclosed, done_fn_left}
use go_asynctasklib.Task.Delegate.Leak.{left_run-leaks}

abbrev pending_task : Task
pending_task = record {
  definition = record {
    id = 1;
    name = no_name;
    task_fn = some 0;
    hooks = none;
    delay = pos 0;
    max_duration = pos 5;
    retry_delay = pos 0;
    max_retries = pos 0;
    retry_strategy = none;
  };
  timeout = pos 5;
  state = pending;
  told = [];
  attempts = 0;
  last_err = none;
}

abbrev new : World
new = new_world pending_task none

abbrev called : World
called = record new { routine = calling }

abbrev at_send : World
at_send = record called { routine = sending none; result = some (returns none) }

called_run : Reach new called
unfolding begin
called_run = later start (Delegate.begins refl)

at_send_run : Reach new at_send
unfolding begin call_fn leave
at_send_run = later called_run (Delegate.fn_ends (returns none) refl)

abbrev done_world : World
done_world = end_run (returned none) (record at_send { routine = closed })

done_run : Reach new done_world
done_run = later at_send_run (Delegate.meets none refl refl)

is_done : done_world.task.state ≡ done
unfolding end_run run keep_err enter
is_done = refl

not_done : pending_task.state ≢ done
not_done e = ground (arith, e)

done_fn_left_example : EndsNil done_world.result × (done_world.routine ≡ closed)
done_fn_left_example = done_fn_left pending_task none done_world not_done done_run is_done

-- The timeout comes first, and the function returns later.
abbrev timed_world : World
timed_world = end_run (timed_out none) called

abbrev late_world : World
late_world = record timed_world { routine = sending none; result = some (returns none) }

abbrev later_world : World
later_world = record late_world { ctx = some deadline_exceeded }

later_run : Reach late_world later_world
unfolding end_run
later_run = later start (Delegate.context_ends deadline_exceeded refl)

has_left : late_world.caller ≡ ended (timed_out none)
unfolding end_run
has_left = refl

both_runs : Reach new late_world
unfolding end_run call_fn leave run keep_err enter
both_runs =
    later (later called_run (Delegate.times_out refl)) (Delegate.fn_ends (returns none) refl)

left_run-leaks_example :
    Unclosed later_world.routine later_world.result
    × ((r : Option Error) → late_world.routine ≡ sending r → later_world.routine ≡ sending r)
left_run-leaks_example =
    left_run-leaks pending_task none (timed_out none) late_world later_world both_runs has_left refl
      later_run

-- A function that ends its goroutine leaves the closed channel, and the task is DONE.
abbrev exited_world : World
exited_world = record called { routine = closed; result = some exits }

abbrev exited_done : World
exited_done = end_run (returned none) exited_world

exited_run : Reach new exited_done
unfolding begin call_fn leave
exited_run =
    later (later (later start (Delegate.begins refl)) (Delegate.fn_ends exits refl))
      (Delegate.reads_closed refl refl)

exited_state : exited_done.task.state ≡ done
unfolding end_run run keep_err enter
exited_state = refl
