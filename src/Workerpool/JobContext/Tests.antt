-- ===== src/Workerpool/JobContext/Tests.antt =====
-- The merged context on small inputs.
use go_asynctasklib.Workerpool.JobContext.{
  JobContext, Reach, new_job_context, register, after_func, end, wake, halt, stop, settle, value,
  same_value, unregistered, armed, stopping, finished, uncomparable, start, later, pool_registers,
  submit_registers, pool_ends, pool_runs, submit_runs, pool_stops,
}
use go_asynctasklib.Workerpool.JobContext.Merging.{Merges, new_job_context-Merges}
use go_asynctasklib.Base.{some, none, ◌≢◌, ◌≡◌, refl, false, true}
use go_asynctasklib.Base.Errors.{deadline_exceeded, canceled}

-- Two maps under one key.
value_run : value (some (uncomparable 5 0)) (some (uncomparable 5 1)) ≡ none
unfolding value same_value
value_run = refl

abbrev fresh : JobContext
fresh = record {
  pool_ctx = record { failure = none; callback = unregistered };
  submit_ctx = record { failure = some canceled; callback = unregistered };
  done = false;
  kept = none;
}

-- Submit's context had ended before; the pool's ends as well before its callback is stopped.
abbrev both_ended : JobContext
both_ended = record {
  pool_ctx = record { failure = some deadline_exceeded; callback = finished };
  submit_ctx = record { failure = some canceled; callback = stopping };
  done = true;
  kept = some canceled;
}

fresh_new : new_job_context (some none) (some (some canceled)) ≡ some fresh
unfolding new_job_context
fresh_new = refl

is_registered : armed ≢ unregistered
is_registered e = cc

is_running : stopping ≢ unregistered
is_running e = cc

both_ended_reached : Reach fresh both_ended
unfolding register after_func end wake halt stop settle
both_ended_reached =
    let registered =
      later (later start (pool_registers refl)) (submit_registers is_registered refl) in
    let settled = later (later registered (submit_runs refl)) (pool_ends deadline_exceeded refl) in
    later (later settled (pool_runs refl)) (pool_stops refl is_running)

new_job_context-Merges_example : Merges both_ended
new_job_context-Merges_example =
    new_job_context-Merges none (some canceled) fresh both_ended fresh_new both_ended_reached
